-- ===== src/Node/Receipts/Accounted.antt =====
-- The operations of crates/hashring-node/src/dedup.rs keep the bytes of the receipt store and its index
-- in step with its receipts.
use hashring_rs.Prelude.{
  ℕ, ◌+◌, ◌-◌, ◌≤◌, ◌≡◌, refl, subst, ap, inl, inr, Bytes, same, same-true, [], Bool, false, not,
  ◌||◌, ◌==◌, Bool-cases, arith, length, is_empty, Option, none, some,
}
use hashring_rs.Node.Versions.{RecordVersion}
use hashring_rs.Node.Index.{TokenIndex, contains}
use hashring_rs.Node.Buckets.{IsIndex}
use hashring_rs.Node.Dedup.{same_version}
use hashring_rs.Node.Store.{Map, find_entry, put_entry}
use hashring_rs.Node.Store.Entries.{find_entry-put_entry}
use hashring_rs.Node.Receipts.{
  DedupEntry, Sizes, ReceiptState, dedup_retained_bytes, required_ack_retained_bytes, released,
  complete, complete_required_acks,
}
use hashring_rs.Node.Receipts.Totals.{
  IsMap, total, weight_of, total-put_entry, total-remove_entry, put_entry-IsMap,
}

abbrev pub retained : DedupEntry → ℕ
retained entry = entry.retained_bytes

module _ (sizes : Sizes) (token_of : Bytes → ℕ) (limit : ℕ) where
  abbrev pub at_token : Option DedupEntry → ℕ → Bool
  at_token none token = false
  at_token (some entry) token = token == token_of entry.key

  -- A receipt's bytes are those of its texts and of its acknowledgements.
  abbrev pub Exact : Bytes → Option DedupEntry → Type 0
  Exact id none = Unit
  Exact id (some entry) =
      entry.retained_bytes
      ≡ dedup_retained_bytes sizes id (length entry.key) (length entry.version.owner_node_id)
        + released sizes entry.required_acks

  abbrev pub IsAccounted : ReceiptState → Type 0
  IsAccounted state =
      IsMap state.dedup
      × (IsIndex state.dedup_by_token
          × ((token : ℕ) (id : Bytes)
              → contains state.dedup_by_token token id
                ≡ at_token (find_entry state.dedup id) token))
      × ((id : Bytes) → Exact id (find_entry state.dedup id))
      × (total retained state.dedup ≡ state.dedup_bytes)
      × (state.dedup_bytes ≤ limit)

  pub weight_le :
      (entries : Map DedupEntry) (id : Bytes) (entry : DedupEntry)
      → find_entry entries id ≡ some entry
      → IsMap entries
      → entry.retained_bytes ≤ total retained entries
  weight_le entries id entry e m =
      omega (arith, total-remove_entry retained entries id m, ap (weight_of retained) e)

  -- An entry whose key stays in place of one that was there.
  pub put-contains :
      (entries : Map DedupEntry) (index : TokenIndex) (id : Bytes) (old new : DedupEntry)
      → find_entry entries id ≡ some old
      → old.key ≡ new.key
      → ((token : ℕ) (k : Bytes) → contains index token k ≡ at_token (find_entry entries k) token)
      → (token : ℕ) (k : Bytes)
      → contains index token k ≡ at_token (find_entry (put_entry entries id new) k) token
  put-contains entries index id old new e k m token other =
      ground (arith, find_entry-put_entry entries id new other, m token other)

  pub put-Exact :
      (entries : Map DedupEntry) (id : Bytes) (new : DedupEntry)
      → Exact id (some new)
      → ((k : Bytes) → Exact k (find_entry entries k))
      → (k : Bytes) → Exact k (find_entry (put_entry entries id new) k)
  put-Exact entries id new e m k =
      rw (find_entry-put_entry entries id new k) (elim (Bool-cases (same id k)) [
        | inl c ↦ rw c (subst (λ j. Exact j (some new)) (same-true id k c) e)
        | inr c ↦ rw c (m k)
      ])

  complete-IsAccounted :
      (state : ReceiptState) (id : Bytes) (version : RecordVersion) (o : Option DedupEntry)
      → find_entry state.dedup id ≡ o
      → IsAccounted state
      → IsAccounted (complete sizes state id version o)
  complete-IsAccounted state id version none e m = m
  complete-IsAccounted state id version (some entry) e
        (unique, (ordered, places), exact, sum, few) =
      elim (Bool-cases (not (same_version entry.version version) || is_empty entry.required_acks)) [
        | inl c ↦ rw c (unique, (ordered, places), exact, sum, few)
        | inr c ↦
            let freed = released sizes entry.required_acks in
            let own : Exact id (some entry) = subst (Exact id) e (exact id) in
            let after = record entry {
              required_acks = [];
              retained_bytes = entry.retained_bytes - freed;
            } in
            rw c (
              put_entry-IsMap retained state.dedup id after unique,
              (ordered, put-contains state.dedup state.dedup_by_token id entry after e refl places),
              put-Exact state.dedup id after
                  (unfold required_ack_retained_bytes in omega (arith, own)) exact,
              omega (
                arith,
                total-put_entry retained state.dedup id after,
                ap (weight_of retained) e,
                sum,
                weight_le state.dedup id entry e unique,
                own,
              ),
              omega (arith, few),
            )
      ]

  pub complete_required_acks-IsAccounted :
      (state : ReceiptState) (id : Bytes) (version : RecordVersion)
      → IsAccounted state
      → IsAccounted (complete_required_acks sizes state id version)
  unfolding complete_required_acks
  complete_required_acks-IsAccounted state id version m =
      complete-IsAccounted state id version (find_entry state.dedup id) refl m
