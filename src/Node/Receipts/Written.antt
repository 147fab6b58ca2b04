-- ===== src/Node/Receipts/Written.antt =====
-- Receipts that are written, charged and purged in crates/hashring-node/src/dedup.rs and rpc.rs, one
-- operation after another.
use hashring_rs.Prelude.{
  ℕ, ◌+◌, ◌≤◌, ◌≡◌, refl, subst, ap, inl, inr, Bytes, same, List, [], ◌∷◌, Bool, ◌&&◌, ◌||◌, leb,
  Bool-cases, arith, Option, none, some,
}
use hashring_rs.Node.Index.{remove}
use hashring_rs.Node.Contents.{contains-insert, contains-remove}
use hashring_rs.Node.Invariant.{insert-remove-IsIndex}
use hashring_rs.Node.Store.{find_entry}
use hashring_rs.Node.Store.Entries.{find_entry-put_entry, find_entry-remove_entry}
use hashring_rs.Node.Receipts.{
  DedupEntry, Sizes, RequiredAck, Expirations, ReceiptState, required_ack_retained_bytes, released,
  replace, add_receipt, charge, expire_receipt, purge_from, note_prune, purge_expired_dedup,
}
use hashring_rs.Node.Receipts.Totals.{
  weight_of, total-put_entry, total-remove_entry, put_entry-IsMap, remove_entry-IsMap,
}
use hashring_rs.Node.Receipts.Accounted.{
  retained, Exact, IsAccounted, weight_le, put-contains, put-Exact,
}

module _ (sizes : Sizes) (token_of : Bytes → ℕ) (limit : ℕ) where
  abbrev pub Accounted : ReceiptState → Type 0
  Accounted state = IsAccounted sizes token_of limit state

  -- A new receipt, in place of what is found for its mutation.
  pub insert-IsAccounted :
      (state : ReceiptState) (id : Bytes) (new : DedupEntry) (o : Option DedupEntry)
      → find_entry state.dedup id ≡ o
      → Exact sizes token_of limit id (some new)
      → state.dedup_bytes + new.retained_bytes ≤ limit
      → Accounted state
      → Accounted (add_receipt sizes token_of (replace sizes token_of state id o) id new)
  insert-IsAccounted state id new none e x room (unique, (ordered, places), exact, sum, few) = (
    put_entry-IsMap retained state.dedup id new unique,
    (
      (insert-remove-IsIndex state.dedup_by_token (token_of new.key) id ordered).0,
      λ t k. ground (
        arith,
        contains-insert state.dedup_by_token (token_of new.key) id t k,
        places t k,
        find_entry-put_entry state.dedup id new k,
      ),
    ),
    put-Exact sizes token_of limit state.dedup id new x exact,
    omega (arith, total-put_entry retained state.dedup id new, ap (weight_of retained) e, sum),
    omega (arith, room),
  )
  insert-IsAccounted state id new (some old) e x room (unique, (ordered, places), exact, sum, few) =
      let index = (remove state.dedup_by_token (token_of old.key) id).0 in
      (
        put_entry-IsMap retained state.dedup id new unique,
        (
          (insert-remove-IsIndex index (token_of new.key) id
              (insert-remove-IsIndex state.dedup_by_token (token_of old.key) id ordered).1).0,
          λ t k. ground (
            arith,
            contains-insert index (token_of new.key) id t k,
            places t k,
            (contains-remove state.dedup_by_token (token_of old.key) id t k ordered).1,
            find_entry-put_entry state.dedup id new k,
          ),
        ),
        put-Exact sizes token_of limit state.dedup id new x exact,
        omega (
          arith,
          total-put_entry retained state.dedup id new,
          ap (weight_of retained) e,
          sum,
          weight_le sizes token_of limit state.dedup id old e unique,
        ),
        omega (arith, room),
      )

  pub charge-IsAccounted :
      (state : ReceiptState) (id : Bytes) (acks : List RequiredAck) (o : Option DedupEntry)
      → find_entry state.dedup id ≡ o
      → ((entry : DedupEntry) → o ≡ some entry → entry.required_acks ≡ [])
      → state.dedup_bytes + released sizes acks ≤ limit
      → Accounted state
      → Accounted (charge sizes token_of state id acks (released sizes acks) o)
  charge-IsAccounted state id acks none e fresh room m = m
  charge-IsAccounted state id acks (some entry) e fresh room
        (unique, (ordered, places), exact, sum, few) =
      let own : Exact sizes token_of limit id (some entry) =
        subst (Exact sizes token_of limit id) e (exact id) in
      let none_held : released sizes entry.required_acks ≡ 0 =
        rw (fresh entry refl) (unfold required_ack_retained_bytes in refl) in
      let after = record entry {
        required_acks = acks;
        retained_bytes = entry.retained_bytes + released sizes acks;
      } in
      (
        put_entry-IsMap retained state.dedup id after unique,
        (
          ordered,
          put-contains sizes token_of limit state.dedup state.dedup_by_token id entry after e refl
              places,
        ),
        put-Exact sizes token_of limit state.dedup id after (omega (arith, own, none_held)) exact,
        omega
            (arith, total-put_entry retained state.dedup id after, ap (weight_of retained) e, sum),
        omega (arith, room),
      )

  expire_receipt-IsAccounted :
      (state : ReceiptState) (now : ℕ) (id : Bytes) (o : Option DedupEntry)
      → find_entry state.dedup id ≡ o
      → Accounted state
      → Accounted (expire_receipt sizes token_of state now id o).0
  expire_receipt-IsAccounted state now id none e m = m
  expire_receipt-IsAccounted state now id (some entry) e
        (unique, (ordered, places), exact, sum, few) =
      elim (Bool-cases (leb entry.expires_at now)) [
        | inl c ↦ rw c (
          remove_entry-IsMap retained state.dedup id unique,
          (
            (insert-remove-IsIndex state.dedup_by_token (token_of entry.key) id ordered).1,
            λ t k. ground (
              arith,
              places t k,
              (contains-remove state.dedup_by_token (token_of entry.key) id t k ordered).1,
              find_entry-remove_entry state.dedup id k,
            ),
          ),
          (λ k.
              rw (find_entry-remove_entry state.dedup id k)
                (elim (Bool-cases (same id k)) [ inl s ↦ rw s tt | inr s ↦ rw s (exact k) ])),
          omega (
            arith,
            total-remove_entry retained state.dedup id unique,
            ap (weight_of retained) e,
            sum,
          ),
          omega (arith, few),
        )
        | inr c ↦ rw c (unique, (ordered, places), exact, sum, few)
      ]

  purge_from-IsAccounted :
      (es : Expirations) (state : ReceiptState) (now : ℕ)
      → Accounted state
      → Accounted (purge_from sizes token_of es state now).0
  unfolding purge_from
  purge_from-IsAccounted [] state now m = m
  purge_from-IsAccounted (e ∷ es) state now m =
      let first = expire_receipt sizes token_of state now e.1 (find_entry state.dedup e.1) in
      let rest =
        purge_from-IsAccounted es first.0 now
          (expire_receipt-IsAccounted state now e.1 (find_entry state.dedup e.1) refl m) in
      elim (Bool-cases (leb e.0 now)) [ inl c ↦ rw c rest | inr c ↦ rw c m ]

  note_prune-IsAccounted :
      (now : ℕ) (out : ReceiptState × Bool)
      → Accounted out.0
      → Accounted (note_prune sizes token_of now out)
  note_prune-IsAccounted now (state, removed) m =
      elim (Bool-cases
        ((state.ack_progress_needs_prune || removed) && leb state.next_ack_prune_at now)) [
          | inl c ↦ rw c m
          | inr c ↦ rw c m
        ]

  pub purge_expired_dedup-IsAccounted :
      (state : ReceiptState) (now : ℕ)
      → Accounted state
      → Accounted (purge_expired_dedup sizes token_of state now)
  unfolding purge_expired_dedup
  purge_expired_dedup-IsAccounted state now m =
      note_prune-IsAccounted now (purge_from sizes token_of state.dedup_expirations state now)
        (purge_from-IsAccounted state.dedup_expirations state now m)
