-- ===== src/Node/Receipts/Reachable.antt =====
-- The receipts of a data node through the writes and deliveries of crates/hashring-node/src/rpc.rs and
-- the operations of crates/hashring-node/src/dedup.rs, one after another.
use hashring_rs.Prelude.{
  ℕ, ◌+◌, ◌-◌, ◌^◌, ◌≤◌, ◌<◌, ◌≡◌, refl, sym, ap, ◌∙◌, Bytes, same_refl, List, [], Bool, true,
  arith, length, Option, none, some,
}
use hashring_rs.Node.Versions.{RecordVersion}
use hashring_rs.Node.Store.{find_entry}
use hashring_rs.Node.Store.Entries.{find_entry-put_entry}
use hashring_rs.Node.Receipts.{
  DedupEntry, Sizes, RequiredAck, ReceiptState, dedup_retained_bytes, required_ack_retained_bytes,
  released, saturating_add, has_room, complete_required_acks, replace, insert_dedup_until,
  charge_acks, purge_expired_dedup,
}
use hashring_rs.Node.Receipts.Accounted.{IsAccounted, complete_required_acks-IsAccounted}
use hashring_rs.Node.Receipts.Written.{
  insert-IsAccounted, charge-IsAccounted, purge_expired_dedup-IsAccounted,
}

abbrev acks_of : Option DedupEntry → List RequiredAck
acks_of none = []
acks_of (some entry) = entry.required_acks

module _ (sizes : Sizes) (token_of : Bytes → ℕ) (limit : ℕ) where
  abbrev base : Bytes → Bytes → RecordVersion → ℕ
  base id key version = dedup_retained_bytes sizes id (length key) (length version.owner_node_id)

  -- A receipt that a follower takes with an entry of its stream, one of an owner's write with the
  -- acknowledgements it waits for, their arrival, and a purge.
  pub data Receipts : ReceiptState → ReceiptState → Type 0 where
    done : {state : ReceiptState} → Receipts state state
    delivered :
        {before after : ReceiptState} (id key fingerprint : Bytes) (version : RecordVersion)
        (deleted : Bool) (expires_at : ℕ)
        → has_room after.dedup_bytes (base id key version) limit ≡ true
        → Receipts before after
        → Receipts before
            (insert_dedup_until sizes token_of after id key fingerprint version deleted expires_at)
    written :
        {before after : ReceiptState} (id key fingerprint : Bytes) (version : RecordVersion)
        (deleted : Bool) (expires_at : ℕ) (acks : List RequiredAck)
        → has_room after.dedup_bytes
            (saturating_add (base id key version) (released sizes acks))
            limit
          ≡ true
        → Receipts before after
        → Receipts before (
            charge_acks sizes token_of
              (insert_dedup_until sizes token_of after id key fingerprint version deleted
                expires_at)
              id
              acks
              (released sizes acks))
    completed :
        {before after : ReceiptState} (id : Bytes) (version : RecordVersion)
        → Receipts before after
        → Receipts before (complete_required_acks sizes after id version)
    purged :
        {before after : ReceiptState} (now : ℕ)
        → Receipts before after
        → Receipts before (purge_expired_dedup sizes token_of after now)

  new_receipt : Bytes → Bytes → Bytes → RecordVersion → Bool → ℕ → DedupEntry
  new_receipt id key fingerprint version deleted expires_at = record {
    key = key;
    fingerprint = fingerprint;
    version = version;
    deleted = deleted;
    retained_bytes = base id key version;
    expires_at = expires_at;
    required_acks = [];
  }

  insert_dedup_until-IsAccounted :
      (state : ReceiptState) (id key fingerprint : Bytes) (version : RecordVersion) (deleted : Bool)
      (expires_at : ℕ)
      → state.dedup_bytes + base id key version ≤ limit
      → IsAccounted sizes token_of limit state
      → IsAccounted sizes token_of limit
          (insert_dedup_until sizes token_of state id key fingerprint version deleted expires_at)
  unfolding insert_dedup_until new_receipt
  insert_dedup_until-IsAccounted state id key fingerprint version deleted expires_at room m =
      insert-IsAccounted sizes token_of limit state id
        (new_receipt id key fingerprint version deleted expires_at) (find_entry state.dedup id) refl
        (unfold required_ack_retained_bytes in omega arith) room m

  replace-bytes_le :
      (state : ReceiptState) (id : Bytes) (o : Option DedupEntry)
      → (replace sizes token_of state id o).dedup_bytes ≤ state.dedup_bytes
  replace-bytes_le state id none = omega arith
  replace-bytes_le state id (some previous) = omega arith

  -- What a write has put in, before its acknowledgements are charged.
  inserted-bytes_le :
      (state : ReceiptState) (id key fingerprint : Bytes) (version : RecordVersion) (deleted : Bool)
      (expires_at : ℕ)
      → (insert_dedup_until sizes token_of state id key fingerprint version deleted
          expires_at).dedup_bytes
        ≤ state.dedup_bytes + base id key version
  unfolding insert_dedup_until
  inserted-bytes_le state id key fingerprint version deleted expires_at =
      omega (arith, replace-bytes_le state id (find_entry state.dedup id))

  inserted-find_entry :
      (state : ReceiptState) (id key fingerprint : Bytes) (version : RecordVersion) (deleted : Bool)
      (expires_at : ℕ)
      → find_entry
          (insert_dedup_until sizes token_of state id key fingerprint version deleted
            expires_at).dedup
          id
        ≡ some (new_receipt id key fingerprint version deleted expires_at)
  unfolding insert_dedup_until new_receipt
  inserted-find_entry state id key fingerprint version deleted expires_at =
      find_entry-put_entry _ id (new_receipt id key fingerprint version deleted expires_at) id
      ∙ rw (same_refl id) refl

  write-IsAccounted :
      (state : ReceiptState) (id key fingerprint : Bytes) (version : RecordVersion) (deleted : Bool)
      (expires_at : ℕ) (acks : List RequiredAck)
      → state.dedup_bytes + (base id key version + released sizes acks) ≤ limit
      → IsAccounted sizes token_of limit state
      → IsAccounted sizes token_of limit (
          charge_acks sizes token_of
            (insert_dedup_until sizes token_of state id key fingerprint version deleted expires_at)
            id
            acks
            (released sizes acks))
  unfolding charge_acks new_receipt
  write-IsAccounted state id key fingerprint version deleted expires_at acks room m =
      let inserted =
        insert_dedup_until sizes token_of state id key fingerprint version deleted expires_at in
      let new = new_receipt id key fingerprint version deleted expires_at in
      let there = inserted-find_entry state id key fingerprint version deleted expires_at in
      charge-IsAccounted sizes token_of limit inserted id acks (find_entry inserted.dedup id) refl
        (λ entry e. ap (λ o. acks_of o) (sym e ∙ there))
        (omega (arith, room, inserted-bytes_le state id key fingerprint version deleted expires_at))
        (insert_dedup_until-IsAccounted state id key fingerprint version deleted expires_at
          (omega (arith, room)) m)

  -- Where the limit is below the greatest 64-bit number: if a receipt store holds each mutation once,
  -- the index has exactly its mutations at the tokens of their keys, each receipt's bytes are those of
  -- its texts and acknowledgements, and `dedup_bytes` is their sum and within the limit, then all that
  -- holds of every store that the operations lead to from there.
  pub Receipts-IsAccounted :
      {before after : ReceiptState}
      → limit < 2 ^ 64 - 1
      → Receipts before after
      → IsAccounted sizes token_of limit before
      → IsAccounted sizes token_of limit after
  Receipts-IsAccounted small done m = m
  Receipts-IsAccounted small
        (delivered {after = s} id key fingerprint version deleted expires_at room steps) m =
      insert_dedup_until-IsAccounted s id key fingerprint version deleted expires_at (ground arith)
        (Receipts-IsAccounted small steps m)
  Receipts-IsAccounted small
        (written {after = s} id key fingerprint version deleted expires_at acks room steps) m =
      write-IsAccounted s id key fingerprint version deleted expires_at acks (ground arith)
        (Receipts-IsAccounted small steps m)
  Receipts-IsAccounted small (completed {after = s} id version steps) m =
      complete_required_acks-IsAccounted sizes token_of limit s id version
        (Receipts-IsAccounted small steps m)
  Receipts-IsAccounted small (purged {after = s} now steps) m =
      purge_expired_dedup-IsAccounted sizes token_of limit s now
        (Receipts-IsAccounted small steps m)
