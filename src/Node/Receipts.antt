-- ===== src/Node/Receipts.antt =====
-- The store of deduplication receipts of a data node: the fields of `NodeState` in
-- crates/hashring-node/src/lib.rs that hold them, the operations of crates/hashring-node/src/dedup.rs,
-- and what a write of crates/hashring-node/src/rpc.rs does to them. An `Instant` is a number of
-- nanoseconds, a `BinaryHeap` the list of what it pops in order. `size_of` is a parameter.
pub mod Totals
pub mod Accounted
pub mod Written
pub mod Reachable
mod Tests
use Prim.Native.Nat.{ℕ, zero, suc}
use hashring_rs.Prelude.{
  ◌+◌, ◌-◌, ◌*◌, ◌/◌, ◌^◌, Bytes, same, bytes_leb, List, [], ◌∷◌, map, Bool, true, false, not, ◌&&◌,
  ◌||◌, ltb, leb, ◌==◌, length, is_empty, if◌then◌else◌, Option, none, some,
}
use hashring_rs.Node.Versions.{RecordVersion}
use hashring_rs.Node.Index.{TokenIndex, insert, remove}
use hashring_rs.Node.Store.{Map, find_entry, put_entry, remove_entry}
use hashring_rs.Node.Dedup.{same_version}

-- `(u64, String, u64)`: an epoch, a follower and a sequence of its stream.
abbrev pub RequiredAck : Type 0
RequiredAck = ℕ × Bytes × ℕ

pub record DedupEntry : Type 0 where
  pub key : Bytes
  pub fingerprint : Bytes
  pub version : RecordVersion
  pub deleted : Bool
  pub retained_bytes : ℕ
  pub expires_at : ℕ
  pub required_acks : List RequiredAck

-- `std::mem::size_of` of `(Arc<str>, DedupEntry)`, of `(Instant, Arc<str>)` and of `RequiredAck`.
pub record Sizes : Type 0 where
  pub dedup_entry : ℕ
  pub expiration : ℕ
  pub required_ack : ℕ

-- `BinaryHeap<Reverse<(Instant, Arc<str>)>>`
abbrev pub Expirations : Type 0
Expirations = List (ℕ × Bytes)

unfoldable pub push : Expirations → ℕ × Bytes → Expirations
push [] e = e ∷ []
push (x ∷ xs) e =
    let later = push xs e in
    if ltb e.0 x.0 || e.0 == x.0 && bytes_leb e.1 x.1 then e ∷ x ∷ xs else x ∷ later

pub record ReceiptState : Type 0 where
  pub dedup : Map DedupEntry
  pub dedup_by_token : TokenIndex
  pub dedup_expirations : Expirations
  pub dedup_bytes : ℕ
  pub dedup_peak_bytes : ℕ
  pub ack_progress_needs_prune : Bool
  pub next_ack_prune_at : ℕ

abbrev max : ℕ → ℕ → ℕ
max a b = if ltb a b then b else a

abbrev min : ℕ → ℕ → ℕ
min a b = if ltb b a then b else a

abbrev pub saturating_add : ℕ → ℕ → ℕ
saturating_add a b = min (a + b) (2 ^ 64 - 1)

-- Whether a receipt of this cost is let in.
abbrev pub has_room : ℕ → ℕ → ℕ → Bool
has_room dedup_bytes cost max_dedup_bytes =
    not (ltb max_dedup_bytes (saturating_add dedup_bytes cost))

unfoldable pub remaining_retention_millis : ℕ → ℕ → ℕ → ℕ
remaining_retention_millis expires_at now retention_millis =
    let remaining = expires_at - now in
    if remaining == 0
    then 0
    else min (min ((remaining + 999_999) / 1_000_000) (2 ^ 64 - 1)) retention_millis

unfoldable pub dedup_retry_after_millis : ReceiptState → ℕ → ℕ → ℕ
unfolding remaining_retention_millis
dedup_retry_after_millis state now retention_millis = first state.dedup_expirations
  where
    first : Expirations → ℕ
    first [] = 1
    first (e ∷ es) = max (remaining_retention_millis e.0 now retention_millis) 1

module _ (sizes : Sizes) where
  unfoldable pub dedup_retained_bytes : Bytes → ℕ → ℕ → ℕ
  dedup_retained_bytes mutation_id key_len owner_len =
      length mutation_id + key_len + owner_len + sizes.dedup_entry + sizes.expiration + 32 + 64

  unfoldable pub required_ack_entry_bytes : ℕ → ℕ
  required_ack_entry_bytes node_id_len = 2 * sizes.required_ack + node_id_len + 64

  unfoldable pub required_ack_retained_bytes : List Bytes → ℕ
  unfolding required_ack_entry_bytes
  required_ack_retained_bytes [] = 0
  required_ack_retained_bytes (node_id ∷ followers) =
      required_ack_entry_bytes (length node_id) + required_ack_retained_bytes followers

  -- The bytes that acknowledgements hold.
  abbrev pub released : List RequiredAck → ℕ
  released acks = required_ack_retained_bytes (map (λ ack. ack.1) acks)

  abbrev pub without_acks : ReceiptState → Bytes → DedupEntry → ReceiptState
  without_acks state mutation_id entry = record state {
    dedup = put_entry state.dedup mutation_id (record entry {
      required_acks = [];
      retained_bytes = entry.retained_bytes - released entry.required_acks;
    });
    dedup_bytes = state.dedup_bytes - released entry.required_acks;
  }

  -- `complete_required_acks`, with what it finds for the mutation.
  abbrev pub complete : ReceiptState → Bytes → RecordVersion → Option DedupEntry → ReceiptState
  complete state mutation_id version none = state
  complete state mutation_id version (some entry) =
      if not (same_version entry.version version) || is_empty entry.required_acks
      then state
      else without_acks state mutation_id entry

  unfoldable pub complete_required_acks : ReceiptState → Bytes → RecordVersion → ReceiptState
  unfolding required_ack_retained_bytes
  complete_required_acks state mutation_id version =
      complete state mutation_id version (find_entry state.dedup mutation_id)

  -- The token of a key in the node's topology.
  module _ (token_of : Bytes → ℕ) where
    -- What a receipt that is replaced leaves, with its bytes and its place in the index.
    abbrev pub replace : ReceiptState → Bytes → Option DedupEntry → ReceiptState
    replace state mutation_id none = state
    replace state mutation_id (some previous) = record state {
      dedup_by_token = (remove state.dedup_by_token (token_of previous.key) mutation_id).0;
      dedup_bytes = state.dedup_bytes - previous.retained_bytes;
    }

    abbrev pub add_receipt : ReceiptState → Bytes → DedupEntry → ReceiptState
    add_receipt state mutation_id entry = record state {
      dedup = put_entry state.dedup mutation_id entry;
      dedup_by_token = insert state.dedup_by_token (token_of entry.key) mutation_id;
      dedup_expirations = push state.dedup_expirations (entry.expires_at, mutation_id);
      dedup_bytes = state.dedup_bytes + entry.retained_bytes;
      dedup_peak_bytes = max state.dedup_peak_bytes (state.dedup_bytes + entry.retained_bytes);
    }

    unfoldable pub insert_dedup_until :
        ReceiptState → Bytes → Bytes → Bytes → RecordVersion → Bool → ℕ → ReceiptState
    unfolding dedup_retained_bytes push insert remove
    insert_dedup_until state mutation_id key fingerprint version deleted expires_at =
        add_receipt (replace state mutation_id (find_entry state.dedup mutation_id)) mutation_id
          (record {
            key = key;
            fingerprint = fingerprint;
            version = version;
            deleted = deleted;
            retained_bytes =
                dedup_retained_bytes mutation_id (length key) (length version.owner_node_id);
            expires_at = expires_at;
            required_acks = [];
          })

    -- The acknowledgements that an owner's write waits for, and their cost.
    abbrev pub charge :
        ReceiptState → Bytes → List RequiredAck → ℕ → Option DedupEntry → ReceiptState
    charge state mutation_id acks ack_cost none = state
    charge state mutation_id acks ack_cost (some entry) = record state {
      dedup =
          put_entry state.dedup mutation_id (record entry {
            required_acks = acks;
            retained_bytes = entry.retained_bytes + ack_cost;
          });
      dedup_bytes = state.dedup_bytes + ack_cost;
      dedup_peak_bytes = max state.dedup_peak_bytes (state.dedup_bytes + ack_cost);
    }

    unfoldable pub charge_acks : ReceiptState → Bytes → List RequiredAck → ℕ → ReceiptState
    charge_acks state mutation_id acks ack_cost =
        charge state mutation_id acks ack_cost (find_entry state.dedup mutation_id)

    -- An expiration that was popped, with the receipt that its mutation has now.
    abbrev pub expire_receipt : ReceiptState → ℕ → Bytes → Option DedupEntry → ReceiptState × Bool
    expire_receipt state now mutation_id none = (state, false)
    expire_receipt state now mutation_id (some entry) =
        if leb entry.expires_at now
        then (
          record state {
            dedup = remove_entry state.dedup mutation_id;
            dedup_by_token = (remove state.dedup_by_token (token_of entry.key) mutation_id).0;
            dedup_bytes = state.dedup_bytes - entry.retained_bytes;
          },
          true,
        )
        else (state, false)

    abbrev pub or_removed : Bool → ReceiptState × Bool → ReceiptState × Bool
    or_removed removed (state, more) = (state, removed || more)

    -- The loop over what the heap pops, and whether it removed a receipt.
    unfoldable pub purge_from : Expirations → ReceiptState → ℕ → ReceiptState × Bool
    unfolding remove
    purge_from [] state now = (record state { dedup_expirations = [] }, false)
    purge_from (e ∷ es) state now =
        let first = expire_receipt state now e.1 (find_entry state.dedup e.1) in
        let rest = purge_from es first.0 now in
        if leb e.0 now
        then or_removed first.1 rest
        else (record state { dedup_expirations = e ∷ es }, false)

    -- The times are taken by the diagnostics, and the pruning of acknowledgements is of other fields.
    abbrev pub note_prune : ℕ → ReceiptState × Bool → ReceiptState
    note_prune now (state, removed) =
        let needs = state.ack_progress_needs_prune || removed in
        if needs && leb state.next_ack_prune_at now
        then record state {
          ack_progress_needs_prune = false;
          next_ack_prune_at = now + 1_000_000_000;
        }
        else record state { ack_progress_needs_prune = needs }

    unfoldable pub purge_expired_dedup : ReceiptState → ℕ → ReceiptState
    unfolding purge_from
    purge_expired_dedup state now = note_prune now (purge_from state.dedup_expirations state now)
