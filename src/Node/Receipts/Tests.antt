-- ===== src/Node/Receipts/Tests.antt =====
-- Runs of the receipts' operations, and of what is hashed of a mutation.
use hashring_rs.Prelude.{
  ℕ, ◌≡◌, refl, Bytes, codes, Bytes_discrete, ℕ_discrete, List, [], ◌∷◌, true, false, arith, length,
  some,
}
use hashring_rs.Node.Versions.{RecordVersion}
use hashring_rs.Node.Index.{contains}
use hashring_rs.Node.Dedup.{absent, MutationShape, value_shape, with_condition}
use hashring_rs.Node.Dedup.Preimage.{preimage-injective}
use hashring_rs.Node.Receipts.{
  Sizes, RequiredAck, ReceiptState, dedup_retained_bytes, required_ack_retained_bytes, released,
  has_room, insert_dedup_until, charge_acks, complete_required_acks, purge_expired_dedup,
}
use hashring_rs.Node.Receipts.Accounted.{IsAccounted}
use hashring_rs.Node.Receipts.Reachable.{done, written, completed, purged, Receipts-IsAccounted}

abbrev sizes : Sizes
sizes = record { dedup_entry = 152; expiration = 32; required_ack = 40 }

abbrev token_of : Bytes → ℕ
token_of key = length key

abbrev version : RecordVersion
version = record { topology_epoch = 1; owner_sequence = 4; owner_node_id = codes "a" }

abbrev no_receipts : ReceiptState
no_receipts = record {
  dedup = [];
  dedup_by_token = [];
  dedup_expirations = [];
  dedup_bytes = 0;
  dedup_peak_bytes = 0;
  ack_progress_needs_prune = false;
  next_ack_prune_at = 0;
}

abbrev acks : List RequiredAck
acks = (1, codes "b", 9) ∷ []

abbrev one_write : ReceiptState
one_write =
    charge_acks sizes token_of
      (insert_dedup_until sizes token_of no_receipts (codes "m") (codes "key") (codes "f") version
        false 50)
      (codes "m") acks (released sizes acks)

charged : one_write.dedup_bytes ≡ 430
unfolding charge_acks insert_dedup_until dedup_retained_bytes required_ack_retained_bytes
    Bytes_discrete ℕ_discrete
charged = refl

acknowledged : (complete_required_acks sizes one_write (codes "m") version).dedup_bytes ≡ 285
unfolding charge_acks insert_dedup_until dedup_retained_bytes required_ack_retained_bytes
    complete_required_acks Bytes_discrete ℕ_discrete
acknowledged = refl

kept_until_its_time : (purge_expired_dedup sizes token_of one_write 49).dedup_bytes ≡ 430
unfolding charge_acks insert_dedup_until dedup_retained_bytes required_ack_retained_bytes
    purge_expired_dedup Bytes_discrete ℕ_discrete
kept_until_its_time = refl

no_receipts-IsAccounted : IsAccounted sizes token_of 1_000 no_receipts
unfolding contains
no_receipts-IsAccounted = (tt, (tt, λ t k. refl), (λ k. tt), refl, omega arith)

room : has_room 0 430 1_000 ≡ true
room = refl

Receipts-IsAccounted_example : IsAccounted sizes token_of 1_000 (
    purge_expired_dedup sizes token_of
      (complete_required_acks sizes one_write (codes "m") version)
      60)
unfolding dedup_retained_bytes required_ack_retained_bytes
Receipts-IsAccounted_example =
    Receipts-IsAccounted sizes token_of 1_000 (omega arith)
      (purged 60 (
        completed (codes "m") version
          (written (codes "m") (codes "key") (codes "f") version false 50 acks room done)))
      no_receipts-IsAccounted

abbrev shape : MutationShape
shape = with_condition (value_shape (codes "v") false (some 10)) absent

preimage-injective_example : (codes "key" ≡ codes "key") × (shape ≡ shape)
unfolding value_shape with_condition
preimage-injective_example =
    preimage-injective (codes "key") (codes "key") shape shape (omega arith) (omega arith)
      (omega arith, omega arith, tt) (omega arith, omega arith, tt) refl
