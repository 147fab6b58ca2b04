-- ===== src/Node/Staging/Tests.antt =====
-- Runs of the staging of receipts.
use hashring_rs.Prelude.{
  ◌≡◌, refl, Bytes, codes, Bytes_discrete, ℕ_discrete, [], ◌++◌, false, arith, some, err,
}
use hashring_rs.Node.Staging.{
  DeduplicationRecord, DestinationMigration, failed_precondition, resource_exhausted, is_invalid,
  staged_dedup_retained_bytes, stage_dedup,
}
use hashring_rs.Node.Staging.Staged.{IsOutcome, stage_dedup-IsOutcome}

abbrev fingerprint : Bytes
fingerprint = codes "0123456789abcdef" ++ codes "0123456789abcdef"

abbrev receipt : Bytes → DeduplicationRecord
receipt key = record {
  mutation_id = codes "m";
  key = key;
  fingerprint = fingerprint;
  version = some (record { topology_epoch = 1; owner_sequence = 4; owner_node_id = codes "a" });
  deleted = false;
  remaining_retention_millis = 20;
}

abbrev nothing : DestinationMigration
nothing = record { dedup = []; dedup_bytes = 0 }

abbrev one_staged : DestinationMigration
one_staged = (stage_dedup 160 nothing (receipt (codes "k")) 1_000 60_000 5).0

staged : one_staged.dedup_bytes ≡ 260
unfolding stage_dedup is_invalid staged_dedup_retained_bytes Bytes_discrete ℕ_discrete
staged = refl

conflicts :
    (stage_dedup 160 one_staged (receipt (codes "other")) 1_000 60_000 5).1
    ≡ err failed_precondition
unfolding stage_dedup is_invalid staged_dedup_retained_bytes Bytes_discrete ℕ_discrete
conflicts = refl

is_full : (stage_dedup 160 nothing (receipt (codes "k")) 259 60_000 5).1 ≡ err resource_exhausted
unfolding stage_dedup is_invalid staged_dedup_retained_bytes Bytes_discrete ℕ_discrete
is_full = refl

stage_dedup-IsOutcome_example :
    IsOutcome 1_000 nothing
      (receipt (codes "k"))
      (stage_dedup 160 nothing (receipt (codes "k")) 1_000 60_000 5)
stage_dedup-IsOutcome_example =
    stage_dedup-IsOutcome 160 1_000 nothing (receipt (codes "k")) 60_000 5 (omega arith)
      (omega arith) (refl, omega arith)
