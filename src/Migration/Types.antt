-- ===== src/Migration/Types.antt =====
-- The data of crates/hashring-core/src/migration.rs.
use hashring_rs.Prelude.{ℕ, Bytes, List, Bool, true, false, Option}
use hashring_rs.Topology.Types.{TopologySnapshot, TopologyError}

abbrev pub max_migration_ranges : ℕ
max_migration_ranges = 16_384

abbrev pub max_replica_obligations : ℕ
max_replica_obligations = 131_072

pub data MigrationPhase : Type 0 where
  planned resetting copying_snapshot replaying_changelog pausing_writes verifying : MigrationPhase
  ready_to_publish published cleaning_up complete aborting aborted : MigrationPhase

unfoldable pub is_terminal : MigrationPhase → Bool
is_terminal complete = true
is_terminal aborted = true
is_terminal _ = false

-- The hash interval is `(start_exclusive, end_inclusive]`, wrapping at `u64::MAX`.
pub record RangeMigration : Type 0 where
  pub range_id : Bytes
  pub start_exclusive : ℕ
  pub end_inclusive : ℕ
  pub source_node_id : Bytes
  pub destination_node_id : Bytes
  pub source_endpoint : Bytes
  pub destination_endpoint : Bytes
  pub source_process_instance_id : Bytes
  pub destination_process_instance_id : Bytes
  pub source_cleaned : Bool
  pub snapshot_records : ℕ
  pub changelog_watermark : ℕ
  pub changelog_replay_ms : ℕ
  pub verified : Bool

pub record MigrationTimings : Type 0 where
  pub snapshot_copy_ms : ℕ
  pub changelog_replay_ms : ℕ
  pub pause_writes_ms : ℕ
  pub verify_ms : ℕ
  pub publish_ms : ℕ
  pub activation_ms : ℕ
  pub merge_proof_ms : ℕ
  pub catch_up_ms : ℕ

-- `MigrationTimings::default`
abbrev pub no_timings : MigrationTimings
no_timings = record {
  snapshot_copy_ms = 0;
  changelog_replay_ms = 0;
  pause_writes_ms = 0;
  verify_ms = 0;
  publish_ms = 0;
  activation_ms = 0;
  merge_proof_ms = 0;
  catch_up_ms = 0;
}

pub record ReplicaObligation : Type 0 where
  pub start_exclusive : ℕ
  pub end_inclusive : ℕ
  pub source_node_id : Bytes
  pub destination_node_id : Bytes

pub record TopologyChange : Type 0 where
  pub change_id : Bytes
  pub base_epoch : ℕ
  pub base_topology : Option TopologySnapshot
  pub supersedes_change_id : Option Bytes
  pub target_topology : TopologySnapshot
  pub phase : MigrationPhase
  pub ranges : List RangeMigration
  pub replica_obligations : List ReplicaObligation
  pub stopped_node_ids : List Bytes
  pub stopping_node_ids : List Bytes
  pub stop_prepared_node_ids : List Bytes
  pub failed_node_id : Option Bytes
  pub activation_ready : Bool
  pub direct_merge : Bool
  pub timings : MigrationTimings

pub data MigrationError : Type 0 where
  topology : TopologyError → MigrationError
  no_topology_change : MigrationError
  endpoint_change_unsupported : Bytes → MigrationError
  epoch_overflow too_many_ranges too_many_replica_obligations : MigrationError
  missing_target_topology : MigrationError
  unknown_phase : ℕ → MigrationError
