-- ===== src/Migration/Wire.antt =====
-- The wire forms of crates/hashring-core/src/migration.rs: the messages of
-- crates/hashring-core/proto/hashring.proto and the conversions to and from them. The phase is an
-- `i32`, and stands here as its 32-bit word.
use hashring_rs.Prelude.{
  ℕ, Bytes, List, [], map, Bool, Option, none, some, Result, ok, err, ◌>>=◌, ok_or, ◌==◌, is_empty,
  map_err, if◌then◌else◌,
}
use hashring_rs.Topology.Types.{TopologySnapshot}
use hashring_rs.Topology.Build.{Hashing}
use hashring_rs.Topology.Wire.{ProtoSnapshot, snapshot_to_proto, snapshot_from_proto}
use hashring_rs.Migration.Types.{
  MigrationPhase, RangeMigration, MigrationTimings, ReplicaObligation, TopologyChange,
  MigrationError, topology, missing_target_topology, unknown_phase, no_timings, planned,
  copying_snapshot, replaying_changelog, pausing_writes, verifying, ready_to_publish, published,
  cleaning_up, complete, aborted, resetting, aborting,
}

pub record ProtoRange : Type 0 where
  pub range_id : Bytes
  pub start_exclusive : ℕ
  pub end_inclusive : ℕ
  pub source_node_id : Bytes
  pub destination_node_id : Bytes
  pub source_endpoint : Bytes
  pub destination_endpoint : Bytes
  pub source_process_instance_id : Bytes
  pub destination_process_instance_id : Bytes
  pub source_cleaned : Bool
  pub snapshot_records : ℕ
  pub changelog_watermark : ℕ
  pub changelog_replay_ms : ℕ
  pub verified : Bool

pub record ProtoTimings : Type 0 where
  pub snapshot_copy_ms : ℕ
  pub changelog_replay_ms : ℕ
  pub pause_writes_ms : ℕ
  pub verify_ms : ℕ
  pub publish_ms : ℕ
  pub activation_ms : ℕ
  pub merge_proof_ms : ℕ
  pub catch_up_ms : ℕ

pub record ProtoObligation : Type 0 where
  pub start_exclusive : ℕ
  pub end_inclusive : ℕ
  pub source_node_id : Bytes
  pub destination_node_id : Bytes

pub record ProtoChange : Type 0 where
  pub change_id : Bytes
  pub base_epoch : ℕ
  pub base_topology : Option ProtoSnapshot
  pub supersedes_change_id : Bytes
  pub target_topology : Option ProtoSnapshot
  pub phase : ℕ
  pub ranges : List ProtoRange
  pub replica_obligations : List ProtoObligation
  pub stopped_node_ids : List Bytes
  pub stopping_node_ids : List Bytes
  pub stop_prepared_node_ids : List Bytes
  pub failed_node_id : Bytes
  pub activation_ready : Bool
  pub direct_merge : Bool
  pub timings : Option ProtoTimings

-- The numbers of `enum MigrationPhase` in the messages.
unfoldable pub phase_to_proto : MigrationPhase → ℕ
phase_to_proto planned = 1
phase_to_proto resetting = 11
phase_to_proto copying_snapshot = 2
phase_to_proto replaying_changelog = 3
phase_to_proto pausing_writes = 4
phase_to_proto verifying = 5
phase_to_proto ready_to_publish = 6
phase_to_proto published = 7
phase_to_proto cleaning_up = 8
phase_to_proto complete = 9
phase_to_proto aborting = 12
phase_to_proto aborted = 10

unfoldable pub phase_from_proto : ℕ → Result MigrationError MigrationPhase
phase_from_proto value =
    if value == 1
    then ok planned
    else if value == 2
    then ok copying_snapshot
    else if value == 3
    then ok replaying_changelog
    else if value == 4
    then ok pausing_writes
    else if value == 5
    then ok verifying
    else if value == 6
    then ok ready_to_publish
    else if value == 7
    then ok published
    else if value == 8
    then ok cleaning_up
    else if value == 9
    then ok complete
    else if value == 10
    then ok aborted
    else if value == 11
    then ok resetting
    else if value == 12
    then ok aborting
    else err (unknown_phase value)

unfoldable pub range_to_proto : RangeMigration → ProtoRange
range_to_proto range = record {
  range_id = range.range_id;
  start_exclusive = range.start_exclusive;
  end_inclusive = range.end_inclusive;
  source_node_id = range.source_node_id;
  destination_node_id = range.destination_node_id;
  source_endpoint = range.source_endpoint;
  destination_endpoint = range.destination_endpoint;
  source_process_instance_id = range.source_process_instance_id;
  destination_process_instance_id = range.destination_process_instance_id;
  source_cleaned = range.source_cleaned;
  snapshot_records = range.snapshot_records;
  changelog_watermark = range.changelog_watermark;
  changelog_replay_ms = range.changelog_replay_ms;
  verified = range.verified;
}

unfoldable pub range_from_proto : ProtoRange → RangeMigration
range_from_proto range = record {
  range_id = range.range_id;
  start_exclusive = range.start_exclusive;
  end_inclusive = range.end_inclusive;
  source_node_id = range.source_node_id;
  destination_node_id = range.destination_node_id;
  source_endpoint = range.source_endpoint;
  destination_endpoint = range.destination_endpoint;
  source_process_instance_id = range.source_process_instance_id;
  destination_process_instance_id = range.destination_process_instance_id;
  source_cleaned = range.source_cleaned;
  snapshot_records = range.snapshot_records;
  changelog_watermark = range.changelog_watermark;
  changelog_replay_ms = range.changelog_replay_ms;
  verified = range.verified;
}

unfoldable pub timings_to_proto : MigrationTimings → ProtoTimings
timings_to_proto timings = record {
  snapshot_copy_ms = timings.snapshot_copy_ms;
  changelog_replay_ms = timings.changelog_replay_ms;
  pause_writes_ms = timings.pause_writes_ms;
  verify_ms = timings.verify_ms;
  publish_ms = timings.publish_ms;
  activation_ms = timings.activation_ms;
  merge_proof_ms = timings.merge_proof_ms;
  catch_up_ms = timings.catch_up_ms;
}

unfoldable pub timings_from_proto : ProtoTimings → MigrationTimings
timings_from_proto timings = record {
  snapshot_copy_ms = timings.snapshot_copy_ms;
  changelog_replay_ms = timings.changelog_replay_ms;
  pause_writes_ms = timings.pause_writes_ms;
  verify_ms = timings.verify_ms;
  publish_ms = timings.publish_ms;
  activation_ms = timings.activation_ms;
  merge_proof_ms = timings.merge_proof_ms;
  catch_up_ms = timings.catch_up_ms;
}

unfoldable pub obligation_to_proto : ReplicaObligation → ProtoObligation
obligation_to_proto obligation = record {
  start_exclusive = obligation.start_exclusive;
  end_inclusive = obligation.end_inclusive;
  source_node_id = obligation.source_node_id;
  destination_node_id = obligation.destination_node_id;
}

unfoldable pub obligation_from_proto : ProtoObligation → ReplicaObligation
obligation_from_proto obligation = record {
  start_exclusive = obligation.start_exclusive;
  end_inclusive = obligation.end_inclusive;
  source_node_id = obligation.source_node_id;
  destination_node_id = obligation.destination_node_id;
}

-- `unwrap_or_default` of an optional text, and the text read back.
abbrev pub text_of : Option Bytes → Bytes
text_of none = []
text_of (some t) = t

abbrev pub text_from : Bytes → Option Bytes
text_from t = if is_empty t then none else some t

-- `Option::map` followed by `transpose` and `?`.
abbrev pub base_from_proto :
    Hashing → Option ProtoSnapshot → Result MigrationError (Option TopologySnapshot)
base_from_proto h none = ok none
base_from_proto h (some p) = map_err topology (snapshot_from_proto h p) >>= λ s. ok (some s)

abbrev pub base_to_proto : Option TopologySnapshot → Option ProtoSnapshot
base_to_proto none = none
base_to_proto (some s) = some (snapshot_to_proto s)

abbrev pub timings_or_default : Option ProtoTimings → MigrationTimings
timings_or_default none = no_timings
timings_or_default (some t) = timings_from_proto t

unfoldable pub change_to_proto : TopologyChange → ProtoChange
unfolding snapshot_to_proto phase_to_proto range_to_proto obligation_to_proto timings_to_proto
change_to_proto change = record {
  change_id = change.change_id;
  base_epoch = change.base_epoch;
  base_topology = base_to_proto change.base_topology;
  supersedes_change_id = text_of change.supersedes_change_id;
  target_topology = some (snapshot_to_proto change.target_topology);
  phase = phase_to_proto change.phase;
  ranges = map range_to_proto change.ranges;
  replica_obligations = map obligation_to_proto change.replica_obligations;
  stopped_node_ids = change.stopped_node_ids;
  stopping_node_ids = change.stopping_node_ids;
  stop_prepared_node_ids = change.stop_prepared_node_ids;
  failed_node_id = text_of change.failed_node_id;
  activation_ready = change.activation_ready;
  direct_merge = change.direct_merge;
  timings = some (timings_to_proto change.timings);
}

unfoldable pub change_from_proto : Hashing → ProtoChange → Result MigrationError TopologyChange
unfolding snapshot_from_proto phase_from_proto range_from_proto obligation_from_proto
    timings_from_proto
change_from_proto h p = do
  base ← base_from_proto h p.base_topology
  message ← ok_or p.target_topology missing_target_topology
  target ← map_err topology (snapshot_from_proto h message)
  phase ← phase_from_proto p.phase
  ok (record {
    change_id = p.change_id;
    base_epoch = p.base_epoch;
    base_topology = base;
    supersedes_change_id = text_from p.supersedes_change_id;
    target_topology = target;
    phase = phase;
    ranges = map range_from_proto p.ranges;
    replica_obligations = map obligation_from_proto p.replica_obligations;
    stopped_node_ids = p.stopped_node_ids;
    stopping_node_ids = p.stopping_node_ids;
    stop_prepared_node_ids = p.stop_prepared_node_ids;
    failed_node_id = text_from p.failed_node_id;
    activation_ready = p.activation_ready;
    direct_merge = p.direct_merge;
    timings = timings_or_default p.timings;
  })
