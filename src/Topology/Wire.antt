-- ===== src/Topology/Wire.antt =====
-- The wire forms of crates/hashring-core/src/topology.rs: the messages of
-- crates/hashring-core/proto/hashring.proto and the conversions to and from them. A field of an
-- enumeration is an `i32`, and stands here as its 32-bit word.
use hashring_rs.Prelude.{
  ℕ, Bytes, List, map, Option, some, Result, ok, err, ◌>>=◌, ◌>>◌, ok_or, ◌==◌, if◌then◌else◌,
}
use hashring_rs.Topology.Types.{
  Member, TokenAssignment, TopologySnapshot, TopologyError, WriteAckPolicy, WriteAvailabilityGuard,
  owner_only, first_successor, all_replicas, no_minimum_admitted_copies, unknown_write_ack_policy,
}
use hashring_rs.Topology.Build.{Hashing, validate}

pub record ProtoMember : Type 0 where
  pub node_id : Bytes
  pub endpoint : Bytes

pub record ProtoAssignment : Type 0 where
  pub token : ℕ
  pub node_id : Bytes

pub record ProtoGuard : Type 0 where
  pub minimum_admitted_copies : ℕ
  pub minimum_healthy_followers : ℕ
  pub max_replica_lag_millis : ℕ

pub record ProtoSnapshot : Type 0 where
  pub epoch : ℕ
  pub hash_seed : ℕ
  pub hash_algorithm : Bytes
  pub encoding_version : ℕ
  pub virtual_nodes : ℕ
  pub desired_replication_factor : ℕ
  pub write_ack_policy : ℕ
  pub write_availability_guard : Option ProtoGuard
  pub receipt_retention_millis : ℕ
  pub lease_duration_millis : ℕ
  pub members : List ProtoMember
  pub assignments : List ProtoAssignment
  pub digest : Bytes

-- The numbers of `enum WriteAckPolicy` in the messages.
unfoldable pub policy_to_proto : WriteAckPolicy → ℕ
policy_to_proto owner_only = 1
policy_to_proto first_successor = 2
policy_to_proto all_replicas = 3

unfoldable pub policy_from_proto : ℕ → Result TopologyError WriteAckPolicy
policy_from_proto value =
    if value == 1
    then ok owner_only
    else if value == 2
    then ok first_successor
    else if value == 3
    then ok all_replicas
    else err (unknown_write_ack_policy value)

unfoldable pub guard_to_proto : WriteAvailabilityGuard → ProtoGuard
guard_to_proto guard = record {
  minimum_admitted_copies = guard.minimum_admitted_copies;
  minimum_healthy_followers = guard.minimum_healthy_followers;
  max_replica_lag_millis = guard.max_replica_lag_millis;
}

unfoldable pub guard_from_proto : ProtoGuard → WriteAvailabilityGuard
guard_from_proto guard = record {
  minimum_admitted_copies = guard.minimum_admitted_copies;
  minimum_healthy_followers = guard.minimum_healthy_followers;
  max_replica_lag_millis = guard.max_replica_lag_millis;
}

unfoldable pub member_to_proto : Member → ProtoMember
member_to_proto member = record { node_id = member.node_id; endpoint = member.endpoint }

unfoldable pub member_from_proto : ProtoMember → Member
member_from_proto member = record { node_id = member.node_id; endpoint = member.endpoint }

unfoldable pub assignment_to_proto : TokenAssignment → ProtoAssignment
assignment_to_proto assignment = record { token = assignment.token; node_id = assignment.node_id }

unfoldable pub assignment_from_proto : ProtoAssignment → TokenAssignment
assignment_from_proto assignment = record { token = assignment.token; node_id = assignment.node_id }

unfoldable pub snapshot_to_proto : TopologySnapshot → ProtoSnapshot
unfolding policy_to_proto guard_to_proto member_to_proto assignment_to_proto
snapshot_to_proto snapshot = record {
  epoch = snapshot.epoch;
  hash_seed = snapshot.hash_seed;
  hash_algorithm = snapshot.hash_algorithm;
  encoding_version = snapshot.encoding_version;
  virtual_nodes = snapshot.virtual_nodes;
  desired_replication_factor = snapshot.desired_replication_factor;
  write_ack_policy = policy_to_proto snapshot.write_ack_policy;
  write_availability_guard = some (guard_to_proto snapshot.write_availability_guard);
  receipt_retention_millis = snapshot.timings.receipt_retention_millis;
  lease_duration_millis = snapshot.timings.lease_duration_millis;
  members = map member_to_proto snapshot.members;
  assignments = map assignment_to_proto snapshot.assignments;
  digest = snapshot.digest;
}

unfoldable pub snapshot_from_proto : Hashing → ProtoSnapshot → Result TopologyError TopologySnapshot
unfolding policy_from_proto guard_from_proto member_from_proto assignment_from_proto
snapshot_from_proto h p = do
  policy ← policy_from_proto p.write_ack_policy
  guard ← ok_or p.write_availability_guard no_minimum_admitted_copies
  let snapshot : TopologySnapshot = record {
    epoch = p.epoch;
    hash_seed = p.hash_seed;
    hash_algorithm = p.hash_algorithm;
    encoding_version = p.encoding_version;
    virtual_nodes = p.virtual_nodes;
    desired_replication_factor = p.desired_replication_factor;
    write_ack_policy = policy;
    write_availability_guard = guard_from_proto guard;
    timings = record {
      receipt_retention_millis = p.receipt_retention_millis;
      lease_duration_millis = p.lease_duration_millis;
    };
    members = map member_from_proto p.members;
    assignments = map assignment_from_proto p.assignments;
    digest = p.digest;
  }
  validate h snapshot
  ok snapshot
