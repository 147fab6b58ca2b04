-- ===== src/Topology/Types.antt =====
-- The data of crates/hashring-core/src/topology.rs. A `String` is its bytes, and a `u64`, `u32` or
-- `usize` is a number.
use hashring_rs.Prelude.{ℕ, ◌*◌, Bytes, codes, List, Bool, true, false}

abbrev pub hash_algorithm_name : Bytes
hash_algorithm_name = codes "xxh3-64"

abbrev pub encoding_version_number : ℕ
encoding_version_number = 2

abbrev pub max_members : ℕ
max_members = 1_024

abbrev pub max_virtual_nodes : ℕ
max_virtual_nodes = 4_096

abbrev pub max_token_assignments : ℕ
max_token_assignments = 1_048_576

abbrev pub max_node_id_bytes : ℕ
max_node_id_bytes = 32

abbrev pub max_endpoint_bytes : ℕ
max_endpoint_bytes = 256

abbrev pub min_cluster_timing_millis : ℕ
min_cluster_timing_millis = 1_000

abbrev pub max_cluster_timing_millis : ℕ
max_cluster_timing_millis = 24 * 60 * 60 * 1_000

pub data WriteAckPolicy : Type 0 where
  owner_only first_successor all_replicas : WriteAckPolicy

pub record WriteAvailabilityGuard : Type 0 where
  pub minimum_admitted_copies : ℕ
  pub minimum_healthy_followers : ℕ
  pub max_replica_lag_millis : ℕ

pub record TopologyConfig : Type 0 where
  pub desired_replication_factor : ℕ
  pub write_ack_policy : WriteAckPolicy
  pub write_availability_guard : WriteAvailabilityGuard

-- The three `Default` values.
abbrev pub default_guard : WriteAvailabilityGuard
default_guard = record {
  minimum_admitted_copies = 1;
  minimum_healthy_followers = 0;
  max_replica_lag_millis = 5_000;
}

abbrev pub default_config : TopologyConfig
default_config = record {
  desired_replication_factor = 3;
  write_ack_policy = owner_only;
  write_availability_guard = default_guard;
}

pub record ClusterTimings : Type 0 where
  pub receipt_retention_millis : ℕ
  pub lease_duration_millis : ℕ

abbrev pub default_timings : ClusterTimings
default_timings = record { receipt_retention_millis = 60_000; lease_duration_millis = 5_000 }

pub record Member : Type 0 where
  pub node_id : Bytes
  pub endpoint : Bytes

pub record TokenAssignment : Type 0 where
  pub token : ℕ
  pub node_id : Bytes

-- The hash interval is `(start_exclusive, end_inclusive]`, wrapping at `u64::MAX`.
pub record DerivedRange : Type 0 where
  pub start_exclusive : ℕ
  pub end_inclusive : ℕ
  pub owner_node_id : Bytes
  pub follower_node_ids : List Bytes

pub record TopologySnapshot : Type 0 where
  pub epoch : ℕ
  pub hash_seed : ℕ
  pub hash_algorithm : Bytes
  pub encoding_version : ℕ
  pub virtual_nodes : ℕ
  pub desired_replication_factor : ℕ
  pub write_ack_policy : WriteAckPolicy
  pub write_availability_guard : WriteAvailabilityGuard
  pub timings : ClusterTimings
  pub members : List Member
  pub assignments : List TokenAssignment
  pub digest : Bytes

pub data TopologyError : Type 0 where
  no_members no_virtual_nodes too_many_members too_many_virtual_nodes : TopologyError
  too_many_assignments empty_node_id node_id_too_long : TopologyError
  empty_endpoint endpoint_too_long : TopologyError
  duplicate_node_id : Bytes → TopologyError
  duplicate_endpoint : Bytes → TopologyError
  no_assignments : TopologyError
  unsupported_hash_configuration : Bytes → ℕ → TopologyError
  digest_mismatch non_canonical : TopologyError
  unknown_assigned_node : Bytes → TopologyError
  no_replicas too_many_replicas first_successor_requires_follower : TopologyError
  no_minimum_admitted_copies no_maximum_replica_lag : TopologyError
  minimum_admitted_copies_exceed_replication_factor : TopologyError
  minimum_healthy_followers_exceed_replication_factor : TopologyError
  unknown_write_ack_policy : ℕ → TopologyError
  receipt_retention_out_of_range lease_duration_out_of_range : TopologyError

-- The comparisons that the sources derive by `Eq`.
abbrev pub is_first_successor : WriteAckPolicy → Bool
is_first_successor first_successor = true
is_first_successor owner_only = false
is_first_successor all_replicas = false
