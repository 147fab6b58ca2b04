-- ===== src/Topology/Arguments.antt =====
-- The bounds that `validate_config` and `ClusterTimings::validate` of
-- crates/hashring-core/src/topology.rs check.
use Prim.Native.Nat.{ℕ}
use hashring_rs.Prelude.{◌≤◌, ◌<◌, ◌≡◌, refl, subst, arith, ok}
use hashring_rs.Topology.Types.{
  TopologyConfig, ClusterTimings, WriteAckPolicy, owner_only, first_successor, all_replicas,
  max_members, min_cluster_timing_millis, max_cluster_timing_millis,
}
use hashring_rs.Topology.Validate.{validate_config, validate_timings}

-- A policy that waits for the first successor has a follower.
abbrev pub HasSuccessor : WriteAckPolicy → ℕ → Type 0
HasSuccessor owner_only replicas = Unit
HasSuccessor first_successor replicas = 1 < replicas
HasSuccessor all_replicas replicas = Unit

-- The bounds of a configuration.
pub record IsConfig (c : TopologyConfig) : Type 0 where
  pub some_replica : 0 < c.desired_replication_factor
  pub few_replicas : c.desired_replication_factor ≤ max_members
  pub successor : HasSuccessor c.write_ack_policy c.desired_replication_factor
  pub some_copy : 0 < c.write_availability_guard.minimum_admitted_copies
  pub few_copies : c.write_availability_guard.minimum_admitted_copies ≤ c.desired_replication_factor
  pub few_followers :
      c.write_availability_guard.minimum_healthy_followers < c.desired_replication_factor
  pub some_lag : 0 < c.write_availability_guard.max_replica_lag_millis

-- The bounds of the two timings.
pub record IsTimings (t : ClusterTimings) : Type 0 where
  pub long_retention : min_cluster_timing_millis ≤ t.receipt_retention_millis
  pub short_retention : t.receipt_retention_millis ≤ max_cluster_timing_millis
  pub long_lease : min_cluster_timing_millis ≤ t.lease_duration_millis
  pub short_lease : t.lease_duration_millis ≤ max_cluster_timing_millis

pub validate_config-IsConfig : (c : TopologyConfig) → validate_config c ≡ ok tt → IsConfig c
unfolding validate_config
validate_config-IsConfig c e = record {
  some_replica = ground (arith, e);
  few_replicas = ground (arith, e);
  successor = successor c.write_ack_policy refl;
  some_copy = ground (arith, e);
  few_copies = ground (arith, e);
  few_followers = ground (arith, e);
  some_lag = ground (arith, e);
}
  where
    successor :
        (p : WriteAckPolicy) → c.write_ack_policy ≡ p → HasSuccessor p c.desired_replication_factor
    successor owner_only h = tt
    successor first_successor h = ground (arith, e, h)
    successor all_replicas h = tt

pub validate_timings-IsTimings : (t : ClusterTimings) → validate_timings t ≡ ok tt → IsTimings t
unfolding validate_timings
validate_timings-IsTimings t e = record {
  long_retention = ground (arith, e);
  short_retention = ground (arith, e);
  long_lease = ground (arith, e);
  short_lease = ground (arith, e);
}

pub IsConfig-validate_config : (c : TopologyConfig) → IsConfig c → validate_config c ≡ ok tt
unfolding validate_config
IsConfig-validate_config c b = go c.write_ack_policy refl
  where
    go : (p : WriteAckPolicy) → c.write_ack_policy ≡ p → validate_config c ≡ ok tt
    go owner_only h = ground (
      arith, h, b.some_replica, b.few_replicas, b.some_copy, b.few_copies, b.few_followers,
      b.some_lag,
    )
    go first_successor h =
        let room : 1 < c.desired_replication_factor =
          subst (λ p. HasSuccessor p c.desired_replication_factor) h b.successor in
        ground (
          arith, h, room, b.some_replica, b.few_replicas, b.some_copy, b.few_copies,
          b.few_followers, b.some_lag,
        )
    go all_replicas h = ground (
      arith, h, b.some_replica, b.few_replicas, b.some_copy, b.few_copies, b.few_followers,
      b.some_lag,
    )

pub IsTimings-validate_timings : (t : ClusterTimings) → IsTimings t → validate_timings t ≡ ok tt
unfolding validate_timings
IsTimings-validate_timings t b =
    ground (arith, b.long_retention, b.short_retention, b.long_lease, b.short_lease)
