-- ===== src/Migration/Plan.antt =====
-- `TopologyChange::plan_with_config` of crates/hashring-core/src/migration.rs. The change id is a
-- random UUID of another crate, and is an argument.
use hashring_rs.Prelude.{
  ℕ, ◌+◌, ◌^◌, Bytes, same, List, [], ◌∷◌, Bool, true, false, ◌&&◌, not, ltb, ◌==◌, find,
  if◌then◌else◌, Option, none, some, Result, ok, ◌>>=◌, ◌>>◌, fail_if, ok_or, map_err,
}
use hashring_rs.Topology.Types.{
  Member, TopologySnapshot, TopologyConfig, WriteAckPolicy, owner_only, first_successor,
  all_replicas,
}
use hashring_rs.Topology.Build.{Hashing, config, new_with_timings, same_members}
use hashring_rs.Migration.Types.{
  MigrationError, TopologyChange, topology, no_topology_change, endpoint_change_unsupported,
  epoch_overflow, planned, no_timings,
}
use hashring_rs.Migration.Delta.{topology_delta}

-- `u64::checked_add`
abbrev pub checked_add : ℕ → ℕ → Option ℕ
checked_add a b = if ltb (a + b) (2 ^ 64) then some (a + b) else none

-- The derived `==` of `WriteAckPolicy` and of `TopologyConfig`.
abbrev pub same_policy : WriteAckPolicy → WriteAckPolicy → Bool
same_policy owner_only owner_only = true
same_policy first_successor first_successor = true
same_policy all_replicas all_replicas = true
same_policy _ _ = false

abbrev pub same_config : TopologyConfig → TopologyConfig → Bool
same_config a b =
    a.desired_replication_factor == b.desired_replication_factor
    && same_policy a.write_ack_policy b.write_ack_policy
    && a.write_availability_guard.minimum_admitted_copies
      == b.write_availability_guard.minimum_admitted_copies
    && a.write_availability_guard.minimum_healthy_followers
      == b.write_availability_guard.minimum_healthy_followers
    && a.write_availability_guard.max_replica_lag_millis
      == b.write_availability_guard.max_replica_lag_millis

-- Whether the target keeps the node at another endpoint.
abbrev pub moved_endpoint : Member → Option Member → Bool
moved_endpoint current none = false
moved_endpoint current (some target) = not (same target.endpoint current.endpoint)

-- The loop over the current members.
unfoldable pub keeps_endpoints : List Member → List Member → Result MigrationError (Unit {0})
keeps_endpoints [] target_members = ok tt
keeps_endpoints (current ∷ rest) target_members =
    let others = keeps_endpoints rest target_members in
    do
      fail_if (moved_endpoint current (find (λ t. same t.node_id current.node_id) target_members))
          (endpoint_change_unsupported current.node_id)
      others

unfoldable pub plan_with_config :
    Hashing
    → Bytes
    → TopologySnapshot
    → List Member
    → TopologyConfig
    → Result MigrationError TopologyChange
unfolding keeps_endpoints
plan_with_config h change_id committed target_members c = do
  keeps_endpoints committed.members target_members
  target_epoch ← ok_or (checked_add committed.epoch 1) epoch_overflow
  target_topology ← map_err topology (
      new_with_timings h target_epoch committed.hash_seed committed.virtual_nodes target_members c
        committed.timings)
  fail_if
      (same_members target_topology.members committed.members
        && same_config (config target_topology) (config committed))
      no_topology_change
  delta ← topology_delta h committed target_topology
  ok (record {
    change_id = change_id;
    base_epoch = committed.epoch;
    base_topology = some committed;
    supersedes_change_id = none;
    target_topology = target_topology;
    phase = planned;
    ranges = delta.0;
    replica_obligations = delta.1;
    stopped_node_ids = [];
    stopping_node_ids = [];
    stop_prepared_node_ids = [];
    failed_node_id = none;
    activation_ready = false;
    direct_merge = false;
    timings = no_timings;
  })

-- `plan_with_policy` and `plan`.
unfoldable pub plan_with_policy :
    Hashing
    → Bytes
    → TopologySnapshot
    → List Member
    → WriteAckPolicy
    → Result MigrationError TopologyChange
unfolding plan_with_config
plan_with_policy h change_id committed target_members target_policy =
    plan_with_config h change_id committed target_members
      (record (config committed) { write_ack_policy = target_policy })

unfoldable pub plan :
    Hashing → Bytes → TopologySnapshot → List Member → Result MigrationError TopologyChange
unfolding plan_with_policy
plan h change_id committed target_members =
    plan_with_policy h change_id committed target_members committed.write_ack_policy
