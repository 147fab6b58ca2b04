-- ===== src/Migration/Tests.antt =====
-- Runs of the model of crates/hashring-core/src/migration.rs, and its theorems at a small ring.
use hashring_rs.Prelude.{
  ℕ, ◌*◌, ◌≤◌, ◌≡◌, refl, codes, List, [], ◌∷◌, ok, err, none, some, length, arith, subst, false,
  Result, panic,
}
use hashring_rs.Topology.Types.{TopologySnapshot, default_config, default_timings}
use hashring_rs.Topology.Build.{validate}
use hashring_rs.Topology.Wire.{snapshot_to_proto, snapshot_from_proto}
use hashring_rs.Topology.Tests.{
  program, fold, plain, node_a, node_b, node_c, two, three, three_accepted, two_accepted,
  construction_is_canonical,
}
use hashring_rs.Migration.Types.{
  RangeMigration, ReplicaObligation, TopologyChange, MigrationError, endpoint_change_unsupported,
  no_topology_change, planned, no_timings, max_replica_obligations,
}
use hashring_rs.Topology.Accepted.{new_with_timings-validate}
use hashring_rs.Migration.Delta.{
  boundaries, add_obligations, add_range, range_id, delta_from, topology_delta,
}
use hashring_rs.Migration.Plan.{keeps_endpoints, plan_with_config, plan_with_policy, plan}
use hashring_rs.Migration.Moves.{MovesOwner, topology_delta-moves}
use hashring_rs.Migration.Planned.{IsPlan, plan_with_config-IsPlan}
use hashring_rs.Migration.Wire.{change_to_proto, change_from_proto}
use hashring_rs.Migration.RoundTrip.{
  snapshot_from_proto-to_proto, snapshot_to_proto-from_proto, change_from_proto-to_proto,
}

runs : Unit {0}
unfolding program fold boundaries add_obligations add_range range_id delta_from topology_delta
    keeps_endpoints plan_with_config plan_with_policy plan
runs = tt

six_boundaries : length (boundaries two three) ≡ 6
unfolding runs
six_boundaries = refl

three_copies : three.desired_replication_factor ≡ 3
unfolding runs
three_copies = refl

topology_delta-moves_example :
    (rs : List RangeMigration) × (os : List ReplicaObligation) × (topology_delta plain two three
      ≡ ok (rs, os))
    × ((t : ℕ) → MovesOwner two three rs t)
topology_delta-moves_example =
    topology_delta-moves plain two three two_accepted three_accepted (omega (arith, six_boundaries))
      few
  where
    few : length (boundaries two three) * three.desired_replication_factor ≤ max_replica_obligations
    few = rw (six_boundaries, three_copies) (omega arith)

new_with_timings-validate_example : validate plain three ≡ ok tt
new_with_timings-validate_example =
    new_with_timings-validate plain 1 42 2 (node_c ∷ node_a ∷ node_b ∷ []) default_config
      default_timings three construction_is_canonical

snapshot_from_proto-to_proto_example :
    snapshot_from_proto plain (snapshot_to_proto three) ≡ ok three
snapshot_from_proto-to_proto_example = snapshot_from_proto-to_proto plain three three_accepted

same_topology_is_no_change :
    plan plain [] three (node_c ∷ node_a ∷ node_b ∷ []) ≡ err no_topology_change
unfolding runs
same_topology_is_no_change = refl

moved_node_is_refused :
    plan plain [] three (record node_a { endpoint = codes "http://127.0.0.1:6001" } ∷ [])
    ≡ err (endpoint_change_unsupported (codes "node-a"))
unfolding runs
moved_node_is_refused = refl

-- A change that adds node-a to the ring of the two others.
abbrev pub joined : List RangeMigration × List ReplicaObligation → TopologySnapshot → TopologyChange
joined delta target = record {
  change_id = codes "change";
  base_epoch = 1;
  base_topology = some two;
  supersedes_change_id = none;
  target_topology = target;
  phase = planned;
  ranges = delta.0;
  replica_obligations = delta.1;
  stopped_node_ids = [];
  stopping_node_ids = [];
  stop_prepared_node_ids = [];
  failed_node_id = none;
  activation_ready = false;
  direct_merge = false;
  timings = no_timings;
}

change_from_proto-to_proto_example :
    change_from_proto plain (change_to_proto (joined ([], []) three)) ≡ ok (joined ([], []) three)
change_from_proto-to_proto_example =
    change_from_proto-to_proto plain (joined ([], []) three) (record {
      target = three_accepted;
      base = λ s e. subst (λ r. validate plain r ≡ ok tt) (some_injective e) two_accepted;
      superseded = λ e. ground arith;
      failed = λ e. ground arith;
    })
  where
    some_injective : {s : TopologySnapshot} → some two ≡ some s → two ≡ s
    some_injective e = ground arith

-- The change that is planned when node-a joins.
abbrev change_of : Result MigrationError TopologyChange → TopologyChange
change_of (ok change) = change
change_of (err e) = joined ([], []) three
change_of panic = joined ([], []) three

abbrev joining : TopologyChange
joining =
    change_of
      (plan_with_config plain (codes "change") two (node_a ∷ node_b ∷ node_c ∷ []) default_config)

joining_is_planned :
    plan_with_config plain (codes "change") two (node_a ∷ node_b ∷ node_c ∷ []) default_config
    ≡ ok joining
unfolding runs
joining_is_planned = refl

joining_boundaries : length (boundaries two joining.target_topology) ≡ 6
unfolding runs
joining_boundaries = refl

joining_copies : joining.target_topology.desired_replication_factor ≡ 3
unfolding runs
joining_copies = refl

plan_with_config-IsPlan_example :
    IsPlan plain two (node_a ∷ node_b ∷ node_c ∷ []) default_config joining
plan_with_config-IsPlan_example =
    plan_with_config-IsPlan plain (codes "change") two (node_a ∷ node_b ∷ node_c ∷ [])
      default_config joining two_accepted (omega (arith, joining_boundaries)) few joining_is_planned
  where
    few :
        length (boundaries two joining.target_topology)
          * joining.target_topology.desired_replication_factor
        ≤ max_replica_obligations
    few = rw (joining_boundaries, joining_copies) (omega arith)

snapshot_to_proto-from_proto_example :
    (snapshot_to_proto three ≡ snapshot_to_proto three) × (validate plain three ≡ ok tt)
snapshot_to_proto-from_proto_example =
    snapshot_to_proto-from_proto plain (snapshot_to_proto three) three
      snapshot_from_proto-to_proto_example
