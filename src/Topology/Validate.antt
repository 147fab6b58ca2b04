-- ===== src/Topology/Validate.antt =====
-- The checks of crates/hashring-core/src/topology.rs: `ClusterTimings::validate`, `validate_config`
-- and `validate_members`.
use hashring_rs.Prelude.{
  ℕ, ◌-◌, ◌*◌, ◌^◌, Bytes, same, List, [], ◌∷◌, Bool, ◌&&◌, not, any, ltb, leb, ◌==◌, length,
  is_empty, Option, none, some, if◌then◌else◌, Result, ok, ◌>>◌, fail_if,
}
use hashring_rs.Topology.Types.{
  TopologyConfig, ClusterTimings, Member, TopologyError, no_members, no_virtual_nodes,
  too_many_members, too_many_virtual_nodes, too_many_assignments, empty_node_id, node_id_too_long,
  empty_endpoint, endpoint_too_long, duplicate_node_id, duplicate_endpoint, no_replicas,
  too_many_replicas, first_successor_requires_follower, no_minimum_admitted_copies,
  no_maximum_replica_lag, minimum_admitted_copies_exceed_replication_factor,
  minimum_healthy_followers_exceed_replication_factor, receipt_retention_out_of_range,
  lease_duration_out_of_range, is_first_successor, max_members, max_virtual_nodes,
  max_token_assignments, max_node_id_bytes, max_endpoint_bytes, min_cluster_timing_millis,
  max_cluster_timing_millis,
}

abbrev pub Checked : Type 0
Checked = Result TopologyError (Unit {0})

-- `usize::checked_mul` on a 64-bit machine.
abbrev pub checked_mul : ℕ → ℕ → Option ℕ
checked_mul a b = if ltb (a * b) (2 ^ 64) then some (a * b) else none

-- `(MIN_CLUSTER_TIMING_MILLIS..=MAX_CLUSTER_TIMING_MILLIS).contains(n)`
abbrev in_timing_range : ℕ → Bool
in_timing_range n = leb min_cluster_timing_millis n && leb n max_cluster_timing_millis

unfoldable pub validate_timings : ClusterTimings → Checked
validate_timings t = do
  fail_if (not (in_timing_range t.receipt_retention_millis)) receipt_retention_out_of_range
  fail_if (not (in_timing_range t.lease_duration_millis)) lease_duration_out_of_range
  ok tt

unfoldable pub validate_config : TopologyConfig → Checked
validate_config c = do
  let rf = c.desired_replication_factor
  let guard = c.write_availability_guard
  fail_if (rf == 0) no_replicas
  fail_if (ltb max_members rf) too_many_replicas
  fail_if (is_first_successor c.write_ack_policy && ltb rf 2) first_successor_requires_follower
  fail_if (guard.minimum_admitted_copies == 0) no_minimum_admitted_copies
  fail_if (guard.max_replica_lag_millis == 0) no_maximum_replica_lag
  fail_if (ltb rf guard.minimum_admitted_copies) minimum_admitted_copies_exceed_replication_factor
  fail_if (ltb (rf - 1) guard.minimum_healthy_followers)
      minimum_healthy_followers_exceed_replication_factor
  ok tt

-- A `HashSet` of strings, as a list: `contains` and the test that `insert` returns.
abbrev pub contains : List Bytes → Bytes → Bool
contains s x = any (same x) s

-- The loop over the members, with the two sets of what it has seen.
unfoldable pub validate_each : List Bytes → List Bytes → List Member → Checked
validate_each node_ids endpoints [] = ok tt
validate_each node_ids endpoints (m ∷ ms) =
    let rest = validate_each (m.node_id ∷ node_ids) (m.endpoint ∷ endpoints) ms in
    do
      fail_if (is_empty m.node_id) empty_node_id
      fail_if (ltb max_node_id_bytes (length m.node_id)) node_id_too_long
      fail_if (is_empty m.endpoint) empty_endpoint
      fail_if (ltb max_endpoint_bytes (length m.endpoint)) endpoint_too_long
      fail_if (contains node_ids m.node_id) (duplicate_node_id m.node_id)
      fail_if (contains endpoints m.endpoint) (duplicate_endpoint m.endpoint)
      rest

-- `checked_mul(..).is_none_or(|assignments| assignments > MAX_TOKEN_ASSIGNMENTS)`
abbrev too_many : Option ℕ → Bool
too_many none = Bool.true
too_many (some n) = ltb max_token_assignments n

unfoldable pub validate_members : List Member → ℕ → Checked
unfolding validate_each
validate_members members virtual_nodes = do
  fail_if (is_empty members) no_members
  fail_if (virtual_nodes == 0) no_virtual_nodes
  fail_if (ltb max_members (length members)) too_many_members
  fail_if (ltb max_virtual_nodes virtual_nodes) too_many_virtual_nodes
  fail_if (too_many (checked_mul (length members) virtual_nodes)) too_many_assignments
  validate_each [] [] members
