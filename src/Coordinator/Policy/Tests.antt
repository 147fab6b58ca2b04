-- ===== src/Coordinator/Policy/Tests.antt =====
-- The readiness of three nodes for a policy that waits for all replicas.
use hashring_rs.Prelude.{
  ℕ, ◌-◌, ◌≡◌, refl, Bytes, List, [], ◌∷◌, Memᴰ, map, true, false, Result, ok, err, panic,
}
use hashring_rs.Topology.Types.{
  all_replicas, default_config, default_timings, DerivedRange, TopologySnapshot, TopologyError,
}
use hashring_rs.Topology.Build.{validate, assemble}
use hashring_rs.Topology.Lookup.{derived_ranges, replica_node_ids_for_token}
use hashring_rs.Topology.Partition.{range_has, nodes}
use hashring_rs.Topology.Tests.{program, fold, plain, node_a, node_b, node_c}
use hashring_rs.Coordinator.Policy.{
  FollowerReplicaStatus, RangeReplicaStatus, ReplicaStatusResponse, policy_readiness_verified,
}
use hashring_rs.Coordinator.Policy.Ready.{IsReadyStatus, policy_readiness-replicas}

abbrev waiting : TopologySnapshot
waiting =
    assemble plain 2 42 2 (node_a ∷ node_b ∷ node_c ∷ [])
      (record default_config { write_ack_policy = all_replicas }) default_timings

abbrev ranges_of : Result TopologyError (List DerivedRange) → List DerivedRange
ranges_of (ok rs) = rs
ranges_of (err e) = []
ranges_of panic = []

abbrev follower : ℕ → Bytes → FollowerReplicaStatus
follower cursor id = record {
  node_id = id;
  admitted = true;
  stream_cursor = cursor;
  stream_head = 9;
  lag_millis = 0;
  lag_known = true;
}

abbrev status : ℕ → ReplicaStatusResponse
status cursor = record {
  topology_epoch = 1;
  ranges =
      map
        (λ r. record {
          start_exclusive = r.start_exclusive;
          end_inclusive = r.end_inclusive;
          owner_node_id = r.owner_node_id;
          followers = map (follower cursor) r.follower_node_ids;
        })
        (ranges_of (derived_ranges waiting));
}

waiting_accepted : validate plain waiting ≡ ok tt
unfolding program fold
waiting_accepted = refl

is_verified : policy_readiness_verified waiting (status 9) ≡ ok true
unfolding program fold policy_readiness_verified
is_verified = refl

behind : policy_readiness_verified waiting (status 8) ≡ ok false
unfolding program fold policy_readiness_verified
behind = refl

policy_readiness-replicas_example :
    ((status 9).topology_epoch ≡ waiting.epoch - 1)
    × ((range : DerivedRange) × (range_has range 5 ≡ true)
        × (replica_node_ids_for_token waiting 5 ≡ ok (nodes range))
        × ((actual : RangeReplicaStatus) × Memᴰ actual (status 9).ranges
            × IsReadyStatus waiting range actual))
policy_readiness-replicas_example =
    policy_readiness-replicas plain waiting (status 9) waiting_accepted is_verified 5
