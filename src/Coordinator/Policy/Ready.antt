-- ===== src/Coordinator/Policy/Ready.antt =====
-- What `policy_readiness_verified` of crates/hashring-coordinator/src/policy.rs says of a token.
use Prim.Native.Nat.{ℕ, zero, suc}
use hashring_rs.Prelude.{
  ◌%◌, ◌^◌, filter, All-filter_self, ◌-◌, ◌≤◌, ◌≡◌, refl, subst, same-true, List, [], ◌∷◌, Memᴰ,
  Bool, true, false, arith, all, any, find, All, All-map_of, find-Mem, length, get_elem?, Option,
  none, some, ok, ok_injective,
}
use hashring_rs.Topology.Types.{DerivedRange, TopologySnapshot}
use hashring_rs.Topology.Build.{Hashing, validate}
use hashring_rs.Topology.Lookup.{derived_ranges, replica_node_ids_for_token}
use hashring_rs.Topology.Partition.{range_has, nodes}
use hashring_rs.Topology.Served.{derived_ranges_partition}
use hashring_rs.Coordinator.Policy.{
  FollowerReplicaStatus, RangeReplicaStatus, ReplicaStatusResponse, caught_up, lags, needed,
  all_caught_up, is_status_of, is_ready, all_ready, policy_readiness_verified,
}
use hashring_rs.Coordinator.Policy.Followers.{
  IsCaughtUp, CanAcknowledge, HasAtLeast, caught_up-IsCaughtUp, needed-CanAcknowledge, no_lags,
  filter-Sublist,
}

-- The status of a range, by its bounds and owner, that lets the range acknowledge writes, and in which
-- no admitted follower is behind its stream.
pub record IsReadyStatus (s : TopologySnapshot) (range : DerivedRange) (actual : RangeReplicaStatus)
    : Type 0 where
  pub start : actual.start_exclusive ≡ range.start_exclusive
  pub end : actual.end_inclusive ≡ range.end_inclusive
  pub owner : actual.owner_node_id ≡ range.owner_node_id
  pub streams :
      All
        (λ (f : FollowerReplicaStatus).
          f.admitted ≡ true → (f.lag_known ≡ true) × (f.stream_cursor ≡ f.stream_head))
        actual.followers
  pub copies :
      HasAtLeast
        (s.write_availability_guard.minimum_admitted_copies - 1)
        (λ (f : FollowerReplicaStatus). f.admitted ≡ true)
        actual.followers
  pub healthy :
      HasAtLeast s.write_availability_guard.minimum_healthy_followers
        (IsCaughtUp s.write_availability_guard)
        actual.followers
  pub acknowledges : CanAcknowledge s actual.followers s.write_ack_policy range.follower_node_ids

remainder_le : (n : ℕ) → n % 2 ^ 32 ≤ n
remainder_le n = omega arith

-- What the test of a status makes certain, in its own terms.
ready_tests :
    (s : TopologySnapshot) (range : DerivedRange) (actual : RangeReplicaStatus)
    → is_ready s range (some actual) ≡ true
    → (any lags actual.followers ≡ false)
      × (s.write_availability_guard.minimum_admitted_copies - 1
          ≤ length (filter (λ f. f.admitted) actual.followers))
      × (s.write_availability_guard.minimum_healthy_followers
          ≤ length (filter (caught_up s.write_availability_guard) actual.followers))
      × (all_caught_up s.write_availability_guard actual.followers
            (needed s s.write_ack_policy range.follower_node_ids)
          ≡ true)
ready_tests s range actual h = (
  ground (arith, h),
  ground (arith, h, remainder_le (length (filter (λ f. f.admitted) actual.followers))),
  ground (
    arith,
    h,
    remainder_le (length (filter (caught_up s.write_availability_guard) actual.followers)),
  ),
  ground (arith, h),
)

ready-IsReadyStatus :
    (s : TopologySnapshot) (status : ReplicaStatusResponse) (range : DerivedRange)
    → is_ready s range (find (is_status_of range) status.ranges) ≡ true
    → (actual : RangeReplicaStatus) × Memᴰ actual status.ranges × IsReadyStatus s range actual
ready-IsReadyStatus s status range h = go (find (is_status_of range) status.ranges) refl h
  where
    go :
        (o : Option RangeReplicaStatus)
        → find (is_status_of range) status.ranges ≡ o
        → is_ready s range o ≡ true
        → (actual : RangeReplicaStatus) × Memᴰ actual status.ranges × IsReadyStatus s range actual
    go none found ready = absurd (ground (arith, ready))
    go (some actual) found ready =
        let guard = s.write_availability_guard in
        let (m, same_range) = find-Mem (is_status_of range) status.ranges actual found in
        let (streams, copies, healthy, caught) = ready_tests s range actual ready in
        (
          actual,
          m,
          record {
            start = ground (arith, same_range);
            end = ground (arith, same_range);
            owner = same-true actual.owner_node_id range.owner_node_id (ground (arith, same_range));
            streams = no_lags actual.followers streams;
            copies = (
              filter (λ f. f.admitted) actual.followers,
              filter-Sublist (λ f. f.admitted) actual.followers,
              All-filter_self (λ f. f.admitted) actual.followers,
              copies,
            );
            healthy = (
              filter (caught_up guard) actual.followers,
              filter-Sublist (caught_up guard) actual.followers,
              All-map_of (caught_up-IsCaughtUp guard) (filter (caught_up guard) actual.followers)
                  (All-filter_self (caught_up guard) actual.followers),
              healthy,
            );
            acknowledges =
                needed-CanAcknowledge s actual.followers s.write_ack_policy range.follower_node_ids
                  caught;
          },
        )

all-get_elem? :
    (p : DerivedRange → Bool) (rs : List DerivedRange) (i : ℕ) (r : DerivedRange)
    → all p rs ≡ true
    → get_elem? rs i ≡ some r
    → p r ≡ true
all-get_elem? p [] i r h e = ground (arith, e)
all-get_elem? p (x ∷ xs) zero r h e = ground (arith, e, h)
all-get_elem? p (x ∷ xs) (suc i) r h e = all-get_elem? p xs i r (ground (arith, h)) e

-- If a policy change is verified as ready on a validated topology, then the status is of the epoch
-- before, and for each token the replicas are the owner and the followers of a range that the
-- status has, by its bounds and owner: no follower admitted there is behind its stream, as many are
-- admitted, besides the owner, and as many caught up as the guard asks for, and the first follower,
-- or every follower with as many as the replication factor asks for, as the write policy needs, is
-- admitted, has all of its stream and is within the lag allowed.
pub policy_readiness-replicas :
    (h : Hashing) (s : TopologySnapshot) (status : ReplicaStatusResponse)
    → validate h s ≡ ok tt
    → policy_readiness_verified s status ≡ ok true
    → (t : ℕ)
    → (status.topology_epoch ≡ s.epoch - 1)
      × ((range : DerivedRange) × (range_has range t ≡ true)
          × (replica_node_ids_for_token s t ≡ ok (nodes range))
          × ((actual : RangeReplicaStatus) × Memᴰ actual status.ranges
              × IsReadyStatus s range actual))
unfolding policy_readiness_verified
policy_readiness-replicas h s status v ready t =
    let (rs, derived, located) = derived_ranges_partition h s v in
    let (i, range, at, has, code, others) = located t in
    let epoch : status.topology_epoch ≡ s.epoch - 1 = ground (arith, ready) in
    let ready_all : all_ready s status (derived_ranges s) ≡ ok true = ground (arith, ready) in
    let every : all (λ r. is_ready s r (find (is_status_of r) status.ranges)) rs ≡ true =
      ok_injective _ _ (subst (λ o. all_ready s status o ≡ ok true) derived ready_all) in
    let verified = ready-IsReadyStatus s status range (
      all-get_elem? (λ r. is_ready s r (find (is_status_of r) status.ranges)) rs i range every
        at) in
    (epoch, (range, has, code, verified))
