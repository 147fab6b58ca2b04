-- ===== src/Coordinator/Policy.antt =====
-- Whether the followers are ready for a change of policy: `policy_readiness_verified` of
-- crates/hashring-coordinator/src/policy.rs, with the fields of the status messages of
-- crates/hashring-core/proto/hashring.proto that it reads.
pub mod Followers
pub mod Ready
mod Tests
use Prim.Native.Nat.{ℕ, zero, suc}
use hashring_rs.Prelude.{
  ◌+◌, ◌-◌, ◌%◌, ◌^◌, Bytes, same, List, [], ◌∷◌, Bool, true, false, not, ◌&&◌, ◌||◌, ltb, leb,
  ◌==◌, length, filter, find, any, all, if◌then◌else◌, Option, none, some, Result, ok, err, panic,
}
use hashring_rs.Topology.Types.{
  WriteAckPolicy, owner_only, first_successor, all_replicas, WriteAvailabilityGuard, DerivedRange,
  TopologySnapshot, TopologyError,
}
use hashring_rs.Topology.Lookup.{derived_ranges}

pub record FollowerReplicaStatus : Type 0 where
  pub node_id : Bytes
  pub admitted : Bool
  pub stream_cursor : ℕ
  pub stream_head : ℕ
  pub lag_millis : ℕ
  pub lag_known : Bool

pub record RangeReplicaStatus : Type 0 where
  pub start_exclusive : ℕ
  pub end_inclusive : ℕ
  pub owner_node_id : Bytes
  pub followers : List FollowerReplicaStatus

pub record ReplicaStatusResponse : Type 0 where
  pub topology_epoch : ℕ
  pub ranges : List RangeReplicaStatus

-- An admitted follower that has all of its stream, within the lag that the guard allows.
abbrev pub caught_up : WriteAvailabilityGuard → FollowerReplicaStatus → Bool
caught_up guard f =
    f.admitted
    && f.lag_known
    && leb f.lag_millis guard.max_replica_lag_millis
    && f.stream_cursor == f.stream_head

abbrev lags : FollowerReplicaStatus → Bool
lags f = f.admitted && (not f.lag_known || not (f.stream_cursor == f.stream_head))

-- `count() as u32`
abbrev count : (FollowerReplicaStatus → Bool) → List FollowerReplicaStatus → ℕ
count p followers = length (filter p followers) % 2 ^ 32

abbrev saturating_u32 : ℕ → ℕ
saturating_u32 n = if ltb (2 ^ 32 - 1) n then 2 ^ 32 - 1 else n

-- The followers that the write policy needs; `none` where there are too few of them.
abbrev pub needed : TopologySnapshot → WriteAckPolicy → List Bytes → Option (List Bytes)
needed topology owner_only followers = some []
needed topology first_successor [] = some []
needed topology first_successor (f ∷ fs) = some (f ∷ [])
needed topology all_replicas followers =
    if ltb (length followers + 1) topology.desired_replication_factor then none else some followers

abbrev pub all_caught_up :
    WriteAvailabilityGuard → List FollowerReplicaStatus → Option (List Bytes) → Bool
all_caught_up guard followers none = false
all_caught_up guard followers (some ids) =
    all (λ id. any (λ f. same f.node_id id && caught_up guard f) followers) ids

abbrev pub is_status_of : DerivedRange → RangeReplicaStatus → Bool
is_status_of range actual =
    actual.start_exclusive == range.start_exclusive
    && actual.end_inclusive == range.end_inclusive
    && same actual.owner_node_id range.owner_node_id

-- One range, with the status found for it.
abbrev pub is_ready : TopologySnapshot → DerivedRange → Option RangeReplicaStatus → Bool
is_ready topology range none = false
is_ready topology range (some actual) =
    let guard = topology.write_availability_guard in
    let admitted = count (λ f. f.admitted) actual.followers in
    let healthy = count (caught_up guard) actual.followers in
    if any lags actual.followers
    then false
    else if ltb (saturating_u32 (admitted + 1)) guard.minimum_admitted_copies
        || ltb healthy guard.minimum_healthy_followers
    then false
    else all_caught_up guard actual.followers
        (needed topology topology.write_ack_policy range.follower_node_ids)

-- All ranges; a panic of `derived_ranges` passes on.
abbrev pub all_ready :
    TopologySnapshot
    → ReplicaStatusResponse
    → Result TopologyError (List DerivedRange)
    → Result ⊥ Bool
all_ready topology status (ok ranges) =
    ok (all (λ range. is_ready topology range (find (is_status_of range) status.ranges)) ranges)
all_ready topology status (err e) = ok false
all_ready topology status panic = panic

-- It has no error: it answers or panics.
unfoldable pub policy_readiness_verified : TopologySnapshot → ReplicaStatusResponse → Result ⊥ Bool
policy_readiness_verified topology status =
    if not (status.topology_epoch == topology.epoch - 1)
    then ok false
    else all_ready topology status (derived_ranges topology)
