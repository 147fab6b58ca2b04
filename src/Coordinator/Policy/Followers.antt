-- ===== src/Coordinator/Policy/Followers.antt =====
-- The followers that `policy_readiness_verified` of crates/hashring-coordinator/src/policy.rs needs.
use Prim.Native.Nat.{ℕ}
use mathlib.Core.List.{Sublistᴰ}
use hashring_rs.Prelude.{
  filter, if◌then◌else◌, ◌+◌, ◌≤◌, ◌≡◌, refl, Bytes, same, same-true, List, [], ◌∷◌, Memᴰ, Bool,
  true, false, ◌&&◌, ltb, Bool-cases, inl, inr, arith, any, All, All-map_of, any-Mem, all-All,
  length,
}
use hashring_rs.Topology.Types.{
  WriteAckPolicy, owner_only, first_successor, all_replicas, WriteAvailabilityGuard,
  TopologySnapshot,
}
use hashring_rs.Coordinator.Policy.{FollowerReplicaStatus, caught_up, lags, needed, all_caught_up}

-- A follower that has been admitted and has all of its stream, with a lag that the guard allows.
pub record IsCaughtUp (guard : WriteAvailabilityGuard) (f : FollowerReplicaStatus) : Type 0 where
  pub admitted : f.admitted ≡ true
  pub lag_known : f.lag_known ≡ true
  pub few_millis : f.lag_millis ≤ guard.max_replica_lag_millis
  pub at_head : f.stream_cursor ≡ f.stream_head

-- A node that a status of a caught up follower is of.
abbrev pub Serves : WriteAvailabilityGuard → List FollowerReplicaStatus → Bytes → Type 0
Serves guard followers id =
    (f : FollowerReplicaStatus) × Memᴰ f followers × (f.node_id ≡ id) × IsCaughtUp guard f

-- The followers of a range that each policy waits for can all serve.
abbrev pub CanAcknowledge :
    TopologySnapshot → List FollowerReplicaStatus → WriteAckPolicy → List Bytes → Type 0
CanAcknowledge s followers owner_only ids = Unit
CanAcknowledge s followers first_successor [] = Unit
CanAcknowledge s followers first_successor (id ∷ ids) =
    Serves s.write_availability_guard followers id
CanAcknowledge s followers all_replicas ids =
    (s.desired_replication_factor ≤ length ids + 1)
    × All (Serves s.write_availability_guard followers) ids

-- At least as many elements of a list, each counted once, have a property.
abbrev pub HasAtLeast {ℓ} : {A : Type ℓ} → ℕ → (A → Type 0) → List A → Type ℓ
HasAtLeast {A = A} n P xs = (ys : List A) × Sublistᴰ ys xs × All P ys × (n ≤ length ys)

pub caught_up-IsCaughtUp :
    (guard : WriteAvailabilityGuard) (f : FollowerReplicaStatus)
    → caught_up guard f ≡ true
    → IsCaughtUp guard f
caught_up-IsCaughtUp guard f h = record {
  admitted = ground (arith, h);
  lag_known = ground (arith, h);
  few_millis = ground (arith, h);
  at_head = ground (arith, h);
}

any-Serves :
    (guard : WriteAvailabilityGuard) (followers : List FollowerReplicaStatus) (id : Bytes)
    → any (λ f. same f.node_id id && caught_up guard f) followers ≡ true
    → Serves guard followers id
any-Serves guard followers id h =
    let (f, m, c) = any-Mem (λ f. same f.node_id id && caught_up guard f) followers h in
    (f, m, same-true f.node_id id (ground arith), caught_up-IsCaughtUp guard f (ground arith))

pub needed-CanAcknowledge :
    (s : TopologySnapshot) (followers : List FollowerReplicaStatus) (policy : WriteAckPolicy)
    (ids : List Bytes)
    → all_caught_up s.write_availability_guard followers (needed s policy ids) ≡ true
    → CanAcknowledge s followers policy ids
needed-CanAcknowledge s followers owner_only ids h = tt
needed-CanAcknowledge s followers first_successor [] h = tt
needed-CanAcknowledge s followers first_successor (id ∷ ids) h =
    any-Serves s.write_availability_guard followers id (ground (arith, h))
needed-CanAcknowledge s followers all_replicas ids h =
    elim (Bool-cases (ltb (length ids + 1) s.desired_replication_factor)) [
      | inl c ↦ absurd (ground (arith, h, c))
      | inr c ↦ (
        ground arith,
        All-map_of (any-Serves s.write_availability_guard followers) ids
            (all-All _ ids (ground (arith, h, c))),
      )
    ]

pub no_lags :
    (followers : List FollowerReplicaStatus)
    → any lags followers ≡ false
    → All
        (λ (f : FollowerReplicaStatus).
          f.admitted ≡ true → (f.lag_known ≡ true) × (f.stream_cursor ≡ f.stream_head))
        followers
no_lags [] h = tt
no_lags (f ∷ fs) h = (λ a. ground (arith, h, a), no_lags fs (ground (arith, h)))

pub filter-Sublist {ℓ} : {A : Type ℓ} (p : A → Bool) (xs : List A) → Sublistᴰ (filter p xs) xs
filter-Sublist p [] = Sublistᴰ.slnil
filter-Sublist p (x ∷ xs) =
    elim (p x) as (λ b. Sublistᴰ (if b then x ∷ filter p xs else filter p xs) (x ∷ xs)) [
      | true ↦ Sublistᴰ.cons-cons refl (filter-Sublist p xs)
      | false ↦ Sublistᴰ.cons (filter-Sublist p xs)
    ]
