-- ===== src/Topology/Ranges.antt =====
-- `TopologySnapshot::derived_ranges` of crates/hashring-core/src/topology.rs: its ranges part the
-- ring, and name the replicas of each token in them.
use mathlib.Core.List.{append-nil}
use hashring_rs.Prelude.{
  ℕ, zero, suc, ◌-◌, ◌≤◌, ◌<◌, ◌≡◌, refl, sym, ap, ◌∙◌, ◌⊎◌, inl, inr, Bytes, List, [], ◌∷◌, arith,
  ltb, leb, length, take, All, All-map_of, filter_congr, filter-All, filter-All_not, ok,
}
use hashring_rs.Prelude.Sort.{IsSorted}
use hashring_rs.Topology.Types.{TokenAssignment, TopologySnapshot}
use hashring_rs.Topology.Lookup.{least, replica_node_ids_for_token}
use hashring_rs.Topology.Clockwise.{token_leb, clockwise}
use hashring_rs.Topology.Replicas.{replica_node_ids-first_met, clockwise-cons}
use hashring_rs.Topology.Collected.{first_met}
use hashring_rs.Topology.Boundaries.{Gap}

-- What the lookups rely on: a ring in token order, with an assignment, a member and a replica.
pub record IsRing (s : TopologySnapshot) : Type 0 where
  pub ordered : IsSorted token_leb s.assignments
  pub nonempty : 0 < length s.assignments
  pub target : 0 < least s.desired_replication_factor (length s.members)

-- The walk is the same from both ends of a gap.
pub clockwise-Gap :
    (p t e : ℕ) (xs : List TokenAssignment)
    → p < t
    → t ≤ e
    → Gap p e xs
    → clockwise t xs ≡ clockwise e xs
unfolding clockwise
clockwise-Gap p t e xs h k g = rw (
  filter_congr (λ (a : TokenAssignment). leb t a.token) (λ a. leb e a.token) xs
      (All-map_of (λ x u. ground arith) xs g),
  filter_congr (λ (a : TokenAssignment). ltb a.token t) (λ a. ltb a.token e) xs
      (All-map_of (λ x u. ground arith) xs g),
)

-- So it is from past the last token and from the first.
pub clockwise_first :
    (b t : ℕ) (xs : List TokenAssignment)
    → (t ≤ b) ⊎ All (λ x. x.token < t) xs
    → All (λ x. b ≤ x.token) xs
    → clockwise t xs ≡ xs
unfolding clockwise
clockwise_first b t xs (inl h) low =
    rw
      (
        filter-All (λ (a : TokenAssignment). leb t a.token) xs
            (All-map_of (λ x u. ground arith) xs low),
        filter-All_not (λ (a : TokenAssignment). ltb a.token t) xs
            (All-map_of (λ x u. ground arith) xs low),
      )
      (append-nil xs)
clockwise_first b t xs (inr h) low = rw (
  filter-All_not (λ (a : TokenAssignment). leb t a.token) xs
      (All-map_of (λ x u. ground arith) xs h),
  filter-All (λ (a : TokenAssignment). ltb a.token t) xs (All-map_of (λ x u. ground arith) xs h),
)

pub replicas_eq :
    (s : TopologySnapshot) (t e : ℕ)
    → IsRing s
    → clockwise t s.assignments ≡ clockwise e s.assignments
    → replica_node_ids_for_token s t ≡ replica_node_ids_for_token s e
replicas_eq s t e r h =
    replica_node_ids-first_met s t r.ordered r.nonempty r.target
    ∙ ap (λ l. ok (take (least s.desired_replication_factor (length s.members)) (first_met [] l))) h
    ∙ sym (replica_node_ids-first_met s e r.ordered r.nonempty r.target)

take_head :
    (n : ℕ) (l : List Bytes) (x : Bytes) (xs : List Bytes)
    → 0 < n
    → l ≡ x ∷ xs
    → take n l ≡ x ∷ take (n - 1) xs
take_head zero l x xs h e = elim h [ ]
take_head (suc n) l x xs h e = let z : suc n - 1 ≡ n = omega arith in rw (e, z)

-- What follows the first node of a walk.
unfoldable pub followers : TopologySnapshot → TokenAssignment → List TokenAssignment → List Bytes
followers s a rest =
    take (least s.desired_replication_factor (length s.members) - 1)
      (first_met (a.node_id ∷ []) rest)

-- Every token has an owner, before its followers.
pub replicas-cons :
    (s : TopologySnapshot) (t : ℕ)
    → IsRing s
    → (a : TokenAssignment) × (rest : List TokenAssignment) × (clockwise t s.assignments ≡ a ∷ rest)
      × (replica_node_ids_for_token s t ≡ ok (a.node_id ∷ followers s a rest))
unfolding followers
replicas-cons s t r =
    let (a, rest, _, _, split) = clockwise-cons t s.assignments r.ordered r.nonempty in
    let met : first_met [] (clockwise t s.assignments)
        ≡ a.node_id ∷ first_met (a.node_id ∷ []) rest =
      ap (first_met []) split ∙ unfold first_met in refl in
    (
      a,
      rest,
      split,
      replica_node_ids-first_met s t r.ordered r.nonempty r.target
          ∙ ap ok (take_head _ _ _ _ r.target met),
    )
