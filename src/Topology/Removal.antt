-- ===== src/Topology/Removal.antt =====
-- Consistent hashing in crates/hashring-core/src/topology.rs: which owners change when a member
-- leaves the ring, or, read the other way round, joins it.
use hashring_rs.Prelude.{
  ℕ, zero, suc, ◌-◌, ◌≡◌, refl, sym, ap, ◌∙◌, ◌≢◌, Bytes, same, List, [], ◌∷◌, map, Bool, not, ◌||◌,
  arith, ltb, leb, length, take, filter, filter-append, filter_comm, if◌then◌else◌, ok,
  ok_injective,
}
use hashring_rs.Prelude.Sort.{sort, filter-sort}
use hashring_rs.Topology.Types.{Member, TokenAssignment, TopologySnapshot}
use hashring_rs.Topology.Validate.{contains}
use hashring_rs.Topology.Build.{
  Hashing, assignment_leb, vnode_assignment, member_assignments, all_assignments, range, validate,
}
use hashring_rs.Topology.Lookup.{owner_for_token, replica_node_ids_for_token, least}
use hashring_rs.Topology.Clockwise.{clockwise}
use hashring_rs.Topology.Replicas.{replica_node_ids-first_met}
use hashring_rs.Topology.Collected.{first_met}
use hashring_rs.Topology.Canonical.{assignment_leb_total, assignment_leb_trans}
use hashring_rs.Topology.Validity.{validate-IsAccepted, IsAccepted-IsRing}
use hashring_rs.Topology.Ranges.{IsRing}
use hashring_rs.Topology.Served.{owner-head_of_replicas}

-- Members and assignments of other nodes than `x`.
abbrev pub other_member : Bytes → Member → Bool
other_member x m = not (same m.node_id x)

abbrev other_assignment : Bytes → TokenAssignment → Bool
other_assignment x a = not (same a.node_id x)

clockwise-filter :
    (p : TokenAssignment → Bool) (t : ℕ) (xs : List TokenAssignment)
    → clockwise t (filter p xs) ≡ filter p (clockwise t xs)
unfolding clockwise
clockwise-filter p t xs =
    rw
      (
        filter_comm (λ (a : TokenAssignment). leb t a.token) p xs,
        filter_comm (λ (a : TokenAssignment). ltb a.token t) p xs,
      )
      (sym (filter-append p (filter (λ (a : TokenAssignment). leb t a.token) xs) _))

-- To leave a node out of the walk is to have seen it.
first_met-filter :
    (x : Bytes) (out seen : List Bytes) (xs : List TokenAssignment)
    → ((y : Bytes) → contains out y ≡ (same y x || contains seen y))
    → first_met seen (filter (other_assignment x) xs) ≡ first_met out xs
unfolding first_met
first_met-filter x out seen [] h = refl
first_met-filter x out seen (a ∷ xs) h = ground (
  arith,
  h a.node_id,
  first_met-filter x out seen xs h,
  first_met-filter x (a.node_id ∷ out) (a.node_id ∷ seen) xs (λ y. ground (arith, h y)),
)

filter-member_assignments :
    (h : Hashing) (seed vnodes : ℕ) (x : Bytes) (m : Member)
    → filter (other_assignment x) (member_assignments h seed vnodes m)
      ≡ (if other_member x m then member_assignments h seed vnodes m else [])
unfolding member_assignments
filter-member_assignments h seed vnodes x m = each (range 0 vnodes)
  where
    each :
        (vs : List ℕ)
        → filter (other_assignment x) (map (vnode_assignment h seed m) vs)
          ≡ (if other_member x m then map (vnode_assignment h seed m) vs else [])
    each [] = ground arith
    each (v ∷ vs) = ground (arith, each vs)

filter-all_assignments :
    (h : Hashing) (seed vnodes : ℕ) (x : Bytes) (ms : List Member)
    → filter (other_assignment x) (all_assignments h seed vnodes ms)
      ≡ all_assignments h seed vnodes (filter (other_member x) ms)
unfolding all_assignments
filter-all_assignments h seed vnodes x [] = refl
filter-all_assignments h seed vnodes x (m ∷ ms) =
    filter-append (other_assignment x) (member_assignments h seed vnodes m) _
    ∙ ground (
      arith,
      filter-member_assignments h seed vnodes x m,
      filter-all_assignments h seed vnodes x ms,
    )

-- `s'` is the topology that is left when the node `x` leaves `s`.
pub record Leaves (x : Bytes) (s s' : TopologySnapshot) : Type 0 where
  pub same_seed : s'.hash_seed ≡ s.hash_seed
  pub same_vnodes : s'.virtual_nodes ≡ s.virtual_nodes
  pub remaining : s'.members ≡ filter (other_member x) s.members

module _ (h : Hashing) (x : Bytes) (s s' : TopologySnapshot) (v : validate h s ≡ ok tt)
    (v' : validate h s' ≡ ok tt) (leaves : Leaves x s s') where
  ring : IsRing s
  ring = IsAccepted-IsRing h s (validate-IsAccepted h s v)

  ring' : IsRing s'
  ring' = IsAccepted-IsRing h s' (validate-IsAccepted h s' v')

  assignments_left : s'.assignments ≡ filter (other_assignment x) s.assignments
  assignments_left =
      sym (validate-IsAccepted h s' v').made
      ∙ rw (leaves.same_seed, leaves.same_vnodes, leaves.remaining)
          (ap (sort assignment_leb) (sym (filter-all_assignments h _ _ x s.members))
            ∙ sym (
                filter-sort assignment_leb assignment_leb_total assignment_leb_trans
                  (other_assignment x) _)
            ∙ ap (filter (other_assignment x)) (validate-IsAccepted h s v).made)

  -- What the smaller ring meets is what the larger one meets after it has seen `x`.
  met_left :
      (t : ℕ)
      → first_met [] (clockwise t s'.assignments) ≡ first_met (x ∷ []) (clockwise t s.assignments)
  met_left t =
      ap (λ l. first_met [] (clockwise t l)) assignments_left
      ∙ ap (first_met []) (clockwise-filter (other_assignment x) t s.assignments)
      ∙ first_met-filter x (x ∷ []) [] (clockwise t s.assignments) (λ y. refl)

  abbrev n' : ℕ
  n' = least s'.desired_replication_factor (length s'.members)

  -- The owner in the smaller ring heads what the larger ring meets past `x`.
  owner_left :
      (t : ℕ) (y : Bytes) (rest : List Bytes)
      → first_met (x ∷ []) (clockwise t s.assignments) ≡ y ∷ rest
      → (m' : Member) × (owner_for_token s' t ≡ ok m') × (m'.node_id ≡ y)
  owner_left t y rest e =
      let (m', others, owner, code) = owner-head_of_replicas h s' v' t in
      let spec = replica_node_ids-first_met s' t ring'.ordered ring'.nonempty ring'.target in
      let all : m'.node_id ∷ others ≡ take n' (y ∷ rest) =
        ok_injective _ _ (sym code ∙ spec) ∙ ap (take n') (met_left t ∙ e) in
      (m', owner, head_of_take n' m'.node_id y others rest all)
    where
      head_of_take :
          (n : ℕ) (a y : Bytes) (others rest : List Bytes) → a ∷ others ≡ take n (y ∷ rest) → a ≡ y
      head_of_take zero a y others rest e = absurd (ground arith)
      head_of_take (suc n) a y others rest e = ground arith

-- What a walk meets once `x` counts as seen.
first_met-after :
    (x f : Bytes) (fs : List Bytes) (xs : List TokenAssignment)
    → first_met [] xs ≡ f ∷ fs
    → (f ≡ x → first_met (x ∷ []) xs ≡ fs)
      × (f ≢ x → (rest : List Bytes) × (first_met (x ∷ []) xs ≡ f ∷ rest))
unfolding first_met
first_met-after x f fs [] e = absurd (ground arith)
first_met-after x f fs (a ∷ xs) e =
    let id : a.node_id ≡ f = ground arith in
    let tail : first_met (a.node_id ∷ []) xs ≡ fs = ground arith in
    (λ here. ground arith, λ away. (first_met (a.node_id ∷ x ∷ []) xs, ground arith))

take-cons :
    (n : ℕ) (l : List Bytes) (y : Bytes) (ys : List Bytes)
    → y ∷ ys ≡ take n l
    → (rest : List Bytes) × (l ≡ y ∷ rest) × (ys ≡ take (n - 1) rest)
take-cons zero l y ys e = absurd (ground arith)
take-cons (suc n) [] y ys e = absurd (ground arith)
take-cons (suc n) (z ∷ zs) y ys e =
    let z' : suc n - 1 ≡ n = omega arith in (zs, ground arith, rw z' (ground arith))

met :
    (h : Hashing) (s : TopologySnapshot) (v : validate h s ≡ ok tt) (t : ℕ) (y : Bytes)
    (ys : List Bytes)
    → replica_node_ids_for_token s t ≡ ok (y ∷ ys)
    → (rest : List Bytes) × (first_met [] (clockwise t s.assignments) ≡ y ∷ rest)
      × (ys ≡ take (least s.desired_replication_factor (length s.members) - 1) rest)
met h s v t y ys e =
    let ring = IsAccepted-IsRing h s (validate-IsAccepted h s v) in
    take-cons _ _ y ys (
      ok_injective _ _
        (sym e ∙ replica_node_ids-first_met s t ring.ordered ring.nonempty ring.target))

-- When a node leaves a validated topology, and the one that is left is validated too, each token
-- that it owned passes to the token's first follower.
pub leave-first_follower :
    (h : Hashing) (x y : Bytes) (s s' : TopologySnapshot) (t : ℕ) (others : List Bytes)
    → validate h s ≡ ok tt
    → validate h s' ≡ ok tt
    → Leaves x s s'
    → replica_node_ids_for_token s t ≡ ok (x ∷ y ∷ others)
    → (m' : Member) × (owner_for_token s' t ≡ ok m') × (m'.node_id ≡ y)
leave-first_follower h x y s s' t others v v' leaves e =
    let (rest, all, follow) = met h s v t x (y ∷ others) e in
    let (more, next, _) = take-cons _ rest y others follow in
    owner_left h x s s' v v' leaves t y more
      ((first_met-after x x rest (clockwise t s.assignments) all).0 refl ∙ next)

-- When a node leaves a validated topology, and the one that is left is validated too, each token
-- that another node owned keeps its owner.
pub leave-keeps_owner :
    (h : Hashing) (x : Bytes) (s s' : TopologySnapshot) (t : ℕ) (m : Member)
    → validate h s ≡ ok tt
    → validate h s' ≡ ok tt
    → Leaves x s s'
    → owner_for_token s t ≡ ok m
    → m.node_id ≢ x
    → (m' : Member) × (owner_for_token s' t ≡ ok m') × (m'.node_id ≡ m.node_id)
leave-keeps_owner h x s s' t m v v' leaves e away =
    let (o, others, owner, code) = owner-head_of_replicas h s v t in
    let one : o.node_id ≡ m.node_id =
      ap (λ (q : Member). q.node_id) (ok_injective _ _ (sym owner ∙ e)) in
    let (rest, all, _) = met h s v t o.node_id others code in
    let (more, kept) =
      (first_met-after x o.node_id rest (clockwise t s.assignments) all).1
        (λ here. away (sym one ∙ here)) in
    let (m', left, id) = owner_left h x s s' v v' leaves t o.node_id more kept in
    (m', left, id ∙ one)
