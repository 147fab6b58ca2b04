-- ===== src/Topology/Canonical.antt =====
-- `TopologySnapshot::new_with_timings` of crates/hashring-core/src/topology.rs makes a snapshot that
-- `validate` accepts and that the lookups can rely on.
use hashring_rs.Prelude.{
  ℕ, zero, suc, ◌+◌, ◌≤◌, ◌*◌, ◌^◌, ◌≡◌, refl, ap, ◌↔◌, ◌⊎◌, bytes_leb_total, bytes_leb_trans, List,
  [], ◌∷◌, map, true, arith, ltb, length, length-append, All, All-append, All-map_of, ok,
}
use hashring_rs.Prelude.Sort.{sort, IsSorted, length-sort}
use hashring_rs.Topology.Types.{
  Member, TokenAssignment, TopologySnapshot, TopologyConfig, ClusterTimings, max_token_assignments,
}
use hashring_rs.Topology.Validate.{validate_members, validate_config, validate_timings}
use hashring_rs.Topology.Build.{
  Hashing, member_leb, assignment_leb, range, vnode_assignment, member_assignments, all_assignments,
  assemble, new_with_timings,
}
use hashring_rs.Topology.Clockwise.{token_leb}
use hashring_rs.Topology.Members.{IsMembership, validate_members_iff}

pub member_leb_total : (x y : Member) → (member_leb x y ≡ true) ⊎ (member_leb y x ≡ true)
member_leb_total x y = bytes_leb_total x.node_id y.node_id

pub member_leb_trans :
    (x y z : Member) → member_leb x y ≡ true → member_leb y z ≡ true → member_leb x z ≡ true
member_leb_trans x y z = bytes_leb_trans x.node_id y.node_id z.node_id

pub assignment_leb_total :
    (x y : TokenAssignment) → (assignment_leb x y ≡ true) ⊎ (assignment_leb y x ≡ true)
assignment_leb_total x y = ground (arith, bytes_leb_total x.node_id y.node_id)

pub assignment_leb_trans :
    (x y z : TokenAssignment)
    → assignment_leb x y ≡ true
    → assignment_leb y z ≡ true
    → assignment_leb x z ≡ true
assignment_leb_trans x y z h k = ground (arith, bytes_leb_trans x.node_id y.node_id z.node_id)

-- The order of assignments refines that of tokens.
pub IsSorted-tokens :
    (xs : List TokenAssignment) → IsSorted assignment_leb xs → IsSorted token_leb xs
IsSorted-tokens [] h = tt
IsSorted-tokens (x ∷ xs) h = (All-map_of (λ y k. ground arith) xs h.0, IsSorted-tokens xs h.1)

module _ (h : Hashing) (seed vnodes : ℕ) where
  range-length : (first n : ℕ) → length (range first n) ≡ n
  unfolding range
  range-length first zero = refl
  range-length first (suc n) = ap suc (range-length (first + 1) n)

  length-map {κ} : {A B : Type κ} (f : A → B) (xs : List A) → length (map f xs) ≡ length xs
  length-map f [] = refl
  length-map f (x ∷ xs) = ap suc (length-map f xs)

  pub length-all_assignments :
      (ms : List Member) → length (all_assignments h seed vnodes ms) ≡ length ms * vnodes
  unfolding all_assignments member_assignments
  length-all_assignments [] = omega arith
  length-all_assignments (m ∷ ms) = omega (
    arith,
    length-append (member_assignments h seed vnodes m) (all_assignments h seed vnodes ms),
    length-map (vnode_assignment h seed m) (range 0 vnodes),
    range-length 0 vnodes,
    length-all_assignments ms,
  )

  -- A property of every virtual node's assignment.
  pub All-all_assignments {κ} :
      (P : TokenAssignment → Type κ) (ms : List Member)
      → All (λ (m : Member). (v : ℕ) → P (vnode_assignment h seed m v)) ms
      → All P (all_assignments h seed vnodes ms)
  unfolding all_assignments member_assignments
  All-all_assignments P [] k = tt
  All-all_assignments P (m ∷ ms) k =
      All-append P (member_assignments h seed vnodes m) _ (each (range 0 vnodes))
        (All-all_assignments P ms k.1)
    where
      each : (vs : List ℕ) → All P (map (vnode_assignment h seed m) vs)
      each [] = tt
      each (v ∷ vs) = (k.0 v, each vs)

-- What `new_with_timings` needs of its arguments.
pub record IsBuildable (vnodes : ℕ) (c : TopologyConfig) (timings : ClusterTimings)
    (ms : List Member) : Type 0 where
  pub membership : IsMembership ms vnodes
  pub config_ok : validate_config c ≡ ok tt
  pub timings_ok : validate_timings timings ≡ ok tt

module _ (h : Hashing) (epoch seed vnodes : ℕ) (c : TopologyConfig) (timings : ClusterTimings) where
  -- The construction succeeds on exactly the arguments that the three checks accept, with the
  -- members in the order of their ids.
  pub new_with_timings-ok :
      (ms : List Member) (s : TopologySnapshot)
      → (new_with_timings h epoch seed vnodes ms c timings ≡ ok s) ↔ (
          IsBuildable vnodes c timings ms
          × (assemble h epoch seed vnodes (sort member_leb ms) c timings ≡ s))
  unfolding new_with_timings
  new_with_timings-ok ms s = (sound, complete)
    where
      room : (n : ℕ) → n ≤ max_token_assignments → ltb n (2 ^ 64) ≡ true
      room n k = ground arith

      sound :
          new_with_timings h epoch seed vnodes ms c timings ≡ ok s
          → IsBuildable vnodes c timings ms
            × (assemble h epoch seed vnodes (sort member_leb ms) c timings ≡ s)
      sound e =
          let parts : (validate_members ms vnodes ≡ ok tt)
              × (validate_config c ≡ ok tt)
              × (validate_timings timings ≡ ok tt)
              × (assemble h epoch seed vnodes (sort member_leb ms) c timings ≡ s) =
            ground arith in
          (
            record {
              membership = (validate_members_iff ms vnodes).0 parts.0;
              config_ok = parts.1;
              timings_ok = parts.2;
            },
            parts.3,
          )

      complete :
          IsBuildable vnodes c timings ms
            × (assemble h epoch seed vnodes (sort member_leb ms) c timings ≡ s)
          → new_with_timings h epoch seed vnodes ms c timings ≡ ok s
      complete (b, e) =
          rw
            (
              (validate_members_iff ms vnodes).1 b.membership,
              b.config_ok,
              b.timings_ok,
              length-sort member_leb ms,
              room (length ms * vnodes) b.membership.few_assignments,
            )
            (ap ok e)
