-- ===== src/Topology/Construction.antt =====
-- When `TopologySnapshot::new_with_timings` of crates/hashring-core/src/topology.rs succeeds, and what
-- it then builds.
use Prim.Native.Nat.{ℕ}
use hashring_rs.Prelude.{
  ◌<◌, ◌*◌, ◌≡◌, refl, sym, subst, ◌∙◌, ap, bytes_leb, List, [], ◌∷◌, Memᴰ, Permᴰ, true, arith,
  length, All, Mem-All, Result, ok, err, panic,
}
use hashring_rs.Prelude.Sort.{
  sort, IsSorted, All-sort, length-sort, sort-IsSorted, sort-Perm, sort-Mem,
}
use hashring_rs.Topology.Types.{
  Member, TokenAssignment, TopologySnapshot, TopologyConfig, ClusterTimings, TopologyError,
}
use hashring_rs.Topology.Build.{
  Hashing, config, member_leb, assignment_leb, vnode_assignment, all_assignments, assemble,
  new_with_timings,
}
use hashring_rs.Topology.Members.{IsMembership}
use hashring_rs.Topology.Canonical.{
  IsBuildable, new_with_timings-ok, member_leb_total, member_leb_trans, assignment_leb_total,
  assignment_leb_trans, length-all_assignments,
}
use hashring_rs.Topology.Arguments.{
  IsConfig, IsTimings, validate_config-IsConfig, validate_timings-IsTimings,
  IsConfig-validate_config, IsTimings-validate_timings,
}
use hashring_rs.Topology.Vnodes.{
  IsVnode, IsAssigned, IsOrdered, IsBefore, all_assignments-Mem, all_assignments-IsAssigned,
  IsSorted-IsOrdered,
}

module _ (h : Hashing) (epoch seed vnodes : ℕ) (c : TopologyConfig) (timings : ClusterTimings)
    (ms : List Member) where
  -- What is asked of the arguments.
  pub record IsAcceptable : Type 0 where
    pub membership : IsMembership ms vnodes
    pub config_bounds : IsConfig c
    pub timing_bounds : IsTimings timings

  -- A snapshot of the arguments: their members in the order of their ids, and an assignment for each
  -- virtual node of each member, and no other, in the order of tokens.
  pub record IsSnapshotOf (s : TopologySnapshot) : Type 0 where
    pub epoch_given : s.epoch ≡ epoch
    pub seed_given : s.hash_seed ≡ seed
    pub vnodes_given : s.virtual_nodes ≡ vnodes
    pub config_given : config s ≡ c
    pub timings_given : s.timings ≡ timings
    pub members_given : Permᴰ s.members ms
    pub members_ordered : IsOrdered (λ x y. bytes_leb x.node_id y.node_id ≡ true) s.members
    pub assigned :
        All
          (λ (m : Member).
            (v : ℕ)
            → v < vnodes
            → (a : TokenAssignment) × Memᴰ a s.assignments × IsVnode h seed a m v)
          s.members
    pub no_other : All (IsAssigned h seed vnodes s.members) s.assignments
    pub assignments_counted : length s.assignments ≡ length ms * vnodes
    pub assignments_ordered : IsOrdered IsBefore s.assignments

  -- A snapshot, where the arguments are acceptable, and otherwise none.
  abbrev pub IsConstruction : Result TopologyError TopologySnapshot → Type 0
  IsConstruction (ok s) = IsAcceptable × IsSnapshotOf s
  IsConstruction (err e) = ¬ IsAcceptable
  IsConstruction panic = ¬ IsAcceptable

  Buildable-Acceptable : IsBuildable vnodes c timings ms → IsAcceptable
  Buildable-Acceptable b = record {
    membership = b.membership;
    config_bounds = validate_config-IsConfig c b.config_ok;
    timing_bounds = validate_timings-IsTimings timings b.timings_ok;
  }

  assemble-IsSnapshotOf : IsSnapshotOf (assemble h epoch seed vnodes (sort member_leb ms) c timings)
  unfolding assemble
  assemble-IsSnapshotOf =
      let members = sort member_leb ms in
      let built = all_assignments h seed vnodes members in
      record {
        epoch_given = refl;
        seed_given = refl;
        vnodes_given = refl;
        config_given = refl;
        timings_given = refl;
        members_given = sort-Perm member_leb ms;
        members_ordered =
            members_IsOrdered members
              (sort-IsSorted member_leb member_leb_total member_leb_trans ms);
        assigned = Mem-All _ members (λ m here v few. (
          vnode_assignment h seed m v,
          sort-Mem assignment_leb _ built (all_assignments-Mem h seed vnodes v m members here few),
          (refl, refl),
        ));
        no_other =
            All-sort assignment_leb _ built (all_assignments-IsAssigned h seed vnodes members);
        assignments_counted =
            length-sort assignment_leb built
            ∙ length-all_assignments h seed vnodes members
            ∙ ap (λ n. n * vnodes) (length-sort member_leb ms);
        assignments_ordered =
            IsSorted-IsOrdered _
              (sort-IsSorted assignment_leb assignment_leb_total assignment_leb_trans built);
      }
    where
      members_IsOrdered :
          (xs : List Member)
          → IsSorted member_leb xs
          → IsOrdered (λ x y. bytes_leb x.node_id y.node_id ≡ true) xs
      members_IsOrdered [] s = tt
      members_IsOrdered (x ∷ xs) s = (s.0, members_IsOrdered xs s.1)

  fails_not :
      (o : Result TopologyError TopologySnapshot)
      → new_with_timings h epoch seed vnodes ms c timings ≡ o
      → IsAcceptable
      → (s : TopologySnapshot) × (o ≡ ok s)
  fails_not o e a = (
    _,
    sym e
        ∙ (new_with_timings-ok h epoch seed vnodes c timings ms _).1 (
          record {
            membership = a.membership;
            config_ok = IsConfig-validate_config c a.config_bounds;
            timings_ok = IsTimings-validate_timings timings a.timing_bounds;
          },
          refl,
        ),
  )

  -- The construction succeeds on exactly the arguments within the bounds. The snapshot has the epoch,
  -- the seed, the configuration and the timings given, the members given in the order of their ids,
  -- an assignment for every virtual node of every member and none for anything else, as many as the
  -- members' virtual nodes, in the order of tokens and, on one token, of node ids.
  pub new_with_timings-IsConstruction :
      IsConstruction (new_with_timings h epoch seed vnodes ms c timings)
  new_with_timings-IsConstruction = go _ refl
    where
      go :
          (o : Result TopologyError TopologySnapshot)
          → new_with_timings h epoch seed vnodes ms c timings ≡ o
          → IsConstruction o
      go (ok s) e =
          let (b, made) = (new_with_timings-ok h epoch seed vnodes c timings ms s).0 e in
          (Buildable-Acceptable b, subst IsSnapshotOf made assemble-IsSnapshotOf)
      go (err x) e = λ a. let (s, found) = fails_not (err x) e a in absurd (ground arith)
      go panic e = λ a. let (s, found) = fails_not panic e a in absurd (ground arith)
