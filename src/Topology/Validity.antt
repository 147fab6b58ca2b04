-- ===== src/Topology/Validity.antt =====
-- What `TopologySnapshot::new_with_timings` of crates/hashring-core/src/topology.rs builds passes
-- `TopologySnapshot::validate`, and the lookups can rely on it.
use hashring_rs.Prelude.{
  ◌<◌, ◌≡◌, refl, sym, ap, ◌∙◌, subst, ◌↔◌, Bytes, same_refl, List, [], ◌∷◌, map, true, false,
  arith, length, is_empty, All, All-map_of, Result, ok, err, panic,
}
use hashring_rs.Prelude.Sort.{sort, IsSorted, All-sort, length-sort, sort-IsSorted}
use hashring_rs.Topology.Types.{
  Member, TokenAssignment, TopologySnapshot, TopologyConfig, TopologyError, hash_algorithm_name,
  encoding_version_number,
}
use hashring_rs.Topology.Validate.{contains, validate_config}
use hashring_rs.Topology.Build.{
  Hashing, member_leb, assignment_leb, config, all_assignments, assemble, new_with_timings,
  validate_assignments, validate,
}
use hashring_rs.Topology.Ranges.{IsRing}
use hashring_rs.Topology.Members.{IsMembership, validate_members_iff, id_of}
use hashring_rs.Topology.Canonical.{
  IsBuildable, new_with_timings-ok, assignment_leb_total, assignment_leb_trans, IsSorted-tokens,
  length-all_assignments, All-all_assignments,
}

-- A set of ids that holds the id of every member.
All-contains : (ms : List Member) → All (λ m. contains (map id_of ms) m.node_id ≡ true) ms
All-contains [] = tt
All-contains (m ∷ ms) =
    (ground (arith, same_refl m.node_id), All-map_of (λ x k. ground arith) ms (All-contains ms))

module _ (h : Hashing) where
  validate_assignments_complete :
      (ids : List Bytes) (xs : List TokenAssignment)
      → All (λ a. contains ids a.node_id ≡ true) xs
      → validate_assignments h ids xs ≡ ok tt
  unfolding validate_assignments
  validate_assignments_complete ids [] k = refl
  validate_assignments_complete ids (a ∷ xs) k = rw (k.0, validate_assignments_complete ids xs k.1)

not_empty : (xs : List TokenAssignment) → 0 < length xs → is_empty xs ≡ false
not_empty [] h = elim h [ ]
not_empty (x ∷ xs) h = refl

rf_pos : (c : TopologyConfig) → validate_config c ≡ ok tt → 0 < c.desired_replication_factor
unfolding validate_config
rf_pos c h = ground arith

-- The snapshot that `validate` builds again from the fields of another.
abbrev pub rebuild : Hashing → TopologySnapshot → Result TopologyError TopologySnapshot
rebuild h s = new_with_timings h s.epoch s.hash_seed s.virtual_nodes s.members (config s) s.timings

module _ (h : Hashing) (s : TopologySnapshot) where
  assembled : TopologySnapshot
  unfolding assemble
  assembled =
      assemble h s.epoch s.hash_seed s.virtual_nodes (sort member_leb s.members) (config s)
        s.timings

  -- The parts of an accepted snapshot, with the canonical one that it is compared with.
  validate_parts :
      (canonical : TopologySnapshot)
      → rebuild h s ≡ ok canonical
      → validate h s ≡ ok tt
      → (s.hash_algorithm ≡ hash_algorithm_name)
        × (s.encoding_version ≡ encoding_version_number)
        × (canonical.digest ≡ s.digest)
        × (canonical.members ≡ s.members)
        × (canonical.assignments ≡ s.assignments)
  unfolding validate
  validate_parts canonical e v = ground arith

  count_pos :
      (ms : List Member)
      → IsMembership ms s.virtual_nodes
      → 0 < length (sort assignment_leb (all_assignments h s.hash_seed s.virtual_nodes ms))
  count_pos ms v = grind (
    arith,
    length-sort assignment_leb (all_assignments h s.hash_seed s.virtual_nodes ms),
    length-all_assignments h s.hash_seed s.virtual_nodes ms,
    v.some_member,
    v.some_vnode,
  )

  known :
      (ms : List Member)
      → All
          (λ a. contains (map id_of ms) a.node_id ≡ true)
          (sort assignment_leb (all_assignments h s.hash_seed s.virtual_nodes ms))
  known ms = All-sort assignment_leb _ _ (
      All-all_assignments h s.hash_seed s.virtual_nodes
        (λ a. contains (map id_of ms) a.node_id ≡ true) ms
        (All-map_of (λ m k v. k) ms (All-contains ms)))

  -- The assignments of the canonical snapshot, from the members that it keeps.
  canonical_assignments :
      assembled ≡ s
      → sort assignment_leb (all_assignments h s.hash_seed s.virtual_nodes s.members)
        ≡ s.assignments
  unfolding assembled assemble
  canonical_assignments a =
      ap (λ l. sort assignment_leb (all_assignments h s.hash_seed s.virtual_nodes l))
        (sym (ap (λ (x : TopologySnapshot). x.members) a))
      ∙ ap (λ (x : TopologySnapshot). x.assignments) a

  validate_complete : rebuild h s ≡ ok s → validate h s ≡ ok tt
  unfolding validate assembled assemble
  validate_complete e = let (b, a) = (new_with_timings-ok h _ _ _ _ _ s.members s).0 e in accept b a
    where
      accept :
          IsBuildable s.virtual_nodes (config s) s.timings s.members
          → assembled ≡ s
          → validate h s ≡ ok tt
      accept b a =
          let assignments = canonical_assignments a in
          let alg : hash_algorithm_name ≡ s.hash_algorithm =
            ap (λ (x : TopologySnapshot). x.hash_algorithm) a in
          let enc : encoding_version_number ≡ s.encoding_version =
            ap (λ (x : TopologySnapshot). x.encoding_version) a in
          let each = validate_assignments_complete h (map id_of s.members) s.assignments (
            subst (All (λ (a : TokenAssignment). contains (map id_of s.members) a.node_id ≡ true))
              assignments (known s.members)) in
          let some_assignment =
            not_empty s.assignments
              (subst (λ l. 0 < length l) assignments (count_pos s.members b.membership)) in
          rw
            (
              (validate_members_iff s.members s.virtual_nodes).1 b.membership,
              b.config_ok,
              some_assignment,
              each,
              e,
            )
            (ground arith)

  same_snapshot :
      (c : TopologySnapshot)
      → assembled ≡ c
      → s.hash_algorithm ≡ hash_algorithm_name
      → s.encoding_version ≡ encoding_version_number
      → c.digest ≡ s.digest
      → c.members ≡ s.members
      → c.assignments ≡ s.assignments
      → c ≡ s
  unfolding assembled assemble
  same_snapshot c built alg enc dig mem asg = λ i. record {
    epoch = sym (ap (λ (x : TopologySnapshot). x.epoch) built) i;
    hash_seed = sym (ap (λ (x : TopologySnapshot). x.hash_seed) built) i;
    hash_algorithm = (sym (ap (λ (x : TopologySnapshot). x.hash_algorithm) built) ∙ sym alg) i;
    encoding_version = (sym (ap (λ (x : TopologySnapshot). x.encoding_version) built) ∙ sym enc) i;
    virtual_nodes = sym (ap (λ (x : TopologySnapshot). x.virtual_nodes) built) i;
    desired_replication_factor =
        sym (ap (λ (x : TopologySnapshot). x.desired_replication_factor) built) i;
    write_ack_policy = sym (ap (λ (x : TopologySnapshot). x.write_ack_policy) built) i;
    write_availability_guard =
        sym (ap (λ (x : TopologySnapshot). x.write_availability_guard) built) i;
    timings = sym (ap (λ (x : TopologySnapshot). x.timings) built) i;
    members = mem i;
    assignments = asg i;
    digest = dig i;
  }

  -- A snapshot that `validate` accepts is the canonical one.
  validate_sound :
      (r : Result TopologyError TopologySnapshot)
      → rebuild h s ≡ r
      → validate h s ≡ ok tt
      → rebuild h s ≡ ok s
  unfolding assembled validate
  validate_sound (ok canonical) e v =
      let (alg, enc, dig, mem, asg) = validate_parts canonical e v in
      let built : assembled ≡ canonical =
        ((new_with_timings-ok h _ _ _ _ _ s.members canonical).0 e).1 in
      e ∙ ap ok (same_snapshot canonical built alg enc dig mem asg)
  validate_sound (err x) e v = absurd (ground arith)
  validate_sound panic e v = absurd (ground arith)

  -- `validate` accepts exactly the snapshots that building again from their own fields gives back.
  pub validate_iff : (validate h s ≡ ok tt) ↔ (rebuild h s ≡ ok s)
  validate_iff = (validate_sound (rebuild h s) refl, validate_complete)

  -- What the lookups use of an accepted snapshot.
  pub record IsAccepted : Type 0 where
    pub buildable : IsBuildable s.virtual_nodes (config s) s.timings s.members
    pub made :
        sort assignment_leb (all_assignments h s.hash_seed s.virtual_nodes s.members)
        ≡ s.assignments

  pub validate-IsAccepted : validate h s ≡ ok tt → IsAccepted
  unfolding assembled
  validate-IsAccepted v =
      let (b, a) = (new_with_timings-ok h _ _ _ _ _ s.members s).0 (validate_iff.0 v) in
      record { buildable = b; made = canonical_assignments a }

  pub IsAccepted-IsRing : IsAccepted → IsRing s
  IsAccepted-IsRing v = record {
    ordered = IsSorted-tokens _ (
        subst (IsSorted assignment_leb) v.made
          (sort-IsSorted assignment_leb assignment_leb_total assignment_leb_trans _));
    nonempty = subst (λ l. 0 < length l) v.made (count_pos s.members v.buildable.membership);
    target =
        ground (arith, rf_pos (config s) v.buildable.config_ok, v.buildable.membership.some_member);
  }

  -- Every assignment is one of a member.
  pub IsAccepted-known :
      IsAccepted → All (λ a. contains (map id_of s.members) a.node_id ≡ true) s.assignments
  IsAccepted-known v =
      subst (All (λ (a : TokenAssignment). contains (map id_of s.members) a.node_id ≡ true)) v.made
        (known s.members)
