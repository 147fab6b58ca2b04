-- ===== src/Topology/Build.antt =====
-- `TopologySnapshot::new_with_timings` and `TopologySnapshot::validate` of
-- crates/hashring-core/src/topology.rs. The hash functions and the JSON encoding are those of other
-- crates, and are parameters.
use hashring_rs.Prelude.{
  ℕ, zero, suc, ◌+◌, ◌/◌, ◌%◌, ◌^◌, Bytes, codes, same, bytes_leb, List, [], ◌∷◌, ◌++◌, map, Bool,
  true, false, ◌||◌, not, ltb, ◌==◌, length, is_empty, if◌then◌else◌, Result, ok, ◌>>=◌, ◌>>◌,
  fail_if, ok_or, ℕ_discrete,
}
use hashring_rs.Prelude.Sort.{sort}
use hashring_rs.Topology.Types.{
  TopologyConfig, ClusterTimings, Member, TokenAssignment, TopologySnapshot, TopologyError,
  too_many_assignments, no_assignments, unsupported_hash_configuration, digest_mismatch,
  non_canonical, unknown_assigned_node, hash_algorithm_name, encoding_version_number,
}
use hashring_rs.Topology.Validate.{
  Checked, checked_mul, contains, validate_timings, validate_config, validate_members,
}

-- `xxh3_64_with_seed`, `blake3::hash(..).to_hex()` and `serde_json::to_vec`.
pub record Hashing : Type 0 where
  pub xxh3_64_with_seed : Bytes → ℕ → ℕ
  pub blake3_hex : Bytes → Bytes
  pub to_json : TopologySnapshot → Bytes

-- `to_be_bytes` of an integer of `width` bytes.
unfoldable pub be_bytes : ℕ → ℕ → Bytes
be_bytes zero v = []
be_bytes (suc width) v = (v / 256 ^ width % 256) ∷ be_bytes width v

-- What is hashed for one virtual node.
unfoldable pub encode_vnode : Bytes → ℕ → Bytes
unfolding be_bytes
encode_vnode node_id vnode =
    codes "hashring-rs:vnode:v1"
    ++ (0 ∷ be_bytes 8 (length node_id) ++ (node_id ++ be_bytes 4 vnode))

abbrev pub member_leb : Member → Member → Bool
member_leb l r = bytes_leb l.node_id r.node_id

abbrev pub assignment_leb : TokenAssignment → TokenAssignment → Bool
assignment_leb l r =
    if ltb l.token r.token
    then true
    else if ltb r.token l.token
    then false
    else bytes_leb l.node_id r.node_id

unfoldable pub members_discrete : Discrete (List Member)
members_discrete = hlevel ℕ_discrete

unfoldable pub assignments_discrete : Discrete (List TokenAssignment)
assignments_discrete = hlevel ℕ_discrete

-- `==` on the two lists.
abbrev pub same_members : List Member → List Member → Bool
same_members a b = elim (members_discrete a b) [ yes _ ↦ true | no _ ↦ false ]

abbrev pub same_assignments : List TokenAssignment → List TokenAssignment → Bool
same_assignments a b = elim (assignments_discrete a b) [ yes _ ↦ true | no _ ↦ false ]

-- `for vnode in 0..virtual_nodes`: `n` values from `first` on.
unfoldable pub range : ℕ → ℕ → List ℕ
range first zero = []
range first (suc n) = first ∷ range (first + 1) n

abbrev pub config : TopologySnapshot → TopologyConfig
config s = record {
  desired_replication_factor = s.desired_replication_factor;
  write_ack_policy = s.write_ack_policy;
  write_availability_guard = s.write_availability_guard;
}

module _ (h : Hashing) where
  abbrev pub key_token : Bytes → ℕ → ℕ
  key_token key hash_seed = h.xxh3_64_with_seed key hash_seed

  -- The assignment of one virtual node.
  abbrev pub vnode_assignment : ℕ → Member → ℕ → TokenAssignment
  vnode_assignment hash_seed m vnode = record {
    token = h.xxh3_64_with_seed (encode_vnode m.node_id vnode) hash_seed;
    node_id = m.node_id;
  }

  -- The inner loop of `new_with_timings`: the assignments of one member.
  unfoldable pub member_assignments : ℕ → ℕ → Member → List TokenAssignment
  unfolding encode_vnode range
  member_assignments hash_seed virtual_nodes m =
      map (vnode_assignment hash_seed m) (range 0 virtual_nodes)

  unfoldable pub all_assignments : ℕ → ℕ → List Member → List TokenAssignment
  unfolding member_assignments
  all_assignments hash_seed virtual_nodes [] = []
  all_assignments hash_seed virtual_nodes (m ∷ ms) =
      member_assignments hash_seed virtual_nodes m ++ all_assignments hash_seed virtual_nodes ms

  unfoldable pub calculate_digest : TopologySnapshot → Bytes
  calculate_digest s = h.blake3_hex (h.to_json (record s { digest = [] }))

  -- The snapshot that `new_with_timings` builds from members that it has sorted.
  unfoldable pub assemble :
      ℕ → ℕ → ℕ → List Member → TopologyConfig → ClusterTimings → TopologySnapshot
  unfolding all_assignments calculate_digest
  assemble epoch hash_seed virtual_nodes members c timings =
      let snapshot : TopologySnapshot = record {
        epoch = epoch;
        hash_seed = hash_seed;
        hash_algorithm = hash_algorithm_name;
        encoding_version = encoding_version_number;
        virtual_nodes = virtual_nodes;
        desired_replication_factor = c.desired_replication_factor;
        write_ack_policy = c.write_ack_policy;
        write_availability_guard = c.write_availability_guard;
        timings = timings;
        members = members;
        assignments = sort assignment_leb (all_assignments hash_seed virtual_nodes members);
        digest = [];
      } in
      record snapshot { digest = calculate_digest snapshot }

  unfoldable pub new_with_timings :
      ℕ
      → ℕ
      → ℕ
      → List Member
      → TopologyConfig
      → ClusterTimings
      → Result TopologyError TopologySnapshot
  new_with_timings epoch hash_seed virtual_nodes members c timings = do
    validate_members members virtual_nodes
    validate_config c
    validate_timings timings
    let sorted = sort member_leb members
    _ ← ok_or (checked_mul (length sorted) virtual_nodes) too_many_assignments
    ok (assemble epoch hash_seed virtual_nodes sorted c timings)

  -- The loop over the assignments, against the set of member ids.
  unfoldable pub validate_assignments : List Bytes → List TokenAssignment → Checked
  validate_assignments member_ids [] = ok tt
  validate_assignments member_ids (a ∷ rest) =
      let others = validate_assignments member_ids rest in
      do fail_if (not (contains member_ids a.node_id)) (unknown_assigned_node a.node_id); others

  unfoldable pub validate : TopologySnapshot → Checked
  validate s = do
    validate_members s.members s.virtual_nodes
    validate_config (config s)
    fail_if
        (not (same s.hash_algorithm hash_algorithm_name)
          || not (s.encoding_version == encoding_version_number))
        (unsupported_hash_configuration s.hash_algorithm s.encoding_version)
    fail_if (is_empty s.assignments) no_assignments
    validate_assignments (map (λ (m : Member). m.node_id) s.members) s.assignments
    canonical ← new_with_timings s.epoch s.hash_seed s.virtual_nodes s.members (config s) s.timings
    fail_if (not (same canonical.digest s.digest)) digest_mismatch
    fail_if
        (not (same_members canonical.members s.members)
          || not (same_assignments canonical.assignments s.assignments))
        non_canonical
    ok tt
