-- ===== src/Topology/Served.antt =====
-- What a validated snapshot of crates/hashring-core/src/topology.rs promises to its users.
use hashring_rs.Prelude.{
  ℕ, ◌≤◌, ◌≡◌, sym, ap, subst, ◌∙◌, inl, inr, Bytes, same, same-true, List, [], ◌∷◌, map, true,
  arith, get_elem?, find, All, some, ok, ok_or, Bool-cases,
}
use hashring_rs.Topology.Types.{
  Member, TokenAssignment, TopologySnapshot, DerivedRange, unknown_assigned_node,
}
use hashring_rs.Topology.Validate.{contains}
use hashring_rs.Topology.Build.{Hashing, validate, assignment_leb, vnode_assignment}
use hashring_rs.Topology.Lookup.{owner_for_token, replica_node_ids_for_token, derived_ranges}
use hashring_rs.Topology.Members.{id_of}
use hashring_rs.Topology.Canonical.{All-all_assignments}
use hashring_rs.Topology.Validity.{validate-IsAccepted, IsAccepted-IsRing, IsAccepted-known}
use hashring_rs.Prelude.Sort.{All-sort}
use hashring_rs.Topology.Owner.{owner_for_token-clockwise, All-get_elem?, IsU64, distance}
use hashring_rs.Topology.Owner
use hashring_rs.Topology.Partition.{Located, range_has, nodes}
use hashring_rs.Topology.Partition
use hashring_rs.Topology.Ranges.{IsRing, replicas-cons, followers}

find-contains :
    (id : Bytes) (ms : List Member)
    → contains (map id_of ms) id ≡ true
    → (m : Member) × (find (λ m. same m.node_id id) ms ≡ some m) × (m.node_id ≡ id)
find-contains id [] h = absurd (ground arith)
find-contains id (m ∷ ms) h = elim (Bool-cases (same m.node_id id)) [
  | inl e ↦ (m, rw e, same-true m.node_id id e)
  | inr e ↦ let (found, at, eq) = find-contains id ms (ground arith) in (found, rw e at, eq)
]

module _ (h : Hashing) (s : TopologySnapshot) (v : validate h s ≡ ok tt) where
  -- In a validated snapshot every token has a member for its owner, and the replicas of the token
  -- are its id and then those of its followers.
  pub owner-head_of_replicas :
      (t : ℕ)
      → (m : Member) × (others : List Bytes) × (owner_for_token s t ≡ ok m)
        × (replica_node_ids_for_token s t ≡ ok (m.node_id ∷ others))
  owner-head_of_replicas t =
      let (a, rest, i, pick, split, code) =
        owner_for_token-clockwise s t ring.ordered ring.nonempty in
      let (a', rest', split', replicas) = replicas-cons s t ring in
      let known =
        All-get_elem? (λ (a : TokenAssignment). contains (map id_of s.members) a.node_id ≡ true) i
          s.assignments (IsAccepted-known h s (validate-IsAccepted h s v)) pick in
      let (m, found, id) = find-contains a.node_id s.members known in
      let first : a'.node_id ≡ m.node_id = head_id (sym split' ∙ split) ∙ sym id in
      (
        m,
        followers s a' rest',
        code ∙ ap (λ o. ok_or o (unknown_assigned_node a.node_id)) found,
        replicas ∙ ap (λ x. ok (x ∷ followers s a' rest')) first,
      )
    where
      ring : IsRing s
      ring = IsAccepted-IsRing h s (validate-IsAccepted h s v)

      head_id :
          {x y : TokenAssignment} {xs ys : List TokenAssignment}
          → x ∷ xs ≡ y ∷ ys
          → x.node_id ≡ y.node_id
      head_id e = ground arith

  -- Where the hash gives 64-bit tokens, the owner of a token in a validated snapshot is the member
  -- of an assignment that no other is nearer than, going up from the token and wrapping.
  pub owner_for_token_nearest :
      (t : ℕ)
      → ((bytes : Bytes) (seed : ℕ) → IsU64 (h.xxh3_64_with_seed bytes seed))
      → IsU64 t
      → (m : Member) × (a : TokenAssignment) × (i : ℕ) × (owner_for_token s t ≡ ok m)
        × (get_elem? s.assignments i ≡ some a)
        × (a.node_id ≡ m.node_id)
        × All (λ b. distance t a.token ≤ distance t b.token) s.assignments
  owner_for_token_nearest t u64 ht =
      let (m, _, owner, _) = owner-head_of_replicas t in
      let accepted = validate-IsAccepted h s v in
      let ring = IsAccepted-IsRing h s accepted in
      let words : All (λ (a : TokenAssignment). IsU64 a.token) s.assignments =
        subst (All (λ (a : TokenAssignment). IsU64 a.token)) accepted.made (
          All-sort assignment_leb (λ (a : TokenAssignment). IsU64 a.token) _
            (All-all_assignments h s.hash_seed s.virtual_nodes (λ a. IsU64 a.token) s.members
              (words_of s.members))) in
      let (a, i, pick, id, near) =
        Owner.nearest_owner s t m ht words ring.ordered ring.nonempty owner in
      (m, a, i, owner, pick, id, near)
    where
      words_of :
          (ms : List Member)
          → All (λ (m : Member). (n : ℕ) → IsU64 (vnode_assignment h s.hash_seed m n).token) ms
      words_of [] = tt
      words_of (m ∷ ms) = (λ n. u64 _ _, words_of ms)

  -- In a validated snapshot `derived_ranges` succeeds, each token lies in exactly one of the ranges,
  -- and the replicas of the token are the owner and then the followers of that range.
  pub derived_ranges_partition :
      (rs : List DerivedRange) × (derived_ranges s ≡ ok rs) × ((t : ℕ) → Located s rs t)
  derived_ranges_partition =
      Partition.ranges_partition s (IsAccepted-IsRing h s (validate-IsAccepted h s v))
