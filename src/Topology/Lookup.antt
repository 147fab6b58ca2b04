-- ===== src/Topology/Lookup.antt =====
-- The ring lookups of crates/hashring-core/src/topology.rs: `owner_for_token`,
-- `replica_node_ids_for_token` and `derived_ranges`.
use mathlib.Core.List.{head?}
use hashring_rs.Prelude.{
  ℕ, zero, suc, ◌+◌, ◌%◌, Bytes, same, List, [], ◌∷◌, ◌++◌, map, ltb, ◌==◌, length, is_empty,
  get_elem?, drop, find, last?, partition_point, if◌then◌else◌, Result, ok, panic, ◌>>=◌, ◌>>◌,
  fail_if, ok_or, or_panic,
}
use hashring_rs.Topology.Types.{
  Member, TokenAssignment, DerivedRange, TopologySnapshot, TopologyError, no_assignments,
  unknown_assigned_node,
}
use hashring_rs.Topology.Validate.{contains}

-- `index % len`, which panics on an empty slice.
abbrev pub wrap : ℕ → ℕ → Result TopologyError ℕ
wrap index zero = panic
wrap index (suc n) = ok (index % suc n)

-- `partition_point(|assignment| assignment.token < token)`
abbrev pub first_index : List TokenAssignment → ℕ → ℕ
first_index assignments token = partition_point (λ a. ltb a.token token) assignments

unfoldable pub owner_for_token : TopologySnapshot → ℕ → Result TopologyError Member
owner_for_token s token = do
  index ← wrap (first_index s.assignments token) (length s.assignments)
  assignment ← or_panic (get_elem? s.assignments index)
  ok_or (find (λ m. same m.node_id assignment.node_id) s.members)
      (unknown_assigned_node assignment.node_id)

-- The loop of `replica_node_ids_for_token`, with `left` offsets to go; `seen` is its `HashSet`.
unfoldable pub collect :
    List TokenAssignment
    → ℕ
    → ℕ
    → ℕ
    → ℕ
    → List Bytes
    → List Bytes
    → Result TopologyError (List Bytes)
collect assignments target_count owner_index zero offset seen replicas = ok replicas
collect assignments target_count owner_index (suc left) offset seen replicas =
    let next = λ (i : Bytes).
      collect assignments target_count owner_index left (offset + 1) (i ∷ seen)
        (replicas ++ i ∷ []) in
    let skip = collect assignments target_count owner_index left (offset + 1) seen replicas in
    do
      index ← wrap (owner_index + offset) (length assignments)
      assignment ← or_panic (get_elem? assignments index)
      let id = assignment.node_id
      if contains seen id
          then skip
          else if length (replicas ++ id ∷ []) == target_count
          then ok (replicas ++ id ∷ [])
          else next id

-- `usize::min`
abbrev pub least : ℕ → ℕ → ℕ
least a b = if ltb b a then b else a

unfoldable pub replica_node_ids_for_token : TopologySnapshot → ℕ → Result TopologyError (List Bytes)
unfolding collect
replica_node_ids_for_token s token = do
  owner_index ← wrap (first_index s.assignments token) (length s.assignments)
  replicas ←
      collect s.assignments (least s.desired_replication_factor (length s.members)) owner_index
        (length s.assignments) 0 [] []
  fail_if (is_empty replicas) no_assignments
  ok replicas

-- `Vec::dedup`
unfoldable pub dedup : List ℕ → List ℕ
dedup [] = []
dedup (x ∷ []) = x ∷ []
dedup (x ∷ y ∷ xs) = if x == y then dedup (y ∷ xs) else x ∷ dedup (y ∷ xs)

-- The loop of `derived_ranges` over the boundaries that are left.
unfoldable pub ranges_from :
    TopologySnapshot → ℕ → List ℕ → Result TopologyError (List DerivedRange)
unfolding replica_node_ids_for_token
ranges_from s previous [] = ok []
ranges_from s previous (end ∷ ends) =
    let others = ranges_from s end ends in
    do
      replicas ← replica_node_ids_for_token s end
      owner ← or_panic (head? replicas)
      rest ← others
      ok (
          record {
            start_exclusive = previous;
            end_inclusive = end;
            owner_node_id = owner;
            follower_node_ids = drop 1 replicas;
          }
          ∷ rest)

unfoldable pub derived_ranges : TopologySnapshot → Result TopologyError (List DerivedRange)
unfolding dedup ranges_from
derived_ranges s = do
  let boundaries = dedup (map (λ (a : TokenAssignment). a.token) s.assignments)
  previous ← ok_or (last? boundaries) no_assignments
  ranges_from s previous boundaries
