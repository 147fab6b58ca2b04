-- ===== src/Topology/Replicas.antt =====
-- What the loop of `replica_node_ids_for_token` in crates/hashring-core/src/topology.rs collects:
-- the first nodes that the walk round the ring meets.
use native.Mathlib.Nat.{mod-eq_of_lt, add-zero}
use hashring_rs.Prelude.{
  ℕ, zero, suc, ◌+◌, ◌-◌, ◌%◌, ◌<◌, ◌≡◌, sym, ap, ◌∙◌, Bytes, List, [], ◌∷◌, arith, length,
  get_elem?, take, drop, some, ok, fail_if, is_empty, ◌>>◌,
}
use hashring_rs.Prelude.Sort.{IsSorted}
use hashring_rs.Topology.Types.{no_assignments, TokenAssignment, TopologySnapshot}
use hashring_rs.Topology.Lookup.{first_index, wrap, least, replica_node_ids_for_token}
use hashring_rs.Topology.Clockwise.{
  token_leb, clockwise, rotate, start, rotate-clockwise, get_elem?-rotate,
}
use hashring_rs.Topology.Collected.{
  first_met, drop-get_elem?, length-rotate, wrap_pos, collect-collected,
}

-- The walk begins at the assignment that the code indexes first.
pub clockwise-cons :
    (token : ℕ) (xs : List TokenAssignment)
    → IsSorted token_leb xs
    → 0 < length xs
    → (a : TokenAssignment) × (rest : List TokenAssignment) × (wrap
          (first_index xs token)
          (length xs)
        ≡ ok (start token xs))
      × (get_elem? xs (start token xs) ≡ some a)
      × (clockwise token xs ≡ a ∷ rest)
clockwise-cons token xs h pos =
    let (less, round) = rotate-clockwise token xs h pos in
    go less round (
      drop-get_elem? 0 (rotate (start token xs) xs)
        (omega (arith, length-rotate (start token xs) xs)))
  where
    go :
        start token xs < length xs
        → rotate (start token xs) xs ≡ clockwise token xs
        → ((x : TokenAssignment) × (get_elem? (rotate (start token xs) xs) 0 ≡ some x)
            × (rotate (start token xs) xs ≡ x ∷ drop 1 (rotate (start token xs) xs)))
        → (a : TokenAssignment) × (rest : List TokenAssignment) × (wrap
              (first_index xs token)
              (length xs)
            ≡ ok (start token xs))
          × (get_elem? xs (start token xs) ≡ some a)
          × (clockwise token xs ≡ a ∷ rest)
    go less round (x, at, split) =
        let i : (start token xs + 0) % length xs ≡ start token xs =
          ap (λ k. k % length xs) (add-zero (start token xs)) ∙ mod-eq_of_lt less in
        (
          x,
          drop 1 (rotate (start token xs) xs),
          wrap_pos _ (length xs) pos,
          sym (ap (get_elem? xs) i) ∙ sym (get_elem?-rotate (start token xs) 0 xs less pos) ∙ at,
          sym round ∙ split,
        )

finish :
    (n : ℕ) (x : Bytes) (l : List Bytes)
    → 0 < n
    → (fail_if (is_empty (take (n - 0) (x ∷ l))) no_assignments >> ok (take (n - 0) (x ∷ l)))
      ≡ ok (take n (x ∷ l))
finish zero x l h = elim h [ ]
finish (suc n) x l h = let e : suc n - 0 ≡ suc n = omega arith in rw e

-- The replicas of a token are the first nodes that the walk from it meets, as many as the
-- replication factor and the members allow.
pub replica_node_ids-first_met :
    (s : TopologySnapshot) (token : ℕ)
    → IsSorted token_leb s.assignments
    → 0 < length s.assignments
    → 0 < least s.desired_replication_factor (length s.members)
    → replica_node_ids_for_token s token
      ≡ ok (
          take
            (least s.desired_replication_factor (length s.members))
            (first_met [] (clockwise token s.assignments)))
replica_node_ids-first_met s token h pos target =
    let (less, round) = rotate-clockwise token s.assignments h pos in
    go less round (clockwise-cons token s.assignments h pos)
  where
    n : ℕ
    n = least s.desired_replication_factor (length s.members)

    xs : List TokenAssignment
    xs = s.assignments

    go :
        start token xs < length xs
        → rotate (start token xs) xs ≡ clockwise token xs
        → ((a : TokenAssignment) × (rest : List TokenAssignment) × (wrap
                (first_index xs token)
                (length xs)
              ≡ ok (start token xs))
            × (get_elem? xs (start token xs) ≡ some a)
            × (clockwise token xs ≡ a ∷ rest))
        → replica_node_ids_for_token s token ≡ ok (take n (first_met [] (clockwise token xs)))
    go less round (a, rest, index, _, split) =
        let loop =
          collect-collected xs n (start token xs) (length xs) 0 [] [] less (add-zero (length xs))
            target in
        rw split (
          unfold replica_node_ids_for_token first_met in
          rw (index, loop, round, split)
            (finish n a.node_id (first_met (a.node_id ∷ []) rest) target))
