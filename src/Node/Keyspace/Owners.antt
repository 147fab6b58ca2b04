-- ===== src/Node/Keyspace/Owners.antt =====
-- Whose the stretches are that crates/hashring-node/src/keyspace.rs walks.
use Prim.Native.Nat.{ℕ, zero}
use hashring_rs.Prelude.{
  ◌≤◌, ◌<◌, ◌≡◌, refl, ◌⊎◌, inl, inr, List, [], ◌∷◌, ltb, Bool-cases, arith, All, get_elem?, Option,
  none, some,
}
use hashring_rs.Topology.Types.{TokenAssignment}
use hashring_rs.Node.Keyspace.{segment_of}
use hashring_rs.Node.Keyspace.Stretches.{before}

-- The first assignment of a list at a token or after it.
abbrev pub IsFirstFrom : List TokenAssignment → ℕ → TokenAssignment → Type 0
IsFirstFrom [] token a = ⊥
IsFirstFrom (x ∷ xs) token a =
    ((token ≤ x.token) × (x ≡ a)) ⊎ ((x.token < token) × IsFirstFrom xs token a)

-- The assignment that a token is in: the first from it, or the first of all where none is.
abbrev pub IsOwnerAt : List TokenAssignment → ℕ → TokenAssignment → Type 0
IsOwnerAt assignments token a =
    IsFirstFrom assignments token a
    ⊎ (All (λ (x : TokenAssignment). x.token < token) assignments
        × (get_elem? assignments zero ≡ some a))

before-IsFirstFrom :
    (xs : List TokenAssignment) (token : ℕ) (a : TokenAssignment)
    → get_elem? xs (before xs token) ≡ some a
    → IsFirstFrom xs token a
before-IsFirstFrom [] token a e = absurd (ground (arith, e))
before-IsFirstFrom (x ∷ xs) token a e = elim (Bool-cases (ltb x.token token)) [
  | inl c ↦ inr (ground arith, before-IsFirstFrom xs token a (rw c at e))
  | inr c ↦ inl (ground arith, ground (arith, e, c))
]

before_all :
    (xs : List TokenAssignment) (token : ℕ)
    → get_elem? xs (before xs token) ≡ none
    → All (λ (x : TokenAssignment). x.token < token) xs
before_all [] token e = tt
before_all (x ∷ xs) token e = elim (Bool-cases (ltb x.token token)) [
  | inl c ↦ (ground arith, before_all xs token (rw c at e))
  | inr c ↦ absurd (ground (arith, e, c))
]

-- The owner of the stretch at a token is the node of the token's assignment.
pub segment_of-IsOwnerAt :
    (assignments : List TokenAssignment) (first : TokenAssignment) (token : ℕ)
    → get_elem? assignments zero ≡ some first
    → (a : TokenAssignment) × IsOwnerAt assignments token a
      × ((segment_of assignments first.node_id token).1 ≡ a.node_id)
unfolding segment_of
segment_of-IsOwnerAt assignments first token at =
    go (get_elem? assignments (before assignments token)) refl
  where
    go :
        (o : Option TokenAssignment)
        → get_elem? assignments (before assignments token) ≡ o
        → (a : TokenAssignment) × IsOwnerAt assignments token a
          × ((segment_of assignments first.node_id token).1 ≡ a.node_id)
    go none e = (first, inr (before_all assignments token e, at), rw e refl)
    go (some a) e = (a, inl (before-IsFirstFrom assignments token a e), rw e refl)
