-- ===== src/Node/Keyspace/Stretches.antt =====
-- The stretches of the ring that crates/hashring-node/src/keyspace.rs walks.
use Prim.Native.Nat.{ℕ}
use hashring_rs.Prelude.{
  ◌+◌, ◌≤◌, ◌<◌, ◌≡◌, refl, ap, ◌⊎◌, inl, inr, Bytes, List, [], ◌∷◌, ltb, Bool-cases, arith, length,
  get_elem?, partition_point, Option, none, some,
}
use hashring_rs.Topology.Types.{TokenAssignment}
use hashring_rs.Node.Keyspace.{last_token, segment_of}

-- How many assignments are before a position.
abbrev pub before : List TokenAssignment → ℕ → ℕ
before assignments position = partition_point (λ a. ltb a.token position) assignments

pub before_le :
    (assignments : List TokenAssignment) (position : ℕ)
    → before assignments position ≤ length assignments
before_le [] position = omega arith
before_le (x ∷ xs) position = ground (arith, before_le xs position)

abbrev token_or_zero : Option TokenAssignment → ℕ
token_or_zero none = 0
token_or_zero (some a) = a.token

before_next :
    (assignments : List TokenAssignment) (position : ℕ) (a : TokenAssignment)
    → get_elem? assignments (before assignments position) ≡ some a
    → (position ≤ a.token)
      × (before assignments position < before assignments (a.token + 1))
      × (before assignments (a.token + 1) ≤ length assignments)
before_next [] position a e = ground (arith, e)
before_next (x ∷ xs) position a e = elim (Bool-cases (ltb x.token position)) [
  | inl c ↦
      let (at_least, more, few) = before_next xs position a (rw c at e) in
      ground (arith, at_least, more, few)
  | inr c ↦
      let same_token : x.token ≡ a.token = ap token_or_zero (rw c at e) in
      ground (arith, same_token, before_le xs (a.token + 1))
]

-- What a stretch is: the last, or one before an assignment that no later stretch has.
pub segment_of-next :
    (assignments : List TokenAssignment) (first : Bytes) (position : ℕ)
    → ((segment_of assignments first position).0 ≡ last_token)
      ⊎ ((position ≤ (segment_of assignments first position).0)
          × (before assignments position
              < before assignments ((segment_of assignments first position).0 + 1))
          × (before assignments ((segment_of assignments first position).0 + 1)
              ≤ length assignments))
unfolding segment_of
segment_of-next assignments first position =
    go (get_elem? assignments (before assignments position)) refl
  where
    go :
        (o : Option TokenAssignment)
        → get_elem? assignments (before assignments position) ≡ o
        → ((segment_of assignments first position).0 ≡ last_token)
          ⊎ ((position ≤ (segment_of assignments first position).0)
              × (before assignments position
                  < before assignments ((segment_of assignments first position).0 + 1))
              × (before assignments ((segment_of assignments first position).0 + 1)
                  ≤ length assignments))
    go none e = inl (rw e refl)
    go (some a) e = inr (rw e (before_next assignments position a e))
