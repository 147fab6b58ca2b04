-- ===== src/Interval.antt =====
-- Hash intervals `(start, end]` that wrap at `u64::MAX`. The repository tests them in four places:
-- `RangeSpec::contains` and `range_contains` in crates/hashring-node/src/lib.rs,
-- `interval_contains` in crates/hashring-coordinator/src/migration_helpers.rs and `token_in_range`
-- in crates/hashring-coordinator/src/removal.rs. `RangeSpec::token_bounds` makes of one the ranges of
-- a `BTreeMap`.
mod Tests
use Prim.Native.Nat.{compare, Ordering, lt, eq, gt}
use hashring_rs.Prelude.{
  ℕ, suc, ◌+◌, ◌-◌, ◌%◌, ◌^◌, ◌<◌, ◌≤◌, ◌≡◌, ◌↔◌, refl, Bool, true, false, ◌&&◌, ◌||◌, ltb, leb,
  ◌==◌, if◌then◌else◌, arith, List, [], ◌∷◌, any, Bool-cases, inl, inr,
}

abbrev pub interval_contains : ℕ → ℕ → ℕ → Bool
interval_contains start end token =
    if start == end
    then true
    else if ltb start end
    then ltb start token && leb token end
    else ltb start token || leb token end

unfoldable pub intervals_overlap : ℕ → ℕ → ℕ → ℕ → Bool
intervals_overlap a_start a_end b_start b_end =
    interval_contains a_start a_end b_end || interval_contains b_start b_end a_end

-- `RangeSpec::contains`
unfoldable pub spec_contains : ℕ → ℕ → ℕ → Bool
spec_contains start end token = elim (compare start end) [
  | lt ↦ ltb start token && leb token end
  | eq ↦ true
  | gt ↦ ltb start token || leb token end
]

-- `range_contains` of the data node, and `token_in_range` of the coordinator.
unfoldable pub range_contains : ℕ → ℕ → ℕ → Bool
range_contains start end token =
    if ltb start end
    then ltb start token && leb token end
    else if ltb end start
    then ltb start token || leb token end
    else true

unfoldable pub token_in_range : ℕ → ℕ → ℕ → Bool
token_in_range start end token =
    if ltb start end
    then ltb start token && leb token end
    else if ltb end start
    then ltb start token || leb token end
    else true

-- A `Bound` of a range of a `BTreeMap`.
pub data Bound : Type 0 where
  included excluded : ℕ → Bound
  unbounded : Bound

abbrev pub above : Bound → ℕ → Bool
above (included b) t = leb b t
above (excluded b) t = ltb b t
above unbounded t = true

abbrev pub below : Bound → ℕ → Bool
below (included b) t = leb t b
below (excluded b) t = ltb t b
below unbounded t = true

abbrev pub in_bounds : Bound × Bound → ℕ → Bool
in_bounds bounds t = above bounds.0 t && below bounds.1 t

-- `RangeSpec::token_bounds`
unfoldable pub token_bounds : ℕ → ℕ → List (Bound × Bound)
token_bounds start end =
    if ltb end start
    then (unbounded, included end) ∷ (excluded start, unbounded) ∷ []
    else if start == end
    then (unbounded, unbounded) ∷ []
    else (excluded start, included end) ∷ []

-- How far a token is past another, going up and wrapping.
abbrev pub distance_from : ℕ → ℕ → ℕ
distance_from start token = if leb start token then token - start else token + 2 ^ 64 - start

-- Among 64-bit tokens, the interval from a token to itself has them all, and the interval from one
-- to another has those that are past the start, and no further past it than the end is;
-- `RangeSpec::contains`, `range_contains` and `token_in_range` agree with `interval_contains`.
pub interval_contains-distance :
    (start end token : ℕ)
    → start < 2 ^ 64
    → end < 2 ^ 64
    → token < 2 ^ 64
    → (spec_contains start end token ≡ interval_contains start end token)
      × (range_contains start end token ≡ interval_contains start end token)
      × (token_in_range start end token ≡ interval_contains start end token)
      × (interval_contains start end token ≡ (
          start == end
          || ltb 0 (distance_from start token)
            && leb (distance_from start token) (distance_from start end)))
unfolding spec_contains range_contains token_in_range
interval_contains-distance start end token hs he ht =
    (ground arith, ground arith, ground arith, ground arith)

-- The bounds of `token_bounds` accept exactly the tokens of the interval.
pub token_bounds-interval_contains :
    (start end token : ℕ)
    → (any (λ b. in_bounds b token) (token_bounds start end) ≡ interval_contains start end token)
unfolding token_bounds
token_bounds-interval_contains start end token = ground arith

-- Two intervals between 64-bit tokens overlap by `intervals_overlap` exactly if some 64-bit token is
-- in both.
pub intervals_overlap_iff :
    (a b c d : ℕ)
    → a < 2 ^ 64
    → b < 2 ^ 64
    → c < 2 ^ 64
    → d < 2 ^ 64
    → (intervals_overlap a b c d ≡ true) ↔ (
        (t : ℕ) × (t < 2 ^ 64)
        × (interval_contains a b t ≡ true)
        × (interval_contains c d t ≡ true))
unfolding intervals_overlap
intervals_overlap_iff a b c d ha hb hc hd = (
  λ k. elim (Bool-cases (interval_contains a b d)) [
    | inl first ↦ (d, hd, first, ground arith)
    | inr other ↦ (b, hb, ground arith, ground arith)
  ],
  λ (t, ht, x, y). ground arith,
)
