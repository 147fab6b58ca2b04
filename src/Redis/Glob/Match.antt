-- ===== src/Redis/Glob/Match.antt =====
-- `Pattern::matches_within` of crates/hashring-redis/src/commands/glob.rs. The budget bounds its loop,
-- and an index into the elements or the text is what is left from there on.
use Prim.Native.Nat.{ℕ, zero, suc}
use hashring_rs.Prelude.{
  ◌-◌, ◌^◌, Bytes, List, [], ◌∷◌, Bool, true, false, ◌==◌, drop, all, if◌then◌else◌, Option, none,
  some, Result, or_panic,
}
use hashring_rs.Redis.Glob.Class.{accepts_byte}
use hashring_rs.Redis.Glob.Compile.{Element, star, any_byte, byte, class, Pattern}

-- Whether an element that is no star takes the byte.
unfoldable pub takes : Element → ℕ → Bool
unfolding accepts_byte
takes star c = false
takes any_byte c = true
takes (byte b) c = b == c
takes (class accepts) c = accepts_byte accepts c

abbrev pub is_star : Element → Bool
is_star star = true
is_star any_byte = false
is_star (byte b) = false
is_star (class accepts) = false

-- The elements after the last star, and the text that it has not consumed.
abbrev pub Star : Type 0
Star = Option (List Element × Bytes)

-- What is found, and the budget that is left.
abbrev pub Answer : Type 0
Answer = Option Bool × ℕ

-- The end of a pass in which the byte was not matched.
unfoldable pub give_back : Star → ℕ → (List Element → Bytes → Star → Answer) → Answer
give_back none left next = (some false, left)
give_back (some (after_star, text)) left next =
    next after_star (drop 1 text) (some (after_star, drop 1 text))

unfoldable pub match_from : ℕ → List Element → Bytes → Star → Answer
unfolding takes give_back
match_from budget elements [] last = (some (all is_star elements), budget)
match_from zero elements (c ∷ text) last = (none, 0)
match_from (suc budget) [] (c ∷ text) last = give_back last budget (match_from budget)
match_from (suc budget) (star ∷ elements) (c ∷ text) last =
    match_from budget elements (c ∷ text) (some (elements, c ∷ text))
match_from (suc budget) (e ∷ elements) (c ∷ text) last =
    let onward = match_from budget elements text last in
    if takes e c then onward else give_back last budget (match_from budget)

unfoldable pub matches_within : Pattern → Bytes → ℕ → Answer
unfolding match_from
matches_within pattern_ text budget =
    if pattern_.impossible
    then (some false, budget)
    else match_from budget pattern_.elements text none

-- `Pattern::matches`, whose `expect` panics if the budget runs out.
unfoldable pub matches : Pattern → Bytes → Result (Unit {0}) Bool
unfolding matches_within
matches pattern_ text = or_panic (matches_within pattern_ text (2 ^ 64 - 1)).0
