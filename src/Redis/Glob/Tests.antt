-- ===== src/Redis/Glob/Tests.antt =====
-- Patterns of the tests in crates/hashring-redis/src/commands/glob.rs, and the theorems at small ones.
use hashring_rs.Prelude.{
  ℕ, ◌+◌, ◌*◌, ◌≤◌, ◌≡◌, refl, Bytes, codes, same, Bytes_discrete, ℕ_discrete, List, [], ◌∷◌, Bool,
  true, false, ◌&&◌, ◌||◌, leb, arith, length, Option, none, some, ok,
}
use hashring_rs.Redis.Glob.Class.{
  no_bytes, accepts_byte, accept, range_mask, accept_range, accept_redis_range, signed,
  accepts_byte-accept_redis_range,
}
use hashring_rs.Redis.Glob.Compile.{
  Element, star, byte, Pattern, max_fixed_elements, class_from, read_class, next_element,
  compile_from, compile,
}
use hashring_rs.Redis.Glob.Compiled.{compile-total, escaped, compile-escaped}
use hashring_rs.Redis.Glob.Match.{takes, give_back, match_from, matches_within, matches}
use hashring_rs.Redis.Glob.Matched.{fits}
use hashring_rs.Redis.Glob.Cost.{matches_within-fits, matches-fits}

runs : Unit {0}
unfolding Bytes_discrete ℕ_discrete accepts_byte accept range_mask accept_range accept_redis_range
    class_from read_class next_element compile_from compile takes give_back match_from
    matches_within matches
runs = tt

abbrev found : Option Pattern → Bytes → Option Bool
found none text = none
found (some p) text = (matches_within p text 1_000).0

abbrev m : Bytes → Bytes → Option Bool
m pattern_text text = found (compile pattern_text) text

star_in_the_middle : m (codes "user:*:name") (codes "user:42:name") ≡ some true
unfolding runs
star_in_the_middle = refl

star_misses : m (codes "user:*:name") (codes "user:42:email") ≡ some false
unfolding runs
star_misses = refl

negated_class : m (codes "h[^e]llo") (codes "hello") ≡ some false
unfolding runs
negated_class = refl

backwards_range : m (codes "h[b-a]llo") (codes "hallo") ≡ some true
unfolding runs
backwards_range = refl

range_that_ends_in_bracket : m (codes "[a-]]") (codes "_") ≡ some true
unfolding runs
range_that_ends_in_bracket = refl

-- From 97 to -1 as signed bytes.
binary_range : accepts_byte (accept_redis_range no_bytes 97 255) 98 ≡ false
unfolding runs
binary_range = refl

accepts_byte-accept_redis_range_example : accepts_byte (accept_redis_range no_bytes 97 255) 98 ≡ (
    accepts_byte no_bytes 98
    || leb (signed 97) (signed 98) && leb (signed 98) (signed 255)
    || leb (signed 255) (signed 98) && leb (signed 98) (signed 97))
accepts_byte-accept_redis_range_example =
    accepts_byte-accept_redis_range no_bytes 97 255 98 (omega arith) (omega arith) (omega arith)

abbrev two_stars : List Element
two_stars = star ∷ byte 97 ∷ star ∷ byte 98 ∷ []

matches_within-fits_example :
    (left : ℕ) × (matches_within
        (record { elements = two_stars; impossible = false })
        (codes "xaab")
        20
      ≡ (some (fits two_stars (codes "xaab")), left))
    × (20 ≤ left + 4 * 5)
matches_within-fits_example = matches_within-fits two_stars (codes "xaab") 20 (omega arith)

matches-fits_example :
    matches (record { elements = two_stars; impossible = false }) (codes "xaab")
    ≡ ok (fits two_stars (codes "xaab"))
matches-fits_example = matches-fits two_stars (codes "xaab") (omega arith)

compile-total_example :
    (p : Pattern) × (compile (codes "h[a-b]*") ≡ some p)
    × (length p.elements ≤ 2 * max_fixed_elements + 1)
compile-total_example = compile-total (codes "h[a-b]*")

compile-escaped_example :
    (p : Pattern) × (compile (escaped (codes "a*b")) ≡ some p)
    × (p.impossible ≡ false)
    × ((other : Bytes) → fits p.elements other ≡ same (codes "a*b") other)
compile-escaped_example = compile-escaped (codes "a*b") (omega arith)
