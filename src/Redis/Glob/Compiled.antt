-- ===== src/Redis/Glob/Compiled.antt =====
-- What `Pattern::new` of crates/hashring-redis/src/commands/glob.rs compiles.
use Prim.Native.Nat.{ℕ, zero, suc}
use mathlib.Core.List.{append-nil}
use hashring_rs.Prelude.{
  ◌+◌, ◌*◌, ◌≤◌, ◌≡◌, refl, sym, ap, ◌∙◌, inl, inr, Bytes, Bytes_discrete, same, List, [], ◌∷◌,
  ◌++◌, map, true, false, arith, ltb, ◌==◌, length, Bool-cases, if◌then◌else◌, some,
}
use hashring_rs.Redis.Glob.Class.{ByteClass, no_bytes, accept, accept_redis_range}
use hashring_rs.Redis.Glob.Compile.{
  Element, star, any_byte, byte, class, Pattern, max_fixed_elements, class_from, read_class,
  next_element, ends_in_star, compile_from, compile,
}
use hashring_rs.Redis.Glob.Match.{takes, is_star}
use hashring_rs.Redis.Glob.Matched.{fits}

class_from-shorter :
    (accepts : ByteClass) (text : Bytes) → length (class_from accepts text).1 ≤ length text
unfolding class_from
class_from-shorter accepts [] = omega arith
class_from-shorter accepts (c ∷ []) = ground arith
class_from-shorter accepts (c ∷ d ∷ []) = ground (
  arith,
  class_from-shorter (accept accepts d) [],
  class_from-shorter (accept accepts c) (d ∷ []),
)
class_from-shorter accepts (c ∷ d ∷ e ∷ rest) = ground (
  arith,
  class_from-shorter (accept accepts d) (e ∷ rest),
  class_from-shorter (accept_redis_range accepts c e) rest,
  class_from-shorter (accept accepts c) (d ∷ e ∷ rest),
)

read_class-shorter : (text : Bytes) → length (read_class text).1 ≤ length text
unfolding read_class
read_class-shorter [] = class_from-shorter no_bytes []
read_class-shorter (c ∷ rest) =
    ground (arith, class_from-shorter no_bytes rest, class_from-shorter no_bytes (c ∷ rest))

next_element-shorter : (c : ℕ) (rest : Bytes) → length (next_element c rest).1 ≤ length rest
unfolding next_element
next_element-shorter c [] = ground (arith, read_class-shorter [])
next_element-shorter c (d ∷ rest) = ground (arith, read_class-shorter (d ∷ rest))

next_element-fixed : (c : ℕ) (rest : Bytes) → is_star (next_element c rest).0 ≡ false
unfolding next_element
next_element-fixed c [] = ground arith
next_element-fixed c (d ∷ rest) = ground arith

length-snoc : (es : List Element) (e : Element) → length (es ++ e ∷ []) ≡ length es + 1
length-snoc [] e = refl
length-snoc (x ∷ es) e = omega (arith, length-snoc es e)

ends_in_star-snoc : (es : List Element) (e : Element) → ends_in_star (es ++ e ∷ []) ≡ is_star e
ends_in_star-snoc [] star = refl
ends_in_star-snoc [] any_byte = refl
ends_in_star-snoc [] (byte b) = refl
ends_in_star-snoc [] (class k) = refl
ends_in_star-snoc (x ∷ []) e = ends_in_star-snoc [] e
ends_in_star-snoc (x ∷ y ∷ es) e = ends_in_star-snoc (y ∷ es) e

-- No two stars stand side by side, and `fixed` counts the elements that are none.
abbrev IsSparse : List Element → ℕ → Type 0
IsSparse es fixed =
    (fixed ≤ max_fixed_elements)
    × (length es ≤ (if ends_in_star es then 2 * fixed + 1 else 2 * fixed))

compile_from-total :
    (fuel : ℕ) (text : Bytes) (es : List Element) (fixed : ℕ)
    → length text ≤ fuel
    → IsSparse es fixed
    → (p : Pattern) × (compile_from fuel text es fixed ≡ some p)
      × (length p.elements ≤ 2 * max_fixed_elements + 1)
unfolding compile_from
compile_from-total fuel [] es fixed enough sparse =
    (record { elements = es; impossible = false }, refl, ground arith)
compile_from-total zero (c ∷ rest) es fixed enough sparse = absurd (omega arith)
compile_from-total (suc fuel) (c ∷ rest) es fixed enough (few, sparse) =
    elim (Bool-cases (c == b'*')) [
      | inl s ↦ elim (Bool-cases (ends_in_star es)) [
        | inl k ↦ rw (s, k) (compile_from-total fuel rest es fixed (omega arith) (few, sparse))
        | inr k ↦
            rw (s, k)
              (compile_from-total fuel rest (es ++ star ∷ []) fixed (omega arith)
                (few, ground (arith, ends_in_star-snoc es star, length-snoc es star)))
      ]
      | inr s ↦ elim (Bool-cases (ltb max_fixed_elements (fixed + 1))) [
        | inl k ↦ rw (s, k) (record { elements = []; impossible = true }, refl, omega arith)
        | inr k ↦
            let e = (next_element c rest).0 in
            let shorter = next_element-shorter c rest in
            rw (s, k)
              (compile_from-total fuel (next_element c rest).1 (es ++ e ∷ []) (fixed + 1)
                (omega arith)
                (
                  ground arith,
                  ground
                      (arith, ends_in_star-snoc es e, next_element-fixed c rest, length-snoc es e),
                ))
      ]
    ]

-- Compiling ends within its fuel for every pattern, with no more elements than the bound on those
-- that are no star and a star before, between and after them.
pub compile-total :
    (text : Bytes)
    → (p : Pattern) × (compile text ≡ some p) × (length p.elements ≤ 2 * max_fixed_elements + 1)
unfolding compile
compile-total text =
    compile_from-total (length text) text [] 0 (omega arith) (omega arith, omega arith)

-- Each byte after a backslash.
unfoldable pub escaped : Bytes → Bytes
escaped [] = []
escaped (c ∷ text) = b'\\' ∷ c ∷ escaped text

append-one :
    (es : List Element) (e : Element) (fs : List Element) → (es ++ e ∷ []) ++ fs ≡ es ++ e ∷ fs
append-one [] e fs = refl
append-one (x ∷ es) e fs = ap (λ l. x ∷ l) (append-one es e fs)

compile_from-escaped :
    (fuel : ℕ) (text : Bytes) (es : List Element) (fixed : ℕ)
    → 2 * length text ≤ fuel
    → fixed + length text ≤ max_fixed_elements
    → compile_from fuel (escaped text) es fixed
      ≡ some (record { elements = es ++ map byte text; impossible = false })
unfolding compile_from escaped next_element
compile_from-escaped fuel [] es fixed enough few =
    ap (λ l. some (record { elements = l; impossible = false })) (sym (append-nil es))
compile_from-escaped zero (c ∷ text) es fixed enough few = absurd (omega arith)
compile_from-escaped (suc fuel) (c ∷ text) es fixed enough few =
    let room : ltb max_fixed_elements (fixed + 1) ≡ false = ground arith in
    rw room (
      compile_from-escaped fuel text (es ++ byte c ∷ []) (fixed + 1) (omega arith) (omega arith)
      ∙ ap (λ l. some (record { elements = l; impossible = false }))
          (append-one es (byte c) (map byte text)))

fits-bytes : (text other : Bytes) → fits (map byte text) other ≡ same text other
unfolding fits takes Bytes_discrete
fits-bytes [] [] = refl
fits-bytes [] (d ∷ other) = refl
fits-bytes (c ∷ text) [] = refl
fits-bytes (c ∷ text) (d ∷ other) = ground (arith, fits-bytes text other)

length-escaped : (text : Bytes) → length (escaped text) ≡ 2 * length text
unfolding escaped
length-escaped [] = refl
length-escaped (c ∷ text) = omega (arith, length-escaped text)

-- A text that is no longer than a key, with a backslash before each byte, compiles to a pattern that
-- fits that text and no other.
pub compile-escaped :
    (text : Bytes)
    → length text ≤ max_fixed_elements
    → (p : Pattern) × (compile (escaped text) ≡ some p)
      × (p.impossible ≡ false)
      × ((other : Bytes) → fits p.elements other ≡ same text other)
unfolding compile
compile-escaped text few = (
  record { elements = map byte text; impossible = false },
  compile_from-escaped (length (escaped text)) text [] 0 (omega (arith, length-escaped text))
      (omega arith),
  refl,
  fits-bytes text,
)
