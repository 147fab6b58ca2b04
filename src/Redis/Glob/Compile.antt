-- ===== src/Redis/Glob/Compile.antt =====
-- `Pattern::new` of crates/hashring-redis/src/commands/glob.rs. Its loop drops a varying number of
-- bytes in a pass, so it runs on fuel: one unit for each byte of the pattern.
use Prim.Native.Nat.{ℕ, zero, suc}
use hashring_rs.Prelude.{
  ◌+◌, ◌*◌, Bytes, List, [], ◌∷◌, ◌++◌, Bool, true, false, not, ltb, ◌==◌, length, if◌then◌else◌,
  Option, none, some,
}
use hashring_rs.Redis.Glob.Class.{ByteClass, no_bytes, accept, accept_redis_range}

-- `DEFAULT_MAX_KEY_BYTES`
abbrev pub max_fixed_elements : ℕ
max_fixed_elements = 64 * 1024

pub data Element : Type 0 where
  star any_byte : Element
  byte : ℕ → Element
  class : ByteClass → Element

pub record Pattern : Type 0 where
  pub elements : List Element
  pub impossible : Bool

-- The loop of `class`, from the text that is left on: what is accepted, and the text after the class.
unfoldable pub class_from : ByteClass → Bytes → ByteClass × Bytes
unfolding accept accept_redis_range
class_from accepts [] = (accepts, [])
class_from accepts (c ∷ []) = if c == b']' then (accepts, []) else (accept accepts c, [])
class_from accepts (c ∷ d ∷ []) =
    let escaped = class_from (accept accepts d) [] in
    let literal = class_from (accept accepts c) (d ∷ []) in
    if c == b'\\' then escaped else if c == b']' then (accepts, d ∷ []) else literal
class_from accepts (c ∷ d ∷ e ∷ rest) =
    let escaped = class_from (accept accepts d) (e ∷ rest) in
    let range = class_from (accept_redis_range accepts c e) rest in
    let literal = class_from (accept accepts c) (d ∷ e ∷ rest) in
    if c == b'\\'
    then escaped
    else if c == b']'
    then (accepts, d ∷ e ∷ rest)
    else if d == b'-'
    then range
    else literal

abbrev negate : ByteClass × Bytes → ByteClass × Bytes
negate (accepts, rest) = (λ index bit. not (accepts index bit), rest)

unfoldable pub read_class : Bytes → ByteClass × Bytes
unfolding class_from
read_class [] = class_from no_bytes []
read_class (c ∷ rest) =
    if c == b'^' then negate (class_from no_bytes rest) else class_from no_bytes (c ∷ rest)

-- An element that is no star, and the text after it.
unfoldable pub next_element : ℕ → Bytes → Element × Bytes
unfolding read_class
next_element c rest =
    if c == b'?'
    then (any_byte, rest)
    else if c == b'['
    then (class (read_class rest).0, (read_class rest).1)
    else escape c rest
  where
    escape : ℕ → Bytes → Element × Bytes
    escape c [] = (byte c, [])
    escape c (d ∷ rest) = if c == b'\\' then (byte d, rest) else (byte c, d ∷ rest)

abbrev pub ends_in_star : List Element → Bool
ends_in_star [] = false
ends_in_star (star ∷ []) = true
ends_in_star (e ∷ []) = false
ends_in_star (e ∷ f ∷ es) = ends_in_star (f ∷ es)

-- The loop of `Pattern::new`, with `fuel` passes to go. `none` means that they ran out.
unfoldable pub compile_from : ℕ → Bytes → List Element → ℕ → Option Pattern
unfolding next_element
compile_from fuel [] elements fixed = some (record { elements = elements; impossible = false })
compile_from zero (c ∷ rest) elements fixed = none
compile_from (suc fuel) (c ∷ rest) elements fixed =
    let same_star = compile_from fuel rest elements fixed in
    let new_star = compile_from fuel rest (elements ++ star ∷ []) fixed in
    let more =
      compile_from fuel (next_element c rest).1 (elements ++ (next_element c rest).0 ∷ [])
        (fixed + 1) in
    if c == b'*'
    then (if ends_in_star elements then same_star else new_star)
    else if ltb max_fixed_elements (fixed + 1)
    then some (record { elements = []; impossible = true })
    else more

unfoldable pub compile : Bytes → Option Pattern
unfolding compile_from
compile pattern_text = compile_from (length pattern_text) pattern_text [] 0
