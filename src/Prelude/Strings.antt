-- ===== src/Prelude/Strings.antt =====
-- Byte strings, with the equality and the order of Rust's `String` and `Vec<u8>`.
use Prim.Native.Nat.{ℕ}
use Prim.Native.Char.{code}
use Prim.Native.String.{String}
use mathlib.Core.Bool.{Bool, true, false}
use mathlib.Core.List.{List, [], ◌∷◌}
use mathlib.Core.Logic.{◌⊎◌, inl, inr, ◌≢◌}
use mathlib.Core.Path.{◌≡◌, refl}
use native.Mathlib.Decide.{ℕ_discrete}
use native.Mathlib.Omega.{arith}
use hashring_rs.Prelude.Tests.{ltb, if◌then◌else◌}

abbrev pub Bytes : Type 0
Bytes = List ℕ

unfoldable pub Bytes_discrete : Discrete Bytes
Bytes_discrete = hlevel ℕ_discrete

-- Equality as a test.
abbrev pub same : Bytes → Bytes → Bool
same a b = elim (Bytes_discrete a b) [ yes _ ↦ true | no _ ↦ false ]

pub same_refl : (a : Bytes) → same a a ≡ true
same_refl a = ground arith

pub same-true : (a b : Bytes) → same a b ≡ true → a ≡ b
same-true a b = ground arith

pub same-false : (a b : Bytes) → same a b ≡ false → a ≢ b
same-false a b = ground arith

-- The bytes of an ASCII literal.
abbrev pub codes : String → Bytes
codes String.[] = []
codes (String.◌∷◌ c s) = code c ∷ codes s

-- Lexicographic.
unfoldable pub bytes_leb : Bytes → Bytes → Bool
bytes_leb [] ys = true
bytes_leb (x ∷ xs) [] = false
bytes_leb (x ∷ xs) (y ∷ ys) = if ltb x y then true else if ltb y x then false else bytes_leb xs ys

pub bytes_leb_total : (a b : Bytes) → (bytes_leb a b ≡ true) ⊎ (bytes_leb b a ≡ true)
unfolding bytes_leb
bytes_leb_total [] b = inl refl
bytes_leb_total (x ∷ a) [] = inr refl
bytes_leb_total (x ∷ a) (y ∷ b) = ground (arith, bytes_leb_total a b)

pub bytes_leb_trans :
    (a b c : Bytes) → bytes_leb a b ≡ true → bytes_leb b c ≡ true → bytes_leb a c ≡ true
unfolding bytes_leb
bytes_leb_trans [] b c h k = refl
bytes_leb_trans (x ∷ a) [] c h k = cc
bytes_leb_trans (x ∷ a) (y ∷ b) [] h k = cc
bytes_leb_trans (x ∷ a) (y ∷ b) (z ∷ c) h k = ground (arith, bytes_leb_trans a b c)

pub bytes_leb_antisymm : (a b : Bytes) → bytes_leb a b ≡ true → bytes_leb b a ≡ true → a ≡ b
unfolding bytes_leb
bytes_leb_antisymm [] [] h k = refl
bytes_leb_antisymm [] (y ∷ b) h k = cc
bytes_leb_antisymm (x ∷ a) [] h k = cc
bytes_leb_antisymm (x ∷ a) (y ∷ b) h k = ground (arith, bytes_leb_antisymm a b)
