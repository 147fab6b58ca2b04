-- ===== src/Redis/Resp/Decimal.antt =====
-- `usize::to_string` and `str::parse::<usize>`, as crates/hashring-redis/src/resp.rs uses them.
use Prim.Native.Nat.{ℕ, zero, suc}
use hashring_rs.Prelude.{
  ◌+◌, ◌-◌, ◌*◌, ◌/◌, ◌%◌, ◌^◌, ◌≤◌, ◌<◌, ◌≡◌, refl, ◌∙◌, inl, inr, Bytes, [], ◌∷◌, false, ◌||◌,
  arith, ltb, ◌==◌, Bool-cases, All, length, subst, if◌then◌else◌, Option, none, some,
}

-- The digits of `n` before `out`: a pass for each digit, of which there are fewer than `fuel`.
unfoldable pub digits : ℕ → ℕ → Bytes → Bytes
digits zero n out = out
digits (suc fuel) n out =
    let more = digits fuel (n / 10) ((b'0' + n % 10) ∷ out) in
    if n / 10 == 0 then (b'0' + n % 10) ∷ out else more

unfoldable pub to_string : ℕ → Bytes
unfolding digits
to_string n = digits (suc n) n []

unfoldable pub scan : Bytes → ℕ → Option ℕ
scan [] n = some n
scan (c ∷ text) n =
    let rest = scan text (n * 10 + (c - b'0')) in
    if ltb c b'0' || ltb b'9' c
    then none
    else if ltb (n * 10 + (c - b'0')) (2 ^ 64)
    then rest
    else none

-- At least one digit, after a plus sign if there is one.
unfoldable pub parse_usize : Bytes → Option ℕ
unfolding scan
parse_usize [] = none
parse_usize (c ∷ []) = scan (c ∷ []) 0
parse_usize (c ∷ d ∷ text) = if c == b'+' then scan (d ∷ text) 0 else scan (c ∷ d ∷ text) 0

-- A digit that is read after the ones before it.
scan_last : (n : ℕ) (out : Bytes) → n < 2 ^ 64 → scan ((b'0' + n % 10) ∷ out) (n / 10) ≡ scan out n
unfolding scan
scan_last n out fits = ground arith

scan-digits :
    (fuel n : ℕ) (out : Bytes) → n < fuel → n < 2 ^ 64 → scan (digits fuel n out) 0 ≡ scan out n
unfolding digits
scan-digits zero n out h fits = absurd (omega arith)
scan-digits (suc fuel) n out h fits = elim (Bool-cases (n / 10 == 0)) [
  | inl one ↦
      let z : n / 10 ≡ 0 = ground arith in
      rw one (subst (λ k. scan ((b'0' + n % 10) ∷ out) k ≡ scan out n) z (scan_last n out fits))
  | inr more ↦ rw more (
      scan-digits fuel (n / 10) ((b'0' + n % 10) ∷ out) (ground arith) (omega arith)
      ∙ scan_last n out fits)
]

abbrev pub IsDigit : ℕ → Type 0
IsDigit c = (b'0' ≤ c) × (c ≤ b'9')

abbrev pub AllDigits : Bytes → Type 0
AllDigits text = All IsDigit text

digits-AllDigits : (fuel n : ℕ) (out : Bytes) → AllDigits out → AllDigits (digits fuel n out)
unfolding digits
digits-AllDigits zero n out h = h
digits-AllDigits (suc fuel) n out h = elim (Bool-cases (n / 10 == 0)) [
  | inl one ↦ rw one ((omega arith, omega arith), h)
  | inr more ↦
      rw more
        (digits-AllDigits fuel (n / 10) ((b'0' + n % 10) ∷ out) ((omega arith, omega arith), h))
]

-- What is printed is made of digits.
pub to_string-AllDigits : (n : ℕ) → AllDigits (to_string n)
unfolding to_string
to_string-AllDigits n = digits-AllDigits (suc n) n [] tt

digits-some : (fuel n : ℕ) (out : Bytes) → n < fuel → 0 < length (digits fuel n out)
unfolding digits
digits-some zero n out h = absurd (omega arith)
digits-some (suc fuel) n out h = elim (Bool-cases (n / 10 == 0)) [
  | inl one ↦ rw one (omega arith)
  | inr more ↦ rw more (digits-some fuel (n / 10) ((b'0' + n % 10) ∷ out) (ground arith))
]

parse_usize-scan :
    (text : Bytes) → 0 < length text → AllDigits text → parse_usize text ≡ scan text 0
unfolding parse_usize
parse_usize-scan [] h k = absurd (omega arith)
parse_usize-scan (c ∷ []) h k = refl
parse_usize-scan (c ∷ d ∷ text) h k = let no_sign : (c == b'+') ≡ false = ground arith in rw no_sign

-- A 64-bit number is read back from its decimal print.
pub parse_usize-to_string : (n : ℕ) → n < 2 ^ 64 → parse_usize (to_string n) ≡ some n
unfolding to_string
parse_usize-to_string n fits =
    parse_usize-scan (to_string n) (digits-some (suc n) n [] (omega arith)) (to_string-AllDigits n)
    ∙ scan-digits (suc n) n [] (omega arith) fits
    ∙ unfold scan in refl
