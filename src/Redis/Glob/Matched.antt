-- ===== src/Redis/Glob/Matched.antt =====
-- `Pattern::matches_within` of crates/hashring-redis/src/commands/glob.rs goes back to the last star
-- only, and finds what trying every split of the text finds.
use Prim.Native.Nat.{ℕ, zero, suc}
use hashring_rs.Prelude.{
  ◌≤◌, ◌≡◌, refl, sym, ap, ◌∙◌, ◌⊎◌, inl, inr, Bytes, List, [], ◌∷◌, Bool, true, false, ◌&&◌, ◌||◌,
  arith, length, all, Bool-cases, if◌then◌else◌, none, some,
}
use hashring_rs.Redis.Glob.Compile.{Element, star, any_byte, byte, class}
use hashring_rs.Redis.Glob.Match.{
  takes, is_star, Star, Answer, give_back, match_from, matches_within,
}

-- What a pattern means, tried at every split.
unfoldable pub fits : List Element → Bytes → Bool
fits [] [] = true
fits [] (c ∷ text) = false
fits (star ∷ p) [] = fits p []
fits (star ∷ p) (c ∷ text) = fits p (c ∷ text) || fits (star ∷ p) text
fits (e ∷ p) [] = false
fits (e ∷ p) (c ∷ text) = takes e c && fits p text

fits-all : (p : List Element) → fits p [] ≡ all is_star p
unfolding fits
fits-all [] = refl
fits-all (star ∷ p) = fits-all p
fits-all (any_byte ∷ p) = refl
fits-all (byte b ∷ p) = refl
fits-all (class k ∷ p) = refl

-- A star can be left out.
star_left : (p : List Element) (text : Bytes) → fits p text ≡ true → fits (star ∷ p) text ≡ true
unfolding fits
star_left p [] h = h
star_left p (c ∷ text) h = rw h

star_once : (p : List Element) (text : Bytes) → fits (star ∷ star ∷ p) text ≡ fits (star ∷ p) text
unfolding fits
star_once p [] = refl
star_once p (c ∷ text) = rw (star_once p text) (ground arith)

-- An element that is no star.
abbrev IsFixed : Element → Type 0
IsFixed e = is_star e ≡ false

fixed_step :
    (e : Element) (p : List Element) (c : ℕ) (text : Bytes)
    → IsFixed e
    → fits (e ∷ p) (c ∷ text) ≡ (takes e c && fits p text)
unfolding fits
fixed_step star p c text h = absurd (ground arith)
fixed_step any_byte p c text h = refl
fixed_step (byte b) p c text h = refl
fixed_step (class k) p c text h = refl

fixed_end : (e : Element) (p : List Element) → IsFixed e → fits (e ∷ p) [] ≡ false
unfolding fits
fixed_end star p h = absurd (ground arith)
fixed_end any_byte p h = refl
fixed_end (byte b) p h = refl
fixed_end (class k) p h = refl

-- After a star an element has to take some byte, and what follows it fits after that.
star_then :
    (e : Element) (p : List Element) (c : ℕ) (text : Bytes)
    → IsFixed e
    → fits (star ∷ e ∷ p) (c ∷ text) ≡ true
    → fits (star ∷ p) text ≡ true
unfolding fits
star_then e p c [] fixed h = elim (Bool-cases (fits (e ∷ p) (c ∷ []))) [
  | inl now ↦ star_left p [] (ground (arith, fixed_step e p c [] fixed))
  | inr later ↦ absurd (ground (arith, fixed_end e p fixed))
]
star_then e p c (d ∷ text) fixed h = elim (Bool-cases (fits (e ∷ p) (c ∷ d ∷ text))) [
  | inl now ↦ star_left p (d ∷ text) (ground (arith, fixed_step e p c (d ∷ text) fixed))
  | inr later ↦ ground (arith, star_then e p d text fixed)
]

-- What the loop knows of the question `goal` that it was asked.
Saved : Bool → List Element → Bytes → Star → Type 0
Saved goal p text none = goal ≡ fits p text
Saved goal p text (some (q, rest)) =
    (goal ≡ fits (star ∷ q) rest)
    × (fits q rest ≡ true → fits p text ≡ true)
    × (length text ≤ length rest)

record Asked (goal : Bool) (p : List Element) (text : Bytes) (last : Star) : Type 0 where
  now : fits p text ≡ true → goal ≡ true
  later : goal ≡ true → fits (star ∷ p) text ≡ true
  saved : Saved goal p text last

-- The answer is right, if there is one.
abbrev pub Right : Bool → Answer → Type 0
Right goal r = (r.0 ≡ none) ⊎ (r.0 ≡ some goal)

-- From one star on: the question has become whether the star fits here.
restart :
    (goal : Bool) (p : List Element) (text : Bytes)
    → goal ≡ fits (star ∷ p) text
    → Asked goal p text (some (p, text))
unfolding Saved
restart goal p text e = record {
  now = λ h. e ∙ star_left p text h;
  later = λ h. sym e ∙ h;
  saved = (e, λ h. h, omega arith);
}

same_truth : (a b : Bool) → (b ≡ true → a ≡ true) → (a ≡ true → b ≡ true) → a ≡ b
same_truth true b h k = sym (k refl)
same_truth false true h k = h refl
same_truth false false h k = refl

-- At a star that the loop reaches, the last star no longer matters.
reached :
    (goal : Bool) (p : List Element) (text : Bytes) (last : Star)
    → Asked goal (star ∷ p) text last
    → goal ≡ fits (star ∷ p) text
reached goal p text last asked =
    same_truth goal (fits (star ∷ p) text) asked.now (λ h. sym (star_once p text) ∙ asked.later h)

-- A byte that an element takes.
Asked-taken :
    (goal : Bool) (e : Element) (p : List Element) (c : ℕ) (text : Bytes) (last : Star)
    → IsFixed e
    → takes e c ≡ true
    → Asked goal (e ∷ p) (c ∷ text) last
    → Asked goal p text last
unfolding Saved
Asked-taken goal e p c text last fixed took asked = record {
  now = λ h. asked.now (step ∙ h);
  later = λ h. star_then e p c text fixed (asked.later h);
  saved = keep last asked.saved;
}
  where
    step : fits (e ∷ p) (c ∷ text) ≡ fits p text
    step = fixed_step e p c text fixed ∙ rw took

    keep : (last : Star) → Saved goal (e ∷ p) (c ∷ text) last → Saved goal p text last
    keep none s = s ∙ step
    keep (some (q, rest)) (e', down, shorter) = (e', λ h. sym step ∙ down h, omega arith)

give_back-Right :
    (goal : Bool) (p : List Element) (c : ℕ) (text : Bytes) (last : Star) (left : ℕ)
    (next : List Element → Bytes → Star → Answer)
    → Asked goal p (c ∷ text) last
    → fits p (c ∷ text) ≡ false
    → ((q : List Element) (rest : Bytes) (l : Star)
        → Asked goal q rest l
        → Right goal (next q rest l))
    → Right goal (give_back last left next)
unfolding Saved give_back fits
give_back-Right goal p c text none left next asked miss ih =
    inr (ap some (sym (asked.saved ∙ miss)))
give_back-Right goal p c text (some (q, [])) left next asked miss ih =
    let shorter = asked.saved.2 in absurd (omega arith)
give_back-Right goal p c text (some (q, x ∷ rest)) left next asked miss ih =
    ih q rest (some (q, rest)) (restart goal q rest (asked.saved.0 ∙ ground (arith, asked.saved.1)))

fixed_round-Right :
    (goal : Bool) (e : Element) (p : List Element) (c : ℕ) (text : Bytes) (last : Star) (left : ℕ)
    (next : List Element → Bytes → Star → Answer)
    → IsFixed e
    → Asked goal (e ∷ p) (c ∷ text) last
    → ((q : List Element) (rest : Bytes) (l : Star)
        → Asked goal q rest l
        → Right goal (next q rest l))
    → Right goal (if takes e c then next p text last else give_back last left next)
fixed_round-Right goal e p c text last left next fixed asked ih = elim (Bool-cases (takes e c)) [
  | inl took ↦ rw took (ih p text last (Asked-taken goal e p c text last fixed took asked))
  | inr missed ↦ rw missed (
      give_back-Right goal (e ∷ p) c text last left next asked
        (fixed_step e p c text fixed ∙ rw missed) ih)
]

match_from-Right :
    (goal : Bool) (budget : ℕ) (p : List Element) (text : Bytes) (last : Star)
    → Asked goal p text last
    → Right goal (match_from budget p text last)
unfolding match_from fits
match_from-Right goal budget p [] last asked = inr (
    ap some (
      sym (
        same_truth goal (all is_star p) (λ h. asked.now (fits-all p ∙ h))
          (λ h. sym (fits-all p) ∙ asked.later h))))
match_from-Right goal zero p (c ∷ text) last asked = inl refl
match_from-Right goal (suc budget) [] (c ∷ text) last asked =
    give_back-Right goal [] c text last budget (match_from budget) asked refl
      (match_from-Right goal budget)
match_from-Right goal (suc budget) (star ∷ p) (c ∷ text) last asked =
    match_from-Right goal budget p (c ∷ text) (some (p, c ∷ text))
      (restart goal p (c ∷ text) (reached goal p (c ∷ text) last asked))
match_from-Right goal (suc budget) (any_byte ∷ p) (c ∷ text) last asked =
    fixed_round-Right goal any_byte p c text last budget (match_from budget) refl asked
      (match_from-Right goal budget)
match_from-Right goal (suc budget) (byte b ∷ p) (c ∷ text) last asked =
    fixed_round-Right goal (byte b) p c text last budget (match_from budget) refl asked
      (match_from-Right goal budget)
match_from-Right goal (suc budget) (class k ∷ p) (c ∷ text) last asked =
    fixed_round-Right goal (class k) p c text last budget (match_from budget) refl asked
      (match_from-Right goal budget)

-- Whatever its budget, `matches_within` answers as trying every split does, if it answers.
pub matches_within-Right :
    (p : List Element) (text : Bytes) (budget : ℕ)
    → Right (fits p text) (matches_within (record { elements = p; impossible = false }) text budget)
unfolding matches_within Saved
matches_within-Right p text budget =
    match_from-Right (fits p text) budget p text none
      (record { now = λ h. h; later = star_left p text; saved = refl })
