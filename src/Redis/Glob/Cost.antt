-- ===== src/Redis/Glob/Cost.antt =====
-- What `Pattern::matches_within` of crates/hashring-redis/src/commands/glob.rs spends: at most one step
-- for each byte of the text and each element, or the end, of the pattern.
use Prim.Native.Nat.{ℕ, zero, suc}
use hashring_rs.Prelude.{
  ◌+◌, ◌-◌, ◌*◌, ◌^◌, ◌≤◌, ◌<◌, ◌≡◌, refl, ap, inl, inr, Bytes, List, [], ◌∷◌, Bool, false, arith,
  length, all, Bool-cases, if◌then◌else◌, none, some, ok, or_panic,
}
use hashring_rs.Redis.Glob.Compile.{Element, star, any_byte, byte, class}
use hashring_rs.Redis.Glob.Match.{
  takes, is_star, Star, Answer, give_back, match_from, matches_within, matches,
}
use hashring_rs.Redis.Glob.Matched.{fits, Right, matches_within-Right}

-- An empty text costs nothing.
abbrev cost : ℕ → Bytes → ℕ
cost n [] = 0
cost n (c ∷ text) = n

-- An answer, for no more than `need`.
abbrev Paid : ℕ → ℕ → Answer → Type 0
Paid need budget r = (b : Bool) × (r.0 ≡ some b) × (budget ≤ r.1 + need)

Paid-more : (n m b c : ℕ) (r : Answer) → n + c ≤ m + b → Paid n b r → Paid m c r
Paid-more n m b c r le (x, e, h) = (x, e, omega arith)

-- The last star has fewer elements than `k` after it, and no more bytes than `m` after its first.
abbrev Bounded : ℕ → ℕ → Star → Type 0
Bounded k m none = Unit
Bounded k m (some (q, rest)) = (length q < k) × (length rest ≤ suc m)

abbrev Payer : ℕ → (List Element → Bytes → Star → Answer) → Type 0
Payer budget next =
    (k m : ℕ) (q : List Element) (rest : Bytes) (l : Star)
    → length q < k
    → Bounded k m l
    → length rest ≤ suc m
    → cost (length q + 1 + m * k) rest ≤ budget
    → Paid (cost (length q + 1 + m * k) rest) budget (next q rest l)

give_back-Paid :
    (k m budget : ℕ) (last : Star) (next : List Element → Bytes → Star → Answer)
    → Payer budget next
    → Bounded k m last
    → m * k ≤ budget
    → Paid (m * k) budget (give_back last budget next)
unfolding give_back
give_back-Paid k m budget none next pay bound room = (false, refl, omega arith)
give_back-Paid k m budget (some (q, [])) next pay (small, short) room =
    Paid-more 0 (m * k) budget budget _ (omega arith)
      (pay k m q [] (some (q, [])) small (small, omega arith) (omega arith) (omega arith))
give_back-Paid k m budget (some (q, x ∷ [])) next pay (small, short) room =
    Paid-more 0 (m * k) budget budget _ (omega arith)
      (pay k m q [] (some (q, [])) small (small, omega arith) (omega arith) (omega arith))
give_back-Paid k zero budget (some (q, x ∷ y ∷ rest)) next pay (small, short) room =
    absurd (omega arith)
give_back-Paid k (suc m) budget (some (q, x ∷ y ∷ rest)) next pay (small, short) room =
    Paid-more (length q + 1 + m * k) (suc m * k) budget budget _ (omega arith) (
      pay k m q (y ∷ rest) (some (q, y ∷ rest)) small (small, omega arith) (omega arith)
        (omega arith))

fixed_round-Paid :
    (k m budget : ℕ) (e : Element) (p : List Element) (c : ℕ) (text : Bytes) (last : Star)
    (next : List Element → Bytes → Star → Answer)
    → Payer budget next
    → length (e ∷ p) < k
    → Bounded k m last
    → length (c ∷ text) ≤ suc m
    → length (e ∷ p) + 1 + m * k ≤ suc budget
    → Paid
        (length (e ∷ p) + 1 + m * k)
        (suc budget)
        (if takes e c then next p text last else give_back last budget next)
fixed_round-Paid k m budget e p c text last next pay small bound short room =
    elim (Bool-cases (takes e c)) [
      | inl took ↦ rw took (onward text (omega arith) (pay k m p text last))
      | inr missed ↦ rw missed (
          Paid-more (m * k) (length (e ∷ p) + 1 + m * k) budget (suc budget) _ (omega arith)
            (give_back-Paid k m budget last next pay bound (omega arith)))
    ]
  where
    onward :
        (text : Bytes)
        → length text ≤ suc m
        → (length p < k
            → Bounded k m last
            → length text ≤ suc m
            → cost (length p + 1 + m * k) text ≤ budget
            → Paid (cost (length p + 1 + m * k) text) budget (next p text last))
        → Paid (length (e ∷ p) + 1 + m * k) (suc budget) (next p text last)
    onward [] le pay =
        Paid-more 0 (length (e ∷ p) + 1 + m * k) budget (suc budget) _ (omega arith)
          (pay (omega arith) bound le (omega arith))
    onward (d ∷ text) le pay =
        Paid-more (length p + 1 + m * k) (length (e ∷ p) + 1 + m * k) budget (suc budget) _
          (omega arith) (pay (omega arith) bound le (omega arith))

match_from-Paid : (budget : ℕ) → Payer budget (match_from budget)
unfolding match_from
match_from-Paid budget k m p [] last small bound short room = (all is_star p, refl, omega arith)
match_from-Paid zero k m p (c ∷ text) last small bound short room = absurd (omega arith)
match_from-Paid (suc budget) k m [] (c ∷ text) last small bound short room =
    Paid-more (m * k) (0 + 1 + m * k) budget (suc budget) _ (omega arith) (
      give_back-Paid k m budget last (match_from budget) (match_from-Paid budget) bound
        (omega arith))
match_from-Paid (suc budget) k m (star ∷ p) (c ∷ text) last small bound short room =
    Paid-more (length p + 1 + m * k) (length (star ∷ p) + 1 + m * k) budget (suc budget) _
      (omega arith)
      (match_from-Paid budget k m p (c ∷ text) (some (p, c ∷ text)) (omega arith)
        (omega arith, short) short (omega arith))
match_from-Paid (suc budget) k m (any_byte ∷ p) (c ∷ text) last small bound short room =
    fixed_round-Paid k m budget any_byte p c text last (match_from budget) (match_from-Paid budget)
      small bound short room
match_from-Paid (suc budget) k m (byte b ∷ p) (c ∷ text) last small bound short room =
    fixed_round-Paid k m budget (byte b) p c text last (match_from budget) (match_from-Paid budget)
      small bound short room
match_from-Paid (suc budget) k m (class s ∷ p) (c ∷ text) last small bound short room =
    fixed_round-Paid k m budget (class s) p c text last (match_from budget) (match_from-Paid budget)
      small bound short room

cost_of_answer :
    (goal : Bool) (need budget : ℕ) (r : Answer)
    → Right goal r
    → Paid need budget r
    → (left : ℕ) × (r ≡ (some goal, left)) × (budget ≤ left + need)
cost_of_answer goal need budget r (inl e) (b, k, h) = absurd (ground arith)
cost_of_answer goal need budget r (inr e) (b, k, h) = (r.1, ap (λ o. (o, r.1)) e, h)

match_from-cost :
    (p : List Element) (text : Bytes) (budget : ℕ)
    → length text * (length p + 1) ≤ budget
    → Paid (length text * (length p + 1)) budget (match_from budget p text none)
match_from-cost p [] budget room =
    Paid-more 0 (length {A = ℕ} [] * (length p + 1)) budget budget _ (omega arith) (
      match_from-Paid budget (length p + 1) 0 p [] none (omega arith) tt (omega arith)
        (omega arith))
match_from-cost p (c ∷ text) budget room =
    Paid-more (length p + 1 + length text * (length p + 1)) (length (c ∷ text) * (length p + 1))
      budget budget _ (omega arith)
      (match_from-Paid budget (length p + 1) (length text) p (c ∷ text) none (omega arith) tt
        (omega arith) (omega arith))

-- With a budget of one more than the number of elements for each byte, `matches_within` answers as
-- trying every split does, and leaves what is over that.
pub matches_within-fits :
    (p : List Element) (text : Bytes) (budget : ℕ)
    → length text * (length p + 1) ≤ budget
    → (left : ℕ) × (matches_within (record { elements = p; impossible = false }) text budget
        ≡ (some (fits p text), left))
      × (budget ≤ left + length text * (length p + 1))
unfolding matches_within
matches_within-fits p text budget room =
    cost_of_answer (fits p text) (length text * (length p + 1)) budget
      (match_from budget p text none) (matches_within-Right p text budget)
      (match_from-cost p text budget room)

-- `matches` never panics on a text and a pattern whose lengths, the pattern's with its end, have a
-- 64-bit product, and answers as trying every split does.
pub matches-fits :
    (p : List Element) (text : Bytes)
    → length text * (length p + 1) < 2 ^ 64
    → matches (record { elements = p; impossible = false }) text ≡ ok (fits p text)
unfolding matches
matches-fits p text room =
    let (left, e, _) = matches_within-fits p text (2 ^ 64 - 1) (omega arith) in
    ap (λ r. or_panic r.0) e
