-- ===== src/Migration/Steps.antt =====
-- The steps of `topology_delta` in crates/hashring-core/src/migration.rs from boundary to boundary:
-- they part the ring, and the walk of either topology is the same from all tokens of a step.
use hashring_rs.Interval.{interval_contains}
use hashring_rs.Prelude.{
  ℕ, ◌≤◌, ◌<◌, ◌≡◌, refl, sym, ap, ◌∙◌, ◌⊎◌, inl, inr, List, [], ◌∷◌, ◌++◌, map, true, false, arith,
  ltb, leb, ◌||◌, All, All-map_of, last?, some, Bool-cases, if◌then◌else◌, subst, length,
}
use hashring_rs.Prelude.Sort.{insert, sort, IsSorted, sort-IsSorted}
use hashring_rs.Topology.Types.{TokenAssignment, TopologySnapshot}
use hashring_rs.Topology.Lookup.{dedup}
use hashring_rs.Topology.Clockwise.{token_leb, clockwise}
use hashring_rs.Topology.Boundaries.{
  token_of, Gaps, last_of, last?-last_of, le-last_of, IsBoundaries, dedup-IsBoundaries,
}
use hashring_rs.Topology.Ranges.{clockwise-Gap, clockwise_first}
use hashring_rs.Migration.Delta.{boundaries}

-- What holds of the assignments of `ys` holds of those of `xs`.
abbrev pub Within : List TokenAssignment → List TokenAssignment → Type 1
Within xs ys = (P : TokenAssignment → Type 0) → All P ys → All P xs

uninsert :
    (P : TokenAssignment → Type 0) (x : TokenAssignment) (ys : List TokenAssignment)
    → All P (insert token_leb x ys)
    → P x × All P ys
unfolding insert
uninsert P x [] h = h
uninsert P x (y ∷ ys) h =
    (elim (token_leb x y)
        as (λ b.
          All P (if b then x ∷ y ∷ ys else y ∷ insert token_leb x ys) → P x × All P (y ∷ ys)) [
            | true ↦ λ k. k
            | false ↦ λ k. let r = uninsert P x ys k.1 in (r.0, (k.0, r.1))
          ])
      h

unsort : (xs : List TokenAssignment) → Within xs (sort token_leb xs)
unfolding sort
unsort [] P h = tt
unsort (x ∷ xs) P h = let k = uninsert P x (sort token_leb xs) h in (k.0, unsort xs P k.1)

left_part : (xs ys : List TokenAssignment) → Within xs (xs ++ ys)
left_part [] ys P h = tt
left_part (x ∷ xs) ys P h = (h.0, left_part xs ys P h.1)

right_part : (xs ys : List TokenAssignment) → Within ys (xs ++ ys)
right_part [] ys P h = h
right_part (x ∷ xs) ys P h = right_part xs ys P h.1

-- All walks of a step are one.
abbrev pub SameWalk : ℕ → ℕ → List TokenAssignment → Type 0
SameWalk p e xs = (t : ℕ) → interval_contains p e t ≡ true → clockwise t xs ≡ clockwise e xs

abbrev pub Steps : ℕ → List ℕ → List TokenAssignment → Type 0
Steps p [] xs = Unit
Steps p (e ∷ es) xs = SameWalk p e xs × Steps e es xs

-- A token in one of the steps.
abbrev pub InSteps : ℕ → List ℕ → ℕ → Type 0
InSteps p [] t = ⊥
InSteps p (e ∷ es) t = (interval_contains p e t ≡ true) ⊎ InSteps e es t

Gaps-Steps :
    (p : ℕ) (es : List ℕ) (xs ys : List TokenAssignment)
    → Within xs ys
    → Gaps p es ys
    → Steps p es xs
Gaps-Steps p [] xs ys w g = tt
Gaps-Steps p (e ∷ es) xs ys w (lt, gap, rest) = (
  λ t k. clockwise-Gap p t e xs (ground arith) (ground arith) (w _ gap),
  Gaps-Steps e es xs ys w rest,
)

Gaps-InSteps :
    (p : ℕ) (es : List ℕ) (ys : List TokenAssignment) (t : ℕ)
    → Gaps p es ys
    → p < t
    → t ≤ last_of p es
    → InSteps p es t
Gaps-InSteps p [] ys t g lo hi = absurd (omega arith)
Gaps-InSteps p (e ∷ es) ys t (lt, _, rest) lo hi = elim (Bool-cases (leb t e)) [
  | inl here ↦ inl (ground arith)
  | inr later ↦ inr (Gaps-InSteps e es ys t rest (ground arith) hi)
]

SameWalk-first :
    (b : ℕ) (bs : List ℕ) (xs ys : List TokenAssignment)
    → Within xs ys
    → IsBoundaries b bs ys
    → SameWalk (last_of b bs) b xs
SameWalk-first b bs xs ys w (g, low, high) t k =
    let side : (t ≤ b) ⊎ (last_of b bs < t) = ground (arith, le-last_of b bs ys g) in
    let before : (t ≤ b) ⊎ All (λ x. x.token < t) xs = elim side [
      | inl h ↦ inl h
      | inr h ↦ inr (All-map_of (λ x u. omega arith) xs (w _ high))
    ] in
    clockwise_first b t xs before (w _ low)
    ∙ sym (clockwise_first b b xs (inl (omega arith)) (w _ low))

InSteps-all :
    (b : ℕ) (bs : List ℕ) (ys : List TokenAssignment) (t : ℕ)
    → IsBoundaries b bs ys
    → InSteps (last_of b bs) (b ∷ bs) t
InSteps-all b bs ys t (g, low, high) = elim (Bool-cases (leb t b || ltb (last_of b bs) t)) [
  | inl outer ↦ inl (ground (arith, le-last_of b bs ys g))
  | inr inner ↦ inr (Gaps-InSteps b bs ys t g (ground arith) (ground arith))
]

leb_total : (a b : TokenAssignment) → (token_leb a b ≡ true) ⊎ (token_leb b a ≡ true)
leb_total a b = ground arith

leb_trans :
    (a b c : TokenAssignment) → token_leb a b ≡ true → token_leb b c ≡ true → token_leb a c ≡ true
leb_trans a b c h k = ground arith

-- The boundaries of two topologies, of which one has an assignment.
pub boundaries-Steps :
    (s s' : TopologySnapshot)
    → 0 < length s.assignments
    → (b : ℕ) × (bs : List ℕ) × (boundaries s s' ≡ b ∷ bs)
      × (last? (boundaries s s') ≡ some (last_of b bs))
      × Steps (last_of b bs) (b ∷ bs) s.assignments
      × Steps (last_of b bs) (b ∷ bs) s'.assignments
      × ((t : ℕ) → InSteps (last_of b bs) (b ∷ bs) t)
unfolding boundaries
boundaries-Steps s s' pos = go (sort token_leb (s.assignments ++ s'.assignments)) refl
  where
    none_left : (xs : List TokenAssignment) → All (λ x. ⊥) xs → 0 < length xs → ⊥
    none_left [] h k = omega arith
    none_left (x ∷ xs) h k = h.0

    from_first :
        (ys : List TokenAssignment) (b : ℕ) (bs : List ℕ)
        → Within s.assignments ys
        → Within s'.assignments ys
        → boundaries s s' ≡ b ∷ bs
        → IsBoundaries b bs ys
        → (b : ℕ) × (bs : List ℕ) × (boundaries s s' ≡ b ∷ bs)
          × (last? (boundaries s s') ≡ some (last_of b bs))
          × Steps (last_of b bs) (b ∷ bs) s.assignments
          × Steps (last_of b bs) (b ∷ bs) s'.assignments
          × ((t : ℕ) → InSteps (last_of b bs) (b ∷ bs) t)
    from_first ys b bs w w' d bounds = (
      b,
      bs,
      d,
      ap last? d ∙ last?-last_of b bs,
      (SameWalk-first b bs s.assignments ys w bounds, Gaps-Steps b bs s.assignments ys w bounds.0),
      (
        SameWalk-first b bs s'.assignments ys w' bounds,
        Gaps-Steps b bs s'.assignments ys w' bounds.0,
      ),
      λ t. InSteps-all b bs ys t bounds,
    )

    go :
        (ys : List TokenAssignment)
        → sort token_leb (s.assignments ++ s'.assignments) ≡ ys
        → (b : ℕ) × (bs : List ℕ) × (boundaries s s' ≡ b ∷ bs)
          × (last? (boundaries s s') ≡ some (last_of b bs))
          × Steps (last_of b bs) (b ∷ bs) s.assignments
          × Steps (last_of b bs) (b ∷ bs) s'.assignments
          × ((t : ℕ) → InSteps (last_of b bs) (b ∷ bs) t)
    go [] e = absurd (
        none_left s.assignments
          (left_part s.assignments s'.assignments (λ x. ⊥)
            (unsort (s.assignments ++ s'.assignments) (λ x. ⊥) (subst (All (λ x. ⊥)) (sym e) tt)))
          pos)
    go (y ∷ ys) e =
        let within : Within (s.assignments ++ s'.assignments) (y ∷ ys) =
          subst (Within (s.assignments ++ s'.assignments)) e
            (unsort (s.assignments ++ s'.assignments)) in
        let (bs, d, bounds) = dedup-IsBoundaries y ys (
          subst (IsSorted token_leb) e
            (sort-IsSorted token_leb leb_total leb_trans (s.assignments ++ s'.assignments))) in
        from_first (y ∷ ys) y.token bs
          (λ P k. left_part s.assignments s'.assignments P (within P k))
          (λ P k. right_part s.assignments s'.assignments P (within P k))
          (ap (λ l. dedup (map token_of l)) e ∙ d) bounds
