-- ===== src/Topology/Boundaries.antt =====
-- The boundaries of `derived_ranges` in crates/hashring-core/src/topology.rs: the tokens of the
-- ring, each once, with no assignment between two that follow one another.
use hashring_rs.Prelude.{
  ℕ, ◌≤◌, ◌<◌, ◌≡◌, refl, ◌⊎◌, inl, inr, List, [], ◌∷◌, map, true, false, arith, ◌==◌, All,
  All-map_of, last?, subst, ap, some, Bool-cases,
}
use hashring_rs.Prelude.Sort.{IsSorted}
use hashring_rs.Topology.Types.{TokenAssignment}
use hashring_rs.Topology.Lookup.{dedup}
use hashring_rs.Topology.Clockwise.{token_leb}

abbrev pub token_of : TokenAssignment → ℕ
token_of a = a.token

abbrev pub Gap : ℕ → ℕ → List TokenAssignment → Type 0
Gap p e xs = All (λ x. (x.token ≤ p) ⊎ (e ≤ x.token)) xs

-- Boundaries that rise from `p`, with no assignment inside a step.
abbrev pub Gaps : ℕ → List ℕ → List TokenAssignment → Type 0
Gaps p [] xs = Unit
Gaps p (e ∷ es) xs = (p < e) × Gap p e xs × Gaps e es xs

abbrev pub last_of : ℕ → List ℕ → ℕ
last_of p [] = p
last_of p (e ∷ es) = last_of e es

pub last?-last_of : (p : ℕ) (es : List ℕ) → last? (p ∷ es) ≡ some (last_of p es)
last?-last_of p [] = refl
last?-last_of p (e ∷ es) = last?-last_of e es

Gaps-cons :
    (p : ℕ) (es : List ℕ) (x : TokenAssignment) (xs : List TokenAssignment)
    → x.token ≤ p
    → Gaps p es xs
    → Gaps p es (x ∷ xs)
Gaps-cons p [] x xs h g = tt
Gaps-cons p (e ∷ es) x xs h g = (g.0, (inl h, g.1), Gaps-cons e es x xs (omega arith) g.2)

pub le-last_of : (p : ℕ) (es : List ℕ) (xs : List TokenAssignment) → Gaps p es xs → p ≤ last_of p es
le-last_of p [] xs g = omega arith
le-last_of p (e ∷ es) xs g = omega (arith, le-last_of e es xs g.2)

-- What `dedup` makes of the tokens of a ring in order.
abbrev pub IsBoundaries : ℕ → List ℕ → List TokenAssignment → Type 0
IsBoundaries b bs xs =
    Gaps b bs xs × All (λ x. b ≤ x.token) xs × All (λ x. x.token ≤ last_of b bs) xs

pub dedup-IsBoundaries :
    (x : TokenAssignment) (xs : List TokenAssignment)
    → IsSorted token_leb (x ∷ xs)
    → (bs : List ℕ) × (dedup (map token_of (x ∷ xs)) ≡ x.token ∷ bs)
      × IsBoundaries x.token bs (x ∷ xs)
unfolding dedup
dedup-IsBoundaries x [] h = ([], refl, (tt, (omega arith, tt), (omega arith, tt)))
dedup-IsBoundaries x (y ∷ ys) h = go (Bool-cases (x.token == y.token)) (dedup-IsBoundaries y ys h.1)
  where
    le : x.token ≤ y.token
    le = ground arith

    go :
        ((x.token == y.token) ≡ true) ⊎ ((x.token == y.token) ≡ false)
        → ((bs : List ℕ) × (dedup (map token_of (y ∷ ys)) ≡ y.token ∷ bs)
            × IsBoundaries y.token bs (y ∷ ys))
        → (bs : List ℕ) × (dedup (map token_of (x ∷ y ∷ ys)) ≡ x.token ∷ bs)
          × IsBoundaries x.token bs (x ∷ y ∷ ys)
    go (inl e) (bs, d, (g, low, high)) =
        let eq : y.token ≡ x.token = ground arith in
        (
          bs,
          rw (e, d) (ap (λ b. b ∷ bs) eq),
          subst (λ b. IsBoundaries b bs (x ∷ y ∷ ys)) eq
              (
                Gaps-cons y.token bs x (y ∷ ys) le g,
                (omega arith, low),
                (omega (arith, le-last_of y.token bs (y ∷ ys) g), high),
              ),
        )
    go (inr e) (bs, d, (g, low, high)) = (
      y.token ∷ bs,
      rw (e, d),
      (
        (
          ground arith,
          (inl (omega arith), All-map_of (λ z k. inr k) (y ∷ ys) low),
          Gaps-cons y.token bs x (y ∷ ys) le g,
        ),
        (omega arith, All-map_of (λ z k. omega (arith, le)) (y ∷ ys) low),
        (omega (arith, le, le-last_of y.token bs (y ∷ ys) g), high),
      ),
    )
