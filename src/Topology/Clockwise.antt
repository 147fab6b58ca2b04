-- ===== src/Topology/Clockwise.antt =====
-- The order in which crates/hashring-core/src/topology.rs walks the ring: from the index that
-- `partition_point` finds, wrapping at the end.
use native.Mathlib.Nat.{mod-eq_of_lt, mod-eq-sub-mod, mod_self}
use mathlib.Core.List.{append-nil}
use hashring_rs.Prelude.{
  ℕ, zero, suc, ◌+◌, ◌-◌, ◌%◌, ◌≤◌, ◌<◌, ◌≡◌, refl, sym, ap, ◌∙◌, inl, inr, List, [], ◌∷◌, ◌++◌,
  Bool, true, false, arith, ltb, leb, length, get_elem?, take, drop, filter, if◌then◌else◌,
  Bool-cases, filter-All, filter-All_not, All-map_of,
}
use hashring_rs.Prelude.Sort.{IsSorted}
use hashring_rs.Topology.Types.{TokenAssignment}
use hashring_rs.Topology.Lookup.{first_index}

abbrev pub token_leb : TokenAssignment → TokenAssignment → Bool
token_leb a b = leb a.token b.token

-- The assignments at or past a token, then those before it.
unfoldable pub clockwise : ℕ → List TokenAssignment → List TokenAssignment
clockwise t xs = filter (λ a. leb t a.token) xs ++ filter (λ a. ltb a.token t) xs

module _ {ℓ} {A : Type ℓ} where
  -- The list from index `i` on, and round to it.
  abbrev pub rotate : ℕ → List A → List A
  rotate i xs = drop i xs ++ take i xs

  get_elem?-append :
      (xs ys : List A) (i : ℕ)
      → get_elem? (xs ++ ys) i
        ≡ (if ltb i (length xs) then get_elem? xs i else get_elem? ys (i - length xs))
  get_elem?-append [] ys i = let e : i - 0 ≡ i = omega arith in rw e (ground arith)
  get_elem?-append (x ∷ xs) ys zero = ground arith
  get_elem?-append (x ∷ xs) ys (suc i) = ground (arith, get_elem?-append xs ys i)

  get_elem?-drop : (n i : ℕ) (xs : List A) → get_elem? (drop n xs) i ≡ get_elem? xs (n + i)
  get_elem?-drop zero i xs = let e : 0 + i ≡ i = omega arith in rw e
  get_elem?-drop (suc n) i [] = refl
  get_elem?-drop (suc n) i (x ∷ xs) =
      let e : suc n + i ≡ suc (n + i) = omega arith in rw e (get_elem?-drop n i xs)

  get_elem?-take : (n i : ℕ) (xs : List A) → i < n → get_elem? (take n xs) i ≡ get_elem? xs i
  get_elem?-take zero i xs h = elim h [ ]
  get_elem?-take (suc n) i [] h = refl
  get_elem?-take (suc n) zero (x ∷ xs) h = refl
  get_elem?-take (suc n) (suc i) (x ∷ xs) h = get_elem?-take n i xs (omega arith)

  length-drop : (n : ℕ) (xs : List A) → length (drop n xs) ≡ length xs - n
  length-drop zero xs = omega arith
  length-drop (suc n) [] = omega arith
  length-drop (suc n) (x ∷ xs) = omega (arith, length-drop n xs)

  pub get_elem?-rotate :
      (i o : ℕ) (xs : List A)
      → i < length xs
      → o < length xs
      → get_elem? (rotate i xs) o ≡ get_elem? xs ((i + o) % length xs)
  get_elem?-rotate i o xs hi ho = elim (Bool-cases (ltb o (length (drop i xs)))) [
    | inl e ↦
        let near : i + o < length xs = ground (arith, length-drop i xs) in
        rw (get_elem?-append, e, mod-eq_of_lt near) (get_elem?-drop i o xs)
    | inr e ↦
        let far : length xs ≤ i + o = ground (arith, length-drop i xs) in
        let back : o - length (drop i xs) ≡ i + o - length xs = omega (arith, length-drop i xs) in
        let less : i + o - length xs < length xs = omega arith in
        rw (get_elem?-append, e, back, mod-eq-sub-mod far, mod-eq_of_lt less)
          (get_elem?-take i (i + o - length xs) xs (omega arith))
  ]

-- What is at or past a token is what `partition_point` leaves.
drop-first_index :
    (t : ℕ) (xs : List TokenAssignment)
    → IsSorted token_leb xs
    → drop (first_index xs t) xs ≡ filter (λ a. leb t a.token) xs
drop-first_index t [] h = refl
drop-first_index t (x ∷ xs) h = elim (Bool-cases (ltb x.token t)) [
  | inl e ↦
      let skip : leb t x.token ≡ false = ground arith in rw (e, skip) (drop-first_index t xs h.1)
  | inr e ↦
      let here : leb t x.token ≡ true = ground arith in
      rw (e, here)
        (ap (◌∷◌ x) (
          sym (
            filter-All (λ (a : TokenAssignment). leb t a.token) xs
              (All-map_of (λ y k. ground arith) xs h.0))))
]

take-first_index :
    (t : ℕ) (xs : List TokenAssignment)
    → IsSorted token_leb xs
    → take (first_index xs t) xs ≡ filter (λ a. ltb a.token t) xs
take-first_index t [] h = refl
take-first_index t (x ∷ xs) h = elim (Bool-cases (ltb x.token t)) [
  | inl e ↦ rw e (ap (◌∷◌ x) (take-first_index t xs h.1))
  | inr e ↦ rw e (
      sym (
        filter-All_not (λ (a : TokenAssignment). ltb a.token t) xs
          (All-map_of (λ y k. ground arith) xs h.0)))
]

first_index-le : (t : ℕ) (xs : List TokenAssignment) → first_index xs t ≤ length xs
first_index-le t [] = omega arith
first_index-le t (x ∷ xs) = ground (arith, first_index-le t xs)

drop-length {ℓ} : {A : Type ℓ} (xs : List A) → drop (length xs) xs ≡ []
drop-length [] = refl
drop-length (x ∷ xs) = drop-length xs

take-length {ℓ} : {A : Type ℓ} (xs : List A) → take (length xs) xs ≡ xs
take-length [] = refl
take-length (x ∷ xs) = ap (◌∷◌ x) (take-length xs)

-- Where the walk starts, reduced as `% self.assignments.len()` does.
abbrev pub start : ℕ → List TokenAssignment → ℕ
start t xs = first_index xs t % length xs

pub rotate-clockwise :
    (t : ℕ) (xs : List TokenAssignment)
    → IsSorted token_leb xs
    → 0 < length xs
    → (start t xs < length xs) × (rotate (start t xs) xs ≡ clockwise t xs)
unfolding clockwise
rotate-clockwise t xs h pos = elim (Bool-cases (ltb (first_index xs t) (length xs))) [
  | inl e ↦
      let less : first_index xs t < length xs = ground arith in
      rw (mod-eq_of_lt less) (less, rw (drop-first_index t xs h, take-first_index t xs h))
  | inr e ↦
      let end : first_index xs t ≡ length xs = ground (arith, first_index-le t xs) in
      let none_past : filter (λ (a : TokenAssignment). leb t a.token) xs ≡ [] =
        sym (drop-first_index t xs h) ∙ ap (λ i. drop i xs) end ∙ drop-length xs in
      let all_before : filter (λ (a : TokenAssignment). ltb a.token t) xs ≡ xs =
        sym (take-first_index t xs h) ∙ ap (λ i. take i xs) end ∙ take-length xs in
      rw (end, mod_self, none_past, all_before) (pos, append-nil xs)
]
