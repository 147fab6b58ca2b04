-- ===== src/Prelude/Sort.antt =====
-- `slice::sort_by`: the stable sort, as insertion sort, for a total preorder given as a test.
use Prim.Native.Nat.{suc}
use mathlib.Core.Bool.{Bool, true, false}
use mathlib.Core.List.{List, [], ◌∷◌, Memᴰ, Permᴰ}
use mathlib.Core.List.Permᴰ
use mathlib.Core.Logic.{◌⊎◌, inl, inr}
use mathlib.Core.Path.{◌≡◌, refl, ◌∙◌, ap}
use native.Mathlib.Omega.{arith}
use hashring_rs.Prelude.Tests.{if◌then◌else◌, Bool-cases}
use hashring_rs.Prelude.Lists.{length, All, filter, All-map_of, All-filter}

module _ {ℓ} {A : Type ℓ} (le : A → A → Bool) where
  unfoldable pub insert : A → List A → List A
  insert x [] = x ∷ []
  insert x (y ∷ ys) = if le x y then x ∷ y ∷ ys else y ∷ insert x ys

  unfoldable pub sort : List A → List A
  unfolding insert
  sort [] = []
  sort (x ∷ xs) = insert x (sort xs)

  -- Each element is below all that follow it.
  abbrev pub IsSorted : List A → Type ℓ
  IsSorted [] = Unit
  IsSorted (x ∷ xs) = All (λ y. le x y ≡ true) xs × IsSorted xs

  pub All-insert {κ} : (P : A → Type κ) (x : A) (xs : List A) → P x → All P xs → All P (insert x xs)
  unfolding insert
  All-insert P x [] p h = (p, tt)
  All-insert P x (y ∷ ys) p h =
      elim (le x y) as (λ b. All P (if b then x ∷ y ∷ ys else y ∷ insert x ys)) [
        | true ↦ (p, h)
        | false ↦ (h.0, All-insert P x ys p h.1)
      ]

  pub All-sort {κ} : (P : A → Type κ) (xs : List A) → All P xs → All P (sort xs)
  unfolding sort
  All-sort P [] h = tt
  All-sort P (x ∷ xs) h = All-insert P x (sort xs) h.0 (All-sort P xs h.1)

  insert-Perm : (x : A) (xs : List A) → Permᴰ (insert x xs) (x ∷ xs)
  unfolding insert
  insert-Perm x [] = Permᴰ.refl (x ∷ [])
  insert-Perm x (y ∷ ys) =
      elim (le x y) as (λ b. Permᴰ (if b then x ∷ y ∷ ys else y ∷ insert x ys) (x ∷ y ∷ ys)) [
        | true ↦ Permᴰ.refl (x ∷ y ∷ ys)
        | false ↦ Permᴰ.trans (Permᴰ.cons refl (insert-Perm x ys)) (Permᴰ.swap refl refl)
      ]

  -- The sorted list has the same elements, each as often.
  pub sort-Perm : (xs : List A) → Permᴰ (sort xs) xs
  unfolding sort
  sort-Perm [] = Permᴰ.nil
  sort-Perm (x ∷ xs) = Permᴰ.trans (insert-Perm x (sort xs)) (Permᴰ.cons refl (sort-Perm xs))

  insert-Mem : (a x : A) (xs : List A) → Memᴰ a (x ∷ xs) → Memᴰ a (insert x xs)
  unfolding insert
  insert-Mem a x [] m = m
  insert-Mem a x (y ∷ ys) (Memᴰ.head e) =
      elim (le x y) as (λ b. Memᴰ a (if b then x ∷ y ∷ ys else y ∷ insert x ys)) [
        | true ↦ Memᴰ.head e
        | false ↦ Memᴰ.tail (insert-Mem a x ys (Memᴰ.head e))
      ]
  insert-Mem a x (y ∷ ys) (Memᴰ.tail (Memᴰ.head e)) =
      elim (le x y) as (λ b. Memᴰ a (if b then x ∷ y ∷ ys else y ∷ insert x ys)) [
        | true ↦ Memᴰ.tail (Memᴰ.head e)
        | false ↦ Memᴰ.head e
      ]
  insert-Mem a x (y ∷ ys) (Memᴰ.tail (Memᴰ.tail m)) =
      elim (le x y) as (λ b. Memᴰ a (if b then x ∷ y ∷ ys else y ∷ insert x ys)) [
        | true ↦ Memᴰ.tail (Memᴰ.tail m)
        | false ↦ Memᴰ.tail (insert-Mem a x ys (Memᴰ.tail m))
      ]

  pub sort-Mem : (a : A) (xs : List A) → Memᴰ a xs → Memᴰ a (sort xs)
  unfolding sort
  sort-Mem a [] m = m
  sort-Mem a (x ∷ xs) (Memᴰ.head e) = insert-Mem a x (sort xs) (Memᴰ.head e)
  sort-Mem a (x ∷ xs) (Memᴰ.tail m) = insert-Mem a x (sort xs) (Memᴰ.tail (sort-Mem a xs m))

  pub length-insert : (x : A) (xs : List A) → length (insert x xs) ≡ suc (length xs)
  unfolding insert
  length-insert x [] = refl
  length-insert x (y ∷ ys) = ground (arith, length-insert x ys)

  pub length-sort : (xs : List A) → length (sort xs) ≡ length xs
  unfolding sort
  length-sort [] = refl
  length-sort (x ∷ xs) = length-insert x (sort xs) ∙ ap suc (length-sort xs)

  -- A list in order is left as it is.
  pub sort_sorted : (xs : List A) → IsSorted xs → sort xs ≡ xs
  unfolding sort insert
  sort_sorted [] h = refl
  sort_sorted (x ∷ []) h = refl
  sort_sorted (x ∷ y ∷ ys) h = ground (arith, sort_sorted (y ∷ ys) h.1)

module _ {ℓ} {A : Type ℓ} (le : A → A → Bool)
    (total : (x y : A) → (le x y ≡ true) ⊎ (le y x ≡ true))
    (trans : (x y z : A) → le x y ≡ true → le y z ≡ true → le x z ≡ true) where
  pub insert-IsSorted : (x : A) (xs : List A) → IsSorted le xs → IsSorted le (insert le x xs)
  unfolding insert
  insert-IsSorted x [] h = (tt, tt)
  insert-IsSorted x (y ∷ ys) h = elim (Bool-cases (le x y)) [
    | inl e ↦ rw e ((e, All-map_of (λ z k. trans x y z e k) ys h.0), h)
    | inr e ↦ rw e (
      All-insert le (λ z. le y z ≡ true) x ys (ground (arith, total x y)) h.0,
      insert-IsSorted x ys h.1,
    )
  ]

  pub sort-IsSorted : (xs : List A) → IsSorted le (sort le xs)
  unfolding sort
  sort-IsSorted [] = tt
  sort-IsSorted (x ∷ xs) = insert-IsSorted x (sort le xs) (sort-IsSorted xs)

  insert_first : (x : A) (ys : List A) → All (λ z. le x z ≡ true) ys → insert le x ys ≡ x ∷ ys
  unfolding insert
  insert_first x [] h = refl
  insert_first x (y ∷ ys) h = ground arith

  filter-insert :
      (p : A → Bool) (x : A) (xs : List A)
      → IsSorted le xs
      → filter p (insert le x xs) ≡ (if p x then insert le x (filter p xs) else filter p xs)
  unfolding insert
  filter-insert p x [] h = refl
  filter-insert p x (y ∷ ys) h = elim (Bool-cases (le x y)) [
    | inl e ↦
        let below = insert_first x (filter p (y ∷ ys)) (
          All-filter (λ z. le x z ≡ true) p (y ∷ ys)
            (e, All-map_of (λ z k. trans x y z e k) ys h.0)) in
        rw e (ground (arith, below))
    | inr e ↦ rw e (ground (arith, filter-insert p x ys h.1))
  ]

  pub filter-sort : (p : A → Bool) (xs : List A) → filter p (sort le xs) ≡ sort le (filter p xs)
  unfolding sort
  filter-sort p [] = refl
  filter-sort p (x ∷ xs) =
      filter-insert p x (sort le xs) (sort-IsSorted xs) ∙ ground (arith, filter-sort p xs)
