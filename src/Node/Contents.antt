-- ===== src/Node/Contents.antt =====
-- What the token index of crates/hashring-node/src/lib.rs holds: `TokenIndex` is a set of pairs of a
-- token and a value.
use hashring_rs.Prelude.{
  ℕ, ◌≡◌, refl, sym, ap, ◌∙◌, inl, inr, Bytes, same, same-true, same_refl, bytes_leb,
  bytes_leb_total, bytes_leb_trans, bytes_leb_antisymm, List, [], ◌∷◌, Bool, true, false, not, ◌&&◌,
  ◌||◌, ◌==◌, arith, is_empty, All, All-map_of, subst, Bool-cases, if◌then◌else◌, Option, none,
  some,
}
use hashring_rs.Node.Index.{
  TokenBucket, one, many, TokenIndex, get, put_bucket, drop_bucket, set_insert, set_remove,
  set_contains, add_to, insert, remove_from, remove, values_of, contains,
}
use hashring_rs.Node.Buckets.{
  IsOrdered, IsIndex, get-put_bucket, get-drop_bucket, set_contains-remove, contains-add_to,
}

-- An insertion adds its pair to what the index holds.
pub contains-insert :
    (index : TokenIndex) (t : ℕ) (v : Bytes) (t' : ℕ) (w : Bytes)
    → contains (insert index t v) t' w ≡ ((t == t' && same v w) || contains index t' w)
unfolding contains insert
contains-insert index t v t' w =
    ap (λ o. set_contains (values_of o) w) (get-put_bucket index t (add_to (get index t) v) t')
    ∙ elim (Bool-cases (t == t')) [
      | inl e ↦
          let eq : t ≡ t' = ground arith in
          rw e (
            contains-add_to (get index t) v w
            ∙ ap (λ z. same v w || set_contains (values_of (get index z)) w) eq)
      | inr e ↦ rw e
    ]

All-set_insert :
    (P : Bytes → Type 0) (vs : List Bytes) (v : Bytes) → P v → All P vs → All P (set_insert vs v)
unfolding set_insert
All-set_insert P [] v p h = (p, tt)
All-set_insert P (x ∷ vs) v p h = ground (arith, All-set_insert P vs v p h.1)

pub set_insert-IsOrdered :
    (vs : List Bytes) (v : Bytes) → IsOrdered vs → IsOrdered (set_insert vs v)
unfolding set_insert
set_insert-IsOrdered [] v h = (tt, tt)
set_insert-IsOrdered (x ∷ vs) v h = elim (Bool-cases (same x v)) [
  | inl k ↦ rw k h
  | inr k ↦ elim (Bool-cases (bytes_leb v x)) [
    | inl l ↦
        rw (k, l)
          (
            (
              (l, ground (arith, same-true v x, same_refl x)),
              All-map_of
                  (λ w g. (
                    ground (arith, bytes_leb_trans v x w),
                    ground (arith, same-true v w, bytes_leb_antisymm v x),
                  ))
                  vs h.0,
            ),
            h,
          )
    | inr l ↦
        rw (k, l)
          (
            All-set_insert _ vs v (ground (arith, bytes_leb_total x v), k) h.0,
            set_insert-IsOrdered vs v h.1,
          )
  ]
]

All-set_remove :
    (P : Bytes → Type 0) (vs : List Bytes) (v : Bytes) → All P vs → All P (set_remove vs v)
unfolding set_remove
All-set_remove P [] v h = tt
All-set_remove P (x ∷ vs) v h =
    elim (same x v) as (λ b. All P (if b then vs else x ∷ set_remove vs v)) [
      | true ↦ h.1
      | false ↦ (h.0, All-set_remove P vs v h.1)
    ]

pub set_remove-IsOrdered :
    (vs : List Bytes) (v : Bytes) → IsOrdered vs → IsOrdered (set_remove vs v)
unfolding set_remove
set_remove-IsOrdered [] v h = tt
set_remove-IsOrdered (x ∷ vs) v h =
    elim (same x v) as (λ b. IsOrdered (if b then vs else x ∷ set_remove vs v)) [
      | true ↦ h.1
      | false ↦ (All-set_remove _ vs v h.0, set_remove-IsOrdered vs v h.1)
    ]

pub get-IsOrdered :
    (index : TokenIndex) (t : ℕ) → IsIndex index → IsOrdered (values_of (get index t))
get-IsOrdered [] t h = tt
get-IsOrdered (e ∷ es) t h =
    elim (e.0 == t) as (λ b. IsOrdered (values_of (if b then some e.1 else get es t))) [
      | true ↦ h.1
      | false ↦ get-IsOrdered es t h.2
    ]

-- One bucket changed, to one without the value.
taken_out :
    (index index' : TokenIndex) (t : ℕ) (v : Bytes) (t' : ℕ) (w : Bytes) (b : Option TokenBucket)
    → get index' t' ≡ (if t == t' then b else get index t')
    → set_contains (values_of b) w ≡ (set_contains (values_of (get index t)) w && not (same v w))
    → contains index' t' w ≡ (contains index t' w && not (t == t' && same v w))
unfolding contains
taken_out index index' t v t' w b at out = elim (Bool-cases (t == t')) [
  | inl e ↦
      let eq : t ≡ t' = ground arith in
      let now = subst (λ z. get index' t' ≡ (if z then b else get index t')) e at in
      ap (λ o. set_contains (values_of o) w) now
      ∙ out
      ∙ ap (λ z. set_contains (values_of (get index z)) w && not (same v w)) eq
      ∙ rw e
  | inr e ↦
      let now = subst (λ z. get index' t' ≡ (if z then b else get index t')) e at in
      ap (λ o. set_contains (values_of o) w) now ∙ rw e (and_true _)
]
  where
    and_true : (b : Bool) → b ≡ (b && true)
    and_true true = refl
    and_true false = refl

no_bucket :
    (vs : List Bytes) (v : Bytes)
    → IsOrdered vs
    → is_empty (set_remove vs v) ≡ true
    → (w : Bytes) → (set_contains vs w && not (same v w)) ≡ false
no_bucket vs v h e w = sym (set_contains-remove vs v w h) ∙ empty (set_remove vs v) e
  where
    empty : (xs : List Bytes) → is_empty xs ≡ true → set_contains xs w ≡ false
    empty [] k = refl
    empty (x ∷ xs) k = absurd (ground arith)

stays :
    (index : TokenIndex) (t : ℕ) (v : Bytes) (t' : ℕ) (w : Bytes)
    → contains index t v ≡ false
    → contains index t' w ≡ (contains index t' w && not (t == t' && same v w))
stays index t v t' w e = elim (Bool-cases (t == t' && same v w)) [
  | inl k ↦
      let eq : t ≡ t' = ground arith in
      let eq' : v ≡ w = same-true v w (ground arith) in
      let gone : contains index t' w ≡ false =
        ap (λ z. contains index z w) (sym eq) ∙ ap (contains index t) (sym eq') ∙ e in
      rw gone
  | inr k ↦ rw k (and_true _)
]
  where
    and_true : (b : Bool) → b ≡ (b && true)
    and_true true = refl
    and_true false = refl

-- In an index with its tokens and its sets in order, a removal says whether the pair was there, and
-- takes it out of what the index holds.
pub contains-remove :
    (index : TokenIndex) (t : ℕ) (v : Bytes) (t' : ℕ) (w : Bytes)
    → IsIndex index
    → ((remove index t v).1 ≡ contains index t v)
      × (contains (remove index t v).0 t' w ≡ (contains index t' w && not (t == t' && same v w)))
unfolding remove
contains-remove index t v t' w h = go (get index t) refl
  where
    before :
        (b : Option TokenBucket)
        → get index t ≡ b
        → contains index t v ≡ set_contains (values_of b) v
    before b at = unfold contains in ap (λ o. set_contains (values_of o) v) at

    go :
        (b : Option TokenBucket)
        → get index t ≡ b
        → ((remove_from index t v b).1 ≡ contains index t v)
          × (contains (remove_from index t v b).0 t' w
              ≡ (contains index t' w && not (t == t' && same v w)))
    go none at = (sym (before none at), stays index t v t' w (before none at))
    go (some (one x)) at = elim (Bool-cases (same x v)) [
      | inl k ↦
          let out : false ≡ (set_contains (values_of (some (one x))) w && not (same v w)) =
            ground (arith, same-true x v) in
          let held : contains index t v ≡ true = before (some (one x)) at ∙ rw k in
          rw k (
            sym held,
            taken_out index (drop_bucket index t) t v t' w none (get-drop_bucket index t t' h)
                (out ∙ ap (λ o. set_contains (values_of o) w && not (same v w)) (sym at)),
          )
      | inr k ↦
          let lacks : contains index t v ≡ false = before (some (one x)) at ∙ rw k in
          rw k (sym lacks, stays index t v t' w lacks)
    ]
    go (some (many vs)) at =
        let ordered : IsOrdered vs =
          subst (λ o. IsOrdered (values_of o)) at (get-IsOrdered index t h) in
        elim (Bool-cases (set_contains vs v)) [
          | inl k ↦ elim (Bool-cases (is_empty (set_remove vs v))) [
            | inl l ↦
                rw (k, l)
                  (
                    sym (before (some (many vs)) at ∙ k),
                    taken_out index (drop_bucket index t) t v t' w none
                        (get-drop_bucket index t t' h)
                        (sym (no_bucket vs v ordered l w)
                          ∙ ap (λ o. set_contains (values_of o) w && not (same v w)) (sym at)),
                  )
            | inr l ↦
                rw (k, l)
                  (
                    sym (before (some (many vs)) at ∙ k),
                    taken_out index (put_bucket index t (many (set_remove vs v))) t v t' w
                        (some (many (set_remove vs v)))
                        (get-put_bucket index t (many (set_remove vs v)) t')
                        (set_contains-remove vs v w ordered
                          ∙ ap (λ o. set_contains (values_of o) w && not (same v w)) (sym at)),
                  )
          ]
          | inr k ↦
              let lacks : contains index t v ≡ false = before (some (many vs)) at ∙ k in
              rw k (sym lacks, stays index t v t' w lacks)
        ]
