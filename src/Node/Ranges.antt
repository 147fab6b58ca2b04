-- ===== src/Node/Ranges.antt =====
-- `TokenIndex::in_range` of crates/hashring-node/src/lib.rs finds what `RangeSpec::contains` accepts.
use hashring_rs.Interval.{
  Bound, in_bounds, token_bounds, interval_contains, token_bounds-interval_contains,
}
use hashring_rs.Prelude.{
  ℕ, ◌<◌, ◌≡◌, refl, sym, ap, ◌∙◌, ◌⊎◌, inl, inr, Bytes, same, List, [], ◌∷◌, ◌++◌, map, Bool, true,
  false, ◌&&◌, ◌||◌, ◌==◌, arith, filter, any, All, subst, Bool-cases, if◌then◌else◌, some,
}
use hashring_rs.Node.Index.{
  Entry, TokenIndex, set_contains, values_of, contains, pairs, flatten, in_each, in_range,
}
use hashring_rs.Node.Buckets.{IsIndex}

abbrev pub hit : ℕ → Bytes → ℕ × Bytes → Bool
hit t v p = p.0 == t && same p.1 v

any-append :
    (p : ℕ × Bytes → Bool) (xs ys : List (ℕ × Bytes)) → any p (xs ++ ys) ≡ (any p xs || any p ys)
any-append p [] ys = refl
any-append p (x ∷ xs) ys = ground (arith, any-append p xs ys)

any-pairs :
    (t : ℕ) (v : Bytes) (token : ℕ) (vs : List Bytes)
    → any (hit t v) (map (λ w. (token, w)) vs) ≡ (token == t && set_contains vs v)
any-pairs t v token [] = ground arith
any-pairs t v token (w ∷ vs) = ground (arith, any-pairs t v token vs)

flatten-past :
    (es : TokenIndex) (t : ℕ) (v : Bytes)
    → All (λ f. t < f.0) es
    → any (hit t v) (flatten es) ≡ false
flatten-past [] t v h = refl
flatten-past (e ∷ es) t v h =
    any-append (hit t v) (pairs e) (flatten es)
    ∙ ground (arith, any-pairs t v e.0 (values_of (some e.1)), flatten-past es t v h.1)

flatten-contains :
    (index : TokenIndex) (t : ℕ) (v : Bytes)
    → IsIndex index
    → any (hit t v) (flatten index) ≡ contains index t v
unfolding contains
flatten-contains [] t v h = refl
flatten-contains (e ∷ es) t v h =
    any-append (hit t v) (pairs e) (flatten es) ∙ elim (Bool-cases (e.0 == t)) [
      | inl k ↦
          let eq : e.0 ≡ t = ground arith in
          let past : any (hit t v) (flatten es) ≡ false =
            flatten-past es t v (subst (λ z. All (λ f. z < f.0) es) eq h.0) in
          rw (any-pairs t v e.0 (values_of (some e.1)), past, k) (or_false _)
      | inr k ↦ rw (any-pairs t v e.0 (values_of (some e.1)), k) (flatten-contains es t v h.2)
    ]
  where
    or_false : (b : Bool) → (b || false) ≡ b
    or_false true = refl
    or_false false = refl

flatten-filter :
    (b : Bound × Bound) (index : TokenIndex) (t : ℕ) (v : Bytes)
    → any (hit t v) (flatten (filter (λ e. in_bounds b e.0) index))
      ≡ (any (hit t v) (flatten index) && in_bounds b t)
flatten-filter b [] t v = refl
flatten-filter b (e ∷ es) t v =
    first (flatten-filter b es t v) (Bool-cases (in_bounds b e.0))
    ∙ ap (λ z. z && in_bounds b t)
        (sym (
          any-append (hit t v) (pairs e) (flatten es)
          ∙ ap (λ z. z || any (hit t v) (flatten es)) (any-pairs t v e.0 (values_of (some e.1)))))
  where
    rest : List Entry
    rest = filter (λ e. in_bounds b e.0) es

    both :
        (sc A c k same_token : Bool)
        → (same_token ≡ true → c ≡ k)
        → ((if k then same_token && sc else false) || (A && c)) ≡ (((same_token && sc) || A) && c)
    both sc A c k same_token h = ground arith

    agree : (e.0 == t) ≡ true → in_bounds b t ≡ in_bounds b e.0
    agree k = let eq : t ≡ e.0 = ground arith in ap (in_bounds b) eq

    first :
        (any (hit t v) (flatten rest) ≡ (any (hit t v) (flatten es) && in_bounds b t))
        → ((in_bounds b e.0 ≡ true) ⊎ (in_bounds b e.0 ≡ false))
        → any (hit t v) (flatten (filter (λ e. in_bounds b e.0) (e ∷ es))) ≡ (
            ((e.0 == t && set_contains (values_of (some e.1)) v) || any (hit t v) (flatten es))
            && in_bounds b t)
    first later (inl k) =
        subst
          (λ z. any (hit t v) (flatten (if z then e ∷ rest else rest)) ≡ (
            ((e.0 == t && set_contains (values_of (some e.1)) v) || any (hit t v) (flatten es))
            && in_bounds b t))
          (sym k)
          (any-append (hit t v) (pairs e) (flatten rest)
            ∙ ap (λ z. z || any (hit t v) (flatten rest)) (any-pairs t v e.0 (values_of (some e.1)))
            ∙ ap (λ z. (e.0 == t && set_contains (values_of (some e.1)) v) || z) later
            ∙ both (set_contains (values_of (some e.1)) v) (any (hit t v) (flatten es))
                (in_bounds b t) true (e.0 == t) (λ h. agree h ∙ k))
    first later (inr k) =
        subst
          (λ z. any (hit t v) (flatten (if z then e ∷ rest else rest)) ≡ (
            ((e.0 == t && set_contains (values_of (some e.1)) v) || any (hit t v) (flatten es))
            && in_bounds b t))
          (sym k)
          (later
            ∙ both (set_contains (values_of (some e.1)) v) (any (hit t v) (flatten es))
                (in_bounds b t) false (e.0 == t) (λ h. agree h ∙ k))

in_each-any :
    (index : TokenIndex) (bs : List (Bound × Bound)) (t : ℕ) (v : Bytes)
    → any (hit t v) (in_each index bs)
      ≡ (any (hit t v) (flatten index) && any (λ b. in_bounds b t) bs)
unfolding in_each
in_each-any index [] t v = ground arith
in_each-any index (b ∷ bs) t v =
    any-append (hit t v) (flatten (filter (λ e. in_bounds b e.0) index)) (in_each index bs)
    ∙ rw (flatten-filter b index t v, in_each-any index bs t v)
        (spread (any (hit t v) (flatten index)) (in_bounds b t) (any (λ b. in_bounds b t) bs))
  where
    spread : (a x y : Bool) → ((a && x) || (a && y)) ≡ (a && (x || y))
    spread true x y = refl
    spread false x y = refl

-- In an index with its tokens in order, `in_range` finds a pair exactly if the index holds it and
-- its token lies in the interval.
pub in_range-contains :
    (index : TokenIndex) (start end t : ℕ) (v : Bytes)
    → IsIndex index
    → any (hit t v) (in_range index start end)
      ≡ (contains index t v && interval_contains start end t)
unfolding in_range
in_range-contains index start end t v h =
    in_each-any index (token_bounds start end) t v
    ∙ ap (λ b. b && any (λ b. in_bounds b t) (token_bounds start end))
        (flatten-contains index t v h)
    ∙ ap (λ b. contains index t v && b) (token_bounds-interval_contains start end t)
