-- ===== src/Node/Invariant.antt =====
-- The operations of `TokenIndex` in crates/hashring-node/src/lib.rs keep its tokens and its sets in
-- order.
use hashring_rs.Prelude.{
  ℕ, ◌<◌, ◌≡◌, sym, inl, inr, Bytes, same, [], ◌∷◌, ltb, ◌==◌, arith, is_empty, All, All-map_of,
  subst, Bool-cases, if◌then◌else◌, Option, none, some,
}
use hashring_rs.Node.Index.{
  TokenBucket, one, many, TokenIndex, get, put_bucket, drop_bucket, set_insert, set_remove,
  set_contains, add_to, insert, remove_from, remove, values_of,
}
use hashring_rs.Node.Contents.{get-IsOrdered, set_insert-IsOrdered, set_remove-IsOrdered}
use hashring_rs.Node.Buckets.{IsIndex, IsOrdered}

All-put_bucket :
    (x : ℕ) (index : TokenIndex) (t : ℕ) (b : TokenBucket)
    → x < t
    → All (λ f. x < f.0) index
    → All (λ f. x < f.0) (put_bucket index t b)
unfolding put_bucket
All-put_bucket x [] t b lt h = (lt, tt)
All-put_bucket x (e ∷ es) t b lt h = elim (Bool-cases (e.0 == t)) [
  | inl k ↦ rw k (lt, h.1)
  | inr k ↦ elim (Bool-cases (ltb t e.0)) [
    | inl l ↦ rw (k, l) (lt, h)
    | inr l ↦ rw (k, l) (h.0, All-put_bucket x es t b lt h.1)
  ]
]

put_bucket-IsIndex :
    (index : TokenIndex) (t : ℕ) (b : TokenBucket)
    → IsIndex index
    → IsOrdered (values_of (some b))
    → IsIndex (put_bucket index t b)
unfolding put_bucket
put_bucket-IsIndex [] t b h o = (tt, o, tt)
put_bucket-IsIndex (e ∷ es) t b h o = elim (Bool-cases (e.0 == t)) [
  | inl k ↦
      let eq : e.0 ≡ t = ground arith in rw k (subst (λ z. All (λ f. z < f.0) es) eq h.0, o, h.2)
  | inr k ↦ elim (Bool-cases (ltb t e.0)) [
    | inl l ↦
        let lt : t < e.0 = ground arith in
        rw (k, l) ((lt, All-map_of (λ f u. omega arith) es h.0), o, h)
    | inr l ↦
        rw (k, l)
          (All-put_bucket e.0 es t b (ground arith) h.0, h.1, put_bucket-IsIndex es t b h.2 o)
  ]
]

All-drop_bucket :
    (x : ℕ) (index : TokenIndex) (t : ℕ)
    → All (λ f. x < f.0) index
    → All (λ f. x < f.0) (drop_bucket index t)
unfolding drop_bucket
All-drop_bucket x [] t h = tt
All-drop_bucket x (e ∷ es) t h = elim (Bool-cases (e.0 == t)) [
  | inl k ↦ rw k h.1
  | inr k ↦ rw k (h.0, All-drop_bucket x es t h.1)
]

drop_bucket-IsIndex : (index : TokenIndex) (t : ℕ) → IsIndex index → IsIndex (drop_bucket index t)
unfolding drop_bucket
drop_bucket-IsIndex [] t h = tt
drop_bucket-IsIndex (e ∷ es) t h = elim (Bool-cases (e.0 == t)) [
  | inl k ↦ rw k h.2
  | inr k ↦ rw k (All-drop_bucket e.0 es t h.0, h.1, drop_bucket-IsIndex es t h.2)
]

add_to-IsOrdered :
    (b : Option TokenBucket) (v : Bytes)
    → IsOrdered (values_of b)
    → IsOrdered (values_of (some (add_to b v)))
unfolding add_to
add_to-IsOrdered none v h = (tt, tt)
add_to-IsOrdered (some (one x)) v h = elim (Bool-cases (same x v)) [
  | inl k ↦ rw k (tt, tt)
  | inr k ↦
      subst (λ b. IsOrdered (values_of (some (if b then one x else many (set_insert (x ∷ []) v)))))
        (sym k) (set_insert-IsOrdered (x ∷ []) v (tt, tt))
]
add_to-IsOrdered (some (many vs)) v h = set_insert-IsOrdered vs v h

insert-IsIndex :
    (index : TokenIndex) (t : ℕ) (v : Bytes) → IsIndex index → IsIndex (insert index t v)
unfolding insert
insert-IsIndex index t v h =
    put_bucket-IsIndex index t (add_to (get index t) v) h
      (add_to-IsOrdered (get index t) v (get-IsOrdered index t h))

remove_from-IsIndex :
    (index : TokenIndex) (t : ℕ) (v : Bytes) (b : Option TokenBucket)
    → IsIndex index
    → IsOrdered (values_of b)
    → IsIndex (remove_from index t v b).0
unfolding remove_from
remove_from-IsIndex index t v none h o = h
remove_from-IsIndex index t v (some (one x)) h o = elim (Bool-cases (same x v)) [
  | inl k ↦ rw k (drop_bucket-IsIndex index t h)
  | inr k ↦ rw k h
]
remove_from-IsIndex index t v (some (many vs)) h o = elim (Bool-cases (set_contains vs v)) [
  | inl k ↦ elim (Bool-cases (is_empty (set_remove vs v))) [
    | inl l ↦ rw (k, l) (drop_bucket-IsIndex index t h)
    | inr l ↦
        rw (k, l)
          (put_bucket-IsIndex index t (many (set_remove vs v)) h (set_remove-IsOrdered vs v o))
  ]
  | inr k ↦ rw k h
]

-- From an index with its tokens and its sets in order, an insertion and a removal lead to such an
-- index again.
pub insert-remove-IsIndex :
    (index : TokenIndex) (t : ℕ) (v : Bytes)
    → IsIndex index
    → IsIndex (insert index t v) × IsIndex (remove index t v).0
unfolding remove
insert-remove-IsIndex index t v h = (
  insert-IsIndex index t v h,
  remove_from-IsIndex index t v (get index t) h (get-IsOrdered index t h),
)
