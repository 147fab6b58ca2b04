-- ===== src/Node/Buckets.antt =====
-- What the buckets of the token index of crates/hashring-node/src/lib.rs hold.
use hashring_rs.Prelude.{
  ℕ, ◌<◌, ◌≡◌, refl, Bytes, same, same-true, bytes_leb, List, [], ◌∷◌, true, false, not, ◌&&◌, ◌||◌,
  ◌==◌, arith, All, if◌then◌else◌, Option, none, some,
}
use hashring_rs.Node.Index.{
  TokenBucket, one, many, TokenIndex, get, put_bucket, drop_bucket, set_insert, set_remove,
  set_contains, add_to, values_of,
}

-- Values in order, each once.
abbrev pub IsOrdered : List Bytes → Type 0
IsOrdered [] = Unit
IsOrdered (v ∷ vs) = All (λ w. (bytes_leb v w ≡ true) × (same v w ≡ false)) vs × IsOrdered vs

abbrev pub IsIndex : TokenIndex → Type 0
IsIndex [] = Unit
IsIndex (e ∷ es) = All (λ f. e.0 < f.0) es × IsOrdered (values_of (some e.1)) × IsIndex es

pub get-put_bucket :
    (index : TokenIndex) (t : ℕ) (b : TokenBucket) (t' : ℕ)
    → get (put_bucket index t b) t' ≡ (if t == t' then some b else get index t')
unfolding put_bucket
get-put_bucket [] t b t' = refl
get-put_bucket (e ∷ es) t b t' = ground (arith, get-put_bucket es t b t')

pub get-past : (es : TokenIndex) (t : ℕ) → All (λ f. t < f.0) es → get es t ≡ none
get-past [] t h = refl
get-past (e ∷ es) t h = ground (arith, get-past es t h.1)

pub get-drop_bucket :
    (index : TokenIndex) (t t' : ℕ)
    → IsIndex index
    → get (drop_bucket index t) t' ≡ (if t == t' then none else get index t')
unfolding drop_bucket
get-drop_bucket [] t t' h = ground arith
get-drop_bucket (e ∷ es) t t' h = ground (arith, get-drop_bucket es t t' h.2, get-past es e.0 h.0)

set_contains-insert :
    (vs : List Bytes) (v w : Bytes)
    → set_contains (set_insert vs v) w ≡ (same v w || set_contains vs w)
unfolding set_insert
set_contains-insert [] v w = refl
set_contains-insert (x ∷ vs) v w = ground (arith, set_contains-insert vs v w, same-true x v)

set_contains-past :
    (vs : List Bytes) (v : Bytes)
    → All (λ w. (bytes_leb v w ≡ true) × (same v w ≡ false)) vs
    → set_contains vs v ≡ false
set_contains-past [] v h = refl
set_contains-past (x ∷ vs) v h = ground (arith, set_contains-past vs v h.1)

pub set_contains-remove :
    (vs : List Bytes) (v w : Bytes)
    → IsOrdered vs
    → set_contains (set_remove vs v) w ≡ (set_contains vs w && not (same v w))
unfolding set_remove
set_contains-remove [] v w h = refl
set_contains-remove (x ∷ vs) v w h =
    ground (arith, set_contains-remove vs v w h.1, set_contains-past vs x h.0)

pub contains-add_to :
    (b : Option TokenBucket) (v w : Bytes)
    → set_contains (values_of (some (add_to b v))) w ≡ (same v w || set_contains (values_of b) w)
unfolding add_to
contains-add_to none v w = refl
contains-add_to (some (one x)) v w = ground (arith, same-true x v, set_contains-insert (x ∷ []) v w)
contains-add_to (some (many vs)) v w = set_contains-insert vs v w
