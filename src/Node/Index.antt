-- ===== src/Node/Index.antt =====
-- The token index of crates/hashring-node/src/lib.rs, `TokenIndex`, with byte texts for its values.
-- A `BTreeMap` is its entries in the order of their tokens, and a `BTreeSet` its members in order.
use hashring_rs.Interval.{Bound, in_bounds, token_bounds}
use hashring_rs.Prelude.{
  ℕ, Bytes, same, bytes_leb, List, [], ◌∷◌, ◌++◌, map, Bool, true, false, ltb, ◌==◌, is_empty,
  length, filter, any, if◌then◌else◌, Option, none, some,
}

pub data TokenBucket : Type 0 where
  one : Bytes → TokenBucket
  many : List Bytes → TokenBucket

abbrev pub Entry : Type 0
Entry = ℕ × TokenBucket

-- `by_token`
abbrev pub TokenIndex : Type 0
TokenIndex = List Entry

-- `BTreeMap::get`, insertion in place of what is at the token, and `BTreeMap::remove`.
abbrev pub get : TokenIndex → ℕ → Option TokenBucket
get [] token = none
get (e ∷ es) token = if e.0 == token then some e.1 else get es token

unfoldable pub put_bucket : TokenIndex → ℕ → TokenBucket → TokenIndex
put_bucket [] token bucket = (token, bucket) ∷ []
put_bucket (e ∷ es) token bucket =
    if e.0 == token
    then (token, bucket) ∷ es
    else if ltb token e.0
    then (token, bucket) ∷ e ∷ es
    else e ∷ put_bucket es token bucket

unfoldable pub drop_bucket : TokenIndex → ℕ → TokenIndex
drop_bucket [] token = []
drop_bucket (e ∷ es) token = if e.0 == token then es else e ∷ drop_bucket es token

-- `BTreeSet::insert` and `BTreeSet::remove`.
unfoldable pub set_insert : List Bytes → Bytes → List Bytes
set_insert [] value = value ∷ []
set_insert (v ∷ vs) value =
    if same v value
    then v ∷ vs
    else if bytes_leb value v
    then value ∷ v ∷ vs
    else v ∷ set_insert vs value

unfoldable pub set_remove : List Bytes → Bytes → List Bytes
set_remove [] value = []
set_remove (v ∷ vs) value = if same v value then vs else v ∷ set_remove vs value

abbrev pub set_contains : List Bytes → Bytes → Bool
set_contains values value = any (λ v. same v value) values

-- The bucket that an insertion leaves at the token.
unfoldable pub add_to : Option TokenBucket → Bytes → TokenBucket
unfolding set_insert
add_to none value = one value
add_to (some (one existing)) value =
    if same existing value then one existing else many (set_insert (set_insert [] existing) value)
add_to (some (many values)) value = many (set_insert values value)

unfoldable pub insert : TokenIndex → ℕ → Bytes → TokenIndex
unfolding put_bucket add_to
insert index token value = put_bucket index token (add_to (get index token) value)

unfoldable pub remove_from : TokenIndex → ℕ → Bytes → Option TokenBucket → TokenIndex × Bool
unfolding put_bucket drop_bucket set_remove
remove_from index token value none = (index, false)
remove_from index token value (some (one existing)) =
    if same existing value then (drop_bucket index token, true) else (index, false)
remove_from index token value (some (many values)) =
    if set_contains values value
    then if is_empty (set_remove values value)
      then (drop_bucket index token, true)
      else (put_bucket index token (many (set_remove values value)), true)
    else (index, false)

-- The index after a removal, and whether the value was there.
unfoldable pub remove : TokenIndex → ℕ → Bytes → TokenIndex × Bool
unfolding remove_from
remove index token value = remove_from index token value (get index token)

abbrev pub values_of : Option TokenBucket → List Bytes
values_of none = []
values_of (some (one value)) = value ∷ []
values_of (some (many values)) = values

unfoldable pub len_at : TokenIndex → ℕ → ℕ
len_at index token = length (values_of (get index token))

unfoldable pub contains : TokenIndex → ℕ → Bytes → Bool
contains index token value = set_contains (values_of (get index token)) value

abbrev pub pairs : Entry → List (ℕ × Bytes)
pairs e = map (λ v. (e.0, v)) (values_of (some e.1))

abbrev pub flatten : TokenIndex → List (ℕ × Bytes)
flatten [] = []
flatten (e ∷ es) = pairs e ++ flatten es

-- What each pair of bounds finds, one after the other.
unfoldable pub in_each : TokenIndex → List (Bound × Bound) → List (ℕ × Bytes)
in_each index [] = []
in_each index (b ∷ bs) = flatten (filter (λ e. in_bounds b e.0) index) ++ in_each index bs

unfoldable pub in_range : TokenIndex → ℕ → ℕ → List (ℕ × Bytes)
unfolding in_each token_bounds
in_range index start end = in_each index (token_bounds start end)
