-- ===== src/Topology/Owner.antt =====
-- `TopologySnapshot::owner_for_token` of crates/hashring-core/src/topology.rs against distances on
-- the ring of 2 ^ 64 tokens.
use hashring_rs.Prelude.{
  ℕ, zero, suc, ◌+◌, ◌-◌, ◌%◌, ◌^◌, ◌≤◌, ◌<◌, ◌≡◌, refl, sym, ap, ◌∙◌, ◌⊎◌, inl, inr, same, List,
  [], ◌∷◌, Bool, true, false, arith, ltb, leb, length, get_elem?, find, filter, All, Option, none,
  some, ok, ok_or, Bool-cases, All-map_of, same-true, All-filter_self, All-zip_with, filter-All,
  subst,
}
use hashring_rs.Prelude.Sort.{IsSorted}
use hashring_rs.Topology.Types.{
  TokenAssignment, TopologyError, TopologySnapshot, Member, unknown_assigned_node,
}
use hashring_rs.Topology.Lookup.{owner_for_token}
use hashring_rs.Topology.Clockwise.{token_leb, clockwise, start}
use hashring_rs.Topology.Replicas.{clockwise-cons}

-- How far a token lies past another, going up and wrapping after `u64::MAX`.
abbrev pub distance : ℕ → ℕ → ℕ
distance from to = (to + 2 ^ 64 - from) % 2 ^ 64

abbrev pub IsU64 : ℕ → Type 0
IsU64 n = n < 2 ^ 64

All-false_of_filter-nil {ℓ} :
    {A : Type ℓ} (p : A → Bool) (xs : List A) → filter p xs ≡ [] → All (λ x. p x ≡ false) xs
All-false_of_filter-nil p [] h = tt
All-false_of_filter-nil p (x ∷ xs) h = elim (Bool-cases (p x)) [
  | inl e ↦ absurd (ground arith)
  | inr e ↦ (e, All-false_of_filter-nil p xs (ground arith))
]

first_past :
    (t : ℕ) (xs : List TokenAssignment) (b : TokenAssignment) (bs : List TokenAssignment)
    → IsSorted token_leb xs
    → filter (λ a. leb t a.token) xs ≡ b ∷ bs
    → All (λ y. (t ≤ b.token) × ((y.token < t) ⊎ (b.token ≤ y.token))) xs
first_past t [] b bs h e = tt
first_past t (x ∷ xs) b bs h e = elim (Bool-cases (leb t x.token)) [
  | inl past ↦
      let same_one : x ≡ b = ground arith in
      let at : x.token ≡ b.token = ap (λ (a : TokenAssignment). a.token) same_one in
      (
        (ground arith, inr (omega arith)),
        All-map_of (λ y k. (ground arith, inr (ground arith))) xs h.0,
      )
  | inr before ↦
      let rest = first_past t xs b bs h.1 (ground arith) in
      let up : t ≤ b.token = past_of xs (ground arith) in ((up, inl (ground arith)), rest)
]
  where
    past_of :
        (ys : List TokenAssignment)
        → filter (λ (a : TokenAssignment). leb t a.token) ys ≡ b ∷ bs
        → t ≤ b.token
    past_of ys k =
        let kept = All-filter_self (λ (a : TokenAssignment). leb t a.token) ys in
        let kept' : All (λ (a : TokenAssignment). leb t a.token ≡ true) (b ∷ bs) = rw k at kept in
        ground arith

token_of_head :
    {b a : TokenAssignment} {bs rest : List TokenAssignment} → b ∷ bs ≡ a ∷ rest → b.token ≡ a.token
token_of_head e = ground arith

distance_past :
    (t a b : ℕ)
    → IsU64 t
    → IsU64 a
    → IsU64 b
    → (t ≤ a) × ((b < t) ⊎ (a ≤ b))
    → distance t a ≤ distance t b
distance_past t a b ht ha hb h = omega arith

distance_before : (t a b : ℕ) → IsU64 t → a ≤ b → b < t → distance t a ≤ distance t b
distance_before t a b ht h k = omega arith

wrapped_nearest :
    (t : ℕ) (xs : List TokenAssignment) (a : TokenAssignment) (rest : List TokenAssignment)
    → IsU64 t
    → IsSorted token_leb xs
    → All (λ y. leb t y.token ≡ false) xs
    → xs ≡ a ∷ rest
    → All (λ b. distance t a.token ≤ distance t b.token) xs
wrapped_nearest t [] a rest ht h k e = tt
wrapped_nearest t (y ∷ ys) a rest ht h k e =
    let at : a.token ≡ y.token = ground arith in
    (
      ground (arith, distance_before t a.token y.token ht (omega arith)),
      All-zip_with (λ z p q. ground (arith, distance_before t a.token z.token ht)) ys h.0 k.1,
    )

-- The first assignment of the walk is the nearest.
clockwise_nearest :
    (t : ℕ) (xs : List TokenAssignment) (a : TokenAssignment) (rest : List TokenAssignment)
    → IsU64 t
    → All (λ b. IsU64 b.token) xs
    → IsSorted token_leb xs
    → IsU64 a.token
    → clockwise t xs ≡ a ∷ rest
    → All (λ b. distance t a.token ≤ distance t b.token) xs
unfolding clockwise
clockwise_nearest t xs a rest ht hx h ha e = go (filter (λ b. leb t b.token) xs) refl
  where
    go :
        (past : List TokenAssignment)
        → filter (λ (b : TokenAssignment). leb t b.token) xs ≡ past
        → All (λ (b : TokenAssignment). distance t a.token ≤ distance t b.token) xs
    go [] k =
        let before = All-false_of_filter-nil (λ (b : TokenAssignment). leb t b.token) xs k in
        let whole =
          filter-All (λ (b : TokenAssignment). ltb b.token t) xs
            (All-map_of (λ y p. ground arith) xs before) in
        wrapped_nearest t xs a rest ht h before (rw (k, whole) at e)
    go (b ∷ bs) k =
        let at : b.token ≡ a.token = token_of_head (rw k at e) in
        All-zip_with (λ y u v. distance_past t a.token y.token ht ha u (rw at at v)) xs hx
          (first_past t xs b bs h k)

pub All-get_elem? {ℓ κ} :
    {A : Type ℓ} (P : A → Type κ) (i : ℕ) (xs : List A) {x : A}
    → All P xs
    → get_elem? xs i ≡ some x
    → P x
All-get_elem? P i [] h e = absurd (ground arith)
All-get_elem? P zero (y ∷ xs) h e = subst P (ground arith) h.0
All-get_elem? P (suc i) (y ∷ xs) h e = All-get_elem? P i xs h.1 e

-- The owner that the code returns, from the first assignment of the walk.
pub owner_for_token-clockwise :
    (s : TopologySnapshot) (t : ℕ)
    → IsSorted token_leb s.assignments
    → 0 < length s.assignments
    → (a : TokenAssignment) × (rest : List TokenAssignment) × (i : ℕ) × (get_elem? s.assignments i
        ≡ some a)
      × (clockwise t s.assignments ≡ a ∷ rest)
      × (owner_for_token s t
          ≡ ok_or
              (find (λ m. same m.node_id a.node_id) s.members)
              (unknown_assigned_node a.node_id))
unfolding owner_for_token
owner_for_token-clockwise s t h pos =
    let (a, rest, index, pick, split) = clockwise-cons t s.assignments h pos in
    (a, rest, start t s.assignments, pick, split, rw (index, pick))

find_sound {ℓ} : {A : Type ℓ} (p : A → Bool) (xs : List A) (x : A) → find p xs ≡ some x → p x ≡ true
find_sound p [] x e = cc
find_sound p (y ∷ xs) x e = ground (arith, find_sound p xs x)

found_of_ok : (e : TopologyError) (m : Member) (o : Option Member) → ok_or o e ≡ ok m → o ≡ some m
found_of_ok e m none h = absurd (ground arith)
found_of_ok e m (some x) h = ground arith

-- An owner that `owner_for_token` returns has an assignment that no other assignment is nearer
-- than, going up from the token and wrapping.
pub nearest_owner :
    (s : TopologySnapshot) (t : ℕ) (m : Member)
    → IsU64 t
    → All (λ b. IsU64 b.token) s.assignments
    → IsSorted token_leb s.assignments
    → 0 < length s.assignments
    → owner_for_token s t ≡ ok m
    → (a : TokenAssignment) × (i : ℕ) × (get_elem? s.assignments i ≡ some a)
      × (a.node_id ≡ m.node_id)
      × All (λ b. distance t a.token ≤ distance t b.token) s.assignments
nearest_owner s t m ht hs h pos e =
    let (a, rest, i, pick, split, code) = owner_for_token-clockwise s t h pos in
    let found : find (λ m. same m.node_id a.node_id) s.members ≡ some m =
      found_of_ok _ m (find (λ m. same m.node_id a.node_id) s.members) (sym code ∙ e) in
    (
      a,
      i,
      pick,
      sym (same-true _ _ (find_sound (λ m. same m.node_id a.node_id) s.members m found)),
      clockwise_nearest t s.assignments a rest ht hs h
          (All-get_elem? (λ (b : TokenAssignment). IsU64 b.token) i s.assignments hs pick) split,
    )
