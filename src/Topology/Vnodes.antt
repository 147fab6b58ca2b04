-- ===== src/Topology/Vnodes.antt =====
-- The assignments of virtual nodes that `TopologySnapshot::new_with_timings` of
-- crates/hashring-core/src/topology.rs collects and orders.
use Prim.Native.Nat.{ℕ, zero, suc}
use mathlib.Core.List.Memᴰ
use hashring_rs.Prelude.{
  ◌+◌, ◌<◌, ◌≡◌, refl, subst, ap, ◌⊎◌, inl, inr, bytes_leb, List, [], ◌∷◌, map, Memᴰ, true, ltb,
  Bool-cases, arith, All, All-append, All-map_of,
}
use hashring_rs.Prelude.Sort.{IsSorted}
use hashring_rs.Topology.Types.{Member, TokenAssignment}
use hashring_rs.Topology.Build.{
  Hashing, encode_vnode, assignment_leb, range, vnode_assignment, member_assignments,
  all_assignments,
}

range-Mem : (v first n : ℕ) → v < n → Memᴰ (first + v) (range first n)
unfolding range
range-Mem v first zero h = absurd (omega arith)
range-Mem zero first (suc n) h = Memᴰ.head (omega arith)
range-Mem (suc v) first (suc n) h = Memᴰ.tail (
    subst (λ k. Memᴰ k (range (first + 1) n)) (omega arith)
      (range-Mem v (first + 1) n (omega arith)))

map-Mem : {A B : Type 0} (f : A → B) (x : A) (xs : List A) → Memᴰ x xs → Memᴰ (f x) (map f xs)
map-Mem f x [] m = elim m [ ]
map-Mem f x (y ∷ ys) (Memᴰ.head e) = Memᴰ.head (ap f e)
map-Mem f x (y ∷ ys) (Memᴰ.tail m) = Memᴰ.tail (map-Mem f x ys m)

pub all_assignments-Mem :
    (h : Hashing) (seed vnodes v : ℕ) (m : Member) (ms : List Member)
    → Memᴰ m ms
    → v < vnodes
    → Memᴰ (vnode_assignment h seed m v) (all_assignments h seed vnodes ms)
unfolding all_assignments member_assignments
all_assignments-Mem h seed vnodes v m [] here few = elim here [ ]
all_assignments-Mem h seed vnodes v m (x ∷ xs) (Memᴰ.head e) few =
    Memᴰ.append_left (all_assignments h seed vnodes xs) (
      subst
        (λ y. Memᴰ (vnode_assignment h seed m v) (map (vnode_assignment h seed y) (range 0 vnodes)))
        e
        (map-Mem (vnode_assignment h seed m) v (range 0 vnodes)
          (subst (λ k. Memᴰ k (range 0 vnodes)) (omega arith) (range-Mem v 0 vnodes few))))
all_assignments-Mem h seed vnodes v m (x ∷ xs) (Memᴰ.tail here) few =
    Memᴰ.append_right (member_assignments h seed vnodes x)
      (all_assignments-Mem h seed vnodes v m xs here few)

-- The assignment of a member's virtual node: its token is a hash of the two.
abbrev pub IsVnode : Hashing → ℕ → TokenAssignment → Member → ℕ → Type 0
IsVnode h seed a m v =
    (a.token ≡ h.xxh3_64_with_seed (encode_vnode m.node_id v) seed) × (a.node_id ≡ m.node_id)

-- An assignment of one of the virtual nodes of one of the members.
abbrev pub IsAssigned : Hashing → ℕ → ℕ → List Member → TokenAssignment → Type 0
IsAssigned h seed vnodes ms a =
    (m : Member) × (v : ℕ) × Memᴰ m ms × (v < vnodes) × IsVnode h seed a m v

range_below : (first n : ℕ) → All (λ v. v < first + n) (range first n)
unfolding range
range_below first zero = tt
range_below first (suc n) =
    (omega arith, All-map_of (λ v few. omega (arith, few)) _ (range_below (first + 1) n))

pub all_assignments-IsAssigned :
    (h : Hashing) (seed vnodes : ℕ) (ms : List Member)
    → All (IsAssigned h seed vnodes ms) (all_assignments h seed vnodes ms)
unfolding all_assignments member_assignments
all_assignments-IsAssigned h seed vnodes [] = tt
all_assignments-IsAssigned h seed vnodes (m ∷ ms) =
    All-append (IsAssigned h seed vnodes (m ∷ ms)) (member_assignments h seed vnodes m) _
      (each (range 0 vnodes) (range_below 0 vnodes))
      (All-map_of (λ a (x, v, here, few, is). (x, v, Memᴰ.tail here, few, is)) _
        (all_assignments-IsAssigned h seed vnodes ms))
  where
    each :
        (vs : List ℕ)
        → All (λ v. v < 0 + vnodes) vs
        → All (IsAssigned h seed vnodes (m ∷ ms)) (map (vnode_assignment h seed m) vs)
    each [] few = tt
    each (v ∷ vs) few = ((m, v, Memᴰ.head refl, omega (arith, few.0), (refl, refl)), each vs few.1)

-- By the token, and by the node on one token.
abbrev pub IsBefore : TokenAssignment → TokenAssignment → Type 0
IsBefore x y = (x.token < y.token) ⊎ ((x.token ≡ y.token) × (bytes_leb x.node_id y.node_id ≡ true))

-- Each element is before all that follow it.
abbrev pub IsOrdered {ℓ} : {A : Type ℓ} → (A → A → Type 0) → List A → Type ℓ
IsOrdered r [] = Unit
IsOrdered r (x ∷ xs) = All (r x) xs × IsOrdered r xs

pub IsSorted-IsOrdered :
    (xs : List TokenAssignment) → IsSorted assignment_leb xs → IsOrdered IsBefore xs
IsSorted-IsOrdered [] s = tt
IsSorted-IsOrdered (x ∷ xs) s = (All-map_of (before x) xs s.0, IsSorted-IsOrdered xs s.1)
  where
    before : (x y : TokenAssignment) → assignment_leb x y ≡ true → IsBefore x y
    before x y e = elim (Bool-cases (ltb x.token y.token)) [
      | inl c ↦ inl (ground arith)
      | inr c ↦ inr (ground (arith, e, c), ground (arith, e, c))
    ]
