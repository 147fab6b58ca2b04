-- ===== src/Topology/Collected.antt =====
-- The loop of `replica_node_ids_for_token` in crates/hashring-core/src/topology.rs, as a walk of the\nassignments.
use mathlib.Core.List.{append-nil, append_assoc}
use hashring_rs.Prelude.{
  ℕ, zero, suc, ◌+◌, ◌-◌, ◌%◌, ◌≤◌, ◌<◌, ◌≡◌, refl, sym, ap, ◌∙◌, inl, inr, Bytes, List, [], ◌∷◌,
  ◌++◌, arith, ◌==◌, length, get_elem?, take, drop, some, if◌then◌else◌, ok, Bool-cases, Result,
  length-append,
}
use hashring_rs.Topology.Types.{TokenAssignment, TopologyError}
use hashring_rs.Topology.Validate.{contains}
use hashring_rs.Topology.Lookup.{wrap, collect}
use hashring_rs.Topology.Clockwise.{rotate, get_elem?-rotate}

-- The nodes of a walk in the order that it first meets them, but those in `seen`.
unfoldable pub first_met : List Bytes → List TokenAssignment → List Bytes
first_met seen [] = []
first_met seen (a ∷ rest) =
    let later = first_met (a.node_id ∷ seen) rest in
    if contains seen a.node_id then first_met seen rest else a.node_id ∷ later

pub drop-get_elem? {ℓ} :
    {A : Type ℓ} (o : ℕ) (xs : List A)
    → o < length xs
    → (x : A) × (get_elem? xs o ≡ some x) × (drop o xs ≡ x ∷ drop (suc o) xs)
drop-get_elem? o [] h = elim h [ ]
drop-get_elem? zero (x ∷ xs) h = (x, refl, refl)
drop-get_elem? (suc o) (x ∷ xs) h = drop-get_elem? o xs (omega arith)

drop_all {ℓ} : {A : Type ℓ} (o : ℕ) (xs : List A) → length xs ≤ o → drop o xs ≡ []
drop_all zero [] h = refl
drop_all zero (x ∷ xs) h = elim h [ ]
drop_all (suc o) [] h = refl
drop_all (suc o) (x ∷ xs) h = drop_all o xs (omega arith)

pub length-rotate {ℓ} : {A : Type ℓ} (i : ℕ) (xs : List A) → length (rotate i xs) ≡ length xs
length-rotate zero xs = ap length (append-nil xs)
length-rotate (suc i) [] = refl
length-rotate (suc i) (x ∷ xs) = omega (
  arith,
  length-append (drop i xs) (x ∷ take i xs),
  length-append (drop i xs) (take i xs),
  length-rotate i xs,
)

pub wrap_pos : (i : ℕ) (n : ℕ) → 0 < n → wrap i n ≡ ok (i % n)
wrap_pos i zero h = elim h [ ]
wrap_pos i (suc n) h = refl

-- One round of the loop, once its index is known to be in range.
collect-suc :
    (xs : List TokenAssignment) (target i left offset : ℕ) (seen replicas : List Bytes)
    (x : TokenAssignment)
    → 0 < length xs
    → get_elem? xs ((i + offset) % length xs) ≡ some x
    → collect xs target i (suc left) offset seen replicas ≡ (
        if contains seen x.node_id
        then collect xs target i left (offset + 1) seen replicas
        else if length (replicas ++ x.node_id ∷ []) == target
        then ok (replicas ++ x.node_id ∷ [])
        else collect xs target i left (offset + 1) (x.node_id ∷ seen) (replicas ++ x.node_id ∷ []))
unfolding collect
collect-suc xs target i left offset seen replicas x pos e =
    rw (wrap_pos (i + offset) (length xs) pos, e)

take_more :
    (x : Bytes) (r l : List Bytes) (target : ℕ)
    → length r < target
    → r ++ take (target - length r) (x ∷ l)
      ≡ (r ++ x ∷ []) ++ take (target - length (r ++ x ∷ [])) l
take_more x r l target h =
    let e : target - length r ≡ suc (target - length (r ++ x ∷ [])) =
      omega (arith, length-append r (x ∷ [])) in
    rw e (sym (append_assoc r (x ∷ []) (take (target - length (r ++ x ∷ [])) l)))

-- What the loop returns from a walk that is left.
abbrev collected :
    ℕ → List Bytes → List Bytes → List TokenAssignment → Result TopologyError (List Bytes)
collected target seen replicas walk =
    ok (replicas ++ take (target - length replicas) (first_met seen walk))

collected-cons :
    (target : ℕ) (seen replicas : List Bytes) (x : TokenAssignment) (rest : List TokenAssignment)
    → length replicas < target
    → (if contains seen x.node_id
        then collected target seen replicas rest
        else if length (replicas ++ x.node_id ∷ []) == target
        then ok (replicas ++ x.node_id ∷ [])
        else collected target (x.node_id ∷ seen) (replicas ++ x.node_id ∷ []) rest)
      ≡ collected target seen replicas (x ∷ rest)
unfolding first_met
collected-cons target seen replicas x rest room = elim (Bool-cases (contains seen x.node_id)) [
  | inl old ↦ rw old
  | inr new ↦
      let grow = take_more x.node_id replicas (first_met (x.node_id ∷ seen) rest) target room in
      elim (Bool-cases (length (replicas ++ x.node_id ∷ []) == target)) [
        | inl full ↦
            let n : target - length (replicas ++ x.node_id ∷ []) ≡ 0 = ground arith in
            rw (new, full, grow, n) (ap ok (sym (append-nil (replicas ++ x.node_id ∷ []))))
        | inr more ↦ rw (new, more, grow)
      ]
]

collect_round :
    (xs : List TokenAssignment) (target i left offset : ℕ) (seen replicas : List Bytes)
    (x : TokenAssignment) (rest : List TokenAssignment)
    → 0 < length xs
    → length replicas < target
    → get_elem? xs ((i + offset) % length xs) ≡ some x
    → collect xs target i left (offset + 1) seen replicas ≡ collected target seen replicas rest
    → (length (replicas ++ x.node_id ∷ []) < target
        → collect xs target i left (offset + 1) (x.node_id ∷ seen) (replicas ++ x.node_id ∷ [])
          ≡ collected target (x.node_id ∷ seen) (replicas ++ x.node_id ∷ []) rest)
    → collect xs target i (suc left) offset seen replicas
      ≡ collected target seen replicas (x ∷ rest)
collect_round xs target i left offset seen replicas x rest pos room pick skip next =
    collect-suc xs target i left offset seen replicas x pos pick
    ∙ elim (Bool-cases (length (replicas ++ x.node_id ∷ []) == target)) [
      | inl full ↦ rw (skip, full) (rw full at (collected-cons target seen replicas x rest room))
      | inr more ↦
          rw (skip, next (ground (arith, length-append replicas (x.node_id ∷ []))))
            (collected-cons target seen replicas x rest room)
    ]

pub collect-collected :
    (xs : List TokenAssignment) (target i left offset : ℕ) (seen replicas : List Bytes)
    → i < length xs
    → left + offset ≡ length xs
    → length replicas < target
    → collect xs target i left offset seen replicas
      ≡ collected target seen replicas (drop offset (rotate i xs))
collect-collected xs target i zero offset seen replicas hi e room =
    unfold collect first_met in
    let n : target - length replicas ≡ suc (target - length replicas - 1) = omega arith in
    rw (drop_all offset (rotate i xs) (omega (arith, length-rotate i xs)), n)
      (ap ok (sym (append-nil replicas)))
collect-collected xs target i (suc left) offset seen replicas hi e room =
    go (drop-get_elem? offset (rotate i xs) (omega (arith, length-rotate i xs)))
      (λ s r. collect-collected xs target i left (suc offset) s r hi (omega arith))
  where
    go :
        ((x : TokenAssignment) × (get_elem? (rotate i xs) offset ≡ some x)
          × (drop offset (rotate i xs) ≡ x ∷ drop (suc offset) (rotate i xs)))
        → ((s r : List Bytes)
            → length r < target
            → collect xs target i left (suc offset) s r
              ≡ collected target s r (drop (suc offset) (rotate i xs)))
        → collect xs target i (suc left) offset seen replicas
          ≡ collected target seen replicas (drop offset (rotate i xs))
    go (x, at, split) ih =
        let o : offset + 1 ≡ suc offset = omega arith in
        rw split (
          collect_round xs target i left offset seen replicas x (drop (suc offset) (rotate i xs))
            (omega arith) room (sym (get_elem?-rotate i offset xs hi (omega arith)) ∙ at)
            (rw o (ih seen replicas room))
            (λ more. rw o (ih (x.node_id ∷ seen) (replicas ++ x.node_id ∷ []) more)))
