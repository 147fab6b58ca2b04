-- ===== src/Coordinator/Destinations.antt =====
-- `destination_instances` of crates/hashring-coordinator/src/migration_helpers.rs finds one process
-- instance for each destination of a change, where there is one.
use hashring_rs.Prelude.{
  ◌≡◌, refl, sym, ap, ◌∙◌, inl, inr, Bytes, same, same-true, same_refl, List, [], ◌∷◌, false, arith,
  is_empty, All, subst, Bool-cases, if◌then◌else◌, Option, none, some, Result, ok, err, panic,
  ok_injective,
}
use hashring_rs.Migration.Types.{RangeMigration, TopologyChange}
use hashring_rs.Coordinator.Helpers.{
  HelperError, Identity, identity_of, Destinations, put, clashes, collect_destinations,
  destination_instances,
}

-- A range with a process instance, which `f` gives for its destination.
abbrev pub IsKnown : (Bytes → Option Identity) → RangeMigration → Type 0
IsKnown f r =
    (is_empty r.destination_process_instance_id ≡ false)
    × (f r.destination_node_id ≡ some (r.destination_endpoint, r.destination_process_instance_id))

-- What the map holds is kept.
Kept : Destinations → Destinations → Type 0
Kept d out = (node : Bytes) (i : Identity) → d node ≡ some i → out node ≡ some i

clashes-false : (i j : Identity) → clashes (some i) j ≡ false → i ≡ j
clashes-false (a, b) (c, d) h =
    let e : a ≡ c = same-true a c (ground arith) in
    let f : b ≡ d = same-true b d (ground arith) in ground arith

collect_sound :
    (d out : Destinations) (rs : List RangeMigration)
    → collect_destinations d rs ≡ ok out
    → Kept d out × All (IsKnown out) rs
unfolding collect_destinations Kept
collect_sound d out [] e =
    let same_map : d ≡ out = ok_injective d out e in
    (λ node i h. subst (λ m. m node ≡ some i) same_map h, tt)
collect_sound d out (r ∷ rs) e =
    let named : is_empty r.destination_process_instance_id ≡ false = ground arith in
    let agrees : clashes (d r.destination_node_id) (identity_of r) ≡ false = ground arith in
    let later : collect_destinations (put r.destination_node_id (identity_of r) d) rs ≡ ok out =
      sym (rw (named, agrees)) ∙ e in
    let (kept, known) = collect_sound (put r.destination_node_id (identity_of r) d) out rs later in
    let here : out r.destination_node_id ≡ some (identity_of r) =
      kept r.destination_node_id (identity_of r) (rw (same_refl r.destination_node_id)) in
    (
      λ node i h. elim (Bool-cases (same node r.destination_node_id)) [
        | inl k ↦
            let eq : node ≡ r.destination_node_id = same-true node r.destination_node_id k in
            let at : d r.destination_node_id ≡ some i = ap d (sym eq) ∙ h in
            let one : i ≡ identity_of r =
              clashes-false i (identity_of r)
                (ap (λ o. clashes o (identity_of r)) (sym at) ∙ agrees) in
            ap out eq ∙ here ∙ ap some (sym one)
        | inr k ↦ kept node i (rw k h)
      ],
      ((named, here), known),
    )

clashes_self : (i : Identity) → clashes (some i) i ≡ false
clashes_self (a, b) = rw (same_refl a, same_refl b)

clashes-known :
    (o : Option Identity) (g : Option Identity) (i : Identity)
    → ((j : Identity) → o ≡ some j → g ≡ some j)
    → g ≡ some i
    → clashes o i ≡ false
clashes-known none g i h e = refl
clashes-known (some j) g i h e =
    let one : j ≡ i = some_injective (sym (h j refl) ∙ e) in
    subst (λ z. clashes (some z) i ≡ false) (sym one) (clashes_self i)
  where
    some_injective : {j i : Identity} → some j ≡ some i → j ≡ i
    some_injective e = ground arith

collect_complete :
    (f : Bytes → Option Identity) (d : Destinations) (rs : List RangeMigration)
    → Kept d f
    → All (IsKnown f) rs
    → (out : Destinations) × (collect_destinations d rs ≡ ok out)
unfolding collect_destinations Kept
collect_complete f d [] kept known = (d, refl)
collect_complete f d (r ∷ rs) kept ((named, here), known) =
    let agrees =
      clashes-known (d r.destination_node_id) (f r.destination_node_id) (identity_of r)
        (kept r.destination_node_id) here in
    let (out, later) =
      collect_complete f (put r.destination_node_id (identity_of r) d) rs
        (λ node i h. elim (Bool-cases (same node r.destination_node_id)) [
          | inl k ↦
              let eq : node ≡ r.destination_node_id = same-true node r.destination_node_id k in
              ap f eq
              ∙ here
              ∙ subst (λ b. (if b then some (identity_of r) else d node) ≡ some i) k h
          | inr k ↦
              kept node i (subst (λ b. (if b then some (identity_of r) else d node) ≡ some i) k h)
        ])
        known in
    (out, rw (named, agrees) later)

never_panics : (d : Destinations) (rs : List RangeMigration) → collect_destinations d rs ≡ panic → ⊥
unfolding collect_destinations
never_panics d [] e = ground arith
never_panics d (r ∷ rs) e =
    ground (arith, e, never_panics (put r.destination_node_id (identity_of r) d) rs)

-- The answer for a change's ranges: a table for all of them, or an error, and then no table is.
abbrev pub IsAnswer : List RangeMigration → Result HelperError Destinations → Type 0
IsAnswer rs (ok out) = All (IsKnown out) rs
IsAnswer rs (err e) = (f : Bytes → Option Identity) → ¬ All (IsKnown f) rs
IsAnswer rs panic = ⊥

-- `destination_instances` returns a table that gives each range of the change, by its destination, its
-- endpoint and process instance, which all are named; or it fails, and then there is no such table.
pub destination_instances-IsAnswer :
    (change : TopologyChange) → IsAnswer change.ranges (destination_instances change)
unfolding destination_instances Kept
destination_instances-IsAnswer change = go (destination_instances change) refl
  where
    go :
        (o : Result HelperError Destinations)
        → collect_destinations (λ node. none) change.ranges ≡ o
        → IsAnswer change.ranges o
    go (ok out) e = (collect_sound (λ node. none) out change.ranges e).1
    go (err x) e = λ f known.
        let (out, code) =
          collect_complete f (λ node. none) change.ranges (λ node i h. absurd (ground arith))
            known in
        absurd (ground (arith, e, code))
    go panic e = never_panics (λ node. none) change.ranges e
