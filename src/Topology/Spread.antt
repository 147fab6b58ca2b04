-- ===== src/Topology/Spread.antt =====
-- How many replicas `replica_node_ids_for_token` of crates/hashring-core/src/topology.rs finds, and
-- that they are different nodes.
use hashring_rs.Prelude.{
  ℕ, zero, suc, ◌≤◌, ◌<◌, ◌≡◌, refl, ap, ◌∙◌, inl, inr, Bytes, same, same_refl, List, [], ◌∷◌, ◌++◌,
  map, true, false, ◌||◌, arith, ltb, leb, length, take, filter, All, All-map_of, All-zip_with,
  if◌then◌else◌, ok, Bool-cases, subst,
}
use hashring_rs.Prelude.Sort.{sort, insert}
use hashring_rs.Topology.Types.{Member, TokenAssignment, TopologySnapshot}
use hashring_rs.Topology.Validate.{contains}
use hashring_rs.Topology.Build.{
  Hashing, assignment_leb, member_assignments, all_assignments, range, validate,
}
use hashring_rs.Topology.Lookup.{replica_node_ids_for_token, least}
use hashring_rs.Topology.Clockwise.{clockwise}
use hashring_rs.Topology.Replicas.{replica_node_ids-first_met}
use hashring_rs.Topology.Collected.{first_met}
use hashring_rs.Topology.Members.{Distinct, id_of}
use hashring_rs.Topology.Validity.{validate-IsAccepted, IsAccepted-IsRing}

-- No text twice.
abbrev pub AllDifferent : List Bytes → Type 0
AllDifferent [] = Unit
AllDifferent (x ∷ xs) = All (λ y. same y x ≡ false) xs × AllDifferent xs

first_met_new :
    (seen : List Bytes) (xs : List TokenAssignment)
    → All (λ y. contains seen y ≡ false) (first_met seen xs) × AllDifferent (first_met seen xs)
unfolding first_met
first_met_new seen [] = (tt, tt)
first_met_new seen (a ∷ xs) = elim (Bool-cases (contains seen a.node_id)) [
  | inl old ↦ rw old (first_met_new seen xs)
  | inr new ↦
      let (fresh, different) = first_met_new (a.node_id ∷ seen) xs in
      rw new (
        (new, All-map_of (λ y k. ground arith) _ fresh),
        (All-map_of (λ y k. ground arith) _ fresh, different),
      )
]

All-take {κ} : (P : Bytes → Type κ) (n : ℕ) (xs : List Bytes) → All P xs → All P (take n xs)
All-take P zero xs h = tt
All-take P (suc n) [] h = tt
All-take P (suc n) (x ∷ xs) h = (h.0, All-take P n xs h.1)

AllDifferent-take : (n : ℕ) (xs : List Bytes) → AllDifferent xs → AllDifferent (take n xs)
AllDifferent-take zero xs h = tt
AllDifferent-take (suc n) [] h = tt
AllDifferent-take (suc n) (x ∷ xs) h = (All-take _ n xs h.0, AllDifferent-take n xs h.1)

abbrev ids : List TokenAssignment → List Bytes
ids = map (λ a. a.node_id)

-- Every node on the walk is met, or was seen.
first_met_all :
    (seen : List Bytes) (xs : List TokenAssignment) (y : Bytes)
    → contains (ids xs) y ≡ true
    → (contains (first_met seen xs) y || contains seen y) ≡ true
unfolding first_met
first_met_all seen [] y h = absurd (ground arith)
first_met_all seen (a ∷ xs) y h =
    ground (arith, first_met_all seen xs y, first_met_all (a.node_id ∷ seen) xs y)

-- A list without a text.
drop_text : Bytes → List Bytes → List Bytes
drop_text y [] = []
drop_text y (x ∷ xs) = if same y x then xs else x ∷ drop_text y xs

length-drop_text :
    (y : Bytes) (xs : List Bytes) → contains xs y ≡ true → length xs ≡ suc (length (drop_text y xs))
unfolding drop_text
length-drop_text y [] h = absurd (ground arith)
length-drop_text y (x ∷ xs) h = ground (arith, length-drop_text y xs)

contains-drop_text :
    (y z : Bytes) (xs : List Bytes)
    → same z y ≡ false
    → contains xs z ≡ true
    → contains (drop_text y xs) z ≡ true
unfolding drop_text
contains-drop_text y z [] h k = absurd (ground arith)
contains-drop_text y z (x ∷ xs) h k = ground (arith, contains-drop_text y z xs)

-- As many different texts as a list holds are no more than its length.
pigeonhole :
    (ms : List Member) (xs : List Bytes)
    → Distinct id_of ms
    → All (λ m. contains xs m.node_id ≡ true) ms
    → length ms ≤ length xs
pigeonhole [] xs d h = omega arith
pigeonhole (m ∷ ms) xs d h = omega (
  arith,
  length-drop_text m.node_id xs h.0,
  pigeonhole ms (drop_text m.node_id xs) d.1
      (All-zip_with (λ x a b. contains-drop_text m.node_id x.node_id xs a b) ms d.0 h.1),
)

contains-append :
    (xs ys : List TokenAssignment) (y : Bytes)
    → contains (ids (xs ++ ys)) y ≡ (contains (ids xs) y || contains (ids ys) y)
contains-append [] ys y = refl
contains-append (x ∷ xs) ys y = ground (arith, contains-append xs ys y)

contains-sort :
    (xs : List TokenAssignment) (y : Bytes)
    → contains (ids (sort assignment_leb xs)) y ≡ contains (ids xs) y
unfolding sort
contains-sort [] y = refl
contains-sort (x ∷ xs) y = put x (sort assignment_leb xs) ∙ ground (arith, contains-sort xs y)
  where
    put :
        (x : TokenAssignment) (xs : List TokenAssignment)
        → contains (ids (insert assignment_leb x xs)) y ≡ contains (ids (x ∷ xs)) y
    put x [] = refl
    put x (z ∷ zs) = ground (arith, put x zs)

contains-clockwise :
    (t : ℕ) (xs : List TokenAssignment) (y : Bytes)
    → contains (ids xs) y ≡ true
    → contains (ids (clockwise t xs)) y ≡ true
unfolding clockwise
contains-clockwise t xs y h =
    contains-append (filter (λ a. leb t a.token) xs) (filter (λ a. ltb a.token t) xs) y ∙ split xs h
  where
    split :
        (xs : List TokenAssignment)
        → contains (ids xs) y ≡ true
        → (contains (ids (filter (λ a. leb t a.token) xs)) y
            || contains (ids (filter (λ a. ltb a.token t) xs)) y)
          ≡ true
    split [] h = h
    split (x ∷ xs) h = ground (arith, split xs)

-- Each member has a virtual node.
member_has_assignment :
    (h : Hashing) (seed vnodes : ℕ) (ms : List Member)
    → 0 < vnodes
    → All (λ m. contains (ids (all_assignments h seed vnodes ms)) m.node_id ≡ true) ms
unfolding all_assignments
member_has_assignment h seed vnodes [] pos = tt
member_has_assignment h seed vnodes (m ∷ ms) pos =
    let split =
      contains-append (member_assignments h seed vnodes m) (all_assignments h seed vnodes ms) in
    (
      split m.node_id ∙ ground (arith, first vnodes pos),
      All-map_of (λ x k. split x.node_id ∙ ground arith) ms
          (member_has_assignment h seed vnodes ms pos),
    )
  where
    first : (n : ℕ) → 0 < n → contains (ids (member_assignments h seed n m)) m.node_id ≡ true
    first zero h = elim h [ ]
    first (suc n) h = unfold member_assignments range in ground (arith, same_refl m.node_id)

length-take : (n : ℕ) (xs : List Bytes) → n ≤ length xs → length (take n xs) ≡ n
length-take zero xs h = refl
length-take (suc n) [] h = elim h [ ]
length-take (suc n) (x ∷ xs) h = ap suc (length-take n xs (omega arith))

-- In a validated snapshot the replicas of a token are different nodes, and as many as the
-- replication factor asks for, or all the members where they are fewer.
pub replica_node_ids-spread :
    (h : Hashing) (s : TopologySnapshot) (t : ℕ)
    → validate h s ≡ ok tt
    → (rs : List Bytes) × (replica_node_ids_for_token s t ≡ ok rs)
      × AllDifferent rs
      × (length rs ≡ least s.desired_replication_factor (length s.members))
replica_node_ids-spread h s t v =
    let accepted = validate-IsAccepted h s v in
    let ring = IsAccepted-IsRing h s accepted in
    let met = first_met [] (clockwise t s.assignments) in
    let everyone =
      All-map_of
        (λ m k. no_seen met m.node_id (
          first_met_all [] (clockwise t s.assignments) m.node_id (
            contains-clockwise t s.assignments m.node_id (
              subst (λ l. contains (ids l) m.node_id ≡ true) accepted.made
                (contains-sort _ m.node_id ∙ k)))))
        s.members
        (member_has_assignment h s.hash_seed s.virtual_nodes s.members
          accepted.buildable.membership.some_vnode) in
    let enough = pigeonhole s.members met accepted.buildable.membership.names everyone in
    (
      take n met,
      replica_node_ids-first_met s t ring.ordered ring.nonempty ring.target,
      AllDifferent-take n met (first_met_new [] (clockwise t s.assignments)).1,
      length-take n met (ground (arith, enough)),
    )
  where
    n : ℕ
    n = least s.desired_replication_factor (length s.members)

    no_seen :
        (xs : List Bytes) (y : Bytes)
        → (contains xs y || contains [] y) ≡ true
        → contains xs y ≡ true
    no_seen xs y h = ground arith
