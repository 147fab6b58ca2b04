-- ===== src/Topology/Members.antt =====
-- What `validate_members` of crates/hashring-core/src/topology.rs accepts, and that the order of
-- the members does not matter to it.
use hashring_rs.Prelude.{
  ℕ, ◌≤◌, ◌<◌, ◌*◌, ◌≡◌, refl, ◌∙◌, ◌↔◌, Bytes, same, List, [], ◌∷◌, Bool, true, false, arith, ltb,
  length, is_empty, All, All-map_of, All-zip_with, if◌then◌else◌, ok,
}
use hashring_rs.Prelude.Sort.{insert, sort, All-insert, All-sort, length-sort}
use hashring_rs.Topology.Types.{
  Member, max_node_id_bytes, max_endpoint_bytes, max_members, max_virtual_nodes,
  max_token_assignments,
}
use hashring_rs.Topology.Validate.{contains, validate_each, validate_members}

abbrev pub id_of : Member → Bytes
id_of m = m.node_id

abbrev pub endpoint_of : Member → Bytes
endpoint_of m = m.endpoint

-- A member that the loop accepts after the ids and endpoints that it has seen.
abbrev pub Fits : List Bytes → List Bytes → Member → Type 0
Fits ids endpoints m =
    (is_empty m.node_id ≡ false)
    × (ltb max_node_id_bytes (length m.node_id) ≡ false)
    × (is_empty m.endpoint ≡ false)
    × (ltb max_endpoint_bytes (length m.endpoint) ≡ false)
    × (contains ids m.node_id ≡ false)
    × (contains endpoints m.endpoint ≡ false)

-- No two members have the same text under `f`.
abbrev pub Distinct : (Member → Bytes) → List Member → Type 0
Distinct f [] = Unit
Distinct f (m ∷ ms) = All (λ x. same (f x) (f m) ≡ false) ms × Distinct f ms

same_comm : (a b : Bytes) → same a b ≡ same b a
same_comm a b = ground arith

pub Distinct-sort :
    (le : Member → Member → Bool) (f : Member → Bytes) (ms : List Member)
    → Distinct f ms
    → Distinct f (sort le ms)
unfolding sort
Distinct-sort le f [] h = tt
Distinct-sort le f (m ∷ ms) h =
    Distinct-insert m (sort le ms) (All-sort le (λ x. same (f x) (f m) ≡ false) ms h.0)
      (Distinct-sort le f ms h.1)
  where
    Distinct-insert :
        (m : Member) (ms : List Member)
        → All (λ x. same (f x) (f m) ≡ false) ms
        → Distinct f ms
        → Distinct f (insert le m ms)
    Distinct-insert m [] h k = (tt, tt)
    Distinct-insert m (x ∷ xs) h k =
        elim (le m x) as (λ b. Distinct f (if b then m ∷ x ∷ xs else x ∷ insert le m xs)) [
          | true ↦ (h, k)
          | false ↦ (
            All-insert le (λ y. same (f y) (f x) ≡ false) m xs (same_comm (f m) (f x) ∙ h.0) k.0,
            Distinct-insert m xs h.1 k.1,
          )
        ]

pub validate_each_sound :
    (ids endpoints : List Bytes) (ms : List Member)
    → validate_each ids endpoints ms ≡ ok tt
    → All (Fits ids endpoints) ms × Distinct id_of ms × Distinct endpoint_of ms
unfolding validate_each
validate_each_sound ids endpoints [] h = (tt, tt, tt)
validate_each_sound ids endpoints (m ∷ ms) h =
    let head : Fits ids endpoints m
        × (validate_each (m.node_id ∷ ids) (m.endpoint ∷ endpoints) ms ≡ ok tt) =
      ground arith in
    let (fits, names, ends) =
      validate_each_sound (m.node_id ∷ ids) (m.endpoint ∷ endpoints) ms head.1 in
    (
      (head.0, All-map_of (λ x k. ground arith) ms fits),
      (All-map_of (λ x k. ground arith) ms fits, names),
      (All-map_of (λ x k. ground arith) ms fits, ends),
    )

pub validate_each_complete :
    (ids endpoints : List Bytes) (ms : List Member)
    → All (Fits ids endpoints) ms
    → Distinct id_of ms
    → Distinct endpoint_of ms
    → validate_each ids endpoints ms ≡ ok tt
unfolding validate_each
validate_each_complete ids endpoints [] fits names ends = refl
validate_each_complete ids endpoints (m ∷ ms) fits names ends =
    let new : All
        (λ (x : Member). (same x.node_id m.node_id ≡ false) × (same x.endpoint m.endpoint ≡ false))
        ms =
      All-zip_with (λ x a b. (a, b)) ms names.0 ends.0 in
    let rest =
      validate_each_complete (m.node_id ∷ ids) (m.endpoint ∷ endpoints) ms
        (All-zip_with (λ x a b. ground arith) ms fits.1 new) names.1 ends.1 in
    ground arith

pub record IsMembership (ms : List Member) (virtual_nodes : ℕ) : Type 0 where
  pub some_member : 0 < length ms
  pub some_vnode : 0 < virtual_nodes
  pub few_members : length ms ≤ max_members
  pub few_vnodes : virtual_nodes ≤ max_virtual_nodes
  pub few_assignments : length ms * virtual_nodes ≤ max_token_assignments
  pub fits : All (Fits [] []) ms
  pub names : Distinct id_of ms
  pub endpoints : Distinct endpoint_of ms

length-pos : (ms : List Member) → is_empty ms ≡ false → 0 < length ms
length-pos [] h = absurd (ground arith)
length-pos (m ∷ ms) h = omega arith

length-pos' : (ms : List Member) → 0 < length ms → is_empty ms ≡ false
length-pos' [] h = elim h [ ]
length-pos' (m ∷ ms) h = refl

-- `validate_members` accepts exactly the memberships within the limits, without a repeated node id
-- or endpoint.
pub validate_members_iff :
    (ms : List Member) (virtual_nodes : ℕ)
    → (validate_members ms virtual_nodes ≡ ok tt) ↔ IsMembership ms virtual_nodes
unfolding validate_members
validate_members_iff ms vn = (sound, complete)
  where
    sound : validate_members ms vn ≡ ok tt → IsMembership ms vn
    sound h =
        let parts : (is_empty ms ≡ false)
            × (0 < vn)
            × (length ms ≤ max_members)
            × (vn ≤ max_virtual_nodes)
            × (length ms * vn ≤ max_token_assignments)
            × (validate_each [] [] ms ≡ ok tt) =
          ground arith in
        let (fits, names, ends) = validate_each_sound [] [] ms parts.5 in
        record {
          some_member = length-pos ms parts.0;
          some_vnode = parts.1;
          few_members = parts.2;
          few_vnodes = parts.3;
          few_assignments = parts.4;
          fits = fits;
          names = names;
          endpoints = ends;
        }

    complete : IsMembership ms vn → validate_members ms vn ≡ ok tt
    complete v = ground (
      arith,
      length-pos' ms v.some_member,
      validate_each_complete [] [] ms v.fits v.names v.endpoints,
    )

pub IsMembership-sort :
    (le : Member → Member → Bool) (ms : List Member) (virtual_nodes : ℕ)
    → IsMembership ms virtual_nodes
    → IsMembership (sort le ms) virtual_nodes
IsMembership-sort le ms vn v =
    let n = length-sort le ms in
    record {
      some_member = omega (arith, n);
      some_vnode = v.some_vnode;
      few_members = omega (arith, n);
      few_vnodes = v.few_vnodes;
      few_assignments = rw n v.few_assignments;
      fits = All-sort le (Fits [] []) ms v.fits;
      names = Distinct-sort le id_of ms v.names;
      endpoints = Distinct-sort le endpoint_of ms v.endpoints;
    }
