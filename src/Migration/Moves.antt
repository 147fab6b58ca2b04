-- ===== src/Migration/Moves.antt =====
-- What `topology_delta` of crates/hashring-core/src/migration.rs finds between two validated
-- topologies: the tokens whose owner changes lie in the moving ranges, and no others do.
use mathlib.Core.Bool.{false≢true}
use hashring_rs.Prelude.{
  ℕ, ◌+◌, ◌*◌, ◌≤◌, ◌≡◌, sym, ap, ◌∙◌, inl, inr, Bytes, same, same_refl, not, some, All-map_of,
  List, [], ◌∷◌, true, false, arith, length, All, any, Bool-cases, subst, ok, ok_injective, last?,
}
use hashring_rs.Topology.Types.{Member, TopologySnapshot}
use hashring_rs.Topology.Build.{Hashing, validate}
use hashring_rs.Topology.Lookup.{owner_for_token, replica_node_ids_for_token}
use hashring_rs.Topology.Boundaries.{last_of}
use hashring_rs.Migration.Types.{
  RangeMigration, ReplicaObligation, max_migration_ranges, max_replica_obligations,
}
use hashring_rs.Migration.Delta.{boundaries, delta_from, topology_delta}
use hashring_rs.Migration.Steps.{Steps, InSteps, boundaries-Steps}
use hashring_rs.Migration.Found.{Sound, Settled, Found, delta_from-Found}
use hashring_rs.Migration.Serving.{Owns, Serves, validate-Serves, covers}

-- A moving range that covers the token, if the test finds one, names two owners of it.
covered :
    (h : Hashing) (s s' : TopologySnapshot) (rs : List RangeMigration) (t : ℕ)
    → All (Sound h s s') rs
    → any (λ r. covers r t) rs ≡ true
    → (x y : Bytes) × Owns s t x × Owns s' t y × (same x y ≡ false)
unfolding Sound
covered h s s' [] t sound k = absurd (false≢true k)
covered h s s' (r ∷ rs) t sound k = elim (Bool-cases (covers r t)) [
  | inl here ↦
      let (a, b, differ) = sound.0 t here in (r.source_node_id, r.destination_node_id, a, b, differ)
  | inr past ↦ covered h s s' rs t sound.1 (ground arith)
]

Owns-one : (s : TopologySnapshot) (t : ℕ) (x y : Bytes) → Owns s t x → Owns s t y → x ≡ y
Owns-one s t x y (fs, k) (gs, l) = first (ok_injective (x ∷ fs) (y ∷ gs) (sym k ∙ l))
  where
    first : x ∷ fs ≡ y ∷ gs → x ≡ y
    first e = ground arith

-- The owners of a token, and what the moving ranges say of them.
abbrev pub MovesOwner : TopologySnapshot → TopologySnapshot → List RangeMigration → ℕ → Type 0
MovesOwner s s' rs t =
    (m m' : Member) × (owner_for_token s t ≡ ok m)
    × (owner_for_token s' t ≡ ok m')
    × (any (λ r. covers r t) rs ≡ not (same m.node_id m'.node_id))
    × All
        (λ r.
          covers r t ≡ true → (r.source_node_id ≡ m.node_id) × (r.destination_node_id ≡ m'.node_id))
        rs

Settled-owner :
    (h : Hashing) (s s' : TopologySnapshot) (rs : List RangeMigration) (t : ℕ)
    → Serves s
    → Serves s'
    → All (Sound h s s') rs
    → Settled h s s' rs t
    → MovesOwner s s' rs t
unfolding Settled Sound
Settled-owner h s s' rs t serves serves' sound settled = go (serves.owner t) (serves'.owner t)
  where
    go :
        ((m : Member) × (fs : List Bytes) × (owner_for_token s t ≡ ok m)
          × (replica_node_ids_for_token s t ≡ ok (m.node_id ∷ fs))
          × (length fs ≤ s.desired_replication_factor))
        → ((m : Member) × (fs : List Bytes) × (owner_for_token s' t ≡ ok m)
            × (replica_node_ids_for_token s' t ≡ ok (m.node_id ∷ fs))
            × (length fs ≤ s'.desired_replication_factor))
        → MovesOwner s s' rs t
    go (m, fs, from, old, _) (m', fs', to, new, _) =
        (m, m', from, to, agrees, All-map_of names rs sound)
      where
        names :
            (r : RangeMigration)
            → Sound h s s' r
            → covers r t ≡ true
            → (r.source_node_id ≡ m.node_id) × (r.destination_node_id ≡ m'.node_id)
        names r k here =
            let (a, b, _) = k t here in
            (Owns-one s t _ _ a (fs, old), Owns-one s' t _ _ b (fs', new))

        agrees : any (λ r. covers r t) rs ≡ not (same m.node_id m'.node_id)
        agrees = elim (Bool-cases (any (λ r. covers r t) rs)) [
          | inl has ↦
              let (x, y, a, b, differ) = covered h s s' rs t sound has in
              let e = Owns-one s t x m.node_id a (fs, old) in
              let e' = Owns-one s' t y m'.node_id b (fs', new) in
              has
              ∙ ap not (sym differ)
              ∙ ap (λ z. not (same z y)) e
              ∙ ap (λ z. not (same m.node_id z)) e'
          | inr none ↦ elim settled [
            | inl has ↦ absurd (false≢true (sym none ∙ has))
            | inr kept ↦
                let e = Owns-one s t kept.0 m.node_id kept.1 (fs, old) in
                let e' = Owns-one s' t kept.0 m'.node_id kept.2 (fs', new) in
                none ∙ sym (rw (← e, ← e', same_refl kept.0))
          ]
        ]

topology_delta-from :
    (h : Hashing) (s s' : TopologySnapshot) (l : List ℕ) (p : ℕ)
    → boundaries s s' ≡ l
    → last? (boundaries s s') ≡ some p
    → topology_delta h s s' ≡ delta_from h s s' p l [] []
unfolding topology_delta
topology_delta-from h s s' l p e at = rw (at, e)

-- Between two validated snapshots with no more boundaries than the limits leave room for,
-- `topology_delta` succeeds. For each token, one of its moving ranges covers the token exactly if
-- the two topologies give the token different owners, and each moving range that covers it goes from
-- its old owner to its new one.
pub topology_delta-moves :
    (h : Hashing) (s s' : TopologySnapshot)
    → validate h s ≡ ok tt
    → validate h s' ≡ ok tt
    → length (boundaries s s') ≤ max_migration_ranges
    → length (boundaries s s') * s'.desired_replication_factor ≤ max_replica_obligations
    → (rs : List RangeMigration) × (os : List ReplicaObligation) × (topology_delta h s s'
        ≡ ok (rs, os))
      × ((t : ℕ) → MovesOwner s s' rs t)
unfolding topology_delta Found
topology_delta-moves h s s' v v' room room' = go (boundaries-Steps s s' serves.ring.nonempty)
  where
    serves : Serves s
    serves = validate-Serves h s v

    serves' : Serves s'
    serves' = validate-Serves h s' v'

    go :
        ((b : ℕ) × (bs : List ℕ) × (boundaries s s' ≡ b ∷ bs)
          × (last? (boundaries s s') ≡ some (last_of b bs))
          × Steps (last_of b bs) (b ∷ bs) s.assignments
          × Steps (last_of b bs) (b ∷ bs) s'.assignments
          × ((t : ℕ) → InSteps (last_of b bs) (b ∷ bs) t))
        → (rs : List RangeMigration) × (os : List ReplicaObligation) × (topology_delta h s s'
            ≡ ok (rs, os))
          × ((t : ℕ) → MovesOwner s s' rs t)
    go (b, bs, e, at, walk, walk', every) =
        let count : length (boundaries s s') ≡ length (b ∷ bs) = ap length e in
        let (rs, os, code, sound, settled) =
          delta_from-Found h s s' serves serves' (last_of b bs) (b ∷ bs) [] [] walk walk' (
            omega (arith, count),
            subst (λ n. 0 + n * s'.desired_replication_factor ≤ max_replica_obligations) count
                (omega arith),
          ) in
        (
          rs,
          os,
          topology_delta-from h s s' (b ∷ bs) (last_of b bs) e at ∙ code,
          λ t. Settled-owner h s s' rs t serves serves' sound (settled t (every t)),
        )
