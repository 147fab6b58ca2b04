-- ===== src/Migration/Found.antt =====
-- The loop of `topology_delta` in crates/hashring-core/src/migration.rs between two snapshots that
-- serve every token: what it has found when it has gone through the boundaries.
use mathlib.Core.List.{append-nil}
use hashring_rs.Interval.{interval_contains}
use hashring_rs.Prelude.{
  ℕ, ◌+◌, ◌*◌, ◌≤◌, ◌<◌, ◌≡◌, sym, ap, ◌∙◌, ◌⊎◌, inl, inr, Bytes, same, same-true, List, [], ◌∷◌,
  ◌++◌, true, false, arith, ◌==◌, length, All, any, Bool-cases, subst, ok,
}
use hashring_rs.Topology.Types.{Member, TopologySnapshot}
use hashring_rs.Topology.Build.{Hashing}
use hashring_rs.Topology.Lookup.{owner_for_token, replica_node_ids_for_token}
use hashring_rs.Topology.Ranges.{replicas_eq}
use hashring_rs.Migration.Types.{
  RangeMigration, ReplicaObligation, max_migration_ranges, max_replica_obligations,
}
use hashring_rs.Migration.Delta.{add_obligations, range_id, add_range, delta_from}
use hashring_rs.Migration.Steps.{Steps, SameWalk, InSteps}
use hashring_rs.Migration.Serving.{
  Owns, Serves, covers, append-one, length-snoc, add_obligations-ok,
}

module _ (h : Hashing) (s s' : TopologySnapshot) where
  abbrev moved : ℕ → ℕ → Member → Member → RangeMigration
  moved p e m m' = record {
    range_id = range_id h p e m.node_id m'.node_id;
    start_exclusive = p;
    end_inclusive = e;
    source_node_id = m.node_id;
    destination_node_id = m'.node_id;
    source_endpoint = m.endpoint;
    destination_endpoint = m'.endpoint;
    source_process_instance_id = [];
    destination_process_instance_id = [];
    source_cleaned = false;
    snapshot_records = 0;
    changelog_watermark = 0;
    changelog_replay_ms = 0;
    verified = false;
  }

  add_range-same :
      (p e : ℕ) (m m' : Member) (ranges : List RangeMigration)
      → same m.node_id m'.node_id ≡ true
      → add_range h s s' p e m.node_id m'.node_id ranges ≡ ok ranges
  unfolding add_range
  add_range-same p e m m' ranges k = rw k

  add_range-moved :
      (p e : ℕ) (m m' : Member) (ranges : List RangeMigration)
      → same m.node_id m'.node_id ≡ false
      → length ranges < max_migration_ranges
      → owner_for_token s e ≡ ok m
      → owner_for_token s' e ≡ ok m'
      → add_range h s s' p e m.node_id m'.node_id ranges ≡ ok (ranges ++ moved p e m m' ∷ [])
  unfolding add_range
  add_range-moved p e m m' ranges k room from to =
      let left : (length ranges == max_migration_ranges) ≡ false = ground arith in
      rw (k, left, from, to)

  delta_from-cons :
      (p e : ℕ) (es : List ℕ) (x y : Bytes) (xs ys : List Bytes) (ranges rs : List RangeMigration)
      (obs os : List ReplicaObligation)
      → replica_node_ids_for_token s e ≡ ok (x ∷ xs)
      → replica_node_ids_for_token s' e ≡ ok (y ∷ ys)
      → add_range h s s' p e x y ranges ≡ ok rs
      → add_obligations p e x (x ∷ xs) ys obs ≡ ok os
      → delta_from h s s' p (e ∷ es) ranges obs ≡ delta_from h s s' e es rs os
  unfolding delta_from
  delta_from-cons p e es x y xs ys ranges rs obs os from to adds owes = rw (from, to, adds, owes)

  -- The owner changes in all of the range, from its source to its destination.
  unfoldable pub Sound : RangeMigration → Type 0
  Sound r =
      (t : ℕ)
      → covers r t ≡ true
      → Owns s t r.source_node_id
        × Owns s' t r.destination_node_id
        × (same r.source_node_id r.destination_node_id ≡ false)

  unfoldable pub Settled : List RangeMigration → ℕ → Type 0
  Settled new t = (any (λ r. covers r t) new ≡ true) ⊎ ((x : Bytes) × Owns s t x × Owns s' t x)

  unfoldable pub Found : ℕ → List ℕ → List RangeMigration → List ReplicaObligation → Type 0
  Found p es ranges obs =
      (new : List RangeMigration) × (os : List ReplicaObligation) × (delta_from h s s' p es ranges
          obs
        ≡ ok (ranges ++ new, os))
      × All Sound new
      × ((t : ℕ) → InSteps p es t → Settled new t)

  module _ (serves : Serves s) (serves' : Serves s') where
    abbrev HasRoom : List ℕ → List RangeMigration → List ReplicaObligation → Type 0
    HasRoom es ranges obs =
        (length ranges + length es ≤ max_migration_ranges)
        × (length obs + length es * s'.desired_replication_factor ≤ max_replica_obligations)

    -- One pass of the loop, before passes that find what they should.
    delta_from-step :
        (p e : ℕ) (es : List ℕ) (ranges : List RangeMigration) (obs : List ReplicaObligation)
        → SameWalk p e s.assignments
        → SameWalk p e s'.assignments
        → HasRoom (e ∷ es) ranges obs
        → ((rs : List RangeMigration) (os : List ReplicaObligation)
            → HasRoom es rs os
            → Found e es rs os)
        → Found p (e ∷ es) ranges obs
    unfolding Found Settled Sound
    delta_from-step p e es ranges obs walk walk' (room, room') next =
        step (serves.owner e) (serves'.owner e)
      where
        step :
            ((m : Member) × (fs : List Bytes) × (owner_for_token s e ≡ ok m)
              × (replica_node_ids_for_token s e ≡ ok (m.node_id ∷ fs))
              × (length fs ≤ s.desired_replication_factor))
            → ((m : Member) × (fs : List Bytes) × (owner_for_token s' e ≡ ok m)
                × (replica_node_ids_for_token s' e ≡ ok (m.node_id ∷ fs))
                × (length fs ≤ s'.desired_replication_factor))
            → Found p (e ∷ es) ranges obs
        step (m, fs, from, old, _) (m', fs', to, new, few) =
            owed (add_obligations-ok p e m.node_id (m.node_id ∷ fs) fs' obs (omega arith))
          where
            owns : (t : ℕ) → interval_contains p e t ≡ true → Owns s t m.node_id
            owns t k = (fs, replicas_eq s t e serves.ring (walk t k) ∙ old)

            owns' : (t : ℕ) → interval_contains p e t ≡ true → Owns s' t m'.node_id
            owns' t k = (fs', replicas_eq s' t e serves'.ring (walk' t k) ∙ new)

            stays :
                (os : List ReplicaObligation)
                → add_obligations p e m.node_id (m.node_id ∷ fs) fs' obs ≡ ok os
                → same m.node_id m'.node_id ≡ true
                → Found e es ranges os
                → Found p (e ∷ es) ranges obs
            stays os owes one (more, os', code, sound, settled) = (
              more,
              os',
              delta_from-cons p e es m.node_id m'.node_id fs fs' ranges ranges obs os old new
                    (add_range-same p e m m' ranges one) owes
                  ∙ code,
              sound,
              λ t k. elim k [
                | inl here ↦ inr (
                  m.node_id,
                  owns t here,
                  subst (Owns s' t) (sym (same-true m.node_id m'.node_id one)) (owns' t here),
                )
                | inr later ↦ settled t later
              ],
            )

            moves :
                (os : List ReplicaObligation)
                → add_obligations p e m.node_id (m.node_id ∷ fs) fs' obs ≡ ok os
                → same m.node_id m'.node_id ≡ false
                → Found e es (ranges ++ moved p e m m' ∷ []) os
                → Found p (e ∷ es) ranges obs
            moves os owes two (more, os', code, sound, settled) = (
              moved p e m m' ∷ more,
              os',
              delta_from-cons p e es m.node_id m'.node_id fs fs' ranges
                    (ranges ++ moved p e m m' ∷ []) obs os old new
                    (add_range-moved p e m m' ranges two (omega arith) from to) owes
                  ∙ code
                  ∙ ap (λ l. ok (l, os')) (append-one ranges (moved p e m m') more),
              ((λ t k. (owns t k, owns' t k, two)), sound),
              λ t k. elim k [
                | inl here ↦ inl (rw here)
                | inr later ↦ elim (settled t later) [
                  | inl has ↦ inl (ground arith)
                  | inr kept ↦ inr kept
                ]
              ],
            )

            owed :
                ((os : List ReplicaObligation) × (add_obligations p e m.node_id
                      (m.node_id ∷ fs)
                      fs'
                      obs
                    ≡ ok os)
                  × (length os ≤ length obs + length fs'))
                → Found p (e ∷ es) ranges obs
            owed (os, owes, len) =
                let left : length os + length es * s'.desired_replication_factor
                    ≤ max_replica_obligations =
                  omega arith in
                elim (Bool-cases (same m.node_id m'.node_id)) [
                  | inl one ↦ stays os owes one (next ranges os (omega arith, left))
                  | inr two ↦ moves os owes two (
                      next (ranges ++ moved p e m m' ∷ []) os
                        (omega (arith, length-snoc ranges (moved p e m m')), left))
                ]

    -- The loop, from a boundary on, with the room that it needs.
    pub delta_from-Found :
        (p : ℕ) (es : List ℕ) (ranges : List RangeMigration) (obs : List ReplicaObligation)
        → Steps p es s.assignments
        → Steps p es s'.assignments
        → HasRoom es ranges obs
        → Found p es ranges obs
    unfolding delta_from Found
    delta_from-Found p [] ranges obs walk walk' room =
        ([], obs, ap (λ l. ok (l, obs)) (sym (append-nil ranges)), tt, λ t k. elim k [ ])
    delta_from-Found p (e ∷ es) ranges obs walk walk' room =
        delta_from-step p e es ranges obs walk.0 walk'.0 room
          (λ rs os left. delta_from-Found e es rs os walk.1 walk'.1 left)
