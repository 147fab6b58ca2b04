-- ===== src/Migration/Planned.antt =====
-- What `TopologyChange::plan_with_config` of crates/hashring-core/src/migration.rs plans.
use hashring_rs.Prelude.{
  ℕ, ◌+◌, ◌*◌, ◌^◌, ◌≤◌, ◌<◌, ◌≡◌, ◌≢◌, refl, sym, ap, ◌∙◌, ◌⊎◌, inl, inr, Bytes, same, same-true,
  same-false, List, [], ◌∷◌, true, false, ◌&&◌, Bool-cases, arith, ltb, find, length, All,
  All-map_of, none, some, Result, ok, err, panic, ◌>>=◌, ◌>>◌, ok_injective, subst, fail_if,
}
use hashring_rs.Prelude.Sort.{sort, All-sort}
use hashring_rs.Topology.Types.{
  Member, TopologySnapshot, TopologyConfig, TopologyError, WriteAckPolicy, owner_only,
  first_successor, all_replicas,
}
use hashring_rs.Topology.Build.{
  Hashing, assemble, config, member_leb, members_discrete, new_with_timings, same_members, validate,
}
use hashring_rs.Topology.Members.{Distinct, id_of}
use hashring_rs.Topology.Canonical.{new_with_timings-ok}
use hashring_rs.Topology.Construction.{
  IsSnapshotOf, IsConstruction, new_with_timings-IsConstruction,
}
use hashring_rs.Topology.Accepted.{new_with_timings-validate}
use hashring_rs.Migration.Types.{
  RangeMigration, ReplicaObligation, MigrationError, TopologyChange, no_topology_change, planned,
  no_timings, max_migration_ranges, max_replica_obligations,
}
use hashring_rs.Migration.Delta.{boundaries, topology_delta}
use hashring_rs.Migration.Moves.{MovesOwner, topology_delta-moves}
use hashring_rs.Migration.Plan.{
  same_policy, same_config, moved_endpoint, keeps_endpoints, plan_with_config,
}

-- A node of the target that is no current member, or keeps the member's endpoint.
abbrev pub KeepsEndpoint : Member → Member → Type 0
KeepsEndpoint current target =
    (target.node_id ≢ current.node_id) ⊎ (target.endpoint ≡ current.endpoint)

-- What is planned for the members `ms` under `c`.
pub record IsPlan (h : Hashing) (committed : TopologySnapshot) (ms : List Member)
    (c : TopologyConfig) (change : TopologyChange) : Type 0 where
  pub word : committed.epoch + 1 < 2 ^ 64
  pub target :
      IsSnapshotOf h
        (committed.epoch + 1)
        committed.hash_seed
        committed.virtual_nodes
        c
        committed.timings
        ms
        change.target_topology
  pub endpoints :
      All (λ (m : Member). All (KeepsEndpoint m) change.target_topology.members) committed.members
  pub changed :
      (change.target_topology.members ≢ committed.members)
      ⊎ (config change.target_topology ≢ config committed)
  pub moves : (t : ℕ) → MovesOwner committed change.target_topology change.ranges t
  pub phase : change.phase ≡ planned
  pub base : change.base_topology ≡ some committed

keeps_endpoints-ok :
    (xs ms : List Member)
    → keeps_endpoints xs ms ≡ ok tt
    → All (λ (m : Member). moved_endpoint m (find (λ t. same t.node_id m.node_id) ms) ≡ false) xs
unfolding keeps_endpoints
keeps_endpoints-ok [] ms e = tt
keeps_endpoints-ok (x ∷ xs) ms e = (ground arith, keeps_endpoints-ok xs ms (ground arith))

-- Ids are distinct, so the member that is found by its id is the only one with it.
found-KeepsEndpoint :
    (m : Member) (ms : List Member)
    → Distinct id_of ms
    → moved_endpoint m (find (λ t. same t.node_id m.node_id) ms) ≡ false
    → All (KeepsEndpoint m) ms
found-KeepsEndpoint m [] d e = tt
found-KeepsEndpoint m (x ∷ xs) d e = elim (Bool-cases (same x.node_id m.node_id)) [
  | inl k ↦
      let one : x.node_id ≡ m.node_id = same-true x.node_id m.node_id k in
      (
        inr (same-true x.endpoint m.endpoint (ground (arith, e, k))),
        All-map_of (λ t n. inl (λ p. same-false t.node_id x.node_id n (p ∙ sym one))) xs d.0,
      )
  | inr k ↦
      (inl (same-false x.node_id m.node_id k), found-KeepsEndpoint m xs d.1 (ground (arith, e, k)))
]

same_policy_refl : (p : WriteAckPolicy) → same_policy p p ≡ true
same_policy_refl owner_only = refl
same_policy_refl first_successor = refl
same_policy_refl all_replicas = refl

same_config_refl : (c : TopologyConfig) → same_config c c ≡ true
same_config_refl c = ground (arith, same_policy_refl c.write_ack_policy)

same_members_refl : (ms : List Member) → same_members ms ms ≡ true
same_members_refl ms =
    elim (members_discrete ms ms) as (λ d. elim d [ yes _ ↦ true | no _ ↦ false ] ≡ true) [
      | yes e ↦ refl
      | no n ↦ absurd (n refl)
    ]

differ :
    (s t : TopologySnapshot)
    → (same_members t.members s.members && same_config (config t) (config s)) ≡ false
    → (t.members ≢ s.members) ⊎ (config t ≢ config s)
differ s t e = elim (Bool-cases (same_members t.members s.members)) [
  | inl k ↦ inr (λ p. absurd (
      ground (
        arith,
        e,
        k,
        subst (λ d. same_config (config t) d ≡ true) p (same_config_refl (config t)),
      )))
  | inr k ↦ inl (λ p. absurd (
      ground
        (arith, k, subst (λ l. same_members t.members l ≡ true) p (same_members_refl t.members))))
]

abbrev planned_change :
    Bytes
    → TopologySnapshot
    → TopologySnapshot
    → List RangeMigration × List ReplicaObligation
    → TopologyChange
planned_change id s t delta = record {
  change_id = id;
  base_epoch = s.epoch;
  base_topology = some s;
  supersedes_change_id = none;
  target_topology = t;
  phase = planned;
  ranges = delta.0;
  replica_obligations = delta.1;
  stopped_node_ids = [];
  stopping_node_ids = [];
  stop_prepared_node_ids = [];
  failed_node_id = none;
  activation_ready = false;
  direct_merge = false;
  timings = no_timings;
}

module _ (h : Hashing) (id : Bytes) (s : TopologySnapshot) (ms : List Member) (c : TopologyConfig)
    (change : TopologyChange) where
  -- What planning does once the target is built.
  abbrev rest_of : TopologySnapshot → Result MigrationError TopologyChange
  rest_of t = do
    fail_if (same_members t.members s.members && same_config (config t) (config s))
        no_topology_change
    delta ← topology_delta h s t
    ok (planned_change id s t delta)

  rest_of_parts :
      (t : TopologySnapshot)
      (d : Result MigrationError (List RangeMigration × List ReplicaObligation))
      → topology_delta h s t ≡ d
      → rest_of t ≡ ok change
      → ((same_members t.members s.members && same_config (config t) (config s)) ≡ false)
        × ((delta : List RangeMigration × List ReplicaObligation) × (topology_delta h s t
              ≡ ok delta)
            × (planned_change id s t delta ≡ change))
  rest_of_parts t (err x) at e = absurd (ground arith)
  rest_of_parts t panic at e = absurd (ground arith)
  rest_of_parts t (ok delta) at e =
      let new : (same_members t.members s.members && same_config (config t) (config s)) ≡ false =
        ground arith in
      let final : rest_of t ≡ ok (planned_change id s t delta) = rw (new, at) in
      (new, (delta, at, ok_injective _ _ (sym final ∙ e)))

  -- What planning does before.
  target_of :
      (made : Result TopologyError TopologySnapshot)
      → new_with_timings h (s.epoch + 1) s.hash_seed s.virtual_nodes ms c s.timings ≡ made
      → plan_with_config h id s ms c ≡ ok change
      → (keeps_endpoints s.members ms ≡ ok tt)
        × (s.epoch + 1 < 2 ^ 64)
        × ((t : TopologySnapshot) × (made ≡ ok t) × (rest_of t ≡ ok change))
  unfolding plan_with_config
  target_of (err x) made e = absurd (ground arith)
  target_of panic made e = absurd (ground arith)
  target_of (ok t) made e =
      let keeps : keeps_endpoints s.members ms ≡ ok tt = ground arith in
      let room : ltb (s.epoch + 1) (2 ^ 64) ≡ true = ground arith in
      (keeps, ground arith, (t, refl, sym (rw (keeps, room, made)) ∙ e))

  -- A change that `plan_with_config` plans on a validated topology, where the boundaries of the two
  -- topologies are within the limits: its target is a snapshot for the next epoch, a 64-bit number, of
  -- the members and the configuration asked for; no node that stays changes its endpoint; the target's
  -- members or configuration are others; for each token, a range of the change covers it exactly if its
  -- owner changes, and goes from the old owner to the new; and the change is in its first phase, on the
  -- committed topology.
  pub plan_with_config-IsPlan :
      validate h s ≡ ok tt
      → length (boundaries s change.target_topology) ≤ max_migration_ranges
      → length (boundaries s change.target_topology)
          * change.target_topology.desired_replication_factor
        ≤ max_replica_obligations
      → plan_with_config h id s ms c ≡ ok change
      → IsPlan h s ms c change
  unfolding assemble
  plan_with_config-IsPlan v room room' e =
      let (keeps, word, (t, made, rest)) = target_of _ refl e in
      let (new, (delta, at, built)) = rest_of_parts t _ refl rest in
      let answer =
        new_with_timings-IsConstruction h (s.epoch + 1) s.hash_seed s.virtual_nodes c s.timings
          ms in
      let (accepted, snapshot) =
        subst (IsConstruction h (s.epoch + 1) s.hash_seed s.virtual_nodes c s.timings ms) made
          answer in
      let members : sort member_leb ms ≡ t.members =
        ap (λ x. x.members) ((new_with_timings-ok h _ _ _ c s.timings ms t).0 made).1 in
      let there : t ≡ change.target_topology = ap (λ x. x.target_topology) built in
      let (rs, os, code, moves) =
        topology_delta-moves h s t v (new_with_timings-validate h _ _ _ ms c s.timings t made)
          (subst (λ x. length (boundaries s x) ≤ max_migration_ranges) (sym there) room)
          (subst
            (λ x. length (boundaries s x) * x.desired_replication_factor ≤ max_replica_obligations)
            (sym there) room') in
      let ranges : rs ≡ delta.0 = ap (λ d. d.0) (ok_injective _ _ (sym code ∙ at)) in
      subst (IsPlan h s ms c) built (record {
        word = word;
        target = snapshot;
        endpoints =
            All-map_of
              (λ m k.
                subst (λ l. All (KeepsEndpoint m) l) members
                  (All-sort member_leb (KeepsEndpoint m) ms
                    (found-KeepsEndpoint m ms accepted.membership.names k)))
              s.members (keeps_endpoints-ok s.members ms keeps);
        changed = differ s t new;
        moves = subst (λ l. (token : ℕ) → MovesOwner s t l token) ranges moves;
        phase = refl;
        base = refl;
      })
