-- ===== src/Migration/RoundTrip.antt =====
-- Reading and writing the messages of crates/hashring-core/src/topology.rs and
-- crates/hashring-core/src/migration.rs in turn.
use hashring_rs.Prelude.{
  ℕ, Result, err, panic, sym, subst, ◌≡◌, refl, ◌≢◌, Bytes, List, [], ◌∷◌, map, arith, Option, none,
  some, ok,
}
use hashring_rs.Topology.Types.{
  Member, TokenAssignment, TopologySnapshot, WriteAckPolicy, owner_only, first_successor,
  all_replicas, TopologyError,
}
use hashring_rs.Topology.Build.{Hashing, validate}
use hashring_rs.Topology.Wire.{
  ProtoSnapshot, ProtoGuard, ProtoMember, ProtoAssignment, policy_to_proto, policy_from_proto,
  guard_to_proto, guard_from_proto, member_to_proto, member_from_proto, assignment_to_proto,
  assignment_from_proto, snapshot_to_proto, snapshot_from_proto,
}
use hashring_rs.Migration.Types.{
  MigrationPhase, RangeMigration, ReplicaObligation, TopologyChange, planned, copying_snapshot,
  replaying_changelog, pausing_writes, verifying, ready_to_publish, published, cleaning_up,
  complete, aborted, resetting, aborting,
}
use hashring_rs.Migration.Wire.{
  phase_to_proto, phase_from_proto, range_to_proto, range_from_proto, timings_to_proto,
  timings_from_proto, obligation_to_proto, obligation_from_proto, text_of, text_from, base_to_proto,
  base_from_proto, change_to_proto, change_from_proto,
}

map_back {ℓ κ} :
    {A : Type ℓ} {B : Type κ} (f : A → B) (g : B → A) (back : (a : A) → g (f a) ≡ a) (xs : List A)
    → map g (map f xs) ≡ xs
map_back f g back [] = refl
map_back f g back (x ∷ xs) = rw (back x, map_back f g back xs)

members_back : (ms : List Member) → map member_from_proto (map member_to_proto ms) ≡ ms
unfolding member_from_proto member_to_proto
members_back = map_back member_to_proto member_from_proto (λ m. refl)

assignments_back :
    (a : List TokenAssignment) → map assignment_from_proto (map assignment_to_proto a) ≡ a
unfolding assignment_from_proto assignment_to_proto
assignments_back = map_back assignment_to_proto assignment_from_proto (λ m. refl)

ranges_back : (rs : List RangeMigration) → map range_from_proto (map range_to_proto rs) ≡ rs
unfolding range_from_proto range_to_proto
ranges_back = map_back range_to_proto range_from_proto (λ m. refl)

obligations_back :
    (os : List ReplicaObligation) → map obligation_from_proto (map obligation_to_proto os) ≡ os
unfolding obligation_from_proto obligation_to_proto
obligations_back = map_back obligation_to_proto obligation_from_proto (λ m. refl)

policy_back : (p : WriteAckPolicy) → policy_from_proto (policy_to_proto p) ≡ ok p
unfolding policy_from_proto policy_to_proto
policy_back owner_only = refl
policy_back first_successor = refl
policy_back all_replicas = refl

phase_back : (p : MigrationPhase) → phase_from_proto (phase_to_proto p) ≡ ok p
unfolding phase_from_proto phase_to_proto
phase_back planned = refl
phase_back resetting = refl
phase_back copying_snapshot = refl
phase_back replaying_changelog = refl
phase_back pausing_writes = refl
phase_back verifying = refl
phase_back ready_to_publish = refl
phase_back published = refl
phase_back cleaning_up = refl
phase_back complete = refl
phase_back aborting = refl
phase_back aborted = refl

-- A validated snapshot is read back from its message as it was.
pub snapshot_from_proto-to_proto :
    (h : Hashing) (s : TopologySnapshot)
    → validate h s ≡ ok tt
    → snapshot_from_proto h (snapshot_to_proto s) ≡ ok s
unfolding snapshot_from_proto snapshot_to_proto guard_from_proto guard_to_proto
snapshot_from_proto-to_proto h s v =
    rw (policy_back s.write_ack_policy, members_back s.members, assignments_back s.assignments, v)

members_forth : (ms : List ProtoMember) → map member_to_proto (map member_from_proto ms) ≡ ms
unfolding member_from_proto member_to_proto
members_forth = map_back member_from_proto member_to_proto (λ m. refl)

assignments_forth :
    (a : List ProtoAssignment) → map assignment_to_proto (map assignment_from_proto a) ≡ a
unfolding assignment_from_proto assignment_to_proto
assignments_forth = map_back assignment_from_proto assignment_to_proto (λ m. refl)

policy_forth : (n : ℕ) (q : WriteAckPolicy) → policy_from_proto n ≡ ok q → policy_to_proto q ≡ n
unfolding policy_from_proto policy_to_proto
policy_forth n owner_only e = ground (arith, e)
policy_forth n first_successor e = ground (arith, e)
policy_forth n all_replicas e = ground (arith, e)

-- What a message is read as, with its policy and its guard.
abbrev read_as : ProtoSnapshot → WriteAckPolicy → ProtoGuard → TopologySnapshot
read_as p q g = record {
  epoch = p.epoch;
  hash_seed = p.hash_seed;
  hash_algorithm = p.hash_algorithm;
  encoding_version = p.encoding_version;
  virtual_nodes = p.virtual_nodes;
  desired_replication_factor = p.desired_replication_factor;
  write_ack_policy = q;
  write_availability_guard = guard_from_proto g;
  timings = record {
    receipt_retention_millis = p.receipt_retention_millis;
    lease_duration_millis = p.lease_duration_millis;
  };
  members = map member_from_proto p.members;
  assignments = map assignment_from_proto p.assignments;
  digest = p.digest;
}

read_back :
    (p : ProtoSnapshot) (q : WriteAckPolicy) (g : ProtoGuard)
    → policy_from_proto p.write_ack_policy ≡ ok q
    → p.write_availability_guard ≡ some g
    → snapshot_to_proto (read_as p q g) ≡ p
unfolding snapshot_to_proto guard_from_proto guard_to_proto
read_back p q g policy guard =
    rw
      (
        policy_forth p.write_ack_policy q policy,
        members_forth p.members,
        assignments_forth p.assignments,
        sym guard,
      )
      refl

-- A message that is read as a snapshot is the one that is written for it, and the snapshot is a
-- validated one: no two messages are read as the same snapshot.
pub snapshot_to_proto-from_proto :
    (h : Hashing) (p : ProtoSnapshot) (s : TopologySnapshot)
    → snapshot_from_proto h p ≡ ok s
    → (snapshot_to_proto s ≡ p) × (validate h s ≡ ok tt)
unfolding snapshot_from_proto
snapshot_to_proto-from_proto h p s e =
    go (policy_from_proto p.write_ack_policy) p.write_availability_guard refl refl
  where
    go :
        (r : Result TopologyError WriteAckPolicy) (o : Option ProtoGuard)
        → policy_from_proto p.write_ack_policy ≡ r
        → p.write_availability_guard ≡ o
        → (snapshot_to_proto s ≡ p) × (validate h s ≡ ok tt)
    go (err x) o policy guard = absurd (ground (arith, e, policy))
    go panic o policy guard = absurd (ground (arith, e, policy))
    go (ok q) none policy guard = absurd (ground (arith, e, policy, guard))
    go (ok q) (some g) policy guard =
        let made : read_as p q g ≡ s = ground (arith, e, policy, guard) in
        (
          subst (λ z. snapshot_to_proto z ≡ p) made (read_back p q g policy guard),
          ground (arith, e),
        )

-- What a change keeps on the wire: its snapshots are validated, and the ids that it may name are not
-- empty, since an empty text stands for none.
pub record IsSendable (h : Hashing) (c : TopologyChange) : Type 0 where
  pub target : validate h c.target_topology ≡ ok tt
  pub base : (s : TopologySnapshot) → c.base_topology ≡ some s → validate h s ≡ ok tt
  pub superseded : c.supersedes_change_id ≢ some []
  pub failed : c.failed_node_id ≢ some []

text_back : (t : Option Bytes) → t ≢ some [] → text_from (text_of t) ≡ t
text_back none h = refl
text_back (some []) h = absurd (h refl)
text_back (some (x ∷ xs)) h = refl

base_back :
    (h : Hashing) (b : Option TopologySnapshot)
    → ((s : TopologySnapshot) → b ≡ some s → validate h s ≡ ok tt)
    → base_from_proto h (base_to_proto b) ≡ ok b
base_back h none v = refl
base_back h (some s) v = rw (snapshot_from_proto-to_proto h s (v s refl))

-- A change whose snapshots are validated, and whose optional ids are not the empty text, is read
-- back from its message as it was.
pub change_from_proto-to_proto :
    (h : Hashing) (c : TopologyChange)
    → IsSendable h c
    → change_from_proto h (change_to_proto c) ≡ ok c
unfolding change_from_proto change_to_proto timings_from_proto timings_to_proto
change_from_proto-to_proto h c sendable = rw (
  base_back h c.base_topology sendable.base,
  snapshot_from_proto-to_proto h c.target_topology sendable.target,
  phase_back c.phase,
  text_back c.supersedes_change_id sendable.superseded,
  text_back c.failed_node_id sendable.failed,
  ranges_back c.ranges,
  obligations_back c.replica_obligations,
)
