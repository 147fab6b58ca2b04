-- ===== src/Node/Store/Reachable.antt =====
-- Every state that the operations on records of crates/hashring-node/src/lib.rs and the sweep of
-- crates/hashring-node/src/expiry.rs lead to, one after another, has its indices in step with its
-- records.
use Prim.Native.Nat.{ℕ, zero, suc}
use hashring_rs.Prelude.{
  ◌-◌, ◌≡◌, refl, ap, inl, inr, Bytes, same, [], ◌∷◌, true, ◌&&◌, ◌==◌, leb, Bool-cases, arith,
  Option, none, some,
}
use hashring_rs.Topology.Types.{TopologySnapshot}
use hashring_rs.Topology.Build.{Hashing}
use hashring_rs.Node.Versions.{Record}
use hashring_rs.Node.Store.{
  find_entry, Deadlines, has, unschedule, RangeSpec, Sources, NodeState, token_of, deadline_of,
  insert_record, apply_record, take_record, remove_record_at, set_topology,
}
use hashring_rs.Node.Store.Sweep.{defer, expire, expire_first, sweep_first, sweep_expired_records}
use hashring_rs.Node.Store.Migrating.{remove_source, prepare_source_range}
use hashring_rs.Node.Store.Entries.{has-unschedule, bit}
use hashring_rs.Node.Store.Mirrored.{times_scheduled, is_at, IsMirrored, insert_record-IsMirrored}
use hashring_rs.Node.Store.Kept.{
  take_record-IsMirrored, remove_record_at-IsMirrored, apply_record-IsMirrored,
  set_topology-IsMirrored,
}
use hashring_rs.Node.Store.Sources.{
  IfSome, Adds, remove_source-IsMirrored, prepare_source_range-IsMirrored, defer-Adds,
}

-- The state of a pass of the sweep, between taking an entry out and expiring it.
abbrev pub taken_out : NodeState → ℕ → Bytes → NodeState
taken_out state d key = record state {
  record_expirations = unschedule state.record_expirations d key;
}

times_scheduled-taken_out :
    (state : NodeState) (d : ℕ) (key : Bytes) (d' : ℕ) (k : Bytes)
    → has state.record_expirations d key ≡ true
    → times_scheduled (taken_out state d key) d' k
      ≡ times_scheduled state d' k - bit (d == d' && same key k)
times_scheduled-taken_out state d key d' k e =
    ground (arith, has-unschedule state.record_expirations d key d' k)

expire_found :
    (h : Hashing) (state : NodeState) (d : ℕ) (key : Bytes) (o : Option Record)
    → IsMirrored h state
    → has state.record_expirations d key ≡ true
    → find_entry state.records key ≡ o
    → IsMirrored h (take_record h (taken_out state d key) (token_of h state key) key o).0
expire_found h state d key none m e f =
    absurd (ground (arith, m.1 d key, ap (λ o. bit (is_at (deadline_of o) d)) f))
expire_found h state d key (some removed) m e f =
    take_record-IsMirrored h (taken_out state d key) key removed m.0
      (λ d'. ground (
        arith,
        times_scheduled-taken_out state d key d' key e,
        m.1 d' key,
        ap (λ o. bit (is_at (deadline_of o) d')) f,
      ))
      (λ d' k n. ground (arith, times_scheduled-taken_out state d key d' k e, m.1 d' k))

expire-IsMirrored :
    (h : Hashing) (state : NodeState) (d : ℕ) (key : Bytes) (o : Option Sources)
    → IsMirrored h state
    → has state.record_expirations d key ≡ true
    → IfSome (Adds state.sources d key) o
    → IsMirrored h (expire h (taken_out state d key) key o).0
expire-IsMirrored h state d key none m e a =
    unfold remove_record_at in expire_found h state d key (find_entry state.records key) m e refl
expire-IsMirrored h state d key (some sources) m e a = (
  m.0,
  λ d' k. ground (arith, a d' k, m.1 d' k, has-unschedule state.record_expirations d key d' k),
)

pub expire_first-IsMirrored :
    (h : Hashing) (state : NodeState) (d : ℕ) (key : Bytes)
    → IsMirrored h state
    → has state.record_expirations d key ≡ true
    → IsMirrored h (expire_first h state d key).0
unfolding expire_first
expire_first-IsMirrored h state d key m e =
    expire-IsMirrored h state d key (defer h state.sources (token_of h state key) d key) m e
      (defer-Adds h state.sources (token_of h state key) d key (ground (arith, m.1 d key)))

sweep_first-IsMirrored :
    (h : Hashing) (state : NodeState) (now : ℕ) (set : Deadlines) (next : NodeState → NodeState × ℕ)
    → state.record_expirations ≡ set
    → IsMirrored h state
    → ((s : NodeState) → IsMirrored h s → IsMirrored h (next s).0)
    → IsMirrored h (sweep_first h state now set next).0
sweep_first-IsMirrored h state now [] next e m k = m
sweep_first-IsMirrored h state now (x ∷ xs) next e m k = elim (Bool-cases (leb x.0 now)) [
  | inl c ↦ rw c (
      k (expire_first h state x.0 x.1).0
        (expire_first-IsMirrored h state x.0 x.1 m (rw e ground arith)))
  | inr c ↦ rw c m
]

sweep_expired_records-IsMirrored :
    (h : Hashing) (state : NodeState) (now limit : ℕ)
    → IsMirrored h state
    → IsMirrored h (sweep_expired_records h state now limit).0
unfolding sweep_expired_records
sweep_expired_records-IsMirrored h state now zero m = m
sweep_expired_records-IsMirrored h state now (suc limit) m =
    sweep_first-IsMirrored h state now state.record_expirations
      (λ s. sweep_expired_records h s now limit) refl m
      (λ s n. sweep_expired_records-IsMirrored h s now limit n)

-- The operations, one after another.
pub data Steps (h : Hashing) : NodeState → NodeState → Type 0 where
  done : {state : NodeState} → Steps h state state
  inserted :
      {before after : NodeState} (key : Bytes) (r : Record)
      → Steps h before after
      → Steps h before (insert_record h after key r)
  applied :
      {before after : NodeState} (key : Bytes) (r : Record)
      → Steps h before after
      → Steps h before (apply_record h after key r).0
  removed :
      {before after : NodeState} (key : Bytes)
      → Steps h before after
      → Steps h before (remove_record_at h after (token_of h after key) key).0
  topology_set :
      {before after : NodeState} (topology : TopologySnapshot)
      → Steps h before after
      → Steps h before (set_topology h after topology)
  source_prepared :
      {before after : NodeState} (range : RangeSpec) (next : NodeState)
      → prepare_source_range after range ≡ some next
      → Steps h before after
      → Steps h before next
  source_removed :
      {before after : NodeState} (key : Bytes × Bytes)
      → Steps h before after
      → Steps h before (remove_source after key).0
  swept :
      {before after : NodeState} (now limit : ℕ)
      → Steps h before after
      → Steps h before (sweep_expired_records h after now limit).0

-- If a state's token index holds exactly its records' keys, each at its token, and each deadline of a
-- record waits in exactly one place, its expirations or one source, and no other deadline waits, then
-- every state has both that the operations lead to from there.
pub Steps-IsMirrored :
    (h : Hashing) {before after : NodeState}
    → Steps h before after
    → IsMirrored h before
    → IsMirrored h after
Steps-IsMirrored h done m = m
Steps-IsMirrored h (inserted {after = s} key r steps) m =
    insert_record-IsMirrored h s key r (Steps-IsMirrored h steps m)
Steps-IsMirrored h (applied {after = s} key r steps) m =
    apply_record-IsMirrored h s key r (Steps-IsMirrored h steps m)
Steps-IsMirrored h (removed {after = s} key steps) m =
    remove_record_at-IsMirrored h s key (Steps-IsMirrored h steps m)
Steps-IsMirrored h (topology_set {after = s} topology steps) m =
    set_topology-IsMirrored h s topology (Steps-IsMirrored h steps m)
Steps-IsMirrored h (source_prepared {after = s} range next e steps) m =
    prepare_source_range-IsMirrored h s range next e (Steps-IsMirrored h steps m)
Steps-IsMirrored h (source_removed {after = s} key steps) m =
    remove_source-IsMirrored h s key (Steps-IsMirrored h steps m)
Steps-IsMirrored h (swept {after = s} now limit steps) m =
    sweep_expired_records-IsMirrored h s now limit (Steps-IsMirrored h steps m)
