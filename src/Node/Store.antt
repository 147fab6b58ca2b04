-- ===== src/Node/Store.antt =====
-- The records of a data node with the two indices that mirror them: `NodeState` and its operations on
-- records in crates/hashring-node/src/lib.rs. Of a `NodeState` there are the fields that these operations use. A `HashMap` is the list of its entries,
-- each key once, and a `BTreeSet` its members in order. An `Arc` is what it points to.

pub mod Sweep
pub mod Migrating
pub mod Entries
pub mod Mirrored
pub mod Kept
pub mod Sources
pub mod Reachable
pub mod Swept
mod Tests
use Prim.Native.Nat.{ℕ, zero, suc}
use hashring_rs.Interval.{spec_contains}
use hashring_rs.Prelude.{
  ◌+◌, ◌-◌, Bytes, same, bytes_leb, List, [], ◌∷◌, ◌++◌, map, Bool, true, false, not, ◌&&◌, ◌||◌,
  ltb, leb, ◌==◌, arith, any, filter, find, if◌then◌else◌, Option, none, some,
}
use hashring_rs.Topology.Types.{TopologySnapshot}
use hashring_rs.Topology.Build.{Hashing, key_token}
use hashring_rs.Node.Versions.{Record, RecordVersion, compare_versions, is_gt}
use hashring_rs.Node.Index.{TokenIndex, insert, remove, in_range}

-- A map from byte texts.
abbrev pub Map {ℓ} : Type ℓ → Type ℓ
Map V = List (Bytes × V)

abbrev pub find_entry {ℓ} : {V : Type ℓ} → Map V → Bytes → Option V
find_entry [] key = none
find_entry (e ∷ es) key = if same e.0 key then some e.1 else find_entry es key

abbrev pub put_entry {ℓ} : {V : Type ℓ} → Map V → Bytes → V → Map V
put_entry [] key value = (key, value) ∷ []
put_entry (e ∷ es) key value =
    if same e.0 key then (e.0, value) ∷ es else e ∷ put_entry es key value

abbrev pub remove_entry {ℓ} : {V : Type ℓ} → Map V → Bytes → Map V
remove_entry entries key = filter (λ e. not (same e.0 key)) entries

-- A set of deadlines with their keys.
abbrev pub Deadlines : Type 0
Deadlines = List (ℕ × Bytes)

abbrev pub has : Deadlines → ℕ → Bytes → Bool
has set d k = any (λ e. e.0 == d && same e.1 k) set

unfoldable pub schedule : Deadlines → ℕ → Bytes → Deadlines
schedule [] d k = (d, k) ∷ []
schedule (e ∷ es) d k =
    let later = schedule es d k in
    if e.0 == d && same e.1 k
    then e ∷ es
    else if ltb d e.0 || d == e.0 && bytes_leb k e.1
    then (d, k) ∷ e ∷ es
    else e ∷ later

abbrev pub unschedule : Deadlines → ℕ → Bytes → Deadlines
unschedule set d k = filter (λ e. not (e.0 == d && same e.1 k)) set

pub record RangeSpec : Type 0 where
  pub change_id : Bytes
  pub range_id : Bytes
  pub start_exclusive : ℕ
  pub end_inclusive : ℕ
  pub source_node_id : Bytes
  pub destination_node_id : Bytes

pub record SourceMigration : Type 0 where
  pub range : RangeSpec
  pub snapshot_keys : List Bytes
  pub journal_bytes : ℕ
  pub deferred_expirations : Deadlines

abbrev pub Sources : Type 0
Sources = List ((Bytes × Bytes) × SourceMigration)

pub record NodeState : Type 0 where
  pub topology : TopologySnapshot
  pub records : Map Record
  pub records_by_token : TokenIndex
  pub record_expirations : Deadlines
  pub sources : Sources
  pub journal_bytes_total : ℕ

-- The loop over the sources, up to the first that held the entry.
unfoldable pub forget_deferred : Sources → ℕ → Bytes → Sources
forget_deferred [] d k = []
forget_deferred (s ∷ ss) d k =
    let rest = forget_deferred ss d k in
    if has s.1.deferred_expirations d k
    then (s.0, record s.1 { deferred_expirations = unschedule s.1.deferred_expirations d k }) ∷ ss
    else s ∷ rest

unfoldable pub forget_expiration : NodeState → Bytes → Option ℕ → NodeState
unfolding forget_deferred
forget_expiration state key none = state
forget_expiration state key (some d) =
    if has state.record_expirations d key
    then record state { record_expirations = unschedule state.record_expirations d key }
    else record state { sources = forget_deferred state.sources d key }

-- The deadline of a record that was replaced.
abbrev pub deadline_of : Option Record → Option ℕ
deadline_of none = none
deadline_of (some r) = r.expires_at_unix_millis

abbrev pub schedule_record : NodeState → Bytes → Option ℕ → NodeState
schedule_record state key none = state
schedule_record state key (some d) = record state {
  record_expirations = schedule state.record_expirations d key;
}

module _ (h : Hashing) where
  abbrev pub token_of : NodeState → Bytes → ℕ
  token_of state key = key_token h key state.topology.hash_seed

  -- Only a key that is new is indexed.
  abbrev pub index_new : NodeState → Bytes → Option Record → NodeState
  index_new state key none = record state {
    records_by_token = insert state.records_by_token (token_of state key) key;
  }
  index_new state key (some r) = state

  abbrev pub put_record : NodeState → Bytes → Record → NodeState
  put_record state key r = record state { records = put_entry state.records key r }

  -- `insert_record`, with what it finds for the key.
  abbrev pub insert_over : NodeState → Bytes → Record → Option Record → NodeState
  insert_over state key r replaced =
      schedule_record
        (forget_expiration (put_record (index_new state key replaced) key r) key
          (deadline_of replaced))
        key r.expires_at_unix_millis

  unfoldable pub insert_record : NodeState → Bytes → Record → NodeState
  unfolding forget_expiration schedule insert
  insert_record state key r = insert_over state key r (find_entry state.records key)

  abbrev pub is_newer : Record → Option Record → Bool
  is_newer r none = true
  is_newer r (some current) = is_gt (compare_versions r.version current.version)

  -- The state, and whether the record was applied.
  unfoldable pub apply_record : NodeState → Bytes → Record → NodeState × Bool
  unfolding insert_record compare_versions
  apply_record state key r =
      if is_newer r (find_entry state.records key)
      then (insert_record state key r, true)
      else (state, false)

  -- `remove_record_at`, with what it finds for the key.
  abbrev pub take_record : NodeState → ℕ → Bytes → Option Record → NodeState × Option Record
  take_record state token key none = (state, none)
  take_record state token key (some removed) = (
    forget_expiration
        (record state {
          records = remove_entry state.records key;
          records_by_token = (remove state.records_by_token token key).0;
        })
        key removed.expires_at_unix_millis,
    some removed,
  )

  unfoldable pub remove_record_at : NodeState → ℕ → Bytes → NodeState × Option Record
  unfolding forget_expiration remove
  remove_record_at state token key = take_record state token key (find_entry state.records key)

  unfoldable pub index_keys : TopologySnapshot → Map Record → TokenIndex → TokenIndex
  unfolding insert
  index_keys topology [] index = index
  index_keys topology (e ∷ es) index =
      index_keys topology es (insert index (key_token h e.0 topology.hash_seed) e.0)

  unfoldable pub set_topology : NodeState → TopologySnapshot → NodeState
  unfolding index_keys
  set_topology state topology =
      if topology.hash_seed == state.topology.hash_seed
      then record state { topology = topology }
      else record state {
        topology = topology;
        records_by_token = index_keys topology state.records [];
      }
