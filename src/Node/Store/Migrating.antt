-- ===== src/Node/Store/Migrating.antt =====
-- The source migrations in a `NodeState`: `remove_source` of crates/hashring-node/src/lib.rs and
-- `prepare_source_range` of crates/hashring-node/src/rpc.rs.
use hashring_rs.Prelude.{
  ◌-◌, Bytes, same, [], ◌∷◌, ◌++◌, map, Bool, ◌&&◌, ◌==◌, if◌then◌else◌, Option, none, some,
}
use hashring_rs.Node.Index.{in_range}
use hashring_rs.Node.Store.{Deadlines, schedule, RangeSpec, SourceMigration, Sources, NodeState}

abbrev pub take_source : Sources → Bytes × Bytes → Sources × Option SourceMigration
take_source [] key = ([], none)
take_source (s ∷ ss) key =
    if same s.0.0 key.0 && same s.0.1 key.1
    then (ss, some s.1)
    else (s ∷ (take_source ss key).0, (take_source ss key).1)

unfoldable pub schedule_all : Deadlines → Deadlines → Deadlines
unfolding schedule
schedule_all set [] = set
schedule_all set (e ∷ es) = schedule_all (schedule set e.0 e.1) es

-- `remove_source`, with what it takes out of the sources.
abbrev pub release :
    NodeState → Sources × Option SourceMigration → NodeState × Option SourceMigration
release state (sources, none) = (state, none)
release state (sources, some source) = (
  record state {
    sources = sources;
    journal_bytes_total = state.journal_bytes_total - source.journal_bytes;
    record_expirations = schedule_all state.record_expirations source.deferred_expirations;
  },
  some (record source { deferred_expirations = [] }),
)

unfoldable pub remove_source : NodeState → Bytes × Bytes → NodeState × Option SourceMigration
unfolding schedule_all
remove_source state key = release state (take_source state.sources key)

-- What `prepare_source_range` does to the state, for a range of this node. `none` is its refusal of a
-- range that differs from the one prepared before.
abbrev pub find_source : Sources → Bytes × Bytes → Option SourceMigration
find_source [] key = none
find_source (s ∷ ss) key =
    if same s.0.0 key.0 && same s.0.1 key.1 then some s.1 else find_source ss key

abbrev same_range : RangeSpec → RangeSpec → Bool
same_range a b =
    same a.change_id b.change_id
    && same a.range_id b.range_id
    && a.start_exclusive == b.start_exclusive
    && a.end_inclusive == b.end_inclusive
    && same a.source_node_id b.source_node_id
    && same a.destination_node_id b.destination_node_id

abbrev pub prepared : NodeState → RangeSpec → Option SourceMigration → Option NodeState
prepared state range (some existing) = if same_range existing.range range then some state else none
prepared state range none = some (record state {
  sources =
      state.sources
      ++ (
        (range.change_id, range.range_id),
        record {
          range = range;
          snapshot_keys =
              map (λ e. e.1)
                (in_range state.records_by_token range.start_exclusive range.end_inclusive);
          journal_bytes = 0;
          deferred_expirations = [];
        },
      )
        ∷ [];
})

unfoldable pub prepare_source_range : NodeState → RangeSpec → Option NodeState
unfolding in_range
prepare_source_range state range =
    prepared state range (find_source state.sources (range.change_id, range.range_id))
