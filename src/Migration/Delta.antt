-- ===== src/Migration/Delta.antt =====
-- `topology_delta` of crates/hashring-core/src/migration.rs: the ranges whose owner changes between
-- two topologies, and the followers that have a range to copy.
use mathlib.Core.List.{head?}
use hashring_rs.Prelude.{
  ℕ, Bytes, codes, same, List, [], ◌∷◌, ◌++◌, map, false, ◌==◌, length, drop, last?, if◌then◌else◌,
  Result, ok, ◌>>=◌, ◌>>◌, fail_if, ok_or, or_panic, map_err,
}
use hashring_rs.Prelude.Sort.{sort}
use hashring_rs.Topology.Types.{TokenAssignment, TopologySnapshot, no_assignments}
use hashring_rs.Topology.Validate.{contains}
use hashring_rs.Topology.Build.{Hashing, be_bytes}
use hashring_rs.Topology.Lookup.{owner_for_token, replica_node_ids_for_token, dedup}
use hashring_rs.Topology.Clockwise.{token_leb}
use hashring_rs.Migration.Types.{
  RangeMigration, ReplicaObligation, MigrationError, topology, too_many_ranges,
  too_many_replica_obligations, max_migration_ranges, max_replica_obligations,
}

-- The `BTreeSet` of the tokens of both, in its order.
unfoldable pub boundaries : TopologySnapshot → TopologySnapshot → List ℕ
unfolding dedup
boundaries committed target = dedup (
    map (λ (a : TokenAssignment). a.token)
      (sort token_leb (committed.assignments ++ target.assignments)))

-- The followers of one range that have it to copy.
unfoldable pub add_obligations :
    ℕ
    → ℕ
    → Bytes
    → List Bytes
    → List Bytes
    → List ReplicaObligation
    → Result MigrationError (List ReplicaObligation)
add_obligations start end source committed_replicas [] obligations = ok obligations
add_obligations start end source committed_replicas (f ∷ fs) obligations =
    let skip = add_obligations start end source committed_replicas fs obligations in
    let push = add_obligations start end source committed_replicas fs (
      obligations
      ++ record {
        start_exclusive = start;
        end_inclusive = end;
        source_node_id = source;
        destination_node_id = f;
      }
        ∷ []) in
    if contains committed_replicas f
    then skip
    else (fail_if (length obligations == max_replica_obligations) too_many_replica_obligations
        >> push)

module _ (h : Hashing) where
  unfoldable pub range_id : ℕ → ℕ → Bytes → Bytes → Bytes
  unfolding be_bytes
  range_id start end source destination = h.blake3_hex (
      codes "hashring-rs:range:v1"
      ++ (0 ∷ be_bytes 8 start
          ++ (be_bytes 8 end
              ++ (be_bytes 8 (length source)
                  ++ (source ++ (be_bytes 8 (length destination) ++ destination))))))

  -- One range, if its owner changes.
  unfoldable pub add_range :
      TopologySnapshot
      → TopologySnapshot
      → ℕ
      → ℕ
      → Bytes
      → Bytes
      → List RangeMigration
      → Result MigrationError (List RangeMigration)
  unfolding range_id
  add_range committed target previous end source_node_id destination_node_id ranges =
      if same source_node_id destination_node_id then ok ranges else do
        fail_if (length ranges == max_migration_ranges) too_many_ranges
        source ← map_err topology (owner_for_token committed end)
        destination ← map_err topology (owner_for_token target end)
        ok (
            ranges
            ++ record {
              range_id = range_id previous end source_node_id destination_node_id;
              start_exclusive = previous;
              end_inclusive = end;
              source_node_id = source.node_id;
              destination_node_id = destination.node_id;
              source_endpoint = source.endpoint;
              destination_endpoint = destination.endpoint;
              source_process_instance_id = [];
              destination_process_instance_id = [];
              source_cleaned = false;
              snapshot_records = 0;
              changelog_watermark = 0;
              changelog_replay_ms = 0;
              verified = false;
            }
              ∷ [])

  -- The loop over the boundaries that are left.
  unfoldable pub delta_from :
      TopologySnapshot
      → TopologySnapshot
      → ℕ
      → List ℕ
      → List RangeMigration
      → List ReplicaObligation
      → Result MigrationError (List RangeMigration × List ReplicaObligation)
  unfolding add_range add_obligations
  delta_from committed target previous [] ranges obligations = ok (ranges, obligations)
  delta_from committed target previous (end ∷ ends) ranges obligations =
      let later = λ (rs : List RangeMigration) (os : List ReplicaObligation).
        delta_from committed target end ends rs os in
      do
        committed_replicas ← map_err topology (replica_node_ids_for_token committed end)
        target_replicas ← map_err topology (replica_node_ids_for_token target end)
        source ← or_panic (head? committed_replicas)
        destination ← or_panic (head? target_replicas)
        rs ← add_range committed target previous end source destination ranges
        os ←
            add_obligations previous end source committed_replicas (drop 1 target_replicas)
              obligations
        later rs os

  unfoldable pub topology_delta :
      TopologySnapshot
      → TopologySnapshot
      → Result MigrationError (List RangeMigration × List ReplicaObligation)
  unfolding boundaries delta_from
  topology_delta committed target = do
    let ordered = boundaries committed target
    previous ← ok_or (last? ordered) (topology no_assignments)
    delta_from committed target previous ordered [] []

  -- `moving_ranges`
  unfoldable pub moving_ranges :
      TopologySnapshot → TopologySnapshot → Result MigrationError (List RangeMigration)
  unfolding topology_delta
  moving_ranges committed target = topology_delta committed target >>= λ delta. ok (delta.0)
