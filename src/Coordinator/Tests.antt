-- ===== src/Coordinator/Tests.antt =====
-- The theorems on the bookkeeping of a change at one with a range.
use hashring_rs.Prelude.{
  ◌≡◌, refl, Bytes, codes, Bytes_discrete, ℕ_discrete, List, [], ◌∷◌, false, err, find, any,
  if◌then◌else◌, none, some,
}
use hashring_rs.Topology.Tests.{three}
use hashring_rs.Migration.Types.{RangeMigration, TopologyChange}
use hashring_rs.Migration.Tests.{joined}
use hashring_rs.Coordinator.Helpers.{
  changed_process_instance, collect_destinations, destination_instances, replace_range_progress,
}
use hashring_rs.Coordinator.Destinations.{IsAnswer, destination_instances-IsAnswer}
use hashring_rs.Coordinator.Progress.{ids, has_id, replace_range_progress-found}

abbrev range : Bytes → Bytes → RangeMigration
range id instance_id = record {
  range_id = id;
  start_exclusive = 5;
  end_inclusive = 9;
  source_node_id = codes "node-b";
  destination_node_id = codes "node-a";
  source_endpoint = codes "http://127.0.0.1:5002";
  destination_endpoint = codes "http://127.0.0.1:5001";
  source_process_instance_id = codes "p2";
  destination_process_instance_id = instance_id;
  source_cleaned = false;
  snapshot_records = 0;
  changelog_watermark = 0;
  changelog_replay_ms = 0;
  verified = false;
}

abbrev moving : List RangeMigration → TopologyChange
moving ranges = joined (ranges, []) three

restarted_destination_is_noticed :
    destination_instances
      (moving (range (codes "r1") (codes "p1") ∷ range (codes "r2") (codes "p7") ∷ []))
    ≡ err (changed_process_instance (codes "node-a"))
unfolding Bytes_discrete ℕ_discrete collect_destinations destination_instances
restarted_destination_is_noticed = refl

abbrev one_range : TopologyChange
one_range = moving (range (codes "r1") (codes "p1") ∷ [])

destination_instances-IsAnswer_example : IsAnswer one_range.ranges (destination_instances one_range)
destination_instances-IsAnswer_example = destination_instances-IsAnswer one_range

replace_range_progress-found_example :
    (ids (replace_range_progress one_range (range (codes "r1") (codes "p1"))).ranges
      ≡ ids one_range.ranges)
    × (find
          (has_id (range (codes "r1") (codes "p1")))
          (replace_range_progress one_range (range (codes "r1") (codes "p1"))).ranges
        ≡ (if any (has_id (range (codes "r1") (codes "p1"))) one_range.ranges
            then some (range (codes "r1") (codes "p1"))
            else none))
replace_range_progress-found_example =
    replace_range_progress-found one_range (range (codes "r1") (codes "p1"))
