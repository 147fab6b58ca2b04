-- ===== src/Coordinator/Helpers.antt =====
-- The bookkeeping of a change in crates/hashring-coordinator/src/migration_helpers.rs.
use hashring_rs.Prelude.{
  ℕ, ◌+◌, Bytes, same, List, [], ◌∷◌, Bool, false, ◌&&◌, not, is_empty, if◌then◌else◌, Option, none,
  some, Result, ok, ◌>>◌, fail_if,
}
use hashring_rs.Migration.Types.{RangeMigration, TopologyChange}

-- The endpoint and the process instance of a destination.
abbrev pub Identity : Type 0
Identity = Bytes × Bytes

abbrev pub identity_of : RangeMigration → Identity
identity_of r = (r.destination_endpoint, r.destination_process_instance_id)

pub record ChangeIdentity : Type 0 where
  pub change_id : Bytes
  pub base_epoch : ℕ
  pub target_epoch : ℕ

unfoldable pub change_identity : TopologyChange → ChangeIdentity
change_identity change = record {
  change_id = change.change_id;
  base_epoch = change.base_epoch;
  target_epoch = change.target_topology.epoch;
}

-- The two `Status::data_loss`, with the node that they name.
pub data HelperError : Type 0 where
  missing_process_instance changed_process_instance : Bytes → HelperError

-- The `BTreeMap`, as its lookups.
abbrev pub Destinations : Type 0
Destinations = Bytes → Option Identity

abbrev pub put : Bytes → Identity → Destinations → Destinations
put node identity destinations = λ k. if same k node then some identity else destinations k

-- `is_some_and(|previous| previous != identity)`
abbrev pub clashes : Option Identity → Identity → Bool
clashes none identity = false
clashes (some previous) identity = not (same previous.0 identity.0 && same previous.1 identity.1)

-- The loop over the ranges that are left.
unfoldable pub collect_destinations :
    Destinations → List RangeMigration → Result HelperError Destinations
collect_destinations destinations [] = ok destinations
collect_destinations destinations (r ∷ rs) =
    let later = collect_destinations (put r.destination_node_id (identity_of r) destinations) rs in
    do
      fail_if (is_empty r.destination_process_instance_id)
          (missing_process_instance r.destination_node_id)
      fail_if (clashes (destinations r.destination_node_id) (identity_of r))
          (changed_process_instance r.destination_node_id)
      later

unfoldable pub destination_instances : TopologyChange → Result HelperError Destinations
unfolding collect_destinations
destination_instances change = collect_destinations (λ node. none) change.ranges

-- The first range with the id of the progress is replaced by it.
unfoldable pub replace_first : List RangeMigration → RangeMigration → List RangeMigration
replace_first [] progress = []
replace_first (r ∷ rs) progress =
    if same r.range_id progress.range_id then progress ∷ rs else r ∷ replace_first rs progress

unfoldable pub replace_range_progress : TopologyChange → RangeMigration → TopologyChange
unfolding replace_first
replace_range_progress change progress = record change {
  ranges = replace_first change.ranges progress;
}

unfoldable pub replay_millis : List RangeMigration → ℕ
replay_millis [] = 0
replay_millis (r ∷ rs) = r.changelog_replay_ms + replay_millis rs
