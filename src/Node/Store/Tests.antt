-- ===== src/Node/Store/Tests.antt =====
-- Runs of the operations on a node's records at a small state.
use hashring_rs.Prelude.{
  ℕ, ◌+◌, ◌≡◌, refl, codes, Bytes_discrete, ℕ_discrete, [], ◌∷◌, false, arith, length, Option, none,
  some,
}
use hashring_rs.Topology.Types.{TopologySnapshot, default_guard, default_timings, owner_only}
use hashring_rs.Topology.Build.{Hashing}
use hashring_rs.Node.Versions.{Record}
use hashring_rs.Node.Index.{contains}
use hashring_rs.Node.Store.{RangeSpec, NodeState, insert_record}
use hashring_rs.Node.Store.Sweep.{sweep_expired_records}
use hashring_rs.Node.Store.Migrating.{remove_source}
use hashring_rs.Node.Store.Mirrored.{IsMirrored}
use hashring_rs.Node.Store.Reachable.{done, inserted, swept, Steps-IsMirrored}
use hashring_rs.Node.Store.Swept.{ReadsSame, sweep_expired_records-ReadsSame}

-- A hash by the length of a text.
abbrev by_length : Hashing
by_length = record {
  xxh3_64_with_seed = λ key seed. length key + seed;
  blake3_hex = λ text. text;
  to_json = λ s. [];
}

abbrev topology : TopologySnapshot
topology = record {
  epoch = 1;
  hash_seed = 7;
  hash_algorithm = codes "xxh3-64";
  encoding_version = 2;
  virtual_nodes = 1;
  desired_replication_factor = 1;
  write_ack_policy = owner_only;
  write_availability_guard = default_guard;
  timings = default_timings;
  members = [];
  assignments = [];
  digest = [];
}

abbrev empty_state : NodeState
empty_state = record {
  topology = topology;
  records = [];
  records_by_token = [];
  record_expirations = [];
  sources = [];
  journal_bytes_total = 0;
}

abbrev written : ℕ → Option ℕ → Record
written sequence deadline = record {
  value = codes "v";
  version = record { topology_epoch = 1; owner_sequence = sequence; owner_node_id = codes "a" };
  deleted = false;
  expires_at_unix_millis = deadline;
}

abbrev range : RangeSpec
range = record {
  change_id = codes "c";
  range_id = codes "r";
  start_exclusive = 0;
  end_inclusive = 100;
  source_node_id = codes "a";
  destination_node_id = codes "b";
}

abbrev two_keys : NodeState
two_keys =
    insert_record by_length (insert_record by_length empty_state (codes "k") (written 1 (some 10)))
      (codes "lasting") (written 2 none)

-- The state with a migration of every key under way.
abbrev migrating : NodeState
migrating = record two_keys {
  sources =
      (
        (codes "c", codes "r"),
        record {
          range = range;
          snapshot_keys = codes "k" ∷ [];
          journal_bytes = 3;
          deferred_expirations = [];
        },
      )
      ∷ [];
}

sweep_takes_one : (sweep_expired_records by_length two_keys 10 5).1 ≡ 1
unfolding sweep_expired_records insert_record Bytes_discrete ℕ_discrete
sweep_takes_one = refl

sweep_defers : (sweep_expired_records by_length migrating 10 5).1 ≡ 0
unfolding sweep_expired_records insert_record Bytes_discrete ℕ_discrete
sweep_defers = refl

deferred_again :
    (remove_source
      (sweep_expired_records by_length migrating 10 5).0
      (codes "c", codes "r")).0.record_expirations
    ≡ (10, codes "k") ∷ []
unfolding sweep_expired_records insert_record remove_source Bytes_discrete ℕ_discrete
deferred_again = refl

empty_state-IsMirrored : IsMirrored by_length empty_state
unfolding contains
empty_state-IsMirrored = ((tt, λ t k. ground arith), λ d k. refl)

Steps-IsMirrored_example : IsMirrored by_length (sweep_expired_records by_length two_keys 10 5).0
Steps-IsMirrored_example =
    Steps-IsMirrored by_length
      (swept 10 5 (
        inserted (codes "lasting") (written 2 none)
          (inserted (codes "k") (written 1 (some 10)) done)))
      empty_state-IsMirrored

two_keys-IsMirrored : IsMirrored by_length two_keys
two_keys-IsMirrored =
    Steps-IsMirrored by_length
      (inserted (codes "lasting") (written 2 none)
        (inserted (codes "k") (written 1 (some 10)) done))
      empty_state-IsMirrored

sweep_expired_records-ReadsSame_example :
    ReadsSame 10 (sweep_expired_records by_length two_keys 10 5).0 two_keys
sweep_expired_records-ReadsSame_example =
    sweep_expired_records-ReadsSame by_length two_keys 10 5 two_keys-IsMirrored
