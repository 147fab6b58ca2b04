-- ===== src/Node/Keyspace/Tests.antt =====
-- Pages of a small state.
use hashring_rs.Prelude.{
  ℕ, ◌≡◌, ◌⊎◌, refl, codes, Bytes_discrete, ℕ_discrete, [], ◌∷◌, Bool, true, false, arith, none,
  some,
}
use hashring_rs.Topology.Types.{TopologySnapshot, default_guard, default_timings, owner_only}
use hashring_rs.Node.Versions.{Record, is_expired}
use hashring_rs.Node.Index.{one}
use hashring_rs.Node.Buckets.{IsIndex}
use hashring_rs.Node.Store.{NodeState}
use hashring_rs.Node.Keyspace.{PageLimits, owned_keys_page}
use hashring_rs.Node.Keyspace.Moving.{MovesOn, StoppedAtStart, owned_keys_page-MovesOn}

abbrev topology : TopologySnapshot
topology = record {
  epoch = 1;
  hash_seed = 7;
  hash_algorithm = codes "xxh3-64";
  encoding_version = 2;
  virtual_nodes = 1;
  desired_replication_factor = 1;
  write_ack_policy = owner_only;
  write_availability_guard = default_guard;
  timings = default_timings;
  members = [];
  assignments =
      record { token = 10; node_id = codes "a" } ∷ record { token = 20; node_id = codes "b" } ∷ [];
  digest = [];
}

abbrev lasting : Record
lasting = record {
  value = codes "v";
  version = record { topology_epoch = 1; owner_sequence = 1; owner_node_id = codes "a" };
  deleted = false;
  expires_at_unix_millis = none;
}

abbrev three_keys : NodeState
three_keys = record {
  topology = topology;
  records = (codes "p", lasting) ∷ (codes "q", lasting) ∷ (codes "r", lasting) ∷ [];
  records_by_token = (5, one (codes "p")) ∷ (15, one (codes "q")) ∷ (25, one (codes "r")) ∷ [];
  record_expirations = [];
  sources = [];
  journal_bytes_total = 0;
}

abbrev limits : ℕ → Bool → PageLimits
limits keys stretch = record {
  max_keys = keys;
  max_bytes = 100;
  max_examined = 100;
  count_only = false;
  one_stretch = stretch;
}

all_of_a :
    owned_keys_page three_keys (codes "a") 0 (limits 10 false) 0
    ≡ some (record { keys = codes "p" ∷ codes "r" ∷ []; count = 2; next = none })
unfolding owned_keys_page is_expired Bytes_discrete ℕ_discrete
all_of_a = refl

one_of_a :
    owned_keys_page three_keys (codes "a") 0 (limits 1 false) 0
    ≡ some (record { keys = codes "p" ∷ []; count = 1; next = some 25 })
unfolding owned_keys_page is_expired Bytes_discrete ℕ_discrete
one_of_a = refl

one_stretch_of_a :
    owned_keys_page three_keys (codes "a") 0 (limits 10 true) 0
    ≡ some (record { keys = codes "p" ∷ []; count = 1; next = some 11 })
unfolding owned_keys_page is_expired Bytes_discrete ℕ_discrete
one_stretch_of_a = refl

three_keys-IsIndex : IsIndex three_keys.records_by_token
three_keys-IsIndex =
    ((omega arith, (omega arith, tt)), (tt, tt), ((omega arith, tt), (tt, tt), (tt, (tt, tt), tt)))

owned_keys_page-MovesOn_example :
    MovesOn three_keys
      (codes "a")
      0
      (limits 1 false)
      5
      (owned_keys_page three_keys (codes "a") 0 (limits 1 false) 5)
    ⊎ StoppedAtStart three_keys
        (codes "a")
        0
        (limits 1 false)
        5
        (owned_keys_page three_keys (codes "a") 0 (limits 1 false) 5)
owned_keys_page-MovesOn_example =
    owned_keys_page-MovesOn three_keys (codes "a") 0 (limits 1 false) 5 three_keys-IsIndex
      (omega arith) (omega arith) (omega arith)
