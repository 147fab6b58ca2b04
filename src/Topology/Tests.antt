-- ===== src/Topology/Tests.antt =====
-- Runs of the model of crates/hashring-core/src/topology.rs, and its theorems at a small ring.
use hashring_rs.Prelude.{
  ℕ, ◌+◌, ◌*◌, ◌%◌, ◌^◌, ◌≡◌, refl, Bytes, same-false, Bytes_discrete, codes, bytes_leb, List, [],
  ◌∷◌, map, arith, ℕ_discrete, ok, err, All, ◌<◌, ◌≤◌, ◌↔◌, ◌≢◌, length, get_elem?, some,
}
use hashring_rs.Prelude.Sort.{insert, sort}
use hashring_rs.Topology.Types.{
  Member, TokenAssignment, TopologySnapshot, default_config, default_timings, DerivedRange,
  TopologyError,
}
use hashring_rs.Topology.Validate.{
  validate_timings, validate_config, validate_each, validate_members,
}
use hashring_rs.Topology.Build.{
  Hashing, be_bytes, encode_vnode, members_discrete, assignments_discrete, range,
  member_assignments, all_assignments, calculate_digest, assemble, new_with_timings,
  validate_assignments, validate,
}
use hashring_rs.Topology.Owner.{distance}
use hashring_rs.Topology.Partition.{Located}
use hashring_rs.Topology.Served.{
  derived_ranges_partition, owner_for_token_nearest, owner-head_of_replicas,
}
use hashring_rs.Topology.Removal.{Leaves, leave-first_follower, leave-keeps_owner}
use hashring_rs.Topology.Spread.{AllDifferent, replica_node_ids-spread}
use hashring_rs.Topology.Members.{IsMembership, validate_members_iff}
use hashring_rs.Topology.Construction.{IsConstruction, new_with_timings-IsConstruction}
use hashring_rs.Topology.Validity.{rebuild, validate_iff}
use hashring_rs.Topology.Lookup.{
  owner_for_token, collect, replica_node_ids_for_token, dedup, ranges_from, derived_ranges,
}

unfoldable pub program : Unit {0}
unfolding Bytes_discrete ℕ_discrete bytes_leb insert sort validate_timings validate_config
    validate_each validate_members be_bytes encode_vnode members_discrete assignments_discrete range
    member_assignments all_assignments calculate_digest assemble new_with_timings
    validate_assignments validate owner_for_token collect replica_node_ids_for_token dedup
    ranges_from derived_ranges
program = tt

-- A hash that computes, for the runs below.
unfoldable pub fold : ℕ → Bytes → ℕ
fold acc [] = acc
fold acc (b ∷ bs) = fold ((acc * 1_000_003 + b * 7_919 + 12_345) % 2 ^ 64) bs

abbrev pub plain : Hashing
plain = record {
  xxh3_64_with_seed = λ bytes seed. fold seed bytes;
  blake3_hex = λ bytes. bytes;
  to_json = λ s. s.epoch ∷ s.hash_seed ∷ map (λ (a : TokenAssignment). a.token) s.assignments;
}

abbrev pub node_a : Member
node_a = record { node_id = codes "node-a"; endpoint = codes "http://127.0.0.1:5001" }

abbrev pub node_b : Member
node_b = record { node_id = codes "node-b"; endpoint = codes "http://127.0.0.1:5002" }

abbrev pub node_c : Member
node_c = record { node_id = codes "node-c"; endpoint = codes "http://127.0.0.1:5003" }

abbrev pub ring_of : List Member → TopologySnapshot
ring_of ms = assemble plain 1 42 2 ms default_config default_timings

abbrev pub three : TopologySnapshot
three = ring_of (node_a ∷ node_b ∷ node_c ∷ [])

pub three_accepted : validate plain three ≡ ok tt
unfolding program fold
three_accepted = refl

pub construction_is_canonical :
    new_with_timings plain 1 42 2 (node_c ∷ node_a ∷ node_b ∷ []) default_config default_timings
    ≡ ok three
unfolding program fold
construction_is_canonical = refl

tampering_is_detected :
    validate plain (record three { epoch = 2 }) ≡ err TopologyError.digest_mismatch
unfolding program fold
tampering_is_detected = refl

-- `three` without node-a: the topology that is left.
abbrev pub two : TopologySnapshot
two = ring_of (node_b ∷ node_c ∷ [])

pub two_accepted : validate plain two ≡ ok tt
unfolding program fold
two_accepted = refl

a-Leaves : Leaves (codes "node-a") three two
unfolding program fold
a-Leaves = record { same_seed = refl; same_vnodes = refl; remaining = refl }

three_replicas :
    replica_node_ids_for_token three 5 ≡ ok (codes "node-a" ∷ codes "node-c" ∷ codes "node-b" ∷ [])
unfolding program fold
three_replicas = refl

three_owner : owner_for_token three 1_000_000_000_000_000_000 ≡ ok node_c
unfolding program fold
three_owner = refl

c_is_not_a : codes "node-c" ≢ codes "node-a"
unfolding program
c_is_not_a = same-false _ _ refl

derived_ranges_partition_example :
    (rs : List DerivedRange) × (derived_ranges three ≡ ok rs) × ((t : ℕ) → Located three rs t)
derived_ranges_partition_example = derived_ranges_partition plain three three_accepted

leave-first_follower_example :
    (m : Member) × (owner_for_token two 5 ≡ ok m) × (m.node_id ≡ codes "node-c")
leave-first_follower_example =
    leave-first_follower plain (codes "node-a") (codes "node-c") three two 5 (codes "node-b" ∷ [])
      three_accepted two_accepted a-Leaves three_replicas

leave-keeps_owner_example :
    (m : Member) × (owner_for_token two 1_000_000_000_000_000_000 ≡ ok m)
    × (m.node_id ≡ codes "node-c")
leave-keeps_owner_example =
    leave-keeps_owner plain (codes "node-a") three two 1_000_000_000_000_000_000 node_c
      three_accepted two_accepted a-Leaves three_owner c_is_not_a

replica_node_ids-spread_example :
    (rs : List Bytes) × (replica_node_ids_for_token three 7 ≡ ok rs)
    × AllDifferent rs
    × (length rs ≡ 3)
unfolding program fold
replica_node_ids-spread_example = replica_node_ids-spread plain three 7 three_accepted

fold_word : (n : ℕ) (bs : Bytes) → n < 2 ^ 64 → fold n bs < 2 ^ 64
unfolding fold
fold_word n [] h = h
fold_word n (b ∷ bs) h = fold_word ((n * 1_000_003 + b * 7_919 + 12_345) % 2 ^ 64) bs (omega arith)

-- The same hash, of a seed that is reduced first.
abbrev word_hash : Hashing
word_hash = record plain { xxh3_64_with_seed = λ bytes seed. fold (seed % 2 ^ 64) bytes }

word_hash_u64 : (b : Bytes) (seed : ℕ) → word_hash.xxh3_64_with_seed b seed < 2 ^ 64
word_hash_u64 b seed = fold_word (seed % 2 ^ 64) b (omega arith)

three_accepted_by_words : validate word_hash three ≡ ok tt
unfolding program fold
three_accepted_by_words = refl

owner_for_token_nearest_example :
    (m : Member) × (a : TokenAssignment) × (i : ℕ) × (owner_for_token three 5 ≡ ok m)
    × (get_elem? three.assignments i ≡ some a)
    × (a.node_id ≡ m.node_id)
    × All (λ b. distance 5 a.token ≤ distance 5 b.token) three.assignments
owner_for_token_nearest_example =
    owner_for_token_nearest word_hash three three_accepted_by_words 5 word_hash_u64 (omega arith)

owner-head_of_replicas_example :
    (m : Member) × (others : List Bytes) × (owner_for_token three 9 ≡ ok m)
    × (replica_node_ids_for_token three 9 ≡ ok (m.node_id ∷ others))
owner-head_of_replicas_example = owner-head_of_replicas plain three three_accepted 9

validate_iff_example : (validate plain three ≡ ok tt) ↔ (rebuild plain three ≡ ok three)
validate_iff_example = validate_iff plain three

validate_members_iff_example :
    (validate_members (node_a ∷ node_b ∷ []) 2 ≡ ok tt) ↔ IsMembership (node_a ∷ node_b ∷ []) 2
validate_members_iff_example = validate_members_iff (node_a ∷ node_b ∷ []) 2

new_with_timings-IsConstruction_example :
    IsConstruction plain 1 42 2 default_config default_timings
      (node_b ∷ node_a ∷ [])
      (new_with_timings plain 1 42 2 (node_b ∷ node_a ∷ []) default_config default_timings)
new_with_timings-IsConstruction_example =
    new_with_timings-IsConstruction plain 1 42 2 default_config default_timings
      (node_b ∷ node_a ∷ [])
