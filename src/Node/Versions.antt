-- ===== src/Node/Versions.antt =====
-- Records and their versions: crates/hashring-node/src/lib.rs and
-- crates/hashring-node/src/migration.rs. The message `RecordVersion` is that of
-- crates/hashring-core/proto/hashring.proto.
use hashring_rs.Prelude.{
  ℕ, Bytes, same, bytes_leb, List, [], ◌∷◌, Bool, true, false, ltb, leb, ◌==◌, if◌then◌else◌,
  Option, none, some,
}

pub record RecordVersion : Type 0 where
  pub topology_epoch : ℕ
  pub owner_sequence : ℕ
  pub owner_node_id : Bytes

pub record Record : Type 0 where
  pub value : Bytes
  pub version : RecordVersion
  pub deleted : Bool
  pub expires_at_unix_millis : Option ℕ

unfoldable pub is_expired : Record → ℕ → Bool
is_expired r now = elim r.expires_at_unix_millis [ none ↦ false | some deadline ↦ leb deadline now ]

-- The deadline that is stored for one on the wire, where zero means none.
unfoldable pub stored_deadline : Option ℕ → Option ℕ
stored_deadline none = none
stored_deadline (some deadline) = if deadline == 0 then none else some deadline

-- `std::cmp::Ordering`
pub data Order : Type 0 where
  less equal greater : Order

abbrev pub then_with : Order → Order → Order
then_with less _ = less
then_with equal o = o
then_with greater _ = greater

unfoldable pub compare_numbers : ℕ → ℕ → Order
compare_numbers a b = if ltb a b then less else if ltb b a then greater else equal

unfoldable pub compare_bytes : Bytes → Bytes → Order
compare_bytes a b = if same a b then equal else if bytes_leb a b then less else greater

-- The order of the triples of epoch, sequence and owner.
unfoldable pub compare_versions : RecordVersion → RecordVersion → Order
unfolding compare_numbers compare_bytes
compare_versions left right = then_with (compare_numbers left.topology_epoch right.topology_epoch) (
    then_with (compare_numbers left.owner_sequence right.owner_sequence)
      (compare_bytes left.owner_node_id right.owner_node_id))

abbrev pub is_gt : Order → Bool
is_gt less = false
is_gt equal = false
is_gt greater = true

-- `HashMap<Vec<u8>, Record>`, as its lookups.
abbrev pub Records : Type 0
Records = Bytes → Option Record

abbrev pub put : Bytes → Record → Records → Records
put key record_ records = λ k. if same k key then some record_ else records k

-- `is_none_or(|current| compare_versions(&record.version, &current.version).is_gt())`
abbrev pub supersedes : Record → Option Record → Bool
supersedes r none = true
supersedes r (some current) = is_gt (compare_versions r.version current.version)

unfoldable pub apply_internal_record : Records → Bytes → Record → Records
unfolding compare_versions
apply_internal_record records key r =
    if supersedes r (records key) then put key r records else records

-- Records arriving one after another.
unfoldable pub apply_all : Records → List (Bytes × Record) → Records
unfolding apply_internal_record
apply_all records [] = records
apply_all records (e ∷ es) = apply_all (apply_internal_record records e.0 e.1) es
