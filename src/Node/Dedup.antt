-- ===== src/Node/Dedup.antt =====
-- Deduplication receipts: what crates/hashring-node/src/dedup.rs hashes and checks. An `Instant` is a
-- number of nanoseconds. The blake3 hash belongs to another crate: it is a parameter.
pub mod Preimage
use Prim.Native.Nat.{ℕ, zero, suc}
use hashring_rs.Prelude.{
  ◌+◌, ◌-◌, ◌*◌, Bytes, codes, same, List, [], ◌∷◌, ◌++◌, Bool, true, false, ◌&&◌, ltb, ◌==◌,
  length, if◌then◌else◌, Option, none, some, Result, ok, err,
}
use hashring_rs.Topology.Build.{be_bytes}
use hashring_rs.Node.Versions.{RecordVersion, Record}

pub data Condition : Type 0 where
  always absent : Condition
  version : RecordVersion → Condition

-- `proto::Precondition`, with its `oneof`.
pub data Expect : Type 0 where
  expect_absent : Expect
  expect_version : RecordVersion → Expect

pub record Precondition : Type 0 where
  pub expect : Option Expect

pub data OperationError : Type 0 where
  invalid_argument : OperationError

unfoldable pub from_proto : Option Precondition → Result OperationError Condition
from_proto none = ok always
from_proto (some p) = expected p.expect
  where
    expected : Option Expect → Result OperationError Condition
    expected none = err invalid_argument
    expected (some expect_absent) = ok absent
    expected (some (expect_version v)) = ok (version v)

abbrev pub same_version : RecordVersion → RecordVersion → Bool
same_version a b =
    a.topology_epoch == b.topology_epoch
    && a.owner_sequence == b.owner_sequence
    && same a.owner_node_id b.owner_node_id

unfoldable pub holds : Condition → Option Record → Bool
holds always live = true
holds absent none = true
holds absent (some r) = false
holds (version v) none = false
holds (version v) (some r) = same_version r.version v

pub record MutationShape : Type 0 where
  pub value : Bytes
  pub deleted : Bool
  pub preserve_value : Bool
  pub expires_at_unix_millis : Option ℕ
  pub condition : Condition

unfoldable pub value_shape : Bytes → Bool → Option ℕ → MutationShape
value_shape value deleted deadline = record {
  value = value;
  deleted = deleted;
  preserve_value = false;
  expires_at_unix_millis = deadline;
  condition = always;
}

unfoldable pub expiry_only : ℕ → MutationShape
expiry_only deadline = record {
  value = [];
  deleted = false;
  preserve_value = true;
  expires_at_unix_millis = some deadline;
  condition = always;
}

unfoldable pub with_condition : MutationShape → Condition → MutationShape
with_condition shape condition = record shape { condition = condition }

abbrev pub flag : Bool → ℕ
flag true = 1
flag false = 0

abbrev pub deadline_bytes : Option ℕ → Bytes
deadline_bytes (some deadline) = 1 ∷ be_bytes 8 deadline
deadline_bytes none = 0 ∷ []

abbrev pub condition_bytes : Condition → Bytes
condition_bytes always = 0 ∷ []
condition_bytes absent = 1 ∷ []
condition_bytes (version v) =
    2
    ∷ (be_bytes 8 v.topology_epoch
        ++ (be_bytes 8 v.owner_sequence
            ++ (be_bytes 8 (length v.owner_node_id) ++ v.owner_node_id)))

-- What is hashed.
unfoldable pub preimage : Bytes → MutationShape → Bytes
unfolding be_bytes
preimage key shape =
    codes "hashring-rs:mutation:v3"
    ++ (0 ∷ be_bytes 8 (length key)
        ++ (key
            ++ (flag shape.deleted ∷ flag shape.preserve_value ∷ be_bytes 8 (length shape.value)
                ++ (shape.value
                    ++ (deadline_bytes shape.expires_at_unix_millis
                        ++ condition_bytes shape.condition)))))

unfoldable pub mutation_fingerprint : (Bytes → Bytes) → Bytes → MutationShape → Bytes
unfolding preimage
mutation_fingerprint blake3 key shape = blake3 (preimage key shape)
