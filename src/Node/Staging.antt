-- ===== src/Node/Staging.antt =====
-- Receipts that a migration stages at its destination: `stage_dedup` and `purge_staged_dedup` of
-- crates/hashring-node/src/dedup.rs, with the fields of `DestinationMigration` that they use. The
-- message `DeduplicationRecord` is that of crates/hashring-core/proto/hashring.proto. An `Instant` is a
-- number of nanoseconds.
pub mod Staged
mod Tests
use Prim.Native.Nat.{ℕ, zero, suc}
use hashring_rs.Prelude.{
  ◌+◌, ◌-◌, ◌*◌, ◌^◌, Bytes, same, List, [], ◌∷◌, Bool, true, false, not, ◌&&◌, ◌||◌, ltb, ◌==◌,
  length, is_empty, filter, if◌then◌else◌, Option, none, some, Result, ok, err, panic,
}
use hashring_rs.Node.Versions.{RecordVersion}
use hashring_rs.Node.Dedup.{same_version}
use hashring_rs.Node.Store.{Map, find_entry, put_entry}

abbrev pub max_mutation_id_bytes : ℕ
max_mutation_id_bytes = 128

pub record DeduplicationRecord : Type 0 where
  pub mutation_id : Bytes
  pub key : Bytes
  pub fingerprint : Bytes
  pub version : Option RecordVersion
  pub deleted : Bool
  pub remaining_retention_millis : ℕ

pub record StagedDedup : Type 0 where
  pub receipt : DeduplicationRecord
  pub expires_at : ℕ
  pub retained_bytes : ℕ

pub record DestinationMigration : Type 0 where
  pub dedup : Map StagedDedup
  pub dedup_bytes : ℕ

pub data Status : Type 0 where
  invalid_argument failed_precondition resource_exhausted : Status

-- What becomes of the destination, and what is answered.
abbrev pub Outcome : Type 0
Outcome = DestinationMigration × Result Status (Unit {0})

abbrev pub same_optional : Option RecordVersion → Option RecordVersion → Bool
same_optional none none = true
same_optional none (some b) = false
same_optional (some a) none = false
same_optional (some a) (some b) = same_version a b

abbrev pub same_flag : Bool → Bool → Bool
same_flag true b = b
same_flag false b = not b

-- Whether two records are of the same mutation.
abbrev pub same_receipt : DeduplicationRecord → DeduplicationRecord → Bool
same_receipt a b =
    same a.key b.key
    && same a.fingerprint b.fingerprint
    && same_optional a.version b.version
    && same_flag a.deleted b.deleted

abbrev max : ℕ → ℕ → ℕ
max a b = if ltb a b then b else a

abbrev min : ℕ → ℕ → ℕ
min a b = if ltb b a then b else a

abbrev pub saturating : ℕ → ℕ
saturating n = min n (2 ^ 64 - 1)

abbrev pub is_missing : Option RecordVersion → Bool
is_missing none = true
is_missing (some v) = false

unfoldable pub is_invalid : DeduplicationRecord → Bool
is_invalid r =
    is_empty r.mutation_id
    || ltb max_mutation_id_bytes (length r.mutation_id)
    || not (length r.fingerprint == 32)
    || is_missing r.version

abbrev pub again : DestinationMigration → DeduplicationRecord → ℕ → StagedDedup → Outcome
again destination r expires_at existing =
    if not (same_receipt existing.receipt r) then (destination, err failed_precondition) else (
      record destination {
        dedup =
            put_entry destination.dedup r.mutation_id
              (record existing { expires_at = max existing.expires_at expires_at });
      },
      ok tt,
    )

-- `size_of` of `(String, StagedDedup)` is a parameter.
module _ (size_of_staged : ℕ) where
  unfoldable pub staged_dedup_retained_bytes : Bytes → ℕ → ℕ → ℕ
  staged_dedup_retained_bytes mutation_id key_len owner_len =
      saturating (length mutation_id * 2) + key_len + owner_len + 32 + size_of_staged + 64

  abbrev pub cost : DeduplicationRecord → RecordVersion → ℕ
  cost r version =
      staged_dedup_retained_bytes r.mutation_id (length r.key) (length version.owner_node_id)

  -- A record that is new, whose version was checked to be there.
  abbrev pub stage_new :
      DestinationMigration → DeduplicationRecord → ℕ → ℕ → Option RecordVersion → Outcome
  stage_new destination r max_dedup_bytes expires_at none = (destination, panic)
  stage_new destination r max_dedup_bytes expires_at (some version) =
      if ltb max_dedup_bytes (saturating (destination.dedup_bytes + cost r version))
      then (destination, err resource_exhausted)
      else (
        record {
          dedup =
              put_entry destination.dedup r.mutation_id
                (record { receipt = r; expires_at = expires_at; retained_bytes = cost r version });
          dedup_bytes = destination.dedup_bytes + cost r version;
        },
        ok tt,
      )

  abbrev pub stage_found :
      DestinationMigration → DeduplicationRecord → ℕ → ℕ → Option StagedDedup → Outcome
  stage_found destination r max_dedup_bytes expires_at none =
      stage_new destination r max_dedup_bytes expires_at r.version
  stage_found destination r max_dedup_bytes expires_at (some existing) =
      again destination r expires_at existing

  unfoldable pub stage_dedup : DestinationMigration → DeduplicationRecord → ℕ → ℕ → ℕ → Outcome
  unfolding is_invalid staged_dedup_retained_bytes
  stage_dedup destination r max_dedup_bytes retention_millis now =
      let expires_at = now + min r.remaining_retention_millis retention_millis * 1_000_000 in
      if r.remaining_retention_millis == 0
      then (destination, ok tt)
      else if is_invalid r
      then (destination, err invalid_argument)
      else stage_found destination r max_dedup_bytes expires_at
          (find_entry destination.dedup r.mutation_id)

abbrev pub sum_retained : Map StagedDedup → ℕ
sum_retained [] = 0
sum_retained (e ∷ es) = e.1.retained_bytes + sum_retained es

unfoldable pub purge_staged_dedup : DestinationMigration → ℕ → DestinationMigration
purge_staged_dedup destination now =
    let kept = filter (λ e. ltb now e.1.expires_at) destination.dedup in
    record { dedup = kept; dedup_bytes = sum_retained kept }
