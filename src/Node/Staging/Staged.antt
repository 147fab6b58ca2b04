-- ===== src/Node/Staging/Staged.antt =====
-- The outcomes of `stage_dedup` of crates/hashring-node/src/dedup.rs.
use hashring_rs.Prelude.{
  ℕ, ◌+◌, ◌-◌, ◌^◌, ◌≤◌, ◌<◌, ◌≡◌, refl, sym, ap, subst, inl, inr, Bytes, same_refl, same-true, [],
  ◌∷◌, Bool, true, false, ◌==◌, ltb, Bool-cases, arith, filter, Option, none, some, ok, err, panic,
}
use hashring_rs.Node.Versions.{RecordVersion}
use hashring_rs.Node.Dedup.{same_version}
use hashring_rs.Node.Store.{Map, find_entry, put_entry}
use hashring_rs.Node.Store.Entries.{find_entry-put_entry}
use hashring_rs.Node.Receipts.Totals.{total, weight_of, total-put_entry}
use hashring_rs.Node.Staging.{
  DeduplicationRecord, StagedDedup, DestinationMigration, Outcome, same_receipt, is_invalid,
  same_optional, same_flag, again, cost, saturating, is_missing, stage_new, stage_found,
  stage_dedup, sum_retained, purge_staged_dedup,
}

abbrev retained : StagedDedup → ℕ
retained s = s.retained_bytes

sum_retained-total : (entries : Map StagedDedup) → sum_retained entries ≡ total retained entries
sum_retained-total [] = refl
sum_retained-total (e ∷ es) = ap (λ n. e.1.retained_bytes + n) (sum_retained-total es)

-- The bytes are those of the receipts, within the limit.
abbrev pub IsStaged : ℕ → DestinationMigration → Type 0
IsStaged limit destination =
    (sum_retained destination.dedup ≡ destination.dedup_bytes) × (destination.dedup_bytes ≤ limit)

-- A receipt of the same mutation: with its key, its fingerprint, its version and its kind.
pub record IsReceiptOf (r : DeduplicationRecord) (s : StagedDedup) : Type 0 where
  pub key : s.receipt.key ≡ r.key
  pub fingerprint : s.receipt.fingerprint ≡ r.fingerprint
  pub version : s.receipt.version ≡ r.version
  pub deleted : s.receipt.deleted ≡ r.deleted

-- The receipt that is held under the mutation.
abbrev pub IsHeld : DestinationMigration → DeduplicationRecord → Type 0
IsHeld destination r =
    (s : StagedDedup) × (find_entry destination.dedup r.mutation_id ≡ some s) × IsReceiptOf r s

-- What was held under the mutation, if anything was, is of the same mutation.
abbrev pub Agrees : DeduplicationRecord → Option StagedDedup → Type 0
Agrees r none = Unit
Agrees r (some s) = IsReceiptOf r s

-- After an answer: a record that is accepted agrees with what was held, and is held; one that is
-- refused changes nothing.
abbrev pub IsOutcome : ℕ → DestinationMigration → DeduplicationRecord → Outcome → Type 0
IsOutcome limit before r (after, ok _) =
    IsStaged limit after × Agrees r (find_entry before.dedup r.mutation_id) × IsHeld after r
IsOutcome limit before r (after, err e) = after ≡ before
IsOutcome limit before r (after, panic) = ⊥

put_total :
    (entries : Map StagedDedup) (id : Bytes) (s : StagedDedup)
    → sum_retained (put_entry entries id s) + weight_of retained (find_entry entries id)
      ≡ sum_retained entries + s.retained_bytes
put_total entries id s =
    rw (sum_retained-total (put_entry entries id s), sum_retained-total entries)
      (total-put_entry retained entries id s)

put_held :
    (entries : Map StagedDedup) (r : DeduplicationRecord) (s : StagedDedup)
    → find_entry (put_entry entries r.mutation_id s) r.mutation_id ≡ some s
put_held entries r s =
    rw (find_entry-put_entry entries r.mutation_id s r.mutation_id, same_refl r.mutation_id) refl

same_version-true : (v w : RecordVersion) → same_version v w ≡ true → v ≡ w
same_version-true v w h = ground (arith, h, same-true v.owner_node_id w.owner_node_id)

same_optional-true : (v w : Option RecordVersion) → same_optional v w ≡ true → v ≡ w
same_optional-true none none h = refl
same_optional-true none (some w) h = absurd (ground (arith, h))
same_optional-true (some v) none h = absurd (ground (arith, h))
same_optional-true (some v) (some w) h = ap some (same_version-true v w h)

same_flag-true : (b c : Bool) → same_flag b c ≡ true → b ≡ c
same_flag-true true c h = sym h
same_flag-true false true h = absurd (ground (arith, h))
same_flag-true false false h = refl

-- What the code compares makes the receipts agree.
same_receipt-IsReceiptOf :
    (s : StagedDedup) (r : DeduplicationRecord) → same_receipt s.receipt r ≡ true → IsReceiptOf r s
same_receipt-IsReceiptOf s r h = record {
  key = same-true s.receipt.key r.key (ground (arith, h));
  fingerprint = same-true s.receipt.fingerprint r.fingerprint (ground (arith, h));
  version = same_optional-true s.receipt.version r.version (ground (arith, h));
  deleted = same_flag-true s.receipt.deleted r.deleted (ground (arith, h));
}

again-IsOutcome :
    (limit : ℕ) (destination : DestinationMigration) (r : DeduplicationRecord) (expires_at : ℕ)
    (existing : StagedDedup)
    → find_entry destination.dedup r.mutation_id ≡ some existing
    → IsStaged limit destination
    → IsOutcome limit destination r (again destination r expires_at existing)
again-IsOutcome limit destination r expires_at existing e (sum, few) =
    elim (Bool-cases (same_receipt existing.receipt r)) [
      | inl c ↦ rw c (
        (
          omega (
            arith,
            put_total destination.dedup r.mutation_id (record existing { expires_at = _ }),
            ap (weight_of retained) e,
            sum,
          ),
          few,
        ),
        subst (Agrees r) (sym e) (same_receipt-IsReceiptOf existing r c),
        (
          _,
          put_held destination.dedup r _,
          same_receipt-IsReceiptOf (record existing { expires_at = _ }) r c,
        ),
      )
      | inr c ↦ rw c refl
    ]

valid-is_missing : (r : DeduplicationRecord) → is_invalid r ≡ false → is_missing r.version ≡ false
unfolding is_invalid
valid-is_missing r h = ground (arith, h)

stage_new-IsOutcome :
    (size limit : ℕ) (destination : DestinationMigration) (r : DeduplicationRecord) (expires_at : ℕ)
    (version : Option RecordVersion)
    → r.version ≡ version
    → is_invalid r ≡ false
    → limit < 2 ^ 64 - 1
    → find_entry destination.dedup r.mutation_id ≡ none
    → IsStaged limit destination
    → IsOutcome limit destination r (stage_new size destination r limit expires_at version)
stage_new-IsOutcome size limit destination r expires_at none v valid small e m =
    absurd (ground (arith, valid-is_missing r valid, ap is_missing v))
stage_new-IsOutcome size limit destination r expires_at (some version) v valid small e (sum, few) =
    elim (Bool-cases (ltb limit (saturating (destination.dedup_bytes + cost size r version)))) [
      | inl c ↦ rw c refl
      | inr c ↦ rw c (
        (
          omega
              (arith, put_total destination.dedup r.mutation_id _, ap (weight_of retained) e, sum),
          ground arith,
        ),
        subst (Agrees r) (sym e) tt,
        (
          _,
          put_held destination.dedup r _,
          record { key = refl; fingerprint = refl; version = refl; deleted = refl },
        ),
      )
    ]

stage_found-IsOutcome :
    (size limit : ℕ) (destination : DestinationMigration) (r : DeduplicationRecord) (expires_at : ℕ)
    (found : Option StagedDedup)
    → is_invalid r ≡ false
    → limit < 2 ^ 64 - 1
    → find_entry destination.dedup r.mutation_id ≡ found
    → IsStaged limit destination
    → IsOutcome limit destination r (stage_found size destination r limit expires_at found)
stage_found-IsOutcome size limit destination r expires_at none valid small e m =
    stage_new-IsOutcome size limit destination r expires_at r.version refl valid small e m
stage_found-IsOutcome size limit destination r expires_at (some existing) valid small e m =
    again-IsOutcome limit destination r expires_at existing e m

-- Where a destination's `dedup_bytes` is the sum of its receipts' bytes and within a limit below the
-- greatest 64-bit number, a record with some retention left that `stage_dedup` accepts is held
-- afterwards, under its mutation and with its key, fingerprint, version and kind, which a receipt held
-- before under the mutation had too, and the bytes are their sum within the limit again; one that it
-- refuses changes nothing; and it does not panic.
pub stage_dedup-IsOutcome :
    (size limit : ℕ) (destination : DestinationMigration) (r : DeduplicationRecord)
    (retention_millis now : ℕ)
    → 0 < r.remaining_retention_millis
    → limit < 2 ^ 64 - 1
    → IsStaged limit destination
    → IsOutcome limit destination r (stage_dedup size destination r limit retention_millis now)
unfolding stage_dedup
stage_dedup-IsOutcome size limit destination r retention_millis now left small m =
    let lasting : (r.remaining_retention_millis == 0) ≡ false = ground arith in
    rw lasting (elim (Bool-cases (is_invalid r)) [
      | inl c ↦ rw c refl
      | inr c ↦ rw c (
          stage_found-IsOutcome size limit destination r _
            (find_entry destination.dedup r.mutation_id) c small refl m)
    ])

sum_retained-filter_le :
    (p : Bytes × StagedDedup → Bool) (entries : Map StagedDedup)
    → sum_retained (filter p entries) ≤ sum_retained entries
sum_retained-filter_le p [] = omega arith
sum_retained-filter_le p (e ∷ es) = ground (arith, sum_retained-filter_le p es)

-- A purge keeps the bytes the sum, within the limit.
pub purge_staged_dedup-IsStaged :
    (limit : ℕ) (destination : DestinationMigration) (now : ℕ)
    → IsStaged limit destination
    → IsStaged limit (purge_staged_dedup destination now)
unfolding purge_staged_dedup
purge_staged_dedup-IsStaged limit destination now (sum, few) = (
  refl,
  omega (arith, few, sum, sum_retained-filter_le (λ e. ltb now e.1.expires_at) destination.dedup),
)
