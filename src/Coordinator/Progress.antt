-- ===== src/Coordinator/Progress.antt =====
-- `replace_range_progress` of crates/hashring-coordinator/src/migration_helpers.rs.
use hashring_rs.Prelude.{
  ◌≡◌, refl, sym, ap, inl, inr, Bytes, same, same-true, same_refl, List, [], ◌∷◌, map, Bool, find,
  any, Bool-cases, if◌then◌else◌, none, some,
}
use hashring_rs.Migration.Types.{RangeMigration, TopologyChange}
use hashring_rs.Coordinator.Helpers.{replace_first, replace_range_progress}

abbrev pub ids : List RangeMigration → List Bytes
ids rs = map (λ (r : RangeMigration). r.range_id) rs

abbrev pub has_id : RangeMigration → RangeMigration → Bool
has_id progress r = same r.range_id progress.range_id

replace_first-ids :
    (rs : List RangeMigration) (progress : RangeMigration)
    → ids (replace_first rs progress) ≡ ids rs
unfolding replace_first
replace_first-ids [] progress = refl
replace_first-ids (r ∷ rs) progress = elim (Bool-cases (has_id progress r)) [
  | inl k ↦
      let eq : progress.range_id ≡ r.range_id = sym (same-true r.range_id progress.range_id k) in
      rw k (ap (λ z. z ∷ ids rs) eq)
  | inr k ↦ rw k (ap (λ z. r.range_id ∷ z) (replace_first-ids rs progress))
]

replace_first-find :
    (rs : List RangeMigration) (progress : RangeMigration)
    → find (has_id progress) (replace_first rs progress)
      ≡ (if any (has_id progress) rs then some progress else none)
unfolding replace_first
replace_first-find [] progress = refl
replace_first-find (r ∷ rs) progress = elim (Bool-cases (has_id progress r)) [
  | inl k ↦ rw (k, same_refl progress.range_id)
  | inr k ↦ rw (k, k) (replace_first-find rs progress)
]

-- Recorded progress leaves the ids of the ranges and their order as they are, and is what its id
-- finds afterwards, if a range with that id was there.
pub replace_range_progress-found :
    (change : TopologyChange) (progress : RangeMigration)
    → (ids (replace_range_progress change progress).ranges ≡ ids change.ranges)
      × (find (has_id progress) (replace_range_progress change progress).ranges
          ≡ (if any (has_id progress) change.ranges then some progress else none))
unfolding replace_range_progress
replace_range_progress-found change progress =
    (replace_first-ids change.ranges progress, replace_first-find change.ranges progress)
