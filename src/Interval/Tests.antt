-- ===== src/Interval/Tests.antt =====
-- The theorems on intervals at one that wraps.
use hashring_rs.Prelude.{ℕ, ◌<◌, ◌≡◌, ◌↔◌, ◌^◌, true, arith, ◌||◌, ◌&&◌, ◌==◌, ltb, leb}
use hashring_rs.Interval.{
  interval_contains, intervals_overlap, spec_contains, range_contains, token_in_range,
  distance_from, interval_contains-distance, intervals_overlap_iff,
}

interval_contains-distance_example :
    (spec_contains 90 10 5 ≡ interval_contains 90 10 5)
    × (range_contains 90 10 5 ≡ interval_contains 90 10 5)
    × (token_in_range 90 10 5 ≡ interval_contains 90 10 5)
    × (interval_contains 90 10 5 ≡ (
        90 == 10 || ltb 0 (distance_from 90 5) && leb (distance_from 90 5) (distance_from 90 10)))
interval_contains-distance_example =
    interval_contains-distance 90 10 5 (omega arith) (omega arith) (omega arith)

intervals_overlap_iff_example : (intervals_overlap 90 10 5 20 ≡ true) ↔ (
    (t : ℕ) × (t < 2 ^ 64) × (interval_contains 90 10 t ≡ true) × (interval_contains 5 20 t ≡ true))
intervals_overlap_iff_example =
    intervals_overlap_iff 90 10 5 20 (omega arith) (omega arith) (omega arith) (omega arith)
