-- ===== src/Node/Tests.antt =====
-- The theorems on records and on the token index at small ones.
use hashring_rs.Prelude.{
  ℕ, ◌≡◌, refl, Bytes, codes, same, Bytes_discrete, ℕ_discrete, bytes_leb, [], ◌∷◌, false, not,
  ◌&&◌, ◌||◌, ◌==◌, arith, any, none, some,
}
use hashring_rs.Interval.{interval_contains, token_bounds}
use hashring_rs.Node.Versions.{
  RecordVersion, Record, Records, compare_numbers, compare_bytes, compare_versions,
  apply_internal_record, apply_all,
}
use hashring_rs.Node.Newest.{swap, apply_all-Reordered}
use hashring_rs.Node.Retries.{apply_all-again}
use hashring_rs.Node.Index.{
  TokenIndex, put_bucket, drop_bucket, set_insert, set_remove, add_to, insert, remove_from, remove,
  contains, in_each, in_range, len_at,
}
use hashring_rs.Node.Contents.{contains-insert, contains-remove}
use hashring_rs.Node.Buckets.{IsIndex}
use mathlib.Core.List.Memᴰ
use hashring_rs.Node.Ranges.{hit, in_range-contains}

runs : Unit {0}
unfolding Bytes_discrete ℕ_discrete bytes_leb compare_numbers compare_bytes compare_versions
    apply_internal_record apply_all put_bucket drop_bucket set_insert set_remove add_to insert
    remove_from remove contains in_each in_range token_bounds len_at
runs = tt

abbrev written : Bytes → RecordVersion → Record
written key version = record {
  value = key;
  version = version;
  deleted = false;
  expires_at_unix_millis = none;
}

abbrev version_of : ℕ → RecordVersion
version_of n = record { topology_epoch = 1; owner_sequence = n; owner_node_id = codes "a" }

abbrev first : Bytes × Record
first = (codes "k", written (codes "k") (version_of 1))

abbrev second : Bytes × Record
second = (codes "k", written (codes "k") (version_of 2))

abbrev nothing : Records
nothing = λ key. none

the_newest_is_kept :
    apply_all nothing (second ∷ first ∷ []) (codes "k") ≡ some (written (codes "k") (version_of 2))
unfolding runs
the_newest_is_kept = refl

apply_all-Reordered_example :
    apply_all nothing (first ∷ second ∷ []) (codes "k")
    ≡ apply_all nothing (second ∷ first ∷ []) (codes "k")
apply_all-Reordered_example =
    apply_all-Reordered written nothing (first ∷ second ∷ []) (second ∷ first ∷ []) (codes "k")
      (swap first second []) (refl, (refl, tt))

-- The older of the two records arrives again, after the newer.
apply_all-again_example :
    apply_all (apply_all nothing (first ∷ second ∷ [])) (first ∷ []) (codes "k")
    ≡ apply_all nothing (first ∷ second ∷ []) (codes "k")
apply_all-again_example =
    apply_all-again nothing (first ∷ second ∷ []) (first ∷ []) (codes "k") (Memᴰ.head refl, tt)

-- Two texts on one token and one on another.
abbrev three_texts : TokenIndex
three_texts = insert (insert (insert [] 7 (codes "b")) 9 (codes "c")) 7 (codes "a")

three_texts-IsIndex : IsIndex three_texts
unfolding runs
three_texts-IsIndex = ((omega arith, tt), (((refl, refl), tt), (tt, tt)), (tt, (tt, tt), tt))

two_on_a_token : len_at three_texts 7 ≡ 2
unfolding runs
two_on_a_token = refl

contains-remove_example :
    ((remove three_texts 7 (codes "a")).1 ≡ contains three_texts 7 (codes "a"))
    × (contains (remove three_texts 7 (codes "a")).0 7 (codes "b")
        ≡ (contains three_texts 7 (codes "b") && not (7 == 7 && same (codes "a") (codes "b"))))
contains-remove_example =
    contains-remove three_texts 7 (codes "a") 7 (codes "b") three_texts-IsIndex

in_range-contains_example :
    any (hit 7 (codes "b")) (in_range three_texts 8 7)
    ≡ (contains three_texts 7 (codes "b") && interval_contains 8 7 7)
in_range-contains_example = in_range-contains three_texts 8 7 7 (codes "b") three_texts-IsIndex

contains-insert_example :
    contains (insert three_texts 8 (codes "d")) 7 (codes "b")
    ≡ ((8 == 7 && same (codes "d") (codes "b")) || contains three_texts 7 (codes "b"))
contains-insert_example = contains-insert three_texts 8 (codes "d") 7 (codes "b")
