-- ===== src/Topology/Partition.antt =====
-- The ranges of `TopologySnapshot::derived_ranges` in crates/hashring-core/src/topology.rs part the
-- ring.
use mathlib.Core.Bool.{false≢true}
use hashring_rs.Interval.{interval_contains}
use hashring_rs.Prelude.{
  ℕ, zero, suc, ◌≤◌, ◌<◌, ◌≡◌, refl, sym, ap, ◌∙◌, ◌⊎◌, inl, inr, Bytes, List, [], ◌∷◌, map, Bool,
  true, false, arith, ltb, leb, length, subst, ◌||◌, get_elem?, All, All-map_of, some, ok,
  Bool-cases,
}
use hashring_rs.Prelude.Sort.{IsSorted}
use hashring_rs.Topology.Types.{TokenAssignment, TopologySnapshot, DerivedRange}
use hashring_rs.Topology.Lookup.{replica_node_ids_for_token, ranges_from, derived_ranges, dedup}
use hashring_rs.Topology.Clockwise.{token_leb, clockwise}
use hashring_rs.Topology.Boundaries.{
  token_of, Gaps, last_of, last?-last_of, le-last_of, IsBoundaries, dedup-IsBoundaries,
}
use hashring_rs.Topology.Ranges.{
  IsRing, clockwise-Gap, clockwise_first, replicas_eq, replicas-cons, followers,
}

abbrev pub range_has : DerivedRange → ℕ → Bool
range_has r t = interval_contains r.start_exclusive r.end_inclusive t

-- The nodes of a range, owner first.
abbrev pub nodes : DerivedRange → List Bytes
nodes r = r.owner_node_id ∷ r.follower_node_ids

-- The ranges that the loop makes of the boundaries after `p`.
abbrev Chain : TopologySnapshot → ℕ → List ℕ → List DerivedRange → Type 0
Chain s p [] [] = Unit
Chain s p [] (r ∷ rs) = ⊥
Chain s p (e ∷ es) [] = ⊥
Chain s p (e ∷ es) (r ∷ rs) =
    (r.start_exclusive ≡ p)
    × (r.end_inclusive ≡ e)
    × (replica_node_ids_for_token s e ≡ ok (nodes r))
    × Chain s e es rs

ranges_from-cons :
    (s : TopologySnapshot) (p e : ℕ) (es : List ℕ) (o : Bytes) (fs : List Bytes)
    (rs : List DerivedRange)
    → replica_node_ids_for_token s e ≡ ok (o ∷ fs)
    → ranges_from s e es ≡ ok rs
    → ranges_from s p (e ∷ es)
      ≡ ok (
          record {
            start_exclusive = p;
            end_inclusive = e;
            owner_node_id = o;
            follower_node_ids = fs;
          }
          ∷ rs)
unfolding ranges_from
ranges_from-cons s p e es o fs rs code later = rw (code, later)

-- The loop never fails, and makes a range for each boundary.
ranges_from-Chain :
    (s : TopologySnapshot) (p : ℕ) (bs : List ℕ)
    → IsRing s
    → (rs : List DerivedRange) × (ranges_from s p bs ≡ ok rs) × Chain s p bs rs
ranges_from-Chain s p [] ring = ([], unfold ranges_from in refl, tt)
ranges_from-Chain s p (e ∷ es) ring = go (replicas-cons s e ring) (ranges_from-Chain s e es ring)
  where
    go :
        ((a : TokenAssignment) × (rest : List TokenAssignment) × (clockwise e s.assignments
            ≡ a ∷ rest)
          × (replica_node_ids_for_token s e ≡ ok (a.node_id ∷ followers s a rest)))
        → ((rs : List DerivedRange) × (ranges_from s e es ≡ ok rs) × Chain s e es rs)
        → (rs : List DerivedRange) × (ranges_from s p (e ∷ es) ≡ ok rs) × Chain s p (e ∷ es) rs
    go (a, rest, _, code) (rs, later, chain) = (
      _,
      ranges_from-cons s p e es a.node_id (followers s a rest) rs code later,
      (refl, refl, code, chain),
    )

-- Where a token is, and that it is nowhere else.
abbrev pub Located : TopologySnapshot → List DerivedRange → ℕ → Type 0
Located s rs t =
    (i : ℕ) × (r : DerivedRange) × (get_elem? rs i ≡ some r)
    × (range_has r t ≡ true)
    × (replica_node_ids_for_token s t ≡ ok (nodes r))
    × ((j : ℕ) (q : DerivedRange) → get_elem? rs j ≡ some q → range_has q t ≡ true → j ≡ i)

not_below :
    (s : TopologySnapshot) (p : ℕ) (es : List ℕ) (rs : List DerivedRange) (t : ℕ)
    → Gaps p es s.assignments
    → Chain s p es rs
    → (t ≤ p) ⊎ (last_of p es < t)
    → (j : ℕ) (q : DerivedRange) → get_elem? rs j ≡ some q
    → range_has q t ≡ false
not_below s p [] [] t g c h j q e = cc
not_below s p [] (r ∷ rs) t g c h j q e = elim c [ ]
not_below s p (e ∷ es) [] t g c h j q at = elim c [ ]
not_below s p (e ∷ es) (r ∷ rs) t g c h zero q at =
    let same_one : r ≡ q = ground arith in
    rw (← same_one, c.0, c.1) (ground (arith, le-last_of e es s.assignments g.2))
not_below s p (e ∷ es) (r ∷ rs) t g c h (suc j) q at =
    not_below s e es rs t g.2 c.3 (omega arith) j q at

some_injective : {r q : DerivedRange} → some r ≡ some q → r ≡ q
some_injective e = ground arith

only_first :
    (r : DerivedRange) (rs : List DerivedRange) (t : ℕ)
    → ((j : ℕ) (q : DerivedRange) → get_elem? rs j ≡ some q → range_has q t ≡ false)
    → (j : ℕ) (q : DerivedRange) → get_elem? (r ∷ rs) j ≡ some q
    → range_has q t ≡ true
    → j ≡ 0
only_first r rs t others zero q at has = refl
only_first r rs t others (suc j) q at has = absurd (false≢true (sym (others j q at) ∙ has))

only_later :
    (r : DerivedRange) (rs : List DerivedRange) (t i : ℕ)
    → range_has r t ≡ false
    → ((j : ℕ) (q : DerivedRange) → get_elem? rs j ≡ some q → range_has q t ≡ true → j ≡ i)
    → (j : ℕ) (q : DerivedRange) → get_elem? (r ∷ rs) j ≡ some q
    → range_has q t ≡ true
    → j ≡ suc i
only_later r rs t i out others zero q at has =
    absurd (false≢true (sym out ∙ ap (λ x. range_has x t) (some_injective at) ∙ has))
only_later r rs t i out others (suc j) q at has = ap suc (others j q at has)

Located-later :
    (s : TopologySnapshot) (r : DerivedRange) (rs : List DerivedRange) (t : ℕ)
    → range_has r t ≡ false
    → Located s rs t
    → Located s (r ∷ rs) t
Located-later s r rs t out (i, q, at, has, code, others) =
    (suc i, q, at, has, code, only_later r rs t i out others)

located :
    (s : TopologySnapshot) (p : ℕ) (es : List ℕ) (rs : List DerivedRange) (t : ℕ)
    → IsRing s
    → Gaps p es s.assignments
    → Chain s p es rs
    → p < t
    → t ≤ last_of p es
    → Located s rs t
located s p [] [] t ring g c lo hi = absurd (omega arith)
located s p [] (r ∷ rs) t ring g c lo hi = elim c [ ]
located s p (e ∷ es) [] t ring g c lo hi = elim c [ ]
located s p (e ∷ es) (r ∷ rs) t ring g c lo hi = elim (Bool-cases (leb t e)) [
  | inl here ↦ (
    0,
    r,
    refl,
    rw (c.0, c.1) (ground arith),
    replicas_eq s t e ring (clockwise-Gap p t e s.assignments lo (ground arith) g.1) ∙ c.2,
    only_first r rs t (not_below s e es rs t g.2 c.3 (inl (ground arith))),
  )
  | inr later ↦
      Located-later s r rs t (rw (c.0, c.1) (ground arith))
        (located s e es rs t ring g.2 c.3 (ground arith) hi)
]

-- The range that wraps, before the others.
Located-first :
    (s : TopologySnapshot) (b : ℕ) (bs : List ℕ) (rs : List DerivedRange) (first : DerivedRange)
    (t : ℕ)
    → IsRing s
    → IsBoundaries b bs s.assignments
    → Chain s b bs rs
    → first.start_exclusive ≡ last_of b bs
    → first.end_inclusive ≡ b
    → replica_node_ids_for_token s b ≡ ok (nodes first)
    → Located s (first ∷ rs) t
Located-first s b bs rs first t ring (g, low, high) c from to code =
    elim (Bool-cases (leb t b || ltb (last_of b bs) t)) [
      | inl outer ↦
          let side : (t ≤ b) ⊎ (last_of b bs < t) = ground arith in
          let before : (t ≤ b) ⊎ All (λ x. x.token < t) s.assignments = elim side [
            | inl h ↦ inl h
            | inr h ↦ inr (All-map_of (λ x k. omega arith) s.assignments high)
          ] in
          (
            0,
            first,
            refl,
            rw (from, to) (ground (arith, le-last_of b bs s.assignments g)),
            replicas_eq s t b ring (
                  clockwise_first b t s.assignments before low
                  ∙ sym (clockwise_first b b s.assignments (inl (omega arith)) low))
                ∙ code,
            only_first first rs t (not_below s b bs rs t g c side),
          )
      | inr inner ↦
          Located-later s first rs t (rw (from, to) (ground arith))
            (located s b bs rs t ring g c (ground arith) (ground arith))
    ]

derived_ranges-from :
    (s : TopologySnapshot) (b : ℕ) (bs : List ℕ)
    → dedup (map token_of s.assignments) ≡ b ∷ bs
    → derived_ranges s ≡ ranges_from s (last_of b bs) (b ∷ bs)
unfolding derived_ranges
derived_ranges-from s b bs d = rw (d, last?-last_of)

-- The derived ranges part the ring: each token lies in exactly one of them, and its replicas are
-- the nodes of that range, the owner first.
pub ranges_partition :
    (s : TopologySnapshot)
    → IsRing s
    → (rs : List DerivedRange) × (derived_ranges s ≡ ok rs) × ((t : ℕ) → Located s rs t)
ranges_partition s ring = go s.assignments refl ring.ordered ring.nonempty
  where
    build :
        (b : ℕ) (bs : List ℕ)
        → dedup (map token_of s.assignments) ≡ b ∷ bs
        → IsBoundaries b bs s.assignments
        → ((rs : List DerivedRange) × (ranges_from s b bs ≡ ok rs) × Chain s b bs rs)
        → ((a : TokenAssignment) × (rest : List TokenAssignment) × (clockwise b s.assignments
              ≡ a ∷ rest)
            × (replica_node_ids_for_token s b ≡ ok (a.node_id ∷ followers s a rest)))
        → (rs : List DerivedRange) × (derived_ranges s ≡ ok rs) × ((t : ℕ) → Located s rs t)
    build b bs d bounds (rs, later, chain) (a, rest, _, code) = (
      _,
      derived_ranges-from s b bs d
          ∙ ranges_from-cons s (last_of b bs) b bs a.node_id (followers s a rest) rs code later,
      λ t. Located-first s b bs rs _ t ring bounds chain refl refl code,
    )

    go :
        (xs : List TokenAssignment)
        → s.assignments ≡ xs
        → IsSorted token_leb s.assignments
        → 0 < length s.assignments
        → (rs : List DerivedRange) × (derived_ranges s ≡ ok rs) × ((t : ℕ) → Located s rs t)
    go [] e h pos = absurd (ground arith)
    go (x ∷ xs) e h pos =
        let (bs, d, bounds) = dedup-IsBoundaries x xs (subst (IsSorted token_leb) e h) in
        build x.token bs (ap (λ l. dedup (map token_of l)) e ∙ d)
          (subst (IsBoundaries x.token bs) (sym e) bounds) (ranges_from-Chain s x.token bs ring)
          (replicas-cons s x.token ring)
