-- ===== src/Node/Keyspace/Moving.antt =====
-- Every page of crates/hashring-node/src/keyspace.rs ends, and moves on.
use Prim.Native.Nat.{ℕ, zero, suc}
use hashring_rs.Prelude.{
  ◌+◌, ◌≤◌, ◌<◌, ◌≡◌, ◌≢◌, refl, sym, ap, ◌∙◌, same-true, same-false, get_elem?, ◌⊎◌, inl, inr,
  Bytes, same, List, [], ◌∷◌, true, false, not, ◌&&◌, leb, ◌==◌, Bool-cases, arith, length,
  All-filter_self, All-map_of, Option, none, some,
}
use hashring_rs.Topology.Types.{TokenAssignment}
use hashring_rs.Node.Buckets.{IsIndex}
use hashring_rs.Node.Store.{NodeState}
use hashring_rs.Node.Keyspace.{
  last_token, PageLimits, KeyPage, Progress, page_at, is_full, Walk, on, stopped, segment_of,
  in_stretch, one_more, walk_segment, go_on, pass, walk_segments, no_progress, page_of,
  owned_keys_page,
}
use hashring_rs.Node.Keyspace.Owners.{IsOwnerAt, segment_of-IsOwnerAt}
use hashring_rs.Node.Keyspace.Stretches.{before, before_le, segment_of-next}
use hashring_rs.Node.Keyspace.Walks.{Moved, WalkMoved, walk_tokens-Moved, walk_first-Moved}

-- A page is found, and the next one starts past a token.
abbrev pub Ends : ℕ → Option KeyPage → Type 0
Ends start o = (page : KeyPage) × (o ≡ some page) × Moved start page

module _ (state : NodeState) (node_id : Bytes) (now : ℕ) (limits : PageLimits) (start : ℕ) where
  walk_segment-Moved :
      (segment : ℕ × Bytes) (position : ℕ) (p : Progress)
      → start < position
      → WalkMoved start (walk_segment state node_id now limits segment position p)
  walk_segment-Moved (end, owner) position p h = elim (Bool-cases (same owner node_id)) [
    | inl c ↦ rw c (
        walk_tokens-Moved state node_id now limits start
          (in_stretch state node_id now limits position end state.records_by_token) p
          (All-map_of {P = λ e. (leb position e.0 && leb e.0 end) ≡ true} {Q = λ e. start < e.0}
            (λ e k. ground (arith, k, h)) _
            (All-filter_self (λ e. leb position e.0 && leb e.0 end) state.records_by_token)))
    | inr c ↦ rw c tt
  ]

  go_on-Ends :
      (w : Walk) (end : ℕ) (later : ℕ → Progress → Option KeyPage)
      → WalkMoved start w
      → ((end == last_token) ≡ false
          → (start ≤ end) × ((p : Progress) → Ends start (later (end + 1) p)))
      → Ends start (go_on state node_id now limits w end later)
  go_on-Ends (stopped page) end later h k = (page, refl, h)
  go_on-Ends (on p) end later h k = elim (Bool-cases (end == last_token)) [
    | inl c ↦ rw c (page_at p none, refl, tt)
    | inr c ↦ rw c (elim (Bool-cases (leb limits.max_examined p.examined)) [
      | inl d ↦ rw d (page_at p (some (end + 1)), refl, omega (arith, (k c).0))
      | inr d ↦ rw d ((k c).1 p)
    ])
  ]

  pass-Ends :
      (segment : ℕ × Bytes) (position : ℕ) (p : Progress) (later : ℕ → Progress → Option KeyPage)
      → start < position
      → ((segment.0 == last_token) ≡ false
          → (start ≤ segment.0) × ((p : Progress) → Ends start (later (segment.0 + 1) p)))
      → Ends start (pass state node_id now limits segment position p later)
  pass-Ends (end, owner) position p later h k =
      elim (Bool-cases (not (same owner node_id) && limits.one_stretch)) [
        | inl c ↦ rw c (page_at (one_more state node_id now limits p) (some position), refl, h)
        | inr c ↦
            let more = one_more state node_id now limits p in
            rw c (
              go_on-Ends (walk_segment state node_id now limits (end, owner) position more) end
                later (walk_segment-Moved (end, owner) position more h) k)
      ]

  walk_segments-Ends :
      (fuel : ℕ) (first : Bytes) (position : ℕ) (p : Progress)
      → start < position
      → length state.topology.assignments < before state.topology.assignments position + fuel
      → Ends start (walk_segments state node_id now limits fuel first position p)
  unfolding walk_segments
  walk_segments-Ends zero first position p h few =
      absurd (omega (arith, few, before_le state.topology.assignments position))
  walk_segments-Ends (suc fuel) first position p h few =
      let segment = segment_of state.topology.assignments first position in
      pass-Ends segment position p (walk_segments state node_id now limits fuel first) h (λ more.
        elim (segment_of-next state.topology.assignments first position) [
          | inl e ↦ absurd (ground (arith, e, more))
          | inr (low, next, top) ↦ (
            omega (arith, low, h),
            λ q.
                walk_segments-Ends fuel first (segment.0 + 1) q (omega (arith, low, h))
                  (omega (arith, next, few)),
          )
        ])

  -- The start is in a stretch that is the node's, or is another node's.
  abbrev pub StartsAtOwn : Type 0
  StartsAtOwn =
      (a : TokenAssignment) × IsOwnerAt state.topology.assignments start a × (a.node_id ≡ node_id)

  abbrev pub StartsAtOther : Type 0
  StartsAtOther =
      (a : TokenAssignment) × IsOwnerAt state.topology.assignments start a × (a.node_id ≢ node_id)

  -- The page moves on: there are no assignments, or it may go on past the first stretch, or that
  -- stretch is the node's.
  abbrev pub MovesOn : Option KeyPage → Type 0
  MovesOn o =
      Ends start o
      × ((state.topology.assignments ≡ []) ⊎ ((limits.one_stretch ≡ false) ⊎ StartsAtOwn))

  -- The only page that does not move on: it is asked to stop before another node's stretch, and
  -- starts there.
  abbrev pub StoppedAtStart : Option KeyPage → Type 0
  StoppedAtStart o =
      (limits.one_stretch ≡ true)
      × StartsAtOther
      × (o ≡ some (record { keys = []; count = 0; next = some start }))

  first_pass :
      (segment : ℕ × Bytes) (a : TokenAssignment) (later : ℕ → Progress → Option KeyPage)
      → IsOwnerAt state.topology.assignments start a
      → segment.1 ≡ a.node_id
      → IsIndex state.records_by_token
      → is_full limits (one_more state node_id now limits (no_progress state node_id now limits))
        ≡ false
      → ((segment.0 == last_token) ≡ false
          → (start ≤ segment.0) × ((p : Progress) → Ends start (later (segment.0 + 1) p)))
      → MovesOn
          (pass state node_id now limits segment start (no_progress state node_id now limits) later)
        ⊎ StoppedAtStart (
            pass state node_id now limits segment start
              (no_progress state node_id now limits)
              later)
  first_pass (end, owner) a later at whose m full k =
      elim (Bool-cases (not (same owner node_id) && limits.one_stretch)) [
        | inl c ↦
            let other : owner ≢ node_id = same-false owner node_id (ground (arith, c)) in
            inr (ground (arith, c), (a, at, λ e. other (whose ∙ e)), rw c refl)
        | inr c ↦
            let one = one_more state node_id now limits (no_progress state node_id now limits) in
            inl (
              rw c (
                  go_on-Ends (walk_segment state node_id now limits (end, owner) start one) end
                    later
                    (elim (Bool-cases (same owner node_id)) [
                      | inl s ↦ rw s (
                          walk_first-Moved state node_id now limits start end state.records_by_token
                            one m full)
                      | inr s ↦ rw s tt
                    ])
                    k),
              inr (elim (Bool-cases (same owner node_id)) [
                | inl s ↦ inr (a, at, sym whose ∙ same-true owner node_id s)
                | inr s ↦ inl (ground (arith, c, s))
              ]),
            )
      ]

  page_of-MovesOn :
      (assignments : List TokenAssignment)
      → state.topology.assignments ≡ assignments
      → IsIndex state.records_by_token
      → is_full limits (one_more state node_id now limits (no_progress state node_id now limits))
        ≡ false
      → MovesOn (page_of state node_id now limits assignments start)
        ⊎ StoppedAtStart (page_of state node_id now limits assignments start)
  unfolding walk_segments
  page_of-MovesOn [] e m full =
      inl ((page_at (no_progress state node_id now limits) none, refl, tt), inl e)
  page_of-MovesOn (a ∷ rest) e m full =
      let assignments = state.topology.assignments in
      let fuel = length (a ∷ rest) in
      let counted : length assignments ≡ fuel = ap length e in
      let (b, at, whose) =
        segment_of-IsOwnerAt assignments a start (ap (λ xs. get_elem? xs zero) e) in
      first_pass (segment_of assignments a.node_id start) b
        (walk_segments state node_id now limits fuel a.node_id) at whose m full
        (λ more. elim (segment_of-next assignments a.node_id start) [
          | inl last ↦ absurd (ground (arith, last, more))
          | inr (low, next, top) ↦ (
            low,
            λ q.
                walk_segments-Ends fuel a.node_id ((segment_of assignments a.node_id start).0 + 1) q
                  (omega (arith, low)) (omega (arith, next, counted)),
          )
        ])

-- Where the token index is in order and the limits let a page take one key at least, `owned_keys_page`
-- ends within its fuel, in one of two ways. Its next page, if any, starts past the token that it
-- started at, and there are no assignments, or it was not asked for one stretch, or the start is in a
-- stretch of the node's own: that of the first assignment from there on, or else of the first of all.
-- Or it was asked for one stretch and the start is in another node's: then it is empty and stops where
-- it starts.
pub owned_keys_page-MovesOn :
    (state : NodeState) (node_id : Bytes) (now : ℕ) (limits : PageLimits) (start : ℕ)
    → IsIndex state.records_by_token
    → 1 < limits.max_examined
    → 0 < limits.max_keys
    → 0 < limits.max_bytes
    → MovesOn state node_id now limits start (owned_keys_page state node_id now limits start)
      ⊎ StoppedAtStart state node_id now limits start
          (owned_keys_page state node_id now limits start)
unfolding owned_keys_page
owned_keys_page-MovesOn state node_id now limits start m examined keys bytes =
    page_of-MovesOn state node_id now limits start state.topology.assignments refl m (ground arith)
