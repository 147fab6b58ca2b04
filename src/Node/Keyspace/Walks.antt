-- ===== src/Node/Keyspace/Walks.antt =====
-- The walk over the tokens of a stretch in crates/hashring-node/src/keyspace.rs.
use Prim.Native.Nat.{ℕ}
use hashring_rs.Prelude.{
  ◌<◌, ◌≡◌, inl, inr, Bytes, List, [], ◌∷◌, false, ◌&&◌, leb, Bool-cases, arith, All, All-filter,
  All-map_of, none, some,
}
use hashring_rs.Node.Index.{Entry, TokenIndex, values_of}
use hashring_rs.Node.Buckets.{IsIndex}
use hashring_rs.Node.Store.{NodeState}
use hashring_rs.Node.Keyspace.{
  PageLimits, KeyPage, Progress, is_full, Walk, on, stopped, add_keys, walk_tokens, in_stretch,
}

abbrev pub Moved : ℕ → KeyPage → Type 0
Moved start page = elim page.next [ none ↦ Unit | some next ↦ start < next ]

abbrev pub WalkMoved : ℕ → Walk → Type 0
WalkMoved start (on p) = Unit
WalkMoved start (stopped page) = Moved start page

pub walk_tokens-Moved :
    (state : NodeState) (node_id : Bytes) (now : ℕ) (limits : PageLimits) (start : ℕ)
    (entries : List Entry) (p : Progress)
    → All (λ e. start < e.0) entries
    → WalkMoved start (walk_tokens state node_id now limits entries p)
unfolding walk_tokens
walk_tokens-Moved state node_id now limits start [] p h = tt
walk_tokens-Moved state node_id now limits start (e ∷ es) p h =
    elim (Bool-cases (is_full limits p)) [
      | inl c ↦ rw c h.0
      | inr c ↦ rw c (
          walk_tokens-Moved state node_id now limits start es
            (add_keys state node_id now limits (values_of (some e.1)) p) h.1)
    ]

-- The first token of the first stretch is taken, so a page stops past it.
pub walk_first-Moved :
    (state : NodeState) (node_id : Bytes) (now : ℕ) (limits : PageLimits) (start end : ℕ)
    (index : TokenIndex) (p : Progress)
    → IsIndex index
    → is_full limits p ≡ false
    → WalkMoved start (
        walk_tokens state node_id now limits
          (in_stretch state node_id now limits start end index)
          p)
unfolding walk_tokens
walk_first-Moved state node_id now limits start end [] p m full = tt
walk_first-Moved state node_id now limits start end (e ∷ es) p m full =
    elim (Bool-cases (leb start e.0 && leb e.0 end)) [
      | inl c ↦
          rw (c, full)
            (walk_tokens-Moved state node_id now limits start
              (in_stretch state node_id now limits start end es)
              (add_keys state node_id now limits (values_of (some e.1)) p)
              (All-filter (λ f. start < f.0) (λ f. leb start f.0 && leb f.0 end) es
                (All-map_of {P = λ f. e.0 < f.0} {Q = λ f. start < f.0}
                  (λ f k. ground (arith, k, c)) es m.0)))
      | inr c ↦ rw c (walk_first-Moved state node_id now limits start end es p m.2 full)
    ]
