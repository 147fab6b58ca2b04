-- ===== src/Node/Store/Sweep.antt =====
-- The sweep of expired records: crates/hashring-node/src/expiry.rs.
use Prim.Native.Nat.{ℕ, zero, suc}
use hashring_rs.Interval.{spec_contains}
use hashring_rs.Prelude.{◌+◌, Bytes, [], ◌∷◌, leb, if◌then◌else◌, Option, none, some}
use hashring_rs.Topology.Build.{Hashing}
use hashring_rs.Node.Store.{
  Deadlines, schedule, unschedule, SourceMigration, Sources, NodeState, token_of, remove_record_at,
}

module _ (h : Hashing) where
  abbrev pub kept : (Bytes × Bytes) × SourceMigration → Option Sources → Option Sources
  kept s none = none
  kept s (some ss) = some (s ∷ ss)

  -- The first source whose range has the token takes the deadline; `none` if there is none. The sources
  -- are a `HashMap` there, in no order that is specified: the order of the list is any one of them.
  unfoldable pub defer : Sources → ℕ → ℕ → Bytes → Option Sources
  unfolding schedule spec_contains
  defer [] token d k = none
  defer (s ∷ ss) token d k =
      let rest = defer ss token d k in
      if spec_contains s.1.range.start_exclusive s.1.range.end_inclusive token
      then some
          ((s.0, record s.1 { deferred_expirations = schedule s.1.deferred_expirations d k }) ∷ ss)
      else kept s rest

  -- An entry whose deadline has passed and that is out of the expirations already, with the sources
  -- that took it, if one did. The number is how many records were removed.
  abbrev pub expire : NodeState → Bytes → Option Sources → NodeState × ℕ
  expire state key (some sources) = (record state { sources = sources }, 0)
  expire state key none = ((remove_record_at h state (token_of h state key) key).0, 1)

  unfoldable pub expire_first : NodeState → ℕ → Bytes → NodeState × ℕ
  unfolding defer remove_record_at
  expire_first state d key =
      expire (record state { record_expirations = unschedule state.record_expirations d key }) key
        (defer state.sources (token_of h state key) d key)

  abbrev pub counted : ℕ → NodeState × ℕ → NodeState × ℕ
  counted n (state, m) = (state, n + m)

  -- One pass of the sweep, with the passes that are left.
  abbrev pub sweep_first : NodeState → ℕ → Deadlines → (NodeState → NodeState × ℕ) → NodeState × ℕ
  sweep_first state now [] next = (state, 0)
  sweep_first state now (e ∷ es) next =
      if leb e.0 now
      then counted (expire_first state e.0 e.1).1 (next (expire_first state e.0 e.1).0)
      else (state, 0)

  unfoldable pub sweep_expired_records : NodeState → ℕ → ℕ → NodeState × ℕ
  unfolding expire_first
  sweep_expired_records state now zero = (state, 0)
  sweep_expired_records state now (suc limit) =
      sweep_first state now state.record_expirations (λ s. sweep_expired_records s now limit)
