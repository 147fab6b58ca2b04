-- ===== src/Node/Store/Sources.antt =====
-- What the migrations of a source do to the deadlines that wait in it: `prepare_source_range` of
-- crates/hashring-node/src/rpc.rs, `remove_source` of crates/hashring-node/src/lib.rs and the deferral
-- in crates/hashring-node/src/expiry.rs.
use Prim.Native.Nat.{ℕ}
use hashring_rs.Interval.{spec_contains}
use hashring_rs.Prelude.{
  ◌+◌, ◌≡◌, refl, subst, ap, ◌∙◌, inl, inr, Bytes, same, [], ◌∷◌, ◌++◌, ◌&&◌, ◌==◌, Bool-cases,
  arith, Option, none, some,
}
use hashring_rs.Topology.Build.{Hashing}
use hashring_rs.Node.Store.{has, RangeSpec, SourceMigration, Sources, NodeState}
use hashring_rs.Node.Store.Sweep.{kept, defer}
use hashring_rs.Node.Store.Migrating.{
  take_source, release, remove_source, find_source, prepared, prepare_source_range,
}
use hashring_rs.Node.Store.Entries.{has-schedule, has-schedule_all, bit, times_deferred}
use hashring_rs.Node.Store.Mirrored.{IsMirrored}

abbrev times_released : Option SourceMigration → ℕ → Bytes → ℕ
times_released none d k = 0
times_released (some source) d k = bit (has source.deferred_expirations d k)

times_deferred-take_source :
    (sources : Sources) (key : Bytes × Bytes) (d : ℕ) (k : Bytes)
    → times_deferred sources d k
      ≡ times_released (take_source sources key).1 d k
        + times_deferred (take_source sources key).0 d k
times_deferred-take_source [] key d k = omega arith
times_deferred-take_source (s ∷ ss) key d k = ground (arith, times_deferred-take_source ss key d k)

release-IsMirrored :
    (h : Hashing) (state : NodeState) (out : Sources × Option SourceMigration)
    → ((d : ℕ) (k : Bytes)
        → times_deferred state.sources d k ≡ times_released out.1 d k + times_deferred out.0 d k)
    → IsMirrored h state
    → IsMirrored h (release state out).0
release-IsMirrored h state (sources, none) e m = m
release-IsMirrored h state (sources, some source) e m = (
  m.0,
  λ d k. ground (
    arith,
    e d k,
    m.1 d k,
    has-schedule_all state.record_expirations source.deferred_expirations d k,
  ),
)

pub remove_source-IsMirrored :
    (h : Hashing) (state : NodeState) (key : Bytes × Bytes)
    → IsMirrored h state
    → IsMirrored h (remove_source state key).0
unfolding remove_source
remove_source-IsMirrored h state key m =
    release-IsMirrored h state (take_source state.sources key)
      (times_deferred-take_source state.sources key) m

-- What holds of a result, if there is one.
abbrev pub IfSome {ℓ} : {A : Type ℓ} → (A → Type 0) → Option A → Type 0
IfSome P none = Unit
IfSome P (some a) = P a

times_deferred-append :
    (sources : Sources) (s : (Bytes × Bytes) × SourceMigration) (d : ℕ) (k : Bytes)
    → s.1.deferred_expirations ≡ []
    → times_deferred (sources ++ s ∷ []) d k ≡ times_deferred sources d k
times_deferred-append [] s d k e = rw e refl
times_deferred-append (t ∷ ts) s d k e =
    ap (λ n. bit (has t.1.deferred_expirations d k) + n) (times_deferred-append ts s d k e)

prepared-IsMirrored :
    (h : Hashing) (state : NodeState) (range : RangeSpec) (o : Option SourceMigration)
    → IsMirrored h state
    → IfSome (IsMirrored h) (prepared state range o)
prepared-IsMirrored h state range none m = (
  m.0,
  λ d k.
      ap (λ n. bit (has state.record_expirations d k) + n)
        (times_deferred-append state.sources _ d k refl)
      ∙ m.1 d k,
)
prepared-IsMirrored h state range (some existing) m = ground arith

pub prepare_source_range-IsMirrored :
    (h : Hashing) (state : NodeState) (range : RangeSpec) (next : NodeState)
    → prepare_source_range state range ≡ some next
    → IsMirrored h state
    → IsMirrored h next
unfolding prepare_source_range
prepare_source_range-IsMirrored h state range next e m = subst (IfSome (IsMirrored h)) e (
    prepared-IsMirrored h state range (find_source state.sources (range.change_id, range.range_id))
      m)

-- The deadline is added where none waits.
abbrev pub Adds : Sources → ℕ → Bytes → Sources → Type 0
Adds before d k after =
    (d' : ℕ) (k' : Bytes)
    → times_deferred after d' k' ≡ times_deferred before d' k' + bit (d == d' && same k k')

kept-Adds :
    (h : Hashing) (s : (Bytes × Bytes) × SourceMigration) (ss : Sources) (d : ℕ) (k : Bytes)
    (o : Option Sources)
    → IfSome (Adds ss d k) o
    → IfSome (Adds (s ∷ ss) d k) (kept h s o)
kept-Adds h s ss d k none e = tt
kept-Adds h s ss d k (some after) e = λ d' k'. omega (arith, e d' k')

pub defer-Adds :
    (h : Hashing) (sources : Sources) (token d : ℕ) (k : Bytes)
    → times_deferred sources d k ≡ 0
    → IfSome (Adds sources d k) (defer h sources token d k)
unfolding defer
defer-Adds h [] token d k e = tt
defer-Adds h (s ∷ ss) token d k e =
    elim (Bool-cases (spec_contains s.1.range.start_exclusive s.1.range.end_inclusive token)) [
      | inl c ↦ rw c (λ d' k'. ground (arith, has-schedule s.1.deferred_expirations d k d' k'))
      | inr c ↦ rw c (
          kept-Adds h s ss d k (defer h ss token d k)
            (defer-Adds h ss token d k (omega (arith, e))))
    ]
