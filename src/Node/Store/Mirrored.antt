-- ===== src/Node/Store/Mirrored.antt =====
-- The two indices of a `NodeState` of crates/hashring-node/src/lib.rs mirror its records, as its
-- `debug_assert_index` asks, through every operation on records.
use hashring_rs.Prelude.{
  same_refl, same-true, ℕ, ◌+◌, ◌-◌, ◌≡◌, refl, sym, subst, ap, ◌∙◌, inl, inr, Bytes, same, Bool,
  true, false, ◌&&◌, ◌==◌, Bool-cases, arith, if◌then◌else◌, Option, none, some,
}
use hashring_rs.Topology.Build.{Hashing}
use hashring_rs.Node.Versions.{Record}
use hashring_rs.Node.Index.{TokenIndex, insert, contains}
use hashring_rs.Node.Contents.{contains-insert}
use hashring_rs.Node.Buckets.{IsIndex}
use hashring_rs.Node.Invariant.{insert-remove-IsIndex}
use hashring_rs.Node.Store.{
  Map, find_entry, put_entry, has, NodeState, forget_expiration, deadline_of, schedule_record,
  put_record, index_new, insert_over, insert_record,
}
use hashring_rs.Node.Store.Entries.{
  find_entry-put_entry, has-schedule, has-unschedule, bit, times_deferred,
  times_deferred-forget_deferred,
}

abbrev pub is_some {ℓ} : {A : Type ℓ} → Option A → Bool
is_some none = false
is_some (some a) = true

-- Where a deadline of a key waits: among the expirations, and in sources.
abbrev pub times_scheduled : NodeState → ℕ → Bytes → ℕ
times_scheduled state d k =
    bit (has state.record_expirations d k) + times_deferred state.sources d k

abbrev pub is_at : Option ℕ → ℕ → Bool
is_at none d = false
is_at (some deadline) d = deadline == d

-- Whether the key's record has this deadline.
abbrev pub has_deadline : Map Record → ℕ → Bytes → Bool
has_deadline records d k = is_at (deadline_of (find_entry records k)) d

pub times_scheduled-forget_expiration :
    (state : NodeState) (key : Bytes) (o : Option ℕ) (d : ℕ) (k : Bytes)
    → times_scheduled (forget_expiration state key o) d k
      ≡ times_scheduled state d k - bit (is_at o d && same key k)
unfolding forget_expiration
times_scheduled-forget_expiration state key none d k = omega arith
times_scheduled-forget_expiration state key (some deadline) d k = ground (
  arith,
  has-unschedule state.record_expirations deadline key d k,
  times_deferred-forget_deferred state.sources deadline key d k,
)

-- What `forget_expiration` leaves as it is.
pub forget_expiration-same :
    (state : NodeState) (key : Bytes) (o : Option ℕ)
    → ((forget_expiration state key o).records ≡ state.records)
      × ((forget_expiration state key o).records_by_token ≡ state.records_by_token)
      × ((forget_expiration state key o).topology ≡ state.topology)
unfolding forget_expiration
forget_expiration-same state key none = (refl, refl, refl)
forget_expiration-same state key (some deadline) =
    elim (Bool-cases (has state.record_expirations deadline key)) [
      | inl e ↦ rw e (refl, refl, refl)
      | inr e ↦ rw e (refl, refl, refl)
    ]

times_scheduled-schedule_record :
    (state : NodeState) (key : Bytes) (o : Option ℕ) (d : ℕ) (k : Bytes)
    → times_scheduled state d key ≡ 0
    → times_scheduled (schedule_record state key o) d k
      ≡ times_scheduled state d k + bit (is_at o d && same key k)
times_scheduled-schedule_record state key none d k h = omega arith
times_scheduled-schedule_record state key (some deadline) d k h =
    ground (arith, has-schedule state.record_expirations deadline key d k)

schedule_record-same :
    (state : NodeState) (key : Bytes) (o : Option ℕ)
    → ((schedule_record state key o).records ≡ state.records)
      × ((schedule_record state key o).records_by_token ≡ state.records_by_token)
      × ((schedule_record state key o).topology ≡ state.topology)
schedule_record-same state key none = (refl, refl, refl)
schedule_record-same state key (some deadline) = (refl, refl, refl)

-- One deadline of a key in place of another.
times_scheduled_again :
    (state : NodeState) (key : Bytes) (old new : Option ℕ)
    → ((d : ℕ) → times_scheduled state d key ≡ bit (is_at old d))
    → (d : ℕ) (k : Bytes)
    → times_scheduled (schedule_record (forget_expiration state key old) key new) d k
      ≡ (if same key k then bit (is_at new d) else times_scheduled state d k)
times_scheduled_again state key old new h d k =
    let gone : times_scheduled (forget_expiration state key old) d key ≡ 0 =
      times_scheduled-forget_expiration state key old d key
      ∙ rw (h d, same_refl key) ground arith in
    times_scheduled-schedule_record (forget_expiration state key old) key new d k gone
    ∙ rw (times_scheduled-forget_expiration state key old d k) (elim (Bool-cases (same key k)) [
      | inl e ↦
          rw
            (
              e,
              subst (λ j. times_scheduled state d j ≡ bit (is_at old d)) (same-true key k e) (h d),
            )
            ground arith
      | inr e ↦ rw e ground arith
    ])

abbrev pub IsIndexed : Hashing → ℕ → Map Record → TokenIndex → Type 0
IsIndexed h seed records index =
    IsIndex index
    × ((token : ℕ) (k : Bytes)
        → contains index token k
          ≡ (token == h.xxh3_64_with_seed k seed && is_some (find_entry records k)))

abbrev pub IsScheduled : NodeState → Type 0
IsScheduled state =
    (d : ℕ) (k : Bytes) → times_scheduled state d k ≡ bit (has_deadline state.records d k)

-- A state with the records, the index and the topology of another.
abbrev pub Keeps : NodeState → NodeState → Type 0
Keeps after before =
    (after.records ≡ before.records)
    × (after.records_by_token ≡ before.records_by_token)
    × (after.topology ≡ before.topology)

pub Keeps-IsIndexed :
    (h : Hashing) (after before : NodeState)
    → Keeps after before
    → IsIndexed h before.topology.hash_seed before.records before.records_by_token
    → IsIndexed h after.topology.hash_seed after.records after.records_by_token
Keeps-IsIndexed h after before (records, index, topology) m =
    subst (λ t. IsIndexed h t.hash_seed after.records after.records_by_token) (sym topology)
      (subst (λ r. IsIndexed h before.topology.hash_seed r after.records_by_token) (sym records)
        (subst (λ i. IsIndexed h before.topology.hash_seed before.records i) (sym index) m))

-- Each record is in the token index at its key's token and nothing else is, and each deadline of a
-- record waits in one place and no other does.
abbrev pub IsMirrored : Hashing → NodeState → Type 0
IsMirrored h state =
    IsIndexed h state.topology.hash_seed state.records state.records_by_token × IsScheduled state

-- A key with one deadline in place of another, in a state that is right but for that key's deadline.
module _ (h : Hashing) (state : NodeState) (key : Bytes) (old : Option ℕ) (r : Record)
    (indexed : IsIndexed h state.topology.hash_seed state.records state.records_by_token)
    (found : find_entry state.records key ≡ some r)
    (waits : (d : ℕ) → times_scheduled state d key ≡ bit (is_at old d))
    (others : (d : ℕ) (k : Bytes)
      → same key k ≡ false
      → times_scheduled state d k ≡ bit (has_deadline state.records d k)) where
  again-IsMirrored :
      IsMirrored h (schedule_record (forget_expiration state key old) key r.expires_at_unix_millis)
  again-IsMirrored =
      let left = forget_expiration state key old in
      let after = schedule_record left key r.expires_at_unix_millis in
      let kept = schedule_record-same left key r.expires_at_unix_millis in
      let kept_left = forget_expiration-same state key old in
      (
        Keeps-IsIndexed h after left kept (Keeps-IsIndexed h left state kept_left indexed),
        λ d k.
            times_scheduled_again state key old r.expires_at_unix_millis waits d k
            ∙ rw (kept.0, kept_left.0)
                (elim (Bool-cases (same key k)) [
                  | inl e ↦
                      rw
                        (
                          e,
                          subst (λ j. find_entry state.records j ≡ some r) (same-true key k e)
                              found,
                        )
                        refl
                  | inr e ↦ rw e (others d k e)
                ]),
      )

-- The record is put before its deadline is.
put_others :
    (state : NodeState) (key : Bytes) (r : Record)
    → IsScheduled state
    → (d : ℕ) (k : Bytes) → same key k ≡ false
    → times_scheduled state d k ≡ bit (has_deadline (put_entry state.records key r) d k)
put_others state key r m d k e = rw (find_entry-put_entry state.records key r k, e) (m d k)

put_found :
    (records : Map Record) (key : Bytes) (r : Record)
    → find_entry (put_entry records key r) key ≡ some r
put_found records key r = find_entry-put_entry records key r key ∙ rw (same_refl key) refl

insert-IsIndexed :
    (h : Hashing) (seed : ℕ) (records : Map Record) (index : TokenIndex) (key : Bytes) (r : Record)
    → IsIndexed h seed records index
    → IsIndexed h seed (put_entry records key r) (insert index (h.xxh3_64_with_seed key seed) key)
insert-IsIndexed h seed records index key r m = (
  (insert-remove-IsIndex index (h.xxh3_64_with_seed key seed) key m.0).0,
  λ t k. ground (
    arith,
    contains-insert index (h.xxh3_64_with_seed key seed) key t k,
    m.1 t k,
    find_entry-put_entry records key r k,
  ),
)

put-IsIndexed :
    (h : Hashing) (seed : ℕ) (records : Map Record) (index : TokenIndex) (key : Bytes) (r : Record)
    (replaced : Record)
    → find_entry records key ≡ some replaced
    → IsIndexed h seed records index
    → IsIndexed h seed (put_entry records key r) index
put-IsIndexed h seed records index key r replaced e m =
    (m.0, λ t k. ground (arith, m.1 t k, find_entry-put_entry records key r k))

insert_over-IsMirrored :
    (h : Hashing) (state : NodeState) (key : Bytes) (r : Record) (o : Option Record)
    → find_entry state.records key ≡ o
    → IsMirrored h state
    → IsMirrored h (insert_over h state key r o)
insert_over-IsMirrored h state key r none e m =
    again-IsMirrored h (put_record h (index_new h state key none) key r) key none r
      (insert-IsIndexed h state.topology.hash_seed state.records state.records_by_token key r m.0)
      (put_found state.records key r) (λ d. m.1 d key ∙ ap (λ o. bit (is_at (deadline_of o) d)) e)
      (put_others state key r m.1)
insert_over-IsMirrored h state key r (some replaced) e m =
    again-IsMirrored h (put_record h state key r) key replaced.expires_at_unix_millis r
      (put-IsIndexed h state.topology.hash_seed state.records state.records_by_token key r replaced
        e m.0)
      (put_found state.records key r) (λ d. m.1 d key ∙ ap (λ o. bit (is_at (deadline_of o) d)) e)
      (put_others state key r m.1)

pub insert_record-IsMirrored :
    (h : Hashing) (state : NodeState) (key : Bytes) (r : Record)
    → IsMirrored h state
    → IsMirrored h (insert_record h state key r)
unfolding insert_record
insert_record-IsMirrored h state key r m =
    insert_over-IsMirrored h state key r (find_entry state.records key) refl m
