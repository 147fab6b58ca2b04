-- ===== src/Node/Store/Swept.antt =====
-- The sweep of crates/hashring-node/src/expiry.rs takes nothing away that a read would return.
use Prim.Native.Nat.{ℕ, zero, suc}
use hashring_rs.Prelude.{
  ◌≤◌, ◌≡◌, refl, sym, subst, ◌∙◌, inl, inr, Bytes, same, same-true, [], ◌∷◌, true, leb, Bool-cases,
  arith, if◌then◌else◌, Option, none, some,
}
use hashring_rs.Topology.Build.{Hashing}
use hashring_rs.Node.Versions.{Record, is_expired}
use hashring_rs.Node.Store.{
  find_entry, Deadlines, has, Sources, NodeState, token_of, deadline_of, take_record,
  remove_record_at,
}
use hashring_rs.Node.Store.Sweep.{defer, expire, expire_first, sweep_first, sweep_expired_records}
use hashring_rs.Node.Store.Entries.{find_entry-remove_entry, bit}
use hashring_rs.Node.Store.Mirrored.{is_at, forget_expiration-same, IsMirrored}
use hashring_rs.Node.Store.Reachable.{taken_out, expire_first-IsMirrored}

-- What a read of a record returns.
abbrev pub read : Option Record → ℕ → Option Record
read none now = none
read (some r) now = if is_expired r now then none else some r

-- Nothing that a read at this time would return differs.
abbrev pub ReadsSame : ℕ → NodeState → NodeState → Type 0
ReadsSame now after before =
    (k : Bytes) → read (find_entry after.records k) now ≡ read (find_entry before.records k) now

-- The record of a key that waits for a deadline that has passed is not read.
read_past :
    (o : Option Record) (d now : ℕ)
    → bit (is_at (deadline_of o) d) ≡ 1
    → d ≤ now
    → read o now ≡ none
unfolding is_expired
read_past none d now e past = absurd (omega (arith, e))
read_past (some r) d now e past = go r.expires_at_unix_millis refl e
  where
    go :
        (deadline : Option ℕ)
        → r.expires_at_unix_millis ≡ deadline
        → bit (is_at deadline d) ≡ 1
        → read (some r) now ≡ none
    go none f e = absurd (omega (arith, e))
    go (some deadline) f e = rw f ground arith

take_record-ReadsSame :
    (h : Hashing) (now : ℕ) (state : NodeState) (token : ℕ) (key : Bytes) (o : Option Record)
    → read (find_entry state.records key) now ≡ none
    → ReadsSame now (take_record h state token key o).0 state
take_record-ReadsSame h now state token key none e k = refl
take_record-ReadsSame h now state token key (some removed) e k =
    rw
      ((forget_expiration-same (record state { records = _; records_by_token = _ }) key
        removed.expires_at_unix_millis).0)
      (rw (find_entry-remove_entry state.records key k) (elim (Bool-cases (same key k)) [
        | inl c ↦
            rw c (
              sym (subst (λ j. read (find_entry state.records j) now ≡ none) (same-true key k c) e))
        | inr c ↦ rw c refl
      ]))

expire-ReadsSame :
    (h : Hashing) (now : ℕ) (state : NodeState) (d : ℕ) (key : Bytes) (o : Option Sources)
    → read (find_entry state.records key) now ≡ none
    → ReadsSame now (expire h (taken_out state d key) key o).0 state
unfolding remove_record_at
expire-ReadsSame h now state d key none e =
    take_record-ReadsSame h now (taken_out state d key) (token_of h state key) key
      (find_entry state.records key) e
expire-ReadsSame h now state d key (some sources) e = λ k. refl

expire_first-ReadsSame :
    (h : Hashing) (now : ℕ) (state : NodeState) (d : ℕ) (key : Bytes)
    → IsMirrored h state
    → has state.record_expirations d key ≡ true
    → d ≤ now
    → ReadsSame now (expire_first h state d key).0 state
unfolding expire_first
expire_first-ReadsSame h now state d key m e past =
    expire-ReadsSame h now state d key (defer h state.sources (token_of h state key) d key)
      (read_past (find_entry state.records key) d now (ground (arith, m.1 d key)) past)

sweep_first-ReadsSame :
    (h : Hashing) (state : NodeState) (now : ℕ) (set : Deadlines) (next : NodeState → NodeState × ℕ)
    → state.record_expirations ≡ set
    → IsMirrored h state
    → ((s : NodeState) → IsMirrored h s → ReadsSame now (next s).0 s)
    → ReadsSame now (sweep_first h state now set next).0 state
sweep_first-ReadsSame h state now [] next e m n k = refl
sweep_first-ReadsSame h state now (x ∷ xs) next e m n k = elim (Bool-cases (leb x.0 now)) [
  | inl c ↦
      let first : has state.record_expirations x.0 x.1 ≡ true = rw e ground arith in
      rw c (
        n (expire_first h state x.0 x.1).0 (expire_first-IsMirrored h state x.0 x.1 m first) k
        ∙ expire_first-ReadsSame h now state x.0 x.1 m first (ground arith) k)
  | inr c ↦ rw c refl
]

-- Where a state's indices are in step with its records, a sweep, however many passes it may take,
-- changes nothing that a read at its time would return.
pub sweep_expired_records-ReadsSame :
    (h : Hashing) (state : NodeState) (now limit : ℕ)
    → IsMirrored h state
    → ReadsSame now (sweep_expired_records h state now limit).0 state
unfolding sweep_expired_records
sweep_expired_records-ReadsSame h state now zero m = λ k. refl
sweep_expired_records-ReadsSame h state now (suc limit) m =
    sweep_first-ReadsSame h state now state.record_expirations
      (λ s. sweep_expired_records h s now limit) refl m
      (λ s n. sweep_expired_records-ReadsSame h s now limit n)
