-- ===== src/Node/Newest.antt =====
-- `apply_internal_record` of crates/hashring-node/src/migration.rs keeps the newest record of a key,
-- whatever the order in which records arrive.
use hashring_rs.Prelude.{
  ◌≡◌, refl, sym, ap, ◌∙◌, ◌⊎◌, inl, inr, Bytes, same, same-true, List, [], ◌∷◌, true, false, arith,
  All, Bool-cases, if◌then◌else◌, Option, none, some,
}
use mathlib.Core.Bool.{false≢true}
use hashring_rs.Node.Versions.{
  RecordVersion, Record, compare_versions, is_gt, Records, supersedes, apply_internal_record,
  apply_all,
}
use hashring_rs.Node.VersionOrder.{at_least, at_least_total, at_least_trans, at_least_antisymm}

-- What one key keeps when a record arrives for it.
pub newest : Option Record → Record → Option Record
newest o r = if supersedes r o then some r else o

-- What one key keeps of the records that arrive.
unfoldable pub keeps : Bytes → Option Record → List (Bytes × Record) → Option Record
keeps key o [] = o
keeps key o (e ∷ es) = keeps key (if same key e.0 then newest o e.1 else o) es

pub apply_all-keeps :
    (m : Records) (es : List (Bytes × Record)) (key : Bytes)
    → apply_all m es key ≡ keeps key (m key) es
unfolding apply_all apply_internal_record keeps newest
apply_all-keeps m [] key = refl
apply_all-keeps m (e ∷ es) key =
    apply_all-keeps (apply_internal_record m e.0 e.1) es key
    ∙ ap (λ o. keeps key o es)
        (one (Bool-cases (same key e.0)) (Bool-cases (supersedes e.1 (m e.0))))
  where
    one :
        ((same key e.0 ≡ true) ⊎ (same key e.0 ≡ false))
        → ((supersedes e.1 (m e.0) ≡ true) ⊎ (supersedes e.1 (m e.0) ≡ false))
        → apply_internal_record m e.0 e.1 key ≡ (if same key e.0 then newest (m key) e.1 else m key)
    one (inl h) (inl k) = let at : key ≡ e.0 = same-true key e.0 h in rw (k, h) (sym (rw (at, k)))
    one (inl h) (inr k) = let at : key ≡ e.0 = same-true key e.0 h in rw (k, h) (sym (rw (at, k)))
    one (inr h) (inl k) = rw (k, h)
    one (inr h) (inr k) = rw (k, h)

pub newest-none : (r : Record) → newest none r ≡ some r
unfolding newest
newest-none r = refl

-- Of two versions one is kept.
pub newest-some :
    (c r : Record)
    → ((at_least c.version r.version ≡ true) × (newest (some c) r ≡ some c))
      ⊎ ((at_least c.version r.version ≡ false) × (newest (some c) r ≡ some r))
unfolding newest
newest-some c r = elim (Bool-cases (is_gt (compare_versions r.version c.version))) [
  | inl e ↦ inr (rw e, rw e)
  | inr e ↦ inl (rw e, rw e)
]

newest-pair :
    (r s : Record) → (r.version ≡ s.version → r ≡ s) → newest (some r) s ≡ newest (some s) r
newest-pair r s same_one = elim (newest-some r s) [
  | inl (h, e) ↦ elim (newest-some s r) [
    | inl (k, f) ↦ e ∙ ap some (same_one (at_least_antisymm r.version s.version h k)) ∙ sym f
    | inr (k, f) ↦ e ∙ sym f
  ]
  | inr (h, e) ↦ elim (newest-some s r) [
    | inl (k, f) ↦ e ∙ sym f
    | inr (k, f) ↦ absurd (ground (arith, at_least_total r.version s.version))
  ]
]

-- A record that is newer than `c` stays when one comes that is not newer than `c`.
newest-later :
    (c r s : Record)
    → at_least c.version r.version ≡ true
    → at_least c.version s.version ≡ false
    → newest (some s) r ≡ some s
newest-later c r s h k = elim (newest-some s r) [
  | inl (l, e) ↦ e
  | inr (l, e) ↦
      let up : at_least s.version c.version ≡ true =
        ground (arith, at_least_total c.version s.version) in
      absurd (false≢true (sym l ∙ at_least_trans s.version c.version r.version up h))
]

-- Two records of one key are kept alike in either order, if a version stands for one record.
newest_comm :
    (o : Option Record) (r s : Record)
    → (r.version ≡ s.version → r ≡ s)
    → newest (newest o r) s ≡ newest (newest o s) r
newest_comm none r s same_one =
    ap (λ o. newest o s) (newest-none r)
    ∙ newest-pair r s same_one
    ∙ sym (ap (λ o. newest o r) (newest-none s))
newest_comm (some c) r s same_one = elim (newest-some c r) [
  | inl (h, e) ↦ elim (newest-some c s) [
    | inl (k, f) ↦ ap (λ o. newest o s) e ∙ f ∙ sym (ap (λ o. newest o r) f ∙ e)
    | inr (k, f) ↦
        ap (λ o. newest o s) e ∙ f ∙ sym (ap (λ o. newest o r) f ∙ newest-later c r s h k)
  ]
  | inr (h, e) ↦ elim (newest-some c s) [
    | inl (k, f) ↦
        ap (λ o. newest o s) e ∙ newest-later c s r k h ∙ sym (ap (λ o. newest o r) f ∙ e)
    | inr (k, f) ↦ ap (λ o. newest o s) e ∙ newest-pair r s same_one ∙ sym (ap (λ o. newest o r) f)
  ]
]

-- The same arrivals in another order.
pub data Reordered : List (Bytes × Record) → List (Bytes × Record) → Type 0 where
  alike : (es : List (Bytes × Record)) → Reordered es es
  keep :
      (e : Bytes × Record) (es fs : List (Bytes × Record))
      → Reordered es fs
      → Reordered (e ∷ es) (e ∷ fs)
  swap : (e f : Bytes × Record) (es : List (Bytes × Record)) → Reordered (e ∷ f ∷ es) (f ∷ e ∷ es)
  join : (es fs gs : List (Bytes × Record)) → Reordered es fs → Reordered fs gs → Reordered es gs

keeps-swap :
    (record_of : Bytes → RecordVersion → Record) (key : Bytes) (e f : Bytes × Record)
    (o : Option Record)
    → e.1 ≡ record_of e.0 e.1.version
    → f.1 ≡ record_of f.0 f.1.version
    → (es : List (Bytes × Record)) → keeps key o (e ∷ f ∷ es) ≡ keeps key o (f ∷ e ∷ es)
unfolding keeps
keeps-swap record_of key e f o he hf es =
    ap (λ p. keeps key p es) (go (Bool-cases (same key e.0)) (Bool-cases (same key f.0)))
  where
    go :
        ((same key e.0 ≡ true) ⊎ (same key e.0 ≡ false))
        → ((same key f.0 ≡ true) ⊎ (same key f.0 ≡ false))
        → (if same key f.0
            then newest (if same key e.0 then newest o e.1 else o) f.1
            else if same key e.0
            then newest o e.1
            else o)
          ≡ (if same key e.0
              then newest (if same key f.0 then newest o f.1 else o) e.1
              else if same key f.0
              then newest o f.1
              else o)
    go (inl h) (inl k) =
        rw (h, k)
          (newest_comm o e.1 f.1 (λ v.
            he
            ∙ ap (λ z. record_of z e.1.version) (sym (same-true key e.0 h) ∙ same-true key f.0 k)
            ∙ ap (record_of f.0) v
            ∙ sym hf))
    go (inl h) (inr k) = rw (h, k)
    go (inr h) (inl k) = rw (h, k)
    go (inr h) (inr k) = rw (h, k)

keeps-Reordered :
    (record_of : Bytes → RecordVersion → Record) (key : Bytes) (es fs : List (Bytes × Record))
    → Reordered es fs
    → All (λ e. e.1 ≡ record_of e.0 e.1.version) es
    → (All (λ e. e.1 ≡ record_of e.0 e.1.version) fs)
      × ((o : Option Record) → keeps key o es ≡ keeps key o fs)
unfolding keeps
keeps-Reordered record_of key _ _ (alike es) h = (h, λ o. refl)
keeps-Reordered record_of key _ _ (keep e es fs p) h =
    let (k, rest) = keeps-Reordered record_of key es fs p h.1 in ((h.0, k), λ o. rest _)
keeps-Reordered record_of key _ _ (swap e f es) h =
    ((h.1.0, (h.0, h.1.1)), λ o. keeps-swap record_of key e f o h.0 h.1.0 es)
keeps-Reordered record_of key _ _ (join es fs gs p q) h =
    let (k, first) = keeps-Reordered record_of key es fs p h in
    let (l, second) = keeps-Reordered record_of key fs gs q k in (l, λ o. first o ∙ second o)

-- Where a key and a version stand for one record, a key holds the same record after the records have
-- arrived in either of two orders.
pub apply_all-Reordered :
    (record_of : Bytes → RecordVersion → Record) (m : Records) (es fs : List (Bytes × Record))
    (key : Bytes)
    → Reordered es fs
    → All (λ e. e.1 ≡ record_of e.0 e.1.version) es
    → apply_all m es key ≡ apply_all m fs key
apply_all-Reordered record_of m es fs key p h =
    apply_all-keeps m es key
    ∙ (keeps-Reordered record_of key es fs p h).1 (m key)
    ∙ sym (apply_all-keeps m fs key)
