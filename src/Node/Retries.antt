-- ===== src/Node/Retries.antt =====
-- Records that arrive again at `apply_internal_record` of crates/hashring-node/src/migration.rs.
use hashring_rs.Prelude.{
  ◌≡◌, refl, sym, ap, ◌∙◌, inl, inr, Bytes, same, List, [], ◌∷◌, true, arith, All, All-map_of,
  All-Mem, Memᴰ, subst, Bool-cases, if◌then◌else◌, Option, none, some,
}
use hashring_rs.Node.Versions.{Record, Records, apply_all}
use hashring_rs.Node.Newest.{newest, newest-none, newest-some, keeps, apply_all-keeps}
use hashring_rs.Node.VersionOrder.{at_least, at_least_total, at_least_trans}

-- The key holds a record at least as new.
abbrev pub Holds : Option Record → Record → Type 0
Holds o r = (c : Record) × (o ≡ some c) × (at_least c.version r.version ≡ true)

newest-Holds : (o : Option Record) (r : Record) → Holds (newest o r) r
newest-Holds none r = (r, newest-none r, ground (arith, at_least_total r.version r.version))
newest-Holds (some c) r = elim (newest-some c r) [
  | inl (h, e) ↦ (c, e, h)
  | inr (h, e) ↦ (r, e, ground (arith, at_least_total r.version r.version))
]

Holds-newest : (o : Option Record) (r s : Record) → Holds o r → Holds (newest o s) r
Holds-newest o r s (c, at, h) = elim (newest-some c s) [
  | inl (k, e) ↦ (c, ap (λ o. newest o s) at ∙ e, h)
  | inr (k, e) ↦
      let up : at_least s.version c.version ≡ true =
        ground (arith, at_least_total c.version s.version) in
      (s, ap (λ o. newest o s) at ∙ e, at_least_trans s.version c.version r.version up h)
]

Holds-kept : (o : Option Record) (r : Record) → Holds o r → newest o r ≡ o
Holds-kept o r (c, at, h) = elim (newest-some c r) [
  | inl (k, e) ↦ ap (λ o. newest o r) at ∙ e ∙ sym at
  | inr (k, e) ↦ absurd (ground arith)
]

Holds-keeps :
    (key : Bytes) (o : Option Record) (r : Record) (es : List (Bytes × Record))
    → Holds o r
    → Holds (keeps key o es) r
unfolding keeps
Holds-keeps key o r [] h = h
Holds-keeps key o r (e ∷ es) h = elim (Bool-cases (same key e.0)) [
  | inl k ↦
      subst (λ b. Holds (keeps key (if b then newest o e.1 else o) es) r) (sym k)
        (Holds-keeps key (newest o e.1) r es (Holds-newest o r e.1 h))
  | inr k ↦
      subst (λ b. Holds (keeps key (if b then newest o e.1 else o) es) r) (sym k)
        (Holds-keeps key o r es h)
]

keeps-Holds :
    (key : Bytes) (o : Option Record) (es : List (Bytes × Record))
    → All (λ e. same key e.0 ≡ true → Holds (keeps key o es) e.1) es
unfolding keeps
keeps-Holds key o [] = tt
keeps-Holds key o (e ∷ es) = (
  λ k.
      subst (λ b. Holds (keeps key (if b then newest o e.1 else o) es) e.1) (sym k)
        (Holds-keeps key (newest o e.1) e.1 es (newest-Holds o e.1)),
  keeps-Holds key (if same key e.0 then newest o e.1 else o) es,
)

keeps-settled :
    (key : Bytes) (o : Option Record) (es : List (Bytes × Record))
    → All (λ e. same key e.0 ≡ true → Holds o e.1) es
    → keeps key o es ≡ o
unfolding keeps
keeps-settled key o [] h = refl
keeps-settled key o (e ∷ es) h =
    ap (λ p. keeps key p es)
      (elim (Bool-cases (same key e.0)) [ inl k ↦ rw k (Holds-kept o e.1 (h.0 k)) | inr k ↦ rw k ])
    ∙ keeps-settled key o es h.1

-- After records have arrived, each key that one of them is for holds a record at least as new.
apply_all-Holds :
    (m : Records) (es : List (Bytes × Record)) (key : Bytes)
    → All (λ e. same key e.0 ≡ true → Holds (apply_all m es key) e.1) es
apply_all-Holds m es key =
    All-map_of (λ e h k. subst (λ o. Holds o e.1) (sym (apply_all-keeps m es key)) (h k)) es
      (keeps-Holds key (m key) es)

-- Each of the records `fs` is among the records `es`.
abbrev pub AllAmong : List (Bytes × Record) → List (Bytes × Record) → Type 0
AllAmong fs es = All (λ f. Memᴰ f es) fs

-- When some of the records that have arrived arrive again, in any order and any number of times, no
-- key changes: an older record that comes late does not replace a newer one.
pub apply_all-again :
    (m : Records) (es fs : List (Bytes × Record)) (key : Bytes)
    → AllAmong fs es
    → apply_all (apply_all m es) fs key ≡ apply_all m es key
apply_all-again m es fs key among =
    apply_all-keeps (apply_all m es) fs key
    ∙ keeps-settled key (apply_all m es key) fs (
        All-map_of
          (λ f h.
            All-Mem (λ e. same key e.0 ≡ true → Holds (apply_all m es key) e.1) f es h
              (apply_all-Holds m es key))
          fs among)
