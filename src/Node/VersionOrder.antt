-- ===== src/Node/VersionOrder.antt =====
-- The order of versions: `compare_versions` of crates/hashring-node/src/migration.rs.
use hashring_rs.Prelude.{
  ℕ, ◌<◌, ◌≡◌, ltb, sym, ◌∙◌, ◌⊎◌, inl, inr, Bytes, bytes_leb, bytes_leb_total, bytes_leb_trans,
  bytes_leb_antisymm, Bool, true, false, not, arith, if◌then◌else◌,
}
use hashring_rs.Node.Versions.{
  RecordVersion, less, equal, greater, compare_versions, compare_numbers, compare_bytes, is_gt,
}

-- At least as new.
abbrev pub at_least : RecordVersion → RecordVersion → Bool
at_least a b = not (is_gt (compare_versions b a))

numbers :
    (a b : ℕ)
    → ((a < b) × (compare_numbers a b ≡ less))
      ⊎ ((a ≡ b) × (compare_numbers a b ≡ equal))
      ⊎ ((b < a) × (compare_numbers a b ≡ greater))
unfolding compare_numbers
numbers a b = ground arith

texts : (a b : Bytes) → is_gt (compare_bytes a b) ≡ not (bytes_leb a b)
unfolding compare_bytes
texts a b = ground (arith, bytes_leb_total a a)

-- The order of versions, as a test.
newer_or_same : RecordVersion → RecordVersion → Bool
newer_or_same a b =
    if ltb b.topology_epoch a.topology_epoch
    then true
    else if ltb a.topology_epoch b.topology_epoch
    then false
    else if ltb b.owner_sequence a.owner_sequence
    then true
    else if ltb a.owner_sequence b.owner_sequence
    then false
    else bytes_leb b.owner_node_id a.owner_node_id

at_least_lem : (a b : RecordVersion) → at_least a b ≡ newer_or_same a b
unfolding compare_versions newer_or_same
at_least_lem a b = elim (numbers b.topology_epoch a.topology_epoch) [
  | inl (h, e) ↦ rw e (ground arith)
  | inr (inl (h, e)) ↦ elim (numbers b.owner_sequence a.owner_sequence) [
    | inl (k, f) ↦ rw (e, f) (ground arith)
    | inr (inl (k, f)) ↦ rw (e, f) (ground (arith, texts b.owner_node_id a.owner_node_id))
    | inr (inr (k, f)) ↦ rw (e, f) (ground arith)
  ]
  | inr (inr (h, e)) ↦ rw e (ground arith)
]

pub at_least_total : (a b : RecordVersion) → (at_least a b ≡ true) ⊎ (at_least b a ≡ true)
unfolding newer_or_same
at_least_total a b =
    rw (at_least_lem a b, at_least_lem b a)
      (ground (arith, bytes_leb_total a.owner_node_id b.owner_node_id))

pub at_least_trans :
    (a b c : RecordVersion) → at_least a b ≡ true → at_least b c ≡ true → at_least a c ≡ true
unfolding newer_or_same
at_least_trans a b c h k =
    let h' : newer_or_same a b ≡ true = sym (at_least_lem a b) ∙ h in
    let k' : newer_or_same b c ≡ true = sym (at_least_lem b c) ∙ k in
    at_least_lem a c
    ∙ ground (arith, bytes_leb_trans c.owner_node_id b.owner_node_id a.owner_node_id)

-- Versions that are at least as new as each other are one.
pub at_least_antisymm : (a b : RecordVersion) → at_least a b ≡ true → at_least b a ≡ true → a ≡ b
unfolding newer_or_same
at_least_antisymm a b h k =
    let h' : newer_or_same a b ≡ true = sym (at_least_lem a b) ∙ h in
    let k' : newer_or_same b a ≡ true = sym (at_least_lem b a) ∙ k in
    let e : a.topology_epoch ≡ b.topology_epoch = ground arith in
    let f : a.owner_sequence ≡ b.owner_sequence = ground arith in
    let g : a.owner_node_id ≡ b.owner_node_id =
      bytes_leb_antisymm a.owner_node_id b.owner_node_id (ground arith) (ground arith) in
    ground arith
