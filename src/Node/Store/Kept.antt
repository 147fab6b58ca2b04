-- ===== src/Node/Store/Kept.antt =====
-- Removals, a new topology and the migrations of a source keep the indices of a `NodeState` of
-- crates/hashring-node/src/lib.rs in step with its records.
use hashring_rs.Prelude.{
  ℕ, ◌≤◌, ◌≡◌, refl, subst, ap, ◌∙◌, inl, inr, Bytes, same, same-true, [], ◌∷◌, false, ◌&&◌, ◌||◌,
  ◌==◌, Bool-cases, arith, Option, none, some,
}
use hashring_rs.Topology.Types.{TopologySnapshot}
use hashring_rs.Topology.Build.{Hashing}
use hashring_rs.Node.Versions.{Record}
use hashring_rs.Node.Index.{TokenIndex, insert, contains, remove}
use hashring_rs.Node.Contents.{contains-insert, contains-remove}
use hashring_rs.Node.Buckets.{IsIndex}
use hashring_rs.Node.Invariant.{insert-remove-IsIndex}
use hashring_rs.Node.Store.{
  Map, find_entry, remove_entry, NodeState, token_of, forget_expiration, deadline_of, is_newer,
  apply_record, take_record, remove_record_at, index_keys, set_topology,
}
use hashring_rs.Node.Store.Entries.{find_entry-remove_entry, bit}
use hashring_rs.Node.Store.Mirrored.{
  is_some, times_scheduled, is_at, has_deadline, times_scheduled-forget_expiration,
  forget_expiration-same, Keeps-IsIndexed, IsIndexed, IsMirrored, insert_record-IsMirrored,
}

remove-IsIndexed :
    (h : Hashing) (seed : ℕ) (records : Map Record) (index : TokenIndex) (key : Bytes)
    → IsIndexed h seed records index
    → IsIndexed h seed
        (remove_entry records key)
        (remove index (h.xxh3_64_with_seed key seed) key).0
remove-IsIndexed h seed records index key m = (
  (insert-remove-IsIndex index (h.xxh3_64_with_seed key seed) key m.0).1,
  λ t k. ground (
    arith,
    (contains-remove index (h.xxh3_64_with_seed key seed) key t k m.0).1,
    m.1 t k,
    find_entry-remove_entry records key k,
  ),
)

-- A record is taken out, where at most its own deadline waits for its key.
pub take_record-IsMirrored :
    (h : Hashing) (state : NodeState) (key : Bytes) (removed : Record)
    → IsIndexed h state.topology.hash_seed state.records state.records_by_token
    → ((d : ℕ) → times_scheduled state d key ≤ bit (is_at removed.expires_at_unix_millis d))
    → ((d : ℕ) (k : Bytes)
        → same key k ≡ false
        → times_scheduled state d k ≡ bit (has_deadline state.records d k))
    → IsMirrored h (take_record h state (token_of h state key) key (some removed)).0
take_record-IsMirrored h state key removed m waits others =
    let out = record state {
      records = remove_entry state.records key;
      records_by_token = (remove state.records_by_token (token_of h state key) key).0;
    } in
    let kept = forget_expiration-same out key removed.expires_at_unix_millis in
    (
      Keeps-IsIndexed h (forget_expiration out key removed.expires_at_unix_millis) out kept
          (remove-IsIndexed h state.topology.hash_seed state.records state.records_by_token key m),
      λ d k.
          times_scheduled-forget_expiration out key removed.expires_at_unix_millis d k
          ∙ rw (kept.0, find_entry-remove_entry state.records key k)
              (elim (Bool-cases (same key k)) [
                | inl e ↦ rw e (
                    ground (
                      arith,
                      subst
                          (λ j.
                            times_scheduled state d j
                            ≤ bit (is_at removed.expires_at_unix_millis d))
                          (same-true key k e) (waits d),
                    ))
                | inr e ↦ rw e (ground (arith, others d k e))
              ]),
    )

take_record_found :
    (h : Hashing) (state : NodeState) (key : Bytes) (o : Option Record)
    → find_entry state.records key ≡ o
    → IsMirrored h state
    → IsMirrored h (take_record h state (token_of h state key) key o).0
take_record_found h state key none e m = m
take_record_found h state key (some removed) e m =
    take_record-IsMirrored h state key removed m.0
      (λ d. ground (arith, m.1 d key, ap (λ o. bit (is_at (deadline_of o) d)) e)) (λ d k _. m.1 d k)

pub remove_record_at-IsMirrored :
    (h : Hashing) (state : NodeState) (key : Bytes)
    → IsMirrored h state
    → IsMirrored h (remove_record_at h state (token_of h state key) key).0
unfolding remove_record_at
remove_record_at-IsMirrored h state key m =
    take_record_found h state key (find_entry state.records key) refl m

pub apply_record-IsMirrored :
    (h : Hashing) (state : NodeState) (key : Bytes) (r : Record)
    → IsMirrored h state
    → IsMirrored h (apply_record h state key r).0
unfolding apply_record
apply_record-IsMirrored h state key r m =
    elim (Bool-cases (is_newer h r (find_entry state.records key))) [
      | inl e ↦ rw e (insert_record-IsMirrored h state key r m)
      | inr e ↦ rw e m
    ]

index_keys-IsIndexed :
    (h : Hashing) (topology : TopologySnapshot) (records : Map Record) (index : TokenIndex)
    → IsIndex index
    → IsIndex (index_keys h topology records index)
      × ((t : ℕ) (k : Bytes)
          → contains (index_keys h topology records index) t k ≡ (
              contains index t k
              || t == h.xxh3_64_with_seed k topology.hash_seed && is_some (find_entry records k)))
unfolding index_keys
index_keys-IsIndexed h topology [] index m = (m, λ t k. ground arith)
index_keys-IsIndexed h topology (e ∷ es) index m =
    let token = h.xxh3_64_with_seed e.0 topology.hash_seed in
    let rest =
      index_keys-IsIndexed h topology es (insert index token e.0)
        (insert-remove-IsIndex index token e.0 m).0 in
    (rest.0, λ t k. ground (arith, rest.1 t k, contains-insert index token e.0 t k))

pub set_topology-IsMirrored :
    (h : Hashing) (state : NodeState) (topology : TopologySnapshot)
    → IsMirrored h state
    → IsMirrored h (set_topology h state topology)
unfolding set_topology
set_topology-IsMirrored h state topology m =
    elim (Bool-cases (topology.hash_seed == state.topology.hash_seed)) [
      | inl e ↦
          let eq : state.topology.hash_seed ≡ topology.hash_seed = ground arith in
          rw e (subst (λ s. IsIndexed h s state.records state.records_by_token) eq m.0, m.1)
      | inr e ↦
          let built = index_keys-IsIndexed h topology state.records [] tt in
          rw e ((built.0, λ t k. built.1 t k ∙ unfold contains in refl), m.1)
    ]
