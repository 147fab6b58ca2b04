-- ===== src/Migration/Serving.antt =====
-- What a validated snapshot serves, as crates/hashring-core/src/migration.rs relies on it.
use hashring_rs.Interval.{interval_contains}
use hashring_rs.Prelude.{
  ℕ, ◌+◌, ◌≤◌, ◌≡◌, refl, sym, ap, ◌∙◌, inl, inr, Bytes, List, [], ◌∷◌, ◌++◌, Bool, false, arith,
  ◌==◌, length, Bool-cases, ok, ok_injective,
}
use hashring_rs.Topology.Types.{Member, TopologySnapshot}
use hashring_rs.Topology.Validate.{contains}
use hashring_rs.Topology.Build.{Hashing, validate}
use hashring_rs.Topology.Lookup.{owner_for_token, replica_node_ids_for_token}
use hashring_rs.Topology.Ranges.{IsRing}
use hashring_rs.Topology.Validity.{validate-IsAccepted, IsAccepted-IsRing}
use hashring_rs.Topology.Served.{owner-head_of_replicas}
use hashring_rs.Topology.Spread.{replica_node_ids-spread}
use hashring_rs.Migration.Types.{RangeMigration, ReplicaObligation, max_replica_obligations}
use hashring_rs.Migration.Delta.{add_obligations}

-- The node `x` owns the token.
abbrev pub Owns : TopologySnapshot → ℕ → Bytes → Type 0
Owns s t x = (fs : List Bytes) × (replica_node_ids_for_token s t ≡ ok (x ∷ fs))

-- What the lookups of a validated snapshot give.
pub record Serves (s : TopologySnapshot) : Type 0 where
  pub ring : IsRing s
  pub owner :
      (t : ℕ)
      → (m : Member) × (fs : List Bytes) × (owner_for_token s t ≡ ok m)
        × (replica_node_ids_for_token s t ≡ ok (m.node_id ∷ fs))
        × (length fs ≤ s.desired_replication_factor)

pub validate-Serves : (h : Hashing) (s : TopologySnapshot) → validate h s ≡ ok tt → Serves s
validate-Serves h s v = record {
  ring = IsAccepted-IsRing h s (validate-IsAccepted h s v);
  owner = λ t.
      let (m, fs, owner, code) = owner-head_of_replicas h s v t in
      let (rs, code', _, len) = replica_node_ids-spread h s t v in
      let eq : m.node_id ∷ fs ≡ rs = ok_injective _ _ (sym code ∙ code') in
      let len' : length rs ≡ length (m.node_id ∷ fs) = ap length (sym eq) in
      (m, fs, owner, code, ground (arith, len, len'));
}

abbrev pub covers : RangeMigration → ℕ → Bool
covers r t = interval_contains r.start_exclusive r.end_inclusive t

pub append-one {ℓ} :
    {A : Type ℓ} (xs : List A) (x : A) (ys : List A) → (xs ++ x ∷ []) ++ ys ≡ xs ++ x ∷ ys
append-one [] x ys = refl
append-one (z ∷ xs) x ys = ap (λ l. z ∷ l) (append-one xs x ys)

pub length-snoc {ℓ} : {A : Type ℓ} (xs : List A) (x : A) → length (xs ++ x ∷ []) ≡ length xs + 1
length-snoc [] x = refl
length-snoc (z ∷ xs) x = omega (arith, length-snoc xs x)

-- As long as there is room, the followers of a range are gone through.
pub add_obligations-ok :
    (p e : ℕ) (source : Bytes) (old fs : List Bytes) (obs : List ReplicaObligation)
    → length obs + length fs ≤ max_replica_obligations
    → (os : List ReplicaObligation) × (add_obligations p e source old fs obs ≡ ok os)
      × (length os ≤ length obs + length fs)
unfolding add_obligations
add_obligations-ok p e source old [] obs room = (obs, refl, omega arith)
add_obligations-ok p e source old (f ∷ fs) obs room = elim (Bool-cases (contains old f)) [
  | inl c ↦
      let (os, code, len) = add_obligations-ok p e source old fs obs (omega arith) in
      (os, rw (c, code), omega arith)
  | inr c ↦
      let owed : ReplicaObligation = record {
        start_exclusive = p;
        end_inclusive = e;
        source_node_id = source;
        destination_node_id = f;
      } in
      let one = length-snoc obs owed in
      let (os, code, len) =
        add_obligations-ok p e source old fs (obs ++ owed ∷ []) (omega (arith, one)) in
      let left : (length obs == max_replica_obligations) ≡ false = ground arith in
      (os, rw (c, left, code), omega (arith, one))
]
