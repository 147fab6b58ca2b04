-- ===== src/Node/Receipts/Totals.antt =====
-- Sums over the maps of crates/hashring-node/src/dedup.rs.
use hashring_rs.Prelude.{
  ℕ, ◌+◌, ◌≡◌, refl, subst, inl, inr, Bytes, same, same-true, [], ◌∷◌, Bool-cases, arith, Option,
  none, some,
}
use hashring_rs.Node.Store.{Map, find_entry, put_entry, remove_entry}
use hashring_rs.Node.Store.Entries.{find_entry-put_entry, find_entry-remove_entry}

-- Each key once.
abbrev pub IsMap {ℓ} : {V : Type ℓ} → Map V → Type ℓ
IsMap [] = Unit
IsMap (e ∷ es) = (find_entry es e.0 ≡ none) × IsMap es

module _ {V : Type 0} (weight : V → ℕ) where
  abbrev pub total : Map V → ℕ
  total [] = 0
  total (e ∷ es) = weight e.1 + total es

  abbrev pub weight_of : Option V → ℕ
  weight_of none = 0
  weight_of (some v) = weight v

  pub total-put_entry :
      (entries : Map V) (key : Bytes) (v : V)
      → total (put_entry entries key v) + weight_of (find_entry entries key)
        ≡ total entries + weight v
  total-put_entry [] key v = omega arith
  total-put_entry (e ∷ es) key v = ground (arith, total-put_entry es key v)

  remove_entry_absent :
      (entries : Map V) (key : Bytes)
      → find_entry entries key ≡ none
      → remove_entry entries key ≡ entries
  remove_entry_absent [] key h = refl
  remove_entry_absent (e ∷ es) key h = ground (arith, remove_entry_absent es key)

  pub total-remove_entry :
      (entries : Map V) (key : Bytes)
      → IsMap entries
      → total (remove_entry entries key) + weight_of (find_entry entries key) ≡ total entries
  total-remove_entry [] key m = omega arith
  total-remove_entry (e ∷ es) key m = elim (Bool-cases (same e.0 key)) [
    | inl c ↦
        let gone : remove_entry es key ≡ es =
          remove_entry_absent es key
            (subst (λ k. find_entry es k ≡ none) (same-true e.0 key c) m.0) in
        rw (c, gone) (omega arith)
    | inr c ↦ rw c (omega (arith, total-remove_entry es key m.1))
  ]

  pub put_entry-IsMap :
      (entries : Map V) (key : Bytes) (v : V) → IsMap entries → IsMap (put_entry entries key v)
  put_entry-IsMap [] key v m = (refl, tt)
  put_entry-IsMap (e ∷ es) key v m =
      ground (arith, put_entry-IsMap es key v m.1, find_entry-put_entry es key v e.0)

  pub remove_entry-IsMap :
      (entries : Map V) (key : Bytes) → IsMap entries → IsMap (remove_entry entries key)
  remove_entry-IsMap [] key m = tt
  remove_entry-IsMap (e ∷ es) key m =
      ground (arith, remove_entry-IsMap es key m.1, find_entry-remove_entry es key e.0)
