-- ===== src/Node/Dedup/Preimage.antt =====
-- What crates/hashring-node/src/dedup.rs hashes of a mutation tells its key and its shape.
use Prim.Native.Nat.{ℕ, zero, suc}
use native.Mathlib.Nat.{pow-suc, div-div-eq-div-mul}
use mathlib.Core.List.{head-eq_of_cons-eq, tail-eq_of_cons-eq, append_cancel_left}
use hashring_rs.Prelude.{
  ◌/◌, ◌%◌, ◌^◌, ◌<◌, ◌≡◌, refl, sym, ap, ◌∙◌, Bytes, codes, [], ◌∷◌, ◌++◌, Bool, arith, length,
  Option, none, some,
}
use hashring_rs.Topology.Build.{be_bytes}
use hashring_rs.Node.Dedup.{
  Condition, always, absent, version, MutationShape, flag, deadline_bytes, condition_bytes,
  preimage,
}

pub length-be_bytes : (width n : ℕ) → length (be_bytes width n) ≡ width
unfolding be_bytes
length-be_bytes zero n = refl
length-be_bytes (suc width) n = ap suc (length-be_bytes width n)

-- Numbers that agree above the bytes, and in the bytes.
be_bytes_high :
    (width a b : ℕ)
    → a / 256 ^ width ≡ b / 256 ^ width
    → be_bytes width a ≡ be_bytes width b
    → a ≡ b
unfolding be_bytes
be_bytes_high zero a b h e = ground arith
be_bytes_high (suc width) a b h e =
    let low : a / 256 ^ width % 256 ≡ b / 256 ^ width % 256 = head-eq_of_cons-eq e in
    let high : a / 256 ^ width / 256 ≡ b / 256 ^ width / 256 =
      div-div-eq-div-mul a (256 ^ width) 256
      ∙ (ap (λ n. a / n) (sym (pow-suc 256 width)) ∙ (h ∙ ap (λ n. b / n) (pow-suc 256 width)))
      ∙ sym (div-div-eq-div-mul b (256 ^ width) 256) in
    be_bytes_high width a b (omega (arith, low, high)) (tail-eq_of_cons-eq e)

be_bytes_injective : (a b : ℕ) → a < 2 ^ 64 → b < 2 ^ 64 → be_bytes 8 a ≡ be_bytes 8 b → a ≡ b
be_bytes_injective a b ha hb e = be_bytes_high 8 a b (ground arith) e

split : (xs ys zs ws : Bytes) → length xs ≡ length ys → xs ++ zs ≡ ys ++ ws → (xs ≡ ys) × (zs ≡ ws)
split [] [] zs ws h e = (refl, e)
split [] (y ∷ ys) zs ws h e = absurd (omega (arith, h))
split (x ∷ xs) [] zs ws h e = absurd (omega (arith, h))
split (x ∷ xs) (y ∷ ys) zs ws h e =
    let (front, back) = split xs ys zs ws (omega (arith, h)) (tail-eq_of_cons-eq e) in
    (λ i. head-eq_of_cons-eq e i ∷ front i, back)

-- A 64-bit number before other bytes.
split_number :
    (a b : ℕ) (zs ws : Bytes)
    → a < 2 ^ 64
    → b < 2 ^ 64
    → be_bytes 8 a ++ zs ≡ be_bytes 8 b ++ ws
    → (a ≡ b) × (zs ≡ ws)
split_number a b zs ws ha hb e =
    let (front, back) =
      split (be_bytes 8 a) (be_bytes 8 b) zs ws (length-be_bytes 8 a ∙ sym (length-be_bytes 8 b))
        e in
    (be_bytes_injective a b ha hb front, back)

-- A text after its length, before other bytes.
split_text :
    (xs ys zs ws : Bytes)
    → length xs < 2 ^ 64
    → length ys < 2 ^ 64
    → be_bytes 8 (length xs) ++ (xs ++ zs) ≡ be_bytes 8 (length ys) ++ (ys ++ ws)
    → (xs ≡ ys) × (zs ≡ ws)
split_text xs ys zs ws hx hy e =
    let (lengths, rest) = split_number (length xs) (length ys) (xs ++ zs) (ys ++ ws) hx hy e in
    split xs ys zs ws lengths rest

-- The numbers of a shape are 64-bit numbers, as their types in the source say.
abbrev pub DeadlineFits : Option ℕ → Type 0
DeadlineFits none = Unit
DeadlineFits (some deadline) = deadline < 2 ^ 64

abbrev pub ConditionFits : Condition → Type 0
ConditionFits always = Unit
ConditionFits absent = Unit
ConditionFits (version v) =
    (v.topology_epoch < 2 ^ 64) × (v.owner_sequence < 2 ^ 64) × (length v.owner_node_id < 2 ^ 64)

abbrev pub ShapeFits : MutationShape → Type 0
ShapeFits shape =
    (length shape.value < 2 ^ 64)
    × DeadlineFits shape.expires_at_unix_millis
    × ConditionFits shape.condition

split_deadline :
    (a b : Option ℕ) (zs ws : Bytes)
    → DeadlineFits a
    → DeadlineFits b
    → deadline_bytes a ++ zs ≡ deadline_bytes b ++ ws
    → (a ≡ b) × (zs ≡ ws)
split_deadline none none zs ws ha hb e = (refl, tail-eq_of_cons-eq e)
split_deadline none (some b) zs ws ha hb e = absurd (omega (arith, head-eq_of_cons-eq e))
split_deadline (some a) none zs ws ha hb e = absurd (omega (arith, head-eq_of_cons-eq e))
split_deadline (some a) (some b) zs ws ha hb e =
    let (same_number, rest) = split_number a b zs ws ha hb (tail-eq_of_cons-eq e) in
    (ap some same_number, rest)

condition_bytes_injective :
    (a b : Condition)
    → ConditionFits a
    → ConditionFits b
    → condition_bytes a ≡ condition_bytes b
    → a ≡ b
condition_bytes_injective always always ha hb e = refl
condition_bytes_injective absent absent ha hb e = refl
condition_bytes_injective always absent ha hb e = absurd (omega (arith, head-eq_of_cons-eq e))
condition_bytes_injective always (version v) ha hb e = absurd (omega (arith, head-eq_of_cons-eq e))
condition_bytes_injective absent always ha hb e = absurd (omega (arith, head-eq_of_cons-eq e))
condition_bytes_injective absent (version v) ha hb e = absurd (omega (arith, head-eq_of_cons-eq e))
condition_bytes_injective (version v) always ha hb e = absurd (omega (arith, head-eq_of_cons-eq e))
condition_bytes_injective (version v) absent ha hb e = absurd (omega (arith, head-eq_of_cons-eq e))
condition_bytes_injective (version v) (version w) (ve, vs, vi) (we, ws, wi) e =
    let (epochs, e1) =
      split_number v.topology_epoch w.topology_epoch _ _ ve we (tail-eq_of_cons-eq e) in
    let (sequences, e2) = split_number v.owner_sequence w.owner_sequence _ _ vs ws e1 in
    let (lengths, ids) =
      split_number (length v.owner_node_id) (length w.owner_node_id) v.owner_node_id w.owner_node_id
        vi wi e2 in
    λ i.
      version
        (record { topology_epoch = epochs i; owner_sequence = sequences i; owner_node_id = ids i })

flag_injective : (a b : Bool) → flag a ≡ flag b → a ≡ b
flag_injective a b e = ground (arith, e)

-- Two mutations for which the same bytes are hashed have the same key and the same shape, where the
-- lengths, deadlines and versions are 64-bit numbers.
pub preimage-injective :
    (key other : Bytes) (a b : MutationShape)
    → length key < 2 ^ 64
    → length other < 2 ^ 64
    → ShapeFits a
    → ShapeFits b
    → preimage key a ≡ preimage other b
    → (key ≡ other) × (a ≡ b)
unfolding preimage
preimage-injective key other a b hk ho (av, ad, ac) (bv, bd, bc) e =
    let e0 = tail-eq_of_cons-eq (append_cancel_left (codes "hashring-rs:mutation:v3") _ _ e) in
    let (keys, e1) = split_text key other _ _ hk ho e0 in
    let deleted = flag_injective a.deleted b.deleted (head-eq_of_cons-eq e1) in
    let e2 = tail-eq_of_cons-eq e1 in
    let preserved = flag_injective a.preserve_value b.preserve_value (head-eq_of_cons-eq e2) in
    let (values, e3) = split_text a.value b.value _ _ av bv (tail-eq_of_cons-eq e2) in
    let (deadlines, e4) =
      split_deadline a.expires_at_unix_millis b.expires_at_unix_millis _ _ ad bd e3 in
    let conditions = condition_bytes_injective a.condition b.condition ac bc e4 in
    (
      keys,
      λ i. record {
        value = values i;
        deleted = deleted i;
        preserve_value = preserved i;
        expires_at_unix_millis = deadlines i;
        condition = conditions i;
      },
    )
