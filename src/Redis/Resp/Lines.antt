-- ===== src/Redis/Resp/Lines.antt =====
-- Lines and headers with more bytes behind them, as `find_line_end` and `read_header` of
-- crates/hashring-redis/src/resp.rs find them.
use Prim.Native.Nat.{ℕ}
use hashring_rs.Prelude.{
  ◌+◌, ◌≡◌, refl, ap, inl, inr, Bytes, [], ◌∷◌, ◌++◌, ltb, ◌==◌, Bool-cases, length, length-append,
  Option, none, some,
}
use hashring_rs.Redis.Resp.Request.{
  Limits, Header, found, incomplete_header, invalid_header, push_front, find_line_end, read_value,
  read_digits, without_cr, read_line, read_header,
}
use hashring_rs.Redis.Resp.Decimal.{parse_usize}
use hashring_rs.Redis.Resp.Utf8.{is_utf8}

module _ (more : Bytes) where
  -- A line that was found is found again, with more after it.
  unfoldable pub LineExtends : Option (Bytes × Bytes) → Option (Bytes × Bytes) → Type 0
  LineExtends none later = Unit
  LineExtends (some (line, after)) later = later ≡ some (line, after ++ more)

  push_front-LineExtends :
      (c : ℕ) (now later : Option (Bytes × Bytes))
      → LineExtends now later
      → LineExtends (push_front c now) (push_front c later)
  unfolding LineExtends
  push_front-LineExtends c none later h = tt
  push_front-LineExtends c (some (line, after)) later h = ap (push_front c) h

  pub find_line_end-LineExtends :
      (buffer : Bytes) → LineExtends (find_line_end buffer) (find_line_end (buffer ++ more))
  unfolding find_line_end LineExtends
  find_line_end-LineExtends [] = tt
  find_line_end-LineExtends (c ∷ buffer) = elim (Bool-cases (c == b'\n')) [
    | inl e ↦ rw e refl
    | inr e ↦ rw e (
        push_front-LineExtends c (find_line_end buffer) (find_line_end (buffer ++ more))
          (find_line_end-LineExtends buffer))
  ]

  -- The same of a header.
  unfoldable pub HeaderExtends : Header → Header → Type 0
  HeaderExtends (found n next) later = later ≡ found n (next ++ more)
  HeaderExtends incomplete_header later = Unit
  HeaderExtends (invalid_header e) later = Unit

  read_value-HeaderExtends :
      (expected : ℕ) (after : Bytes) (n : Option ℕ)
      → HeaderExtends (read_value expected after n) (read_value expected (after ++ more) n)
  unfolding HeaderExtends
  read_value-HeaderExtends expected after none = tt
  read_value-HeaderExtends expected after (some n) = refl

  read_digits-HeaderExtends :
      (expected : ℕ) (line after : Bytes)
      → HeaderExtends (read_digits expected line after) (read_digits expected line (after ++ more))
  unfolding read_digits
  read_digits-HeaderExtends expected line after = elim (Bool-cases (is_utf8 (without_cr line))) [
    | inl e ↦ rw e (read_value-HeaderExtends expected after (parse_usize (without_cr line)))
    | inr e ↦ rw e (unfold HeaderExtends in tt)
  ]

  read_line-HeaderExtends :
      (size expected : ℕ) (limits : Limits) (now later : Option (Bytes × Bytes))
      → LineExtends now later
      → HeaderExtends
          (read_line size expected limits now)
          (read_line (size + length more) expected limits later)
  unfolding read_line LineExtends
  read_line-HeaderExtends size expected limits none later h =
      elim (Bool-cases (ltb limits.max_line_bytes size)) [
        | inl e ↦ rw e (unfold HeaderExtends in tt)
        | inr e ↦ rw e (unfold HeaderExtends in tt)
      ]
  read_line-HeaderExtends size expected limits (some (line, after)) later h =
      rw h (read_digits-HeaderExtends expected line after)

  pub read_header-HeaderExtends :
      (buffer : Bytes) (expected : ℕ) (limits : Limits)
      → HeaderExtends
          (read_header buffer expected limits)
          (read_header (buffer ++ more) expected limits)
  unfolding read_header
  read_header-HeaderExtends [] expected limits = unfold HeaderExtends in tt
  read_header-HeaderExtends (c ∷ rest) expected limits = elim (Bool-cases (c == expected)) [
    | inl e ↦
        rw (e, length-append (c ∷ rest) more)
          (read_line-HeaderExtends (length (c ∷ rest)) expected limits (find_line_end rest)
            (find_line_end (rest ++ more)) (find_line_end-LineExtends rest))
    | inr e ↦ rw e (unfold HeaderExtends in tt)
  ]
