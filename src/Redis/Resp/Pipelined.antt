-- ===== src/Redis/Resp/Pipelined.antt =====
-- Requests that arrive behind one another: what `parse` of crates/hashring-redis/src/resp.rs finds does
-- not depend on the bytes behind it.
use Prim.Native.Nat.{ℕ, zero, suc}
use hashring_rs.Prelude.{
  ◌+◌, ◌-◌, ◌≤◌, ◌≡◌, refl, sym, ap, inl, inr, Bytes, same, List, [], ◌∷◌, ◌++◌, Bool, true, false,
  ◌||◌, arith, ltb, ◌==◌, Bool-cases, subst, length, length-append, take, drop, Option, none, some,
  if◌then◌else◌,
}
use hashring_rs.Redis.Resp.Request.{
  Limits, Frame, command, incomplete, invalid, Header, found, incomplete_header, invalid_header,
  find_line_end, read_multibulk, read_inline, skip_line, consumed, read_header, read_argument,
  read_arguments, parse_multibulk, parse_inline, parse,
}
use hashring_rs.Redis.Resp.Lines.{
  LineExtends, find_line_end-LineExtends, HeaderExtends, read_header-HeaderExtends,
}

module _ (more : Bytes) where
  drop-append_le : (n : ℕ) (xs : Bytes) → n ≤ length xs → drop n (xs ++ more) ≡ drop n xs ++ more
  drop-append_le zero xs h = refl
  drop-append_le (suc n) [] h = absurd (omega arith)
  drop-append_le (suc n) (x ∷ xs) h = drop-append_le n xs (omega arith)

  take-append_le : (n : ℕ) (xs : Bytes) → n ≤ length xs → take n (xs ++ more) ≡ take n xs
  take-append_le zero xs h = refl
  take-append_le (suc n) [] h = absurd (omega arith)
  take-append_le (suc n) (x ∷ xs) h = ap (λ t. x ∷ t) (take-append_le n xs (omega arith))

  length-drop : (n : ℕ) (xs : Bytes) → length (drop n xs) ≡ length xs - n
  length-drop zero xs = omega arith
  length-drop (suc n) [] = omega arith
  length-drop (suc n) (x ∷ xs) = omega (arith, length-drop n xs)

  -- The same of a command.
  FrameExtends : Frame → Frame → Type 0
  FrameExtends (command args n) later = later ≡ command args n
  FrameExtends incomplete later = Unit
  FrameExtends (invalid e) later = Unit

  read_argument-FrameExtends :
      (limits : Limits) (args : List Bytes) (now later : Header)
      (next next_later : Bytes → List Bytes → Frame)
      → HeaderExtends more now later
      → ((rest : Bytes) (args : List Bytes)
          → FrameExtends (next rest args) (next_later (rest ++ more) args))
      → FrameExtends
          (read_argument limits args now next)
          (read_argument limits args later next_later)
  unfolding read_argument HeaderExtends
  read_argument-FrameExtends limits args incomplete_header later next next_later h k =
      unfold FrameExtends in tt
  read_argument-FrameExtends limits args (invalid_header e) later next next_later h k =
      unfold FrameExtends in tt
  read_argument-FrameExtends limits args (found n start) later next next_later h k =
      rw h (elim (Bool-cases (ltb limits.max_bulk_bytes n)) [
        | inl e ↦ rw e (unfold FrameExtends in tt)
        | inr e ↦ rw e (elim (Bool-cases (ltb (length start) (n + 2))) [
          | inl s ↦ rw s (unfold FrameExtends in tt)
          | inr s ↦
              let long : n + 2 ≤ length start = ground arith in
              let s2 : ltb (length (start ++ more)) (n + 2) ≡ false =
                ground (arith, length-append start more) in
              rw
                (
                  s,
                  s2,
                  drop-append_le n start (omega arith),
                  take-append_le 2 (drop n start) (omega (arith, length-drop n start)),
                  drop-append_le (n + 2) start long,
                  take-append_le n start (omega arith),
                )
                (elim (Bool-cases (same (take 2 (drop n start)) (b'\r' ∷ b'\n' ∷ []))) [
                  | inl t ↦ rw t (k (drop (n + 2) start) (args ++ take n start ∷ []))
                  | inr t ↦ rw t (unfold FrameExtends in tt)
                ])
        ])
      ])

  read_arguments-FrameExtends :
      (size count : ℕ) (limits : Limits) (rest : Bytes) (args : List Bytes)
      → FrameExtends
          (read_arguments size count limits rest args)
          (read_arguments (size + length more) count limits (rest ++ more) args)
  unfolding read_arguments
  read_arguments-FrameExtends size zero limits rest args =
      unfold FrameExtends in ap (command args) (omega (arith, length-append rest more))
  read_arguments-FrameExtends size (suc count) limits rest args =
      read_argument-FrameExtends limits args (read_header rest b'$' limits)
        (read_header (rest ++ more) b'$' limits) (read_arguments size count limits)
        (read_arguments (size + length more) count limits)
        (read_header-HeaderExtends more rest b'$' limits)
        (read_arguments-FrameExtends size count limits)

  read_multibulk-FrameExtends :
      (size : ℕ) (limits : Limits) (now later : Header)
      → HeaderExtends more now later
      → FrameExtends
          (read_multibulk size limits now)
          (read_multibulk (size + length more) limits later)
  unfolding read_multibulk HeaderExtends
  read_multibulk-FrameExtends size limits incomplete_header later h = unfold FrameExtends in tt
  read_multibulk-FrameExtends size limits (invalid_header e) later h = unfold FrameExtends in tt
  read_multibulk-FrameExtends size limits (found count next) later h =
      rw h (elim (Bool-cases (ltb limits.max_arguments count)) [
        | inl e ↦ rw e (unfold FrameExtends in tt)
        | inr e ↦ rw e (read_arguments-FrameExtends size count limits next [])
      ])

  consumed-FrameExtends :
      (m n : ℕ) (frame : Frame) → m ≡ n → FrameExtends (consumed m frame) (consumed n frame)
  unfolding FrameExtends
  consumed-FrameExtends m n (command args k) h = ap (command args) (sym h)
  consumed-FrameExtends m n incomplete h = tt
  consumed-FrameExtends m n (invalid e) h = tt

  read_inline-FrameExtends :
      (size : ℕ) (limits : Limits) (now later : Option (Bytes × Bytes))
      → LineExtends more now later
      → FrameExtends (read_inline size limits now) (read_inline (size + length more) limits later)
  unfolding read_inline LineExtends
  read_inline-FrameExtends size limits none later h =
      elim (Bool-cases (ltb limits.max_line_bytes size)) [
        | inl e ↦ rw e (unfold FrameExtends in tt)
        | inr e ↦ rw e (unfold FrameExtends in tt)
      ]
  read_inline-FrameExtends size limits (some (line, after)) later h = rw h (
      consumed-FrameExtends (size - length after) (size + length more - length (after ++ more)) _
        (omega (arith, length-append after more)))

  skip_line-FrameExtends :
      (size : ℕ) (now later : Option (Bytes × Bytes))
      → LineExtends more now later
      → FrameExtends (skip_line size now) (skip_line (size + length more) later)
  unfolding LineExtends FrameExtends
  skip_line-FrameExtends size none later h = tt
  skip_line-FrameExtends size (some (line, after)) later h =
      rw h (ap (command []) (omega (arith, length-append after more)))

  parse_multibulk-FrameExtends :
      (buffer : Bytes) (limits : Limits)
      → FrameExtends (parse_multibulk buffer limits) (parse_multibulk (buffer ++ more) limits)
  unfolding parse_multibulk
  parse_multibulk-FrameExtends buffer limits =
      subst
        (λ n.
          FrameExtends (parse_multibulk buffer limits)
            (read_multibulk n limits (read_header (buffer ++ more) b'*' limits)))
        (sym (length-append buffer more))
        (read_multibulk-FrameExtends (length buffer) limits (read_header buffer b'*' limits)
          (read_header (buffer ++ more) b'*' limits)
          (read_header-HeaderExtends more buffer b'*' limits))

  parse_inline-FrameExtends :
      (buffer : Bytes) (limits : Limits)
      → FrameExtends (parse_inline buffer limits) (parse_inline (buffer ++ more) limits)
  unfolding parse_inline
  parse_inline-FrameExtends buffer limits =
      subst
        (λ n.
          FrameExtends (parse_inline buffer limits)
            (read_inline n limits (find_line_end (buffer ++ more))))
        (sym (length-append buffer more))
        (read_inline-FrameExtends (length buffer) limits (find_line_end buffer)
          (find_line_end (buffer ++ more)) (find_line_end-LineExtends more buffer))

  skip-FrameExtends :
      (buffer rest : Bytes)
      → FrameExtends
          (skip_line (length buffer) (find_line_end rest))
          (skip_line (length (buffer ++ more)) (find_line_end (rest ++ more)))
  skip-FrameExtends buffer rest =
      subst
        (λ n.
          FrameExtends (skip_line (length buffer) (find_line_end rest))
            (skip_line n (find_line_end (rest ++ more))))
        (sym (length-append buffer more))
        (skip_line-FrameExtends (length buffer) (find_line_end rest) (find_line_end (rest ++ more))
          (find_line_end-LineExtends more rest))

  if-FrameExtends :
      (b : Bool) (f f_later g g_later : Frame)
      → FrameExtends f f_later
      → FrameExtends g g_later
      → FrameExtends (if b then f else g) (if b then f_later else g_later)
  if-FrameExtends true f f_later g g_later h k = h
  if-FrameExtends false f f_later g g_later h k = k

  parse-FrameExtends :
      (buffer : Bytes) (limits : Limits)
      → FrameExtends (parse buffer limits) (parse (buffer ++ more) limits)
  unfolding parse
  parse-FrameExtends [] limits = unfold FrameExtends in tt
  parse-FrameExtends (c ∷ rest) limits =
      if-FrameExtends (c == b'\r' || c == b'\n') _ _ _ _ (skip-FrameExtends (c ∷ rest) rest) (
        if-FrameExtends (c == b'*') _ _ _ _ (parse_multibulk-FrameExtends (c ∷ rest) limits)
          (parse_inline-FrameExtends (c ∷ rest) limits))

-- A command that `parse` finds at the front of a buffer is the one it finds there when more bytes have
-- arrived behind it.
pub parse-append :
    (buffer more : Bytes) (limits : Limits) (args : List Bytes) (n : ℕ)
    → parse buffer limits ≡ command args n
    → parse (buffer ++ more) limits ≡ command args n
parse-append buffer more limits args n h =
    unfold FrameExtends in
    subst (λ f. FrameExtends more f (parse (buffer ++ more) limits)) h
      (parse-FrameExtends more buffer limits)
