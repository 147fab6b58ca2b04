-- ===== src/Redis/Resp/Request.antt =====
-- `parse` of crates/hashring-redis/src/resp.rs. An offset into the buffer is what is left from there
-- on.
use Prim.Native.Nat.{ℕ, zero, suc}
use hashring_rs.Prelude.{
  ◌+◌, ◌-◌, ◌*◌, ◌^◌, Bytes, same, List, [], ◌∷◌, ◌++◌, Bool, not, ◌||◌, ltb, ◌==◌, length,
  is_empty, take, drop, if◌then◌else◌, Option, none, some,
}
use hashring_rs.Redis.Resp.Decimal.{parse_usize}
use hashring_rs.Redis.Resp.Utf8.{is_utf8}

pub record Limits : Type 0 where
  pub max_bulk_bytes : ℕ
  pub max_arguments : ℕ
  pub max_line_bytes : ℕ
  pub max_query_buffer_bytes : ℕ

abbrev pub default_limits : Limits
default_limits = record {
  max_bulk_bytes = 16 * 1_024 * 1_024;
  max_arguments = 2 ^ 17;
  max_line_bytes = 64 * 1_024;
  max_query_buffer_bytes = 1_024 * 1_024 * 1_024;
}

abbrev min : ℕ → ℕ → ℕ
min a b = if ltb b a then b else a

unfoldable pub unauthenticated : Limits → Limits
unauthenticated limits = record limits {
  max_bulk_bytes = min limits.max_bulk_bytes (16 * 1_024);
  max_arguments = min limits.max_arguments 10;
}

-- What the messages of `Frame::Invalid` say.
pub data Invalidity : Type 0 where
  too_many_arguments argument_too_long : ℕ → Invalidity
  missing_crlf too_big_count too_big_bulk_count : Invalidity
  expected_other : ℕ → Invalidity
  invalid_count invalid_bulk_length too_big_inline : Invalidity

pub data Frame : Type 0 where
  command : List Bytes → ℕ → Frame
  incomplete : Frame
  invalid : Invalidity → Frame

-- The number and what follows the line.
pub data Header : Type 0 where
  found : ℕ → Bytes → Header
  incomplete_header : Header
  invalid_header : Invalidity → Header

abbrev pub push_front : ℕ → Option (Bytes × Bytes) → Option (Bytes × Bytes)
push_front c none = none
push_front c (some (line, after)) = some (c ∷ line, after)

-- `find_line_end`: the line without its LF, and what follows it.
unfoldable pub find_line_end : Bytes → Option (Bytes × Bytes)
find_line_end [] = none
find_line_end (c ∷ buffer) =
    let rest = find_line_end buffer in if c == b'\n' then some ([], buffer) else push_front c rest

-- The digits, without the CR that a client may send.
unfoldable pub without_cr : Bytes → Bytes
without_cr [] = []
without_cr (c ∷ []) = if c == b'\r' then [] else c ∷ []
without_cr (c ∷ d ∷ line) = c ∷ without_cr (d ∷ line)

abbrev pub invalid_number : ℕ → Invalidity
invalid_number expected = if expected == b'*' then invalid_count else invalid_bulk_length

abbrev pub read_value : ℕ → Bytes → Option ℕ → Header
read_value expected after none = invalid_header (invalid_number expected)
read_value expected after (some n) = found n after

unfoldable pub read_digits : ℕ → Bytes → Bytes → Header
unfolding without_cr is_utf8 parse_usize
read_digits expected line after =
    if not (is_utf8 (without_cr line))
    then invalid_header invalid_count
    else read_value expected after (parse_usize (without_cr line))

unfoldable pub read_line : ℕ → ℕ → Limits → Option (Bytes × Bytes) → Header
unfolding read_digits
read_line size expected limits none =
    if ltb limits.max_line_bytes size
    then invalid_header (if expected == b'*' then too_big_count else too_big_bulk_count)
    else incomplete_header
read_line size expected limits (some (digits, after)) = read_digits expected digits after

unfoldable pub read_header : Bytes → ℕ → Limits → Header
unfolding find_line_end read_line
read_header [] expected limits = incomplete_header
read_header (c ∷ rest) expected limits =
    if not (c == expected)
    then invalid_header (expected_other expected)
    else read_line (length (c ∷ rest)) expected limits (find_line_end rest)

-- One argument of a multibulk: its length is read, and its bytes are next.
unfoldable pub read_argument : Limits → List Bytes → Header → (Bytes → List Bytes → Frame) → Frame
read_argument limits args incomplete_header later = incomplete
read_argument limits args (invalid_header e) later = invalid e
read_argument limits args (found n start) later =
    if ltb limits.max_bulk_bytes n
    then invalid (argument_too_long limits.max_bulk_bytes)
    else if ltb (length start) (n + 2)
    then incomplete
    else if not (same (take 2 (drop n start)) (b'\r' ∷ b'\n' ∷ []))
    then invalid missing_crlf
    else later (drop (n + 2) start) (args ++ take n start ∷ [])

-- The loop of `parse_multibulk`, with `count` arguments to go, in a buffer of `size` bytes.
unfoldable pub read_arguments : ℕ → ℕ → Limits → Bytes → List Bytes → Frame
unfolding read_header read_argument
read_arguments size zero limits rest args = command args (size - length rest)
read_arguments size (suc count) limits rest args =
    read_argument limits args (read_header rest b'$' limits) (read_arguments size count limits)

unfoldable pub read_multibulk : ℕ → Limits → Header → Frame
unfolding read_arguments
read_multibulk size limits incomplete_header = incomplete
read_multibulk size limits (invalid_header e) = invalid e
read_multibulk size limits (found count next) =
    if ltb limits.max_arguments count
    then invalid (too_many_arguments limits.max_arguments)
    else read_arguments size count limits next []

unfoldable pub parse_multibulk : Bytes → Limits → Frame
unfolding read_header read_multibulk
parse_multibulk buffer limits =
    read_multibulk (length buffer) limits (read_header buffer b'*' limits)

-- `u8::is_ascii_whitespace`
abbrev pub is_whitespace : ℕ → Bool
is_whitespace c = c == b' ' || c == b'\t' || c == b'\n' || c == 12 || c == b'\r'

-- The words of a line, of which `word` is the one that is being read.
unfoldable pub split_words : Bytes → Bytes → List Bytes
split_words [] word = word ∷ []
split_words (c ∷ line) word =
    let next = split_words line [] in
    let on = split_words line (word ++ c ∷ []) in if is_whitespace c then word ∷ next else on

-- The loop of `parse_inline` over the words.
unfoldable pub keep_words : Limits → List Bytes → List Bytes → Frame
keep_words limits [] args =
    if ltb limits.max_arguments (length args)
    then invalid (too_many_arguments limits.max_arguments)
    else command args 0
keep_words limits (word ∷ words) args =
    let skip = keep_words limits words args in
    let push = keep_words limits words (args ++ word ∷ []) in
    if is_empty word
    then skip
    else if ltb limits.max_bulk_bytes (length word)
    then invalid (argument_too_long limits.max_bulk_bytes)
    else push

abbrev pub consumed : ℕ → Frame → Frame
consumed size (command args _) = command args size
consumed size incomplete = incomplete
consumed size (invalid e) = invalid e

unfoldable pub read_inline : ℕ → Limits → Option (Bytes × Bytes) → Frame
unfolding split_words keep_words
read_inline size limits none =
    if ltb limits.max_line_bytes size then invalid too_big_inline else incomplete
read_inline size limits (some (line, after)) =
    consumed (size - length after) (keep_words limits (split_words (line ++ b'\n' ∷ []) []) [])

unfoldable pub parse_inline : Bytes → Limits → Frame
unfolding find_line_end read_inline
parse_inline buffer limits = read_inline (length buffer) limits (find_line_end buffer)

-- A blank line, which is skipped.
abbrev pub skip_line : ℕ → Option (Bytes × Bytes) → Frame
skip_line size none = incomplete
skip_line size (some (line, after)) = command [] (size - length after)

unfoldable pub parse : Bytes → Limits → Frame
unfolding parse_multibulk parse_inline find_line_end
parse [] limits = incomplete
parse (c ∷ rest) limits =
    if c == b'\r' || c == b'\n'
    then skip_line (length (c ∷ rest)) (find_line_end rest)
    else if c == b'*'
    then parse_multibulk (c ∷ rest) limits
    else parse_inline (c ∷ rest) limits
