-- ===== src/Redis/Glob/Class.antt =====
-- Character classes of crates/hashring-redis/src/commands/glob.rs. A `u64` of a class is the function
-- that gives its bits, and the four of them are the function that gives the words. An index into the
-- pattern is the text from there on, and an `i8` its byte.
use hashring_rs.Prelude.{
  ℕ, ◌+◌, ◌-◌, ◌*◌, ◌/◌, ◌%◌, ◌<◌, ◌≡◌, ap, ◌∙◌, Bool, true, false, ◌&&◌, ◌||◌, ltb, leb, ◌==◌,
  arith, if◌then◌else◌,
}

abbrev pub Word : Type 0
Word = ℕ → Bool

abbrev pub ByteClass : Type 0
ByteClass = ℕ → Word

abbrev pub no_bytes : ByteClass
no_bytes = λ index bit. false

unfoldable pub accepts_byte : ByteClass → ℕ → Bool
accepts_byte class byte = class (byte / 64) (byte % 64)

unfoldable pub accept : ByteClass → ℕ → ByteClass
accept class byte = λ index bit. class index bit || index == byte / 64 && bit == byte % 64

abbrev max : ℕ → ℕ → ℕ
max a b = if ltb a b then b else a

abbrev min : ℕ → ℕ → ℕ
min a b = if ltb b a then b else a

-- `bits << (from - base)`, for the word at the index.
unfoldable pub range_mask : ℕ → ℕ → ℕ → Word
range_mask low high index =
    let base = index * 64 in
    let from = max low base in
    let to = min high (base + 63) in
    let width = to - from + 1 in
    let bits : Word = if width == 64 then (λ bit. true) else (λ bit. ltb bit width) in
    if ltb to from then (λ bit. false) else λ bit.
    leb (from - base) bit && bits (bit - (from - base))

unfoldable pub accept_range : ByteClass → ℕ → ℕ → ByteClass
unfolding range_mask
accept_range class low high = λ index bit. class index bit || range_mask low high index bit

-- The order of the `i8`s.
abbrev pub signed : ℕ → ℕ
signed byte = (byte + 128) % 256

unfoldable pub accept_redis_range : ByteClass → ℕ → ℕ → ByteClass
unfolding accept_range
accept_redis_range class first second =
    let low = if ltb (signed second) (signed first) then second else first in
    let high = if ltb (signed second) (signed first) then first else second in
    if ltb low 128 || leb 128 high
    then accept_range class low high
    else accept_range (accept_range class 0 high) low 255

-- A byte is accepted after `accept_range` if it was before, or lies in the range.
pub accepts_byte-accept_range :
    (class : ByteClass) (low high byte : ℕ)
    → accepts_byte (accept_range class low high) byte
      ≡ (accepts_byte class byte || leb low byte && leb byte high)
unfolding accepts_byte accept_range range_mask
accepts_byte-accept_range class low high byte = ground arith

pub accepts_byte-accept :
    (class : ByteClass) (new byte : ℕ)
    → accepts_byte (accept class new) byte ≡ (accepts_byte class byte || new == byte)
unfolding accepts_byte accept
accepts_byte-accept class new byte = ground arith

accepts_byte-two_ranges :
    (class : ByteClass) (high low byte : ℕ)
    → accepts_byte (accept_range (accept_range class 0 high) low 255) byte
      ≡ ((accepts_byte class byte || leb 0 byte && leb byte high) || leb low byte && leb byte 255)
accepts_byte-two_ranges class high low byte =
    accepts_byte-accept_range (accept_range class 0 high) low 255 byte
    ∙ ap (λ b. b || leb low byte && leb byte 255) (accepts_byte-accept_range class 0 high byte)

-- A byte is accepted after `accept_redis_range` if it was before, or lies between the two ends, in
-- either order, as signed bytes are compared.
pub accepts_byte-accept_redis_range :
    (class : ByteClass) (first second byte : ℕ)
    → first < 256
    → second < 256
    → byte < 256
    → accepts_byte (accept_redis_range class first second) byte ≡ (
        accepts_byte class byte
        || leb (signed first) (signed byte) && leb (signed byte) (signed second)
        || leb (signed second) (signed byte) && leb (signed byte) (signed first))
unfolding accept_redis_range
accepts_byte-accept_redis_range class first second byte hf hs hb = ground (
  arith,
  accepts_byte-accept_range class first second byte,
  accepts_byte-accept_range class second first byte,
  accepts_byte-two_ranges class first second byte,
  accepts_byte-two_ranges class second first byte,
)
