-- ===== src/Redis/Resp/RoundTrip.antt =====
-- The request parser of crates/hashring-redis/src/resp.rs reads back what `encode` writes.
use Prim.Native.Nat.{ℕ, suc}
use mathlib.Core.List.{append-nil, append_assoc}
use hashring_rs.Prelude.{
  ◌+◌, ◌-◌, ◌*◌, ◌^◌, ◌≤◌, ◌<◌, ◌≡◌, refl, sym, ap, ◌∙◌, Bytes, List, [], ◌∷◌, ◌++◌, true, arith,
  All, length, length-append, take, drop, some,
}
use hashring_rs.Redis.Resp.Decimal.{
  to_string, to_string-AllDigits, AllDigits, parse_usize-to_string,
}
use hashring_rs.Redis.Resp.Utf8.{is_utf8}
use hashring_rs.Redis.Resp.Request.{
  Limits, Frame, command, found, find_line_end, without_cr, read_digits, read_header, read_line,
  read_multibulk, read_argument, read_arguments, parse_multibulk, parse,
}
use hashring_rs.Redis.Resp.Reply.{
  Protocol, resp2, bulk, array, set, map, Replies, no_replies, reply_and, Entries, no_entries,
  entry_and, count, count_entries, crlf, header, encode_bulk, encode_bulks, encode, encode_each,
  encode_entries,
}

find_line_end-AllDigits :
    (text after : Bytes)
    → AllDigits text
    → find_line_end (text ++ b'\r' ∷ b'\n' ∷ after) ≡ some (text ++ b'\r' ∷ [], after)
unfolding find_line_end
find_line_end-AllDigits [] after h = refl
find_line_end-AllDigits (c ∷ text) after h = ground (arith, find_line_end-AllDigits text after h.1)

without_cr-append : (text : Bytes) → without_cr (text ++ b'\r' ∷ []) ≡ text
unfolding without_cr
without_cr-append [] = refl
without_cr-append (c ∷ []) = refl
without_cr-append (c ∷ d ∷ text) = ap (λ t. c ∷ t) (without_cr-append (d ∷ text))

is_utf8-AllDigits : (text : Bytes) → AllDigits text → is_utf8 text ≡ true
unfolding is_utf8
is_utf8-AllDigits [] h = refl
is_utf8-AllDigits (a ∷ []) h = ground arith
is_utf8-AllDigits (a ∷ b ∷ []) h = ground (arith, is_utf8-AllDigits (b ∷ []) h.1)
is_utf8-AllDigits (a ∷ b ∷ c ∷ []) h = ground (arith, is_utf8-AllDigits (b ∷ c ∷ []) h.1)
is_utf8-AllDigits (a ∷ b ∷ c ∷ d ∷ text) h =
    ground (arith, is_utf8-AllDigits (b ∷ c ∷ d ∷ text) h.1)

read_digits-to_string :
    (expected n : ℕ) (after : Bytes)
    → n < 2 ^ 64
    → read_digits expected (to_string n ++ b'\r' ∷ []) after ≡ found n after
unfolding read_digits
read_digits-to_string expected n after fits = rw (
  without_cr-append (to_string n),
  is_utf8-AllDigits (to_string n) (to_string-AllDigits n),
  parse_usize-to_string n fits,
)

read_header-header :
    (expected n : ℕ) (after : Bytes) (limits : Limits)
    → n < 2 ^ 64
    → read_header (expected ∷ to_string n ++ b'\r' ∷ b'\n' ∷ after) expected limits ≡ found n after
unfolding read_header read_line
read_header-header expected n after limits fits =
    rw (find_line_end-AllDigits (to_string n) after (to_string-AllDigits n)) ground
      (arith, read_digits-to_string expected n after fits)

header-append :
    (prefix n : ℕ) (after : Bytes)
    → header prefix n ++ after ≡ prefix ∷ to_string n ++ b'\r' ∷ b'\n' ∷ after
header-append prefix n after = ap (λ t. prefix ∷ t) (append_assoc (to_string n) crlf after)

encode_bulk-append :
    (value after : Bytes)
    → encode_bulk value ++ after
      ≡ b'$' ∷ (to_string (length value) ++ b'\r' ∷ b'\n' ∷ (value ++ b'\r' ∷ b'\n' ∷ after))
encode_bulk-append value after =
    append_assoc (header b'$' (length value)) (value ++ crlf) after
    ∙ header-append b'$' (length value) ((value ++ crlf) ++ after)
    ∙ ap (λ t. b'$' ∷ (to_string (length value) ++ b'\r' ∷ b'\n' ∷ t))
        (append_assoc value crlf after)

take-append : (xs ys : Bytes) → take (length xs) (xs ++ ys) ≡ xs
take-append [] ys = refl
take-append (x ∷ xs) ys = ap (λ t. x ∷ t) (take-append xs ys)

drop-append : (xs ys : Bytes) → drop (length xs) (xs ++ ys) ≡ ys
drop-append [] ys = refl
drop-append (x ∷ xs) ys = drop-append xs ys

plus_two : (n : ℕ) → n + 2 ≡ suc (suc n)
plus_two n = omega arith

drop-append_two : (xs ys : Bytes) (a b : ℕ) → drop (suc (suc (length xs))) (xs ++ a ∷ b ∷ ys) ≡ ys
drop-append_two [] ys a b = refl
drop-append_two (x ∷ xs) ys a b = drop-append_two xs ys a b

module _ (limits : Limits) where
  -- An argument that the limits have room for, and whose length is a 64-bit number.
  abbrev pub Fits : Bytes → Type 0
  Fits value = (length value ≤ limits.max_bulk_bytes) × (length value < 2 ^ 64)

  read_argument-found :
      (value after : Bytes) (args : List Bytes) (later : Bytes → List Bytes → Frame)
      → Fits value
      → read_argument limits args (found (length value) (value ++ b'\r' ∷ b'\n' ∷ after)) later
        ≡ later after (args ++ value ∷ [])
  unfolding read_argument
  read_argument-found value after args later h =
      rw
        (
          plus_two (length value),
          drop-append value (b'\r' ∷ b'\n' ∷ after),
          take-append value (b'\r' ∷ b'\n' ∷ after),
          drop-append_two value after b'\r' b'\n',
          length-append value (b'\r' ∷ b'\n' ∷ after),
        )
        ground arith

  read_arguments-encode_bulks :
      (size : ℕ) (items : List Bytes) (after : Bytes) (args : List Bytes)
      → All Fits items
      → read_arguments size (length items) limits (encode_bulks items ++ after) args
        ≡ command (args ++ items) (size - length after)
  unfolding read_arguments
  read_arguments-encode_bulks size [] after args h =
      ap (λ a. command a (size - length after)) (sym (append-nil args))
  read_arguments-encode_bulks size (item ∷ items) after args h =
      ap
        (λ t.
          read_argument limits args (read_header t b'$' limits)
            (read_arguments size (length items) limits))
        (append_assoc (encode_bulk item) (encode_bulks items) after
          ∙ encode_bulk-append item (encode_bulks items ++ after))
      ∙ ap (λ h. read_argument limits args h (read_arguments size (length items) limits))
          (read_header-header b'$' (length item)
            (item ++ b'\r' ∷ b'\n' ∷ (encode_bulks items ++ after)) limits h.0.1)
      ∙ read_argument-found item (encode_bulks items ++ after) args
          (read_arguments size (length items) limits) h.0
      ∙ read_arguments-encode_bulks size items after (args ++ item ∷ []) h.1
      ∙ ap (λ a. command a (size - length after)) (append_assoc args (item ∷ []) items)

  parse_multibulk-found :
      (buffer next : Bytes) (n : ℕ)
      → read_header buffer b'*' limits ≡ found n next
      → n ≤ limits.max_arguments
      → parse_multibulk buffer limits ≡ read_arguments (length buffer) n limits next []
  unfolding parse_multibulk read_multibulk
  parse_multibulk-found buffer next n e few = rw e ground arith

  -- A request of bulk strings, before whatever follows it.
  parse-bulks :
      (items : List Bytes) (after : Bytes)
      → length items ≤ limits.max_arguments
      → length items < 2 ^ 64
      → All Fits items
      → parse (header b'*' (length items) ++ encode_bulks items ++ after) limits
        ≡ command items (length (header b'*' (length items) ++ encode_bulks items))
  unfolding parse
  parse-bulks items after few fits h =
      let buffer = header b'*' (length items) ++ encode_bulks items ++ after in
      let next = encode_bulks items ++ after in
      let e : read_header buffer b'*' limits ≡ found (length items) next =
        ap (λ t. read_header t b'*' limits)
          (append_assoc (header b'*' (length items)) (encode_bulks items) after
            ∙ header-append b'*' (length items) next)
        ∙ read_header-header b'*' (length items) next limits fits in
      parse_multibulk-found buffer next (length items) e few
      ∙ read_arguments-encode_bulks (length buffer) items after [] h
      ∙ ap (λ n. command items n)
          (omega (arith, length-append (header b'*' (length items) ++ encode_bulks items) after))

-- A command as a client sends it.
abbrev pub bulks : List Bytes → Replies
bulks [] = no_replies
bulks (item ∷ items) = reply_and (bulk (some item)) (bulks items)

abbrev pub pairs : List (Bytes × Bytes) → Entries
pairs [] = no_entries
pairs ((key, value) ∷ rest) = entry_and key (bulk (some value)) (pairs rest)

abbrev pub flat : List (Bytes × Bytes) → List Bytes
flat [] = []
flat ((key, value) ∷ rest) = key ∷ value ∷ flat rest

encode_each-bulks :
    (items : List Bytes) (protocol : Protocol)
    → (count (bulks items) ≡ length items)
      × (encode_each (bulks items) protocol ≡ encode_bulks items)
unfolding encode
encode_each-bulks [] protocol = (refl, refl)
encode_each-bulks (item ∷ items) protocol =
    let (n, e) = encode_each-bulks items protocol in (ap suc n, ap (λ t. encode_bulk item ++ t) e)

encode_entries-pairs :
    (entries : List (Bytes × Bytes)) (protocol : Protocol)
    → (count_entries (pairs entries) * 2 ≡ length (flat entries))
      × (encode_entries (pairs entries) protocol ≡ encode_bulks (flat entries))
unfolding encode
encode_entries-pairs [] protocol = (refl, refl)
encode_entries-pairs ((key, value) ∷ rest) protocol =
    let (n, e) = encode_entries-pairs rest protocol in
    (omega (arith, n), ap (λ t. encode_bulk key ++ (encode_bulk value ++ t)) e)

-- A request within the limits, of fewer than 2 ^ 64 arguments of fewer than 2 ^ 64 bytes, is read back
-- from its encoding as an array in either protocol, and as a set in RESP2, whatever follows it.
pub parse-encode_array :
    (limits : Limits) (items : List Bytes) (after : Bytes) (protocol : Protocol)
    → length items ≤ limits.max_arguments
    → length items < 2 ^ 64
    → All (Fits limits) items
    → (parse (encode (array (bulks items)) protocol ++ after) limits
        ≡ command items (length (encode (array (bulks items)) protocol)))
      × (parse (encode (set items) resp2 ++ after) limits
          ≡ command items (length (encode (set items) resp2)))
unfolding encode
parse-encode_array limits items after protocol few fits h =
    let (n, e) = encode_each-bulks items protocol in
    let read = parse-bulks limits items after few fits h in (rw (n, e) read, read)

-- A map of texts is read back in RESP2 as the request of its keys and values in turn, under the
-- conditions of any other request.
pub parse-encode_map :
    (limits : Limits) (entries : List (Bytes × Bytes)) (after : Bytes)
    → length (flat entries) ≤ limits.max_arguments
    → length (flat entries) < 2 ^ 64
    → All (Fits limits) (flat entries)
    → parse (encode (map (pairs entries)) resp2 ++ after) limits
      ≡ command (flat entries) (length (encode (map (pairs entries)) resp2))
unfolding encode
parse-encode_map limits entries after few fits h =
    let (n, e) = encode_entries-pairs entries resp2 in
    rw (n, e) (parse-bulks limits (flat entries) after few fits h)
