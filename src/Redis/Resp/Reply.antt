-- ===== src/Redis/Resp/Reply.antt =====
-- `Reply` and `encode` of crates/hashring-redis/src/resp.rs. What `encode` pushes is what it returns
-- here. `f64` and its formatting are parameters, a `Float` with what is asked of it.
use Prim.Native.Nat.{ℕ, suc}
use hashring_rs.Prelude.{
  ℤ, pos, negsuc, ◌+◌, ◌*◌, Bytes, codes, List, [], ◌∷◌, ◌++◌, Bool, ◌||◌, ◌==◌, length, any,
  if◌then◌else◌, Option, none, some,
}
use hashring_rs.Redis.Resp.Decimal.{to_string}

-- `i64::to_string`
abbrev pub signed_to_string : ℤ → Bytes
signed_to_string (pos n) = to_string n
signed_to_string (negsuc n) = b'-' ∷ to_string (n + 1)

pub record Float : Type 0 where
  pub is_finite : Bool
  pub display : Bytes

pub data Protocol : Type 0 where
  resp2 resp3 : Protocol

unfoldable pub version : Protocol → ℕ
version resp2 = 2
version resp3 = 3

-- A list of replies and a list of pairs are data types of their own.
mutual
  pub data Reply : Type 0 where
    simple error : Bytes → Reply
    integer : ℤ → Reply
    bulk : Option Bytes → Reply
    array : Replies → Reply
    map : Entries → Reply
    set : List Bytes → Reply
    double : Float → Reply
    boolean : Bool → Reply
    nil : Reply

  pub data Replies : Type 0 where
    no_replies : Replies
    reply_and : Reply → Replies → Replies

  pub data Entries : Type 0 where
    no_entries : Entries
    entry_and : Bytes → Reply → Entries → Entries

abbrev pub count : Replies → ℕ
count no_replies = 0
count (reply_and r rs) = suc (count rs)

abbrev pub count_entries : Entries → ℕ
count_entries no_entries = 0
count_entries (entry_and k r es) = suc (count_entries es)

abbrev pub crlf : Bytes
crlf = b'\r' ∷ b'\n' ∷ []

abbrev has_mark : ℕ → Bool
has_mark c = c == b'.' || c == b'e' || c == b'E' || c == b'n' || c == b'i'

unfoldable pub format_double : Float → Bytes
format_double value =
    if value.is_finite
    then (if any has_mark value.display then value.display else value.display ++ b'.' ∷ b'0' ∷ [])
    else b'0' ∷ []

-- A prefix, a number and the end of the line.
abbrev pub header : ℕ → ℕ → Bytes
header prefix n = prefix ∷ to_string n ++ crlf

abbrev pub encode_bulk : Bytes → Bytes
encode_bulk value = header b'$' (length value) ++ (value ++ crlf)

abbrev pub encode_bulks : List Bytes → Bytes
encode_bulks [] = []
encode_bulks (item ∷ items) = encode_bulk item ++ encode_bulks items

abbrev null : Protocol → Bytes
null resp2 = codes "$-1" ++ crlf
null resp3 = b'_' ∷ crlf

abbrev set_header : Protocol → ℕ → Bytes
set_header resp2 n = header b'*' n
set_header resp3 n = header b'~' n

abbrev map_header : Protocol → ℕ → Bytes
map_header resp2 n = header b'*' (n * 2)
map_header resp3 n = header b'%' n

unfoldable mutual
  unfolding format_double

  pub encode : Reply → Protocol → Bytes
  encode (simple text) protocol = b'+' ∷ text ++ crlf
  encode (error message) protocol = b'-' ∷ message ++ crlf
  encode (integer value) protocol = b':' ∷ signed_to_string value ++ crlf
  encode (bulk (some value)) protocol = encode_bulk value
  encode (bulk none) protocol = null protocol
  encode nil protocol = null protocol
  encode (array items) protocol = header b'*' (count items) ++ encode_each items protocol
  encode (set items) protocol = set_header protocol (length items) ++ encode_bulks items
  encode (map entries) protocol =
      map_header protocol (count_entries entries) ++ encode_entries entries protocol
  encode (double value) protocol = b',' ∷ format_double value ++ crlf
  encode (boolean value) protocol = b'#' ∷ (if value then b't' else b'f') ∷ crlf

  pub encode_each : Replies → Protocol → Bytes
  encode_each no_replies protocol = []
  encode_each (reply_and item items) protocol = encode item protocol ++ encode_each items protocol

  pub encode_entries : Entries → Protocol → Bytes
  encode_entries no_entries protocol = []
  encode_entries (entry_and key value entries) protocol =
      encode_bulk key ++ (encode value protocol ++ encode_entries entries protocol)
