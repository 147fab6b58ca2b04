-- ===== src/Redis/Resp/Tests.antt =====
-- Runs of the definitions of crates/hashring-redis/src/resp.rs, some of them from its own tests.
use hashring_rs.Prelude.{
  negsuc, Bytes_discrete, ℕ_discrete, ◌≡◌, refl, ◌++◌, Bytes, codes, List, [], ◌∷◌, length, arith,
}
use hashring_rs.Redis.Resp.Decimal.{to_string}
use hashring_rs.Redis.Resp.Request.{
  default_limits, unauthenticated, command, incomplete, invalid, expected_other, argument_too_long,
  parse,
}
use hashring_rs.Redis.Resp.Pipelined.{parse-append}
use hashring_rs.Redis.Resp.Reply.{array, set, map, nil, integer, resp2, resp3, crlf, encode}
use hashring_rs.Redis.Resp.RoundTrip.{bulks, pairs, flat, parse-encode_array, parse-encode_map}

abbrev get_key : Bytes
get_key =
    codes "*2"
    ++ crlf
    ++ codes "$3"
    ++ crlf
    ++ codes "GET"
    ++ crlf
    ++ codes "$3"
    ++ crlf
    ++ codes "key"
    ++ crlf

abbrev get_args : List Bytes
get_args = codes "GET" ∷ codes "key" ∷ []

parses_a_multibulk_command : parse get_key default_limits ≡ command get_args 22
unfolding parse Bytes_discrete ℕ_discrete
parses_a_multibulk_command = refl

parses_a_prefix :
    parse (codes "*2" ++ crlf ++ codes "$3" ++ crlf ++ codes "GE") default_limits ≡ incomplete
unfolding parse
parses_a_prefix = refl

parses_an_inline_command :
    parse (codes " PING  x" ++ crlf) default_limits ≡ command (codes "PING" ∷ codes "x" ∷ []) 10
unfolding parse
parses_an_inline_command = refl

skips_a_blank_line : parse (crlf ++ get_key) default_limits ≡ command [] 2
unfolding parse
skips_a_blank_line = refl

refuses_a_long_argument :
    parse (codes "*1" ++ crlf ++ codes "$20000" ++ crlf) (unauthenticated default_limits)
    ≡ invalid (argument_too_long 16_384)
unfolding parse unauthenticated
refuses_a_long_argument = refl

refuses_another_prefix :
    parse (codes "*1" ++ crlf ++ codes ":1" ++ crlf) default_limits ≡ invalid (expected_other b'$')
unfolding parse
refuses_another_prefix = refl

spells_null : encode nil resp3 ≡ codes "_" ++ crlf
unfolding encode
spells_null = refl

prints_negative : encode (integer (negsuc 41)) resp2 ≡ codes ":-42" ++ crlf
unfolding encode to_string
prints_negative = refl

parse-append_example : parse (get_key ++ codes "*1") default_limits ≡ command get_args 22
parse-append_example =
    parse-append get_key (codes "*1") default_limits get_args 22 parses_a_multibulk_command

parse-encode_array_example :
    (parse (encode (array (bulks get_args)) resp3 ++ codes "*1") default_limits
      ≡ command get_args (length (encode (array (bulks get_args)) resp3)))
    × (parse (encode (set get_args) resp2 ++ codes "*1") default_limits
        ≡ command get_args (length (encode (set get_args) resp2)))
parse-encode_array_example =
    parse-encode_array default_limits get_args (codes "*1") resp3 (omega arith) (omega arith)
      ((omega arith, omega arith), ((omega arith, omega arith), tt))

abbrev fields : List (Bytes × Bytes)
fields = (codes "proto", codes "2") ∷ []

parse-encode_map_example :
    parse (encode (map (pairs fields)) resp2 ++ codes "*1") default_limits
    ≡ command (flat fields) (length (encode (map (pairs fields)) resp2))
parse-encode_map_example =
    parse-encode_map default_limits fields (codes "*1") (omega arith) (omega arith)
      ((omega arith, omega arith), ((omega arith, omega arith), tt))
