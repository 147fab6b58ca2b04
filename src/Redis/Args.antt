-- ===== src/Redis/Args.antt =====
-- The arguments of a command and its forms of a deadline: crates/hashring-redis/src/commands/args.rs.
pub mod Deadline
mod Tests
use hashring_rs.Prelude.{
  ℕ, ◌+◌, ◌-◌, ◌*◌, ◌^◌, Bytes, codes, same, List, [], ◌∷◌, Bool, true, false, ltb, ◌==◌,
  if◌then◌else◌, Option, none, some, Result, ok, err, ◌>>=◌, ok_or, ℤ, pos, negsuc, ◌+ℤ◌, ◌*ℤ◌,
  at_most,
}

pub record Args : Type 0 where
  pub name : Bytes
  pub rest : List Bytes

pub data RedisError : Type 0 where
  syntax : RedisError
  invalid_expire_time : Bytes → RedisError

-- The arguments that are left, and the one that was read.
unfoldable pub next_optional : Args → Args × Option Bytes
next_optional args = first args.rest
  where
    first : List Bytes → Args × Option Bytes
    first [] = (args, none)
    first (a ∷ rest) = (record args { rest = rest }, some a)

unfoldable pub next_required : Args → Args × Result RedisError Bytes
unfolding next_optional
next_required args = ((next_optional args).0, ok_or (next_optional args).1 syntax)

unfoldable pub finish : Args → Result RedisError (Unit {0})
finish args = left args.rest
  where
    left : List Bytes → Result RedisError (Unit {0})
    left [] = ok tt
    left (a ∷ rest) = err syntax

pub data TimeUnit : Type 0 where
  seconds milliseconds : TimeUnit

pub data DeadlineMode : Type 0 where
  relative absolute : DeadlineMode

pub record TtlForm : Type 0 where
  pub unit : TimeUnit
  pub mode : DeadlineMode

unfoldable pub from_option : Bytes → Option TtlForm
from_option keyword =
    if same keyword (codes "ex")
    then some (record { unit = seconds; mode = relative })
    else if same keyword (codes "px")
    then some (record { unit = milliseconds; mode = relative })
    else if same keyword (codes "exat")
    then some (record { unit = seconds; mode = absolute })
    else if same keyword (codes "pxat")
    then some (record { unit = milliseconds; mode = absolute })
    else none

abbrev pub in_millis : TimeUnit → ℤ → ℤ
in_millis seconds amount = amount *ℤ 1_000
in_millis milliseconds amount = amount

abbrev pub from_mode : DeadlineMode → ℕ → ℤ → ℤ
from_mode relative now millis = pos now +ℤ millis
from_mode absolute now millis = millis

-- An `i128` is an integer: the sums of an `i64` times a thousand and a `u64` are within it.
unfoldable pub deadline : TtlForm → ℤ → ℕ → Option ℤ
deadline form amount now =
    let at = from_mode form.mode now (in_millis form.unit amount) in
    if at_most at (2 ^ 63 - 1) then some at else none

-- `u64::try_from`, of a deadline that is at most `i64::MAX`.
abbrev pub to_u64 : ℤ → Option ℕ
to_u64 (pos n) = if ltb n (2 ^ 64) then some n else none
to_u64 (negsuc n) = none

abbrev and_to_u64 : Option ℤ → Option ℕ
and_to_u64 none = none
and_to_u64 (some d) = to_u64 d

unfoldable pub positive_deadline : TtlForm → ℤ → ℕ → Bytes → Result RedisError ℕ
unfolding deadline
positive_deadline form amount now command =
    if at_most amount 0
    then err (invalid_expire_time command)
    else ok_or (and_to_u64 (deadline form amount now)) (invalid_expire_time command)
