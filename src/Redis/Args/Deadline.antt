-- ===== src/Redis/Args/Deadline.antt =====
-- The deadlines of crates/hashring-redis/src/commands/args.rs, and what a node stores of one.
use Prim.Native.Nat.{ℕ}
use hashring_rs.Prelude.{
  ◌+◌, ◌*◌, ◌^◌, ◌<◌, ◌≡◌, refl, Bytes, ◌&&◌, ltb, arith, if◌then◌else◌, some, ok, err, pos, negsuc,
}
use hashring_rs.Node.Versions.{stored_deadline}
use hashring_rs.Redis.Args.{
  invalid_expire_time, TimeUnit, seconds, milliseconds, DeadlineMode, relative, absolute,
  positive_deadline,
}

-- The millisecond that an amount names.
abbrev pub named_millis : TimeUnit → DeadlineMode → ℕ → ℕ → ℕ
named_millis seconds relative n now = now + n * 1_000
named_millis milliseconds relative n now = now + n
named_millis seconds absolute n now = n * 1_000
named_millis milliseconds absolute n now = n

-- `positive_deadline` accepts exactly the positive amounts whose millisecond is at most `i64::MAX`, and
-- gives that millisecond, which a node stores as it is.
pub positive_deadline-stored :
    (u : TimeUnit) (m : DeadlineMode) (n now : ℕ) (command : Bytes)
    → (positive_deadline (record { unit = u; mode = m }) (pos n) now command ≡ (
        if ltb 0 n && ltb (named_millis u m n now) (2 ^ 63)
        then ok (named_millis u m n now)
        else err (invalid_expire_time command)))
      × (positive_deadline (record { unit = u; mode = m }) (negsuc n) now command
          ≡ err (invalid_expire_time command))
      × (0 < n → stored_deadline (some (named_millis u m n now)) ≡ some (named_millis u m n now))
unfolding positive_deadline stored_deadline
positive_deadline-stored seconds relative n now command = (ground arith, refl, λ h. ground arith)
positive_deadline-stored milliseconds relative n now command =
    (ground arith, refl, λ h. ground arith)
positive_deadline-stored seconds absolute n now command = (ground arith, refl, λ h. ground arith)
positive_deadline-stored milliseconds absolute n now command =
    (ground arith, refl, λ h. ground arith)
