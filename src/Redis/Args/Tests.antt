-- ===== src/Redis/Args/Tests.antt =====
-- Runs of crates/hashring-redis/src/commands/args.rs, from its own tests.
use hashring_rs.Prelude.{
  ◌-◌, ◌<◌, ◌^◌, ◌≡◌, refl, codes, Bytes_discrete, ℕ_discrete, [], ◌∷◌, none, some, ok, err, pos,
  negsuc,
}
use hashring_rs.Node.Versions.{stored_deadline}
use hashring_rs.Redis.Args.{
  Args, syntax, invalid_expire_time, next_required, finish, seconds, relative, TtlForm, from_option,
  deadline, positive_deadline,
}
use hashring_rs.Redis.Args.Deadline.{positive_deadline-stored}

abbrev ex : TtlForm
ex = record { unit = seconds; mode = relative }

abbrev two : Args
two = record { name = codes "echo"; rest = codes "a" ∷ codes "b" ∷ [] }

leftover : finish (next_required two).0 ≡ err syntax
unfolding next_required finish
leftover = refl

option_ex : from_option (codes "ex") ≡ some ex
unfolding from_option Bytes_discrete ℕ_discrete
option_ex = refl

past : deadline ex (negsuc 0) 5_000 ≡ some (pos 4_000)
unfolding deadline
past = refl

overflow : deadline ex (pos (2 ^ 63 - 1)) 5_000 ≡ none
unfolding deadline
overflow = refl

positive_deadline-stored_example :
    (positive_deadline ex (pos 10) 5_000 (codes "set") ≡ ok 15_000)
    × (positive_deadline ex (negsuc 10) 5_000 (codes "set")
        ≡ err (invalid_expire_time (codes "set")))
    × (0 < 10 → stored_deadline (some 15_000) ≡ some 15_000)
positive_deadline-stored_example = positive_deadline-stored seconds relative 10 5_000 (codes "set")
