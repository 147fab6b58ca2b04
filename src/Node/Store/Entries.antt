-- ===== src/Node/Store/Entries.antt =====
-- What the maps and the sets of deadlines of crates/hashring-node/src/lib.rs hold after an operation.
use hashring_rs.Prelude.{
  ℕ, ◌+◌, ◌-◌, ◌≡◌, refl, Bytes, same, [], ◌∷◌, Bool, true, false, not, ◌&&◌, ◌||◌, ◌==◌, arith,
  if◌then◌else◌, none, some,
}
use hashring_rs.Node.Store.{
  Map, find_entry, put_entry, remove_entry, Deadlines, has, schedule, unschedule, Sources,
  forget_deferred,
}
use hashring_rs.Node.Store.Migrating.{schedule_all}

pub find_entry-put_entry {ℓ} :
    {V : Type ℓ} (entries : Map V) (key : Bytes) (value : V) (k : Bytes)
    → find_entry (put_entry entries key value) k
      ≡ (if same key k then some value else find_entry entries k)
find_entry-put_entry [] key value k = refl
find_entry-put_entry (e ∷ es) key value k = ground (arith, find_entry-put_entry es key value k)

pub find_entry-remove_entry {ℓ} :
    {V : Type ℓ} (entries : Map V) (key k : Bytes)
    → find_entry (remove_entry entries key) k ≡ (if same key k then none else find_entry entries k)
find_entry-remove_entry [] key k = ground arith
find_entry-remove_entry (e ∷ es) key k = ground (arith, find_entry-remove_entry es key k)

pub has-schedule :
    (set : Deadlines) (d : ℕ) (k : Bytes) (d' : ℕ) (k' : Bytes)
    → has (schedule set d k) d' k' ≡ ((d == d' && same k k') || has set d' k')
unfolding schedule
has-schedule [] d k d' k' = ground arith
has-schedule (e ∷ es) d k d' k' = ground (arith, has-schedule es d k d' k')

pub has-unschedule :
    (set : Deadlines) (d : ℕ) (k : Bytes) (d' : ℕ) (k' : Bytes)
    → has (unschedule set d k) d' k' ≡ (has set d' k' && not (d == d' && same k k'))
has-unschedule [] d k d' k' = refl
has-unschedule (e ∷ es) d k d' k' = ground (arith, has-unschedule es d k d' k')

pub has-schedule_all :
    (set more : Deadlines) (d : ℕ) (k : Bytes)
    → has (schedule_all set more) d k ≡ (has set d k || has more d k)
unfolding schedule_all
has-schedule_all set [] d k = ground arith
has-schedule_all set (e ∷ es) d k =
    ground (arith, has-schedule_all (schedule set e.0 e.1) es d k, has-schedule set e.0 e.1 d k)

abbrev pub bit : Bool → ℕ
bit true = 1
bit false = 0

-- In how many sources a deadline of a key is deferred.
abbrev pub times_deferred : Sources → ℕ → Bytes → ℕ
times_deferred [] d k = 0
times_deferred (s ∷ ss) d k = bit (has s.1.deferred_expirations d k) + times_deferred ss d k

pub times_deferred-forget_deferred :
    (sources : Sources) (d : ℕ) (k : Bytes) (d' : ℕ) (k' : Bytes)
    → times_deferred (forget_deferred sources d k) d' k'
      ≡ times_deferred sources d' k' - bit (d == d' && same k k')
unfolding forget_deferred
times_deferred-forget_deferred [] d k d' k' = omega arith
times_deferred-forget_deferred (s ∷ ss) d k d' k' = ground (
  arith,
  times_deferred-forget_deferred ss d k d' k',
  has-unschedule s.1.deferred_expirations d k d' k',
)
