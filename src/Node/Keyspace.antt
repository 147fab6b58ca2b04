-- ===== src/Node/Keyspace.antt =====
-- Paging through the keys that a node owns: `owned_keys_page` of crates/hashring-node/src/keyspace.rs.
-- Its outer loop runs on fuel, a unit for each stretch of the ring up to an assignment and one more.
pub mod Stretches
pub mod Owners
pub mod Walks
pub mod Moving
mod Tests
use Prim.Native.Nat.{ℕ, zero, suc}
use hashring_rs.Prelude.{
  ◌+◌, ◌-◌, ◌^◌, Bytes, same, List, [], ◌∷◌, ◌++◌, Bool, true, false, not, ◌&&◌, ◌||◌, ltb, leb,
  ◌==◌, length, filter, get_elem?, partition_point, if◌then◌else◌, Option, none, some,
}
use hashring_rs.Topology.Types.{TokenAssignment}
use hashring_rs.Node.Versions.{Record, is_expired}
use hashring_rs.Node.Index.{Entry, TokenIndex, values_of}
use hashring_rs.Node.Store.{find_entry, NodeState}

abbrev pub last_token : ℕ
last_token = 2 ^ 64 - 1

pub record PageLimits : Type 0 where
  pub max_keys : ℕ
  pub max_bytes : ℕ
  pub max_examined : ℕ
  pub count_only : Bool
  pub one_stretch : Bool

pub record KeyPage : Type 0 where
  pub keys : List Bytes
  pub count : ℕ
  pub next : Option ℕ

-- The page so far, with what it has examined and the bytes of its keys.
pub record Progress : Type 0 where
  pub keys : List Bytes
  pub count : ℕ
  pub examined : ℕ
  pub bytes : ℕ

abbrev pub page_at : Progress → Option ℕ → KeyPage
page_at p next = record { keys = p.keys; count = p.count; next = next }

abbrev pub live_record : Option Record → ℕ → Bool
live_record none now = false
live_record (some r) now = not r.deleted && not (is_expired r now)

-- Whether a page of these limits takes no other token.
abbrev pub is_full : PageLimits → Progress → Bool
is_full limits p =
    leb limits.max_examined p.examined
    || leb limits.max_keys p.count
    || leb limits.max_bytes p.bytes

pub data Walk : Type 0 where
  on : Progress → Walk
  stopped : KeyPage → Walk

-- The end of the stretch from a position on, and its owner.
unfoldable pub segment_of : List TokenAssignment → Bytes → ℕ → ℕ × Bytes
segment_of assignments first_owner position =
    segment (get_elem? assignments (partition_point (λ a. ltb a.token position) assignments))
  where
    segment : Option TokenAssignment → ℕ × Bytes
    segment none = (last_token, first_owner)
    segment (some a) = (a.token, a.node_id)

module _ (state : NodeState) (node_id : Bytes) (now : ℕ) (limits : PageLimits) where
  abbrev pub add_key : Progress → Bytes → Progress
  add_key p key =
      if live_record (find_entry state.records key) now
      then record {
        keys = if limits.count_only then p.keys else p.keys ++ key ∷ [];
        count = p.count + 1;
        examined = p.examined + 1;
        bytes = if limits.count_only then p.bytes else p.bytes + length key;
      }
      else record p { examined = p.examined + 1 }

  -- The keys of one token.
  abbrev pub add_keys : List Bytes → Progress → Progress
  add_keys [] p = p
  add_keys (key ∷ keys) p = add_keys keys (add_key p key)

  -- The loop over the tokens of a stretch.
  unfoldable pub walk_tokens : List Entry → Progress → Walk
  unfolding is_expired
  walk_tokens [] p = on p
  walk_tokens (e ∷ es) p =
      let rest = walk_tokens es (add_keys (values_of (some e.1)) p) in
      if is_full limits p then stopped (page_at p (some e.0)) else rest

  abbrev pub in_stretch : ℕ → ℕ → TokenIndex → List Entry
  in_stretch position end index = filter (λ e. leb position e.0 && leb e.0 end) index

  abbrev pub one_more : Progress → Progress
  one_more p = record p { examined = p.examined + 1 }

  -- A stretch that is walked if the node owns it.
  abbrev pub walk_segment : ℕ × Bytes → ℕ → Progress → Walk
  walk_segment (end, owner) position p =
      if same owner node_id
      then walk_tokens (in_stretch position end state.records_by_token) p
      else on p

  -- What follows a stretch: the end of the ring, the end of the page, or the next stretch.
  abbrev pub go_on : Walk → ℕ → (ℕ → Progress → Option KeyPage) → Option KeyPage
  go_on (stopped page) end later = some page
  go_on (on p) end later =
      if end == last_token
      then some (page_at p none)
      else if leb limits.max_examined p.examined
      then some (page_at p (some (end + 1)))
      else later (end + 1) p

  abbrev pub pass : ℕ × Bytes → ℕ → Progress → (ℕ → Progress → Option KeyPage) → Option KeyPage
  pass (end, owner) position p later =
      if not (same owner node_id) && limits.one_stretch
      then some (page_at (one_more p) (some position))
      else go_on (walk_segment (end, owner) position (one_more p)) end later

  -- The outer loop; `none` means that the fuel ran out.
  unfoldable pub walk_segments : ℕ → Bytes → ℕ → Progress → Option KeyPage
  unfolding segment_of walk_tokens
  walk_segments zero first_owner position p = none
  walk_segments (suc fuel) first_owner position p =
      pass (segment_of state.topology.assignments first_owner position) position p
        (walk_segments fuel first_owner)

  abbrev pub no_progress : Progress
  no_progress = record { keys = []; count = 0; examined = 0; bytes = 0 }

  abbrev pub page_of : List TokenAssignment → ℕ → Option KeyPage
  page_of [] start = some (page_at no_progress none)
  page_of (a ∷ assignments) start =
      walk_segments (suc (length (a ∷ assignments))) a.node_id start no_progress

  unfoldable pub owned_keys_page : ℕ → Option KeyPage
  unfolding walk_segments
  owned_keys_page start = page_of state.topology.assignments start
