-- ===== src/Lib.antt =====
-- hashring-rs is a replicated key-value store on a consistent-hash ring. A coordinator keeps the
-- topology, data nodes keep the records, and clients and a Redis gateway route requests by it.
-- This library models its core logic as functions and proves what makes it correct.
--
-- The parts and where they are modelled:
--
-- Topology models crates/hashring-core/src/topology.rs. `TopologySnapshot` is a record
-- (Topology/Types). `TopologySnapshot::new_with_timings` and `validate` are in Topology/Build,
-- with the checks of members, configuration and timings in Topology/Validate. `owner_for_token`,
-- `replica_node_ids_for_token` and `derived_ranges` are in Topology/Lookup, and the messages of
-- crates/hashring-core/proto/hashring.proto that carry a snapshot in Topology/Wire. The other
-- modules of Topology hold the proofs: the walk clockwise from a token (Clockwise, Collected,
-- Replicas), the parting of the ring (Boundaries, Ranges, Partition), memberships and construction
-- (Members, Canonical, Arguments, Vnodes, Construction, Validity, Accepted), and what a validated
-- snapshot serves (Served, Owner, Spread, Removal).
--
-- Migration models crates/hashring-core/src/migration.rs: `topology_delta` (Migration/Delta),
-- `TopologyChange::plan_with_config` (Migration/Plan) and the messages of a change
-- (Migration/Wire). Steps, Serving, Found, Moves, Planned and RoundTrip hold the proofs.
--
-- Interval models the tests of a wrapping hash interval, which the repository writes in four
-- places: `RangeSpec::contains` (with its `token_bounds`) and `range_contains` in
-- crates/hashring-node/src/lib.rs, `interval_contains` in
-- crates/hashring-coordinator/src/migration_helpers.rs and `token_in_range` in
-- crates/hashring-coordinator/src/removal.rs.
--
-- Node models the records of a data node: the token index, versions and expiry of
-- crates/hashring-node/src/lib.rs and crates/hashring-node/src/migration.rs. Node/Versions has the
-- records, Node/Index the index; VersionOrder, Newest, Retries, Buckets, Contents, Ranges and
-- Invariant hold the proofs. Node/Store is `NodeState` with its operations on records, the sweep
-- of crates/hashring-node/src/expiry.rs and `prepare_source_range` of
-- crates/hashring-node/src/rpc.rs. The last two are its children Sweep and Migrating; the other
-- children hold the proofs: what maps and sets hold (Entries), the indices through an insertion
-- (Mirrored), through removals and new topologies (Kept) and through migrations (Sources), all
-- operations as one relation between states (Reachable), and what a sweep leaves readable (Swept).
-- Node/Dedup is what crates/hashring-node/src/dedup.rs hashes of a mutation, with Preimage about
-- telling mutations apart by it. Node/Receipts is the store of receipts of the same file, with the
-- bytes it accounts for: sums over maps (Totals), single operations (Accounted, Written) and all
-- of them as one relation (Reachable). Node/Staging is the staging of receipts for a migration,
-- with Staged about its outcomes. Node/Keyspace pages through the keys that a node owns, as
-- crates/hashring-node/src/keyspace.rs does, and Stretches, Owners, Walks and Moving are about
-- where the next page starts.
--
-- Coordinator models the bookkeeping of a change in
-- crates/hashring-coordinator/src/migration_helpers.rs: the destinations' process instances and
-- the recorded progress of ranges. Coordinator/Policy is `policy_readiness_verified` of
-- crates/hashring-coordinator/src/policy.rs, with Followers about those that it needs and Ready about
-- what it says of a token.
--
-- Redis models parts of the Redis gateway. Redis/Glob is
-- crates/hashring-redis/src/commands/glob.rs: classes of bytes (Class), `Pattern::new` (Compile)
-- and `matches_within` (Match); Matched compares it with a matcher that tries every split, Cost
-- bounds its steps, and Compiled is about patterns compiled from a text. Redis/Resp is
-- crates/hashring-redis/src/resp.rs: decimal numbers and UTF-8 as the standard library reads them
-- (Decimal, Utf8), `parse` (Request) and `encode` (Reply); Lines and Pipelined are about bytes
-- behind a request, RoundTrip about reading back what was encoded. Redis/Args is
-- crates/hashring-redis/src/commands/args.rs, with Deadline about the deadlines that a command
-- names.
--
-- Prelude holds what the others share: texts as lists of bytes, results with errors and panics,
-- lists, sorting and integers.
--
-- How the code is rendered. A `String` or byte array is the list of its bytes; a `u64`, `u32` or
-- `usize` is a number, and where the source checks for overflow the bound 2 ^ 64 is written out. A
-- `Result` that may also panic has a third case, `panic`. A loop is structural recursion on the
-- list it goes through, or on the count of its passes. The loop of `Pattern::new` runs on fuel,
-- one unit for each byte of the pattern, which is proved enough; that of `matches_within` on the
-- budget that the source gives it; the loop of `owned_keys_page` over the stretches of the ring
-- runs on a unit for each assignment and one more, which is proved enough too; and the printing of
-- a decimal number on one unit more than the number. A `BTreeSet` is its list in order. The hash
-- functions xxh3 and blake3 and the JSON encoding belong to other crates: they are the fields of
-- the record `Hashing`, which every theorem takes as it comes. The sizes that `std::mem::size_of`
-- gives are parameters too. An `i32` of a message is its 32-bit word.
--
-- Not modelled: the asynchronous handlers of nodes and coordinator, the client, the Redis
-- gateway's commands and server, the Lua gateway, the experiments and the command line.
pub mod Prelude
pub mod Interval
pub mod Topology
pub mod Migration
pub mod Node
pub mod Coordinator
pub mod Redis
