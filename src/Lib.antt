-- ===== src/Lib.antt =====
-- A model of mooncache, a distributed cache for the answers of language-model APIs.
--
-- The program. A master (crates/master) keeps which objects there are, on which nodes their bytes
-- lie, how much memory each tenant uses, and who may still read an object that was looked up. Store
-- nodes (crates/store) keep the bytes. A client asks the master for space (`put_start`), sends the
-- bytes to the store nodes at the offsets that the master chose, and reports the end (`put_end`);
-- then a lookup (`get_replica_list`) finds the object. An object can be withdrawn
-- (`put_revoke`), removed, or evicted. The gateway (crates/gateway) answers a request of a tenant
-- from the cache, or asks the vendor and stores the answer; its key is a fingerprint of the request
-- (crates/fingerprint), and requests for one key wait for the first of them. The admin API
-- (crates/admin-api) drains nodes and deletes objects under an audit log. The services in apps hold
-- the state under a lock, so concurrent requests are some sequence of calls.
--
-- The files.
-- - Prelude.antt and its children: Boolean tests, lists and maps over the native numbers, 64-bit
--   arithmetic, sums over maps.
-- - Common.antt: crates/common/src/error.rs and ids.rs.
-- - Master.antt: crates/master/src. Object, Quota, Lease, Allocator and Eviction are the files of
--   these names; State is state.rs, one function per method, which takes the state and returns the
--   result and the new state. `MasterState::remove` is `remove_object`, `LeaseTracker::remove` is
--   `drop_lease`, `SegmentAllocator::mount_segment` is `allocator_mount`. State/Calls is any
--   sequence of calls, State/Statuses, State/Transitions and State/Lifecycle the life of an object
--   (revoked from any status, where the design only lets a write under way be revoked), State/Writes
--   the course of a write, State/Frames the other objects,
--   State/Holding, State/Leased and State/Reading which calls leave an object to be read,
--   State/Eviction and State/Evicting evictions, State/Snapshot the metadata snapshot.
--   Allocator/Claim and Allocator/FirstFit are about the passes of `allocate`.
-- - Store.antt: crates/store/src. Slices is the reading and writing of a range of an array, Memory
--   is memory.rs; `MemoryStore::allocate` is `allocate_chunk`.
-- - Json.antt: a JSON value, as serde_json has it, with a parameter for its numbers.
-- - Fingerprint.antt: crates/fingerprint/src; Protocol.antt: crates/protocol/src.
-- - AdminApi.antt: crates/admin-api/src. Roles is rbac.rs, Audit is audit.rs, and AdminApi itself
--   routes.rs; Recording and Effects are about one call, Calls about any sequence of calls.
-- - Common/Metrics.antt: crates/common/src/metrics.rs.
-- - Gateway.antt: crates/gateway/src. Config, Singleflight and Streaming are the files of these
--   names, Response is routes.rs, Errors the errors of cache_flow.rs and vendor.rs, Clients the
--   traits of clients.rs and Clients/Local its local clients. CacheFlow is cache_flow.rs: Cached
--   reads and writes the cache, Respond has the answers, Handle `handle_response_request`,
--   New the constructors. The others of its children are theorems. Vendor is vendor.rs: the parser
--   of server-sent events.
--
-- How the code is read.
-- - Numbers are natural numbers; `u64` and `usize` operations keep their checks and their
--   saturation at `u64::MAX` (`usize` has 64 bits). Subtraction stops at 0 as `saturating_sub` does.
-- - A `HashMap` is an association list, in the order of insertion. A theorem about one call from any
--   state is about lists in any order, so it holds for every order in which the call iterates; in a
--   run of several calls the order is that of insertion. That no key is listed twice is a part of
--   the invariant. A `BTreeMap` is an association list in the order of its keys (Prelude/Trees).
-- - The time is an argument of each operation that reads the clock. A text is the list of its code
--   points. SHA-256 is a parameter, any function from bytes to bytes.
-- - A handler of the gateway is a function from the state to its answer and the new state, also
--   where it fails (`Flow`); `?` is `>>=`. Its clients are a record of such functions on a world of
--   any type. A request runs from its start to its end: the counters, the group of the requests in
--   flight and the cluster of the local clients are changed by nobody else meanwhile. What a waiting
--   request learns from its leader is a parameter; Singleflight/Leaders is about interleaved calls.
-- - Vendors, the parser and printer of serde_json, what serde derives, and the channel of a waiting
--   request are parameters. Nothing is assumed of them in general: a theorem that needs a value to be
--   printed and parsed back says so of that value.
-- - All loops are structural recursion on a list, but for the printing of a number in decimal, which
--   has one round of fuel more than the number; it needs no more, as a round divides by ten.
--
-- Not modelled: the disk store, the ids of nodes and requests, the clients and the vendor adapter
-- that speak HTTP, the services of apps and their HTTP layer, the parsing of TOML, the command line,
-- the control panel.
pub mod Prelude
pub mod Json
pub mod Common
pub mod Master
pub mod Store
pub mod Fingerprint
pub mod AdminApi
pub mod Protocol
pub mod Gateway
