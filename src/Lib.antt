-- ===== src/Lib.antt =====
-- Verification of the flowplane control plane, at the level of its pure logic.
--
-- Flowplane configures Envoy proxies for many teams. An API server checks who may change what, writes
-- specs to a database, and an outbox tells the workers. The xDS server translates the specs of a team,
-- keeps what each dataplane should get, and takes rejected resources out of service. The rate-limit
-- service counts requests for Envoy against the policies that the control plane pushes.
--
-- Parts and files (paths from the repository's root):
-- - Base: shared names, Boolean tests, lists, equality as an interface, dictionaries (Base/Maps), text
--   (Base/Chars), decimal texts (Base/Decimal), and ordered maps (Base/SortedMap, a `BTreeMap`).
-- - Domain: errors (crates/fp-domain/src/error.rs), ids (id.rs), org roles and agent kinds
--   (identity.rs), the name rule (Name, with its grammar in Grammar), resources and actions (authz.rs),
--   rate-limit policies (rate_limit.rs).
-- - Authz: the authorization engine. Grants and Principal hold the data of
--   crates/fp-core/src/authz.rs, Engine the function `check_resource_access` with its arms as functions
--   and `deny_to_error` (crates/fp-core/src/services/mod.rs). Policy states the rules without an order;
--   Sound and Boundary hold the theorems.
-- - Rls: crates/flowplane-rls. Policy is policy.rs, Counter and Memory are counter.rs, Service is
--   grpc.rs. The service takes any `CounterStore`: a record of the trait's operation, a view of one slot
--   per key, and what `incr` does to the view. Memory fills it with the sharded store. Canonical,
--   Replace, Order, Window, Admission and Isolation hold the theorems.
-- - Xds: crates/fp-xds/src/snapshot.rs and ads.rs. Resource and Quarantine are the serving state of one
--   resource type of one team, `TypeInternal`; Step is its life as a sequence of updates. Team is
--   `SnapshotCache`: five types for each team, the change signal, and the end of `rebuild_team` with the
--   translated rows as an argument. Ads is the state of a stream and its pushes, Handlers the branches
--   of its loop. Served, Nack, Rollback, Push, Signal, Install and Reply hold the theorems.
-- - Ai: crates/fp-domain/src/ai.rs. Sse is the framing of server-sent events, Budget the budgets and the
--   backends of a route; Framing, Complete, Strip and Backends hold the theorems.
-- - Gateway: crates/fp-domain/src/gateway. Cluster (cluster.rs), RouteConfig and Matchers
--   (route_config.rs), Filters (filters.rs) and Listener (listener.rs) hold the data of a specification,
--   and their children the validators. Upstream, Accepted, FilterRules, HeaderRules, SecurityRules, Scopes,
--   MatchRules, RouteRules, Routes and Listeners say, part by part, what is accepted.
-- - Egress: crates/fp-core/src/services/egress_advisory.rs. Addr is addresses, ranges and the protected
--   destinations, Policy the checks of a host and the gate of a mutation, Authority the host of a URL,
--   Parse the text of a range; Mask, Contains, Denied, Hosts and Audit hold the theorems. A rejection is
--   recorded by `record_best_effort` (crates/fp-storage/src/repos/audit.rs), whose insert may fail.
-- - Api: crates/fp-api/src/throttle.rs. Throttle is the write throttle and its middleware; Entry what a
--   check makes of the entry of a key; Alone, Budget and Retry hold the theorems.
-- - Plan: crates/fp-core/src/services/route_generation.rs. Names is the making of names, Routes the routes of
--   a plan; Fresh, Named and Valid hold the theorems. The search for a name has one round more than there
--   are names, which Fresh shows to be enough.
-- - Outbox: crates/fp-storage/src/outbox.rs. Store is the tables and a batch of a consumer, History a sequence
--   of batches and appends; Order, Delivery and Contiguous hold the theorems.
--
-- How code is modelled: a `u64` is a natural number, with its saturation or wrap-around written out; a
-- `HashMap` is an association list where one key is read and written at a time; a `String` that
-- the code looks into is a list of characters; a method that changes `self` returns the new state.
-- Loops are recursion on the list they run over; the loops on an index of Ai run on fuel, which starts
-- as the number of bytes and is enough because each round moves the index on; a decimal text has as
-- much fuel as its number. A clock is an argument. A lock makes an operation
-- one step. `Any` is a protobuf message with its encoded bytes; encoding is not modelled.
--
-- Not modelled: SQL but that of the outbox, HTTP handlers but the write throttle, the command line,
-- configuration, TLS, token verification, protobuf translation, traffic capture and learning, and the
-- texts that are interpolated into validation messages.
pub mod Base
pub mod Domain
pub mod Authz
pub mod Rls
pub mod Xds
pub mod Ai
pub mod Gateway
pub mod Egress
pub mod Api
pub mod Plan
pub mod Outbox
