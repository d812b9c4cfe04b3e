-- ===== src/Lib.antt =====
-- Verification of the muxvia routing service, the Rust crate crates/routing-service: how a request
-- of a coding agent is let in, routed along a plan of providers, and answered.
--
-- The parts and their files. A request is admitted by the model server unless it drains
-- (Admission.antt, crates/routing-service/src/model/server.rs) and passes the check of its routing
-- credential (Auth.antt, crates/routing-service/src/model/auth.rs). `route_pinned_plan`
-- (Router.antt, with its vocabulary in RoutePlan.antt, crates/routing-service/src/model/router.rs)
-- then tries the members of the pinned plan in their order: each attempt asks the circuit breaker
-- of the provider for a permit (Health.antt, also crates/routing-service/src/model/router.rs), has
-- the request built, sends it, and commits or rejects the response (Commitment.antt,
-- crates/routing-service/src/model/commitment.rs). A response is committed by reading the start of
-- its body (Priming.antt) and classifying its server-sent events (Sse.antt). Headers.antt
-- (crates/routing-service/src/model/headers.rs) says which headers are passed on. The record of the
-- request (Recording.antt, crates/routing-service/src/model/request_recorder.rs) holds what is
-- observed of the response (Observation.antt, with the usage parsers in Usage.antt and the
-- redaction of secrets in Redaction.antt), and Pricing.antt
-- (crates/routing-service/src/request_history.rs) prices its usage. Framing.antt is the framing of
-- the control socket (crates/routing-service/src/control/framing.rs), Domain.antt the identifiers
-- of crates/routing-service/src/control/protocol.rs and the table of
-- crates/routing-service/src/domain/provider.rs.
--
-- The accounts of a subscription stand in a private file (Accounts.antt has its document,
-- AccountStore.antt its reads and replacements, crates/routing-service/src/subscription/accounts.rs)
-- and in tables of the state store (Catalog.antt,
-- crates/routing-service/src/state/subscription_accounts.rs). Coordinator.antt
-- (crates/routing-service/src/subscription/coordinator.rs) changes the two together, with an intent
-- in the tables and a staged copy of both documents in a second file, and recovers from a process
-- that stopped in between. Replacement.antt is the replacement of such a file, and of the
-- configuration file of a client, by way of a temporary file beside it
-- (crates/routing-service/src/config/managed_file.rs): Exchange.antt has the exchange with a file
-- that exists and its rollback, Install.antt the installation where there is none, Write.antt the
-- whole of a replacement. AccountStore.antt sees it from outside, as a call that replaces the file
-- or does not and may report an error in either case; a removal is two such steps, with an empty
-- file in between.
--
-- State and operations. The circuits of both targets are a function from a target and a provider to
-- an optional record; every operation that the source runs under the target's mutex is one function
-- that returns the new circuits. A permit is a value, its destructor the function `drop_permit`.
-- Concurrent requests are interleaved steps (Health/Interleaving.antt), or, inside one request, a
-- function of the environment that changes the circuits at each wait. A body is the list of the
-- items that its stream yields, each with the time at which it is asked for and how long it takes;
-- a reader of the socket is the list of its packets. Counters are natural numbers with the
-- wrap-around of u64 and u8 written out. The methods of the coordinator are sequences of calls
-- (Effects.antt), each of which the environment lets work, fail with or without its effect, or
-- never begin because the process stops; a transaction that reports an error has no effect, and
-- nothing else edits the file in the meantime. A table is the list of its rows; a counter of a
-- table does not wrap. Text is a list of code points; the parts of `str` that are
-- used are defined in Text.antt.
--
-- Fuel. The loops over the events of a buffer (`scan_events`, `complete_loop`, `drain_events`) run
-- on the length of the buffer; each round passes at least two bytes, so this is enough. The
-- redaction (`blot`) passes at least one byte in each of as many rounds. All other loops are
-- structural.
--
-- Parameters. serde_json (Json.antt), the crates http and flate2 (Http.antt), the comparison of
-- the crate subtle, the clock, the preparation of a request, the transport, the output stream and
-- what a gzip reader yields before it fails, the SHA-256 of a document, and what the file system
-- records of a file that it creates are arguments of the definitions that use them. Samples.antt
-- has small instances for the tests.
--
-- Not modelled: the control server, the rest of the state store, the reconciliation, the
-- authorization flow of a subscription and its bridge, the hooks of a managed file, a write that
-- fails in its middle, the JSON text of a stored document, action or outcome, the channel behind
-- the recorder, and the edits of client configurations, which are mostly SQL, files, processes and
-- HTTP; the destructor of a request future that is cancelled between two waits, whose effect on the
-- circuit is that of `drop_permit` in Health.antt.
pub mod Prelude
pub mod Domain
pub mod Health
pub mod Text
pub mod Json
pub mod Sse
pub mod Http
pub mod Priming
pub mod Commitment
pub mod Auth
pub mod Framing
pub mod RoutePlan
pub mod Replacement
pub mod Router
pub mod Headers
pub mod Pricing
pub mod Usage
pub mod Redaction
pub mod Observation
pub mod Recording
pub mod Admission
pub mod Effects
pub mod Accounts
pub mod Catalog
pub mod AccountStore
pub mod Coordinator
pub mod Samples
