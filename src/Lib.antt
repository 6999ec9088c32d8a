-- ===== src/Lib.antt =====
-- Verification library of the FluidBG operator, its Rust SDK and its plugins.
--
-- The operator runs blue-green rollouts on Kubernetes. Plugins at the inception points of a
-- deployment register test cases with the operator's HTTP API, and verifiers decide the cases, both
-- with tokens that the operator signs. The controller takes a lease on a deployment, counts its
-- cases, asks the promotion strategy what to do, and moves the deployment through its phases, whose
-- record is the status of the custom resource; at the end it drains the plugins.
--
-- The modules, and the code that each is about:
--
-- - Base: tests, lists, texts (the UTF-8 bytes of a `String`), integers (`i32`, `i64` and times,
--   within their ranges), results with a text as error, maps (the list of the entries in iteration
--   order), and the framing of the texts that a digest is fed with.
-- - Kubernetes: the deployments of a cluster as far as their labels, replicas and environment are
--   read; Kubernetes/Labels has what a label selector finds. Fixtures has values for the examples.
-- - Store, Store/Memory: operator/src/state_store/mod.rs and memory.rs. `StateStore` is the trait as
--   an interface, `memory_store` its implementation: an operation takes the map under the lock and
--   gives its result with the new map; the clock is an argument. Store/Memory/Step has the calls as
--   one step function. The other modules are named for what they prove.
-- - Store/Cosmos, Store/Documents, Store/Container: operator/src/state_store/cosmos.rs. `Container` is
--   what its requests and queries get from Azure Cosmos DB, `IsContainer` what the database
--   documents of entity tags; Store/Container/Instance is a container in memory that keeps to it.
--   Store/Cosmos/Operators has several operators that read and write in any order.
-- - Strategy: operator/src/strategy/ and operator/src/evaluator.rs. `f64` is the interface of
--   Strategy/Float64: conversion, division and comparison, with laws that IEEE 754 arithmetic with
--   rounding to nearest has for counts up to 2 ^ 53. Strategy/FixedPoint is an instance.
-- - Crd: the types of operator/src/crd/ as far as the modelled code reads them.
-- - Sdk/Auth: sdk/rust/src/auth.rs. SHA-256, base64 and JSON are the record `Codec`; what the crates
--   promise of them is `IsCodec`, which Sdk/Auth/Examples shows of a small codec.
-- - Sdk/Names, Sdk/Routing: sdk/rust/src/resources.rs and routing.rs. SHA-256 and the default hasher
--   are functions of bytes; of SHA-256 only the length of its result is used, and, where names are
--   told apart, that its first eight bytes differ on the two inputs.
-- - HttpApi: operator/src/http_api.rs over the interface of the store. What `validate_plugin_auth`
--   finds in a header and what the API server answers are arguments.
-- - HttpPlugin: plugins/http/src/state.rs and the operator's calls in plugins/http/src/handlers.rs.
--   Each atomic operation is a step; an interleaving is a list of events.
-- - Controller: the errors of operator/src/controller.rs; Controller/Promotion for
--   controller/promotion.rs, Controller/Status for controller/status.rs, Controller/Lease for
--   controller/lease.rs (a read and a write that others may interleave with), Controller/Draining for
--   controller/phases/draining.rs (all below operator/src/). The object on the API server is a value;
--   what the server answers a writer is an argument. A status that is replaced carries the version
--   that was read, so an accepted replacement acts on the stored object.
--   Controller/Status/Writers/Runs has the calls of all writers of the status as one sequence;
--   Controller/Lease/History the events of a lease, each read at its place in the history.
-- - Controller/Reconcile: one pass, `reconcile_locked` of operator/src/controller.rs. Its world is the
--   stored object, the store and a log of the calls to Kubernetes and the plugins, whose answers are
--   arguments; Controller/Steps has the sequencing, in which `?` ends the pass and keeps what was done.
--   Controller/Reconcile/Outer: the lease around a pass and the publication of its errors. The local
--   lock is an argument, and that the lease is lost in the middle of a pass is not modelled.
-- - Controller/Deployments, Controller/Rollout: operator/src/controller/deployments.rs, the making of a
--   deployment in controller/resources.rs, and controller/phases/rollout.rs, on an explicit cluster.
--   What calls answer is an argument, and a call that fails changes nothing.
--   Controller/Deployments/Patch: the merging of JSON objects, with their keys in order of insertion.
-- - Controller/Inception: operator/src/controller/phases/inception.rs as steps on a log of its calls.
--   Controller/Inception/Log has the stages of calls and how sequences of steps go through them.
-- - Controller/Orphans: the clean-up of deleted deployments in operator/src/controller.rs, as a log of
--   deletions. The lease around a key is an answer; the task that renews it is not modelled.
-- - Roles: operator/src/validation.rs and sdk/rust/src/roles.rs.
--
-- Bounds: `as_usize` and `as_i32` wrap at 64 and 32 bits and the counter of the HTTP plugin at 64, as
-- on a 64-bit machine. The counters of the store are natural numbers; an `i64` overflows at 2 ^ 63
-- records. Arithmetic on times and on the transitions of a lease is unbounded, where the code panics
-- out of range. The one recursion on fuel is that of the decimal digits, whose fuel is more than
-- the number; every other loop is over a list.
--
-- Not modelled: the store on Postgres (its queries run elsewhere), of the Cosmos store the signing of
-- requests and the connection string, the resources of tests and plugins that the controller makes,
-- the traffic that the plugins carry, the end-to-end tests.
pub mod Base
pub mod Kubernetes
pub mod Fixtures
pub mod Store
pub mod Strategy
pub mod Crd
pub mod Controller
pub mod Roles
pub mod Sdk
pub mod HttpApi
pub mod HttpPlugin
