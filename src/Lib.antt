-- ===== src/Lib.antt =====
-- Boruna: a deterministic, capability-safe execution platform. A program is compiled to bytecode; the
-- virtual machine reaches the outside only through a capability gateway, which enforces a policy and
-- records every call in an event log; a run is replayed from its log and compared with it. The
-- orchestrator schedules graphs of work, locks modules for the nodes that work on them, and writes
-- what happened to a hash-chained audit log. The virtual machine calls the gateway for each capability
-- instruction; the sealed run of Vm.Sealed is stated for any client, hence for the machine.
--
-- The modules, and the files they model:
--   Prelude     what the others share: tests on numbers and texts, lists, `BTreeMap` and `BTreeSet`
--               as ordered lists, the order of texts.
--   Bytecode    crates/llmbc/src/{capability,value}.rs. `Capability` and its tables (`from_id`, `id`,
--               `name`, `from_name`, `capability_set_report`); `Value` with its derived equality,
--               `is_truthy` and `type_name`. An `f64` is the number of its 64 bits.
--   Vm          crates/llmvm/src/{replay,capability_gateway}.rs and the run and replay of
--               crates/boruna-mcp/src/tools/sealed.rs. `EventLog` and its `log_*` functions; `Policy`;
--               `CapabilityGateway::call` over a handler with a state of its own; the handlers for
--               replay, step inputs and LLM providers; `ReplayEngine::{verify, verify_full}`;
--               `run_sealed`. A `Client` is a program as the gateway sees it: it ends, asks for a call and
--               goes on with its result, or notes an event in the log. The errors of
--               crates/llmvm/src/error.rs are in Error.
--   Machine     crates/llmbc/src/{opcode,module}.rs and the interpreter crates/llmvm/src/vm.rs: the
--               instructions (`Op`), a module, the state and its stack and frames (State), the data
--               operations (Text, Arith, Builtins, Evals, Display), the instructions that touch the state
--               (Parts, Handlers), one turn of the loop (Exec), and `run`, `execute`, `execute_bounded`
--               (Loop). `Core` holds the fields that instructions read, `Vm` adds the counters and limits
--               of the loop. The binary form of a module is in Binary, its analyses of the call graph
--               in Callgraph, on fuel: each function is entered at most once. The stack and the call
--               stack begin at their top. The interpreter is a `Client`, which the gateway of Vm runs.
--   Actors      crates/llmvm/src/actor.rs, with `MockHandler` of capability_gateway.rs (MockHandler)
--               and the texts of the errors (ErrorText). `Actor` and `ActorSystem` (System), the turn of an actor
--               with its slice, its requests to spawn and its messages (Turns), the rounds of `run`
--               (Scheduling). A round ends in what `run` returns, if it returns. The recursion of
--               `cascade_failure` is on fuel, the number of identifiers, which is enough since children
--               have greater identifiers than their parents.
--   Framework   crates/llmfw/src/state.rs. `StateMachine`: `transition`, `restore`, `rewind`, the diffs.
--   Kahn        Kahn's algorithm, which the scheduler, the workflow validator and the package resolver
--               each write out: the loop over a queue and the loop by levels, with their invariants.
--   Scheduler   orchestrator/src/engine/{graph,mod}.rs. The status of the nodes of a work graph:
--               `ready_nodes`, `advance`, `assign_next`, `mark_*`, `summary`; and `validate` and
--               `topological_order`, on the loop of Kahn.
--   Workflow    orchestrator/src/workflow/{definition,validator}.rs. `WorkflowDef::from_json` with its
--               gate on `schema_version`, and `WorkflowValidator`: `validate`, `topological_order`,
--               `topological_levels`.
--   Packages    packages/src/resolver/mod.rs: `resolve` (Resolve), `topological_sort`,
--               `generate_lockfile`, `aggregate_capabilities` (Resolver); packages/src/spec/mod.rs:
--               its records and `PackageManifest::validate` (Manifest). The loop of `resolve` is on
--               fuel: the length of its queue, and the number of dependencies that the packages
--               not resolved yet can have, bound its steps.
--   Conflict    orchestrator/src/conflict/mod.rs. `LockTable`.
--   Audit       orchestrator/src/audit/log.rs. `AuditLog`: `append`, `verify`, `redact_entry`, `hash`.
--
-- Operations that change an object take its old value and return the new one. A fallible operation
-- returns a `Result`; where the code formats a message that nothing reads, the error keeps the data
-- that the message is made of.
--
-- Parameters, for code that is not in the repository: SHA-256 and `serde_json` (the record `Crypto`
-- of Audit.Log, the record `Serde` of Workflow.Definition, the functions `to_string`, `to_json`,
-- `parse` elsewhere), the `{:?}` format of a list, and the capability handler of the host; for the
-- machine, the operations of `f64`, the case tables of Unicode (the record `Platform`) and the clock.
-- Two functions of the repository that read files are parameters too: `load_manifest` of
-- packages/src/storage/mod.rs and `compute_content_hash` of packages/src/spec/mod.rs. The hypotheses
-- are that a hexadecimal digest has 64 characters, that a sequence number fits 64 bits, and that the
-- dependencies of the packages of a registry are among finitely many.
--
-- Loops are structural recursion on a list, except that of `resolve`, whose fuel is described above,
-- that of the machine, which takes one turn more than the steps that are left below `max_steps`, since
-- each turn counts a step and the limit is checked first, and those of Kahn's algorithm: these run on
-- fuel, one more than there are keys, and each turn takes a node from the queue for good, so the fuel is
-- enough. Numbers are unbounded where the code counts entries, calls or nodes in 64 bits.
--
-- Not modelled: what `Debug` prints to stderr, the compiler, the runtime of the framework,
-- the persistence layer, the workflow runner, the network and the command lines.
pub mod Prelude
pub mod Bytecode
pub mod Vm
pub mod Machine
pub mod Actors
pub mod Framework
pub mod Scheduler
pub mod Conflict
pub mod Kahn
pub mod Workflow
pub mod Packages
pub mod Audit
