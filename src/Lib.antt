-- ===== src/Lib.antt =====
-- ai4se Coding Agent Harness: the governed core of a coding agent.
--
-- A run is a record in a store. The agent loop asks a provider for a decision, counts it against a
-- budget, lets the policy judge the action, executes it or waits for the operator, validates the
-- result and turns failures into feedback for the next decision. Each change of the run's state is
-- written to the store under the condition that the run is still in the expected state, together
-- with one event of a hash-linked log.
--
-- Domain models internal/domain: the types and the table of transitions.
-- Budget models internal/budget/tracker.go, Budget/Progress internal/budget/progress.go.
-- Policy models internal/policy: Risk and Schemas risk.go, Approval approval.go, Engine policy.go.
-- Store models internal/store/memory.go and store.go; Bytes is the input of the event hash, Listing
-- is `ListRuns` with internal/storeport/store.go.
-- Feedback models internal/feedback: Compress compress.go, Classify classify.go, Process the rest.
-- Agent models internal/agent/loop.go: Session holds the fields of `Loop` and its dependencies,
-- Steps the helpers (`transitionPayload`, `event`, `stop`, `feedback`, `deletePending`), Turn one
-- round of the loop, Loop the part before the first round and the rounds, Approvals
-- `ResumeApproval` and `RejectApproval`.
-- Credentials models internal/credentials/store.go, Credentials/Service service.go; Stores, Refinement
-- and RoundTrip compare the service over two stores in memory with one map, Outage the service over a
-- first store that may fail and a second one in memory with two maps.
-- Config models internal/config, Validation internal/validation, Tools the registry of
-- internal/tools and Tools/PatchHeaders its patch_headers.go.
-- App models internal/app/service.go: App its types, Lifecycle `stopIfActive` and
-- `releaseIfTerminal`, Creation `CreateRun`, Recovery the start of a service and `Close`, Reads what
-- it reads, Service the other calls. The loops that it controls are functions of its `Env`.
-- Text and Json hold what the code uses of Go's strings, path and encoding/json; Prelude shares
-- names and lemmas. Examples runs the theorems on concrete inputs.
--
-- Outside the model stand encoding/json, SHA-256, the Unicode tables beyond ASCII and regular
-- expressions (the records `Platform`, `Unicode` and `Patterns`), and the provider, the executor,
-- the validator, the clocks and the context (the record `Env`): they are functions on a world of
-- any type, of which nothing is assumed. So do the parsers of references and URLs (`Parsers`), the
-- TOML decoder and the durations (`Loader`), and the loops, the preflight checks and the locks of the
-- service (`Env` of App); what a theorem needs of them is among its hypotheses. A Go function that
-- fails returns the state that it leaves together with the error.
--
-- The loop takes fuel, one unit for each round. Every round that is followed by another one has
-- used a decision or a protocol repair, so `remaining` of the tracker bounds the rounds. Integers
-- are unbounded where they cannot wrap: a counter stays below its limit, which is a Go `int`, and a
-- sequence number counts the events in memory. The sum of an offset and a limit of `ListRuns` is on
-- `int` of 64 bits, and wraps around.
--
-- Not modelled: the SQLite store, the tools but for their registry and the headers of a patch, the
-- executor, the providers, the keyring and the vault of credentials, the preflight checks, the HTTP
-- API and the web interface, which are I/O, glue or left for later; and the interleaving of calls
-- but for the loop of `stopIfActive`, whose rounds meet the writes of a schedule, since a loop runs
-- alone on its run and each store operation holds a mutex.
pub mod Prelude
pub mod Domain
pub mod Budget
pub mod Text
pub mod Json
pub mod Platform
pub mod Policy
pub mod Store
pub mod Feedback
pub mod Agent
pub mod Credentials
pub mod Config
pub mod Validation
pub mod App
pub mod Tools
pub mod Examples
