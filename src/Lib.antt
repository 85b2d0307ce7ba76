-- ===== src/Lib.antt =====
-- overseas: the controller that connects a workstation to overseas access, and what it is built on.
--
-- The program's privileged agent (internal/agent) owns the lifecycle of a protected connection: it
-- prepares the network, enables a leak protection, starts the access core, switches routes, watches
-- the connection, and on every way out stops the core and gives the ordinary network back. Trace
-- events (internal/traceevent) record what it did, behind an opt-in gate (internal/diagnosticmode);
-- probes of the line (internal/lineprobe) tell how well it works; the local
-- API (internal/localapi) words its status for clients; the access policy (internal/accessmodel)
-- says what it connects to. Apart from the agent, a verdict (internal/verdict) on collected evidence
-- decides whether the forwarding works and fails closed.
--
--   Base           numbers, tests, lists and `Proc`, procedures over a state that may wait for ever
--   Trace          internal/traceevent/event.go: events, residues and their validation
--     Recorder       internal/traceevent/recorder.go: the ring in memory (Ring), the file per
--                    generation, and reading by a cursor (Pages)
--   LineProbe      internal/lineprobe/aggregate.go: the counters of each target, the quality (Counts)
--     Probe          probe.go, targets.go: one check of a target
--     Scheduler      scheduler.go: the rounds, as steps in any interleaving: what is shown of
--                    them (Shown, Histories), and how many run (Rounds, SingleRound)
--   DiagnosticMode internal/diagnosticmode/gate.go: the gate in front of the recorder, over an
--                  interface that Recording fills with Trace.Recorder
--   LocalApi       internal/localapi/projection.go: the status that clients see
--     Protocol       protocol.go: requests, responses, frames (Frames), the results of checks (Probes)
--                    and the cache of statuses (Cache)
--     Dispatch       internal/agent/local_dispatch.go: the answer to a request
--   AccessModel    internal/accessmodel/model.go: the policy and the connection states;
--                  internal/accessmodel/validate.go: Validate, and what it accepts (Accepted, Safe)
--   Network        internal/agent, what looks at the network
--     Monitor        network_monitor.go: the runtime monitor as a fold over what its loop receives
--     Native         network_native.go: the normalised network (Parse, Normalize), and the nearest routes
--                    of the nodes (Routes, Baselines)
--     Firewall       firewall_pool.go: the rules prepared for the adapters, and what they cover (Covers),
--                    and the comparison of the rules found with the ledger (Ownership)
--   Config         internal/config/config.go: the configuration of the forwarding proof, and what is
--                  accepted (Accepts)
--   Inventory      internal/inventory/inventory.go: the types of a snapshot of the network, Validate, and
--                  what is accepted (Ready, Accepts)
--   Verdict        internal/verdict/verdict.go: the decision on the evidence of the forwarding proof
--     Evidence       its types
--     SameState      sameState, and what it does not tell apart (Counts)
--     Checks         the tests of each artifact; Targets: the results are those of all targets
--     Evaluate       Evaluate; Passes and Leaks: when it passes, and when it finds a leak
--   Agent          internal/agent/controller.go:
--     Status         error codes, phases, status values, messages
--     Readers        Diagnostics, LocalStatusSnapshot
--     Env            the dependencies as functions over a world, and the controller's state `Sys`
--     Tracing        recordDiagnostic and the trace calls
--     Restore        restoreTransaction, stopInstance, stopLifecycleMonitor, restoreAfterFailure
--     Connect        runConnect, a function per step
--     Controller     Connect, Disconnect, Recover, automaticRestore, monitorLifecycle,
--                    UpdateLineQuality
--     Safety         the order of calls to the system, and the procedures that leave it alone
--     Lifecycle      histories of operations
--     Tests          a concrete network manager and supervisor, and runs over them
--
-- How the model stands to the code. An operation of `Controller` is a procedure
-- `Sys W N I -> Option (A * Sys W N I)`: `none` is a wait that nobody ends (`<-done` in
-- stopLifecycleMonitor, where no goroutine closes `done`). The dependencies (network manager,
-- process supervisor, loader, renderer, clock) are interfaces in the code and fields of `Deps` here;
-- each may read and change a world `W` and answer as it likes. `HonorsStart` is the one contract
-- that results rely on: a `Start` without an instance fails with proof that no process runs.
-- `traceevent.SanitizeDetail` and the texts built by fmt.Sprintf are parameters, the context's
-- cancellation is `context_error`, asked wherever the code asks it. An operation takes the
-- transition slot, so the model runs it whole between two states with a free slot; a caller that
-- meets a taken slot gets the reply `waiting`. A wait for that slot and the goroutine that
-- startRuntimeMonitor leaves are the constructors of `Reply` and `MonitorTask`. The calls made to
-- the system are logged in `Sys.calls`, newest first. There is no fuel: the code has no loop but
-- the retries on a taken slot, which `Reply` shows to the caller. A generation wraps at 2 ^ 64.
--
-- The recorder and the gate run under a mutex, so each of their operations is one step; the file
-- system answers as it likes (`Files`). A gate's output streams are named by numbers;
-- a closed one is kept for the writers that still hold its state.
-- The scheduler's goroutines are the flights of its state, and every critical section is a step; the
-- HTTP client is `Http`, encoding/json is `Codec`, over which a frame is a list of bytes.
-- The verdict takes the JSON of an inventory's items as `VerdictEnv`, and a time as a number of
-- nanoseconds from Go's zero time on.
-- `Validate` takes the address parser (net/netip) and the text functions as `PolicyEnv`.
--
-- Not modelled: the platform code behind the interfaces (Win32 calls, PowerShell, pipes), the
-- clearing of secrets in memory, the ConnectedLifetime hook, the rendering of the core's configuration,
-- the client of the local service, the installers and the commands.
pub mod Base
pub mod Trace
pub mod AccessModel
pub mod Agent
pub mod Config
pub mod DiagnosticMode
pub mod Inventory
pub mod LineProbe
pub mod LocalApi
pub mod Network
pub mod Verdict
