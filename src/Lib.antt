-- ===== src/Lib.antt =====
-- Verification of the synth agent runtime, a TypeScript runtime that lets agents work durably: it
-- hands out leases and messages, runs effects on executors, stores their receipts and artifacts,
-- admits calls of models, and drives an agent as a Temporal workflow.
--
-- How the parts interact. An agent's workflow is given messages by signals and runs turns. A turn
-- asks the execution broker for effects. The broker chooses an executor and writes a receipt of each
-- effect to the runtime state store, which several brokers share. Leases say which process may work
-- on a resource, and mailboxes carry messages between agents. A call of a model passes the tenant
-- policies and the lane scheduler of the gateway; its continuation is kept for a while. An agent
-- edits files in a memory workspace over a source of files, by effects on the synthetic executor. What
-- it makes goes to the blob store, through a view that guards it; so does the diff of a workspace,
-- from which another one is restored.
--
-- Which file models which part (paths from the root of the repository):
--   ControlPlane/Lease      src/control-plane/lease.ts, `InMemoryLeaseStore`
--   ControlPlane/Mailbox    src/control-plane/mailbox.ts, `InMemoryMailboxStore`
--   Durability/State        src/durability/runtime-state.ts, records and `canReplace…`
--   Durability/LocalStore   src/durability/local-runtime-state.ts, `LocalRuntimeStateStore`
--   Durability/AgentWrites  src/durability/types.ts, `persistAgentSnapshot`
--   Execution/Effects       src/execution/types.ts and the policy of resource-class.ts
--   Execution/Broker        src/execution/broker.ts, `ExecutionBroker`
--   Gateway/Lanes           src/inference/gateway/lane-scheduler.ts, `LaneScheduler`
--   Gateway/LanePolicy      the same file, `PriorityLanePolicy`
--   Gateway/Tenants         src/inference/gateway/tenant-policy.ts
--   Gateway/Continuations   src/inference/gateway/continuation-store.ts
--   Gateway/RouterState     src/inference/gateway/router-state.ts
--   Artifacts/Blobs         src/artifacts/blob-store.ts, `FileSystemBlobStore`
--   Artifacts/Guard         src/artifacts/blob-store.ts, `GuardedBlobStore`, policy and quota;
--                           the child module Overlap has its writes as two steps that interleave
--   Artifacts/Provenance    src/artifacts/artifact-index.ts, and retention.ts in its child Retention
--   Temporal/Failures       integrations/temporal/src/correlation.ts, the reading of failures
--   Temporal/Correlation    the same file, what is read off the arguments of a call
--   Temporal/Agent          integrations/temporal/src/workflows.ts, `durableAgentWorkflow`
--   Workspace/Snapshot      the data of a snapshot that the store's records carry
--   Workspace/Codec         src/workspace/snapshot-codec.ts
--   Workspace/Paths         `normalizeRelative` of src/workspace/source.ts, and the paths of
--                           src/execution/workspace-errors.ts
--   Workspace/Links         src/workspace/symlink-target.ts
--   Workspace/Memory        src/workspace/memory-workspace.ts, the state and the operations; View has
--                           `read` and `stat`, Listing has `listDir`
--   Workspace/Diff          the same file, `diff` and its codec, and `restoreSandboxWorkspace` of
--                           src/execution/kubernetes/sandbox-workspace.ts
--   Workspace/Transaction   src/workspace/transaction.ts
--   Workspace/Export        `exportArtifact` of src/workspace/memory-workspace.ts
--   Execution/TextReplace   src/execution/text-replace.ts
--   Execution/WarmPool      src/execution/kubernetes/pool.ts, `WarmSandboxPool`
--   Execution/Synthetic     src/execution/synthetic.ts, `SyntheticExecutor`
--   Gym/Patch               src/gym/scoring.ts, `parsePatchPaths` and `isTampering`
--   Prelude                 tests, lists, maps, results, integers and JSON, shared by all
-- A function has the name of the source in snake case; a method takes the state as an argument and
-- returns it with its result, a method that throws returns a `Result`. A child module proves what its
-- name says, and `Tests` applies the theorems to concrete inputs.
--
-- How it is modelled. Each asynchronous method of an in-memory store runs without an `await`, so it
-- is one step. The broker awaits, and the calls of others in between are lists of steps that its
-- request carries. The workflow awaits at three places in a round, and the signals that are handled
-- there are lists. Nearly every loop is structural recursion. The provenance walk runs on fuel that
-- counts what its stack and the records not seen yet can still push, and is proved to end. A read of
-- a workspace calls itself along links, on fuel of two more than the path has parts, and is proved to
-- end. The loop over links counts down from the limit that the source sets. A source of
-- files answers without failing, and does not change while a workspace lies over it. The calls
-- of the warm sandbox pool interleave, so the stretches of its code between two awaits are events
-- that come in any order. The clock is an argument. Numbers that count or measure time are natural numbers; where the source tests for
-- finite or negative numbers, an argument is a whole number, an infinity or NaN. `Map` and `Set` are
-- lists in the order of insertion. A copy by `structuredClone` is the value itself, since no value is
-- changed in place. The hash and the base64 of Node are parameters, and so are the executors with the
-- world they act on. The file system under the blob store does not fail.
--
-- What is not modelled, and why: SQL, Kubernetes, git and HTTP, whose logic runs outside of the
-- repository; the engines and the gym's runs, which call models and child processes; tracing,
-- logging and search attributes, which only report; and the step graph of integrations/temporal,
-- whose steps a workflow engine schedules.
pub mod Prelude
pub mod ControlPlane
pub mod Workspace
pub mod Durability
pub mod Execution
pub mod Gateway
pub mod Artifacts
pub mod Temporal
pub mod Gym
