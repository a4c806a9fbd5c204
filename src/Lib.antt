-- ===== src/Lib.antt =====
-- The AI hub of src/macmini_ai_hub: a service that takes requests from chat, turns them into tasks,
-- stores them with their event log, and runs them.
--
-- How the parts interact. A request comes to the gateway, which asks an authorizer, replays or
-- reserves the request by its idempotency key, and creates or cancels tasks through ports. Behind the
-- ports the SQLite store keeps tasks, events, runs, gateway requests, task routes and delivery
-- receipts; each write of a task goes with the event that announces it, in one transaction. The
-- projector rebuilds a task's view from its events alone. The orchestrator takes a queued task, selects
-- its developer, opens a workspace, runs the task, and writes the outcome to the store; a restart
-- reconciles what was interrupted. A project has a lock file.
--
-- Which file models which part:
-- Prelude (and its children): helpers on lists, tables, equality tests and integers.
-- Errors: the exceptions of storage/errors.py, with ValueError, TypeError and pydantic's
-- ValidationError, and results. An operation that raises returns `err`.
-- Domain/Status, Domain/Tasks: `TaskStatus`, `LEGAL_TASK_TRANSITIONS`, `Task` and `transition_task` of
-- src/macmini_ai_hub/domain/tasks.py. Domain/Time: aware and naive datetimes.
-- Domain/Json, Domain/Events: `EventEnvelope`, `validate_context` and the search for forbidden keys of
-- src/macmini_ai_hub/domain/events.py.
-- Storage/Models, Storage/Secrets: the records of src/macmini_ai_hub/storage/models.py.
-- Storage/Transaction, Storage/Store, Storage/Tasks, Storage/Runs, Storage/Requests, Storage/Routes,
-- Storage/Deliveries: `SQLiteStore` of src/macmini_ai_hub/storage/sqlite.py. A table is a list of rows
-- under their primary keys; the store is a record of tables; an operation takes a store and gives a
-- result with the store that it leaves. Each operation is named as its method. Storage/Calls has
-- sequences of calls, and Storage/Sound says when the tables of tasks and events are consistent (the
-- other tables are not part of it); Storage/Tasks/Created is about a task that was created, and
-- Storage/Runs/Permanence about sequences of calls on the table of runs. Storage/Listing has the
-- listings, Storage/Artifacts the artifacts, and Storage/Recovery `reconcile_interrupted_running`;
-- Storage/Transaction/Loops is about loops over rows.
-- Observability/Projections: `TaskProjector` and `replay_task` of
-- src/macmini_ai_hub/observability/projections.py.
-- Gateway/Models, Gateway/Ports, Gateway/Dedup, Gateway/Service: `GatewayRequest` and its validator,
-- the ports, `InMemoryRequestDeduplicator` and `AgentGateway` of src/macmini_ai_hub/gateway.
-- Locks/Metadata, Locks/FileLock: `LockMetadata` and `ProjectFileLock` of
-- src/macmini_ai_hub/locks/file_lock.py. The lock is alone with its file: no other process changes the
-- file between two system calls of an operation.
-- Orchestrator/Selection: `select_developer` of src/macmini_ai_hub/orchestrator/selection.py, over
-- the fields of the registries that it reads. Orchestrator/Ports, Orchestrator/Service:
-- `SingleDeveloperOrchestrator` of src/macmini_ai_hub/orchestrator/service.py over its ports; the
-- `try` of `process_task` runs on its local variables beside the state of the ports.
-- Storage/Adapters: src/macmini_ai_hub/storage/adapters.py. Orchestrator/Durable is about the store
-- as the orchestrator's port.
-- Application/Adapters: `GatewayTaskAdapter` and `DurableTaskEnqueuer` of
-- src/macmini_ai_hub/application/adapters.py over the store; Application/Adapters/Stored is about what
-- `create_task` leaves there.
-- Examples: concrete inputs, and the theorems at them.
--
-- Parameters and their laws. Pydantic and Python's json stand in the record `Pydantic` of
-- Storage/Pydantic: a document of a valid model reads back as this model, and what is read is
-- valid. The clock is an argument of each operation that reads it. The orchestrator's ports are the
-- record `Ports`, and the gateway's the records `Hub` and `RequestDeduplicator`; `Hub` has the
-- factory of task ids, the test of an instruction for credentials (regular expressions) and the
-- limits on the text of a message. A lock's file names, timestamps and integers in JSON are the
-- record `Format` of Locks/Metadata, and the machine's processes and tokens, what its clocks do
-- during system calls, and its sleep, the record `Host`. A sleep may be longer than asked for; that
-- the clock does not go back, and that a sleep lasts at least as long as asked for, are hypotheses
-- where a theorem needs them.
--
-- Bounds and fuel. Times and counters are natural numbers; SQLite's 64-bit sequence numbers and
-- Python's integers are not bounded here. `decimal`, which prints a count, has one more fuel than the
-- count, which has fewer digits. The loop of `acquire` has two more than the waiting time: each round
-- but one recovery and the last lets the clock go on by a tick at least.
--
-- Not modelled: the patterns and lengths of identifiers; SQL itself, its locks and its I/O errors; the
-- migrations of the store; the directory of the lock files and other processes that use them; the
-- polling of the orchestrator, which runs several tasks side by side, and its semaphore; the runtimes,
-- the notifications, the workspaces of projects, the Slack adapter, the loading of the configuration,
-- the API and the command line.
pub mod Prelude
pub mod Errors
pub mod Domain
pub mod Storage
pub mod Observability
pub mod Gateway
pub mod Locks
pub mod Orchestrator
pub mod Application
pub mod Examples
