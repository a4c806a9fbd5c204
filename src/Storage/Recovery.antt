-- ===== src/Storage/Recovery.antt =====
-- The recovery at a restart: `reconcile_interrupted_running` of `SQLiteStore`,
-- src/macmini_ai_hub/storage/sqlite.py. `event_id k` is the id that `uuid4` gives the event of the
-- task with key k.
pub mod Moved
pub mod RunLoop
pub mod TaskLoop
pub mod Cleared
use ai_infrastructure_as_cod.Prelude.{
  ℕ, Bool, true, false, ◌||◌, String, Option, none, some, List, rows_where, order_by, text_le,
  lookup, map, ◌==◌,
}
use ai_infrastructure_as_cod.Errors.{Error, Result, ok, err, data_integrity}
use ai_infrastructure_as_cod.Domain.Time.{Instant, Datetime, aware, aware_time}
use ai_infrastructure_as_cod.Domain.Json.{JsonValue, Fields}
use ai_infrastructure_as_cod.Domain.Status.{TaskStatus, planning, blocked, status_eq}
use ai_infrastructure_as_cod.Domain.Status
use ai_infrastructure_as_cod.Domain.Tasks.{Task}
use ai_infrastructure_as_cod.Domain.Tasks
use ai_infrastructure_as_cod.Domain.Events.{EventEnvelope, EventLevel, task_blocked}
use ai_infrastructure_as_cod.Storage.Models.{
  RunStatus, queued, running, interrupted, RunRecord, StoredEvent, validate_lifecycle,
}
use ai_infrastructure_as_cod.Storage.Pydantic.{Pydantic}
use ai_infrastructure_as_cod.Storage.Transaction.{
  Tx, pure, raise, lift, gets, or_raise, for_each, ◌>>=◌, ◌>>◌,
}
use ai_infrastructure_as_cod.Storage.Store.{TaskRow, RunRow, Store, transaction}
use ai_infrastructure_as_cod.Storage.Runs.{start_of, load_run_row, write_run}
use ai_infrastructure_as_cod.Storage.Tasks.{load_row, write_task, append_event_locked}

pub record ReconciliationResult : Type 0 where
  pub interrupted_runs : List RunRecord
  pub blocked_tasks : List Task
  pub emitted_events : List StoredEvent

-- WHERE status IN (queued, running)
abbrev pub is_open_run : RunStatus → Bool
is_open_run queued = true
is_open_run running = true
is_open_run _ = false

-- WHERE status IN (planning, running)
abbrev pub is_worked_on : TaskStatus → Bool
is_worked_on planning = true
is_worked_on TaskStatus.running = true
is_worked_on _ = false

unfoldable pub interrupted_run : RunRecord → Instant → RunRecord
interrupted_run r at = record r {
  status = interrupted;
  started_at = start_of r;
  completed_at = some at;
  error_code = some "process-restart";
}

abbrev pub blocked_event : String → Task → Instant → EventEnvelope
blocked_event id t at = record {
  schema_version = 1;
  event_id = id;
  event_type = task_blocked;
  timestamp = at;
  task_id = some t.task_id;
  project = some t.project;
  team = some t.team;
  agent = none;
  correlation_id = none;
  causation_id = none;
  level = EventLevel.warning;
  message = some "Task execution was interrupted by a process restart.";
  payload =
      Fields.field "status" (JsonValue.text "blocked")
        (Fields.field "reason" (JsonValue.text "process-restart") Fields.empty);
}

abbrev pub result_of : List RunRecord → List (Task × StoredEvent) → ReconciliationResult
result_of runs tasks = record {
  interrupted_runs = runs;
  blocked_tasks = map (λ r. r.0) tasks;
  emitted_events = map (λ r. r.1) tasks;
}

module _ (p : Pydantic) (event_id : String → String) where
  open p use {Doc}

  -- one row of the first loop
  unfoldable pub interrupt_row : Instant → String × RunRow Doc → Tx (Store Doc) RunRecord
  interrupt_row at r = do
    current ← lift (load_run_row p r.1)
    updated ← lift (validate_lifecycle (interrupted_run current at))
    write_run p updated
    pure updated

  -- one row of the second loop; the event was appended, so it has a sequence number
  unfoldable pub block_row : Instant → String × TaskRow Doc → Tx (Store Doc) (Task × StoredEvent)
  block_row at r = do
    current ← lift (load_row p r.1)
    updated ← lift (Tasks.transition_task at current blocked (some (aware at)))
    write_task p updated.task_id updated at r.1.version
    append_event_locked p (blocked_event (event_id r.0) current at)
    found ← gets (λ s. lookup (event_id r.0) s.events)
    row ← or_raise found data_integrity
    pure (
      updated,
      record { sequence = row.sequence; envelope = blocked_event (event_id r.0) current at },
    )

  abbrev by_key : {V : Type 0} → String × V → String × V → Bool
  by_key a b = text_le a.0 b.0

  unfoldable pub open_runs : Store Doc → List (String × RunRow Doc)
  open_runs s = order_by by_key (rows_where (λ (r : RunRow Doc). is_open_run r.status) s.runs)

  unfoldable pub worked_on : Store Doc → List (String × TaskRow Doc)
  worked_on s = order_by by_key (rows_where (λ (r : TaskRow Doc). is_worked_on r.status) s.tasks)

  unfoldable pub reconcile_body : Instant → Tx (Store Doc) ReconciliationResult
  unfolding interrupt_row block_row open_runs worked_on for_each
  reconcile_body at = do
    run_rows ← gets open_runs
    runs ← for_each (interrupt_row at) run_rows
    task_rows ← gets worked_on
    tasks ← for_each (block_row at) task_rows
    pure (result_of runs tasks)

  unfoldable pub reconcile_interrupted_running :
      Instant → Option Datetime → Tx (Store Doc) ReconciliationResult
  unfolding transaction aware_time reconcile_body
  reconcile_interrupted_running now at = do
    reconciled_at ← lift (aware_time now at)
    transaction (reconcile_body reconciled_at)
