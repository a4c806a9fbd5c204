-- ===== src/Storage/Adapters.antt =====
-- `AsyncSQLiteOrchestrationStore` and `AsyncSQLiteDeliveryReceipts` of
-- src/macmini_ai_hub/storage/adapters.py: the store behind the ports of the orchestrator. A call in
-- another thread is a call. The state of the adapters is the store with the rest of the machine.
use ai_infrastructure_as_cod.Prelude.{ℕ, ℤ, Bool, String, Option, none, List}
use ai_infrastructure_as_cod.Errors.{Result, ok, err}
use ai_infrastructure_as_cod.Domain.Time.{Instant}
use ai_infrastructure_as_cod.Domain.Status.{TaskStatus}
use ai_infrastructure_as_cod.Domain.Tasks.{Task}
use ai_infrastructure_as_cod.Domain.Events.{EventEnvelope}
use ai_infrastructure_as_cod.Storage.Models.{RunStatus, RunRecord, validate_lifecycle}
use ai_infrastructure_as_cod.Storage.Pydantic.{Pydantic}
use ai_infrastructure_as_cod.Storage.Transaction.{Tx}
use ai_infrastructure_as_cod.Storage.Store.{Store}
use ai_infrastructure_as_cod.Storage.Tasks
use ai_infrastructure_as_cod.Storage.Runs
use ai_infrastructure_as_cod.Storage.Listing
use ai_infrastructure_as_cod.Storage.Deliveries
use ai_infrastructure_as_cod.Storage.Recovery
use ai_infrastructure_as_cod.Orchestrator.Ports.{
  Outcome, returned, raised, storage, Call, pure, ◌>>=◌, ◌>>◌, RunOutcome, Ports,
}

-- The clock, `_default_run_id`, and the ids that `uuid4` gives to the events of a recovery.
pub record Machine (T : Type 0) : Type 0 where
  pub now : T → Instant
  pub run_id_factory : T → String × T
  pub event_id : T → String → String

-- `RunStatus(outcome.value)`
abbrev pub run_status : RunOutcome → RunStatus
run_status RunOutcome.succeeded = RunStatus.succeeded
run_status RunOutcome.failed = RunStatus.failed
run_status RunOutcome.timed_out = RunStatus.timed_out
run_status RunOutcome.cancelled = RunStatus.cancelled
run_status RunOutcome.interrupted = RunStatus.interrupted

-- `RunRecord(run_id=..., task_id=..., agent=..., runtime=...)`
abbrev pub new_run : String → String → String → String → Instant → RunRecord
new_run run_id task_id agent runtime now = record {
  run_id = run_id;
  task_id = task_id;
  agent = agent;
  runtime = runtime;
  status = RunStatus.queued;
  created_at = now;
  started_at = none;
  completed_at = none;
  exit_code = none;
  error_code = none;
}

-- an exception of the store is one of the port
abbrev carried : {A D T : Type 0} → T → Result A × D → Outcome A × (D × T)
carried t (ok a, s) = (returned a, (s, t))
carried t (err e, s) = (raised (storage e), (s, t))

unfoldable pub in_thread : {A D T : Type 0} → Tx D A → Call (D × T) A
in_thread m w = carried w.1 (m w.0)

-- a call that reads the machine
unfoldable pub with_machine : {A D T : Type 0} → (T → Call (D × T) A) → Call (D × T) A
with_machine f w = f w.1 w

unfoldable pub draw_run_id : {D T : Type 0} → Machine T → Call (D × T) String
draw_run_id m w = let (id, t) = m.run_id_factory w.1 in (returned id, (w.0, t))

unfoldable pub from_valid : {S A : Type 0} → Result A → Call S A
from_valid (ok a) s = (returned a, s)
from_valid (err e) s = (raised (storage e), s)

module _ (p : Pydantic) {T : Type 0} (m : Machine T) where
  open p use {Doc}

  unfoldable pub get_task : String → Call (Store Doc × T) Task
  get_task id = in_thread (Tasks.get_task p id)

  unfoldable pub list_queued_tasks : ℕ → Call (Store Doc × T) (List Task)
  list_queued_tasks limit = in_thread (Listing.list_queued_tasks p limit)

  unfoldable pub transition_task : String → TaskStatus → EventEnvelope → Call (Store Doc × T) Task
  transition_task id target e = in_thread (Tasks.transition_task p id target e)

  unfoldable pub assign_task : String → String → EventEnvelope → Call (Store Doc × T) Task
  assign_task id agent e = in_thread (Tasks.assign_task p id agent e)

  unfoldable pub cancel_task : String → EventEnvelope → Call (Store Doc × T) Task
  cancel_task id e = in_thread (Tasks.cancel_task p id e)

  unfoldable pub create_run : String → String → String → Call (Store Doc × T) String
  create_run task_id agent runtime = do
    id ← draw_run_id m
    run ←
        with_machine
          (λ t. from_valid (validate_lifecycle (new_run id task_id agent runtime (m.now t))))
    in_thread (Runs.create_run p run)
    pure run.run_id

  unfoldable pub start_run : String → Call (Store Doc × T) (Unit {0})
  start_run id = do with_machine (λ t. in_thread (Runs.start_run p (m.now t) id none)); pure tt

  unfoldable pub finish_run :
      String → RunOutcome → Option ℤ → Option String → Call (Store Doc × T) (Unit {0})
  finish_run id o exit_code error_code = do
    with_machine
        (λ t. in_thread (Runs.finish_run p (m.now t) id (run_status o) none exit_code error_code))
    pure tt

  unfoldable pub reconcile_interrupted : Call (Store Doc × T) (Unit {0})
  reconcile_interrupted = do
    with_machine
        (λ t. in_thread (Recovery.reconcile_interrupted_running p (m.event_id t) (m.now t) none))
    pure tt

  -- the ports of the orchestrator, with the store behind those of the store
  abbrev pub sqlite_ports : Ports (Store Doc × T) → Ports (Store Doc × T)
  sqlite_ports others = record others {
    get_task = get_task;
    transition_task = transition_task;
    assign_task = assign_task;
    cancel_task = cancel_task;
    create_run = create_run;
    start_run = start_run;
    finish_run = finish_run;
  }

  unfoldable pub is_delivered : String → Call (Store Doc × T) Bool
  is_delivered id = in_thread (Deliveries.is_delivery_delivered p id)

  unfoldable pub reserve : String → Call (Store Doc × T) Bool
  reserve id = with_machine (λ t. in_thread (Deliveries.reserve_delivery p (m.now t) id none))

  unfoldable pub mark_delivered : String → Call (Store Doc × T) (Unit {0})
  mark_delivered id = do
    with_machine (λ t. in_thread (Deliveries.mark_delivery_delivered p (m.now t) id none))
    pure tt

  unfoldable pub release : String → Call (Store Doc × T) (Unit {0})
  release id = do in_thread (Deliveries.release_delivery p id); pure tt

  unfoldable pub reconcile_deliveries : Call (Store Doc × T) (List String)
  reconcile_deliveries = in_thread (Deliveries.reconcile_reserved_deliveries p)
