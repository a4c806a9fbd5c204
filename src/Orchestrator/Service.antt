-- ===== src/Orchestrator/Service.antt =====
-- `SingleDeveloperOrchestrator` of src/macmini_ai_hub/orchestrator/service.py: `process_task` and
-- `cancel_task`, each alone with its ports.
pub mod Keeps
pub mod Outcomes
use ai_infrastructure_as_cod.Prelude.{
  ℕ, ℤ, Bool, true, false, not, ◌&&◌, String, Option, none, some, List, [], ◌∷◌, ◌==◌, string_eq,
  if◌then◌else◌,
}
use Prim.Native.String.{◌++◌}
use ai_infrastructure_as_cod.Errors.{Error, Result, ok, err}
use ai_infrastructure_as_cod.Domain.Time.{Instant}
use ai_infrastructure_as_cod.Domain.Json.{JsonValue, Items, Fields}
use ai_infrastructure_as_cod.Domain.Status.{TaskStatus, planning, status_eq, value, is_terminal}
use ai_infrastructure_as_cod.Domain.Status
use ai_infrastructure_as_cod.Domain.Tasks.{Task}
use ai_infrastructure_as_cod.Domain.Events.{
  EventType, EventLevel, EventEnvelope, agent_assigned, validate_context,
}
use ai_infrastructure_as_cod.Orchestrator.Selection.{
  ConfigBundle, DeveloperSelection, Selected, chosen, refused, missing_key, RuntimeKind,
  select_developer,
}
use ai_infrastructure_as_cod.Orchestrator.Ports.{
  Failure, preparation_blocked, preparation_error, exception, interruption, storage, Outcome,
  returned, raised, Call, pure, raise, ◌>>=◌, ◌>>◌, log_exceptions, suppress_lookup, within,
  RunOutcome, RuntimeStatus, PreparedWorkspace, RuntimeRequest, RuntimeResult, Ports,
}

pub record TaskProcessResult : Type 0 where
  pub task_id : String
  pub status : TaskStatus
  pub error_code : Option String

abbrev pub result_of : Task → Option String → TaskProcessResult
result_of t code = record { task_id = t.task_id; status = t.status; error_code = code }

-- `d[key] = v`: a key that is there keeps its place
abbrev pub one_field : String → JsonValue → Fields
one_field k v = Fields.field k v Fields.empty

unfoldable pub put_field : String → JsonValue → Fields → Fields
put_field k v Fields.empty = one_field k v
put_field k v (Fields.field j w fs) =
    if j == k then Fields.field j v fs else Fields.field j w (put_field k v fs)

-- {**first, **second}
unfoldable pub merged : Fields → Fields → Fields
merged first Fields.empty = first
merged first (Fields.field k v fs) = merged (put_field k v first) fs

abbrev texts : List String → Items
texts [] = Items.nil
texts (s ∷ ss) = Items.cons (JsonValue.text s) (texts ss)

-- the `event_types` of `_transition`; a status that it does not have is a KeyError
abbrev pub event_type_of : TaskStatus → Option EventType
event_type_of TaskStatus.planning = some EventType.task_started
event_type_of TaskStatus.running = some EventType.task_started
event_type_of TaskStatus.blocked = some EventType.task_blocked
event_type_of TaskStatus.completed = some EventType.task_completed
event_type_of TaskStatus.failed = some EventType.task_failed
event_type_of TaskStatus.cancelled = some EventType.task_cancelled
event_type_of _ = none

abbrev runtime_value : RuntimeKind → String
runtime_value RuntimeKind.disabled = "disabled"
runtime_value RuntimeKind.codex = "codex"

-- `RunOutcome(result.status.value)`
abbrev pub outcome_of : RuntimeStatus → RunOutcome
outcome_of RuntimeStatus.succeeded = RunOutcome.succeeded
outcome_of RuntimeStatus.failed = RunOutcome.failed
outcome_of RuntimeStatus.timed_out = RunOutcome.timed_out
outcome_of RuntimeStatus.cancelled = RunOutcome.cancelled

abbrev pub status_text : RuntimeStatus → String
status_text RuntimeStatus.succeeded = "succeeded"
status_text RuntimeStatus.failed = "failed"
status_text RuntimeStatus.timed_out = "timed-out"
status_text RuntimeStatus.cancelled = "cancelled"

abbrev pub error_code_of : RuntimeStatus → Option String
error_code_of RuntimeStatus.succeeded = none
error_code_of s = some ("runtime-" ++ status_text s)

-- The variables of `process_task` that its handlers read.
pub record Locals : Type 0 where
  pub task : Task
  pub run_id : Option String
  pub run_finished : Bool

-- How the body of the `try` ends: by a `return`, or with the task as it ends.
pub data Ended : Type 0 where
  early : TaskProcessResult → Ended
  final : Task → Ended

-- a call of a port, beside the variables
unfoldable pub on_ports : {S A : Type 0} → Call S A → Call (Locals × S) A
on_ports m (l, s) = ((m s).0, (l, (m s).1))

unfoldable pub assign : {S : Type 0} → (Locals → Locals) → Call (Locals × S) (Unit {0})
assign f (l, s) = (returned tt, (f l, s))

unfoldable pub or_raise : {S A : Type 0} → Option A → Call S A
or_raise none s = (raised exception, s)
or_raise (some a) s = (returned a, s)

unfoldable pub from_result : {S A : Type 0} → Result A → Call S A
from_result (ok a) s = (returned a, s)
from_result (err e) s = (raised (storage e), s)

module _ {S : Type 0} (p : Ports S) where
  abbrev pub envelope :
      Task → EventType → Option String → EventLevel → Fields → String × Instant → EventEnvelope
  envelope task event_type agent level payload drawn = record {
    schema_version = 1;
    event_id = drawn.0;
    event_type = event_type;
    timestamp = drawn.1;
    task_id = some task.task_id;
    project = some task.project;
    team = some task.team;
    agent = agent;
    correlation_id = some (p.correlation_of task.task_id);
    causation_id = none;
    level = level;
    message = none;
    payload = payload;
  }

  -- `_event`
  unfoldable pub event :
      Task → EventType → Option String → EventLevel → Fields → Call S EventEnvelope
  event task event_type agent level payload = do
    drawn ← p.draw
    from_result (validate_context (envelope task event_type agent level payload drawn))

  -- `_transition`
  unfoldable pub transition : Task → TaskStatus → Option String → EventLevel → Fields → Call S Task
  transition task target agent level payload = do
    event_type ← or_raise (event_type_of target)
    e ←
        event task event_type agent level
          (merged (one_field "status" (JsonValue.text (value target))) payload)
    p.transition_task task.task_id target e

  -- `_notify`
  unfoldable pub notify : Task → Call S (Unit {0})
  notify task = elim p.notifier [ none ↦ pure tt | some f ↦ log_exceptions (f task) ]

  abbrev reason : String → Fields
  reason code = one_field "reason" (JsonValue.text code)

  -- `_block`
  unfoldable pub block : Task → String → Call S TaskProcessResult
  block task code = do
    current ← p.get_task task.task_id
    t ← transition current TaskStatus.blocked none EventLevel.warning (reason code)
    notify t
    pure (result_of t (some code))

  -- `_fail`
  unfoldable pub fail : Task → String → Call S TaskProcessResult
  fail task code = do
    current ← p.get_task task.task_id
    t ← transition current TaskStatus.failed none EventLevel.error (reason code)
    notify t
    pure (result_of t (some code))

  -- `_finish_run`
  unfoldable pub finish_run : String → RuntimeResult → Call S (Unit {0})
  finish_run run_id r =
      p.finish_run run_id (outcome_of r.status) r.exit_code (error_code_of r.status)

  abbrev outcome_payload : RuntimeResult → String → Fields
  outcome_payload r branch =
      Fields.field "branch" (JsonValue.text branch)
        (one_field "changed_files" (JsonValue.array (texts r.changed_files)))

  abbrev with_status : Fields → TaskStatus → Fields
  with_status fs status = put_field "status" (JsonValue.text (value status)) fs

  abbrev failed_payload : RuntimeResult → String → Fields
  failed_payload r branch =
      put_field "reason" (JsonValue.text ("runtime-" ++ status_text r.status))
        (with_status (outcome_payload r branch) TaskStatus.failed)

  abbrev finish_failed : Task → RuntimeResult → String → Call S Task
  finish_failed task r branch =
      transition task TaskStatus.failed none EventLevel.error (failed_payload r branch)

  -- `_finish_task`
  unfoldable pub finish_task : RuntimeStatus → Task → RuntimeResult → String → Call S Task
  finish_task RuntimeStatus.succeeded task r branch =
      transition task TaskStatus.completed none EventLevel.info
        (with_status (outcome_payload r branch) TaskStatus.completed)
  finish_task RuntimeStatus.cancelled task r branch = do
    e ←
        event task EventType.task_cancelled none EventLevel.warning
          (with_status (outcome_payload r branch) TaskStatus.cancelled)
    p.cancel_task task.task_id e
  finish_task RuntimeStatus.failed task r branch = finish_failed task r branch
  finish_task RuntimeStatus.timed_out task r branch = finish_failed task r branch

  module _ (bundle : ConfigBundle) (timeout : ℕ) where
    -- `_execute_runtime`
    unfoldable pub execute_runtime : Task → String → String → Call S RuntimeResult
    execute_runtime task agent_id workspace = do
      request ← or_raise (
          p.validated (record {
            task_id = task.task_id;
            agent = agent_id;
            project = task.project;
            workspace = workspace;
            prompt = task.request;
            timeout_seconds = timeout;
          }))
      p.execute request

    -- the end of the body of the `with`
    unfoldable pub conclude : Task → RuntimeResult → String → Call S Ended
    conclude current r branch =
        if current.status == TaskStatus.cancelled
        then (do notify current; pure (early (result_of current none)))
        else (do t ← finish_task r.status current r branch; pure (final t))

    -- the body of the `with`
    unfoldable pub execute_task :
        Task → DeveloperSelection → PreparedWorkspace → Call (Locals × S) Ended
    execute_task planned developer prepared = do
      task ← on_ports (
          transition planned TaskStatus.running (some developer.agent_id) EventLevel.info
            (one_field "branch" (JsonValue.text prepared.branch)))
      assign (λ l. record l { task = task })
      on_ports (notify task)
      run_id ← on_ports (p.create_run task.task_id developer.agent_id p.runtime_name)
      assign (λ l. record l { run_id = some run_id })
      on_ports (p.start_run run_id)
      r ← on_ports (execute_runtime task developer.agent_id prepared.path)
      on_ports (finish_run run_id r)
      assign (λ l. record l { run_finished = true })
      current ← on_ports (p.get_task task.task_id)
      on_ports (conclude current r prepared.branch)

    -- the body of the `try`
    unfoldable pub in_workspace : Task → DeveloperSelection → Call (Locals × S) Ended
    in_workspace task developer =
        within (on_ports (p.open_workspace task.project task.task_id task.request))
          (λ w. on_ports (p.close_workspace w)) (execute_task task developer)

    abbrev pub close_run : Locals → Call S (Unit {0})
    close_run l = elim l.run_id [
      | none ↦ pure tt
      | some id ↦
          if l.run_finished
          then pure tt
          else log_exceptions (p.finish_run id RunOutcome.failed none (some "runtime-exception"))
    ]

    abbrev pub fail_unless_ended : Task → Call S TaskProcessResult
    fail_unless_ended current =
        if is_terminal current.status
        then pure (result_of current none)
        else fail current "runtime-exception"

    -- `except Exception` of `process_task`
    unfoldable pub recover_task : Locals → Call S TaskProcessResult
    recover_task l = do close_run l; current ← p.get_task l.task.task_id; fail_unless_ended current

    -- what follows the body of the `try`
    unfoldable pub handle : Outcome Ended → Locals → Call S TaskProcessResult
    handle (returned (early r)) l = pure r
    handle (returned (final t)) l = do notify t; pure (result_of t none)
    handle (raised preparation_blocked) l = block l.task "project-preparation"
    handle (raised preparation_error) l = fail l.task "project-preparation"
    handle (raised interruption) l = raise interruption
    handle (raised e) l = recover_task l

    -- the `try` with its handlers
    unfoldable pub run_task : DeveloperSelection → Task → Call S TaskProcessResult
    run_task developer task s =
        let l : Locals = record { task = task; run_id = none; run_finished = false } in
        let (r, w) = in_workspace task developer (l, s) in handle r w.0 w.1

    abbrev assignment_payload : Task → DeveloperSelection → Fields
    assignment_payload task developer = Fields.field "status" (JsonValue.text (value task.status)) (
        Fields.field "role" (JsonValue.text "developer")
          (one_field "runtime" (JsonValue.text (runtime_value developer.definition.runtime))))

    unfoldable pub with_developer : Task → Selected DeveloperSelection → Call S TaskProcessResult
    with_developer task (refused missing_key) = raise exception
    with_developer task (refused e) = fail task "developer-selection"
    with_developer task (chosen developer) = do
      assignment ←
          event task agent_assigned (some developer.agent_id) EventLevel.info
            (assignment_payload task developer)
      assigned ← p.assign_task task.task_id developer.agent_id assignment
      run_task developer assigned

    -- a queued task
    unfoldable pub start_task : Task → Call S TaskProcessResult
    start_task task = do
      planned ← transition task TaskStatus.planning none EventLevel.info Fields.empty
      with_developer planned (select_developer bundle planned)

    unfoldable pub process_task : String → Call S TaskProcessResult
    process_task task_id = do
      task ← p.get_task task_id
      if task.status == TaskStatus.queued then start_task task else pure (result_of task none)

  abbrev pub stop_execution : Task → String → Call S (Unit {0})
  stop_execution task task_id =
      if task.status == TaskStatus.running
      then suppress_lookup (p.cancel_execution task_id)
      else pure tt

  -- a task that has not ended
  unfoldable pub cancel_open : Task → String → Call S Task
  cancel_open task task_id = do
    stop_execution task task_id
    e ←
        event task EventType.task_cancelled none EventLevel.warning
          (Fields.field "status" (JsonValue.text "cancelled") (reason "user-request"))
    t ← p.cancel_task task_id e
    notify t
    pure t

  unfoldable pub cancel_task : String → Call S Task
  cancel_task task_id = do
    task ← p.get_task task_id
    if is_terminal task.status then pure task else cancel_open task task_id
