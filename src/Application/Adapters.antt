-- ===== src/Application/Adapters.antt =====
-- `GatewayTaskAdapter` and `DurableTaskEnqueuer` of src/macmini_ai_hub/application/adapters.py: the
-- commands and queries of the gateway over the store. The state is the store with the rest of the
-- machine, which `draw` and the clock read; the canceller and the wake-up are ports.
pub mod Stored
use ai_infrastructure_as_cod.Prelude.{
  ℕ, Bool, true, false, not, ◌&&◌, ◌||◌, String, Option, none, some, List, [], ◌∷◌, map, lookup,
  ◌==◌, string_eq, if◌then◌else◌,
}
use ai_infrastructure_as_cod.Errors.{
  Error, Result, ok, err, record_not_found, duplicate_task, is_value_error, is_storage_error,
  is_data_integrity_error,
}
use ai_infrastructure_as_cod.Domain.Time.{Instant}
use ai_infrastructure_as_cod.Domain.Json.{JsonValue, Fields}
use ai_infrastructure_as_cod.Domain.Status.{TaskStatus, pending, queued, value, status_eq}
use ai_infrastructure_as_cod.Domain.Tasks.{Task, validate}
use ai_infrastructure_as_cod.Domain.Events.{EventType, EventLevel, EventEnvelope, validate_context}
use ai_infrastructure_as_cod.Gateway.Models.{CreateTaskCommand, CancelTaskCommand, TaskView}
use ai_infrastructure_as_cod.Gateway.Ports.{
  Raise, task_not_found, task_conflict, dependency_unavailable, exception, interruption, Outcome,
  returned, raised, Call, pure, raise, ◌>>=◌,
}
use ai_infrastructure_as_cod.Storage.Models.{TaskRoute}
use ai_infrastructure_as_cod.Storage.Pydantic.{Pydantic}
use ai_infrastructure_as_cod.Storage.Transaction.{Tx}
use ai_infrastructure_as_cod.Storage.Store.{Store}
use ai_infrastructure_as_cod.Storage.Tasks
use ai_infrastructure_as_cod.Storage.Routes.{make_route, same_route, get_task_route}
use ai_infrastructure_as_cod.Storage.Listing
use ai_infrastructure_as_cod.Orchestrator.Selection.{ConfigBundle}
use ai_infrastructure_as_cod.Orchestrator.Ports as Worker

-- `_task_view`
abbrev pub task_view : Task → TaskView
task_view t = record {
  task_id = t.task_id;
  project = t.project;
  team = t.team;
  status = t.status;
  assigned_agents = t.assigned_agents;
}

-- `_matches_replayed_task`
unfoldable pub matches_replayed_task : Task → Task → Bool
matches_replayed_task existing expected =
    existing.task_id == expected.task_id
    && existing.source == expected.source
    && existing.project == expected.project
    && existing.team == expected.team
    && existing.request == expected.request

-- `existing_route == route`
abbrev pub equal_routes : Option TaskRoute → Option TaskRoute → Bool
equal_routes none none = true
equal_routes (some a) (some b) = a.task_id == b.task_id && same_route a b
equal_routes _ _ = false

-- an exception that no handler names
abbrev pub uncaught : {A : Type 0} → Result A → Outcome A
uncaught (ok a) = returned a
uncaught (err e) = raised exception

-- `except DuplicateTaskError`
abbrev pub is_duplicate_task : Error → Bool
is_duplicate_task duplicate_task = true
is_duplicate_task _ = false

-- `except StorageError`
abbrev pub storage_raise : Error → Raise
storage_raise e = if is_storage_error e then dependency_unavailable else exception

-- `except RecordNotFoundError`, `except (DataIntegrityError, ValueError)`, `except StorageError`
unfoldable pub command_raise : Error → Raise
command_raise record_not_found = task_not_found
command_raise e =
    if is_data_integrity_error e || is_value_error e then task_conflict else storage_raise e

-- the clock and the `uuid4` of an event
pub record Machine (T : Type 0) : Type 0 where
  pub now : T → Instant
  pub draw : T → (String × Instant) × T
  pub correlation_of : String → String

module _ (p : Pydantic) {T : Type 0} (machine : Machine T) where
  open p use {Doc}

  -- an operation of the store in a thread, with what its exceptions become
  abbrev mapped : {A : Type 0} → (Error → Raise) → Result A → Outcome A
  mapped f (ok a) = returned a
  mapped f (err e) = raised (f e)

  unfoldable pub on_store :
      {A : Type 0} → (Error → Raise) → Tx (Store Doc) A → Call (Store Doc × T) A
  on_store f m w = (mapped f (m w.0).0, ((m w.0).1, w.1))

  abbrev created_task : CreateTaskCommand → String → Instant → Task
  created_task c team now = record {
    task_id = c.task_id;
    source = c.source;
    project = c.project;
    team = team;
    request = c.instruction;
    status = pending;
    assigned_agents = [];
    created_at = now;
    started_at = none;
    completed_at = none;
  }

  abbrev lifecycle_event :
      Task → EventType → TaskStatus → Option String → String × Instant → EventEnvelope
  lifecycle_event task event_type status causation drawn = record {
    schema_version = 1;
    event_id = drawn.0;
    event_type = event_type;
    timestamp = drawn.1;
    task_id = some task.task_id;
    project = some task.project;
    team = some task.team;
    agent = none;
    correlation_id = some (machine.correlation_of task.task_id);
    causation_id = causation;
    level = EventLevel.info;
    message = none;
    payload = Fields.field "status" (JsonValue.text (value status)) Fields.empty;
  }

  unfoldable pub draw_event :
      Task → EventType → TaskStatus → Option String → Call (Store Doc × T) EventEnvelope
  draw_event task event_type status causation w =
      let (drawn, t) = machine.draw w.1 in
      (
        uncaught (validate_context (lifecycle_event task event_type status causation drawn)),
        (w.0, t),
      )

  unfoldable pub new_task : CreateTaskCommand → String → Call (Store Doc × T) Task
  new_task c team w = (uncaught (validate (created_task c team (machine.now w.1))), w)

  -- the route of a task that is to be answered
  unfoldable pub new_route : CreateTaskCommand → Call (Store Doc × T) (Option TaskRoute)
  new_route c w = elim c.reply_target [
    | none ↦ (returned none, w)
    | some target ↦ elim (make_route p c.task_id c.source target) [
      | ok route ↦ (returned (some route), w)
      | err e ↦ (raised exception, w)
    ]
  ]

  -- `except DuplicateTaskError`: the same content again is no error
  unfoldable pub replay_task : Task → Option TaskRoute → Call (Store Doc × T) TaskView
  replay_task task route = do
    existing ← on_store (λ e. exception) (Tasks.get_task p task.task_id)
    existing_route ← on_store (λ e. exception) (get_task_route p task.task_id)
    if matches_replayed_task existing task && equal_routes existing_route route
        then pure (task_view existing)
        else raise task_conflict

  -- what the outcome of the store becomes
  abbrev pub stored : Task → Option TaskRoute → Result Task → Call (Store Doc × T) TaskView
  stored task route (ok created) = pure (task_view created)
  stored task route (err e) =
      if is_duplicate_task e then replay_task task route else raise (storage_raise e)

  -- the `try` of `create_task`
  unfoldable pub store_task :
      Task → EventEnvelope → EventEnvelope → Option TaskRoute → Call (Store Doc × T) TaskView
  store_task task created_event queued_event route w =
      let (r, s) = Tasks.create_queued_task p task created_event queued_event route w.0 in
      stored task route r (s, w.1)

  unfoldable pub create_in_team : CreateTaskCommand → String → Call (Store Doc × T) TaskView
  create_in_team c team = do
    task ← new_task c team
    created_event ← draw_event task EventType.task_created pending none
    queued_event ← draw_event task EventType.task_queued queued (some created_event.event_id)
    route ← new_route c
    store_task task created_event queued_event route

  unfoldable pub create_task : ConfigBundle → CreateTaskCommand → Call (Store Doc × T) TaskView
  create_task bundle c = elim (lookup c.project bundle.projects) [
    | none ↦ raise task_not_found
    | some team ↦ create_in_team c team
  ]

  -- what the canceller raises
  abbrev cancel_raise : Worker.Failure → Raise
  cancel_raise (Worker.storage e) = command_raise e
  cancel_raise Worker.interruption = interruption
  cancel_raise _ = exception

  abbrev cancel_outcome : Worker.Outcome Task × (Store Doc × T) → Outcome TaskView × (Store Doc × T)
  cancel_outcome (Worker.returned t, w) = (returned (task_view t), w)
  cancel_outcome (Worker.raised e, w) = (raised (cancel_raise e), w)

  unfoldable pub cancel_task :
      (String → Worker.Call (Store Doc × T) Task)
      → CancelTaskCommand
      → Call (Store Doc × T) TaskView
  cancel_task canceller c w = cancel_outcome (canceller c.task_id w)

  abbrev queried : Result Task → Outcome (Option TaskView)
  queried (ok t) = returned (some (task_view t))
  queried (err record_not_found) = returned none
  queried (err e) = raised (storage_raise e)

  unfoldable pub get_task : String → Call (Store Doc × T) (Option TaskView)
  get_task id w = (queried (Tasks.get_task p id w.0).0, ((Tasks.get_task p id w.0).1, w.1))

  unfoldable pub list_tasks : ℕ → Call (Store Doc × T) (List TaskView)
  list_tasks limit = do
    tasks ← on_store storage_raise (Listing.list_tasks p limit none)
    pure (map task_view tasks)

  -- what the wake-up raises
  abbrev woken : {A : Type 0} → Worker.Outcome A × (Store Doc × T) → Outcome A × (Store Doc × T)
  woken (Worker.returned a, w) = (returned a, w)
  woken (Worker.raised e, w) = (raised (cancel_raise e), w)

  -- the first `if` of `enqueue_task`; a refused event is a ValueError inside the `try`
  unfoldable pub queue_pending : Task → Call (Store Doc × T) Task
  queue_pending task w =
      if task.status == pending
      then (let (drawn, t) = machine.draw w.1 in
          elim (validate_context (lifecycle_event task EventType.task_queued queued none drawn)) [
            | err e ↦ (raised (command_raise e), (w.0, t))
            | ok event ↦
                on_store command_raise (Tasks.transition_task p task.task_id queued event) (w.0, t)
          ])
      else (returned task, w)

  unfoldable pub wake_queued :
      (String → Worker.Call (Store Doc × T) (Unit {0})) → Task → Call (Store Doc × T) (Unit {0})
  wake_queued wakeup task w =
      if task.status == queued then woken (wakeup task.task_id w) else (returned tt, w)

  unfoldable pub enqueue_task :
      (String → Worker.Call (Store Doc × T) (Unit {0})) → String → Call (Store Doc × T) TaskView
  enqueue_task wakeup task_id = do
    found ← on_store command_raise (Tasks.get_task p task_id)
    task ← queue_pending found
    woke ← wake_queued wakeup task
    pure (task_view task)
