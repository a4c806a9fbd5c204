-- ===== src/Storage/Tasks.antt =====
-- The task and event operations of `SQLiteStore`: `create_task`, `create_queued_task`, `get_task`,
-- `transition_task`, `assign_task`, `cancel_task` and `append_event`,
-- src/macmini_ai_hub/storage/sqlite.py.
pub mod Created
pub mod Written
pub mod Transition
pub mod Assignment
pub mod Idempotent
use ai_infrastructure_as_cod.Prelude.{
  ℕ, suc, ◌+◌, Bool, true, false, not, ◌&&◌, ◌||◌, String, Option, none, some, List, [], ◌∷◌, ◌++◌,
  Table, lookup, insert, is_some, is_none, ◌==◌, Eq, nat_eq, string_eq, option_eq, contains,
  if◌then◌else◌, ltb, leb, take,
}
use ai_infrastructure_as_cod.Errors.{
  Error, Result, ok, err, value_error, data_integrity, duplicate_task, record_not_found,
  idempotency_conflict, storage_unavailable,
}
use ai_infrastructure_as_cod.Domain.Time.{Instant, aware, precedes}
use ai_infrastructure_as_cod.Domain.Json.{get_field, is_text}
use ai_infrastructure_as_cod.Domain.Status.{
  TaskStatus, pending, queued, planning, running, review, qa, blocked, completed, failed, cancelled,
  status_eq, value,
}
use ai_infrastructure_as_cod.Domain.Tasks.{Task, validate}
use ai_infrastructure_as_cod.Domain.Tasks
use ai_infrastructure_as_cod.Domain.Events.{
  EventType, task_created, task_queued, task_started, task_blocked, task_completed, task_failed,
  task_cancelled, review_started, qa_started, agent_assigned, event_type_eq, EventEnvelope,
}
use ai_infrastructure_as_cod.Storage.Models.{TaskRoute}
use ai_infrastructure_as_cod.Storage.Pydantic.{Pydantic}
use ai_infrastructure_as_cod.Storage.Transaction.{
  Tx, pure, raise, lift, gets, or_raise, modify, raise_if, ◌>>=◌, ◌>>◌,
}
use ai_infrastructure_as_cod.Storage.Store.{
  TaskRow, EventRow, Store, transaction, reading, update_task, dangling,
}

unfoldable pub event_for_status : TaskStatus → EventType
event_for_status pending = task_created
event_for_status queued = task_queued
event_for_status planning = task_started
event_for_status running = task_started
event_for_status review = review_started
event_for_status qa = qa_started
event_for_status blocked = task_blocked
event_for_status completed = task_completed
event_for_status failed = task_failed
event_for_status cancelled = task_cancelled

-- `_ATOMIC_TASK_EVENT_TYPES`
unfoldable pub is_atomic_task_event : EventType → Bool
is_atomic_task_event task_created = true
is_atomic_task_event task_queued = true
is_atomic_task_event task_started = true
is_atomic_task_event review_started = true
is_atomic_task_event qa_started = true
is_atomic_task_event task_blocked = true
is_atomic_task_event task_completed = true
is_atomic_task_event task_failed = true
is_atomic_task_event task_cancelled = true
is_atomic_task_event agent_assigned = true
is_atomic_task_event _ = false

-- `_validate_lifecycle_event`: whether the event announces that the task enters `target`.
unfoldable pub announces : Task → TaskStatus → EventEnvelope → Bool
announces task target event =
    event.event_type == event_for_status target
    && event.task_id == some task.task_id
    && event.project == some task.project
    && event.team == some task.team
    && is_text (get_field "status" event.payload) (value target)

-- The tests of `assign_task` that stand before its look at the event table.
unfoldable pub announces_assignment : Task → String → EventEnvelope → Bool
announces_assignment task agent event =
    event.event_type == agent_assigned
    && event.task_id == some task.task_id
    && event.agent == some agent
    && event.project == some task.project
    && event.team == some task.team

-- `route is not None and route.task_id != task.task_id`
abbrev misrouted : Option TaskRoute → Task → Bool
misrouted none task = false
misrouted (some r) task = not (r.task_id == task.task_id)

-- The tests of `create_queued_task`, each of which raises `DataIntegrityError`.
unfoldable pub may_queue : Task → EventEnvelope → EventEnvelope → Option TaskRoute → Bool
may_queue task created_event queued_event route =
    task.status == pending
    && announces task pending created_event
    && announces task queued queued_event
    && not (precedes queued_event.timestamp created_event.timestamp)
    && not (misrouted route task)

module _ (p : Pydantic) where
  open p use {Doc, doc_eq, dump_task, load_task, dump_event}

  -- the columns of a new task
  unfoldable pub new_row : Task → EventEnvelope → TaskRow Doc
  new_row task event = record {
    status = task.status;
    project = task.project;
    team = task.team;
    created_at = task.created_at;
    updated_at = event.timestamp;
    version = 1;
    task_json = dump_task task;
  }

  -- INSERT INTO events: the foreign key is checked, the sequence number is the next one
  unfoldable pub insert_event : EventEnvelope → Tx (Store Doc) Bool
  insert_event event s = if dangling event.task_id s then (err data_integrity, s) else (
    ok true,
    record s {
      events =
          insert event.event_id
            (record {
              sequence = s.last_sequence + 1;
              task_id = event.task_id;
              envelope_json = dump_event event;
            })
            s.events;
      last_sequence = s.last_sequence + 1;
    },
  )

  -- the event table has this id: the same text is the same event, another text is a conflict
  unfoldable pub seen_before : EventRow Doc → EventEnvelope → Result (Unit {0})
  seen_before row event =
      if doc_eq.beq row.envelope_json (dump_event event) then ok tt else err idempotency_conflict

  unfoldable pub append_event_locked : EventEnvelope → Tx (Store Doc) Bool
  unfolding insert_event seen_before
  append_event_locked event s = elim (lookup event.event_id s.events) [
    | none ↦ insert_event event s
    | some row ↦ (do lift (seen_before row event); pure false) s
  ]

  unfoldable pub insert_task : Task → EventEnvelope → Tx (Store Doc) (Unit {0})
  unfolding new_row
  insert_task task event s = elim (lookup task.task_id s.tasks) [
    | some _ ↦ (err duplicate_task, s)
    | none ↦ (ok tt, record s { tasks = insert task.task_id (new_row task event) s.tasks })
  ]

  unfoldable pub create_body : Task → EventEnvelope → Tx (Store Doc) Task
  create_body task event = do insert_task task event; append_event_locked event; pure task

  unfoldable pub create_task : Task → EventEnvelope → Tx (Store Doc) Task
  unfolding transaction create_body
  create_task task event = do
    raise_if (not (task.status == pending)) data_integrity
    raise_if (not (announces task pending event)) data_integrity
    transaction (create_body task event)

  -- the columns that a write of the task's text changes
  unfoldable pub next_row : Task → Instant → TaskRow Doc → TaskRow Doc
  next_row task at row = record row {
    status = task.status;
    updated_at = at;
    version = row.version + 1;
    task_json = dump_task task;
  }

  -- UPDATE tasks SET status, updated_at, version, task_json WHERE task_id = key AND version = ?
  unfoldable pub write_task : String → Task → Instant → ℕ → Tx (Store Doc) (Unit {0})
  unfolding update_task next_row
  write_task key task at version s =
      (ok tt, record s { tasks = update_task key version (next_row task at) s.tasks })

  unfoldable pub insert_route : Option TaskRoute → Tx (Store Doc) (Unit {0})
  insert_route none s = (ok tt, s)
  insert_route (some r) s =
      if is_some (lookup r.task_id s.task_routes)
      then (err data_integrity, s)
      else (ok tt, record s { task_routes = insert r.task_id r s.task_routes })

  unfoldable pub create_queued_body :
      Task → Task → EventEnvelope → EventEnvelope → Option TaskRoute → Tx (Store Doc) Task
  create_queued_body task queued_task created_event queued_event route = do
    insert_task task created_event
    append_event_locked created_event
    insert_route route
    write_task queued_task.task_id queued_task queued_event.timestamp 1
    append_event_locked queued_event
    pure queued_task

  unfoldable pub create_queued_task :
      Task → EventEnvelope → EventEnvelope → Option TaskRoute → Tx (Store Doc) Task
  unfolding transaction create_queued_body
  create_queued_task task created_event queued_event route = do
    raise_if (not (may_queue task created_event queued_event route)) data_integrity
    queued_task ← lift (
        Tasks.transition_task queued_event.timestamp task queued
          (some (aware queued_event.timestamp)))
    transaction (create_queued_body task queued_task created_event queued_event route)

  unfoldable pub load_row : TaskRow Doc → Result Task
  load_row row = elim (load_task row.task_json) [ none ↦ err data_integrity | some t ↦ ok t ]

  unfoldable pub get_task : String → Tx (Store Doc) Task
  unfolding reading load_row
  get_task task_id = reading (do
    found ← gets (λ s. lookup task_id s.tasks)
    row ← or_raise found record_not_found
    lift (load_row row))

  -- the end of `transition_task`, where the event is new
  unfoldable pub apply_transition :
      String → TaskRow Doc → Task → TaskStatus → EventEnvelope → Tx (Store Doc) Task
  unfolding write_task append_event_locked
  apply_transition task_id row current target event = do
    updated ←
        lift (Tasks.transition_task event.timestamp current target (some (aware event.timestamp)))
    write_task task_id updated event.timestamp row.version
    append_event_locked event
    pure updated

  unfoldable pub transition_task : String → TaskStatus → EventEnvelope → Tx (Store Doc) Task
  unfolding transaction load_row seen_before
  transition_task task_id target event = transaction (do
    found ← gets (λ s. lookup task_id s.tasks)
    row ← or_raise found record_not_found
    current ← lift (load_row row)
    raise_if (not (announces current target event)) data_integrity
    existing ← gets (λ s. lookup event.event_id s.events)
    elim existing [
      | some seen ↦ (do lift (seen_before seen event); pure current)
      | none ↦ apply_transition task_id row current target event
    ])

  unfoldable pub cancel_task : String → EventEnvelope → Tx (Store Doc) Task
  unfolding transition_task
  cancel_task task_id event = transition_task task_id cancelled event

  unfoldable pub apply_assignment :
      String → TaskRow Doc → Task → String → EventEnvelope → Tx (Store Doc) Task
  unfolding write_task append_event_locked
  apply_assignment task_id row current agent event = do
    raise_if (not (is_text (get_field "status" event.payload) (value current.status)))
        data_integrity
    raise_if (contains current.assigned_agents agent) data_integrity
    updated ←
        lift (validate (record current { assigned_agents = current.assigned_agents ++ agent ∷ [] }))
    write_task task_id updated event.timestamp row.version
    append_event_locked event
    pure updated

  unfoldable pub assign_task : String → String → EventEnvelope → Tx (Store Doc) Task
  unfolding transaction load_row seen_before
  assign_task task_id agent event = transaction (do
    found ← gets (λ s. lookup task_id s.tasks)
    row ← or_raise found record_not_found
    current ← lift (load_row row)
    raise_if (not (announces_assignment current agent event)) data_integrity
    existing ← gets (λ s. lookup event.event_id s.events)
    elim existing [
      | some seen ↦ (do lift (seen_before seen event); pure current)
      | none ↦ apply_assignment task_id row current agent event
    ])

  unfoldable pub append_event : EventEnvelope → Tx (Store Doc) Bool
  unfolding transaction append_event_locked
  append_event event = do
    raise_if (is_atomic_task_event event.event_type) data_integrity
    transaction (append_event_locked event)
