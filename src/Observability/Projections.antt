-- ===== src/Observability/Projections.antt =====
-- The task projection of src/macmini_ai_hub/observability/projections.py. A `ProjectionError` is a
-- `value_error`. `same`, the equality of two envelopes, is pydantic's.
pub mod Replay
pub mod Logged
pub mod Steps
pub mod History
use ai_infrastructure_as_cod.Prelude.{
  ℕ, suc, ◌+◌, Bool, true, false, not, ◌&&◌, ◌||◌, String, Option, none, some, List, [], ◌∷◌, ◌++◌,
  Table, lookup, insert, is_none, is_some, ◌==◌, string_eq, option_eq, contains, if◌then◌else◌,
}
use ai_infrastructure_as_cod.Errors.{
  Error, Result, ok, err, ◌>>=◌, ◌>>◌, raise_if, value_error, type_error,
}
use ai_infrastructure_as_cod.Domain.Time.{Instant, precedes}
use ai_infrastructure_as_cod.Domain.Json.{JsonValue, array, object, get_field, is_text}
use ai_infrastructure_as_cod.Domain.Status.{
  TaskStatus, pending, queued, planning, running, review, qa, blocked, completed, failed, cancelled,
  value, can_transition,
}
use ai_infrastructure_as_cod.Domain.Events.{
  EventType, task_created, task_queued, task_started, task_blocked, task_completed, task_failed,
  task_cancelled, review_started, qa_started, agent_assigned, event_type_eq, EventEnvelope,
}

pub record TaskProjection : Type 0 where
  pub task_id : String
  pub project : String
  pub team : String
  pub status : TaskStatus
  pub assigned_agents : List String
  pub created_at : Instant
  pub updated_at : Instant
  pub last_event_id : String
  pub last_event_type : EventType
  pub event_count : ℕ

pub record TaskProjector : Type 0 where
  pub projection : Option TaskProjection
  pub seen_events : Table EventEnvelope

abbrev pub new_projector : TaskProjector
new_projector = record { projection = none; seen_events = [] }

-- `_FIXED_STATUS_EVENTS`
unfoldable pub fixed_status : EventType → Option TaskStatus
fixed_status task_created = some pending
fixed_status task_queued = some queued
fixed_status task_blocked = some blocked
fixed_status task_completed = some completed
fixed_status task_failed = some failed
fixed_status task_cancelled = some cancelled
fixed_status review_started = some review
fixed_status qa_started = some qa
fixed_status _ = none

abbrev payload_status : EventEnvelope → TaskStatus → Bool
payload_status e s = is_text (get_field "status" e.payload) (value s)

-- lists and dicts have no hash
abbrev is_unhashable : Option JsonValue → Bool
is_unhashable (some (array xs)) = true
is_unhashable (some (object fs)) = true
is_unhashable _ = false

-- the status of a `task.started` event: `raw_status not in {...}` raises for a value without a hash
started_status : EventEnvelope → Result (Option TaskStatus)
started_status e =
    if is_unhashable (get_field "status" e.payload)
    then err type_error
    else if payload_status e planning
    then ok (some planning)
    else if payload_status e running
    then ok (some running)
    else err value_error

unfoldable pub status_for : EventType → EventEnvelope → Result (Option TaskStatus)
unfolding fixed_status started_status
status_for task_started e = started_status e
status_for type e = elim (fixed_status type) [
  | none ↦ ok none
  | some s ↦ if payload_status e s then ok (some s) else err value_error
]

abbrev new_projection : EventEnvelope → String → String → String → TaskProjection
new_projection e task_id project team = record {
  task_id = task_id;
  project = project;
  team = team;
  status = pending;
  assigned_agents = [];
  created_at = e.timestamp;
  updated_at = e.timestamp;
  last_event_id = e.event_id;
  last_event_type = e.event_type;
  event_count = 1;
}

-- the three fields that a first event must have
abbrev named : EventEnvelope → Option String → Option String → Option String → Result TaskProjection
named e (some t) (some p) (some m) = ok (new_projection e t p m)
named e _ _ _ = err value_error

unfoldable pub create : EventEnvelope → Result TaskProjection
create e = do
  raise_if (not (e.event_type == task_created)) value_error
  projection ← named e e.task_id e.project e.team
  raise_if (not (payload_status e pending)) value_error
  ok projection

-- `event.project is not None and event.project != projection.project`
abbrev changed : Option String → String → Bool
changed none k = false
changed (some j) k = not (j == k)

abbrev pub illegal : TaskStatus → Option TaskStatus → Bool
illegal from none = false
illegal from (some to) = not (can_transition from to)

-- the agents after an event
unfoldable pub agents_after : EventEnvelope → List String → Result (List String)
agents_after e agents =
    if e.event_type == agent_assigned
    then elim e.agent [
      | none ↦ err value_error
      | some a ↦ ok (if contains agents a then agents else agents ++ a ∷ [])
    ]
    else ok agents

abbrev pub or_status : Option TaskStatus → TaskStatus → TaskStatus
or_status none s = s
or_status (some t) s = t

unfoldable pub apply : TaskProjection → EventEnvelope → Result TaskProjection
apply projection e = do
  raise_if (not (e.task_id == some projection.task_id)) value_error
  raise_if (changed e.project projection.project) value_error
  raise_if (changed e.team projection.team) value_error
  raise_if (precedes e.timestamp projection.updated_at) value_error
  raise_if (e.event_type == task_created) value_error
  status ← status_for e.event_type e
  raise_if (illegal projection.status status) value_error
  agents ← agents_after e projection.assigned_agents
  ok (record projection {
    status = or_status status projection.status;
    assigned_agents = agents;
    updated_at = e.timestamp;
    last_event_id = e.event_id;
    last_event_type = e.event_type;
    event_count = projection.event_count + 1;
  })

module _ (same : EventEnvelope → EventEnvelope → Bool) where
  -- the projection of an event that was seen before
  seen_again : TaskProjector → EventEnvelope → EventEnvelope → Result TaskProjection
  seen_again p previous e =
      if same previous e
      then elim p.projection [ none ↦ err value_error | some x ↦ ok x ]
      else err value_error

  -- the projection of a new event
  abbrev pub next_projection : Option TaskProjection → EventEnvelope → Result TaskProjection
  next_projection none e = create e
  next_projection (some x) e = apply x e

  -- the end of `consume`: a raise leaves the projector as it was
  unfoldable pub settle :
      TaskProjector → EventEnvelope → Result TaskProjection → Result TaskProjection × TaskProjector
  settle p e (err x) = (err x, p)
  settle p e (ok projection) = (
    ok projection,
    record { projection = some projection; seen_events = insert e.event_id e p.seen_events },
  )

  unfoldable pub consume : TaskProjector → EventEnvelope → Result TaskProjection × TaskProjector
  unfolding seen_again settle
  consume p e = elim (lookup e.event_id p.seen_events) [
    | some previous ↦ (seen_again p previous e, p)
    | none ↦ settle p e (next_projection p.projection e)
  ]

  unfoldable pub consume_all : TaskProjector → List EventEnvelope → Result TaskProjector
  consume_all p [] = ok p
  consume_all p (e ∷ es) =
      let (r, p') = consume p e in
      let rest = consume_all p' es in elim r [ err x ↦ err x | ok projection ↦ rest ]

  unfoldable pub replay_task : List EventEnvelope → Result TaskProjection
  unfolding consume_all
  replay_task events = do
    p ← consume_all new_projector events
    elim p.projection [ none ↦ err value_error | some x ↦ ok x ]
