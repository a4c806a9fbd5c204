-- ===== src/Observability/Projections/Logged.antt =====
-- What the store logs for a task, and when a projection agrees with a task.
use ai_infrastructure_as_cod.Prelude.{
  ◌+◌, ◌≤◌, true, false, String, some, List, [], ◌∷◌, ◌++◌, All, ◌≡◌, ◌≢◌, string_eq, option_eq,
  contains,
}
use ai_infrastructure_as_cod.Errors.{ok}
use ai_infrastructure_as_cod.Domain.Time.{Instant, aware}
use ai_infrastructure_as_cod.Domain.Status.{TaskStatus}
use ai_infrastructure_as_cod.Domain.Tasks.{Task, validate}
use ai_infrastructure_as_cod.Domain.Tasks
use ai_infrastructure_as_cod.Domain.Events.{event_type_eq, EventEnvelope}
use ai_infrastructure_as_cod.Storage.Tasks.{announces, announces_assignment}
use ai_infrastructure_as_cod.Observability.Projections.{TaskProjection}

-- What the store's `transition_task` and `assign_task` demand of an event that they log.
pub data Logged (t : Task) (e : EventEnvelope) (u : Task) : Type 0 where
  moved :
      (target : TaskStatus)
      → announces t target e ≡ true
      → Tasks.transition_task e.timestamp t target (some (aware e.timestamp)) ≡ ok u
      → Logged t e u
  assigned :
      (agent : String)
      → announces_assignment t agent e ≡ true
      → contains t.assigned_agents agent ≡ false
      → validate (record t { assigned_agents = t.assigned_agents ++ agent ∷ [] }) ≡ ok u
      → Logged t e u

-- A task's events in order, from one snapshot to another.
pub data LoggedAll : Task → List EventEnvelope → Task → Type 0 where
  done : {t : Task} → LoggedAll t [] t
  then :
      {t v : Task} {e : EventEnvelope} {es : List EventEnvelope} (u : Task)
      → Logged t e u
      → LoggedAll u es v
      → LoggedAll t (e ∷ es) v

-- Timestamps that never go back.
abbrev pub Ascending : Instant → List EventEnvelope → Type 0
Ascending at [] = Unit
Ascending at (e ∷ es) = (at.utc ≤ e.timestamp.utc) × Ascending e.timestamp es

-- Ids that are all different.
abbrev pub DistinctIds : List EventEnvelope → Type 0
DistinctIds [] = Unit
DistinctIds (e ∷ es) = All (λ (d : EventEnvelope). e.event_id ≢ d.event_id) es × DistinctIds es

pub record Agrees (x : TaskProjection) (t : Task) : Type 0 where
  pub task_id : x.task_id ≡ t.task_id
  pub project : x.project ≡ t.project
  pub team : x.team ≡ t.team
  pub status : x.status ≡ t.status
  pub agents : x.assigned_agents ≡ t.assigned_agents

-- What the projection becomes.
abbrev pub extended : TaskProjection → EventEnvelope → Task → TaskProjection
extended x e u = record x {
  status = u.status;
  assigned_agents = u.assigned_agents;
  updated_at = e.timestamp;
  last_event_id = e.event_id;
  last_event_type = e.event_type;
  event_count = x.event_count + 1;
}
