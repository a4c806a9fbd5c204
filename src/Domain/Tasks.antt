-- ===== src/Domain/Tasks.antt =====
-- `Task` and `transition_task` of src/macmini_ai_hub/domain/tasks.py. The patterns that pydantic
-- enforces on identifiers are not modelled: they do not change between a task and its successor.
pub mod Lifecycle
use ai_infrastructure_as_cod.Prelude.{
  ℕ, Bool, true, false, not, ◌&&◌, ◌||◌, String, Option, none, some, List, Eq, string_eq, contains,
  all_different, is_some, is_none, if◌then◌else◌, ◌∷◌, [],
}
use ai_infrastructure_as_cod.Errors.{
  Result, ok, err, ◌>>=◌, ◌>>◌, raise_if, value_error, validation_error, invalid_transition,
}
use ai_infrastructure_as_cod.Domain.Time.{Instant, Datetime, precedes, aware_time}
use ai_infrastructure_as_cod.Domain.Status.{
  TaskStatus, pending, planning, running, review, qa, blocked, status_eq, is_terminal,
  can_transition,
}

pub record Task : Type 0 where
  pub task_id : String
  pub source : String
  pub project : String
  pub team : String
  pub request : String
  pub status : TaskStatus
  pub assigned_agents : List String
  pub created_at : Instant
  pub started_at : Option Instant
  pub completed_at : Option Instant

-- t < created, for an optional t that is there
abbrev pub precedes? : Option Instant → Instant → Bool
precedes? none _ = false
precedes? (some t) u = precedes t u

-- completed < started, where both are there
abbrev pub disordered : Option Instant → Option Instant → Bool
disordered _ none = false
disordered none (some c) = false
disordered (some s) (some c) = precedes c s

unfoldable pub validate_unique_agents : List String → Result (Unit {0})
validate_unique_agents agents = raise_if (not (all_different agents)) validation_error

unfoldable pub validate_timestamps : Task → Result (Unit {0})
unfolding is_terminal
validate_timestamps t = do
  raise_if (precedes? t.started_at t.created_at) validation_error
  raise_if (precedes? t.completed_at t.created_at) validation_error
  raise_if (disordered t.started_at t.completed_at) validation_error
  raise_if (is_terminal t.status && is_none t.completed_at) validation_error
  raise_if (not (is_terminal t.status) && is_some t.completed_at) validation_error

-- `Task.model_validate`
unfoldable pub validate : Task → Result Task
unfolding validate_unique_agents validate_timestamps
validate t = do validate_unique_agents t.assigned_agents; validate_timestamps t; ok t

abbrev pub is_active : TaskStatus → Bool
is_active planning = true
is_active running = true
is_active review = true
is_active qa = true
is_active blocked = true
is_active _ = false

-- The fields that `transition_task` gives anew.
unfoldable pub updated : Task → TaskStatus → Instant → Task
unfolding is_terminal
updated t target at = record t {
  status = target;
  started_at = if is_active target && is_none t.started_at then some at else t.started_at;
  completed_at = if is_terminal target then some at else t.completed_at;
}

-- `at` is the argument of the call, `now` the time of the machine's clock.
unfoldable pub transition_task : Instant → Task → TaskStatus → Option Datetime → Result Task
unfolding aware_time
transition_task now t target at = do
  raise_if (not (can_transition t.status target)) invalid_transition
  time ← aware_time now at
  raise_if (precedes time t.created_at) value_error
  raise_if (disordered t.started_at (some time)) value_error
  validate (updated t target time)
