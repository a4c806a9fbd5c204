-- ===== src/Examples/Projections.antt =====
-- The theorems on the task projection at a short log.
use ai_infrastructure_as_cod.Prelude.{
  ℕ, Bool, true, false, String, Option, none, some, List, [], ◌∷◌, All, lookup, lookup-nil, ◌≡◌,
  ◌≢◌, refl, arith, Eq, Discrete→Eq, length, eq_iff,
}
use ai_infrastructure_as_cod.Errors.{ok}
use ai_infrastructure_as_cod.Domain.Time.{aware}
use ai_infrastructure_as_cod.Domain.Status.{pending, queued}
use ai_infrastructure_as_cod.Domain.Status.Graph.{Reaches}
use ai_infrastructure_as_cod.Domain.Tasks.{Task, transition_task}
use ai_infrastructure_as_cod.Domain.Events.{EventEnvelope, task_created, task_queued}
use ai_infrastructure_as_cod.Storage.Tasks.{announces}
use ai_infrastructure_as_cod.Observability.Projections.{
  TaskProjection, TaskProjector, new_projector, consume, replay_task,
}
use ai_infrastructure_as_cod.Observability.Projections.Replay.{replay-Reaches, consume_twice}
use ai_infrastructure_as_cod.Observability.Projections.Logged.{Logged, moved, done, then, Agrees}
use ai_infrastructure_as_cod.Observability.Projections.History.{replay-history}
use ai_infrastructure_as_cod.Examples.Samples.{
  of_event, Doc-discrete, at, errand, status_payload, event_of,
}

-- the equality of two envelopes
abbrev same : EventEnvelope → EventEnvelope → Bool
same d e = (Discrete→Eq Doc-discrete).beq (of_event d) (of_event e)

abbrev created_event : EventEnvelope
created_event = event_of "event-1" task_created 10 (status_payload "pending")

abbrev queued_event : EventEnvelope
queued_event = event_of "event-2" task_queued 20 (status_payload "queued")

abbrev projected : TaskProjection
projected = record {
  task_id = "task-1";
  project = "hub";
  team = "platform";
  status = queued;
  assigned_agents = [];
  created_at = at 10;
  updated_at = at 20;
  last_event_id = "event-2";
  last_event_type = task_queued;
  event_count = 2;
}

replayed : replay_task same (created_event ∷ queued_event ∷ []) ≡ ok projected
unfolding replay_task consume lookup ai_infrastructure_as_cod.Observability.Projections.create
    ai_infrastructure_as_cod.Domain.Events.EventType-discrete
    ai_infrastructure_as_cod.Domain.Json.get_field ai_infrastructure_as_cod.Prelude.insert
    ai_infrastructure_as_cod.Observability.Projections.apply
    ai_infrastructure_as_cod.Observability.Projections.status_for
    ai_infrastructure_as_cod.Domain.Status.can_transition
    ai_infrastructure_as_cod.Observability.Projections.agents_after
replayed = refl

replay-Reaches_example : Reaches pending queued
replay-Reaches_example = replay-Reaches same (created_event ∷ queued_event ∷ []) projected replayed

abbrev first : TaskProjection
first = record projected {
  status = pending;
  updated_at = at 10;
  last_event_id = "event-1";
  last_event_type = task_created;
  event_count = 1;
}

consumed : (consume same new_projector created_event).0 ≡ ok first
unfolding consume lookup ai_infrastructure_as_cod.Observability.Projections.create
    ai_infrastructure_as_cod.Domain.Events.EventType-discrete
    ai_infrastructure_as_cod.Domain.Json.get_field
consumed = refl

same_itself : same created_event created_event ≡ true
same_itself =
    ((Discrete→Eq Doc-discrete).beq_iff (of_event created_event) (of_event created_event)).1 refl

consume_twice_example :
    consume same (consume same new_projector created_event).1 created_event
    ≡ (ok first, (consume same new_projector created_event).1)
consume_twice_example =
    consume_twice same new_projector created_event first same_itself (lookup-nil "event-1") consumed

announced : announces (errand pending) pending created_event ≡ true
unfolding announces ai_infrastructure_as_cod.Domain.Events.EventType-discrete
    ai_infrastructure_as_cod.Storage.Tasks.event_for_status
    ai_infrastructure_as_cod.Domain.Json.get_field
announced = refl

announced_queued : announces (errand pending) queued queued_event ≡ true
unfolding announces ai_infrastructure_as_cod.Domain.Events.EventType-discrete
    ai_infrastructure_as_cod.Storage.Tasks.event_for_status
    ai_infrastructure_as_cod.Domain.Json.get_field
announced_queued = refl

queued_next :
    transition_task (at 20) (errand pending) queued (some (aware (at 20))) ≡ ok (errand queued)
unfolding transition_task ai_infrastructure_as_cod.Domain.Status.can_transition
    ai_infrastructure_as_cod.Domain.Tasks.validate ai_infrastructure_as_cod.Domain.Tasks.updated
queued_next = refl

queued-Logged : Logged (errand pending) queued_event (errand queued)
queued-Logged = moved queued announced_queued queued_next

distinct : created_event.event_id ≢ queued_event.event_id
distinct q = cc (q, (eq_iff "event-1" "event-2").1 q)

replay-history_example :
    (y : TaskProjection) × (replay_task same (created_event ∷ queued_event ∷ []) ≡ ok y)
    × Agrees y (errand queued)
    × (y.event_count ≡ length (created_event ∷ queued_event ∷ []))
replay-history_example =
    replay-history same (errand pending) (errand queued) created_event (queued_event ∷ []) refl refl
      announced ((distinct, tt), (tt, tt)) (omega arith, tt)
      (then (errand queued) queued-Logged done)
