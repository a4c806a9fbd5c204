-- ===== src/Examples/Storage.antt =====
-- The theorems on the store at concrete calls.
use ai_infrastructure_as_cod.Prelude.{
  ℕ, ℤ, Bool, true, false, String, Option, none, some, List, [], ◌∷◌, All, Table, lookup, ◌≡◌, ◌≢◌,
  ◌⊎◌, ◌↔◌, inl, inr, refl, arith, is_none, contains, HasKeys, no_rows, row, selected, unselected,
}
use ai_infrastructure_as_cod.Errors.{ok, err, record_not_found}
use ai_infrastructure_as_cod.Domain.Json.{Fields}
use ai_infrastructure_as_cod.Domain.Status.{TaskStatus, queued, running}
use ai_infrastructure_as_cod.Domain.Tasks.{Task, validate}
use ai_infrastructure_as_cod.Domain.Events.{EventEnvelope, task_created, task_queued, task_started}
use ai_infrastructure_as_cod.Storage.Store.{Store, empty_store}
use ai_infrastructure_as_cod.Storage.Tasks.{create_task, transition_task}
use ai_infrastructure_as_cod.Storage.Tasks.Idempotent.{transition_twice}
use ai_infrastructure_as_cod.Storage.Sound.{IsSound}
use ai_infrastructure_as_cod.Storage.Calls.{
  TaskCall, perform, perform_all, perform_atomic, perform_all-IsSound, empty-IsSound,
}
use ai_infrastructure_as_cod.Examples.Samples.{plain, Doc, errand, status_payload, event_of}

abbrev created_event : EventEnvelope
created_event = event_of "event-1" task_created 10 (status_payload "pending")

abbrev queued_event : EventEnvelope
queued_event = event_of "event-2" task_queued 20 (status_payload "queued")

abbrev calls : List TaskCall
calls =
    TaskCall.create (errand TaskStatus.pending) created_event
    ∷ TaskCall.transition "task-1" queued queued_event
    ∷ TaskCall.transition "task-2" running queued_event
    ∷ []

pending_validates : validate (errand TaskStatus.pending) ≡ ok (errand TaskStatus.pending)
unfolding validate
pending_validates = refl

perform_all-IsSound_example : IsSound plain (perform_all plain calls empty_store)
perform_all-IsSound_example =
    perform_all-IsSound plain calls empty_store (pending_validates, (tt, (tt, tt)))
      (empty-IsSound plain)

missing_raises :
    (perform plain (TaskCall.transition "task-2" running queued_event) empty_store).0
    ≡ err record_not_found
unfolding perform transition_task lookup
missing_raises = refl

perform_atomic_example :
    (perform plain (TaskCall.transition "task-2" running queued_event) empty_store).1 ≡ empty_store
perform_atomic_example =
    perform_atomic plain (TaskCall.transition "task-2" running queued_event) empty_store
      record_not_found missing_raises

-- the store after the creation of the task
abbrev one_task : Store Doc
one_task =
    perform_all plain (TaskCall.create (errand TaskStatus.pending) created_event ∷ []) empty_store

abbrev queued_errand : Task
queued_errand = errand queued

moves_to_queued : (transition_task plain "task-1" queued queued_event one_task).0 ≡ ok queued_errand
unfolding transition_task perform_all create_task perform
    ai_infrastructure_as_cod.Domain.Status.TaskStatus-discrete
    ai_infrastructure_as_cod.Storage.Tasks.announces
    ai_infrastructure_as_cod.Domain.Events.EventType-discrete
    ai_infrastructure_as_cod.Storage.Tasks.event_for_status
    ai_infrastructure_as_cod.Domain.Json.get_field
    ai_infrastructure_as_cod.Storage.Tasks.insert_task lookup
    ai_infrastructure_as_cod.Storage.Tasks.append_event_locked
    ai_infrastructure_as_cod.Prelude.insert validate
    ai_infrastructure_as_cod.Storage.Tasks.apply_transition
    ai_infrastructure_as_cod.Domain.Tasks.transition_task
    ai_infrastructure_as_cod.Domain.Status.can_transition
    ai_infrastructure_as_cod.Domain.Tasks.updated
moves_to_queued = refl

transition_twice_example :
    transition_task plain "task-1" queued queued_event
      (transition_task plain "task-1" queued queued_event one_task).1
    ≡ (ok queued_errand, (transition_task plain "task-1" queued queued_event one_task).1)
transition_twice_example =
    transition_twice plain "task-1" queued queued_event one_task queued_errand moves_to_queued
