-- ===== src/Examples/Domain.antt =====
-- The theorems on statuses, tasks, payloads and envelopes at concrete inputs.
use ai_infrastructure_as_cod.Prelude.{true, none, some, [], ◌≡◌, ◌≢◌, ◌↔◌, refl}
use ai_infrastructure_as_cod.Errors.{ok}
use ai_infrastructure_as_cod.Domain.Time.{aware}
use ai_infrastructure_as_cod.Domain.Json.{find_in_fields}
use ai_infrastructure_as_cod.Domain.Json.Search.{IsCleanFields, find_fields_iff}
use ai_infrastructure_as_cod.Domain.Status.{
  TaskStatus, pending, queued, running, blocked, completed, is_terminal, can_transition,
}
use ai_infrastructure_as_cod.Domain.Status.Graph.{Reaches, terminal_iff, pending-Reaches}
use ai_infrastructure_as_cod.Domain.Tasks.{validate, updated, transition_task}
use ai_infrastructure_as_cod.Domain.Tasks.Lifecycle.{
  IsValid, IsAllowed, Keeps, validate-IsValid, transition_iff, transition-IsValid, transition-Keeps,
}
use ai_infrastructure_as_cod.Domain.Events.{
  EventEnvelope, task_queued, is_forbidden_key, validate_context,
}
use ai_infrastructure_as_cod.Domain.Events.Context.{Names, validate_context_iff}
use ai_infrastructure_as_cod.Examples.Samples.{at, errand, status_payload, event_of}

terminal_iff_example :
    (is_terminal completed ≡ true) ↔ ((t : TaskStatus) → Reaches completed t → completed ≡ t)
terminal_iff_example = terminal_iff completed

pending-Reaches_example : Reaches pending blocked
pending-Reaches_example = pending-Reaches blocked

running_completes : can_transition running completed ≡ true
unfolding can_transition
running_completes = refl

errand_validates : validate (errand queued) ≡ ok (errand queued)
unfolding validate
errand_validates = refl

errand-IsValid : IsValid (errand queued)
errand-IsValid = validate-IsValid (errand queued) errand_validates

errand_starts :
    transition_task (at 99) (errand queued) running (some (aware (at 20)))
    ≡ ok (updated (errand queued) running (at 20))
unfolding transition_task can_transition validate updated
errand_starts = refl

transition_iff_example :
    (transition_task (at 99) (errand queued) running (some (aware (at 20)))
      ≡ ok (updated (errand queued) running (at 20)))
    ↔ (IsAllowed (errand queued) running (at 20)
        × (updated (errand queued) running (at 20) ≡ updated (errand queued) running (at 20))
        × IsValid (updated (errand queued) running (at 20)))
transition_iff_example =
    transition_iff (at 99) (errand queued) running (at 20) (updated (errand queued) running (at 20))
      errand-IsValid

transition-IsValid_example : IsValid (updated (errand queued) running (at 20))
transition-IsValid_example =
    transition-IsValid (at 99) (errand queued) running (some (aware (at 20)))
      (updated (errand queued) running (at 20)) errand_starts

transition-Keeps_example : Keeps (errand queued) (updated (errand queued) running (at 20)) (at 20)
transition-Keeps_example =
    transition-Keeps (at 99) (errand queued) running (at 20)
      (updated (errand queued) running (at 20)) errand_starts

find_fields_iff_example :
    (find_in_fields is_forbidden_key (status_payload "queued") [] ≡ none)
    ↔ IsCleanFields is_forbidden_key (status_payload "queued")
find_fields_iff_example = find_fields_iff is_forbidden_key (status_payload "queued") []

abbrev queued_event : EventEnvelope
queued_event = event_of "event-1" task_queued 20 (status_payload "queued")

validate_context_iff_example : (validate_context queued_event ≡ ok queued_event) ↔ (
    Names queued_event.event_type queued_event
    × (queued_event.causation_id ≢ some queued_event.event_id)
    × IsCleanFields is_forbidden_key queued_event.payload)
validate_context_iff_example = validate_context_iff queued_event
