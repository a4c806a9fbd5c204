-- ===== src/Storage/Tasks/Transition.antt =====
-- What a task transition in the store does, on every branch.
use ai_infrastructure_as_cod.Prelude.{
  true, false, String, none, some, lookup, ◌≡◌, ◌⊎◌, inl, inr, Option-cases, arith, nat_eq,
  string_eq, if◌then◌else◌,
}
use ai_infrastructure_as_cod.Errors.{Error, ok, err, idempotency_conflict}
use ai_infrastructure_as_cod.Domain.Time.{aware}
use ai_infrastructure_as_cod.Domain.Status.{TaskStatus}
use ai_infrastructure_as_cod.Domain.Tasks.{Task}
use ai_infrastructure_as_cod.Domain.Tasks
use ai_infrastructure_as_cod.Domain.Events.{EventEnvelope}
use ai_infrastructure_as_cod.Storage.Pydantic.{Pydantic}
use ai_infrastructure_as_cod.Storage.Store.{TaskRow, EventRow, Store}
use ai_infrastructure_as_cod.Storage.Tasks.{announces, next_row, apply_transition, transition_task}
use ai_infrastructure_as_cod.Storage.Tasks.Written.{recorded, Stored, Written}

module _ (p : Pydantic) where
  open p use {Doc, doc_eq, dump_event, load_task}

  pub apply_transition_effect :
      (task_id : String) (row : TaskRow Doc) (t : Task) (target : TaskStatus)
      (event : EventEnvelope) (s : Store Doc) (u : Task)
      → lookup task_id s.tasks ≡ some row
      → lookup event.event_id s.events ≡ none
      → (apply_transition p task_id row t target event s).0 ≡ ok u
      → (Tasks.transition_task event.timestamp t target (some (aware event.timestamp)) ≡ ok u)
        × ((apply_transition p task_id row t target event s).1
            ≡ recorded p s task_id (next_row p u event.timestamp row) event)
  unfolding apply_transition
  apply_transition_effect task_id row t target event s u r f h = ground arith

  -- A raise, whatever its cause, leaves every table as it was.
  pub transition-err :
      (task_id : String) (target : TaskStatus) (event : EventEnvelope) (s : Store Doc) (e : Error)
      → (transition_task p task_id target event s).0 ≡ err e
      → (transition_task p task_id target event s).1 ≡ s
  unfolding transition_task
  transition-err task_id target event s e h = ground arith

  pub transition_replay :
      (task_id : String) (target : TaskStatus) (event : EventEnvelope) (s : Store Doc)
      (row : TaskRow Doc) (t : Task) (seen : EventRow Doc)
      → s.closed ≡ false
      → Stored p s task_id row t
      → announces t target event ≡ true
      → lookup event.event_id s.events ≡ some seen
      → transition_task p task_id target event s ≡ (
          if doc_eq.beq seen.envelope_json (dump_event event)
          then (ok t, s)
          else (err idempotency_conflict, s))
  unfolding transition_task
  transition_replay task_id target event s row t seen o st a f = ground (arith, st.0, st.1)

  pub transition_fresh :
      (task_id : String) (target : TaskStatus) (event : EventEnvelope) (s : Store Doc)
      (row : TaskRow Doc) (t u : Task)
      → Stored p s task_id row t
      → lookup event.event_id s.events ≡ none
      → (transition_task p task_id target event s).0 ≡ ok u
      → (announces t target event ≡ true)
        × (Tasks.transition_task event.timestamp t target (some (aware event.timestamp)) ≡ ok u)
        × ((transition_task p task_id target event s).1
            ≡ recorded p s task_id (next_row p u event.timestamp row) event)
  unfolding transition_task
  transition_fresh task_id target event s row t u st f h =
      ground (arith, st.0, st.1, apply_transition_effect task_id row t target event s u st.0 f)

  abbrev pub Transitions : TaskStatus → EventEnvelope → Task → Task → Type 0
  Transitions target event t u =
      (announces t target event ≡ true)
      × (Tasks.transition_task event.timestamp t target (some (aware event.timestamp)) ≡ ok u)

  -- A call that returned either changed nothing, or wrote the task and its event.
  pub transition_outcome :
      (task_id : String) (target : TaskStatus) (event : EventEnvelope) (s : Store Doc) (u : Task)
      → (transition_task p task_id target event s).0 ≡ ok u
      → ((transition_task p task_id target event s).1 ≡ s)
        ⊎ Written p
            (Transitions target event)
            task_id
            event
            s
            (transition_task p task_id target event s).1
            u
  transition_outcome task_id target event s u h = elim (Option-cases (lookup task_id s.tasks)) [
    | inl e ↦ inl (unfold transition_task in ground arith)
    | inr (row, e) ↦ elim (Option-cases (load_task row.task_json)) [
      | inl l ↦ inl (unfold transition_task in ground arith)
      | inr (t, l) ↦ elim (Option-cases (lookup event.event_id s.events)) [
        | inr (seen, f) ↦ inl (unfold transition_task in ground arith)
        | inl f ↦
            let (a, d, w) = transition_fresh task_id target event s row t u (e, l) f h in
            inr (record {
              row = row;
              before = t;
              stored = (e, l);
              fresh = f;
              how = (a, d);
              after = w;
            })
      ]
    ]
  ]
