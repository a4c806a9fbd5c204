-- ===== src/Storage/Tasks/Idempotent.antt =====
-- A transition that is delivered twice.
use ai_infrastructure_as_cod.Prelude.{
  true, false, String, some, lookup, ◌≡◌, inl, inr, refl, sym, ◌∙◌, arith, lookup-insert_self,
  string_eq, option_eq, ◌+◌,
}
use ai_infrastructure_as_cod.Errors.{Result, ok}
use ai_infrastructure_as_cod.Domain.Time.{aware}
use ai_infrastructure_as_cod.Domain.Status.{TaskStatus}
use ai_infrastructure_as_cod.Domain.Tasks.{Task}
use ai_infrastructure_as_cod.Domain.Tasks.Lifecycle.{
  IsValid-validate, transition-IsValid, transition-Keeps,
}
use ai_infrastructure_as_cod.Domain.Events.{EventEnvelope}
use ai_infrastructure_as_cod.Storage.Pydantic.{Pydantic}
use ai_infrastructure_as_cod.Storage.Store.{TaskRow, EventRow, Store}
use ai_infrastructure_as_cod.Storage.Tasks.{announces, transition_task, next_row}
use ai_infrastructure_as_cod.Storage.Tasks.Written.{event_row, recorded, Stored, Written}
use ai_infrastructure_as_cod.Storage.Tasks.Transition.{
  Transitions, transition_outcome, transition_replay,
}

module _ (p : Pydantic) where
  open p use {Doc, doc_eq, dump_event, dump_task, load_task, load-dump_task}

  announces_kept :
      (t u : Task) (target : TaskStatus) (e : EventEnvelope)
      → (u.task_id ≡ t.task_id) × (u.project ≡ t.project) × (u.team ≡ t.team)
      → announces t target e ≡ announces u target e
  unfolding announces
  announces_kept t u target e same = rw (same.0, same.1, same.2)

  open_of_ok :
      (k : String) (target : TaskStatus) (event : EventEnvelope) (s : Store Doc) (u : Task)
      → (transition_task p k target event s).0 ≡ ok u
      → s.closed ≡ false
  unfolding transition_task
  open_of_ok k target event s u h = ground arith

  -- what the event table answers to the same event
  seen_again :
      (k : String) (target : TaskStatus) (event : EventEnvelope) (s : Store Doc) (u : Task)
      (row : TaskRow Doc) (n : EventRow Doc)
      → s.closed ≡ false
      → Stored p s k row u
      → announces u target event ≡ true
      → lookup event.event_id s.events ≡ some n
      → n.envelope_json ≡ dump_event event
      → transition_task p k target event s ≡ (ok u, s)
  seen_again k target event s u row n o st a l e =
      transition_replay p k target event s row u n o st a l
      ∙ rw ((doc_eq.beq_iff n.envelope_json (dump_event event)).1 e)

  Written-again :
      (k : String) (target : TaskStatus) (event : EventEnvelope) (s s' : Store Doc) (u : Task)
      → s.closed ≡ false
      → Written p (Transitions p target event) k event s s' u
      → transition_task p k target event s' ≡ (ok u, s')
  Written-again k target event s s' u o w =
      let (a, d) = w.how in
      let i = (transition-Keeps event.timestamp w.before target event.timestamp u d).identity in
      let row = next_row p u event.timestamp w.row in
      let valid =
        IsValid-validate u
          (transition-IsValid event.timestamp w.before target (some (aware event.timestamp)) u d) in
      rw (w.after) (
        seen_again k target event (recorded p s k row event) u row
          (event_row p (s.last_sequence + 1) event) o
          (lookup-insert_self k row s.tasks, unfold next_row in load-dump_task u valid)
          (sym (announces_kept w.before u target event (i.0, i.2, i.3)) ∙ a)
          (lookup-insert_self event.event_id (event_row p (s.last_sequence + 1) event) s.events)
          refl)

  -- A transition that returned can be delivered again with the same event: it returns the same
  -- task and changes nothing. So a retry neither moves the task nor logs the event twice.
  pub transition_twice :
      (k : String) (target : TaskStatus) (event : EventEnvelope) (s : Store Doc) (u : Task)
      → (transition_task p k target event s).0 ≡ ok u
      → transition_task p k target event (transition_task p k target event s).1
        ≡ (ok u, (transition_task p k target event s).1)
  transition_twice k target event s u h = elim (transition_outcome p k target event s u h) [
    | inl same ↦ rw same (pair (transition_task p k target event s) h same)
    | inr w ↦
        Written-again k target event s (transition_task p k target event s).1 u
          (open_of_ok k target event s u h) w
  ]
    where
      pair : (x : Result Task × Store Doc) → x.0 ≡ ok u → x.1 ≡ s → x ≡ (ok u, s)
      pair x a b = cc (a, b)
