-- ===== src/Storage/Sound.antt =====
-- The consistency of the task and event tables, and the statements that keep it. The tables of
-- runs, artifacts, routes, requests and deliveries are not part of it.
pub mod Tasks
pub mod Creation
use ai_infrastructure_as_cod.Prelude.{
  ℕ, suc, ◌+◌, ◌≤◌, ◌<◌, Bool, true, false, not, String, Option, none, some, List, [], ◌∷◌, Table,
  lookup, insert, ◌≡◌, ◌≢◌, ◌⊎◌, inl, inr, Option-cases, ◌∙◌, ap, sym, refl, arith, eq_iff, ◌==◌,
  nat_eq, string_eq, lookup-insert, lookup-insert_self, lookup-insert_cases, lookup-insert_ne_none,
  table_laws, beq_refl, if◌then◌else◌, is_some, is_none, Bool-cases,
}
use ai_infrastructure_as_cod.Errors.{Error, Result, ok, err}
use ai_infrastructure_as_cod.Domain.Time.{Instant}
use ai_infrastructure_as_cod.Domain.Tasks.{Task, validate}
use ai_infrastructure_as_cod.Domain.Events.{EventEnvelope}
use ai_infrastructure_as_cod.Storage.Pydantic.{Pydantic}
use ai_infrastructure_as_cod.Storage.Transaction.{Tx, rollback}
use ai_infrastructure_as_cod.Storage.Store.{
  TaskRow, EventRow, Store, transaction, update_task, dangling,
}
use ai_infrastructure_as_cod.Storage.Tasks.{
  new_row, next_row, insert_event, write_task, append_event_locked, insert_task, insert_route,
}
use ai_infrastructure_as_cod.Storage.Tasks.Written.{event_row, recorded, Stored, Written}

module _ (p : Pydantic) where
  open p use {Doc, doc_eq, dump_event, dump_task, load_task, load-dump_task}

  -- The columns of a row agree with the task that its text holds, and that task has the row's key.
  pub record Fits (k : String) (row : TaskRow Doc) : Type 0 where
    pub task : Task
    pub reads : load_task row.task_json ≡ some task
    pub keyed : task.task_id ≡ k
    pub status : row.status ≡ task.status
    pub project : row.project ≡ task.project
    pub team : row.team ≡ task.team
    pub versioned : 1 ≤ row.version

  -- The tables of tasks and events are consistent.
  pub record IsSound (s : Store Doc) : Type 0 where
    pub rows : (k : String) (row : TaskRow Doc) → lookup k s.tasks ≡ some row → Fits k row
    -- sequence numbers are given out once
    pub counted :
        (k : String) (e : EventRow Doc) → lookup k s.events ≡ some e → e.sequence ≤ s.last_sequence
    pub distinct :
        (j k : String) (d e : EventRow Doc)
        → lookup j s.events ≡ some d
        → lookup k s.events ≡ some e
        → d.sequence ≡ e.sequence
        → j ≡ k
    -- an event names a task that is there
    pub linked :
        (k t : String) (e : EventRow Doc)
        → lookup k s.events ≡ some e
        → e.task_id ≡ some t
        → lookup t s.tasks ≢ none

  pub insert_row-IsSound :
      (s : Store Doc) (k : String) (row : TaskRow Doc)
      → Fits k row
      → IsSound s
      → IsSound (record s { tasks = insert k row s.tasks })
  insert_row-IsSound s k row f h = record {
    rows = λ j r q. elim (lookup-insert_cases k j row r s.tasks q) [
      | inl (e, w) ↦ rw (e, w) f
      | inr old ↦ h.rows j r old
    ];
    counted = h.counted;
    distinct = h.distinct;
    linked = λ j t e q l. lookup-insert_ne_none k t row s.tasks (h.linked j t e q l);
  }

  abbrev pub with_event : Store Doc → EventEnvelope → Store Doc
  with_event s event = record s {
    events = insert event.event_id (event_row p (s.last_sequence + 1) event) s.events;
    last_sequence = s.last_sequence + 1;
  }

  pub with_event-IsSound :
      (s : Store Doc) (event : EventEnvelope)
      → dangling event.task_id s ≡ false
      → IsSound s
      → IsSound (with_event s event)
  with_event-IsSound s event d h = record {
    rows = h.rows;
    counted = λ k e q. elim (cases k e q) [
      | inl (i, w) ↦ omega (arith, ap (λ (r : EventRow Doc). r.sequence) w)
      | inr old ↦ omega (arith, h.counted k e old)
    ];
    distinct = λ j k a b q r same. elim (cases j a q) [
      | inl (i, w) ↦ elim (cases k b r) [
        | inl (i', w') ↦ i ∙ sym i'
        | inr old' ↦
            absurd (omega (arith, ap (λ (r : EventRow Doc). r.sequence) w, h.counted k b old'))
      ]
      | inr old ↦ elim (cases k b r) [
        | inl (i', w') ↦
            absurd (omega (arith, ap (λ (r : EventRow Doc). r.sequence) w', h.counted j a old))
        | inr old' ↦ h.distinct j k a b old old' same
      ]
    ];
    linked = λ k t e q l m. elim (cases k e q) [
      | inl (i, w) ↦ names_task t (sym (ap (λ (r : EventRow Doc). r.task_id) w) ∙ l) m
      | inr old ↦ h.linked k t e old l m
    ];
  }
    where
      cases :
          (k : String) (e : EventRow Doc)
          → lookup k (with_event s event).events ≡ some e
          → ((k ≡ event.event_id) × (e ≡ event_row p (s.last_sequence + 1) event))
            ⊎ (lookup k s.events ≡ some e)
      cases k e q =
          lookup-insert_cases event.event_id k (event_row p (s.last_sequence + 1) event) e s.events
            q

      names_task : (t : String) → event.task_id ≡ some t → lookup t s.tasks ≢ none
      names_task t l m = ground arith

  pub append-IsSound :
      (event : EventEnvelope) (s : Store Doc)
      → IsSound s
      → IsSound (append_event_locked p event s).1
  append-IsSound event s h = elim (Option-cases (lookup event.event_id s.events)) [
    | inr (row, e) ↦ rw (kept row e) h
    | inl e ↦ elim (Bool-cases (dangling event.task_id s)) [
      | inl d ↦ rw (refused e d) h
      | inr d ↦ rw (added e d) (with_event-IsSound s event d h)
    ]
  ]
    where
      kept :
          (row : EventRow Doc)
          → lookup event.event_id s.events ≡ some row
          → (append_event_locked p event s).1 ≡ s
      kept row e = unfold append_event_locked in ground arith

      refused :
          lookup event.event_id s.events ≡ none
          → dangling event.task_id s ≡ true
          → (append_event_locked p event s).1 ≡ s
      refused e d = unfold append_event_locked in ground arith

      added :
          lookup event.event_id s.events ≡ none
          → dangling event.task_id s ≡ false
          → (append_event_locked p event s).1 ≡ with_event s event
      added e d = unfold append_event_locked in ground arith
