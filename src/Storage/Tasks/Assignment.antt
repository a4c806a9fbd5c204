-- ===== src/Storage/Tasks/Assignment.antt =====
-- What an assignment of an agent does, on every branch.
use ai_infrastructure_as_cod.Prelude.{
  true, false, String, none, some, [], ◌∷◌, ◌++◌, lookup, ◌≡◌, ◌⊎◌, inl, inr, Option-cases, arith,
  contains, nat_eq, string_eq,
}
use ai_infrastructure_as_cod.Errors.{Error, ok, err}
use ai_infrastructure_as_cod.Domain.Tasks.{Task, validate}
use ai_infrastructure_as_cod.Domain.Events.{EventEnvelope}
use ai_infrastructure_as_cod.Storage.Pydantic.{Pydantic}
use ai_infrastructure_as_cod.Storage.Store.{TaskRow, Store}
use ai_infrastructure_as_cod.Storage.Tasks.{
  next_row, apply_assignment, assign_task, announces_assignment,
}
use ai_infrastructure_as_cod.Storage.Tasks.Written.{recorded, Stored, Written}

module _ (p : Pydantic) where
  open p use {Doc, doc_eq, dump_event, load_task}

  abbrev pub with_agent : Task → String → Task
  with_agent t agent = record t { assigned_agents = t.assigned_agents ++ agent ∷ [] }

  pub apply_assignment_effect :
      (task_id : String) (row : TaskRow Doc) (t : Task) (agent : String) (event : EventEnvelope)
      (s : Store Doc) (u : Task)
      → lookup task_id s.tasks ≡ some row
      → lookup event.event_id s.events ≡ none
      → (apply_assignment p task_id row t agent event s).0 ≡ ok u
      → (contains t.assigned_agents agent ≡ false)
        × (validate (with_agent t agent) ≡ ok u)
        × ((apply_assignment p task_id row t agent event s).1
            ≡ recorded p s task_id (next_row p u event.timestamp row) event)
  unfolding apply_assignment
  apply_assignment_effect task_id row t agent event s u r f h = ground arith

  -- A raise leaves every table as it was.
  pub assign-err :
      (task_id agent : String) (event : EventEnvelope) (s : Store Doc) (e : Error)
      → (assign_task p task_id agent event s).0 ≡ err e
      → (assign_task p task_id agent event s).1 ≡ s
  unfolding assign_task
  assign-err task_id agent event s e h = ground arith

  pub assign_fresh :
      (task_id agent : String) (event : EventEnvelope) (s : Store Doc) (row : TaskRow Doc)
      (t u : Task)
      → Stored p s task_id row t
      → lookup event.event_id s.events ≡ none
      → (assign_task p task_id agent event s).0 ≡ ok u
      → (announces_assignment t agent event ≡ true)
        × (contains t.assigned_agents agent ≡ false)
        × (validate (with_agent t agent) ≡ ok u)
        × ((assign_task p task_id agent event s).1
            ≡ recorded p s task_id (next_row p u event.timestamp row) event)
  unfolding assign_task
  assign_fresh task_id agent event s row t u st f h =
      ground (arith, st.0, st.1, apply_assignment_effect task_id row t agent event s u st.0 f)

  abbrev pub Assigns : String → EventEnvelope → Task → Task → Type 0
  Assigns agent event t u =
      (announces_assignment t agent event ≡ true)
      × (contains t.assigned_agents agent ≡ false)
      × (validate (with_agent t agent) ≡ ok u)

  -- A call that returned either changed nothing, or wrote the task and its event.
  pub assign_outcome :
      (task_id agent : String) (event : EventEnvelope) (s : Store Doc) (u : Task)
      → (assign_task p task_id agent event s).0 ≡ ok u
      → ((assign_task p task_id agent event s).1 ≡ s)
        ⊎ Written p (Assigns agent event) task_id event s (assign_task p task_id agent event s).1 u
  assign_outcome task_id agent event s u h = elim (Option-cases (lookup task_id s.tasks)) [
    | inl e ↦ inl (unfold assign_task in ground arith)
    | inr (row, e) ↦ elim (Option-cases (load_task row.task_json)) [
      | inl l ↦ inl (unfold assign_task in ground arith)
      | inr (t, l) ↦ elim (Option-cases (lookup event.event_id s.events)) [
        | inr (seen, f) ↦ inl (unfold assign_task in ground arith)
        | inl f ↦
            let (a, c, d, w) = assign_fresh task_id agent event s row t u (e, l) f h in
            inr (record {
              row = row;
              before = t;
              stored = (e, l);
              fresh = f;
              how = (a, c, d);
              after = w;
            })
      ]
    ]
  ]
