-- ===== src/Storage/Sound/Tasks.antt =====
-- The task operations keep the tables consistent.
use ai_infrastructure_as_cod.Prelude.{
  true, String, some, insert, ◌≡◌, inl, inr, ◌∙◌, ap, sym, refl, arith, lookup-insert_self,
  option_beq_iff, string_eq, nat_eq,
}
use ai_infrastructure_as_cod.Errors.{ok, Result-cases}
use ai_infrastructure_as_cod.Domain.Time.{Instant, aware}
use ai_infrastructure_as_cod.Domain.Status.{TaskStatus}
use ai_infrastructure_as_cod.Domain.Tasks.{Task, validate}
use ai_infrastructure_as_cod.Domain.Tasks.Lifecycle.{
  validate-eq, IsValid-validate, transition-IsValid, transition-Keeps,
}
use ai_infrastructure_as_cod.Domain.Events.{EventEnvelope}
use ai_infrastructure_as_cod.Storage.Pydantic.{Pydantic}
use ai_infrastructure_as_cod.Storage.Store.{TaskRow, Store}
use ai_infrastructure_as_cod.Storage.Tasks.{
  announces, announces_assignment, new_row, next_row, transition_task, assign_task,
}
use ai_infrastructure_as_cod.Storage.Tasks.Written.{recorded, Stored, Written}
use ai_infrastructure_as_cod.Storage.Tasks.Transition.{
  Transitions, transition_outcome, transition-err,
}
use ai_infrastructure_as_cod.Storage.Tasks.Assignment.{
  Assigns, assign_outcome, assign-err, with_agent,
}
use ai_infrastructure_as_cod.Storage.Sound.{Fits, IsSound, insert_row-IsSound, with_event-IsSound}

announces-task_id :
    (t : Task) (target : TaskStatus) (e : EventEnvelope)
    → announces t target e ≡ true
    → e.task_id ≡ some t.task_id
unfolding announces
announces-task_id t target e h = (option_beq_iff e.task_id (some t.task_id)).0 (ground arith)

announces_assignment-task_id :
    (t : Task) (agent : String) (e : EventEnvelope)
    → announces_assignment t agent e ≡ true
    → e.task_id ≡ some t.task_id
unfolding announces_assignment
announces_assignment-task_id t agent e h =
    (option_beq_iff e.task_id (some t.task_id)).0 (ground arith)

module _ (p : Pydantic) where
  open p use {Doc, doc_eq, dump_event, dump_task, load_task, load-dump_task}

  pub next_row-Fits :
      (u : Task) (at : Instant) (k : String) (row : TaskRow Doc)
      → validate u ≡ ok u
      → u.task_id ≡ k
      → row.project ≡ u.project
      → row.team ≡ u.team
      → Fits p k (next_row p u at row)
  unfolding next_row
  next_row-Fits u at k row v e pr te = record {
    task = u;
    reads = load-dump_task u v;
    keyed = e;
    status = refl;
    project = pr;
    team = te;
    versioned = omega arith;
  }

  pub new_row-Fits :
      (t : Task) (event : EventEnvelope) → validate t ≡ ok t → Fits p t.task_id (new_row p t event)
  unfolding new_row
  new_row-Fits t event v = record {
    task = t;
    reads = load-dump_task t v;
    keyed = refl;
    status = refl;
    project = refl;
    team = refl;
    versioned = omega arith;
  }

  recorded-IsSound :
      (s : Store Doc) (k : String) (row : TaskRow Doc) (event : EventEnvelope)
      → Fits p k row
      → event.task_id ≡ some k
      → IsSound p s
      → IsSound p (recorded p s k row event)
  recorded-IsSound s k row event f e h =
      with_event-IsSound p (record s { tasks = insert k row s.tasks }) event
        (rw e (ground (arith, lookup-insert_self k row s.tasks))) (insert_row-IsSound p s k row f h)

  same_task :
      (s : Store Doc) (k : String) (row : TaskRow Doc) (t : Task)
      → Stored p s k row t
      → IsSound p s
      → (t.task_id ≡ k) × (row.project ≡ t.project) × (row.team ≡ t.team)
  same_task s k row t st h =
      let f = h.rows k row st.0 in
      let e : f.task ≡ t = cc (f.reads, st.1) in
      (
        sym (ap (λ (x : Task). x.task_id) e) ∙ f.keyed,
        f.project ∙ ap (λ (x : Task). x.project) e,
        f.team ∙ ap (λ (x : Task). x.team) e,
      )

  -- A write that keeps the identity of the task keeps the tables consistent.
  Written-IsSound :
      (How : Task → Task → Type 0) (k : String) (event : EventEnvelope) (s s' : Store Doc)
      (u : Task)
      → IsSound p s
      → (w : Written p How k event s s' u) → validate u ≡ ok u
      → (u.task_id ≡ w.before.task_id) × (u.project ≡ w.before.project) × (u.team ≡ w.before.team)
      → event.task_id ≡ some w.before.task_id
      → IsSound p s'
  Written-IsSound How k event s s' u h w v same e =
      let (key, pr, te) = same_task s k w.row w.before w.stored h in
      rw (w.after) (
        recorded-IsSound s k (next_row p u event.timestamp w.row) event
          (next_row-Fits u event.timestamp k w.row v (same.0 ∙ key) (pr ∙ sym same.1)
            (te ∙ sym same.2))
          (e ∙ ap some key) h)

  pub transition-IsSound :
      (task_id : String) (target : TaskStatus) (event : EventEnvelope) (s : Store Doc)
      → IsSound p s
      → IsSound p (transition_task p task_id target event s).1
  transition-IsSound task_id target event s h =
      elim (Result-cases (transition_task p task_id target event s).0) [
        | inr (e, q) ↦ rw (transition-err p task_id target event s e q) h
        | inl (u, q) ↦ elim (transition_outcome p task_id target event s u q) [
          | inl same ↦ rw same h
          | inr w ↦
              let (a, d) = w.how in
              let i =
                (transition-Keeps event.timestamp w.before target event.timestamp u d).identity in
              Written-IsSound (Transitions p target event) task_id event s
                (transition_task p task_id target event s).1 u h w
                (IsValid-validate u (
                  transition-IsValid event.timestamp w.before target (some (aware event.timestamp))
                    u d))
                (i.0, i.2, i.3) (announces-task_id w.before target event a)
        ]
      ]

  pub assign-IsSound :
      (task_id agent : String) (event : EventEnvelope) (s : Store Doc)
      → IsSound p s
      → IsSound p (assign_task p task_id agent event s).1
  assign-IsSound task_id agent event s h =
      elim (Result-cases (assign_task p task_id agent event s).0) [
        | inr (e, q) ↦ rw (assign-err p task_id agent event s e q) h
        | inl (u, q) ↦ elim (assign_outcome p task_id agent event s u q) [
          | inl same ↦ rw same h
          | inr w ↦
              let (a, c, d) = w.how in
              let e = validate-eq (with_agent p w.before agent) u d in
              Written-IsSound (Assigns p agent event) task_id event s
                (assign_task p task_id agent event s).1 u h w (rw e (rw e at d))
                (rw e (refl, refl, refl)) (announces_assignment-task_id w.before agent event a)
        ]
      ]
