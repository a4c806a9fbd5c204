-- ===== src/Storage/Sound/Creation.antt =====
-- The creation of a task, and `append_event`, keep the tables consistent.
use ai_infrastructure_as_cod.Prelude.{
  ℕ, true, false, not, String, Option, none, some, lookup, insert, ◌≡◌, inl, inr, Option-cases, ◌∙◌,
  ap, sym, refl, arith, lookup-insert_self, string_eq, is_some, Bool-cases, nat_eq, ◌==◌,
}
use ai_infrastructure_as_cod.Errors.{Result, ok, data_integrity}
use ai_infrastructure_as_cod.Domain.Time.{Instant, aware}
use ai_infrastructure_as_cod.Domain.Status.{pending, queued, status_eq}
use ai_infrastructure_as_cod.Domain.Tasks.{Task, validate}
use ai_infrastructure_as_cod.Domain.Tasks
use ai_infrastructure_as_cod.Domain.Tasks.Lifecycle.{
  IsValid-validate, transition-IsValid, transition-Keeps,
}
use ai_infrastructure_as_cod.Domain.Events.{EventEnvelope}
use ai_infrastructure_as_cod.Storage.Models.{TaskRoute}
use ai_infrastructure_as_cod.Storage.Pydantic.{Pydantic}
use ai_infrastructure_as_cod.Storage.Transaction.{
  Tx, ◌>>=◌, ◌>>◌, pure, raise_if, lift, Ensures, Ensures-bind, Ensures-pure, Keeps, Keeps-guard,
  Keeps-lift,
}
use ai_infrastructure_as_cod.Storage.Store.{TaskRow, Store, transaction, transaction-Keeps}
use ai_infrastructure_as_cod.Storage.Tasks.{
  announces, new_row, next_row, write_task, append_event_locked, insert_task, insert_route,
  create_task, create_queued_task, may_queue, is_atomic_task_event, create_body, create_queued_body,
  append_event,
}
use ai_infrastructure_as_cod.Storage.Sound.Tasks.{next_row-Fits, new_row-Fits}
use ai_infrastructure_as_cod.Storage.Sound.{IsSound, insert_row-IsSound, append-IsSound}

module _ (p : Pydantic) where
  open p use {Doc, doc_eq, dump_event, dump_task, load_task, load-dump_task}

  insert_task-IsSound :
      (t : Task) (event : EventEnvelope) (s : Store Doc)
      → validate t ≡ ok t
      → IsSound p s
      → IsSound p (insert_task p t event s).1
  insert_task-IsSound t event s v h = elim (Option-cases (lookup t.task_id s.tasks)) [
    | inr (row, e) ↦ rw (kept row e) h
    | inl e ↦
        rw (added e)
          (insert_row-IsSound p s t.task_id (new_row p t event) (new_row-Fits p t event v) h)
  ]
    where
      kept :
          (row : TaskRow Doc)
          → lookup t.task_id s.tasks ≡ some row
          → (insert_task p t event s).1 ≡ s
      kept row e = unfold insert_task in ground arith

      added :
          lookup t.task_id s.tasks ≡ none
          → (insert_task p t event s).1
            ≡ record s { tasks = insert t.task_id (new_row p t event) s.tasks }
      added e = unfold insert_task in ground arith

  insert_route-IsSound :
      (r : Option TaskRoute) (s : Store Doc) → IsSound p s → IsSound p (insert_route p r s).1
  unfolding insert_route
  insert_route-IsSound none s h = h
  insert_route-IsSound (some r) s h = elim (Bool-cases (is_some (lookup r.task_id s.task_routes))) [
    | inl e ↦ rw e h
    | inr e ↦
        rw e
          (record { rows = h.rows; counted = h.counted; distinct = h.distinct; linked = h.linked })
  ]

  write_task-IsSound :
      (k : String) (u : Task) (at : Instant) (v : ℕ) (s : Store Doc)
      → validate u ≡ ok u
      → u.task_id ≡ k
      → ((row : TaskRow Doc)
          → lookup k s.tasks ≡ some row
          → (row.project ≡ u.project) × (row.team ≡ u.team))
      → IsSound p s
      → IsSound p (write_task p k u at v s).1
  write_task-IsSound k u at v s valid e same h = elim (Option-cases (lookup k s.tasks)) [
    | inl n ↦ rw (missing n) h
    | inr (row, n) ↦ elim (Bool-cases (row.version == v)) [
      | inl q ↦ rw (wrote row n q) (
          insert_row-IsSound p s k (next_row p u at row)
            (next_row-Fits p u at k row valid e (same row n).0 (same row n).1) h)
      | inr q ↦ rw (stale row n q) h
    ]
  ]
    where
      missing : lookup k s.tasks ≡ none → (write_task p k u at v s).1 ≡ s
      missing n = unfold write_task in ground arith

      stale :
          (row : TaskRow Doc)
          → lookup k s.tasks ≡ some row
          → (row.version == v) ≡ false
          → (write_task p k u at v s).1 ≡ s
      stale row n q = unfold write_task in ground arith

      wrote :
          (row : TaskRow Doc)
          → lookup k s.tasks ≡ some row
          → (row.version == v) ≡ true
          → (write_task p k u at v s).1
            ≡ record s { tasks = insert k (next_row p u at row) s.tasks }
      wrote row n q = unfold write_task in ground arith

  -- In the middle of a creation: consistent, and the row of the new task is as it was inserted.
  abbrev Fresh : Task → EventEnvelope → Store Doc → Type 0
  Fresh t event s = IsSound p s × (lookup t.task_id s.tasks ≡ some (new_row p t event))

  insert_task-Fresh :
      (t : Task) (event : EventEnvelope)
      → validate t ≡ ok t
      → Ensures (IsSound p) (insert_task p t event) (Fresh t event)
  insert_task-Fresh t event v = record {
    at = λ s a h q. (insert_task-IsSound t event s v h, inserted s a q);
  }
    where
      inserted :
          (s : Store Doc) (a : Unit {0})
          → (insert_task p t event s).0 ≡ ok a
          → lookup t.task_id (insert_task p t event s).1.tasks ≡ some (new_row p t event)
      inserted s a q =
          unfold insert_task in
          ground (arith, lookup-insert_self t.task_id (new_row p t event) s.tasks)

  append-tasks : (e : EventEnvelope) (s : Store Doc) → (append_event_locked p e s).1.tasks ≡ s.tasks
  unfolding append_event_locked
  append-tasks e s = ground arith

  append-Ensures : (e : EventEnvelope) → Ensures (IsSound p) (append_event_locked p e) (IsSound p)
  append-Ensures e = record { at = λ s a h q. append-IsSound p e s h }

  append-Fresh :
      (t : Task) (event e : EventEnvelope)
      → Ensures (Fresh t event) (append_event_locked p e) (Fresh t event)
  append-Fresh t event e = record {
    at = λ s a h q. (append-IsSound p e s h.0, rw (append-tasks e s) h.1);
  }

  route-tasks : (r : Option TaskRoute) (s : Store Doc) → (insert_route p r s).1.tasks ≡ s.tasks
  unfolding insert_route
  route-tasks r s = ground arith

  route-Fresh :
      (t : Task) (event : EventEnvelope) (r : Option TaskRoute)
      → Ensures (Fresh t event) (insert_route p r) (Fresh t event)
  route-Fresh t event r = record {
    at = λ s a h q. (insert_route-IsSound r s h.0, rw (route-tasks r s) h.1);
  }

  Fresh-pure :
      (t : Task) (event : EventEnvelope) (u : Task) → Ensures (Fresh t event) (pure u) (IsSound p)
  Fresh-pure t event u = record { at = λ s a h q. h.0 }

  create_body-Ensures :
      (t : Task) (event : EventEnvelope)
      → validate t ≡ ok t
      → Ensures (IsSound p) (create_body p t event) (IsSound p)
  unfolding create_body
  create_body-Ensures t event v =
      Ensures-bind (IsSound p) (Fresh t event) (IsSound p) (insert_task p t event)
        (λ _. append_event_locked p event >> pure t) (insert_task-Fresh t event v)
        λ _.
          Ensures-bind (Fresh t event) (Fresh t event) (IsSound p) (append_event_locked p event)
            (λ _. pure t) (append-Fresh t event event) λ _. Fresh-pure t event t

  pub create-IsSound :
      (t : Task) (event : EventEnvelope)
      → validate t ≡ ok t
      → Keeps (IsSound p) (create_task p t event)
  create-IsSound t event v s h =
      unfold create_task in
      Keeps-guard (IsSound p) (not (t.status == pending)) data_integrity
        (raise_if (not (announces t pending event)) data_integrity
          >> transaction (create_body p t event))
        (Keeps-guard (IsSound p) (not (announces t pending event)) data_integrity
          (transaction (create_body p t event))
          (transaction-Keeps (IsSound p) (create_body p t event) (create_body-Ensures t event v)))
        s h

  write-Ensures :
      (t q : Task) (event : EventEnvelope) (at : Instant)
      → validate q ≡ ok q
      → (q.task_id ≡ t.task_id) × (q.project ≡ t.project) × (q.team ≡ t.team)
      → Ensures (Fresh t event) (write_task p q.task_id q at 1) (IsSound p)
  write-Ensures t q event at v same = record {
    at = λ s a h e. write_task-IsSound q.task_id q at 1 s v refl (columns s h) h.0;
  }
    where
      columns :
          (s : Store Doc)
          → Fresh t event s
          → (row : TaskRow Doc) → lookup q.task_id s.tasks ≡ some row
          → (row.project ≡ q.project) × (row.team ≡ q.team)
      columns s h row l =
          let e : some (new_row p t event) ≡ some row =
            sym h.1 ∙ ap (λ (k : String). lookup k s.tasks) (sym same.0) ∙ l in
          unfold new_row in ground arith

  create_queued_body-Ensures :
      (t q : Task) (created_event queued_event : EventEnvelope) (route : Option TaskRoute)
      → validate t ≡ ok t
      → validate q ≡ ok q
      → (q.task_id ≡ t.task_id) × (q.project ≡ t.project) × (q.team ≡ t.team)
      → Ensures (IsSound p) (create_queued_body p t q created_event queued_event route) (IsSound p)
  unfolding create_queued_body
  create_queued_body-Ensures t q created_event queued_event route v w same =
      let last = append_event_locked p queued_event >> pure q in
      let rest = write_task p q.task_id q queued_event.timestamp 1 >> last in
      let routed = insert_route p route >> rest in
      Ensures-bind (IsSound p) (Fresh t created_event) (IsSound p) (insert_task p t created_event)
        (λ _. append_event_locked p created_event >> routed) (insert_task-Fresh t created_event v)
        λ _.
          Ensures-bind (Fresh t created_event) (Fresh t created_event) (IsSound p)
            (append_event_locked p created_event) (λ _. routed)
            (append-Fresh t created_event created_event)
            λ _.
              Ensures-bind (Fresh t created_event) (Fresh t created_event) (IsSound p)
                (insert_route p route) (λ _. rest) (route-Fresh t created_event route)
                λ _.
                  Ensures-bind (Fresh t created_event) (IsSound p) (IsSound p)
                    (write_task p q.task_id q queued_event.timestamp 1) (λ _. last)
                    (write-Ensures t q created_event queued_event.timestamp w same)
                    λ _.
                      Ensures-bind (IsSound p) (IsSound p) (IsSound p)
                        (append_event_locked p queued_event) (λ _. pure q)
                        (append-Ensures queued_event) λ _. Ensures-pure (IsSound p) q

  -- the guards of `create_queued_task` raise before anything is written
  pub create_queued-IsSound :
      (t : Task) (created_event queued_event : EventEnvelope) (route : Option TaskRoute)
      → validate t ≡ ok t
      → Keeps (IsSound p) (create_queued_task p t created_event queued_event route)
  create_queued-IsSound t created_event queued_event route v =
      unfold create_queued_task in
      Keeps-guard (IsSound p) (not (may_queue t created_event queued_event route)) data_integrity
        (lift (queue_of t queued_event) >>= body)
        (Keeps-lift (IsSound p) (queue_of t queued_event) body λ q e.
          let i =
            (transition-Keeps queued_event.timestamp t queued queued_event.timestamp q
              e).identity in
          transaction-Keeps (IsSound p) (create_queued_body p t q created_event queued_event route)
            (create_queued_body-Ensures t q created_event queued_event route v
              (IsValid-validate q (
                transition-IsValid queued_event.timestamp t queued
                  (some (aware queued_event.timestamp)) q e))
              (i.0, i.2, i.3)))
    where
      queue_of : Task → EventEnvelope → Result Task
      queue_of t e = Tasks.transition_task e.timestamp t queued (some (aware e.timestamp))

      body : Task → Tx (Store Doc) Task
      body q = transaction (create_queued_body p t q created_event queued_event route)

  pub append_event-IsSound : (event : EventEnvelope) → Keeps (IsSound p) (append_event p event)
  append_event-IsSound event =
      unfold append_event in
      Keeps-guard (IsSound p) (is_atomic_task_event event.event_type) data_integrity
        (transaction (append_event_locked p event))
        (transaction-Keeps (IsSound p) (append_event_locked p event) (append-Ensures event))
