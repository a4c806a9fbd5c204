-- ===== src/Storage/Tasks/Created.antt =====
-- A queued task that was created is read back from the store.
use ai_infrastructure_as_cod.Prelude.{
  false, String, Option, none, some, lookup, lookup-insert_self, ◌≡◌, refl, inl, inr, arith,
  Option-cases, ap, sym, ◌∙◌, nat_eq, Bool-cases,
}
use mathlib.Core.Path.{subst}
use ai_infrastructure_as_cod.Errors.{Result, ok, err, Result-cases}
use ai_infrastructure_as_cod.Domain.Time.{Instant, aware}
use ai_infrastructure_as_cod.Domain.Status.{queued}
use ai_infrastructure_as_cod.Domain.Tasks.{Task, validate}
use ai_infrastructure_as_cod.Domain.Tasks
use ai_infrastructure_as_cod.Domain.Tasks.Lifecycle.{
  Keeps, transition-Keeps, transition-IsValid, IsValid-validate,
}
use ai_infrastructure_as_cod.Domain.Events.{EventEnvelope}
use ai_infrastructure_as_cod.Storage.Models.{TaskRoute}
use ai_infrastructure_as_cod.Storage.Pydantic.{Pydantic}
use ai_infrastructure_as_cod.Storage.Transaction.{Tx, bind_on, Ensures, Ensures-bind, Ensures-pure}
use ai_infrastructure_as_cod.Storage.Store.{
  TaskRow, Store, transaction, transaction-ok, update_task,
}
use ai_infrastructure_as_cod.Storage.Tasks.{
  new_row, next_row, insert_task, insert_route, append_event_locked, write_task, create_queued_body,
  create_queued_task, get_task, may_queue,
}

module _ (p : Pydantic) where
  open p use {Doc, load-dump_task, dump_task}

  abbrev Open : Store Doc → Type 0
  Open s = s.closed ≡ false

  -- an open store with this row
  abbrev Holds : String → TaskRow Doc → Store Doc → Type 0
  Holds k row s = (s.closed ≡ false) × (lookup k s.tasks ≡ some row)

  insert-Holds :
      (t : Task) (e : EventEnvelope)
      → Ensures Open (insert_task p t e) (Holds t.task_id (new_row p t e))
  unfolding insert_task
  insert-Holds t e = record {
    at = λ s u o h. elim (Option-cases (lookup t.task_id s.tasks)) [
      | inr (row, q) ↦ absurd (ground (arith, q, h))
      | inl q ↦ ground (arith, q, o, lookup-insert_self t.task_id (new_row p t e) s.tasks)
    ];
  }

  append_same :
      (e : EventEnvelope) (s : Store Doc)
      → ((append_event_locked p e s).1.tasks ≡ s.tasks)
        × ((append_event_locked p e s).1.closed ≡ s.closed)
  unfolding append_event_locked
  append_same e s = ground arith

  append-Holds :
      (k : String) (row : TaskRow Doc) (e : EventEnvelope)
      → Ensures (Holds k row) (append_event_locked p e) (Holds k row)
  append-Holds k row e = record {
    at = λ s u o h.
        let (tasks, closed) = append_same e s in (closed ∙ o.0, ap (λ m. lookup k m) tasks ∙ o.1);
  }

  route_same :
      (r : Option TaskRoute) (s : Store Doc)
      → ((insert_route p r s).1.tasks ≡ s.tasks) × ((insert_route p r s).1.closed ≡ s.closed)
  unfolding insert_route
  route_same none s = (refl, refl)
  route_same (some r) s = ground arith

  route-Holds :
      (k : String) (row : TaskRow Doc) (r : Option TaskRoute)
      → Ensures (Holds k row) (insert_route p r) (Holds k row)
  route-Holds k row r = record {
    at = λ s u o h.
        let (tasks, closed) = route_same r s in (closed ∙ o.0, ap (λ m. lookup k m) tasks ∙ o.1);
  }

  write-Holds :
      (k : String) (row : TaskRow Doc) (u : Task) (at : Instant)
      → row.version ≡ 1
      → Ensures (Holds k row) (write_task p k u at 1) (Holds k (next_row p u at row))
  unfolding write_task update_task
  write-Holds k row u at v = record {
    at = λ s x o h.
        (o.0, ground (arith, o.1, v, lookup-insert_self k (next_row p u at row) s.tasks));
  }

  body-Holds :
      (t u : Task) (c q : EventEnvelope) (route : Option TaskRoute)
      → u.task_id ≡ t.task_id
      → Ensures Open
          (create_queued_body p t u c q route)
          (Holds t.task_id (next_row p u q.timestamp (new_row p t c)))
  unfolding create_queued_body new_row
  body-Holds t u c q route same = Ensures-bind _ _ _ (insert_task p t c) _ (insert-Holds t c) (λ x.
      Ensures-bind _ _ _ (append_event_locked p c) _ (append-Holds _ _ c) (λ x.
        Ensures-bind _ _ _ (insert_route p route) _ (route-Holds _ _ route) (λ x.
          Ensures-bind _ (Holds t.task_id (next_row p u q.timestamp (new_row p t c))) _
            (write_task p u.task_id u q.timestamp 1) _
            (subst
              (λ k.
                Ensures (Holds t.task_id (new_row p t c)) (write_task p k u q.timestamp 1)
                  (Holds t.task_id (next_row p u q.timestamp (new_row p t c))))
              (sym same) (write-Holds t.task_id (new_row p t c) u q.timestamp refl))
            (λ x.
              Ensures-bind _ _ _ (append_event_locked p q) _ (append-Holds _ _ q)
                (λ x. Ensures-pure _ u)))))

  created_steps :
      (t : Task) (c q : EventEnvelope) (route : Option TaskRoute) (s : Store Doc) (v : Task)
      → (create_queued_task p t c q route s).0 ≡ ok v
      → (u : Task) × (Tasks.transition_task q.timestamp t queued (some (aware q.timestamp)) ≡ ok u)
        × (create_queued_task p t c q route s ≡ transaction (create_queued_body p t u c q route) s)
  created_steps t c q route s v h = elim (Bool-cases (may_queue t c q route)) [
    | inr m ↦ absurd (unfold create_queued_task in ground (arith, m, h))
    | inl m ↦
        elim (Result-cases
          (Tasks.transition_task q.timestamp t queued (some (aware q.timestamp)))) [
            | inr (x, e) ↦ absurd (unfold create_queued_task in ground (arith, m, e, h))
            | inl (u, e) ↦ (u, e, (unfold create_queued_task in rw (m, e) refl))
          ]
  ]

  -- a call that returned after another
  after :
      {A B : Type 0} {R : Type 0} (x : Result A × Store Doc) (f : A → Tx (Store Doc) B) (b : B)
      → ((a : A) (s : Store Doc) → (f a s).0 ≡ ok b → R)
      → (bind_on x f).0 ≡ ok b
      → R
  after (ok a, s) f b k h = k a s h
  after (err e, s) f b k h = absurd (ground (arith, h))

  body_gives :
      (t u v : Task) (c q : EventEnvelope) (route : Option TaskRoute) (s : Store Doc)
      → (create_queued_body p t u c q route s).0 ≡ ok v
      → u ≡ v
  unfolding create_queued_body
  body_gives t u v c q route s h =
      after (insert_task p t c s) _ v
        (λ x s. after (append_event_locked p c s) _ v (λ x s.
          after (insert_route p route s) _ v (λ x s.
            after (write_task p u.task_id u q.timestamp 1 s) _ v
              (λ x s. after (append_event_locked p q s) _ v (λ x s e. ground (arith, e))))))
        h

  was_open :
      (m : Tx (Store Doc) Task) (s : Store Doc) (v : Task)
      → (transaction m s).0 ≡ ok v
      → s.closed ≡ false
  was_open m s v h = elim (Bool-cases s.closed) [
    | inl q ↦ absurd (unfold transaction in ground (arith, q, h))
    | inr q ↦ q
  ]

  read_held :
      (k : String) (row : TaskRow Doc) (u : Task) (at : Instant) (s : Store Doc)
      → validate u ≡ ok u
      → Holds k (next_row p u at row) s
      → (get_task p k s).0 ≡ ok u
  unfolding get_task next_row
  read_held k row u at s v h = ground (arith, h.0, h.1, load-dump_task u v)

  -- A queued task that was created is read back under the id of the task that was given, in which
  -- only the status and the stamps have changed.
  pub get-create_queued :
      (t : Task) (c q : EventEnvelope) (route : Option TaskRoute) (s : Store Doc) (v : Task)
      → (create_queued_task p t c q route s).0 ≡ ok v
      → ((get_task p t.task_id (create_queued_task p t c q route s).1).0 ≡ ok v)
        × Keeps t v q.timestamp
  get-create_queued t c q route s v h =
      let (u, moved, run) = created_steps t c q route s v h in
      let ran = ap (λ z. z.0) (sym run) ∙ h in
      let body = transaction-ok (create_queued_body p t u c q route) s v ran in
      let made = ap (λ z. z.0) (sym body) ∙ ran in
      let keeps = transition-Keeps q.timestamp t queued q.timestamp u moved in
      let valid =
        IsValid-validate u
          (transition-IsValid q.timestamp t queued (some (aware q.timestamp)) u moved) in
      let held =
        (body-Holds t u c q route keeps.identity.0).at s v
          (was_open (create_queued_body p t u c q route) s v ran) made in
      subst
        (λ x.
          ((get_task p t.task_id (create_queued_task p t c q route s).1).0 ≡ ok x)
          × Keeps t x q.timestamp)
        (body_gives t u v c q route s made)
        (
          ap (λ z. (get_task p t.task_id z.1).0) (run ∙ body)
              ∙ read_held t.task_id (new_row p t c) u q.timestamp _ valid held,
          keeps,
        )
