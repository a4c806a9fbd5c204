-- ===== src/Storage/Recovery/TaskLoop.antt =====
-- The second loop of the recovery: no task stays worked on.
use ai_infrastructure_as_cod.Prelude.{
  ℕ, false, String, some, Table, In, lookup, lookup-In, In-order_by, order_by-In, rows_where-lookup,
  HasKeys, ◌≡◌, inl, inr, refl, ap, ◌∙◌, arith, ◌==◌, string_eq, nat_eq, nat_beq_iff, Option-cases,
  Bool-cases,
}
use mathlib.Core.Path.{subst}
use ai_infrastructure_as_cod.Errors.{ok, Result-cases}
use ai_infrastructure_as_cod.Domain.Time.{Instant, aware}
use ai_infrastructure_as_cod.Domain.Status.{TaskStatus, blocked}
use ai_infrastructure_as_cod.Domain.Tasks.{Task}
use ai_infrastructure_as_cod.Storage.Models.{StoredEvent}
use ai_infrastructure_as_cod.Storage.Pydantic.{Pydantic}
use ai_infrastructure_as_cod.Storage.Transaction.{Ensures, for_each}
use ai_infrastructure_as_cod.Storage.Transaction.Loops.{for_each-done}
use ai_infrastructure_as_cod.Storage.Store.{TaskRow, RunRow, Store, update_task}
use ai_infrastructure_as_cod.Storage.Tasks.{write_task, append_event_locked, load_row, next_row}
use ai_infrastructure_as_cod.Domain.Tasks
use ai_infrastructure_as_cod.Domain.Tasks.Lifecycle.{transition_moves, transition-Keeps}
use ai_infrastructure_as_cod.Domain.Events.{EventEnvelope}
use ai_infrastructure_as_cod.Storage.Sound.{Fits}
use ai_infrastructure_as_cod.Storage.Recovery.Moved.{
  Moved, Done, insert-Moved, insert-Done, insert-Done_self,
}
use ai_infrastructure_as_cod.Storage.Recovery.{is_worked_on, block_row, worked_on, blocked_event}

module _ (p : Pydantic) (event_id : String → String) where
  open p use {Doc, load_run, load_task}

  abbrev pub Blocked : TaskRow Doc → Type 0
  Blocked row = row.status ≡ blocked

  -- the rewritten table of tasks
  abbrev rewritten : Task → Instant → ℕ → Table (TaskRow Doc) → Table (TaskRow Doc)
  rewritten u at version m = update_task u.task_id version (next_row p u at) m

  append_keeps :
      (e : EventEnvelope) (s : Store Doc)
      → ((append_event_locked p e s).1.tasks ≡ s.tasks)
        × ((append_event_locked p e s).1.runs ≡ s.runs)
  unfolding append_event_locked
  append_keeps e s = ground arith

  abbrev event_of : Instant → String × TaskRow Doc → Task → EventEnvelope
  event_of at r x = blocked_event (event_id r.0) x at

  -- the store after the row's task is written
  abbrev task_written : Instant → String × TaskRow Doc → Task → Store Doc → Store Doc
  task_written at r y s = record s { tasks = rewritten y at r.1.version s.tasks }

  block_state :
      (at : Instant) (r : String × TaskRow Doc) (s : Store Doc) (x y : Task)
      → load_task r.1.task_json ≡ some x
      → Tasks.transition_task at x blocked (some (aware at)) ≡ ok y
      → (block_row p event_id at r s).1
        ≡ (append_event_locked p (event_of at r x) (task_written at r y s)).1
  unfolding block_row load_row write_task
  block_state at r s x y q t =
      elim (Result-cases (append_event_locked p (event_of at r x) (task_written at r y s)).0) [
        | inl (b, e) ↦ ground (arith, q, t, e)
        | inr (b, e) ↦ ground (arith, q, t, e)
      ]

  -- the effect of one row, where it returns
  block_effect :
      (at : Instant) (r : String × TaskRow Doc) (s : Store Doc) (u : Task × StoredEvent)
      → (block_row p event_id at r s).0 ≡ ok u
      → (x : Task) × (y : Task) × (load_task r.1.task_json ≡ some x)
        × (y.task_id ≡ x.task_id)
        × (y.status ≡ blocked)
        × ((block_row p event_id at r s).1.tasks ≡ rewritten y at r.1.version s.tasks)
        × ((block_row p event_id at r s).1.runs ≡ s.runs)
  block_effect at r s u h = elim (Option-cases (load_task r.1.task_json)) [
    | inl q ↦ absurd (unfold block_row load_row in ground (arith, q))
    | inr (x, q) ↦ elim (Result-cases (Tasks.transition_task at x blocked (some (aware at)))) [
      | inr (e, t) ↦ absurd (unfold block_row load_row in ground (arith, q, t))
      | inl (y, t) ↦ (
        x,
        y,
        q,
        (transition-Keeps at x blocked at y t).identity.0,
        (transition_moves at x blocked at y t).0,
        ap (λ (k : Store Doc). k.tasks) (block_state at r s x y q t)
            ∙ (append_keeps (event_of at r x) (task_written at r y s)).0,
        ap (λ (k : Store Doc). k.runs) (block_state at r s x y q t)
            ∙ (append_keeps (event_of at r x) (task_written at r y s)).1,
      )
    ]
  ]

  -- a rewritten table: the row of the task is blocked, or its version has changed
  rewritten-Moved :
      (m m' : Table (TaskRow Doc)) (u : Task) (at : Instant) (version : ℕ)
      → u.status ≡ blocked
      → Moved Blocked m m'
      → Moved Blocked m (rewritten u at version m')
  unfolding update_task next_row
  rewritten-Moved m m' u at version e h = elim (Option-cases (lookup u.task_id m')) [
    | inl q ↦ rw (q, update_task) h
    | inr (row, q) ↦ elim (Bool-cases (row.version == version)) [
      | inl t ↦ rw (q, t, update_task) (insert-Moved Blocked m m' u.task_id _ e h)
      | inr t ↦ rw (q, t, update_task) h
    ]
  ]

  rewritten-Done :
      (m : Table (TaskRow Doc)) (u : Task) (at : Instant) (version : ℕ) (k : String)
      → u.status ≡ blocked
      → Done Blocked k m
      → Done Blocked k (rewritten u at version m)
  unfolding update_task next_row
  rewritten-Done m u at version k e h = elim (Option-cases (lookup u.task_id m)) [
    | inl q ↦ rw (q, update_task) h
    | inr (row, q) ↦ elim (Bool-cases (row.version == version)) [
      | inl t ↦ rw (q, t, update_task) (insert-Done Blocked m k u.task_id _ e h)
      | inr t ↦ rw (q, t, update_task) h
    ]
  ]

  -- the row that was fetched is blocked, unless it was before
  rewritten-Done_self :
      (m m' : Table (TaskRow Doc)) (u : Task) (at : Instant) (row : TaskRow Doc)
      → u.status ≡ blocked
      → lookup u.task_id m ≡ some row
      → Moved Blocked m m'
      → Done Blocked u.task_id (rewritten u at row.version m')
  unfolding update_task next_row
  rewritten-Done_self m m' u at row e l h = elim (Option-cases (lookup u.task_id m')) [
    | inl q ↦ rw (q, update_task) (λ v w. cc (w, q))
    | inr (cur, q) ↦ elim (Bool-cases (cur.version == row.version)) [
      | inl t ↦ rw (q, t, update_task) (insert-Done_self Blocked m' u.task_id _ e)
      | inr t ↦
          rw (q, t, update_task)
            (λ v w. elim (h u.task_id cur q) [
              | inl b ↦ let same : v ≡ cur = cc (w, q) in rw same b
              | inr old ↦
                  let same : cur ≡ row = cc (old, l) in
                  absurd (
                    cc (
                      t,
                      (nat_beq_iff cur.version row.version).1
                          (ap (λ (z : TaskRow Doc). z.version) same),
                    ))
            ])
    ]
  ]

  -- the tasks of the second loop, and the runs that it leaves
  abbrev pub TasksMoved : Store Doc → (Table (RunRow Doc) → Type 0) → Store Doc → Type 0
  TasksMoved s Q s' = Moved Blocked s.tasks s'.tasks × Q s'.runs

  block-Ensures :
      (at : Instant) (s : Store Doc) (Q : Table (RunRow Doc) → Type 0) (x y : String × TaskRow Doc)
      → lookup x.0 s.tasks ≡ some x.1
      → Fits p x.0 x.1
      → Ensures
          (TasksMoved s Q)
          (block_row p event_id at x)
          (λ s'. TasksMoved s Q s' × Done Blocked x.0 s'.tasks)
        × Ensures
            (λ s'. TasksMoved s Q s' × Done Blocked y.0 s'.tasks)
            (block_row p event_id at x)
            (λ s'. TasksMoved s Q s' × Done Blocked y.0 s'.tasks)
  block-Ensures at s Q x y l f = (
    record {
      at = λ t u h e.
          let (a, b, q, i, st, w, v) = block_effect at x t u e in
          let same : b.task_id ≡ x.0 = i ∙ keyed a q in
          rw (w, v)
            (
              (rewritten-Moved s.tasks t.tasks b at x.1.version st h.0, h.1),
              subst (λ k. Done Blocked k (rewritten b at x.1.version t.tasks)) same
                  (rewritten-Done_self s.tasks t.tasks b at x.1 st
                    (ap (λ k. lookup k s.tasks) same ∙ l) h.0),
            );
    },
    record {
      at = λ t u h e.
          let (a, b, q, i, st, w, v) = block_effect at x t u e in
          rw (w, v)
            (
              (rewritten-Moved s.tasks t.tasks b at x.1.version st h.0.0, h.0.1),
              rewritten-Done t.tasks b at x.1.version y.0 st h.1,
            );
    },
  )
    where
      keyed : (a : Task) → load_task x.1.task_json ≡ some a → a.task_id ≡ x.0
      keyed a q =
          let one : a ≡ f.task = cc (q, f.reads) in ap (λ (k : Task). k.task_id) one ∙ f.keyed

  task_found :
      (s : Store Doc) (x : String × TaskRow Doc)
      → HasKeys s.tasks
      → In x (worked_on p event_id s)
      → lookup x.0 s.tasks ≡ some x.1
  unfolding worked_on
  task_found s x k i = rows_where-lookup _ x.0 x.1 k (order_by-In _ x _ i)

  -- Each row holds its task.
  abbrev pub RowsFit : Store Doc → Type 0
  RowsFit s = (k : String) (row : TaskRow Doc) → lookup k s.tasks ≡ some row → Fits p k row

  pub tasks_loop :
      (at : Instant) (s : Store Doc) (Q : Table (RunRow Doc) → Type 0)
      → HasKeys s.tasks
      → RowsFit s
      → Ensures
          (TasksMoved s Q)
          (for_each (block_row p event_id at) (worked_on p event_id s))
          (λ s'.
            TasksMoved s Q s'
            × ((x : String × TaskRow Doc)
                → In x (worked_on p event_id s)
                → Done Blocked x.0 s'.tasks))
  tasks_loop at s Q k rows =
      for_each-done (block_row p event_id at) (TasksMoved s Q) (λ x s'. Done Blocked x.0 s'.tasks)
        (worked_on p event_id s)
        (λ x i. (block-Ensures at s Q x x (task_found s x k i) (fits x i)).0)
        (λ x y i. (block-Ensures at s Q x y (task_found s x k i) (fits x i)).1)
    where
      fits : (x : String × TaskRow Doc) → In x (worked_on p event_id s) → Fits p x.0 x.1
      fits x i = rows x.0 x.1 (task_found s x k i)

  blocked_rests : (st : TaskStatus) → st ≡ blocked → is_worked_on st ≡ false
  blocked_rests st e = rw e refl

  -- so no task stays worked on
  pub tasks_rest :
      (s s' : Store Doc)
      → Moved Blocked s.tasks s'.tasks
      → ((x : String × TaskRow Doc) → In x (worked_on p event_id s) → Done Blocked x.0 s'.tasks)
      → (k : String) (row : TaskRow Doc) → lookup k s'.tasks ≡ some row
      → is_worked_on row.status ≡ false
  tasks_rest s s' m all k row l = elim (m k row l) [
    | inl done ↦ blocked_rests row.status done
    | inr old ↦ elim (Bool-cases (is_worked_on row.status)) [
      | inr shut ↦ shut
      | inl found ↦ blocked_rests row.status (
          all (k, row)
            (unfold worked_on in In-order_by _ (k, row) _ (lookup-In _ k row s.tasks old found)) row
            l)
    ]
  ]
