-- ===== src/Storage/Recovery/RunLoop.antt =====
-- The first loop of the recovery: no run stays open.
use ai_infrastructure_as_cod.Prelude.{
  false, String, some, Table, In, lookup, lookup-In, In-order_by, order_by-In, rows_where-lookup,
  HasKeys, ◌≡◌, ◌⊎◌, inl, inr, refl, ap, ◌∙◌, arith, string_eq, Option-cases, Bool-cases,
}
use ai_infrastructure_as_cod.Errors.{ok}
use ai_infrastructure_as_cod.Domain.Time.{Instant}
use ai_infrastructure_as_cod.Storage.Models.{RunStatus, interrupted, RunRecord, validate_lifecycle}
use ai_infrastructure_as_cod.Storage.Pydantic.{Pydantic}
use ai_infrastructure_as_cod.Storage.Transaction.{Ensures, for_each}
use ai_infrastructure_as_cod.Storage.Transaction.Loops.{for_each-done}
use ai_infrastructure_as_cod.Storage.Runs.Lifecycle.{validate_lifecycle-eq}
use ai_infrastructure_as_cod.Storage.Store.{RunRow, Store}
use ai_infrastructure_as_cod.Storage.Runs.{update_run, write_run, load_run_row}
use ai_infrastructure_as_cod.Storage.Recovery.Moved.{
  Moved, Done, insert-Moved, insert-Done, insert-Done_self,
}
use ai_infrastructure_as_cod.Storage.Recovery.{
  is_open_run, interrupted_run, interrupt_row, open_runs,
}

module _ (p : Pydantic) (event_id : String → String) where
  open p use {Doc, load_run, load_task}

  abbrev pub Interrupted : RunRow Doc → Type 0
  Interrupted row = row.status ≡ interrupted

  update_run-Moved :
      (u : RunRecord) (m m' : Table (RunRow Doc))
      → u.status ≡ interrupted
      → Moved Interrupted m m'
      → Moved Interrupted m (update_run p u m')
  unfolding update_run
  update_run-Moved u m m' e h = elim (Option-cases (lookup u.run_id m')) [
    | inl q ↦ rw (q, update_run) h
    | inr (row, q) ↦ rw (q, update_run) (insert-Moved Interrupted m m' u.run_id _ e h)
  ]

  update_run-Done :
      (u : RunRecord) (m : Table (RunRow Doc)) (k : String)
      → u.status ≡ interrupted
      → (u.run_id ≡ k) ⊎ Done Interrupted k m
      → Done Interrupted k (update_run p u m)
  unfolding update_run
  update_run-Done u m k e h = elim (Option-cases (lookup u.run_id m)) [
    | inl q ↦ rw (q, update_run) (elim h [ inl same ↦ λ v l. cc (l, q, same) | inr d ↦ d ])
    | inr (row, q) ↦
        rw (q, update_run)
          (elim h [
            | inl same ↦ rw (← same) (insert-Done_self Interrupted m u.run_id _ e)
            | inr d ↦ insert-Done Interrupted m k u.run_id _ e d
          ])
  ]

  -- what a written run is
  abbrev Status : RunRecord → Type 0
  Status u = u.status ≡ interrupted

  write_run-Moved :
      (m : Table (RunRow Doc)) (u : RunRecord) (s : Store Doc)
      → Status u
      → Moved Interrupted m s.runs
      → Moved Interrupted m (write_run p u s).1.runs
  unfolding write_run
  write_run-Moved m u s e h = update_run-Moved u m s.runs e h

  -- the effect of one row of the first loop, where it returns
  interrupt_effect :
      (at : Instant) (r : String × RunRow Doc) (s : Store Doc) (u : RunRecord)
      → (interrupt_row p event_id at r s).0 ≡ ok u
      → (x : RunRecord) × (load_run r.1.run_json ≡ some x)
        × (u.run_id ≡ x.run_id)
        × Status u
        × ((interrupt_row p event_id at r s).1 ≡ record s { runs = update_run p u s.runs })
  interrupt_effect at r s u h = elim (Option-cases (load_run r.1.run_json)) [
    | inl q ↦ absurd (unfold interrupt_row load_run_row in ground (arith, q))
    | inr (x, q) ↦
        let v : validate_lifecycle (interrupted_run x at) ≡ ok u =
          unfold interrupt_row load_run_row in ground (arith, q) in
        let e = validate_lifecycle-eq (interrupted_run x at) u v in
        (
          x,
          q,
          ap (λ (k : RunRecord). k.run_id) e ∙ (unfold interrupted_run in refl),
          ap (λ (k : RunRecord). k.status) e ∙ (unfold interrupted_run in refl),
          (unfold interrupt_row load_run_row write_run in ground (arith, q, v)),
        )
  ]

  -- the runs of the first loop; the tasks wait
  abbrev pub RunsMoved : Store Doc → Store Doc → Type 0
  RunsMoved s s' = Moved Interrupted s.runs s'.runs × (s'.tasks ≡ s.tasks)

  -- Each run is stored under its id.
  abbrev pub RunsKeyed : Store Doc → Type 0
  RunsKeyed s =
      (k : String) (row : RunRow Doc) (r : RunRecord)
      → lookup k s.runs ≡ some row
      → load_run row.run_json ≡ some r
      → r.run_id ≡ k

  interrupt-Ensures :
      (at : Instant) (s : Store Doc) (x y : String × RunRow Doc)
      → ((r : RunRecord) → load_run x.1.run_json ≡ some r → r.run_id ≡ x.0)
      → Ensures
          (RunsMoved s)
          (interrupt_row p event_id at x)
          (λ s'. RunsMoved s s' × Done Interrupted x.0 s'.runs)
        × Ensures
            (λ s'. RunsMoved s s' × Done Interrupted y.0 s'.runs)
            (interrupt_row p event_id at x)
            (λ s'. RunsMoved s s' × Done Interrupted y.0 s'.runs)
  interrupt-Ensures at s x y keyed = (
    record {
      at = λ t u h e.
          let (r, q, i, st, w) = interrupt_effect at x t u e in
          rw w (
            (update_run-Moved u s.runs t.runs st h.0, h.1),
            update_run-Done u t.runs x.0 st (inl (i ∙ keyed r q)),
          );
    },
    record {
      at = λ t u h e.
          let (r, q, i, st, w) = interrupt_effect at x t u e in
          rw w (
            (update_run-Moved u s.runs t.runs st h.0.0, h.0.1),
            update_run-Done u t.runs y.0 st (inr h.1),
          );
    },
  )

  run_found :
      (s : Store Doc) (x : String × RunRow Doc)
      → HasKeys s.runs
      → In x (open_runs p event_id s)
      → lookup x.0 s.runs ≡ some x.1
  unfolding open_runs
  run_found s x k i = rows_where-lookup _ x.0 x.1 k (order_by-In _ x _ i)

  pub runs_loop :
      (at : Instant) (s : Store Doc)
      → HasKeys s.runs
      → RunsKeyed s
      → Ensures
          (RunsMoved s)
          (for_each (interrupt_row p event_id at) (open_runs p event_id s))
          (λ s'.
            RunsMoved s s'
            × ((x : String × RunRow Doc)
                → In x (open_runs p event_id s)
                → Done Interrupted x.0 s'.runs))
  runs_loop at s k keyed =
      for_each-done (interrupt_row p event_id at) (RunsMoved s)
        (λ x s'. Done Interrupted x.0 s'.runs) (open_runs p event_id s)
        (λ x i. (interrupt-Ensures at s x x (λ r. keyed x.0 x.1 r (run_found s x k i))).0)
        (λ x y i. (interrupt-Ensures at s x y (λ r. keyed x.0 x.1 r (run_found s x k i))).1)

  interrupted_closed : (st : RunStatus) → st ≡ interrupted → is_open_run st ≡ false
  interrupted_closed st e = rw e refl

  -- so no run stays open
  pub runs_closed :
      (s s' : Store Doc)
      → RunsMoved s s'
      → ((x : String × RunRow Doc) → In x (open_runs p event_id s) → Done Interrupted x.0 s'.runs)
      → (k : String) (row : RunRow Doc) → lookup k s'.runs ≡ some row
      → is_open_run row.status ≡ false
  runs_closed s s' m all k row l = elim (m.0 k row l) [
    | inl done ↦ interrupted_closed row.status done
    | inr old ↦ elim (Bool-cases (is_open_run row.status)) [
      | inr shut ↦ shut
      | inl found ↦ interrupted_closed row.status (
          all (k, row)
            (unfold open_runs in In-order_by _ (k, row) _ (lookup-In _ k row s.runs old found)) row
            l)
    ]
  ]
