-- ===== src/Storage/Recovery/Cleared.antt =====
-- After the recovery no run is open and no task is worked on.
use ai_infrastructure_as_cod.Prelude.{
  false, String, Option, some, List, Table, lookup, HasKeys, ◌≡◌, ◌≢◌, inl, inr, refl, sym, ap, ◌∙◌,
  arith, string_eq, nat_eq,
}
use mathlib.Core.Path.{subst}
use ai_infrastructure_as_cod.Errors.{Error, Result, ok, err, Result-cases}
use ai_infrastructure_as_cod.Domain.Time.{Instant, Datetime, aware_time}
use ai_infrastructure_as_cod.Domain.Status.{TaskStatus}
use ai_infrastructure_as_cod.Storage.Models.{RunStatus, RunRecord}
use ai_infrastructure_as_cod.Storage.Pydantic.{Pydantic}
use ai_infrastructure_as_cod.Storage.Transaction.{Tx, pure, gets, Ensures-bind, for_each, ◌>>=◌}
use ai_infrastructure_as_cod.Storage.Store.{
  TaskRow, RunRow, Store, transaction, transaction-ok, transaction-err,
}
use ai_infrastructure_as_cod.Storage.Sound.{IsSound}
use ai_infrastructure_as_cod.Storage.Recovery.{
  ReconciliationResult, result_of, is_open_run, is_worked_on, interrupt_row, block_row, open_runs,
  worked_on, reconcile_body, reconcile_interrupted_running,
}
use ai_infrastructure_as_cod.Storage.Recovery.RunLoop.{RunsMoved, RunsKeyed, runs_loop, runs_closed}
use ai_infrastructure_as_cod.Storage.Recovery.TaskLoop.{TasksMoved, RowsFit, tasks_loop, tasks_rest}

module _ (p : Pydantic) (event_id : String → String) where
  open p use {Doc}

  abbrev IsShut : Store Doc → Type 0
  IsShut s =
      ((k : String) (row : RunRow Doc)
        → lookup k s.runs ≡ some row
        → is_open_run row.status ≡ false)
      × ((k : String) (row : TaskRow Doc)
          → lookup k s.tasks ≡ some row
          → is_worked_on row.status ≡ false)

  abbrev RunsClosed : Table (RunRow Doc) → Type 0
  RunsClosed m =
      (k : String) (row : RunRow Doc) → lookup k m ≡ some row → is_open_run row.status ≡ false

  -- the second loop and the result
  abbrev block_rest : Instant → List RunRecord → Tx (Store Doc) ReconciliationResult
  block_rest at runs = do
    task_rows ← gets (worked_on p event_id)
    tasks ← for_each (block_row p event_id at) task_rows
    pure (result_of runs tasks)

  block_rest-IsShut :
      (at : Instant) (runs : List RunRecord) (s : Store Doc)
      → HasKeys s.tasks
      → RowsFit p event_id s
      → RunsClosed s.runs
      → (r : ReconciliationResult) → (block_rest at runs s).0 ≡ ok r
      → IsShut (block_rest at runs s).1
  block_rest-IsShut at runs s k rows closed r h =
      (Ensures-bind (TasksMoved p event_id s RunsClosed) _ IsShut
          (for_each (block_row p event_id at) (worked_on p event_id s)) _
          (tasks_loop p event_id at s RunsClosed k rows)
          (λ tasks. record {
            at = λ s' a both e. (both.0.1, tasks_rest p event_id s s' both.0.0 both.1);
          })).at
        s r ((λ j row l. inr l), closed) h

  body-IsShut :
      (at : Instant) (s : Store Doc) (r : ReconciliationResult)
      → HasKeys s.runs
      → HasKeys s.tasks
      → RunsKeyed p event_id s
      → RowsFit p event_id s
      → (reconcile_body p event_id at s).0 ≡ ok r
      → IsShut (reconcile_body p event_id at s).1
  unfolding reconcile_body
  body-IsShut at s r kr kt keyed rows h =
      (Ensures-bind (RunsMoved p event_id s) _ IsShut
          (for_each (interrupt_row p event_id at) (open_runs p event_id s)) (block_rest at)
          (runs_loop p event_id at s kr keyed)
          (λ runs. record {
            at = λ s' a both e.
                let same : s'.tasks ≡ s.tasks = both.0.1 in
                block_rest-IsShut at runs s' (subst HasKeys (sym same) kt)
                  (λ k row l. rows k row (ap (lookup k) (sym same) ∙ l))
                  (runs_closed p event_id s s' both.0 both.1) a e;
          })).at
        s r ((λ j row l. inr l), refl) h

  -- no run that is queued or running, and no task that is planning or running
  abbrev pub IsCleared : Store Doc → Type 0
  IsCleared s =
      ((k : String) (row : RunRow Doc)
        → lookup k s.runs ≡ some row
        → (row.status ≢ RunStatus.queued) × (row.status ≢ RunStatus.running))
      × ((k : String) (row : TaskRow Doc)
          → lookup k s.tasks ≡ some row
          → (row.status ≢ TaskStatus.planning) × (row.status ≢ TaskStatus.running))

  shut_run :
      (st : RunStatus) → is_open_run st ≡ false → (st ≢ RunStatus.queued) × (st ≢ RunStatus.running)
  shut_run st h = (
    (λ e. absurd (ground (arith, ap is_open_run e, h))),
    (λ e. absurd (ground (arith, ap is_open_run e, h))),
  )

  shut_task :
      (st : TaskStatus)
      → is_worked_on st ≡ false
      → (st ≢ TaskStatus.planning) × (st ≢ TaskStatus.running)
  shut_task st h = (
    (λ e. absurd (ground (arith, ap is_worked_on e, h))),
    (λ e. absurd (ground (arith, ap is_worked_on e, h))),
  )

  shut-IsCleared : (s : Store Doc) → IsShut s → IsCleared s
  shut-IsCleared s h = (
    (λ k row l. shut_run row.status (h.0 k row l)),
    (λ k row l. shut_task row.status (h.1 k row l)),
  )

  in_transaction :
      (now : Instant) (at : Option Datetime) (t : Instant) (s : Store Doc)
      → aware_time now at ≡ ok t
      → reconcile_interrupted_running p event_id now at s
        ≡ transaction (reconcile_body p event_id t) s
  in_transaction now at t s q = unfold reconcile_interrupted_running in rw q refl

  -- Where the recovery of a sound store returns, no run of the store is queued or running any
  -- more, and no task planning or running; a recovery that raises leaves the store as it was. Each
  -- run is stored under its id, and each key of the two tables once.
  pub reconcile-IsCleared :
      (now : Instant) (at : Option Datetime) (s : Store Doc)
      → HasKeys s.runs
      → HasKeys s.tasks
      → RunsKeyed p event_id s
      → IsSound p s
      → ((r : ReconciliationResult)
          → (reconcile_interrupted_running p event_id now at s).0 ≡ ok r
          → IsCleared (reconcile_interrupted_running p event_id now at s).1)
        × ((e : Error)
            → (reconcile_interrupted_running p event_id now at s).0 ≡ err e
            → (reconcile_interrupted_running p event_id now at s).1 ≡ s)
  reconcile-IsCleared now at s kr kt keyed sound = elim (Result-cases (aware_time now at)) [
    | inr (x, q) ↦ (
      (λ r h. absurd (unfold reconcile_interrupted_running in ground (arith, q))),
      (λ e h. unfold reconcile_interrupted_running in ground (arith, q)),
    )
    | inl (t, q) ↦
        let run = in_transaction now at t s q in
        (
          (λ r h.
              let same =
                transaction-ok (reconcile_body p event_id t) s r (ap (λ z. z.0) (sym run) ∙ h) in
              subst (λ (z : Result ReconciliationResult × Store Doc). IsCleared z.1)
                (sym (run ∙ same))
                (shut-IsCleared (reconcile_body p event_id t s).1 (
                  body-IsShut t s r kr kt keyed sound.rows
                    (ap (λ z. z.0) (sym (run ∙ same)) ∙ h)))),
          (λ e h.
              ap (λ z. z.1) run
              ∙ transaction-err (reconcile_body p event_id t) s e (ap (λ z. z.0) (sym run) ∙ h)),
        )
  ]
