-- ===== src/Orchestrator/Service/Keeps.antt =====
-- What the ports keep, `process_task` and `cancel_task` keep.
use ai_infrastructure_as_cod.Prelude.{
  ℕ, ℤ, false, String, Option, none, some, ◌≡◌, Bool-cases, inl, inr, Option-cases, ◌==◌,
  if◌then◌else◌,
}
use ai_infrastructure_as_cod.Errors.{Result, ok, err}
use ai_infrastructure_as_cod.Domain.Json.{Fields}
use ai_infrastructure_as_cod.Domain.Status.{TaskStatus, is_terminal, status_eq}
use ai_infrastructure_as_cod.Domain.Tasks.{Task}
use ai_infrastructure_as_cod.Domain.Events.{EventType, EventLevel, EventEnvelope}
use ai_infrastructure_as_cod.Orchestrator.Selection.{
  ConfigBundle, DeveloperSelection, Selected, chosen, refused, missing_key, no_product_team,
  not_reciprocal, no_candidate, several_candidates,
}
use ai_infrastructure_as_cod.Orchestrator.Ports.{
  preparation_blocked, preparation_error, lookup_error, exception, interruption, storage, Outcome,
  returned, raised, Call, pure, ◌>>=◌, RunOutcome, RuntimeStatus, PreparedWorkspace, RuntimeRequest,
  RuntimeResult, Ports,
}
use ai_infrastructure_as_cod.Orchestrator.Calls.{
  Keeps, Keeps-bind, Keeps-pure, Keeps-raise, Keeps-log, Keeps-suppress, Opened, Keeps-within,
}
use ai_infrastructure_as_cod.Orchestrator.Service.{
  Locals, Ended, early, final, on_ports, or_raise, from_result, event, transition, notify, block,
  fail, finish_run, finish_task, execute_runtime, conclude, execute_task, in_workspace,
  recover_task, handle, run_task, with_developer, start_task, process_task, cancel_open,
  cancel_task, assign, result_of, close_run, fail_unless_ended, stop_execution,
}

-- Each call of a port keeps `P`, but those that open and close a workspace.
pub record Respects {S : Type 0} (p : Ports S) (P : S → Type 0) : Type 0 where
  pub get_task : (id : String) → Keeps P (p.get_task id)
  pub transition_task :
      (id : String) (t : TaskStatus) (e : EventEnvelope) → Keeps P (p.transition_task id t e)
  pub assign_task : (id agent : String) (e : EventEnvelope) → Keeps P (p.assign_task id agent e)
  pub cancel_task : (id : String) (e : EventEnvelope) → Keeps P (p.cancel_task id e)
  pub create_run : (id agent runtime : String) → Keeps P (p.create_run id agent runtime)
  pub start_run : (id : String) → Keeps P (p.start_run id)
  pub finish_run :
      (id : String) (o : RunOutcome) (code : Option ℤ) (error : Option String)
      → Keeps P (p.finish_run id o code error)
  pub execute : (r : RuntimeRequest) → Keeps P (p.execute r)
  pub cancel_execution : (id : String) → Keeps P (p.cancel_execution id)
  pub notify : (f : Task → Call S (Unit {0})) → p.notifier ≡ some f → (t : Task) → Keeps P (f t)
  pub draw : Keeps P p.draw

-- A workspace that opens takes a state in `P` to one in `Q`, and closing it takes it back.
pub record Guards {S : Type 0} (p : Ports S) (P Q : S → Type 0) : Type 0 where
  pub opens :
      (project task description : String) (s : S)
      → P s
      → Opened P Q (p.open_workspace project task description s)
  pub closes : (w : PreparedWorkspace) (s : S) → Q s → P (p.close_workspace w s).1

or_raise-Keeps : {S A : Type 0} (P : S → Type 0) (o : Option A) → Keeps P (or_raise o)
unfolding or_raise
or_raise-Keeps P none = record { at = λ s h. h }
or_raise-Keeps P (some a) = record { at = λ s h. h }

from_result-Keeps : {S A : Type 0} (P : S → Type 0) (r : Result A) → Keeps P (from_result r)
unfolding from_result
from_result-Keeps P (ok a) = record { at = λ s h. h }
from_result-Keeps P (err e) = record { at = λ s h. h }

module _ {S : Type 0} (p : Ports S) (P : S → Type 0) (k : Respects p P) where
  event-Keeps :
      (task : Task) (t : EventType) (agent : Option String) (level : EventLevel) (fs : Fields)
      → Keeps P (event p task t agent level fs)
  unfolding event
  event-Keeps task t agent level fs = Keeps-bind P p.draw _ k.draw (λ drawn. from_result-Keeps P _)

  transition-Keeps :
      (task : Task) (target : TaskStatus) (agent : Option String) (level : EventLevel) (fs : Fields)
      → Keeps P (transition p task target agent level fs)
  unfolding transition
  transition-Keeps task target agent level fs =
      Keeps-bind P (or_raise _) _ (or_raise-Keeps P _) (λ t.
        Keeps-bind P _ _ (event-Keeps task t agent level _)
          (λ e. k.transition_task task.task_id target e))

  notify-Keeps : (task : Task) → Keeps P (notify p task)
  unfolding notify
  notify-Keeps task = elim (Option-cases p.notifier) [
    | inl q ↦ rw (q, notify) (Keeps-pure P _)
    | inr (f, q) ↦ rw (q, notify) (Keeps-log P (f task) (k.notify f q task))
  ]

  block-Keeps : (task : Task) (code : String) → Keeps P (block p task code)
  unfolding block
  block-Keeps task code =
      Keeps-bind P (p.get_task task.task_id) _ (k.get_task task.task_id) (λ current.
        Keeps-bind P _ _ (transition-Keeps current TaskStatus.blocked _ _ _)
          (λ t. Keeps-bind P _ _ (notify-Keeps t) (λ u. Keeps-pure P _)))

  fail-Keeps : (task : Task) (code : String) → Keeps P (fail p task code)
  unfolding fail
  fail-Keeps task code =
      Keeps-bind P (p.get_task task.task_id) _ (k.get_task task.task_id) (λ current.
        Keeps-bind P _ _ (transition-Keeps current TaskStatus.failed _ _ _)
          (λ t. Keeps-bind P _ _ (notify-Keeps t) (λ u. Keeps-pure P _)))

  finish_task-Keeps :
      (st : RuntimeStatus) (task : Task) (r : RuntimeResult) (branch : String)
      → Keeps P (finish_task p st task r branch)
  unfolding finish_task
  finish_task-Keeps RuntimeStatus.succeeded task r branch = transition-Keeps task _ _ _ _
  finish_task-Keeps RuntimeStatus.failed task r branch = transition-Keeps task _ _ _ _
  finish_task-Keeps RuntimeStatus.timed_out task r branch = transition-Keeps task _ _ _ _
  finish_task-Keeps RuntimeStatus.cancelled task r branch =
      Keeps-bind P _ _ (event-Keeps task _ _ _ _) (λ e. k.cancel_task task.task_id e)

  on_ports-Keeps :
      {A : Type 0} (m : Call S A) → Keeps P m → Keeps (λ (w : Locals × S). P w.1) (on_ports m)
  unfolding on_ports
  on_ports-Keeps m h = record { at = λ w q. h.at w.1 q }

  module _ (bundle : ConfigBundle) (timeout : ℕ) where
    execute_runtime-Keeps :
        (task : Task) (agent workspace : String)
        → Keeps P (execute_runtime p bundle timeout task agent workspace)
    unfolding execute_runtime
    execute_runtime-Keeps task agent workspace =
        Keeps-bind P _ _ (or_raise-Keeps P _) (λ r. k.execute r)

    conclude-Keeps :
        (current : Task) (r : RuntimeResult) (branch : String)
        → Keeps P (conclude p bundle timeout current r branch)
    unfolding conclude
    conclude-Keeps current r branch = elim (Bool-cases (current.status == TaskStatus.cancelled)) [
      | inl q ↦ rw (q, conclude) (Keeps-bind P _ _ (notify-Keeps current) (λ u. Keeps-pure P _))
      | inr q ↦
          rw (q, conclude)
            (Keeps-bind P _ _ (finish_task-Keeps r.status current r branch) (λ t. Keeps-pure P _))
    ]

    abbrev Beside : Locals × S → Type 0
    Beside w = P w.1

    assign-Keeps : (f : Locals → Locals) → Keeps Beside (assign f)
    unfolding assign
    assign-Keeps f = record { at = λ w q. q }

    -- a step of the body, and what follows it
    step :
        {A B : Type 0} (m : Call S A) (f : A → Call (Locals × S) B)
        → Keeps P m
        → ((a : A) → Keeps Beside (f a))
        → Keeps Beside (on_ports m >>= f)
    step m f h r = Keeps-bind Beside (on_ports m) f (on_ports-Keeps m h) r

    execute_task-Keeps :
        (task : Task) (developer : DeveloperSelection) (w : PreparedWorkspace)
        → Keeps Beside (execute_task p bundle timeout task developer w)
    unfolding execute_task finish_run
    execute_task-Keeps task developer w = step _ _ (transition-Keeps task _ _ _ _) (λ t.
        Keeps-bind Beside _ _ (assign-Keeps _) (λ u. step _ _ (notify-Keeps t) (λ u.
          step _ _ (k.create_run _ _ _) (λ id. Keeps-bind Beside _ _ (assign-Keeps _) (λ u.
            step _ _ (k.start_run id) (λ u. step _ _ (execute_runtime-Keeps t _ _) (λ r.
              step _ _ (k.finish_run _ _ _ _) (λ u. Keeps-bind Beside _ _ (assign-Keeps _) (λ u.
                step _ _ (k.get_task _)
                  (λ current. on_ports-Keeps _ (conclude-Keeps current r _)))))))))))

    close_run-Keeps : (l : Locals) → Keeps P (close_run p bundle timeout l)
    close_run-Keeps l = elim (Option-cases l.run_id) [
      | inl q ↦ rw q (Keeps-pure P tt)
      | inr (id, q) ↦ elim (Bool-cases l.run_finished) [
        | inl b ↦ rw (q, b) (Keeps-pure P tt)
        | inr b ↦ rw (q, b) (Keeps-log P _ (k.finish_run id RunOutcome.failed none _))
      ]
    ]

    fail_unless_ended-Keeps :
        (current : Task) → Keeps P (fail_unless_ended p bundle timeout current)
    fail_unless_ended-Keeps current = elim (Bool-cases (is_terminal current.status)) [
      | inl q ↦ rw q (Keeps-pure P _)
      | inr q ↦ rw q (fail-Keeps current "runtime-exception")
    ]

    recover-Keeps : (l : Locals) → Keeps P (recover_task p bundle timeout l)
    unfolding recover_task
    recover-Keeps l =
        Keeps-bind P _ _ (close_run-Keeps l)
          (λ u. Keeps-bind P _ _ (k.get_task l.task.task_id) fail_unless_ended-Keeps)

    handle-Keeps : (r : Outcome Ended) (l : Locals) → Keeps P (handle p bundle timeout r l)
    unfolding handle
    handle-Keeps (returned (early r)) l = Keeps-pure P r
    handle-Keeps (returned (final t)) l = Keeps-bind P _ _ (notify-Keeps t) (λ u. Keeps-pure P _)
    handle-Keeps (raised preparation_blocked) l = block-Keeps l.task "project-preparation"
    handle-Keeps (raised preparation_error) l = fail-Keeps l.task "project-preparation"
    handle-Keeps (raised interruption) l = Keeps-raise P interruption
    handle-Keeps (raised lookup_error) l = recover-Keeps l
    handle-Keeps (raised exception) l = recover-Keeps l
    handle-Keeps (raised (storage e)) l = recover-Keeps l

module _ {S : Type 0} (p : Ports S) (P Q : S → Type 0) (k : Respects p P) (inside : Respects p Q)
    (g : Guards p P Q) (bundle : ConfigBundle) (timeout : ℕ) where
  Opened-Beside :
      {A : Type 0} (l : Locals) (x : Outcome A × S)
      → Opened P Q x
      → Opened (λ (w : Locals × S). P w.1) (λ w. Q w.1) (x.0, (l, x.1))
  Opened-Beside l (returned a, s) h = h
  Opened-Beside l (raised e, s) h = h

  in_workspace-Keeps :
      (task : Task) (developer : DeveloperSelection)
      → Keeps (λ (w : Locals × S). P w.1) (in_workspace p bundle timeout task developer)
  unfolding in_workspace on_ports
  in_workspace-Keeps task developer =
      Keeps-within (λ (w : Locals × S). P w.1) (λ w. Q w.1) _ _ _
        (λ w h. Opened-Beside w.0 _ (g.opens task.project task.task_id task.request w.1 h))
        (λ u w h. g.closes u w.1 h) (execute_task-Keeps p Q inside bundle timeout task developer)

  run_task-Keeps :
      (developer : DeveloperSelection) (task : Task)
      → Keeps P (run_task p bundle timeout developer task)
  unfolding run_task
  run_task-Keeps developer task = record {
    at = λ s h.
        let l : Locals = record { task = task; run_id = none; run_finished = false } in
        (handle-Keeps p P k bundle timeout (in_workspace p bundle timeout task developer (l, s)).0
            (in_workspace p bundle timeout task developer (l, s)).1.0).at
          _ ((in_workspace-Keeps task developer).at (l, s) h);
  }

  with_developer-Keeps :
      (task : Task) (d : Selected DeveloperSelection)
      → Keeps P (with_developer p bundle timeout task d)
  unfolding with_developer
  with_developer-Keeps task (refused missing_key) = Keeps-raise P exception
  with_developer-Keeps task (refused no_product_team) = fail-Keeps p P k task _
  with_developer-Keeps task (refused not_reciprocal) = fail-Keeps p P k task _
  with_developer-Keeps task (refused no_candidate) = fail-Keeps p P k task _
  with_developer-Keeps task (refused several_candidates) = fail-Keeps p P k task _
  with_developer-Keeps task (chosen d) =
      Keeps-bind P _ _ (event-Keeps p P k task _ _ _ _)
        (λ e. Keeps-bind P _ _ (k.assign_task _ _ e) (run_task-Keeps d))

  start_task-Keeps : (task : Task) → Keeps P (start_task p bundle timeout task)
  unfolding start_task
  start_task-Keeps task =
      Keeps-bind P _ _ (transition-Keeps p P k task _ _ _ _) (λ t. with_developer-Keeps t _)

  -- What every call of the ports keeps, `process_task` keeps, however it ends. Between the opening
  -- and the closing of the workspace it may be another property that they keep.
  pub process_task-Keeps : (task_id : String) → Keeps P (process_task p bundle timeout task_id)
  unfolding process_task
  process_task-Keeps task_id = Keeps-bind P _ _ (k.get_task task_id) if_queued
    where
      if_queued :
          (t : Task)
          → Keeps P (
              if t.status == TaskStatus.queued
              then start_task p bundle timeout t
              else pure (result_of t none))
      if_queued t = elim (Bool-cases (t.status == TaskStatus.queued)) [
        | inl q ↦ rw q (start_task-Keeps t)
        | inr q ↦ rw q (Keeps-pure P _)
      ]

module _ {S : Type 0} (p : Ports S) (P : S → Type 0) (k : Respects p P) where
  stop-Keeps : (t : Task) (id : String) → Keeps P (stop_execution p t id)
  stop-Keeps t id = elim (Bool-cases (t.status == TaskStatus.running)) [
    | inl q ↦ rw q (Keeps-suppress P _ (k.cancel_execution id))
    | inr q ↦ rw q (Keeps-pure P tt)
  ]

  cancel_open-Keeps : (t : Task) (id : String) → Keeps P (cancel_open p t id)
  unfolding cancel_open
  cancel_open-Keeps t id = Keeps-bind P _ _ (stop-Keeps t id) (λ u.
      Keeps-bind P _ _ (event-Keeps p P k t _ _ _ _) (λ e.
        Keeps-bind P _ _ (k.cancel_task id e)
          (λ c. Keeps-bind P _ _ (notify-Keeps p P k c) (λ u. Keeps-pure P c))))

  pub cancel_task-Keeps : (id : String) → Keeps P (cancel_task p id)
  unfolding cancel_task
  cancel_task-Keeps id = Keeps-bind P _ _ (k.get_task id) unless_ended
    where
      unless_ended :
          (t : Task) → Keeps P (if is_terminal t.status then pure t else cancel_open p t id)
      unless_ended t = elim (Bool-cases (is_terminal t.status)) [
        | inl q ↦ rw q (Keeps-pure P t)
        | inr q ↦ rw q (cancel_open-Keeps t id)
      ]
