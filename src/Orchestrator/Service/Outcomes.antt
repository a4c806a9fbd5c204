-- ===== src/Orchestrator/Service/Outcomes.antt =====
-- What `process_task` returns, and that it closes what it opens.
use ai_infrastructure_as_cod.Prelude.{
  ℕ, suc, Bool, true, false, String, Option, none, some, ◌≡◌, ◌≢◌, refl, Bool-cases, inl, inr, ◌==◌,
  if◌then◌else◌, ap, sym, ◌∙◌, arith,
}
use ai_infrastructure_as_cod.Errors.{ok, Result-cases}
use ai_infrastructure_as_cod.Domain.Json.{Fields}
use mathlib.Core.Path.{subst}
use ai_infrastructure_as_cod.Domain.Time.{Instant}
use ai_infrastructure_as_cod.Domain.Status.{TaskStatus, is_terminal, status_eq}
use ai_infrastructure_as_cod.Domain.Tasks.{Task}
use ai_infrastructure_as_cod.Domain.Events.{EventType, EventLevel, EventEnvelope, validate_context}
use ai_infrastructure_as_cod.Orchestrator.Selection.{
  ConfigBundle, DeveloperSelection, Selected, chosen, refused, missing_key, no_product_team,
  not_reciprocal, no_candidate, several_candidates,
}
use ai_infrastructure_as_cod.Orchestrator.Ports.{
  preparation_blocked, preparation_error, lookup_error, exception, interruption, storage, Outcome,
  returned, raised, and_then, Call, pure, raise, ◌>>=◌, ◌>>◌, RuntimeStatus, PreparedWorkspace,
  RuntimeResult, Ports,
}
use ai_infrastructure_as_cod.Orchestrator.Calls.{
  Gives, Gives-bind, Gives-after, Gives-pure, Gives-within, bind_returned, Leaves, Leaves-bind,
}
use ai_infrastructure_as_cod.Orchestrator.Service.{
  from_result, event, envelope, Locals, Ended, early, final, TaskProcessResult, result_of, on_ports,
  transition, block, fail, finish_task, conclude, execute_task, in_workspace, fail_unless_ended,
  recover_task, handle, run_task, with_developer, start_task, process_task, notify,
}
use ai_infrastructure_as_cod.Orchestrator.Service.Keeps.{Respects, Guards, process_task-Keeps}

-- Where the calls that open a workspace count one up, those that close it one down, and no other
-- call changes the count, `process_task` leaves it as it was, however it ends.
pub process_task-Balanced :
    {S : Type 0} (p : Ports S) (held : S → ℕ) (bundle : ConfigBundle) (timeout : ℕ)
    (task_id : String) (s : S)
    → ((n : ℕ) → Respects p (λ z. held z ≡ n))
    → ((n : ℕ) → Guards p (λ z. held z ≡ n) (λ z. held z ≡ suc n))
    → held (process_task p bundle timeout task_id s).1 ≡ held s
process_task-Balanced p held bundle timeout task_id s k g =
    (process_task-Keeps p (λ z. held z ≡ held s) (λ z. held z ≡ suc (held s)) (k (held s))
        (k (suc (held s))) (g (held s)) bundle timeout task_id).at
      s refl

-- A task that has ended, or waits for an operator.
abbrev pub has_stopped : TaskStatus → Bool
has_stopped TaskStatus.blocked = true
has_stopped TaskStatus.completed = true
has_stopped TaskStatus.failed = true
has_stopped TaskStatus.cancelled = true
has_stopped _ = false

-- An event that is drawn has an id that is fresh. With a fresh event, the store returns a task in the
-- status that it was moved to.
pub record Moves {S : Type 0} (p : Ports S) (IsFresh : String → S → Type 0) : Type 0 where
  pub drawn : Leaves p.draw (λ x s. IsFresh x.0 s)
  pub transition :
      (id : String) (t : TaskStatus) (e : EventEnvelope) (s : S) (r : Task)
      → IsFresh e.event_id s
      → (p.transition_task id t e s).0 ≡ returned r
      → r.status ≡ t
  pub cancel :
      (id : String) (e : EventEnvelope) (s : S) (r : Task)
      → IsFresh e.event_id s
      → (p.cancel_task id e s).0 ≡ returned r
      → r.status ≡ TaskStatus.cancelled

abbrev Stopped : TaskProcessResult → Type 0
Stopped r = has_stopped r.status ≡ true

abbrev StoppedTask : Task → Type 0
StoppedTask t = has_stopped t.status ≡ true

stops : (st st' : TaskStatus) → st ≡ st' → has_stopped st' ≡ true → has_stopped st ≡ true
stops st st' e h = rw e h

terminal_stops : (st : TaskStatus) → is_terminal st ≡ true → has_stopped st ≡ true
unfolding is_terminal
terminal_stops TaskStatus.pending h = h
terminal_stops TaskStatus.queued h = h
terminal_stops TaskStatus.planning h = h
terminal_stops TaskStatus.running h = h
terminal_stops TaskStatus.review h = h
terminal_stops TaskStatus.qa h = h
terminal_stops TaskStatus.blocked h = refl
terminal_stops TaskStatus.completed h = refl
terminal_stops TaskStatus.failed h = refl
terminal_stops TaskStatus.cancelled h = refl

validated_same : (x e : EventEnvelope) → validate_context x ≡ ok e → e ≡ x
unfolding validate_context
validated_same x e h = ground (arith, h)

checked-fresh :
    {S : Type 0} (F : String → S → Type 0) (r : Outcome (String × Instant) × S)
    (g : String × Instant → EventEnvelope) (e : EventEnvelope)
    → ((x : String × Instant) → (g x).event_id ≡ x.0)
    → ((x : String × Instant) → r.0 ≡ returned x → F x.0 r.1)
    → (and_then r (λ x. from_result (validate_context (g x)))).0 ≡ returned e
    → F e.event_id (and_then r (λ x. from_result (validate_context (g x)))).1
unfolding from_result
checked-fresh F (raised x, s) g e k h q = ground (arith, q)
checked-fresh F (returned x, s) g e k h q = elim (Result-cases (validate_context (g x))) [
  | inr (y, v) ↦ ground (arith, q, v)
  | inl (y, v) ↦
      let same : y ≡ e = ground (arith, q, v) in
      let id : e.event_id ≡ x.0 =
        ap (λ (z : EventEnvelope). z.event_id) (sym same ∙ validated_same (g x) y v) ∙ k x in
      rw v (subst (λ z. F z s) (sym id) (h x refl))
]

module _ {S : Type 0} (p : Ports S) (IsFresh : String → S → Type 0) (law : Moves p IsFresh) where
  event-Leaves :
      (task : Task) (t : EventType) (agent : Option String) (level : EventLevel) (fs : Fields)
      → Leaves (event p task t agent level fs) (λ e s. IsFresh e.event_id s)
  unfolding event ◌>>=◌
  event-Leaves task t agent level fs = record {
    at = λ s e h.
        checked-fresh IsFresh (p.draw s) (envelope p task t agent level fs) e (λ x. refl)
          (law.drawn.at s) h;
  }

  transition-Gives :
      (task : Task) (target : TaskStatus) (agent : Option String) (level : EventLevel) (fs : Fields)
      → Gives (transition p task target agent level fs) (λ t. t.status ≡ target)
  unfolding transition
  transition-Gives task target agent level fs = Gives-after _ _ _ (λ type.
      Leaves-bind (λ e s. IsFresh e.event_id s) _ _ _ (event-Leaves task type agent level _)
        (λ e. law.transition task.task_id target e))

  -- the end of `block` and `fail`
  told-Gives :
      (target : TaskStatus) (m : Call S Task) (code : String)
      → has_stopped target ≡ true
      → Gives m (λ t. t.status ≡ target)
      → Gives (m >>= (λ t. notify p t >> pure (result_of t (some code)))) Stopped
  told-Gives target m code h g =
      Gives-bind (λ t. t.status ≡ target) Stopped m _ g
        (λ t e. Gives-after _ _ _ (λ u. Gives-pure _ _ (stops t.status target e h)))

  block-Gives : (task : Task) (code : String) → Gives (block p task code) Stopped
  unfolding block
  block-Gives task code =
      Gives-after _ _ _
        (λ current. told-Gives TaskStatus.blocked _ code refl (transition-Gives current _ _ _ _))

  fail-Gives : (task : Task) (code : String) → Gives (fail p task code) Stopped
  unfolding fail
  fail-Gives task code =
      Gives-after _ _ _
        (λ current. told-Gives TaskStatus.failed _ code refl (transition-Gives current _ _ _ _))

  ended-Gives :
      (target : TaskStatus) (m : Call S Task)
      → has_stopped target ≡ true
      → Gives m (λ t. t.status ≡ target)
      → Gives m StoppedTask
  ended-Gives target m h g = record { at = λ s t e. stops t.status target (g.at s t e) h }

  finish_task-Gives :
      (st : RuntimeStatus) (task : Task) (r : RuntimeResult) (branch : String)
      → Gives (finish_task p st task r branch) StoppedTask
  unfolding finish_task
  finish_task-Gives RuntimeStatus.succeeded task r branch =
      ended-Gives TaskStatus.completed _ refl (transition-Gives task _ _ _ _)
  finish_task-Gives RuntimeStatus.failed task r branch =
      ended-Gives TaskStatus.failed _ refl (transition-Gives task _ _ _ _)
  finish_task-Gives RuntimeStatus.timed_out task r branch =
      ended-Gives TaskStatus.failed _ refl (transition-Gives task _ _ _ _)
  finish_task-Gives RuntimeStatus.cancelled task r branch =
      ended-Gives TaskStatus.cancelled _ refl (
        Leaves-bind (λ e s. IsFresh e.event_id s) _ _ _ (event-Leaves task _ _ _ _)
          (λ e. law.cancel task.task_id e))

  -- what the body of the `with` returns
  StoppedEnd : Ended → Type 0
  StoppedEnd (early r) = Stopped r
  StoppedEnd (final t) = StoppedTask t

  on_ports-Gives : {A : Type 0} (m : Call S A) (R : A → Type 0) → Gives m R → Gives (on_ports m) R
  unfolding on_ports
  on_ports-Gives m R g = record { at = λ w a e. g.at w.1 a e }

  module _ (bundle : ConfigBundle) (timeout : ℕ) where
    conclude-Gives :
        (current : Task) (r : RuntimeResult) (branch : String)
        → Gives (conclude p bundle timeout current r branch) StoppedEnd
    unfolding conclude StoppedEnd
    conclude-Gives current r branch = elim (Bool-cases (current.status == TaskStatus.cancelled)) [
      | inl q ↦
          rw (q, conclude)
            (Gives-after _ _ _ (λ u.
              Gives-pure _ _
                (stops current.status TaskStatus.cancelled ((status_eq.beq_iff _ _).0 q) refl)))
      | inr q ↦
          rw (q, conclude)
            (Gives-bind StoppedTask _ _ _ (finish_task-Gives r.status current r branch)
              (λ t e. Gives-pure _ _ e))
    ]

    execute_task-Gives :
        (task : Task) (developer : DeveloperSelection) (w : PreparedWorkspace)
        → Gives (execute_task p bundle timeout task developer w) StoppedEnd
    unfolding execute_task
    execute_task-Gives task developer w = Gives-after _ _ _ (λ t. Gives-after _ _ _ (λ u.
        Gives-after _ _ _ (λ u. Gives-after _ _ _ (λ id. Gives-after _ _ _ (λ u.
          Gives-after _ _ _ (λ u. Gives-after _ _ _ (λ r. Gives-after _ _ _ (λ u.
            Gives-after _ _ _ (λ u.
              Gives-after _ _ _
                (λ current. on_ports-Gives _ _ (conclude-Gives current r _)))))))))))

    fail_unless_ended-Gives :
        (current : Task) → Gives (fail_unless_ended p bundle timeout current) Stopped
    fail_unless_ended-Gives current = elim (Bool-cases (is_terminal current.status)) [
      | inl q ↦ rw q (Gives-pure Stopped _ (terminal_stops current.status q))
      | inr q ↦ rw q (fail-Gives current "runtime-exception")
    ]

    recover-Gives : (l : Locals) → Gives (recover_task p bundle timeout l) Stopped
    unfolding recover_task
    recover-Gives l = Gives-after _ _ _ (λ u. Gives-after _ _ _ fail_unless_ended-Gives)

    handle-Gives :
        (r : Outcome Ended) (l : Locals)
        → ((a : Ended) → r ≡ returned a → StoppedEnd a)
        → Gives (handle p bundle timeout r l) Stopped
    unfolding handle StoppedEnd
    handle-Gives (returned (early r)) l h = Gives-pure Stopped r (h (early r) refl)
    handle-Gives (returned (final t)) l h =
        Gives-after _ _ _ (λ u. Gives-pure Stopped _ (h (final t) refl))
    handle-Gives (raised preparation_blocked) l h = block-Gives l.task "project-preparation"
    handle-Gives (raised preparation_error) l h = fail-Gives l.task "project-preparation"
    handle-Gives (raised interruption) l h =
        unfold raise in record { at = λ s a e. ground (arith, e) }
    handle-Gives (raised lookup_error) l h = recover-Gives l
    handle-Gives (raised exception) l h = recover-Gives l
    handle-Gives (raised (storage e)) l h = recover-Gives l

    run_task-Gives :
        (developer : DeveloperSelection) (task : Task)
        → Gives (run_task p bundle timeout developer task) Stopped
    unfolding run_task in_workspace
    run_task-Gives developer task = record {
      at = λ s a e.
          let l : Locals = record { task = task; run_id = none; run_finished = false } in
          (handle-Gives (in_workspace p bundle timeout task developer (l, s)).0
              (in_workspace p bundle timeout task developer (l, s)).1.0
              ((Gives-within StoppedEnd _ _ _ (execute_task-Gives task developer)).at (l, s))).at
            _ a e;
    }

    with_developer-Gives :
        (task : Task) (d : Selected DeveloperSelection)
        → Gives (with_developer p bundle timeout task d) Stopped
    unfolding with_developer
    with_developer-Gives task (refused missing_key) =
        unfold raise in record { at = λ s a e. ground (arith, e) }
    with_developer-Gives task (refused no_product_team) = fail-Gives task _
    with_developer-Gives task (refused not_reciprocal) = fail-Gives task _
    with_developer-Gives task (refused no_candidate) = fail-Gives task _
    with_developer-Gives task (refused several_candidates) = fail-Gives task _
    with_developer-Gives task (chosen d) =
        Gives-after _ _ _ (λ e. Gives-after _ _ _ (run_task-Gives d))

    start_task-Gives : (task : Task) → Gives (start_task p bundle timeout task) Stopped
    unfolding start_task
    start_task-Gives task = Gives-after _ _ _ (λ t. with_developer-Gives t _)

    process_read :
        (task_id : String) (s : S) (task : Task)
        → (p.get_task task_id s).0 ≡ returned task
        → process_task p bundle timeout task_id s
          ≡ (if task.status == TaskStatus.queued
                then start_task p bundle timeout task
                else pure (result_of task none))
              (p.get_task task_id s).1
    unfolding process_task
    process_read task_id s task h = bind_returned (p.get_task task_id) _ s task h

    -- Where the ids of new events are fresh, and the store with a fresh event returns a task in the
    -- status that it moved it to, what `process_task`
    -- returns for a queued task has stopped: it has ended, or is blocked. For any other task it
    -- only reads the task, and returns its status.
    pub process_task-Stopped :
        (task_id : String) (s : S) (task : Task)
        → (p.get_task task_id s).0 ≡ returned task
        → ((r : TaskProcessResult)
            → task.status ≡ TaskStatus.queued
            → (process_task p bundle timeout task_id s).0 ≡ returned r
            → has_stopped r.status ≡ true)
          × (task.status ≢ TaskStatus.queued
              → process_task p bundle timeout task_id s
                ≡ (returned (result_of task none), (p.get_task task_id s).1))
    process_task-Stopped task_id s task h = elim (Bool-cases (task.status == TaskStatus.queued)) [
      | inl q ↦
          let run : process_task p bundle timeout task_id s
              ≡ start_task p bundle timeout task (p.get_task task_id s).1 =
            (process_read task_id s task h ∙ rw q refl) in
          (
            (λ r e k.
                (start_task-Gives task).at (p.get_task task_id s).1 r
                  (ap (λ z. z.0) (sym run) ∙ k)),
            (λ no_queue. absurd (no_queue ((status_eq.beq_iff _ _).0 q))),
          )
      | inr q ↦ (
        (λ r e k. absurd (cc (q, (status_eq.beq_iff task.status TaskStatus.queued).1 e))),
        (λ no_queue. process_read task_id s task h ∙ rw q (unfold pure in refl)),
      )
    ]
