-- ===== src/Application/Adapters/Stored.antt =====
-- What `create_task` of the gateway's adapter returns is what the store holds.
use ai_infrastructure_as_cod.Prelude.{
  Bool, true, false, ◌&&◌, String, Option, none, some, lookup, ◌≡◌, refl, sym, ap, ◌∙◌, inl, inr,
  arith, Option-cases, eq_iff, string_eq, if◌then◌else◌,
}
use mathlib.Core.Path.{subst}
use ai_infrastructure_as_cod.Errors.{Error, Result, ok, err}
use ai_infrastructure_as_cod.Domain.Time.{Instant}
use ai_infrastructure_as_cod.Domain.Status.{pending, queued}
use ai_infrastructure_as_cod.Domain.Tasks.{Task, validate}
use ai_infrastructure_as_cod.Domain.Tasks.Lifecycle.{validate-eq}
use ai_infrastructure_as_cod.Domain.Events.{EventType, EventEnvelope}
use ai_infrastructure_as_cod.Gateway.Models.{CreateTaskCommand, TaskView}
use ai_infrastructure_as_cod.Gateway.Ports.{
  Raise, exception, Outcome, returned, raised, Call, and_then, pure, raise, task_conflict, ◌>>=◌,
}
use ai_infrastructure_as_cod.Storage.Models.{TaskRoute}
use ai_infrastructure_as_cod.Storage.Pydantic.{Pydantic}
use ai_infrastructure_as_cod.Storage.Transaction.{Tx}
use ai_infrastructure_as_cod.Storage.Store.{Store}
use ai_infrastructure_as_cod.Storage.Tasks
use ai_infrastructure_as_cod.Storage.Tasks.Created.{get-create_queued}
use ai_infrastructure_as_cod.Storage.Routes.{get_task_route}
use ai_infrastructure_as_cod.Orchestrator.Selection.{ConfigBundle}
use ai_infrastructure_as_cod.Application.Adapters.{
  Machine, on_store, draw_event, new_task, new_route, replay_task, store_task, stored,
  create_in_team, create_task, created_task, matches_replayed_task, equal_routes, task_view,
  uncaught, is_duplicate_task, storage_raise, mapped,
}

module _ {S A B : Type 0} where
  and_then_steps :
      (r : Outcome A) (f : A → Call S B) (s : S) (b : B)
      → (and_then r f s).0 ≡ returned b
      → (a : A) × (r ≡ returned a) × (and_then r f s ≡ f a s)
  and_then_steps (returned a) f s b h = (a, refl, refl)
  and_then_steps (raised e) f s b h = absurd (ground (arith, h))

  -- the two calls of a sequence that returned
  steps :
      (m : Call S A) (f : A → Call S B) (s : S) (b : B)
      → ((m >>= f) s).0 ≡ returned b
      → (a : A) × ((m s).0 ≡ returned a) × ((m >>= f) s ≡ f a (m s).1)
  steps m f s b h = and_then_steps (m s).0 f (m s).1 b h

module _ (p : Pydantic) {T : Type 0} (machine : Machine T) where
  open p use {Doc}

  -- The store holds under the id of the command a task with its content, and `v` is its view.
  pub record Holds (c : CreateTaskCommand) (team : String) (v : TaskView) (s : Store Doc)
      : Type 0 where
    pub task : Task
    pub read : (Tasks.get_task p c.task_id s).0 ≡ ok task
    pub id : task.task_id ≡ c.task_id
    pub source : task.source ≡ c.source
    pub project : task.project ≡ c.project
    pub owner : task.team ≡ team
    pub request : task.request ≡ c.instruction
    pub view : v ≡ task_view task

  get_task-same : (id : String) (s : Store Doc) → (Tasks.get_task p id s).1 ≡ s
  unfolding Tasks.get_task
  get_task-same id s = ground arith

  get_task_route-same : (id : String) (s : Store Doc) → (get_task_route p id s).1 ≡ s
  unfolding get_task_route
  get_task_route-same id s = ground arith

  mapped-ok :
      {A : Type 0} (f : Error → Raise) (r : Result A) (a : A)
      → mapped p machine f r ≡ returned a
      → r ≡ ok a
  mapped-ok f (ok b) a h = ground (arith, h)
  mapped-ok f (err e) a h = absurd (ground (arith, h))

  uncaught-ok : {A : Type 0} (r : Result A) (a : A) → uncaught r ≡ returned a → r ≡ ok a
  uncaught-ok (ok b) a h = ground (arith, h)
  uncaught-ok (err e) a h = absurd (ground (arith, h))

  matched :
      (b : Bool) (t : Task) (w : Store Doc × T) (v : TaskView)
      → ((if b then pure (task_view t) else raise task_conflict) w).0 ≡ returned v
      → (b ≡ true)
        × (v ≡ task_view t)
        × (((if b then pure (task_view t) else raise task_conflict) w).1 ≡ w)
  matched true t w v h = (refl, ground (arith, h), refl)
  matched false t w v h = absurd (ground (arith, h))

  -- a read that returned, and the store that it left
  read_step :
      {A : Type 0} (f : Error → Raise) (m : Tx (Store Doc) A) (w : Store Doc × T) (a : A)
      → (on_store p machine f m w).0 ≡ returned a
      → ((s : Store Doc) → (m s).1 ≡ s)
      → ((m w.0).0 ≡ ok a) × ((on_store p machine f m w).1.0 ≡ w.0)
  unfolding on_store
  read_step f m w a h k = (mapped-ok f (m w.0).0 a h, k w.0)

  -- a task that is there with the same content
  replayed :
      (task : Task) (route : Option TaskRoute) (w : Store Doc × T) (v : TaskView)
      → (replay_task p machine task route w).0 ≡ returned v
      → (t : Task) × ((Tasks.get_task p task.task_id (replay_task p machine task route w).1.0).0
          ≡ ok t)
        × (matches_replayed_task t task ≡ true)
        × (v ≡ task_view t)
  unfolding replay_task
  replayed task route w v h =
      let (t, e, run) =
        steps (on_store p machine (λ e. exception) (Tasks.get_task p task.task_id)) _ w v h in
      let (r, e2, run2) =
        steps (on_store p machine (λ e. exception) (get_task_route p task.task_id)) _
          (on_store p machine (λ e. exception) (Tasks.get_task p task.task_id) w).1 v
          (ap (λ z. z.0) (sym run) ∙ h) in
      let one =
        read_step (λ e. exception) (Tasks.get_task p task.task_id) w t e
          (get_task-same task.task_id) in
      let two =
        read_step (λ e. exception) (get_task_route p task.task_id) _ r e2
          (get_task_route-same task.task_id) in
      let (m, view, same) =
        matched (matches_replayed_task t task && equal_routes r route) t _ v
          (ap (λ z. z.0) (sym (run ∙ run2)) ∙ h) in
      (
        t,
        ap (λ (z : Outcome TaskView × (Store Doc × T)). (Tasks.get_task p task.task_id z.1.0).0)
              (run ∙ run2)
            ∙ ap (λ (z : Store Doc). (Tasks.get_task p task.task_id z).0)
                (ap (λ z. z.0) same ∙ two.1 ∙ one.1)
            ∙ one.0,
        ground (arith, m),
        view,
      )

  module _ (c : CreateTaskCommand) (team : String) (now : Instant) where
    abbrev asked : Task
    asked = created_task p machine c team now

    created-Holds :
        (created_event queued_event : EventEnvelope) (route : Option TaskRoute) (s : Store Doc)
        (t : Task)
        → (Tasks.create_queued_task p asked created_event queued_event route s).0 ≡ ok t
        → Holds c team
            (task_view t)
            (Tasks.create_queued_task p asked created_event queued_event route s).1
    created-Holds created_event queued_event route s t h =
        let (read, keeps) = get-create_queued p asked created_event queued_event route s t h in
        let (id, source, project, owner, request, made, agents) = keeps.identity in
        record {
          task = t;
          read = read;
          id = id;
          source = source;
          project = project;
          owner = owner;
          request = request;
          view = refl;
        }

    replay-Holds :
        (route : Option TaskRoute) (w : Store Doc × T) (v : TaskView)
        → (replay_task p machine asked route w).0 ≡ returned v
        → Holds c team v (replay_task p machine asked route w).1.0
    unfolding matches_replayed_task
    replay-Holds route w v h =
        let (t, read, same, view) = replayed asked route w v h in
        record {
          task = t;
          read = read;
          id = (eq_iff t.task_id c.task_id).0 (ground (arith, same));
          source = (eq_iff t.source c.source).0 (ground (arith, same));
          project = (eq_iff t.project c.project).0 (ground (arith, same));
          owner = (eq_iff t.team team).0 (ground (arith, same));
          request = (eq_iff t.request c.instruction).0 (ground (arith, same));
          view = view;
        }

    -- the handlers of the `try`
    handled-Holds :
        (again : Bool) (e : Raise) (route : Option TaskRoute) (w : Store Doc × T) (v : TaskView)
        → ((if again then replay_task p machine asked route else raise e) w).0 ≡ returned v
        → Holds c team v ((if again then replay_task p machine asked route else raise e) w).1.0
    handled-Holds true e route w v h = replay-Holds route w v h
    handled-Holds false e route w v h = absurd (ground (arith, h))

    stored-Holds :
        (route : Option TaskRoute) (r : Result Task) (w : Store Doc × T) (v : TaskView)
        → ((t : Task) → r ≡ ok t → Holds c team (task_view t) w.0)
        → (stored p machine asked route r w).0 ≡ returned v
        → Holds c team v (stored p machine asked route r w).1.0
    stored-Holds route (ok t) w v k h =
        let same : task_view t ≡ v = ground (arith, h) in
        subst (λ z. Holds c team z w.0) same (k t refl)
    stored-Holds route (err e) w v k h =
        handled-Holds (is_duplicate_task e) (storage_raise e) route w v h

    store_task-Holds :
        (created_event queued_event : EventEnvelope) (route : Option TaskRoute) (w : Store Doc × T)
        (v : TaskView)
        → (store_task p machine asked created_event queued_event route w).0 ≡ returned v
        → Holds c team v (store_task p machine asked created_event queued_event route w).1.0
    unfolding store_task
    store_task-Holds created_event queued_event route w v h =
        stored-Holds route _ _ v (λ t e. created-Holds created_event queued_event route w.0 t e) h

  built :
      (c : CreateTaskCommand) (team : String) (w : Store Doc × T) (t : Task)
      → (new_task p machine c team w).0 ≡ returned t
      → created_task p machine c team (machine.now w.1) ≡ t
  unfolding new_task
  built c team w t e =
      let u = created_task p machine c team (machine.now w.1) in
      sym (validate-eq u t (uncaught-ok (validate u) t e))

  built-Holds :
      (c : CreateTaskCommand) (team : String) (now : Instant) (t : Task) (ce qe : EventEnvelope)
      (route : Option TaskRoute) (w : Store Doc × T) (v : TaskView)
      → created_task p machine c team now ≡ t
      → (store_task p machine t ce qe route w).0 ≡ returned v
      → Holds c team v (store_task p machine t ce qe route w).1.0
  built-Holds c team now t ce qe route w v same =
      subst
        (λ z.
          (store_task p machine z ce qe route w).0 ≡ returned v
          → Holds c team v (store_task p machine z ce qe route w).1.0)
        same (store_task-Holds c team now ce qe route w v)

  create_in_team-Holds :
      (c : CreateTaskCommand) (team : String) (w : Store Doc × T) (v : TaskView)
      → (create_in_team p machine c team w).0 ≡ returned v
      → Holds c team v (create_in_team p machine c team w).1.0
  unfolding create_in_team
  create_in_team-Holds c team w v h =
      let (t, e, run) = steps (new_task p machine c team) _ w v h in
      let (ce, e1, run1) =
        steps (draw_event p machine t EventType.task_created pending none) _ _ v
          (ap (λ z. z.0) (sym run) ∙ h) in
      let (qe, e2, run2) =
        steps (draw_event p machine t EventType.task_queued queued (some ce.event_id)) _ _ v
          (ap (λ z. z.0) (sym (run ∙ run1)) ∙ h) in
      let (route, e3, run3) =
        steps (new_route p machine c) _ _ v (ap (λ z. z.0) (sym (run ∙ run1 ∙ run2)) ∙ h) in
      let all = run ∙ run1 ∙ run2 ∙ run3 in
      subst (λ (z : Outcome TaskView × (Store Doc × T)). Holds c team v z.1.0) (sym all)
        (built-Holds c team (machine.now w.1) t ce qe route _ v (built c team w t e)
          (ap (λ z. z.0) (sym all) ∙ h))

  in_team :
      (bundle : ConfigBundle) (c : CreateTaskCommand) (w : Store Doc × T) (team : String)
      → lookup c.project bundle.projects ≡ some team
      → create_task p machine bundle c w ≡ create_in_team p machine c team w
  unfolding create_task create_in_team
  in_team bundle c w team q = rw (q, create_task) refl

  -- Where `create_task` of the gateway's adapter returns, whether it has created the task or has
  -- found it there already, the project is registered, and the store holds under the id of the
  -- command a task with the command's source, project and instruction and the project's team; what
  -- is returned is the view of this task.
  pub create_task-Holds :
      (bundle : ConfigBundle) (c : CreateTaskCommand) (w : Store Doc × T) (v : TaskView)
      → (create_task p machine bundle c w).0 ≡ returned v
      → (team : String) × (lookup c.project bundle.projects ≡ some team)
        × Holds c team v (create_task p machine bundle c w).1.0
  create_task-Holds bundle c w v h = elim (Option-cases (lookup c.project bundle.projects)) [
    | inl q ↦ absurd (unfold create_task in ground (arith, q, h))
    | inr (team, q) ↦
        let run = in_team bundle c w team q in
        (
          team,
          q,
          subst (λ (z : Outcome TaskView × (Store Doc × T)). Holds c team v z.1.0) (sym run)
              (create_in_team-Holds c team w v (ap (λ z. z.0) (sym run) ∙ h)),
        )
  ]
