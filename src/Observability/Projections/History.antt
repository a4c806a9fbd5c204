-- ===== src/Observability/Projections/History.antt =====
-- The log that the store writes for a task, replayed: the projection agrees with the stored task.
use ai_infrastructure_as_cod.Prelude.{
  ℕ, ◌+◌, ◌≤◌, Bool, true, none, some, List, [], ◌∷◌, ◌++◌, All, Table, lookup, insert, lookup-nil,
  lookup-insert, ◌≡◌, ◌≢◌, refl, sym, arith, ap, ◌∙◌, eq_iff, ◌==◌, string_eq, option_eq, length,
}
use ai_infrastructure_as_cod.Errors.{Result, ok, err}
use ai_infrastructure_as_cod.Domain.Status.{pending}
use ai_infrastructure_as_cod.Domain.Tasks.{Task}
use ai_infrastructure_as_cod.Domain.Tasks.Lifecycle.{transition-Keeps, validate-eq}
use ai_infrastructure_as_cod.Domain.Events.{task_created, event_type_eq, EventEnvelope}
use ai_infrastructure_as_cod.Storage.Tasks.{announces, event_for_status}
use ai_infrastructure_as_cod.Observability.Projections.{
  TaskProjection, TaskProjector, new_projector, create, apply, consume, consume_all, replay_task,
  settle,
}
use ai_infrastructure_as_cod.Observability.Projections.Replay.{consume_fresh}
use ai_infrastructure_as_cod.Observability.Projections.Steps.{
  announces-NamesTask, announces-type, announces-payload, moved_applies, assigned_applies,
}
use ai_infrastructure_as_cod.Observability.Projections.Logged.{
  Logged, moved, assigned, LoggedAll, done, then, Ascending, DistinctIds, Agrees, extended,
}

Logged-applies :
    (x : TaskProjection) (t u : Task) (e : EventEnvelope)
    → Agrees x t
    → Logged t e u
    → x.updated_at.utc ≤ e.timestamp.utc
    → (apply x e ≡ ok (extended x e u)) × Agrees (extended x e u) u
Logged-applies x t u e a (moved target n d) le =
    let i = (transition-Keeps e.timestamp t target e.timestamp u d).identity in
    (
      moved_applies x t u target e a n d le,
      record {
        task_id = a.task_id ∙ sym i.0;
        project = a.project ∙ sym i.2;
        team = a.team ∙ sym i.3;
        status = refl;
        agents = refl;
      },
    )
Logged-applies x t u e a (assigned agent n c d) le =
    let eu = validate-eq (record t { assigned_agents = t.assigned_agents ++ agent ∷ [] }) u d in
    (
      assigned_applies x t u agent e a n c d le,
      record {
        task_id = a.task_id ∙ sym (ap (λ (v : Task). v.task_id) eu);
        project = a.project ∙ sym (ap (λ (v : Task). v.project) eu);
        team = a.team ∙ sym (ap (λ (v : Task). v.team) eu);
        status = refl;
        agents = refl;
      },
    )

-- No event of the list was seen before.
abbrev Unseen : Table EventEnvelope → List EventEnvelope → Type 0
Unseen seen es = All (λ (d : EventEnvelope). lookup d.event_id seen ≡ none) es

Unseen-after :
    (seen : Table EventEnvelope) (e : EventEnvelope) (es : List EventEnvelope)
    → All (λ (d : EventEnvelope). e.event_id ≢ d.event_id) es
    → Unseen seen es
    → Unseen (insert e.event_id e seen) es
Unseen-after seen e [] n h = tt
Unseen-after seen e (d ∷ es) n h = (
  ground
      (arith, lookup-insert e.event_id d.event_id e seen, eq_iff e.event_id d.event_id, h.0, n.0),
  Unseen-after seen e es n.1 h.1,
)

all-Unseen : (es : List EventEnvelope) → Unseen [] es
all-Unseen [] = tt
all-Unseen (e ∷ es) = (lookup-nil e.event_id, all-Unseen es)

created_type :
    (t : Task) (e : EventEnvelope)
    → announces t pending e ≡ true
    → (e.event_type == task_created) ≡ true
created_type t e n =
    (event_type_eq.beq_iff e.event_type task_created).1
      (announces-type t pending e n ∙ (unfold event_for_status in refl))

module _ (same : EventEnvelope → EventEnvelope → Bool) where
  -- the projector after one logged event
  abbrev projected : TaskProjector → TaskProjection → EventEnvelope → TaskProjector
  projected p y e = record { projection = some y; seen_events = insert e.event_id e p.seen_events }

  consume_applies :
      (p : TaskProjector) (x y : TaskProjection) (e : EventEnvelope)
      → p.projection ≡ some x
      → lookup e.event_id p.seen_events ≡ none
      → apply x e ≡ ok y
      → consume same p e ≡ (ok y, projected p y e)
  consume_applies p x y e px l h =
      consume_fresh same p e l ∙ (unfold settle in ground (arith, px, h))

  abbrev after : Result TaskProjection × TaskProjector → List EventEnvelope → Result TaskProjector
  after k es = let rest = consume_all same k.1 es in elim k.0 [ err x ↦ err x | ok z ↦ rest ]

  consume_all-cons :
      (p p' : TaskProjector) (y : TaskProjection) (e : EventEnvelope) (es : List EventEnvelope)
      → consume same p e ≡ (ok y, p')
      → consume_all same p (e ∷ es) ≡ consume_all same p' es
  unfolding consume_all
  consume_all-cons p p' y e es h = ap (λ (k : Result TaskProjection × TaskProjector). after k es) h

  abbrev Reflects : Result TaskProjector → Task → ℕ → Type 0
  Reflects r v n =
      (q : TaskProjector) × (y : TaskProjection) × (r ≡ ok q)
      × (q.projection ≡ some y)
      × Agrees y v
      × (y.event_count ≡ n)

  consume_all-Reflects :
      (es : List EventEnvelope) (t v : Task) (p : TaskProjector) (x : TaskProjection)
      → p.projection ≡ some x
      → Agrees x t
      → Unseen p.seen_events es
      → DistinctIds es
      → Ascending x.updated_at es
      → LoggedAll t es v
      → Reflects (consume_all same p es) v (x.event_count + length es)
  consume_all-Reflects [] t v p x px a un di as' done =
      (p, x, (unfold consume_all in refl), px, a, omega arith)
  consume_all-Reflects (e ∷ es) t v p x px a un di as' (then u l ls) =
      let (h, a') = Logged-applies x t u e a l as'.0 in
      let one = consume_applies p x (extended x e u) e px un.0 h in
      let (q, y, all, qy, b, n) =
        consume_all-Reflects es u v (projected p (extended x e u) e) (extended x e u) refl a'
          (Unseen-after p.seen_events e es di.0 un.1) di.1 as'.1 ls in
      (
        q,
        y,
        consume_all-cons p (projected p (extended x e u) e) (extended x e u) e es one ∙ all,
        qy,
        b,
        n ∙ omega arith,
      )

  -- the projection of the event of a new task
  abbrev first : Task → EventEnvelope → TaskProjection
  first t e = record {
    task_id = t.task_id;
    project = t.project;
    team = t.team;
    status = pending;
    assigned_agents = [];
    created_at = e.timestamp;
    updated_at = e.timestamp;
    last_event_id = e.event_id;
    last_event_type = e.event_type;
    event_count = 1;
  }

  created_applies :
      (t : Task) (e : EventEnvelope) → announces t pending e ≡ true → create e ≡ ok (first t e)
  unfolding create
  created_applies t e n =
      let names = announces-NamesTask t pending e n in
      ground (
        arith,
        names.task_id,
        names.project,
        names.team,
        created_type t e n,
        announces-payload t pending e n,
      )

  replay-first :
      (e : EventEnvelope) (x : TaskProjection) (es : List EventEnvelope) (q : TaskProjector)
      (y : TaskProjection)
      → create e ≡ ok x
      → consume_all same (projected new_projector x e) es ≡ ok q
      → q.projection ≡ some y
      → replay_task same (e ∷ es) ≡ ok y
  unfolding replay_task
  replay-first e x es q y h all qy =
      let one = consume_all-cons new_projector (projected new_projector x e) x e es (
        consume_fresh same new_projector e (lookup-nil e.event_id)
        ∙ (unfold settle in ground (arith, h))) in
      ground (arith, one, all, qy)

  -- A task is stored as pending with no agent, its `task.created` event is logged, and then come
  -- the events that `transition_task` and `assign_task` demand of each change of it up to the
  -- task `v`. If the event ids are all different and no timestamp goes back, the replay of the
  -- log succeeds, its projection has the id, the project, the team, the status and the agents of
  -- `v`, and it counts every event of the log.
  pub replay-history :
      (t v : Task) (created : EventEnvelope) (es : List EventEnvelope)
      → t.status ≡ pending
      → t.assigned_agents ≡ []
      → announces t pending created ≡ true
      → DistinctIds (created ∷ es)
      → Ascending created.timestamp es
      → LoggedAll t es v
      → (y : TaskProjection) × (replay_task same (created ∷ es) ≡ ok y)
        × Agrees y v
        × (y.event_count ≡ length (created ∷ es))
  replay-history t v created es ts ta n di as' ls =
      let (q, y, all, qy, b, n') =
        consume_all-Reflects es t v (projected new_projector (first t created) created)
          (first t created) refl
          (record { task_id = refl; project = refl; team = refl; status = sym ts; agents = sym ta })
          (Unseen-after [] created es di.0 (all-Unseen es)) di.1 as' ls in
      (
        y,
        replay-first created (first t created) es q y (created_applies t created n) all qy,
        b,
        n' ∙ omega arith,
      )
