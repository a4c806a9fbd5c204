-- ===== src/Observability/Projections/Steps.antt =====
-- The projector accepts each event that the store logs, and follows it.
use ai_infrastructure_as_cod.Prelude.{
  ◌+◌, ◌≤◌, true, false, String, Option, none, some, List, [], ◌∷◌, ◌++◌, ◌≡◌, ◌≢◌, refl, sym,
  arith, ap, ◌∙◌, eq_iff, option_beq_iff, ◌==◌, string_eq, option_eq, contains,
}
use ai_infrastructure_as_cod.Errors.{ok}
use ai_infrastructure_as_cod.Domain.Time.{aware}
use ai_infrastructure_as_cod.Domain.Json.{JsonValue, text, get_field, is_text}
use ai_infrastructure_as_cod.Domain.Status.{
  TaskStatus, pending, planning, running, value, can_transition,
}
use ai_infrastructure_as_cod.Domain.Status.Graph.{not_to_pending}
use ai_infrastructure_as_cod.Domain.Tasks.{Task, validate}
use ai_infrastructure_as_cod.Domain.Tasks
use ai_infrastructure_as_cod.Domain.Tasks.Lifecycle.{
  transition-Keeps, transition_moves, validate-eq,
}
use ai_infrastructure_as_cod.Domain.Events.{
  EventType, task_created, agent_assigned, event_type_eq, EventEnvelope, EventType-discrete,
}
use ai_infrastructure_as_cod.Storage.Tasks.{announces, announces_assignment, event_for_status}
use ai_infrastructure_as_cod.Observability.Projections.{
  TaskProjection, status_for, apply, agents_after, illegal, or_status,
}
use ai_infrastructure_as_cod.Observability.Projections.Logged.{Agrees, extended}

-- A logged event names its task, project and team.
pub record NamesTask (t : Task) (e : EventEnvelope) : Type 0 where
  pub task_id : e.task_id ≡ some t.task_id
  pub project : e.project ≡ some t.project
  pub team : e.team ≡ some t.team

pub announces-NamesTask :
    (t : Task) (target : TaskStatus) (e : EventEnvelope)
    → announces t target e ≡ true
    → NamesTask t e
unfolding announces
announces-NamesTask t target e h = record {
  task_id = (option_beq_iff e.task_id (some t.task_id)).0 (ground arith);
  project = (option_beq_iff e.project (some t.project)).0 (ground arith);
  team = (option_beq_iff e.team (some t.team)).0 (ground arith);
}

pub announces-type :
    (t : Task) (target : TaskStatus) (e : EventEnvelope)
    → announces t target e ≡ true
    → e.event_type ≡ event_for_status target
unfolding announces
announces-type t target e h =
    (event_type_eq.beq_iff e.event_type (event_for_status target)).0 (ground arith)

pub announces-payload :
    (t : Task) (target : TaskStatus) (e : EventEnvelope)
    → announces t target e ≡ true
    → is_text (get_field "status" e.payload) (value target) ≡ true
unfolding announces
announces-payload t target e h = ground arith

-- a text is the value of one status only
value-injective_at :
    (o : Option JsonValue) → is_text o "running" ≡ true → is_text o "planning" ≡ false
value-injective_at none h = refl
value-injective_at (some (text s)) h = rw ((eq_iff s "running").0 h)
value-injective_at (some _) h = refl

-- The projector reads the status that the store checked.
status_for_target :
    (target : TaskStatus) (e : EventEnvelope)
    → is_text (get_field "status" e.payload) (value target) ≡ true
    → status_for (event_for_status target) e ≡ ok (some target)
unfolding status_for event_for_status
status_for_target planning e h = ground arith
status_for_target running e h = ground (arith, value-injective_at (get_field "status" e.payload))
status_for_target _ e h = ground arith

not-created : (s : TaskStatus) → s ≢ pending → (event_for_status s == task_created) ≡ false
unfolding event_for_status EventType-discrete
not-created pending h = absurd (h refl)
not-created _ h = refl

not-assigned : (s : TaskStatus) → (event_for_status s == agent_assigned) ≡ false
unfolding event_for_status EventType-discrete
not-assigned pending = refl
not-assigned _ = refl

unassigned_agents :
    (e : EventEnvelope) (agents : List String)
    → (e.event_type == agent_assigned) ≡ false
    → agents_after e agents ≡ ok agents
unfolding agents_after
unassigned_agents e agents h = ground arith

-- The guards of `apply` hold of an event that names the projection's task.
guards_pass :
    (x : TaskProjection) (t : Task) (e : EventEnvelope) (st : Option TaskStatus)
    (agents : List String)
    → Agrees x t
    → NamesTask t e
    → x.updated_at.utc ≤ e.timestamp.utc
    → (e.event_type == task_created) ≡ false
    → status_for e.event_type e ≡ ok st
    → illegal x.status st ≡ false
    → agents_after e x.assigned_agents ≡ ok agents
    → apply x e
      ≡ ok (record x {
        status = or_status st x.status;
        assigned_agents = agents;
        updated_at = e.timestamp;
        last_event_id = e.event_id;
        last_event_type = e.event_type;
        event_count = x.event_count + 1;
      })
unfolding apply
guards_pass x t e st agents a n le nc sf il ag = ground (
  arith,
  (option_beq_iff e.task_id (some x.task_id)).1 (n.task_id ∙ ap some (sym a.task_id)),
  n.project,
  n.team,
  eq_iff t.project x.project,
  eq_iff t.team x.team,
)

pub moved_applies :
    (x : TaskProjection) (t u : Task) (target : TaskStatus) (e : EventEnvelope)
    → Agrees x t
    → announces t target e ≡ true
    → Tasks.transition_task e.timestamp t target (some (aware e.timestamp)) ≡ ok u
    → x.updated_at.utc ≤ e.timestamp.utc
    → apply x e ≡ ok (extended x e u)
moved_applies x t u target e a n d le =
    let (into, legal) = transition_moves e.timestamp t target e.timestamp u d in
    let type = announces-type t target e n in
    let legal' : can_transition x.status target ≡ true = rw (a.status) legal in
    let agents : x.assigned_agents ≡ u.assigned_agents =
      a.agents ∙ sym (transition-Keeps e.timestamp t target e.timestamp u d).identity.6 in
    guards_pass x t e (some target) x.assigned_agents a (announces-NamesTask t target e n) le
      (ap (λ (k : EventType). k == task_created) type ∙ not-created target (λ q. target_pending q))
      (ap (λ (k : EventType). status_for k e) type
        ∙ status_for_target target e (announces-payload t target e n))
      (rw legal')
      (unassigned_agents e x.assigned_agents
        (ap (λ (k : EventType). k == agent_assigned) type ∙ not-assigned target))
    ∙ ground (arith, into, agents)
  where
    target_pending : target ≡ pending → ⊥
    target_pending q = cc (
      (transition_moves e.timestamp t target e.timestamp u d).1,
      not_to_pending t.status,
      ap (can_transition t.status) q,
    )

assignment-NamesTask :
    (t : Task) (agent : String) (e : EventEnvelope)
    → announces_assignment t agent e ≡ true
    → NamesTask t e
unfolding announces_assignment
assignment-NamesTask t agent e h = record {
  task_id = (option_beq_iff e.task_id (some t.task_id)).0 (ground arith);
  project = (option_beq_iff e.project (some t.project)).0 (ground arith);
  team = (option_beq_iff e.team (some t.team)).0 (ground arith);
}

assignment-type :
    (t : Task) (agent : String) (e : EventEnvelope)
    → announces_assignment t agent e ≡ true
    → e.event_type ≡ agent_assigned
unfolding announces_assignment
assignment-type t agent e h = (event_type_eq.beq_iff e.event_type agent_assigned).0 (ground arith)

assignment-agent :
    (t : Task) (agent : String) (e : EventEnvelope)
    → announces_assignment t agent e ≡ true
    → e.agent ≡ some agent
unfolding announces_assignment
assignment-agent t agent e h = (option_beq_iff e.agent (some agent)).0 (ground arith)

assigned-created : (agent_assigned == task_created) ≡ false
unfolding EventType-discrete
assigned-created = refl

no_status : (e : EventEnvelope) → status_for agent_assigned e ≡ ok none
unfolding status_for
no_status e = refl

assigned_list :
    (e : EventEnvelope) (agent : String) (agents : List String)
    → e.event_type ≡ agent_assigned
    → e.agent ≡ some agent
    → contains agents agent ≡ false
    → agents_after e agents ≡ ok (agents ++ agent ∷ [])
unfolding agents_after
assigned_list e agent agents q w c =
    ground (arith, (event_type_eq.beq_iff e.event_type agent_assigned).1 q)

pub assigned_applies :
    (x : TaskProjection) (t u : Task) (agent : String) (e : EventEnvelope)
    → Agrees x t
    → announces_assignment t agent e ≡ true
    → contains t.assigned_agents agent ≡ false
    → validate (record t { assigned_agents = t.assigned_agents ++ agent ∷ [] }) ≡ ok u
    → x.updated_at.utc ≤ e.timestamp.utc
    → apply x e ≡ ok (extended x e u)
assigned_applies x t u agent e a n c d le =
    let eu = validate-eq (record t { assigned_agents = t.assigned_agents ++ agent ∷ [] }) u d in
    let type = assignment-type t agent e n in
    let who : e.agent ≡ some agent = assignment-agent t agent e n in
    guards_pass x t e none (x.assigned_agents ++ agent ∷ []) a (assignment-NamesTask t agent e n) le
      (ap (λ (k : EventType). k == task_created) type ∙ assigned-created)
      (ap (λ (k : EventType). status_for k e) type ∙ no_status e) refl
      (assigned_list e agent x.assigned_agents type who
        (ap (λ (l : List String). contains l agent) a.agents ∙ c))
    ∙ ground (arith, eu, a.agents, a.status)
