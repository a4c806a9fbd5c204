-- ===== src/Examples/Worker.antt =====
-- The theorems on the orchestrator at concrete ports.
use ai_infrastructure_as_cod.Prelude.{
  ℕ, zero, suc, Bool, true, false, String, Option, none, some, List, [], ◌∷◌, ◌≡◌, ◌≢◌, refl, arith,
  ap, ◌∙◌, ◌+◌, ◌<◌, Table, lookup, Bool-cases, inl, inr, ◌==◌, string_eq, eq_iff,
}
use mathlib.Core.Path.{subst}
use ai_infrastructure_as_cod.Domain.Status.{TaskStatus, queued}
use ai_infrastructure_as_cod.Domain.Tasks.{Task}
use ai_infrastructure_as_cod.Storage.Store.{Store}
use ai_infrastructure_as_cod.Storage.Adapters.{Machine, sqlite_ports}
use ai_infrastructure_as_cod.Orchestrator.Ports.{
  Outcome, returned, raised, exception, lookup_error, Call, pure, RuntimeStatus, PreparedWorkspace,
  RuntimeResult, Ports,
}
use ai_infrastructure_as_cod.Orchestrator.Calls.{Keeps, Leaves}
use ai_infrastructure_as_cod.Orchestrator.Service.{TaskProcessResult, result_of, process_task}
use ai_infrastructure_as_cod.Orchestrator.Service.Keeps.{Respects, Guards}
use ai_infrastructure_as_cod.Orchestrator.Service.Outcomes.{
  process_task-Balanced, has_stopped, process_task-Stopped,
}
use ai_infrastructure_as_cod.Orchestrator.Durable.{IsNew, sqlite-Moves}
use ai_infrastructure_as_cod.Gateway.Models.{CreateTaskCommand, TaskView}
use ai_infrastructure_as_cod.Gateway.Ports as GatewayPorts
use ai_infrastructure_as_cod.Application.Adapters
use ai_infrastructure_as_cod.Application.Adapters.Stored.{Holds, create_task-Holds}
use ai_infrastructure_as_cod.Examples.Orchestrator.{registries}
use ai_infrastructure_as_cod.Examples.Recovery.{with_task}
use ai_infrastructure_as_cod.Examples.Samples.{plain, Doc, at, errand, padded}

-- one task, and the number of workspaces that are open
abbrev Desk : Type 0
Desk = Task × ℕ

abbrev moved : TaskStatus → Call Desk Task
moved st s = (returned (record s.0 { status = st }), (record s.0 { status = st }, s.1))

abbrev fewer : ℕ → ℕ
fewer zero = zero
fewer (suc n) = n

abbrev done_well : RuntimeResult
done_well = record {
  status = RuntimeStatus.succeeded;
  exit_code = none;
  changed_files = "notes.txt" ∷ [];
}

abbrev a_workspace : PreparedWorkspace
a_workspace = record { path = "/srv/hub"; branch = "task/task-1" }

-- a notifier that fails, which is logged
abbrev broken : Task → Call Desk (Unit {0})
broken t s = (raised exception, s)

abbrev toy : Ports Desk
toy = record {
  get_task = λ id s. (returned s.0, s);
  transition_task = λ id st e. moved st;
  assign_task = λ id agent e s. (
    returned (record s.0 { assigned_agents = agent ∷ [] }),
    (record s.0 { assigned_agents = agent ∷ [] }, s.1),
  );
  cancel_task = λ id e. moved TaskStatus.cancelled;
  create_run = λ id agent runtime s. (returned "run-1", s);
  start_run = λ id s. (returned tt, s);
  finish_run = λ id o code error s. (returned tt, s);
  open_workspace = λ project id description s. (returned a_workspace, (s.0, suc s.1));
  close_workspace = λ w s. (returned tt, (s.0, fewer s.1));
  execute = λ r s. (returned done_well, s);
  cancel_execution = λ id s. (raised lookup_error, s);
  notifier = some broken;
  runtime_name = "codex";
  draw = λ s. (returned ("event-9", at 30), s);
  correlation_of = λ id. id;
  validated = λ r. some r;
}

abbrev the_notifier : Option (Task → Call Desk (Unit {0})) → Task → Call Desk (Unit {0})
the_notifier none = broken
the_notifier (some f) = f

toy-Respects : (n : ℕ) → Respects toy (λ s. s.1 ≡ n)
toy-Respects n = record {
  get_task = λ id. record { at = λ s h. h };
  transition_task = λ id t e. record { at = λ s h. h };
  assign_task = λ id agent e. record { at = λ s h. h };
  cancel_task = λ id e. record { at = λ s h. h };
  create_run = λ id agent runtime. record { at = λ s h. h };
  start_run = λ id. record { at = λ s h. h };
  finish_run = λ id o code error. record { at = λ s h. h };
  execute = λ r. record { at = λ s h. h };
  cancel_execution = λ id. record { at = λ s h. h };
  notify = λ f e t.
      subst (λ g. Keeps (λ (s : Desk). s.1 ≡ n) (g t)) (ap the_notifier e)
        (record { at = λ s h. h });
  draw = record { at = λ s h. h };
}

toy-Guards : (n : ℕ) → Guards toy (λ s. s.1 ≡ n) (λ s. s.1 ≡ suc n)
toy-Guards n = record { opens = λ a b c s h. ap suc h; closes = λ w s h. ap fewer h }

process_task-Balanced_example :
    (process_task toy registries 3600 "task-1" (errand queued, 0)).1.1 ≡ 0
process_task-Balanced_example =
    process_task-Balanced toy (λ s. s.1) registries 3600 "task-1" (errand queued, 0) toy-Respects
      toy-Guards

-- a name that is longer than the keys of a table
abbrev size : String → ℕ
size String.[] = 0
size (String.◌∷◌ c s) = suc (size s)

size-padded : (n : ℕ) → size (padded n) ≡ n
size-padded zero = refl
size-padded (suc n) = ap suc (size-padded n)

abbrev total : {V : Type 0} → Table V → ℕ
total [] = 0
total ((k, v) ∷ m) = size k + total m

-- the store, with a counter for the runs
abbrev machine : Machine ℕ
machine = record { now = λ n. at n; run_id_factory = λ n. ("run-1", suc n); event_id = λ n k. k }

abbrev quiet : Ports (Store Doc × ℕ)
quiet = record {
  get_task = λ id s. (raised exception, s);
  transition_task = λ id st e s. (raised exception, s);
  assign_task = λ id agent e s. (raised exception, s);
  cancel_task = λ id e s. (raised exception, s);
  create_run = λ id agent runtime s. (raised exception, s);
  start_run = λ id s. (raised exception, s);
  finish_run = λ id o code error s. (raised exception, s);
  open_workspace = λ project id description s. (returned a_workspace, s);
  close_workspace = λ w s. (returned tt, s);
  execute = λ r s. (returned done_well, s);
  cancel_execution = λ id s. (raised lookup_error, s);
  notifier = none;
  runtime_name = "codex";
  draw = λ s. (returned (padded (suc (total s.0.events)), at 30), s);
  correlation_of = λ id. id;
  validated = λ r. some r;
}

absent : {V : Type 0} (m : Table V) (n : ℕ) → total m < n → lookup (padded n) m ≡ none
unfolding lookup
absent [] n h = refl
absent ((k, v) ∷ m) n h = elim (Bool-cases (k == padded n)) [
  | inl q ↦
      let long : size k ≡ n = ap size ((eq_iff k (padded n)).0 q) ∙ size-padded n in
      absurd (omega (arith, h, long))
  | inr q ↦ rw q (absent m n (omega arith))
]

quiet-Leaves : Leaves quiet.draw (λ x w. IsNew plain machine x.0 w)
quiet-Leaves = record {
  at = λ w x h.
      let id : padded (suc (total w.0.events)) ≡ x.0 = ground (arith, h) in
      subst (λ k. lookup k w.0.events ≡ none) id
        (absent w.0.events (suc (total w.0.events)) (omega arith));
}

abbrev durable : Ports (Store Doc × ℕ)
durable = sqlite_ports plain machine quiet

abbrev waiting_desk : Store Doc × ℕ
waiting_desk = (with_task (errand queued), 20)

waiting_read : (durable.get_task "task-1" waiting_desk).0 ≡ returned (errand queued)
unfolding ai_infrastructure_as_cod.Storage.Adapters.get_task
    ai_infrastructure_as_cod.Storage.Adapters.in_thread
    ai_infrastructure_as_cod.Storage.Tasks.get_task lookup
    ai_infrastructure_as_cod.Domain.Tasks.validate
waiting_read = refl

process_task-Stopped_example :
    ((r : TaskProcessResult)
      → queued ≡ queued
      → (process_task durable registries 3600 "task-1" waiting_desk).0 ≡ returned r
      → has_stopped r.status ≡ true)
    × (queued ≢ queued
        → process_task durable registries 3600 "task-1" waiting_desk
          ≡ (returned (result_of (errand queued) none), (durable.get_task "task-1" waiting_desk).1))
process_task-Stopped_example =
    process_task-Stopped durable (IsNew plain machine)
      (sqlite-Moves plain machine quiet quiet-Leaves) registries 3600 "task-1" waiting_desk
      (errand queued) waiting_read

-- the queued task runs through, and its workspace is closed again
toy_completes : process_task toy registries 3600 "task-1" (errand queued, 0) ≡ (
  returned (record { task_id = "task-1"; status = TaskStatus.completed; error_code = none }),
  (record (errand TaskStatus.completed) { assigned_agents = "dev" ∷ [] }, 0),
)
unfolding process_task ai_infrastructure_as_cod.Orchestrator.Ports.◌>>=◌
    ai_infrastructure_as_cod.Domain.Status.TaskStatus-discrete
    ai_infrastructure_as_cod.Orchestrator.Service.start_task
    ai_infrastructure_as_cod.Orchestrator.Service.transition
    ai_infrastructure_as_cod.Orchestrator.Service.or_raise
    ai_infrastructure_as_cod.Orchestrator.Service.event
    ai_infrastructure_as_cod.Orchestrator.Service.from_result
    ai_infrastructure_as_cod.Domain.Events.validate_context
    ai_infrastructure_as_cod.Domain.Events.names_context
    ai_infrastructure_as_cod.Domain.Json.find_in_fields
    ai_infrastructure_as_cod.Orchestrator.Service.merged
    ai_infrastructure_as_cod.Domain.Events.is_forbidden_key
    ai_infrastructure_as_cod.Orchestrator.Service.with_developer
    ai_infrastructure_as_cod.Orchestrator.Selection.select_developer
    ai_infrastructure_as_cod.Prelude.lookup ai_infrastructure_as_cod.Prelude.sort_texts
    ai_infrastructure_as_cod.Domain.Events.EventType-discrete
    ai_infrastructure_as_cod.Domain.Events.category
    ai_infrastructure_as_cod.Domain.Events.type_value ai_infrastructure_as_cod.Domain.Json.codes
    ai_infrastructure_as_cod.Domain.Json.normalized
    ai_infrastructure_as_cod.Domain.Status.is_terminal
    ai_infrastructure_as_cod.Orchestrator.Ports.log_exceptions pure
    ai_infrastructure_as_cod.Orchestrator.Ports.raise
    ai_infrastructure_as_cod.Orchestrator.Ports.within
    ai_infrastructure_as_cod.Orchestrator.Selection.candidates
    ai_infrastructure_as_cod.Orchestrator.Selection.is_capable
    ai_infrastructure_as_cod.Orchestrator.Selection.is_eligible
    ai_infrastructure_as_cod.Orchestrator.Service.assign
    ai_infrastructure_as_cod.Orchestrator.Service.conclude
    ai_infrastructure_as_cod.Orchestrator.Service.execute_runtime
    ai_infrastructure_as_cod.Orchestrator.Service.execute_task
    ai_infrastructure_as_cod.Orchestrator.Service.finish_run
    ai_infrastructure_as_cod.Orchestrator.Service.finish_task
    ai_infrastructure_as_cod.Orchestrator.Service.handle
    ai_infrastructure_as_cod.Orchestrator.Service.in_workspace
    ai_infrastructure_as_cod.Orchestrator.Service.notify
    ai_infrastructure_as_cod.Orchestrator.Service.on_ports
    ai_infrastructure_as_cod.Orchestrator.Service.put_field
    ai_infrastructure_as_cod.Orchestrator.Service.run_task
toy_completes = refl

-- the clock and the events of the gateway's adapter, over a counter
abbrev counter : Adapters.Machine ℕ
counter = record {
  now = λ n. at n;
  draw = λ n. ((padded n, at n), suc n);
  correlation_of = λ id. id;
}

abbrev command : CreateTaskCommand
command = record {
  task_id = "task-2";
  source = "slack";
  source_event_id = "E1";
  actor_id = "U1";
  reply_target = none;
  project = "hub";
  instruction = "rotate the logs";
}

abbrev new_view : TaskView
new_view = record {
  task_id = "task-2";
  project = "hub";
  team = "platform";
  status = queued;
  assigned_agents = [];
}

command_creates :
    (Adapters.create_task plain counter registries command waiting_desk).0
    ≡ GatewayPorts.returned new_view
unfolding Adapters.create_task lookup Adapters.create_in_team Adapters.new_task
    ai_infrastructure_as_cod.Domain.Tasks.validate Adapters.draw_event
    ai_infrastructure_as_cod.Domain.Events.validate_context
    ai_infrastructure_as_cod.Domain.Events.names_context
    ai_infrastructure_as_cod.Domain.Json.find_in_fields
    ai_infrastructure_as_cod.Domain.Events.is_forbidden_key Adapters.new_route Adapters.store_task
    ai_infrastructure_as_cod.Storage.Tasks.create_queued_task
    ai_infrastructure_as_cod.Storage.Tasks.may_queue
    ai_infrastructure_as_cod.Domain.Status.TaskStatus-discrete
    ai_infrastructure_as_cod.Storage.Tasks.announces
    ai_infrastructure_as_cod.Storage.Tasks.event_for_status
    ai_infrastructure_as_cod.Domain.Events.EventType-discrete
    ai_infrastructure_as_cod.Domain.Events.category
    ai_infrastructure_as_cod.Domain.Events.type_value ai_infrastructure_as_cod.Domain.Json.codes
    ai_infrastructure_as_cod.Domain.Json.get_field ai_infrastructure_as_cod.Domain.Json.normalized
    ai_infrastructure_as_cod.Domain.Status.allowed_transitions
    ai_infrastructure_as_cod.Domain.Status.can_transition
    ai_infrastructure_as_cod.Domain.Status.is_terminal
    ai_infrastructure_as_cod.Domain.Tasks.transition_task
    ai_infrastructure_as_cod.Domain.Tasks.updated ai_infrastructure_as_cod.Domain.Time.aware_time
    ai_infrastructure_as_cod.Prelude.insert ai_infrastructure_as_cod.Storage.Store.if_open
    ai_infrastructure_as_cod.Storage.Store.transaction
    ai_infrastructure_as_cod.Storage.Store.update_task
    ai_infrastructure_as_cod.Storage.Tasks.append_event_locked
    ai_infrastructure_as_cod.Storage.Tasks.create_queued_body
    ai_infrastructure_as_cod.Storage.Tasks.insert_event
    ai_infrastructure_as_cod.Storage.Tasks.insert_route
    ai_infrastructure_as_cod.Storage.Tasks.insert_task
    ai_infrastructure_as_cod.Storage.Tasks.new_row ai_infrastructure_as_cod.Storage.Tasks.next_row
    ai_infrastructure_as_cod.Storage.Tasks.write_task
    ai_infrastructure_as_cod.Storage.Transaction.rollback
command_creates = refl

create_task-Holds_example :
    (team : String) × (lookup "hub" registries.projects ≡ some team)
    × Holds plain counter command team new_view
        (Adapters.create_task plain counter registries command waiting_desk).1.0
create_task-Holds_example =
    create_task-Holds plain counter registries command waiting_desk new_view command_creates
