-- ===== src/Examples/Gateway.antt =====
-- The theorems on the gateway at a concrete request.
use ai_infrastructure_as_cod.Prelude.{
  ℕ, ◌+◌, ◌≤◌, Bool, true, false, String, Option, none, some, List, [], ◌∷◌, ◌≡◌, ◌≢◌, refl, arith,
}
use ai_infrastructure_as_cod.Domain.Status.{TaskStatus}
use ai_infrastructure_as_cod.Gateway.Models.{
  GatewayCommand, GatewayCode, GatewayRequest, TaskView, GatewayResponse, idempotency_key,
}
use ai_infrastructure_as_cod.Gateway.Ports.{Raise, interruption, returned, raised, pure, raise, Hub}
use ai_infrastructure_as_cod.Gateway.Dedup.{InMemory, in_memory, get, reserve, remember, release}
use ai_infrastructure_as_cod.Gateway.Dedup.Bounds.{DedupCall, IsBounded, after_all, calls-IsBounded}
use ai_infrastructure_as_cod.Gateway.Dedup.Replay.{get_remembered, reserve_excludes}
use ai_infrastructure_as_cod.Gateway.Service.{handle, answer, is_transient}
use ai_infrastructure_as_cod.Gateway.Service.Outcomes.{handle-Contained}
use ai_infrastructure_as_cod.Gateway.Service.Once.{handle-once}

-- ports that count the tasks that they create
abbrev view : String → TaskStatus → TaskView
view id s = record {
  task_id = id;
  project = "hub";
  team = "platform";
  status = s;
  assigned_agents = [];
}

abbrev counting : Hub ℕ
counting = record {
  is_authorized = λ actor command project. pure true;
  create_task = λ c n. (returned (view c.task_id TaskStatus.pending), n + 1);
  cancel_task = λ c. raise Raise.task_conflict;
  get_task = λ id. pure none;
  list_tasks = λ n. pure [];
  enqueue_task = λ id. pure (view id TaskStatus.queued);
  new_task_id = λ key. "TASK-1";
  contains_sensitive_material = λ text. false;
  safe_message = λ m. some m;
}

abbrev interrupted : Hub ℕ
interrupted = record counting { is_authorized = λ actor command project. raise interruption }

abbrev no_requests : InMemory
no_requests = record { max_entries = 2; ttl = 100; completed = []; in_flight = [] }

abbrev dev_request : GatewayRequest
dev_request = record {
  source = "slack";
  source_event_id = "Ev1";
  actor_id = "U1";
  reply_target = none;
  command = GatewayCommand.dev;
  project = some "hub";
  task_id = none;
  instruction = some "rotate the logs";
}

abbrev first_response : GatewayResponse
first_response = record {
  success = true;
  code = GatewayCode.accepted;
  message = "Task created. ID: TASK-1; project: hub; team: platform; status: queued.";
  task = some (view "TASK-1" TaskStatus.queued);
  tasks = [];
  replayed = false;
}

abbrev after_first : InMemory
after_first = (remember 5 "slack:Ev1" first_response no_requests).1

handled :
    handle counting (in_memory 5) dev_request (0, no_requests)
    ≡ (returned first_response, (1, after_first))
unfolding handle get ai_infrastructure_as_cod.Prelude.lookup reserve
    ai_infrastructure_as_cod.Gateway.Service.dispatch remember
handled = refl

unseen : (get 5 (idempotency_key dev_request) no_requests).0 ≡ returned none
unfolding get ai_infrastructure_as_cod.Prelude.lookup
unseen = refl

not_transient : is_transient GatewayCode.accepted ≡ false
unfolding is_transient
not_transient = refl

handle-once_example : handle counting (in_memory 60) dev_request (1, after_first) ≡ (
  returned (record first_response { replayed = true }),
  (1, (get 60 (idempotency_key dev_request) after_first).1),
)
handle-once_example =
    handle-once counting 5 60 dev_request first_response (0, no_requests) (1, after_first)
      (λ t. refl) refl (omega arith) (omega arith) unseen handled not_transient (λ q. cc q)

goes_on : (handle interrupted (in_memory 5) dev_request (0, no_requests)).0 ≡ raised interruption
unfolding handle
goes_on = refl

handle-Contained_example : interruption ≡ interruption
handle-Contained_example =
    handle-Contained interrupted (in_memory 5) dev_request (0, no_requests) interruption goes_on

get_remembered_example :
    (get 60 "slack:Ev1" (remember 5 "slack:Ev1" first_response no_requests).1).0
    ≡ returned (some first_response)
get_remembered_example =
    get_remembered 5 60 "slack:Ev1" first_response no_requests (omega arith) (omega arith)

reserved : (reserve 5 "slack:Ev1" no_requests).0 ≡ returned true
unfolding reserve ai_infrastructure_as_cod.Prelude.lookup
reserved = refl

reserve_excludes_example :
    ((reserve 6 "slack:Ev1" (reserve 5 "slack:Ev1" no_requests).1).0 ≡ returned false)
    × ((reserve 6 "slack:Ev1" (release 5 "slack:Ev1" (reserve 5 "slack:Ev1" no_requests).1).1).0
        ≡ returned true)
reserve_excludes_example = reserve_excludes 5 6 "slack:Ev1" no_requests reserved

abbrev three_responses : List DedupCall
three_responses =
    DedupCall.remembered 1 "a" first_response
    ∷ DedupCall.remembered 2 "b" first_response
    ∷ DedupCall.remembered 3 "c" first_response
    ∷ []

calls-IsBounded_example : IsBounded (after_all three_responses no_requests)
calls-IsBounded_example = calls-IsBounded three_responses no_requests (omega arith)
