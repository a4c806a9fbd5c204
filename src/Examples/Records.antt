-- ===== src/Examples/Records.antt =====
-- The theorems on runs, requests, deliveries and routes at concrete rows.
use ai_infrastructure_as_cod.Prelude.{
  ℤ, true, false, String, Option, none, some, List, [], ◌∷◌, Table, lookup, ◌≡◌, refl, arith,
  is_none, eq_iff, contains, HasKeys, no_rows, row, selected, unselected, string_eq,
}
use ai_infrastructure_as_cod.Errors.{ok, err, data_integrity}
use ai_infrastructure_as_cod.Domain.Time.{Instant, aware}
use ai_infrastructure_as_cod.Domain.Json.{Fields}
use ai_infrastructure_as_cod.Domain.Status.{TaskStatus}
use ai_infrastructure_as_cod.Storage.Models.{
  RunStatus, running, succeeded, RunRecord, DeliveryState, TaskRoute, validate_lifecycle,
  is_terminal,
}
use ai_infrastructure_as_cod.Storage.Store.{
  RunRow, RequestRow, DeliveryRow, Store, TaskRow, empty_store,
}
use ai_infrastructure_as_cod.Storage.Runs.{start_run, started, finished}
use ai_infrastructure_as_cod.Storage.Runs.Lifecycle.{
  RunStored, with_run, validate-IsValidRun, start_ok,
}
use ai_infrastructure_as_cod.Storage.Runs.Permanence.{
  RunCall, AreKeyed, Ended, after_all, Ended-permanent,
}
use ai_infrastructure_as_cod.Storage.Requests.{
  GatewayRequestRecord, is_pending, reserve_gateway_request, get_gateway_request,
  remember_gateway_response, reconcile_incomplete_gateway_requests,
}
use ai_infrastructure_as_cod.Storage.Requests.Permanence
use ai_infrastructure_as_cod.Storage.Requests.Permanence.{
  RequestCall, Responded, response_permanent,
}
use ai_infrastructure_as_cod.Storage.Requests.Replay.{reserve_once, reconcile_exact, remember_get}
use ai_infrastructure_as_cod.Storage.Deliveries.{
  clean_delivery_id, reserve_delivery, is_delivery_delivered, mark_delivery_delivered,
  release_delivery,
}
use ai_infrastructure_as_cod.Storage.Deliveries.Permanence as DeliveryPermanence
use ai_infrastructure_as_cod.Storage.Deliveries.Permanence.{
  DeliveryCall, Delivered, Delivered-permanent,
}
use ai_infrastructure_as_cod.Storage.Deliveries.Once.{deliver_once}
use ai_infrastructure_as_cod.Storage.Routes.{save_task_route}
use ai_infrastructure_as_cod.Storage.Routes.Fixed.{route_fixed}
use ai_infrastructure_as_cod.Examples.Samples.{
  plain, Doc, of_task, of_run, of_json, at, errand, status_payload,
}

-- a run that waits, and one that runs
abbrev run_in : RunStatus → Option Instant → RunRecord
run_in status started_at = record {
  run_id = "run-1";
  task_id = "task-1";
  agent = "builder";
  runtime = "codex";
  status = status;
  created_at = at 10;
  started_at = started_at;
  completed_at = none;
  exit_code = none;
  error_code = none;
}

abbrev run_row_of : RunRecord → RunRow Doc
run_row_of r = record {
  task_id = "task-1";
  created_at = r.created_at;
  status = r.status;
  run_json = of_run r;
}

abbrev with_a_run : RunRecord → Store Doc
with_a_run r = record (empty_store {Doc = Doc}) { runs = ("run-1", run_row_of r) ∷ [] }

abbrev waiting : RunRecord
waiting = run_in RunStatus.queued none

abbrev going : RunRecord
going = run_in running (some (at 15))

abbrev over : RunRecord
over = record (run_in succeeded (some (at 15))) { completed_at = some (at 20) }

waiting_stored : RunStored plain (with_a_run waiting) "run-1" (run_row_of waiting) waiting
unfolding lookup validate_lifecycle
waiting_stored = (refl, refl, refl)

over_stored : RunStored plain (with_a_run over) "run-1" (run_row_of over) over
unfolding lookup validate_lifecycle
over_stored = (refl, refl, refl)

waiting_valid : validate_lifecycle waiting ≡ ok waiting
unfolding validate_lifecycle
waiting_valid = refl

over_ended : is_terminal over.status ≡ true
unfolding is_terminal
over_ended = refl

abbrev ended : RunRecord
ended = finished going succeeded (at 20) (some (ℤ.pos 0)) none

start_ok_example : start_run plain (at 99) "run-1" (some (aware (at 15))) (with_a_run waiting) ≡ (
  ok (started waiting (at 15)),
  with_run plain (with_a_run waiting) "run-1" (run_row_of waiting) (started waiting (at 15)),
)
start_ok_example =
    start_ok plain (at 99) "run-1" (at 15) (with_a_run waiting) (run_row_of waiting) waiting refl
      waiting_stored (validate-IsValidRun waiting waiting_valid) refl (omega arith)

-- a run that is over is started again, ended again, and created again
abbrev attempts : List RunCall
attempts =
    RunCall.start (at 99) "run-1" (some (aware (at 30)))
    ∷ RunCall.finish (at 99) "run-1" succeeded (some (aware (at 30))) none none
    ∷ RunCall.create over
    ∷ []

over_valid : validate_lifecycle over ≡ ok over
unfolding validate_lifecycle
over_valid = refl

over_keyed : AreKeyed plain (with_a_run over).runs
unfolding lookup validate_lifecycle
over_keyed k stored r h l = ground (arith, h, l, eq_iff k "run-1", eq_iff "run-1" k)

over_has_ended : Ended plain "run-1" (run_row_of over) (with_a_run over).runs
over_has_ended = record {
  run = over;
  found = over_stored.0;
  reads = over_stored.1;
  over = over_ended;
}

Ended-permanent_example :
    AreKeyed plain (after_all plain attempts (with_a_run over)).runs
    × Ended plain "run-1" (run_row_of over) (after_all plain attempts (with_a_run over)).runs
Ended-permanent_example =
    Ended-permanent plain attempts (with_a_run over) "run-1" (run_row_of over)
      (tt, (tt, (over_valid, tt))) over_keyed over_has_ended

-- a request that waits for its response, and one that has it
abbrev requests : Table (RequestRow Doc)
requests =
    (
      "key-1",
      record { response_json = some (of_json (status_payload "queued")); created_at = at 10 },
    )
    ∷ ("key-2", record { response_json = none; created_at = at 12 })
    ∷ []

requests-HasKeys : HasKeys requests
unfolding lookup
requests-HasKeys = row "key-1" _ refl (row "key-2" _ refl no_rows)

abbrev with_requests : Store Doc
with_requests = record (empty_store {Doc = Doc}) { gateway_requests = requests }

first_response : Responded plain requests "key-1" (of_json (status_payload "queued"))
unfolding lookup
first_response = (_, refl, refl)

abbrev request_calls : List RequestCall
request_calls =
    RequestCall.release "key-1"
    ∷ RequestCall.remember "key-1" (some (status_payload "failed"))
    ∷ RequestCall.reconcile
    ∷ []

response_permanent_example :
    HasKeys (Permanence.after_all plain request_calls with_requests).gateway_requests
    × Responded plain
        (Permanence.after_all plain request_calls with_requests).gateway_requests
        "key-1"
        (of_json (status_payload "queued"))
response_permanent_example =
    response_permanent plain request_calls with_requests "key-1" (of_json (status_payload "queued"))
      requests-HasKeys first_response

reserve_once_example :
    let (r, s') =
      reserve_gateway_request plain (at 99) "key-3" (some (aware (at 20))) with_requests in
    (r ≡ ok (is_none (lookup "key-3" requests)))
    × (reserve_gateway_request plain (at 99) "key-3" (some (aware (at 21))) s' ≡ (ok false, s'))
reserve_once_example =
    reserve_once plain (at 99) "key-3" (at 20) (at 21) "key-3" with_requests refl refl

reconcile_exact_example :
    let (r, s') = reconcile_incomplete_gateway_requests plain with_requests in
    ((keys : List String) × (r ≡ ok keys)
      × (contains keys "key-2" ≡ selected (is_pending plain) (lookup "key-2" requests)))
    × (lookup "key-2" s'.gateway_requests ≡ unselected (is_pending plain) (lookup "key-2" requests))
reconcile_exact_example = reconcile_exact plain with_requests "key-2" refl requests-HasKeys

abbrev answer : GatewayRequestRecord
answer = record {
  idempotency_key = "key-2";
  response = some (status_payload "queued");
  created_at = at 12;
}

remembered :
    (remember_gateway_response plain "key-2" (some (status_payload "queued")) with_requests).0
    ≡ ok answer
unfolding remember_gateway_response
    ai_infrastructure_as_cod.Storage.Secrets.reject_secret_response_fields
    ai_infrastructure_as_cod.Domain.Json.find_in_fields
    ai_infrastructure_as_cod.Storage.Secrets.is_forbidden_response_key lookup
remembered = refl

remember_get_example :
    (get_gateway_request plain "key-2"
      (remember_gateway_response plain "key-2" (some (status_payload "queued")) with_requests).1).0
    ≡ ok (some answer)
remember_get_example =
    remember_get plain "key-2" (status_payload "queued") with_requests answer refl refl remembered

abbrev receipt : DeliveryRow
receipt = record {
  state = DeliveryState.delivered;
  created_at = at 10;
  delivered_at = some (at 12);
}

abbrev with_a_receipt : Store Doc
with_a_receipt = record (empty_store {Doc = Doc}) { delivery_receipts = ("post-1", receipt) ∷ [] }

receipt-Delivered : Delivered plain with_a_receipt.delivery_receipts "post-1" receipt
unfolding lookup
receipt-Delivered = (refl, refl)

abbrev delivery_calls : List DeliveryCall
delivery_calls = DeliveryCall.release "post-1" ∷ DeliveryCall.reconcile ∷ []

Delivered-permanent_example :
    HasKeys (DeliveryPermanence.after_all plain delivery_calls with_a_receipt).delivery_receipts
    × Delivered plain
        (DeliveryPermanence.after_all plain delivery_calls with_a_receipt).delivery_receipts
        "post-1"
        receipt
unfolding lookup
Delivered-permanent_example =
    Delivered-permanent plain delivery_calls with_a_receipt "post-1" receipt
      (row "post-1" receipt refl no_rows) receipt-Delivered

clean_id : clean_delivery_id plain "post-2" ≡ ok "post-2"
unfolding clean_delivery_id ai_infrastructure_as_cod.Storage.Secrets.is_secret_shaped
clean_id = refl

deliver_once_example :
    let held = (reserve_delivery plain (at 99) "post-2" (some (aware (at 20))) with_a_receipt).1 in
    let (r, sent) = mark_delivery_delivered plain (at 99) "post-2" (some (aware (at 21))) held in
    ((is_delivery_delivered plain "post-2" held).0 ≡ ok false)
    × ((is_delivery_delivered plain "post-2" sent).0 ≡ ok true)
    × (mark_delivery_delivered plain (at 99) "post-2" (some (aware (at 25))) sent ≡ (r, sent))
    × (release_delivery plain "post-2" sent ≡ (err data_integrity, sent))
unfolding lookup
deliver_once_example =
    deliver_once plain (at 99) "post-2" "post-2" (at 20) (at 21) (at 25) with_a_receipt refl
      clean_id refl (omega arith)

abbrev route : TaskRoute
route = record { task_id = "task-1"; source = "slack"; target = "C01:17" }

abbrev task_row : TaskRow Doc
task_row = record {
  status = TaskStatus.pending;
  project = "hub";
  team = "platform";
  created_at = at 10;
  updated_at = at 10;
  version = 1;
  task_json = of_task (errand TaskStatus.pending);
}

abbrev with_a_route : Store Doc
with_a_route = record (empty_store {Doc = Doc}) {
  tasks = ("task-1", task_row) ∷ [];
  task_routes = ("task-1", route) ∷ [];
}

route_found : lookup "task-1" with_a_route.task_routes ≡ some route
unfolding lookup
route_found = refl

route_fixed_example :
    lookup "task-1" (save_task_route plain "task-1" "slack" "C02:18" with_a_route).1.task_routes
    ≡ some route
route_fixed_example =
    route_fixed plain "task-1" "slack" "C02:18" with_a_route "task-1" route route_found

route_saved : (save_task_route plain "task-1" "slack" "C01:17" with_a_route).0 ≡ ok route
unfolding save_task_route ai_infrastructure_as_cod.Storage.Routes.make_route
    ai_infrastructure_as_cod.Storage.Secrets.is_secret_shaped lookup
route_saved = refl
