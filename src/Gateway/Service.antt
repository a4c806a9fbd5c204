-- ===== src/Gateway/Service.antt =====
-- `AgentGateway` of src/macmini_ai_hub/gateway/service.py, over any ports: the deduplicator works
-- on a state of its own, and the other ports share another.
pub mod Outcomes
pub mod Once
use Prim.Native.String.{String, ◌++◌ as followed_by}
use ai_infrastructure_as_cod.Prelude.{
  ℕ, zero, suc, ◌+◌, ◌/◌, ◌%◌, Bool, true, false, not, Option, none, some, List, [], ◌∷◌, ◌==◌,
  string_eq, contains, is_none, sort_texts, nat_eq, if◌then◌else◌, ◌||◌, ltb, length,
}
use ai_infrastructure_as_cod.Domain.Status.{value}
use ai_infrastructure_as_cod.Gateway.Models.{
  GatewayCommand, help, dev, status, task, tasks, stop, GatewayCode, done, accepted, duplicate,
  unauthorized, invalid_request, not_found, conflict, unavailable, internal_error, GatewayRequest,
  idempotency_key, CreateTaskCommand, CancelTaskCommand, TaskView, GatewayResponse,
}
use ai_infrastructure_as_cod.Gateway.Ports.{
  Raise, task_not_found, task_conflict, dependency_unavailable, exception, interruption, Outcome,
  returned, raised, Call, pure, raise, ◌>>=◌, attempt, Hub, RequestDeduplicator,
}

-- A text from its parts, and the parts of a text with something between them.
abbrev joined : List String → String
joined [] = ""
joined (s ∷ ss) = followed_by s (joined ss)

abbrev between : String → List String → String
between separator [] = ""
between separator (s ∷ []) = s
between separator (s ∷ t ∷ ss) = followed_by s (followed_by separator (between separator (t ∷ ss)))

help_text : String
help_text =
    followed_by "Commands: help | dev <project> <instruction> | status | tasks | "
      "task <TASK-ID> | stop <TASK-ID>"

-- `_format_task`
unfoldable pub format_task : TaskView → String
format_task t =
    joined (
      t.task_id ∷ ": project=" ∷ t.project ∷ "; team=" ∷ t.team ∷ "; status=" ∷ value t.status ∷ [])

format_tasks : List TaskView → List String
unfolding format_task
format_tasks [] = []
format_tasks (t ∷ ts) = format_task t ∷ format_tasks ts

-- `Counter` of the statuses: its keys, and the count of one
counted_statuses : List TaskView → List String
counted_statuses [] = []
counted_statuses (t ∷ ts) =
    let rest = counted_statuses ts in
    if contains rest (value t.status) then rest else value t.status ∷ rest

count_of : String → List TaskView → ℕ
count_of s [] = 0
count_of s (t ∷ ts) = let rest = count_of s ts in if value t.status == s then suc rest else rest

digit : ℕ → String
digit n =
    if n == 0
    then "0"
    else if n == 1
    then "1"
    else if n == 2
    then "2"
    else if n == 3
    then "3"
    else if n == 4
    then "4"
    else if n == 5
    then "5"
    else if n == 6
    then "6"
    else if n == 7
    then "7"
    else if n == 8
    then "8"
    else "9"

-- decimal digits, the fuel being more than their number
decimal : ℕ → ℕ → String
unfolding digit
decimal zero n = ""
decimal (suc fuel) n =
    let rest = decimal fuel (n / 10) in
    if n / 10 == 0 then digit n else followed_by rest (digit (n % 10))

status_counts : List TaskView → List String → List String
unfolding decimal count_of
status_counts ts [] = []
status_counts ts (s ∷ ss) =
    joined (s ∷ "=" ∷ decimal (suc (count_of s ts)) (count_of s ts) ∷ []) ∷ status_counts ts ss

unfoldable pub status_message : List TaskView → String
unfolding counted_statuses status_counts
status_message [] = "AI Hub is available. No tasks are recorded."
status_message ts = joined (
    "AI Hub is available. Task status: "
    ∷ between ", " (status_counts ts (sort_texts (counted_statuses ts)))
    ∷ "."
    ∷ [])

unfoldable pub list_message : List TaskView → String
unfolding format_tasks
list_message [] = "No tasks found."
list_message ts = between "\n" (format_tasks ts)

-- a response that carries no task
abbrev pub answer : Bool → GatewayCode → String → GatewayResponse
answer success code message = record {
  success = success;
  code = code;
  message = message;
  task = none;
  tasks = [];
  replayed = false;
}

abbrev pub failed : GatewayCode → String → GatewayResponse
failed code message = answer false code message

abbrev pub dedup_down : GatewayResponse
dedup_down = failed unavailable "Request deduplication is temporarily unavailable."

-- the response for an `Exception` of `_dispatch`
unfoldable pub response_for : Raise → GatewayResponse
response_for task_not_found = failed not_found "The requested task was not found."
response_for task_conflict = failed conflict "The task cannot be changed from its current state."
response_for dependency_unavailable =
    failed unavailable "A required AI Hub component is temporarily unavailable."
response_for _ = failed internal_error "The AI Hub could not process this request safely."

unfoldable pub is_transient : GatewayCode → Bool
is_transient unavailable = true
is_transient internal_error = true
is_transient _ = false

module _ {T : Type 0} (hub : Hub T) where
  -- `GatewayResponse(...)`, which pydantic refuses with a message that is not safe or with more
  -- than 100 tasks
  abbrev respond : GatewayResponse → Call T GatewayResponse
  respond r = elim (hub.safe_message r.message) [
    | none ↦ raise exception
    | some message ↦
        if ltb 100 (length r.tasks) then raise exception else pure (record r { message = message })
  ]

  abbrev created : GatewayRequest → String → String → CreateTaskCommand
  created request project instruction = record {
    task_id = hub.new_task_id (idempotency_key request);
    source = request.source;
    source_event_id = request.source_event_id;
    actor_id = request.actor_id;
    reply_target = request.reply_target;
    project = project;
    instruction = instruction;
  }

  abbrev unqueued : TaskView → GatewayResponse
  unqueued t = record {
    success = false;
    code = unavailable;
    message = joined (
        "Task " ∷ t.task_id
        ∷ " was saved but could not be queued. Check its status before retrying." ∷ []);
    task = some t;
    tasks = [];
    replayed = false;
  }

  abbrev accepted_response : TaskView → GatewayResponse
  accepted_response t = record {
    success = true;
    code = accepted;
    message = joined (
        "Task created. ID: "
        ∷ t.task_id
        ∷ "; project: "
        ∷ t.project
        ∷ "; team: "
        ∷ t.team
        ∷ "; status: "
        ∷ value t.status
        ∷ "."
        ∷ []);
    task = some t;
    tasks = [];
    replayed = false;
  }

  -- `_create_task`
  unfoldable pub create_task :
      GatewayRequest → Option String → Option String → Call T GatewayResponse
  create_task request (some project) (some instruction) = do
    saved ← hub.create_task (created request project instruction)
    attempt (hub.enqueue_task saved.task_id) (respond (unqueued saved))
        (λ queued. respond (accepted_response queued))
  create_task request _ _ = raise exception

  -- `_task_detail`
  unfoldable pub task_detail : Option String → Call T GatewayResponse
  unfolding format_task
  task_detail none = raise exception
  task_detail (some id) = do
    found ← hub.get_task id
    elim found [
      | none ↦ raise task_not_found
      | some t ↦ respond (record (answer true done (format_task t)) { task = some t })
    ]

  -- `_task_list` and `_status`
  unfoldable pub task_list : Call T GatewayResponse
  unfolding list_message
  task_list = do
    ts ← hub.list_tasks 20
    respond (record (answer true done (list_message ts)) { tasks = ts })

  unfoldable pub status_of_tasks : Call T GatewayResponse
  unfolding status_message
  status_of_tasks = do
    ts ← hub.list_tasks 100
    respond (record (answer true done (status_message ts)) { tasks = ts })

  -- `_cancel`
  unfoldable pub cancel : GatewayRequest → Option String → Call T GatewayResponse
  cancel request none = raise exception
  cancel request (some id) = do
    t ← hub.cancel_task (record {
      task_id = id;
      source = request.source;
      source_event_id = request.source_event_id;
      actor_id = request.actor_id;
    })
    respond
        (record (answer true done (
          joined (
            "Cancellation recorded for " ∷ t.task_id ∷ "; status: " ∷ value t.status ∷ "." ∷ []))) {
              task = some t;
            })

  unfoldable pub dispatch_command : GatewayCommand → GatewayRequest → Call T GatewayResponse
  unfolding create_task task_detail task_list status_of_tasks cancel help_text
  dispatch_command help request = respond (answer true done help_text)
  dispatch_command dev request = create_task request request.project request.instruction
  dispatch_command task request = task_detail request.task_id
  dispatch_command tasks request = task_list
  dispatch_command status request = status_of_tasks
  dispatch_command stop request = cancel request request.task_id

  -- `_dispatch`
  unfoldable pub dispatch : GatewayRequest → Call T GatewayResponse
  unfolding dispatch_command
  dispatch request = dispatch_command request.command request

  -- `request.instruction is not None and contains_sensitive_material(request.instruction)`
  abbrev pub is_sensitive : Option String → Bool
  is_sensitive none = false
  is_sensitive (some text) = hub.contains_sensitive_material text

module _ {T D : Type 0} (hub : Hub T) (dedup : RequestDeduplicator D) where
  -- a call on one of the two states
  abbrev pub on_hub : {A : Type 0} → Call T A → Call (T × D) A
  on_hub m s = let (r, t) = m s.0 in (r, (t, s.1))

  abbrev pub on_dedup : {A : Type 0} → Call D A → Call (T × D) A
  on_dedup m s = let (r, d) = m s.1 in (r, (s.0, d))

  -- the end of `handle`: a transient response frees the key, any other is remembered
  unfoldable pub conclude : String → GatewayResponse → Call (T × D) GatewayResponse
  unfolding is_transient
  conclude key response =
      if is_transient response.code
      then attempt (on_dedup (dedup.release key)) (pure response) (λ _. pure response)
      else attempt (on_dedup (dedup.remember key response))
          (pure
            (record (failed unavailable (
              followed_by
                "The request was processed, but its response receipt could not be stored. "
                "Check task status before retrying.")) {
                  task = response.task;
                  tasks = response.tasks;
                }))
          (λ _. pure response)

  -- after `_dispatch`: an interruption frees the key and goes on
  unfoldable pub settle : String → Outcome GatewayResponse → Call (T × D) GatewayResponse
  unfolding conclude response_for
  settle key (returned response) = conclude key response
  settle key (raised interruption) =
      attempt (on_dedup (dedup.release key)) (raise interruption) (λ _. raise interruption)
  settle key (raised e) = conclude key (response_for e)

  -- the reserved request
  unfoldable pub process : GatewayRequest → Call (T × D) GatewayResponse
  unfolding settle
  process request s =
      let (r, t) = dispatch hub request s.0 in settle (idempotency_key request) r (t, s.1)

  -- after `reserve`
  unfoldable pub if_reserved : GatewayRequest → Bool → Call (T × D) GatewayResponse
  unfolding process
  if_reserved request true = process request
  if_reserved request false =
      pure (record (answer true duplicate "This request is already being processed.") {
        replayed = true;
      })

  -- after `get`: a stored response is replayed, and a new request is reserved
  unfoldable pub unless_cached :
      GatewayRequest → Option GatewayResponse → Call (T × D) GatewayResponse
  unfolding if_reserved
  unless_cached request (some response) = pure (record response { replayed = true })
  unless_cached request none =
      attempt (on_dedup (dedup.reserve (idempotency_key request))) (pure dedup_down)
        (if_reserved request)

  unfoldable pub deduplicate : GatewayRequest → Call (T × D) GatewayResponse
  unfolding unless_cached
  deduplicate request =
      attempt (on_dedup (dedup.get (idempotency_key request))) (pure dedup_down)
        (unless_cached request)

  -- after `is_authorized`
  unfoldable pub if_authorized : GatewayRequest → Bool → Call (T × D) GatewayResponse
  unfolding deduplicate
  if_authorized request false =
      pure (failed unauthorized "This actor is not authorized to use the AI Hub.")
  if_authorized request true =
      if is_sensitive hub request.instruction
      then pure (failed invalid_request "Task instructions must not contain credential material.")
      else deduplicate request

  unfoldable pub handle : GatewayRequest → Call (T × D) GatewayResponse
  unfolding if_authorized
  handle request =
      attempt (on_hub (hub.is_authorized request.actor_id request.command request.project))
        (pure (failed unavailable "Authorization is temporarily unavailable."))
        (if_authorized request)
