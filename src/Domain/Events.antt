-- ===== src/Domain/Events.antt =====
-- The event envelope and its validator, src/macmini_ai_hub/domain/events.py.
pub mod Context
use Prim.Native.Char.{code}
use ai_infrastructure_as_cod.Prelude.{
  ℕ, Bool, true, false, not, ◌&&◌, ◌||◌, String, Option, none, some, List, [], ◌∷◌, ◌==◌, Eq,
  nat_eq, string_eq, option_eq, contains, is_some, is_none, if◌then◌else◌, Discrete→Eq, map,
}
use ai_infrastructure_as_cod.Errors.{Result, ok, err, ◌>>=◌, ◌>>◌, raise_if, validation_error}
use ai_infrastructure_as_cod.Domain.Time.{Instant}
use ai_infrastructure_as_cod.Domain.Json.{Fields, codes, normalized, find_in_fields, get_field}

pub data EventType : Type 0 where
  task_created task_queued task_started task_blocked : EventType
  task_completed task_failed task_cancelled : EventType
  team_activated team_idle : EventType
  agent_assigned agent_started agent_status_changed agent_completed agent_failed : EventType
  review_requested review_started review_completed : EventType
  qa_requested qa_started qa_completed : EventType
  artifact_created artifact_transferred : EventType
  project_task_routed : EventType

unfoldable pub EventType-discrete : Discrete EventType
EventType-discrete = hlevel

instance abbrev pub event_type_eq : Eq EventType
event_type_eq = Discrete→Eq EventType-discrete

unfoldable pub type_value : EventType → String
type_value task_created = "task.created"
type_value task_queued = "task.queued"
type_value task_started = "task.started"
type_value task_blocked = "task.blocked"
type_value task_completed = "task.completed"
type_value task_failed = "task.failed"
type_value task_cancelled = "task.cancelled"
type_value team_activated = "team.activated"
type_value team_idle = "team.idle"
type_value agent_assigned = "agent.assigned"
type_value agent_started = "agent.started"
type_value agent_status_changed = "agent.status_changed"
type_value agent_completed = "agent.completed"
type_value agent_failed = "agent.failed"
type_value review_requested = "review.requested"
type_value review_started = "review.started"
type_value review_completed = "review.completed"
type_value qa_requested = "qa.requested"
type_value qa_started = "qa.started"
type_value qa_completed = "qa.completed"
type_value artifact_created = "artifact.created"
type_value artifact_transferred = "artifact.transferred"
type_value project_task_routed = "project.task.routed"

pub data EventLevel : Type 0 where
  debug info warning error : EventLevel

pub record EventEnvelope : Type 0 where
  pub schema_version : ℕ
  pub event_id : String
  pub event_type : EventType
  pub timestamp : Instant
  pub task_id : Option String
  pub project : Option String
  pub team : Option String
  pub agent : Option String
  pub correlation_id : Option String
  pub causation_id : Option String
  pub level : EventLevel
  pub message : Option String
  pub payload : Fields

-- `value.split(".", maxsplit=1)[0]`
before_dot : String → String
before_dot String.[] = String.[]
before_dot (String.◌∷◌ c s) = if code c == 46 then String.[] else String.◌∷◌ c (before_dot s)

unfoldable pub category : EventType → String
unfolding before_dot type_value
category t = before_dot (type_value t)

forbidden_payload_keys : List String
forbidden_payload_keys =
    "access_token" ∷ "api_key" ∷ "apikey" ∷ "authorization" ∷ "authorization_header"
    ∷ "client_secret" ∷ "cookie" ∷ "credentials" ∷ "github_token" ∷ "openai_api_key" ∷ "password"
    ∷ "private_key" ∷ "refresh_token" ∷ "secret" ∷ "signing_secret" ∷ "slack_app_token"
    ∷ "slack_bot_token" ∷ "token" ∷ []

-- `normalized_key in _FORBIDDEN_PAYLOAD_KEYS`
same_codes : List ℕ → List ℕ → Bool
same_codes [] [] = true
same_codes (a ∷ as') (b ∷ bs) = a == b && same_codes as' bs
same_codes _ _ = false

any_codes : List ℕ → List String → Bool
unfolding same_codes codes
any_codes k [] = false
any_codes k (w ∷ ws) = same_codes k (codes w) || any_codes k ws

unfoldable pub is_forbidden_key : String → Bool
unfolding any_codes normalized forbidden_payload_keys
is_forbidden_key k = any_codes (normalized k) forbidden_payload_keys

-- The tests of `validate_context` on the type: whether the fields that it asks for are there.
unfoldable pub names_context : EventType → EventEnvelope → Bool
unfolding category EventType-discrete
names_context t e =
    let c = category t in
    if contains ("task" ∷ "review" ∷ "qa" ∷ "artifact" ∷ []) c && is_none e.task_id
    then false
    else if c == "team" && is_none e.team
    then false
    else if c == "agent" && is_none e.agent
    then false
    else not
        (t == project_task_routed && (is_none e.task_id || is_none e.project || is_none e.team))

-- `causation_id == event_id`
abbrev pub causes_itself : Option String → String → Bool
causes_itself none i = false
causes_itself (some c) i = c == i

unfoldable pub validate_context : EventEnvelope → Result EventEnvelope
validate_context e = do
  raise_if (not (names_context e.event_type e)) validation_error
  raise_if (causes_itself e.causation_id e.event_id) validation_error
  raise_if (is_some (find_in_fields is_forbidden_key e.payload [])) validation_error
  ok e
