-- ===== src/Gateway/Models.antt =====
-- The requests, commands and responses of src/macmini_ai_hub/gateway/models.py. The constrained
-- strings of the fields are pydantic's, and are not modelled.
use Prim.Native.String.{◌++◌ as followed_by}
use ai_infrastructure_as_cod.Prelude.{Bool, not, ◌&&◌, String, Option, List, is_some, is_none}
use ai_infrastructure_as_cod.Errors.{Result, ok, ◌>>◌, raise_if, validation_error}
use ai_infrastructure_as_cod.Domain.Status.{TaskStatus}

pub data GatewayCommand : Type 0 where
  help dev status task tasks stop : GatewayCommand

pub data GatewayCode : Type 0 where
  done accepted duplicate unauthorized invalid_request : GatewayCode
  not_found conflict unavailable internal_error : GatewayCode

pub record GatewayRequest : Type 0 where
  pub source : String
  pub source_event_id : String
  pub actor_id : String
  pub reply_target : Option String
  pub command : GatewayCommand
  pub project : Option String
  pub task_id : Option String
  pub instruction : Option String

-- f"{source}:{source_event_id}"
abbrev pub idempotency_key : GatewayRequest → String
idempotency_key r = followed_by r.source (followed_by ":" r.source_event_id)

-- Whether the arguments are those that the command takes.
unfoldable pub arguments_fit : GatewayCommand → GatewayRequest → Bool
arguments_fit dev r = is_some r.project && is_some r.instruction && is_none r.task_id
arguments_fit task r = is_some r.task_id && is_none r.project && is_none r.instruction
arguments_fit stop r = is_some r.task_id && is_none r.project && is_none r.instruction
arguments_fit _ r = is_none r.project && is_none r.task_id && is_none r.instruction

unfoldable pub validate_command_arguments : GatewayRequest → Result GatewayRequest
validate_command_arguments r = do raise_if (not (arguments_fit r.command r)) validation_error; ok r

pub record CreateTaskCommand : Type 0 where
  pub task_id : String
  pub source : String
  pub source_event_id : String
  pub actor_id : String
  pub reply_target : Option String
  pub project : String
  pub instruction : String

pub record CancelTaskCommand : Type 0 where
  pub task_id : String
  pub source : String
  pub source_event_id : String
  pub actor_id : String

pub record TaskView : Type 0 where
  pub task_id : String
  pub project : String
  pub team : String
  pub status : TaskStatus
  pub assigned_agents : List String

pub record GatewayResponse : Type 0 where
  pub success : Bool
  pub code : GatewayCode
  pub message : String
  pub task : Option TaskView
  pub tasks : List TaskView
  pub replayed : Bool
