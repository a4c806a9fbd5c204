-- ===== src/Storage/Models.antt =====
-- The records of src/macmini_ai_hub/storage/models.py with their validators.
use ai_infrastructure_as_cod.Prelude.{
  ℕ, ℤ, Bool, true, false, not, ◌&&◌, String, Option, is_some, is_none,
}
use ai_infrastructure_as_cod.Errors.{Result, ok, ◌>>◌, raise_if, validation_error}
use ai_infrastructure_as_cod.Domain.Time.{Instant}
use ai_infrastructure_as_cod.Domain.Events.{EventEnvelope}
use ai_infrastructure_as_cod.Domain.Tasks.{precedes?, disordered}

pub data RunStatus : Type 0 where
  queued running succeeded failed timed_out cancelled interrupted : RunStatus

unfoldable pub is_terminal : RunStatus → Bool
is_terminal queued = false
is_terminal running = false
is_terminal _ = true

pub record RunRecord : Type 0 where
  pub run_id : String
  pub task_id : String
  pub agent : String
  pub runtime : String
  pub status : RunStatus
  pub created_at : Instant
  pub started_at : Option Instant
  pub completed_at : Option Instant
  pub exit_code : Option ℤ
  pub error_code : Option String

-- Whether the timestamps are those that the status asks for.
abbrev stamps_fit : RunStatus → Option Instant → Option Instant → Bool
stamps_fit queued started completed = is_none started && is_none completed
stamps_fit running started completed = is_some started && is_none completed
stamps_fit _ started completed = is_some started && is_some completed

abbrev is_succeeded : RunStatus → Bool
is_succeeded succeeded = true
is_succeeded _ = false

-- `RunRecord.model_validate`, with `validate_lifecycle`
unfoldable pub validate_lifecycle : RunRecord → Result RunRecord
validate_lifecycle r = do
  raise_if (precedes? r.started_at r.created_at) validation_error
  raise_if (not (stamps_fit r.status r.started_at r.completed_at)) validation_error
  raise_if (disordered r.started_at r.completed_at) validation_error
  raise_if (is_succeeded r.status && is_some r.error_code) validation_error
  ok r

pub record ArtifactMetadata : Type 0 where
  pub artifact_id : String
  pub task_id : String
  pub run_id : Option String
  pub kind : String
  pub path : String
  pub content_type : String
  pub size_bytes : ℕ
  pub sha256 : String
  pub created_at : Instant

-- an event with its place in the log
pub record StoredEvent : Type 0 where
  pub sequence : ℕ
  pub envelope : EventEnvelope

pub record TaskRoute : Type 0 where
  pub task_id : String
  pub source : String
  pub target : String

pub data DeliveryState : Type 0 where
  reserved delivered : DeliveryState

pub record DeliveryReceipt : Type 0 where
  pub delivery_id : String
  pub state : DeliveryState
  pub created_at : Instant
  pub delivered_at : Option Instant

abbrev delivery_fits : DeliveryState → Option Instant → Bool
delivery_fits reserved at = is_none at
delivery_fits delivered at = is_some at

unfoldable pub validate_delivery_state : DeliveryReceipt → Result DeliveryReceipt
validate_delivery_state r = do
  raise_if (not (delivery_fits r.state r.delivered_at)) validation_error
  raise_if (precedes? r.delivered_at r.created_at) validation_error
  ok r
