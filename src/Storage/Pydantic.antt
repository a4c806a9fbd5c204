-- ===== src/Storage/Pydantic.antt =====
-- What the store takes from pydantic and from Python's `json`, which are not part of the
-- repository: the text of a model (`_canonical_model_json`), its reading back
-- (`model_validate_json`), and the constrained strings. A text is a value of `Doc`.
use ai_infrastructure_as_cod.Prelude.{String, Option, some, ◌≡◌, Eq}
use ai_infrastructure_as_cod.Errors.{ok}
use ai_infrastructure_as_cod.Domain.Json.{Fields}
use ai_infrastructure_as_cod.Domain.Time.{Instant}
use ai_infrastructure_as_cod.Domain.Tasks.{Task, validate}
use ai_infrastructure_as_cod.Domain.Events.{EventEnvelope}
use ai_infrastructure_as_cod.Storage.Models.{RunRecord, ArtifactMetadata, validate_lifecycle}

pub record Pydantic : Type 1 where
  pub Doc : Type 0
  pub doc_eq : Eq Doc
  pub dump_task : Task → Doc
  pub load_task : Doc → Option Task
  pub dump_event : EventEnvelope → Doc
  pub load_event : Doc → Option EventEnvelope
  pub dump_run : RunRecord → Doc
  pub load_run : Doc → Option RunRecord
  pub dump_artifact : ArtifactMetadata → Doc
  pub load_artifact : Doc → Option ArtifactMetadata
  pub dump_json : Fields → Doc
  pub load_json : Doc → Option Fields
  -- `datetime.isoformat`, by which the listings are ordered
  pub isoformat : Instant → String
  -- the constrained strings `TaskId`, `IdempotencyKey` and `OpaqueRouteValue`: stripped, or refused
  pub task_id_value : String → Option String
  pub idempotency_key : String → Option String
  pub route_value : String → Option String
  -- a text that was written from a valid model reads back as that model, and what is read is valid
  pub load-dump_task : (t : Task) → validate t ≡ ok t → load_task (dump_task t) ≡ some t
  pub load_task_valid : (d : Doc) (t : Task) → load_task d ≡ some t → validate t ≡ ok t
  pub load-dump_run : (r : RunRecord) → validate_lifecycle r ≡ ok r → load_run (dump_run r) ≡ some r
  pub load_run_valid : (d : Doc) (r : RunRecord) → load_run d ≡ some r → validate_lifecycle r ≡ ok r
