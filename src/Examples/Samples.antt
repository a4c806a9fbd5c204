-- ===== src/Examples/Samples.antt =====
-- Concrete inputs: a stand-in for pydantic whose texts are the models themselves, and a few models.
use native.Mathlib.Decide.{ℕ_discrete}
use ai_infrastructure_as_cod.Prelude.{
  ℕ, zero, suc, String, Option, none, some, [], ◌≡◌, ap, ◌∙◌, Discrete→Eq, arith, inl, inr, eq_iff,
  Bool-cases, ◌==◌, if◌then◌else◌, string_eq,
}
use ai_infrastructure_as_cod.Errors.{Result, ok, err}
use ai_infrastructure_as_cod.Domain.Time.{Instant}
use ai_infrastructure_as_cod.Domain.Json.{JsonValue, Fields}
use ai_infrastructure_as_cod.Domain.Status.{TaskStatus}
use ai_infrastructure_as_cod.Domain.Tasks.{Task, validate}
use ai_infrastructure_as_cod.Domain.Events.{EventType, EventLevel, EventEnvelope}
use ai_infrastructure_as_cod.Domain.Tasks.Lifecycle.{validate-eq}
use ai_infrastructure_as_cod.Storage.Runs.Lifecycle.{validate_lifecycle-eq}
use ai_infrastructure_as_cod.Storage.Pydantic.{Pydantic}
use ai_infrastructure_as_cod.Storage.Models.{RunRecord, ArtifactMetadata, validate_lifecycle}

String-discrete : Discrete String
String-discrete a b = elim (Bool-cases (a == b)) [
  | inl h ↦ yes ((eq_iff a b).0 h)
  | inr h ↦ no (λ q. cc (h, (eq_iff a b).1 q))
]

-- The texts of the models.
pub data Doc : Type 0 where
  of_task : Task → Doc
  of_event : EventEnvelope → Doc
  of_run : RunRecord → Doc
  of_json : Fields → Doc
  of_artifact : ArtifactMetadata → Doc

pub Doc-discrete : Discrete Doc
Doc-discrete = hlevel (ℕ_discrete, String-discrete)

abbrev pub to_option : {A : Type 0} → Result A → Option A
to_option (ok a) = some a
to_option (err e) = none

to_option-some : {A : Type 0} (r : Result A) (a : A) → to_option r ≡ some a → r ≡ ok a
to_option-some (ok b) a h = ground arith
to_option-some (err e) a h = ground arith

abbrev pub read_task : Doc → Option Task
read_task (of_task t) = to_option (validate t)
read_task _ = none

abbrev pub read_run : Doc → Option RunRecord
read_run (of_run r) = to_option (validate_lifecycle r)
read_run _ = none

abbrev pub read_json : Doc → Option Fields
read_json (of_json fs) = some fs
read_json _ = none

pub read_task_valid : (d : Doc) (t : Task) → read_task d ≡ some t → validate t ≡ ok t
read_task_valid (of_task u) t h =
    let q = to_option-some (validate u) t h in
    rw (validate-eq u t q) (q ∙ ap ok (validate-eq u t q))
read_task_valid (of_event e) t h = ground arith
read_task_valid (of_run r) t h = ground arith
read_task_valid (of_json fs) t h = ground arith
read_task_valid (of_artifact a) t h = ground arith

pub read_run_valid : (d : Doc) (r : RunRecord) → read_run d ≡ some r → validate_lifecycle r ≡ ok r
read_run_valid (of_run u) r h =
    let q = to_option-some (validate_lifecycle u) r h in
    rw (validate_lifecycle-eq u r q) (q ∙ ap ok (validate_lifecycle-eq u r q))
read_run_valid (of_event e) t h = ground arith
read_run_valid (of_task r) t h = ground arith
read_run_valid (of_json fs) t h = ground arith
read_run_valid (of_artifact a) t h = ground arith

abbrev pub read_event : Doc → Option EventEnvelope
read_event (of_event e) = some e
read_event _ = none

abbrev pub read_artifact : Doc → Option ArtifactMetadata
read_artifact (of_artifact a) = some a
read_artifact _ = none

-- times as texts that grow with the time
abbrev pub padded : ℕ → String
padded zero = ""
padded (suc n) = String.◌∷◌ "z" (padded n)

-- Constrained strings that are what they were.
abbrev pub nonempty : String → Option String
nonempty s = if s == "" then none else some s

abbrev pub plain : Pydantic
plain = record {
  Doc = Doc;
  doc_eq = Discrete→Eq Doc-discrete;
  dump_task = of_task;
  load_task = read_task;
  dump_event = of_event;
  load_event = read_event;
  dump_run = of_run;
  load_run = read_run;
  dump_artifact = of_artifact;
  load_artifact = read_artifact;
  dump_json = of_json;
  load_json = read_json;
  isoformat = λ i. padded (i.utc);
  idempotency_key = nonempty;
  task_id_value = nonempty;
  route_value = nonempty;
  load-dump_task = λ t h. ap to_option h;
  load_task_valid = read_task_valid;
  load-dump_run = λ r h. ap to_option h;
  load_run_valid = read_run_valid;
}

abbrev pub at : ℕ → Instant
at n = record { utc = n; offset = 86400 }

abbrev pub errand : TaskStatus → Task
errand s = record {
  task_id = "task-1";
  source = "slack";
  project = "hub";
  team = "platform";
  request = "rotate the logs";
  status = s;
  assigned_agents = [];
  created_at = at 10;
  started_at = none;
  completed_at = none;
}

abbrev pub status_payload : String → Fields
status_payload s = Fields.field "status" (JsonValue.text s) Fields.empty

abbrev pub event_of : String → EventType → ℕ → Fields → EventEnvelope
event_of id type n payload = record {
  schema_version = 1;
  event_id = id;
  event_type = type;
  timestamp = at n;
  task_id = some "task-1";
  project = some "hub";
  team = some "platform";
  agent = none;
  correlation_id = none;
  causation_id = none;
  level = EventLevel.info;
  message = none;
  payload = payload;
}
