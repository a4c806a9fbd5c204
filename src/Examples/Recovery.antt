-- ===== src/Examples/Recovery.antt =====
-- The theorems on recovery, listings and artifacts at concrete stores.
use ai_infrastructure_as_cod.Prelude.{
  String, none, some, List, [], ◌∷◌, All, Table, lookup, ◌≡◌, ◌≢◌, ap, ◌∙◌, refl, arith, HasKeys,
  no_rows, row, length, ◌≤◌, eq_iff, string_eq,
}
use ai_infrastructure_as_cod.Errors.{Error, ok, err}
use ai_infrastructure_as_cod.Domain.Time.{aware}
use ai_infrastructure_as_cod.Domain.Status.{queued, running}
use ai_infrastructure_as_cod.Domain.Tasks.{Task, validate}
use ai_infrastructure_as_cod.Storage.Models.{
  RunStatus, RunRecord, ArtifactMetadata, validate_lifecycle,
}
use ai_infrastructure_as_cod.Storage.Store.{TaskRow, RunRow, Store, empty_store}
use ai_infrastructure_as_cod.Storage.Listing.{list_queued_tasks}
use ai_infrastructure_as_cod.Storage.Listing.Queued.{list_queued-ok}
use ai_infrastructure_as_cod.Storage.Artifacts.{create_artifact, get_artifact, get-create_artifact}
use ai_infrastructure_as_cod.Storage.Recovery.{ReconciliationResult, reconcile_interrupted_running}
use ai_infrastructure_as_cod.Storage.Recovery.Cleared.{IsCleared, reconcile-IsCleared}
use ai_infrastructure_as_cod.Storage.Recovery.RunLoop.{RunsKeyed}
use ai_infrastructure_as_cod.Storage.Sound.{Fits, IsSound}
use ai_infrastructure_as_cod.Examples.Samples.{plain, Doc, read_run, of_task, of_run, at, errand}

-- a store with one task and the run that works on it
abbrev a_run : RunRecord
a_run = record {
  run_id = "run-1";
  task_id = "task-1";
  agent = "builder";
  runtime = "codex";
  status = RunStatus.running;
  created_at = at 10;
  started_at = some (at 15);
  completed_at = none;
  exit_code = none;
  error_code = none;
}

abbrev started_errand : Task
started_errand = record (errand running) { started_at = some (at 12) }

abbrev row_of : Task → TaskRow Doc
row_of t = record {
  status = t.status;
  project = "hub";
  team = "platform";
  version = 1;
  created_at = at 10;
  updated_at = at 12;
  task_json = of_task t;
}

abbrev run_row : RunRow Doc
run_row = record {
  task_id = "task-1";
  created_at = at 10;
  status = RunStatus.running;
  run_json = of_run a_run;
}

abbrev pub with_task : Task → Store Doc
with_task t = record (empty_store {Doc = Doc}) { tasks = ("task-1", row_of t) ∷ [] }

abbrev at_work : Store Doc
at_work = record (with_task started_errand) { runs = ("run-1", run_row) ∷ [] }

one_row :
    {V : Type 0} (j k : String) (v w : V) → lookup k ((j, v) ∷ []) ≡ some w → (j ≡ k) × (w ≡ v)
unfolding lookup
one_row j k v w h = ground (arith, h, eq_iff j k)

no_row : {V : Type 0} (k : String) (w : V) → lookup k [] ≢ some w
unfolding lookup
no_row k w h = ground (arith, h)

pub Fits-waiting : Fits plain "task-1" (row_of (errand queued))
unfolding validate
Fits-waiting = record {
  task = errand queued;
  reads = refl;
  keyed = refl;
  status = refl;
  project = refl;
  team = refl;
  versioned = omega arith;
}

Fits-started : Fits plain "task-1" (row_of started_errand)
unfolding validate
Fits-started = record {
  task = started_errand;
  reads = refl;
  keyed = refl;
  status = refl;
  project = refl;
  team = refl;
  versioned = omega arith;
}

pub with_task-IsSound :
    (t : Task) (rs : Table (RunRow Doc))
    → Fits plain "task-1" (row_of t)
    → IsSound plain (record (with_task t) { runs = rs })
with_task-IsSound t rs f = record {
  rows = λ k r h. let (e, w) = one_row "task-1" k (row_of t) r h in rw (w, ← e) f;
  counted = λ k e h. absurd (no_row k e h);
  distinct = λ j k d e h. absurd (no_row j d h);
  linked = λ k i e h. absurd (no_row k e h);
}

one_task-HasKeys : {V : Type 0} (k : String) (v : V) → HasKeys ((k, v) ∷ [])
unfolding lookup
one_task-HasKeys k v = row k v refl no_rows

reads_run : read_run run_row.run_json ≡ some a_run
unfolding validate_lifecycle
reads_run = refl

at_work-RunsKeyed : RunsKeyed plain (λ k. k) at_work
at_work-RunsKeyed k r run h l =
    let (e, w) = one_row "run-1" k run_row r h in
    let same : run ≡ a_run = cc (l, w, reads_run) in ap (λ (u : RunRecord). u.run_id) same ∙ e

reconcile-IsCleared_example :
    ((r : ReconciliationResult)
      → (reconcile_interrupted_running plain (λ k. k) (at 99) (some (aware (at 30))) at_work).0
        ≡ ok r
      → IsCleared plain
          (λ k. k)
          (reconcile_interrupted_running plain (λ k. k) (at 99) (some (aware (at 30))) at_work).1)
    × ((e : Error)
        → (reconcile_interrupted_running plain (λ k. k) (at 99) (some (aware (at 30))) at_work).0
          ≡ err e
        → (reconcile_interrupted_running plain (λ k. k) (at 99) (some (aware (at 30))) at_work).1
          ≡ at_work)
reconcile-IsCleared_example =
    reconcile-IsCleared plain (λ k. k) (at 99) (some (aware (at 30))) at_work
      (one_task-HasKeys "run-1" run_row) (one_task-HasKeys "task-1" (row_of started_errand))
      at_work-RunsKeyed (with_task-IsSound started_errand (("run-1", run_row) ∷ []) Fits-started)

list_queued-ok_example :
    (ts : List Task) × (list_queued_tasks plain 5 (with_task (errand queued))
      ≡ (ok ts, with_task (errand queued)))
    × All (λ (t : Task). t.status ≡ queued) ts
    × (length ts ≤ 5)
list_queued-ok_example =
    list_queued-ok plain 5 (with_task (errand queued)) refl
      (one_task-HasKeys "task-1" (row_of (errand queued)))
      (with_task-IsSound (errand queued) [] Fits-waiting) (omega arith) (omega arith)

abbrev a_file : ArtifactMetadata
a_file = record {
  artifact_id = "artifact-1";
  task_id = "task-1";
  run_id = some "run-1";
  kind = "log";
  path = "logs/run.txt";
  content_type = "text/plain";
  size_bytes = 12;
  sha256 = "00";
  created_at = at 20;
}

file_stored : (create_artifact plain a_file at_work).0 ≡ ok a_file
unfolding create_artifact lookup
file_stored = refl

get-create_artifact_example :
    (get_artifact plain "artifact-1" (create_artifact plain a_file at_work).1).0 ≡ ok a_file
get-create_artifact_example = get-create_artifact plain a_file a_file at_work refl file_stored
