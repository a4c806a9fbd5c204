-- ===== src/Storage/Runs.antt =====
-- The run operations of `SQLiteStore`: `create_run`, `get_run`, `start_run` and `finish_run`,
-- src/macmini_ai_hub/storage/sqlite.py.
pub mod Lifecycle
pub mod Permanence
use ai_infrastructure_as_cod.Prelude.{
  ℕ, ℤ, Bool, true, false, not, ◌||◌, String, Option, none, some, Table, lookup, insert, is_some,
  is_none, if◌then◌else◌,
}
use ai_infrastructure_as_cod.Errors.{
  Error, Result, ok, err, value_error, data_integrity, duplicate_run, record_not_found,
}
use ai_infrastructure_as_cod.Domain.Time.{Instant, Datetime, aware_time}
use ai_infrastructure_as_cod.Storage.Models.{
  RunStatus, queued, running, interrupted, RunRecord, is_terminal, validate_lifecycle,
}
use ai_infrastructure_as_cod.Storage.Pydantic.{Pydantic}
use ai_infrastructure_as_cod.Storage.Transaction.{
  Tx, pure, raise, lift, gets, or_raise, modify, raise_if, ◌>>=◌, ◌>>◌,
}
use ai_infrastructure_as_cod.Storage.Store.{RunRow, Store, transaction, reading}

abbrev pub is_queued : RunStatus → Bool
is_queued queued = true
is_queued _ = false

-- the run as `start_run` writes it
unfoldable pub started : RunRecord → Instant → RunRecord
started r at = record r { status = running; started_at = some at }

-- `started_at or created_at`
abbrev pub start_of : RunRecord → Option Instant
start_of r = elim r.started_at [ some t ↦ some t | none ↦ some r.created_at ]

-- the run as `finish_run` writes it
unfoldable pub finished : RunRecord → RunStatus → Instant → Option ℤ → Option String → RunRecord
finished r status at exit_code error_code = record r {
  status = status;
  started_at = start_of r;
  completed_at = some at;
  exit_code = exit_code;
  error_code = error_code;
}

module _ (p : Pydantic) where
  open p use {Doc, dump_run, load_run}

  unfoldable pub run_row : RunRecord → RunRow Doc
  run_row r = record {
    task_id = r.task_id;
    created_at = r.created_at;
    status = r.status;
    run_json = dump_run r;
  }

  -- UPDATE runs SET status, started_at, completed_at, run_json WHERE run_id = ?
  unfoldable pub update_run : RunRecord → Table (RunRow Doc) → Table (RunRow Doc)
  update_run r m = elim (lookup r.run_id m) [
    | none ↦ m
    | some row ↦ insert r.run_id (record row { status = r.status; run_json = dump_run r }) m
  ]

  unfoldable pub write_run : RunRecord → Tx (Store Doc) (Unit {0})
  unfolding update_run
  write_run r s = (ok tt, record s { runs = update_run r s.runs })

  unfoldable pub create_run : RunRecord → Tx (Store Doc) RunRecord
  unfolding transaction run_row
  create_run r = transaction (do
    known ← gets (λ s. lookup r.run_id s.runs)
    raise_if (is_some known) duplicate_run
    task ← gets (λ s. lookup r.task_id s.tasks)
    raise_if (is_none task) record_not_found
    modify (λ s. record s { runs = insert r.run_id (run_row r) s.runs })
    pure r)

  unfoldable pub load_run_row : RunRow Doc → Result RunRecord
  load_run_row row = elim (load_run row.run_json) [ none ↦ err data_integrity | some r ↦ ok r ]

  unfoldable pub get_run_locked : String → Tx (Store Doc) RunRecord
  unfolding load_run_row
  get_run_locked run_id = do
    found ← gets (λ s. lookup run_id s.runs)
    row ← or_raise found record_not_found
    lift (load_run_row row)

  unfoldable pub get_run : String → Tx (Store Doc) RunRecord
  unfolding reading get_run_locked
  get_run run_id = reading (get_run_locked run_id)

  unfoldable pub start_run : Instant → String → Option Datetime → Tx (Store Doc) RunRecord
  unfolding transaction get_run_locked write_run aware_time
  start_run now run_id at = do
    started_at ← lift (aware_time now at)
    transaction (do
      current ← get_run_locked run_id
      raise_if (not (is_queued current.status)) data_integrity
      updated ← lift (validate_lifecycle (started current started_at))
      write_run updated
      pure updated)

  unfoldable pub finish_run :
      Instant
      → String
      → RunStatus
      → Option Datetime
      → Option ℤ
      → Option String
      → Tx (Store Doc) RunRecord
  unfolding transaction get_run_locked write_run aware_time
  finish_run now run_id status at exit_code error_code = do
    raise_if (not (is_terminal status)) value_error
    completed_at ← lift (aware_time now at)
    transaction (do
      current ← get_run_locked run_id
      raise_if (is_terminal current.status) data_integrity
      updated ←
          lift (validate_lifecycle (finished current status completed_at exit_code error_code))
      write_run updated
      pure updated)
