-- ===== src/Storage/Runs/Lifecycle.antt =====
-- What a valid run is, and what starting and finishing one does.
use ai_infrastructure_as_cod.Prelude.{
  ◌≤◌, true, false, String, Option, none, some, lookup, insert, ◌≡◌, ◌≢◌, refl, arith,
}
use ai_infrastructure_as_cod.Errors.{ok}
use ai_infrastructure_as_cod.Domain.Time.{Instant, aware}
use ai_infrastructure_as_cod.Domain.Tasks.Lifecycle.{NotBefore, Ordered}
use ai_infrastructure_as_cod.Storage.Models.{
  RunStatus, queued, running, succeeded, RunRecord, is_terminal, validate_lifecycle,
}
use ai_infrastructure_as_cod.Storage.Pydantic.{Pydantic}
use ai_infrastructure_as_cod.Storage.Store.{RunRow, Store}
use ai_infrastructure_as_cod.Storage.Runs.{started, start_of, start_run}

pub record IsValidRun (r : RunRecord) : Type 0 where
  pub start : NotBefore r.created_at r.started_at
  pub ordered : Ordered r.started_at r.completed_at
  pub unstarted : r.status ≡ queued → (r.started_at ≡ none) × (r.completed_at ≡ none)
  pub going : r.status ≡ running → (r.started_at ≢ none) × (r.completed_at ≡ none)
  pub ended : is_terminal r.status ≡ true → (r.started_at ≢ none) × (r.completed_at ≢ none)
  pub clean : r.status ≡ succeeded → r.error_code ≡ none

pub validate-IsValidRun : (r : RunRecord) → validate_lifecycle r ≡ ok r → IsValidRun r
unfolding validate_lifecycle is_terminal
validate-IsValidRun r h = ground arith

pub IsValidRun-validate : (r : RunRecord) → IsValidRun r → validate_lifecycle r ≡ ok r
unfolding validate_lifecycle is_terminal
IsValidRun-validate r v = ground arith

pub validate_lifecycle-eq : (r u : RunRecord) → validate_lifecycle r ≡ ok u → u ≡ r
unfolding validate_lifecycle
validate_lifecycle-eq r u h = ground arith

-- A run may end at a time that does not precede its start, without an error code on success.
abbrev pub MayEnd : RunRecord → RunStatus → Instant → Option String → Type 0
MayEnd r status at error_code =
    (is_terminal r.status ≡ false)
    × (is_terminal status ≡ true)
    × Ordered (start_of r) (some at)
    × (status ≡ succeeded → error_code ≡ none)

module _ (p : Pydantic) where
  open p use {Doc, dump_run, load_run}

  -- The table has this row for the run, and its text reads back as the run of that key.
  abbrev pub RunStored : Store Doc → String → RunRow Doc → RunRecord → Type 0
  RunStored s run_id row r =
      (lookup run_id s.runs ≡ some row) × (load_run row.run_json ≡ some r) × (r.run_id ≡ run_id)

  -- The store with a run's row rewritten.
  abbrev pub with_run : Store Doc → String → RunRow Doc → RunRecord → Store Doc
  with_run s run_id row u = record s {
    runs = insert run_id (record row { status = u.status; run_json = dump_run u }) s.runs;
  }

  -- In an open store, `start_run` at an aware time that does not precede the creation succeeds on
  -- a valid stored run that is queued: it stamps the start and writes that run alone.
  pub start_ok :
      (now : Instant) (run_id : String) (at : Instant) (s : Store Doc) (row : RunRow Doc)
      (r : RunRecord)
      → s.closed ≡ false
      → RunStored s run_id row r
      → IsValidRun r
      → r.status ≡ queued
      → r.created_at.utc ≤ at.utc
      → start_run p now run_id (some (aware at)) s
        ≡ (ok (started r at), with_run s run_id row (started r at))
  unfolding start_run
  start_ok now run_id at s row r o st v q m =
      ground (arith, st.0, st.1, st.2, keyed, IsValidRun-validate (started r at) valid)
    where
      keyed : (started r at).run_id ≡ r.run_id
      keyed = unfold started in refl

      valid : IsValidRun (started r at)
      valid = unfold started is_terminal in ground arith
