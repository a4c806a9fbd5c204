-- ===== src/Storage/Listing.antt =====
-- The listings of `SQLiteStore`: `list_queued_tasks`, `list_tasks`, `list_events`, `list_runs` and
-- `list_task_routes`, src/macmini_ai_hub/storage/sqlite.py. A negative limit is refused as 0 is.
pub mod Queued
use ai_infrastructure_as_cod.Prelude.{
  ℕ, Bool, true, false, not, ◌&&◌, ◌||◌, String, Option, none, some, List, [], ◌∷◌, map, take,
  rows_where, order_by, by_two, by_two_desc, text_le, ◌==◌, string_eq, option_eq, leb, ltb,
}
use ai_infrastructure_as_cod.Errors.{Error, Result, ok, err, value_error, data_integrity}
use ai_infrastructure_as_cod.Domain.Status.{TaskStatus, queued, status_eq}
use ai_infrastructure_as_cod.Domain.Tasks.{Task}
use ai_infrastructure_as_cod.Domain.Events.{EventEnvelope}
use ai_infrastructure_as_cod.Storage.Models.{RunRecord, StoredEvent, TaskRoute}
use ai_infrastructure_as_cod.Storage.Pydantic.{Pydantic}
use ai_infrastructure_as_cod.Storage.Transaction.{
  Tx, pure, raise, lift, gets, raise_if, ◌>>=◌, ◌>>◌,
}
use ai_infrastructure_as_cod.Storage.Store.{TaskRow, EventRow, RunRow, Store, reading}
use ai_infrastructure_as_cod.Storage.Tasks.{load_row}
use ai_infrastructure_as_cod.Storage.Runs.{load_run_row}
use ai_infrastructure_as_cod.Storage.Routes.{make_route}

-- the rows one after the other, up to the first that cannot be read
unfoldable pub decode_all : {A B : Type 0} → (A → Result B) → List A → Result (List B)
decode_all read [] = ok []
decode_all read (r ∷ rs) =
    let rest = decode_all read rs in
    elim (read r) [ err e ↦ err e | ok b ↦ elim rest [ err e ↦ err e | ok bs ↦ ok (b ∷ bs) ] ]

-- `not 1 <= limit <= most`
abbrev pub bad_limit : ℕ → ℕ → Bool
bad_limit limit most = not (leb 1 limit && leb limit most)

-- `WHERE status = ?`, or no such clause
abbrev pub in_status : Option TaskStatus → TaskStatus → Bool
in_status none s = true
in_status (some t) s = s == t

module _ (p : Pydantic) where
  open p use {Doc, isoformat, load_event}

  abbrev task_key : String × TaskRow Doc → String × String
  task_key r = (isoformat r.1.created_at, r.0)

  abbrev run_key : String × RunRow Doc → String × String
  run_key r = (isoformat r.1.created_at, r.0)

  abbrev pub is_queued_row : TaskRow Doc → Bool
  is_queued_row row = row.status == queued

  -- SELECT ... WHERE status = 'queued' ORDER BY created_at, task_id LIMIT ?
  unfoldable pub queued_rows : ℕ → Store Doc → List (String × TaskRow Doc)
  queued_rows limit s =
      take limit
        (order_by (λ a b. by_two (task_key a) (task_key b)) (rows_where is_queued_row s.tasks))

  unfoldable pub list_queued_tasks : ℕ → Tx (Store Doc) (List Task)
  unfolding reading decode_all queued_rows
  list_queued_tasks limit = do
    raise_if (bad_limit limit 1000) value_error
    reading (do rows ← gets (queued_rows limit); lift (decode_all (λ r. load_row p r.1) rows))

  unfoldable pub list_tasks : ℕ → Option TaskStatus → Tx (Store Doc) (List Task)
  unfolding reading decode_all
  list_tasks limit status = do
    raise_if (bad_limit limit 1000) value_error
    reading (do
      rows ← gets (λ s. take limit (
          order_by (λ a b. by_two_desc (task_key a) (task_key b))
            (rows_where (λ (r : TaskRow Doc). in_status status r.status) s.tasks)))
      lift (decode_all (λ r. load_row p r.1) rows))

  -- WHERE task_id = ? AND sequence > ?
  abbrev listed : Option String → ℕ → EventRow Doc → Bool
  listed none after e = ltb after e.sequence
  listed (some k) after e = e.task_id == some k && ltb after e.sequence

  abbrev stored_event : String × EventRow Doc → Result StoredEvent
  stored_event r = elim (load_event r.1.envelope_json) [
    | none ↦ err data_integrity
    | some e ↦ ok (record { sequence = r.1.sequence; envelope = e })
  ]

  unfoldable pub list_events : Option String → ℕ → ℕ → Tx (Store Doc) (List StoredEvent)
  unfolding reading decode_all
  list_events task_id after_sequence limit = do
    raise_if (bad_limit limit 10000) value_error
    reading (do
      rows ← gets (λ s. take limit (
          order_by (λ (a : String × EventRow Doc) b. leb a.1.sequence b.1.sequence)
            (rows_where (listed task_id after_sequence) s.events)))
      lift (decode_all stored_event rows))

  unfoldable pub list_runs : String → Tx (Store Doc) (List RunRecord)
  unfolding reading decode_all load_run_row
  list_runs task_id = reading (do
    rows ← gets (λ s.
        order_by (λ a b. by_two (run_key a) (run_key b))
          (rows_where (λ (r : RunRow Doc). r.task_id == task_id) s.runs))
    lift (decode_all (λ (r : String × RunRow Doc). load_run_row p r.1) rows))

  abbrev read_route : String × TaskRoute → Result TaskRoute
  read_route r = elim (make_route p r.0 r.1.source r.1.target) [
    | ok route ↦ ok route
    | err e ↦ err data_integrity
  ]

  unfoldable pub list_task_routes : ℕ → Tx (Store Doc) (List TaskRoute)
  unfolding reading decode_all
  list_task_routes limit = do
    raise_if (bad_limit limit 1000) value_error
    reading (do
      rows ← gets (λ s. take limit (
          order_by (λ (a : String × TaskRoute) b. text_le a.0 b.0)
            (rows_where (λ (r : TaskRoute). true) s.task_routes)))
      lift (decode_all read_route rows))
