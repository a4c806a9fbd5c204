-- ===== src/Storage/Listing/Queued.antt =====
-- The listing that the orchestrator polls.
use ai_infrastructure_as_cod.Prelude.{
  ℕ, ◌≤◌, true, false, String, List, [], ◌∷◌, All, In, head, tail, take-In, order_by-In,
  rows_where-test, rows_where-lookup, HasKeys, rows_where, ◌≡◌, refl, arith, length, length-take-le,
  ◌∙◌, sym,
}
use ai_infrastructure_as_cod.Errors.{ok}
use ai_infrastructure_as_cod.Domain.Status.{queued, status_eq}
use ai_infrastructure_as_cod.Domain.Tasks.{Task}
use ai_infrastructure_as_cod.Storage.Pydantic.{Pydantic}
use ai_infrastructure_as_cod.Storage.Store.{TaskRow, Store}
use ai_infrastructure_as_cod.Storage.Tasks.{load_row}
use ai_infrastructure_as_cod.Storage.Sound.{Fits, IsSound}
use ai_infrastructure_as_cod.Storage.Listing.{
  decode_all, queued_rows, is_queued_row, list_queued_tasks,
}

module _ (p : Pydantic) where
  open p use {Doc}

  -- the rows as what they hold
  decode-ok :
      (s : Store Doc) (rows : List (String × TaskRow Doc))
      → ((r : String × TaskRow Doc) → In r rows → Fits p r.0 r.1 × (r.1.status ≡ queued))
      → (ts : List Task) × (decode_all (λ (r : String × TaskRow Doc). load_row p r.1) rows ≡ ok ts)
        × All (λ (t : Task). t.status ≡ queued) ts
        × (length ts ≡ length rows)
  unfolding decode_all load_row
  decode-ok s [] h = ([], refl, tt, refl)
  decode-ok s (r ∷ rs) h =
      let (ts, e, all, n) = decode-ok s rs (λ q i. h q (tail i)) in
      let (fits, q) = h r head in
      (fits.task ∷ ts, ground (arith, fits.reads, e), (sym fits.status ∙ q, all), omega (arith, n))

  is_queued_status : (row : TaskRow Doc) → is_queued_row p row ≡ true → row.status ≡ queued
  is_queued_status row h = (status_eq.beq_iff row.status queued).0 h

  -- In an open and consistent store whose table of tasks has a primary key, the listing of queued
  -- tasks with a limit between 1 and 1000 succeeds and changes nothing. It returns as many tasks as
  -- the limit at most, all of them queued.
  pub list_queued-ok :
      (limit : ℕ) (s : Store Doc)
      → s.closed ≡ false
      → HasKeys s.tasks
      → IsSound p s
      → 1 ≤ limit
      → limit ≤ 1000
      → (ts : List Task) × (list_queued_tasks p limit s ≡ (ok ts, s))
        × All (λ (t : Task). t.status ≡ queued) ts
        × (length ts ≤ limit)
  list_queued-ok limit s o k h low high =
      let (ts, e, all, n) = decode-ok s (queued_rows p limit s) fits in
      (
        ts,
        (unfold list_queued_tasks in ground (arith, o, low, high, e)),
        all,
        omega (arith, n, few),
      )
    where
      selected_row :
          (r : String × TaskRow Doc)
          → In r (queued_rows p limit s)
          → In r (rows_where (is_queued_row p) s.tasks)
      selected_row r i = unfold queued_rows in order_by-In _ r _ (take-In r limit _ i)

      fits :
          (r : String × TaskRow Doc)
          → In r (queued_rows p limit s)
          → Fits p r.0 r.1 × (r.1.status ≡ queued)
      fits r i = (
        h.rows r.0 r.1 (rows_where-lookup (is_queued_row p) r.0 r.1 k (selected_row r i)),
        is_queued_status r.1 (rows_where-test (is_queued_row p) r s.tasks (selected_row r i)),
      )

      few : length (queued_rows p limit s) ≤ limit
      few = unfold queued_rows in length-take-le limit _
