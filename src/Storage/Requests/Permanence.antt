-- ===== src/Storage/Requests/Permanence.antt =====
-- The request table as the gateway relies on it: one reservation for a key, and a response that
-- stays once it is stored.
use ai_infrastructure_as_cod.Prelude.{
  String, Option, none, some, List, Table, lookup, insert, delete, delete_where, HasKeys,
  lookup-insert, lookup-delete, lookup-delete_where, [], ◌∷◌, insert-HasKeys, delete-HasKeys,
  delete_where-HasKeys, ◌≡◌, arith, eq_iff, Option-cases, Bool-cases, inl, inr, string_eq,
}
use ai_infrastructure_as_cod.Errors.{Result-cases}
use ai_infrastructure_as_cod.Domain.Time.{Instant, Datetime, aware_time}
use ai_infrastructure_as_cod.Domain.Json.{Fields}
use ai_infrastructure_as_cod.Storage.Pydantic.{Pydantic}
use ai_infrastructure_as_cod.Storage.Store.{RequestRow, Store}
use ai_infrastructure_as_cod.Storage.Requests.{
  reserve_gateway_request, remember_gateway_response, release_gateway_request,
  reconcile_incomplete_gateway_requests, is_pending,
}

-- One call of an operation that writes the table.
pub data RequestCall : Type 0 where
  reserve : Instant → String → Option Datetime → RequestCall
  remember : String → Option Fields → RequestCall
  release : String → RequestCall
  reconcile : RequestCall

module _ (p : Pydantic) where
  open p use {Doc, doc_eq, dump_json, load_json, idempotency_key}

  -- The store that a call leaves, whether it returns or raises.
  abbrev pub after : RequestCall → Store Doc → Store Doc
  after (reserve now key at) s = (reserve_gateway_request p now key at s).1
  after (remember key response) s = (remember_gateway_response p key response s).1
  after (release key) s = (release_gateway_request p key s).1
  after reconcile s = (reconcile_incomplete_gateway_requests p s).1

  -- What one call can do to the table: a reservation is added under a free key, a pending row is
  -- filled or removed, or all pending rows are removed.
  pub data RequestStep (m m' : Table (RequestRow Doc)) : Type 0 where
    unchanged : m' ≡ m → RequestStep m m'
    reserved :
        (key : String) (at : Instant)
        → lookup key m ≡ none
        → m' ≡ insert key (record { response_json = none; created_at = at }) m
        → RequestStep m m'
    filled :
        (key : String) (row : RequestRow Doc) (d : Doc)
        → lookup key m ≡ some row
        → row.response_json ≡ none
        → m' ≡ insert key (record row { response_json = some d }) m
        → RequestStep m m'
    released :
        (key : String) (row : RequestRow Doc)
        → lookup key m ≡ some row
        → row.response_json ≡ none
        → m' ≡ delete key m
        → RequestStep m m'
    swept : m' ≡ delete_where (is_pending p) m → RequestStep m m'

  reserve_step :
      (now : Instant) (raw : String) (at : Option Datetime) (s : Store Doc)
      → RequestStep s.gateway_requests (after (reserve now raw at) s).gateway_requests
  reserve_step now raw at s = elim (Result-cases (aware_time now at)) [
    | inr (e, t) ↦ unchanged (unfold reserve_gateway_request in ground (arith, t))
    | inl (time, t) ↦ elim (Option-cases (idempotency_key raw)) [
      | inl k ↦ unchanged (unfold reserve_gateway_request in ground (arith, t))
      | inr (key, k) ↦ elim (Option-cases (lookup key s.gateway_requests)) [
        | inr (row, l) ↦ unchanged (unfold reserve_gateway_request in ground (arith, t))
        | inl l ↦ elim (Bool-cases s.closed) [
          | inl c ↦ unchanged (unfold reserve_gateway_request in ground (arith, t))
          | inr c ↦ reserved key time l (unfold reserve_gateway_request in ground (arith, t))
        ]
      ]
    ]
  ]

  remember_step :
      (raw : String) (response : Option Fields) (s : Store Doc)
      → RequestStep s.gateway_requests (after (remember raw response) s).gateway_requests
  remember_step raw none s = unchanged (unfold remember_gateway_response in ground arith)
  remember_step raw (some fields) s =
      elim (Result-cases (remember_gateway_response p raw (some fields) s).0) [
        | inr (e, q) ↦ unchanged (unfold remember_gateway_response in ground arith)
        | inl (record_back, q) ↦ elim (Option-cases (lookup raw s.gateway_requests)) [
          | inl l ↦ unchanged (unfold remember_gateway_response in ground arith)
          | inr (row, l) ↦ elim (Option-cases row.response_json) [
            | inr (d, r) ↦ unchanged (unfold remember_gateway_response in ground arith)
            | inl r ↦
                filled raw row (dump_json fields) l r
                  (unfold remember_gateway_response in ground arith)
          ]
        ]
      ]

  release_step :
      (raw : String) (s : Store Doc)
      → RequestStep s.gateway_requests (after (release raw) s).gateway_requests
  release_step raw s = elim (Option-cases (idempotency_key raw)) [
    | inl k ↦ unchanged (unfold release_gateway_request in ground arith)
    | inr (key, k) ↦ elim (Option-cases (lookup key s.gateway_requests)) [
      | inl l ↦ unchanged (unfold release_gateway_request in ground arith)
      | inr (row, l) ↦ elim (Option-cases row.response_json) [
        | inr (d, r) ↦ unchanged (unfold release_gateway_request in ground arith)
        | inl r ↦ elim (Bool-cases s.closed) [
          | inl c ↦ unchanged (unfold release_gateway_request in ground arith)
          | inr c ↦ released key row l r (unfold release_gateway_request in ground arith)
        ]
      ]
    ]
  ]

  reconcile_step :
      (s : Store Doc) → RequestStep s.gateway_requests (after reconcile s).gateway_requests
  reconcile_step s = elim (Bool-cases s.closed) [
    | inl c ↦ unchanged (unfold reconcile_incomplete_gateway_requests in ground arith)
    | inr c ↦ swept (unfold reconcile_incomplete_gateway_requests in ground arith)
  ]

  pub call_step :
      (c : RequestCall) (s : Store Doc)
      → RequestStep s.gateway_requests (after c s).gateway_requests
  call_step (reserve now raw at) s = reserve_step now raw at s
  call_step (remember raw response) s = remember_step raw response s
  call_step (release raw) s = release_step raw s
  call_step reconcile s = reconcile_step s

  step-HasKeys : {m m' : Table (RequestRow Doc)} → RequestStep m m' → HasKeys m → HasKeys m'
  step-HasKeys (unchanged e) h = rw e h
  step-HasKeys (reserved key at l e) h = rw e (insert-HasKeys key _ h)
  step-HasKeys (filled key row d l r e) h = rw e (insert-HasKeys key _ h)
  step-HasKeys (released key row l r e) h = rw e (delete-HasKeys key h)
  step-HasKeys (swept e) h = rw e (delete_where-HasKeys (is_pending p) h)

  -- a row under this key holds this response
  abbrev pub Responded : Table (RequestRow Doc) → String → Doc → Type 0
  Responded m key d =
      (row : RequestRow Doc) × (lookup key m ≡ some row) × (row.response_json ≡ some d)

  step-Responded :
      {m m' : Table (RequestRow Doc)} (key : String) (d : Doc)
      → RequestStep m m'
      → HasKeys m
      → Responded m key d
      → Responded m' key d
  step-Responded key d (unchanged e) h r = rw e r
  step-Responded {m} key d (reserved k at l e) h (row, q, t) = rw e (
    row,
    ground (
      arith,
      lookup-insert k key (record { response_json = none; created_at = at }) m,
      eq_iff k key,
    ),
    t,
  )
  step-Responded {m} key d (filled k other x l o e) h (row, q, t) = rw e (
    row,
    ground (arith, lookup-insert k key (record other { response_json = some x }) m, eq_iff k key),
    t,
  )
  step-Responded {m} key d (released k other l o e) h (row, q, t) =
      rw e (row, ground (arith, lookup-delete k key m, eq_iff k key), t)
  step-Responded {m} key d (swept e) h (row, q, t) =
      rw e (row, ground (arith, lookup-delete_where (is_pending p) key h), t)

  unfoldable pub after_all : List RequestCall → Store Doc → Store Doc
  after_all [] s = s
  after_all (c ∷ cs) s = after_all cs (after c s)

  -- From a table with a primary key, a stored response outlives any sequence of calls, failing ones
  -- included: no reservation, second response, release or restart recovery removes or changes it.
  pub response_permanent :
      (calls : List RequestCall) (s : Store Doc) (key : String) (d : Doc)
      → HasKeys s.gateway_requests
      → Responded s.gateway_requests key d
      → HasKeys (after_all calls s).gateway_requests
        × Responded (after_all calls s).gateway_requests key d
  unfolding after_all
  response_permanent [] s key d h r = (h, r)
  response_permanent (c ∷ cs) s key d h r =
      response_permanent cs (after c s) key d (step-HasKeys (call_step c s) h)
        (step-Responded key d (call_step c s) h r)
