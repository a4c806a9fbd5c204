-- ===== src/Storage/Requests/Replay.antt =====
-- Each operation of the request table on its own: what it returns, and what it leaves.
use ai_infrastructure_as_cod.Prelude.{
  false, String, none, some, List, lookup, keys_where, HasKeys, lookup-delete_where,
  contains-keys_where, contains-sort_texts, sort_texts, lookup-insert_self, ◌∙◌, ◌≡◌, arith,
  is_none, Option-cases, Bool-cases, inl, inr, contains, string_eq, unselected, selected,
}
use ai_infrastructure_as_cod.Errors.{ok}
use ai_infrastructure_as_cod.Domain.Time.{Instant, aware}
use ai_infrastructure_as_cod.Domain.Json.{Fields}
use ai_infrastructure_as_cod.Storage.Pydantic.{Pydantic}
use ai_infrastructure_as_cod.Storage.Store.{Store}
use ai_infrastructure_as_cod.Storage.Requests.{
  GatewayRequestRecord, reserve_gateway_request, get_gateway_request, remember_gateway_response,
  reconcile_incomplete_gateway_requests, is_pending,
}

module _ (p : Pydantic) where
  open p use {Doc, doc_eq, dump_json, load_json, idempotency_key}

  -- In an open store, with an aware time, `reserve_gateway_request` returns whether the cleaned key
  -- was free; afterwards it is taken, so a second call returns `False` and changes nothing.
  pub reserve_once :
      (now : Instant) (raw : String) (at : Instant) (later : Instant) (key : String) (s : Store Doc)
      → s.closed ≡ false
      → idempotency_key raw ≡ some key
      → let (r, s') = reserve_gateway_request p now raw (some (aware at)) s in
        (r ≡ ok (is_none (lookup key s.gateway_requests)))
        × (reserve_gateway_request p now raw (some (aware later)) s' ≡ (ok false, s'))
  reserve_once now raw at later key s o k = elim (Option-cases (lookup key s.gateway_requests)) [
    | inr (row, l) ↦ (
      unfold reserve_gateway_request in ground arith,
      unfold reserve_gateway_request in ground arith,
    )
    | inl l ↦ (
      unfold reserve_gateway_request in ground arith,
      unfold reserve_gateway_request in
          ground (
            arith,
            lookup-insert_self key (record { response_json = none; created_at = at })
                s.gateway_requests,
          ),
    )
  ]

  -- In an open store whose table has a primary key, the recovery at a restart returns the keys of
  -- exactly the rows without a response, removes those rows, and keeps every other row.
  pub reconcile_exact :
      (s : Store Doc) (key : String)
      → s.closed ≡ false
      → HasKeys s.gateway_requests
      → let (r, s') = reconcile_incomplete_gateway_requests p s in
        ((keys : List String) × (r ≡ ok keys)
          × (contains keys key ≡ selected (is_pending p) (lookup key s.gateway_requests)))
        × (lookup key s'.gateway_requests
            ≡ unselected (is_pending p) (lookup key s.gateway_requests))
  unfolding reconcile_incomplete_gateway_requests
  reconcile_exact s key o h = (
    (
      sort_texts (keys_where (is_pending p) s.gateway_requests),
      ground arith,
      contains-sort_texts key (keys_where (is_pending p) s.gateway_requests)
          ∙ contains-keys_where (is_pending p) key h,
    ),
    ground (arith, lookup-delete_where (is_pending p) key h),
  )

  -- If `remember_gateway_response` returns for a key that is clean already and a response whose
  -- text reads back as it was, then `get_gateway_request` of the key returns the same record.
  pub remember_get :
      (key : String) (response : Fields) (s : Store Doc) (back : GatewayRequestRecord)
      → idempotency_key key ≡ some key
      → load_json (dump_json response) ≡ some response
      → (remember_gateway_response p key (some response) s).0 ≡ ok back
      → (get_gateway_request p key (remember_gateway_response p key (some response) s).1).0
        ≡ ok (some back)
  remember_get key response s back k l h = elim (Bool-cases s.closed) [
    | inl c ↦ unfold remember_gateway_response in ground arith
    | inr c ↦ elim (Option-cases (lookup key s.gateway_requests)) [
      | inl m ↦ unfold remember_gateway_response in ground arith
      | inr (row, m) ↦ elim (Option-cases row.response_json) [
        | inl r ↦
            unfold remember_gateway_response get_gateway_request in
            ground (
              arith,
              lookup-insert_self key (record row { response_json = some (dump_json response) })
                  s.gateway_requests,
            )
        | inr (d, r) ↦
            unfold remember_gateway_response get_gateway_request in
            ground (arith, doc_eq.beq_iff d (dump_json response))
      ]
    ]
  ]
