-- ===== src/Storage/Requests.antt =====
-- The gateway request table of `SQLiteStore`: `reserve_gateway_request`, `get_gateway_request`,
-- `remember_gateway_response`, `release_gateway_request` and
-- `reconcile_incomplete_gateway_requests`, src/macmini_ai_hub/storage/sqlite.py.
pub mod Permanence
pub mod Replay
use ai_infrastructure_as_cod.Prelude.{
  Bool, true, false, not, ◌&&◌, String, Option, none, some, List, Table, lookup, insert, delete,
  keys_where, delete_where, sort_texts, is_some, is_none, if◌then◌else◌, Eq,
}
use ai_infrastructure_as_cod.Errors.{
  Error, Result, ok, err, value_error, validation_error, data_integrity, record_not_found,
  idempotency_conflict,
}
use ai_infrastructure_as_cod.Domain.Time.{Instant, Datetime, aware_time}
use ai_infrastructure_as_cod.Domain.Json.{Fields}
use ai_infrastructure_as_cod.Storage.Secrets.{reject_secret_response_fields}
use ai_infrastructure_as_cod.Storage.Pydantic.{Pydantic}
use ai_infrastructure_as_cod.Storage.Transaction.{
  Tx, pure, raise, lift, gets, or_raise, modify, raise_if, ◌>>=◌, ◌>>◌,
}
use ai_infrastructure_as_cod.Storage.Store.{RequestRow, Store, transaction, reading}

pub record GatewayRequestRecord : Type 0 where
  pub idempotency_key : String
  pub response : Option Fields
  pub created_at : Instant

module _ (p : Pydantic) where
  open p use {Doc, doc_eq, dump_json, load_json, idempotency_key}

  abbrev pub is_pending : RequestRow Doc → Bool
  is_pending row = is_none row.response_json

  -- `GatewayRequestRecord(idempotency_key=key).idempotency_key`
  abbrev pub clean_key : String → Tx (Store Doc) String
  clean_key key = or_raise (idempotency_key key) validation_error

  abbrev pub find_request : String → Tx (Store Doc) (Option (RequestRow Doc))
  find_request key = gets (λ s. lookup key s.gateway_requests)

  unfoldable pub put_request : String → RequestRow Doc → Tx (Store Doc) (Unit {0})
  put_request key row s = (ok tt, record s { gateway_requests = insert key row s.gateway_requests })

  unfoldable pub reserve_gateway_request : Instant → String → Option Datetime → Tx (Store Doc) Bool
  unfolding transaction put_request aware_time
  reserve_gateway_request now raw at = do
    created_at ← lift (aware_time now at)
    key ← clean_key raw
    transaction (do
      found ← find_request key
      elim found [
        | some row ↦ pure false
        | none ↦ (do
          put_request key (record { response_json = none; created_at = created_at })
          pure true)
      ])

  -- the response of a row, validated again as it is read
  unfoldable pub read_response : Option Doc → Result (Option Fields)
  read_response none = ok none
  read_response (some d) = elim (load_json d) [
    | none ↦ err data_integrity
    | some response ↦ elim (reject_secret_response_fields (some response)) [
      | ok _ ↦ ok (some response)
      | err _ ↦ err data_integrity
    ]
  ]

  unfoldable pub get_gateway_request : String → Tx (Store Doc) (Option GatewayRequestRecord)
  unfolding reading read_response
  get_gateway_request raw = do
    key ← clean_key raw
    reading (do
      found ← find_request key
      elim found [
        | none ↦ pure none
        | some row ↦ (do
          response ← lift (read_response row.response_json)
          pure (
              some (record {
                idempotency_key = key;
                response = response;
                created_at = row.created_at;
              })))
      ])

  -- the first response is stored, the same one again is accepted, another is a conflict
  unfoldable pub settle : String → RequestRow Doc → Doc → Tx (Store Doc) (Unit {0})
  unfolding put_request
  settle key row response_json = elim row.response_json [
    | none ↦ put_request key (record row { response_json = some response_json })
    | some existing ↦ raise_if (not (doc_eq.beq existing response_json)) idempotency_conflict
  ]

  -- The key is validated, but the statements take it as it was given.
  unfoldable pub remember_gateway_response :
      String → Option Fields → Tx (Store Doc) GatewayRequestRecord
  unfolding transaction settle
  remember_gateway_response raw response = do
    clean_key raw
    lift (reject_secret_response_fields response)
    validated ← or_raise response value_error
    transaction (do
      found ← find_request raw
      row ← or_raise found record_not_found
      settle raw row (dump_json validated)
      key ← clean_key raw
      pure (record {
        idempotency_key = key;
        response = some validated;
        created_at = row.created_at;
      }))

  unfoldable pub release_gateway_request : String → Tx (Store Doc) Bool
  unfolding transaction
  release_gateway_request raw = do
    key ← clean_key raw
    transaction (do
      found ← find_request key
      elim found [
        | none ↦ pure false
        | some row ↦ (do
          raise_if (is_some row.response_json) data_integrity
          modify (λ s. record s { gateway_requests = delete key s.gateway_requests })
          pure true)
      ])

  unfoldable pub reconcile_incomplete_gateway_requests : Tx (Store Doc) (List String)
  unfolding transaction
  reconcile_incomplete_gateway_requests = transaction (do
    keys ← gets (λ s. sort_texts (keys_where is_pending s.gateway_requests))
    modify (λ s. record s { gateway_requests = delete_where is_pending s.gateway_requests })
    pure keys)
