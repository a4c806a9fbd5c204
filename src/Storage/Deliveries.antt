-- ===== src/Storage/Deliveries.antt =====
-- The delivery receipts of `SQLiteStore`: `reserve_delivery`, `get_delivery_receipt`,
-- `is_delivery_delivered`, `mark_delivery_delivered`, `release_delivery` and
-- `reconcile_reserved_deliveries`, src/macmini_ai_hub/storage/sqlite.py.
pub mod Permanence
pub mod Once
use ai_infrastructure_as_cod.Prelude.{
  Bool, true, false, String, Option, none, some, List, lookup, insert, delete, keys_where,
  delete_where, sort_texts, if◌then◌else◌,
}
use ai_infrastructure_as_cod.Errors.{
  Error, Result, ok, err, validation_error, data_integrity, record_not_found,
}
use ai_infrastructure_as_cod.Domain.Time.{Instant, Datetime, aware_time}
use ai_infrastructure_as_cod.Storage.Models.{
  DeliveryState, reserved, delivered, DeliveryReceipt, validate_delivery_state,
}
use ai_infrastructure_as_cod.Storage.Secrets.{is_secret_shaped}
use ai_infrastructure_as_cod.Storage.Pydantic.{Pydantic}
use ai_infrastructure_as_cod.Storage.Transaction.{
  Tx, pure, raise, lift, gets, or_raise, modify, raise_if, ◌>>=◌, ◌>>◌,
}
use ai_infrastructure_as_cod.Storage.Store.{DeliveryRow, Store, transaction, reading}

abbrev pub is_reserved : DeliveryState → Bool
is_reserved reserved = true
is_reserved delivered = false

abbrev pub row_reserved : DeliveryRow → Bool
row_reserved row = is_reserved row.state

-- a row as a receipt, validated
unfoldable pub receipt_of : String → DeliveryRow → Result DeliveryReceipt
receipt_of key row = validate_delivery_state (record {
  delivery_id = key;
  state = row.state;
  created_at = row.created_at;
  delivered_at = row.delivered_at;
})

-- an invalid row is a `DataIntegrityError` where the code says so
unfoldable pub as_integrity : {A : Type 0} → Result A → Result A
as_integrity (ok a) = ok a
as_integrity (err e) = err data_integrity

module _ (p : Pydantic) where
  open p use {Doc, route_value}

  -- `DeliveryReceipt(delivery_id=...).delivery_id`
  unfoldable pub clean_delivery_id : String → Result String
  clean_delivery_id raw = elim (route_value raw) [
    | none ↦ err validation_error
    | some key ↦ if is_secret_shaped key then err validation_error else ok key
  ]

  abbrev pub find_delivery : String → Tx (Store Doc) (Option DeliveryRow)
  find_delivery key = gets (λ s. lookup key s.delivery_receipts)

  abbrev put_delivery : String → DeliveryRow → Tx (Store Doc) (Unit {0})
  put_delivery key row =
      modify (λ s. record s { delivery_receipts = insert key row s.delivery_receipts })

  unfoldable pub reserve_delivery : Instant → String → Option Datetime → Tx (Store Doc) Bool
  unfolding transaction aware_time
  reserve_delivery now raw at = do
    created_at ← lift (aware_time now at)
    key ← lift (clean_delivery_id raw)
    transaction (do
      found ← find_delivery key
      elim found [
        | some row ↦ pure false
        | none ↦ (do
          put_delivery key
              (record { state = reserved; created_at = created_at; delivered_at = none })
          pure true)
      ])

  unfoldable pub get_delivery_receipt : String → Tx (Store Doc) (Option DeliveryReceipt)
  unfolding reading as_integrity
  get_delivery_receipt raw = do
    key ← lift (clean_delivery_id raw)
    reading (do
      found ← find_delivery key
      elim found [
        | none ↦ pure none
        | some row ↦ (do receipt ← lift (as_integrity (receipt_of key row)); pure (some receipt))
      ])

  abbrev delivered? : Option DeliveryReceipt → Bool
  delivered? none = false
  delivered? (some r) = elim r.state [ reserved ↦ false | delivered ↦ true ]

  unfoldable pub is_delivery_delivered : String → Tx (Store Doc) Bool
  unfolding get_delivery_receipt
  is_delivery_delivered raw = do receipt ← get_delivery_receipt raw; pure (delivered? receipt)

  -- the end of `mark_delivery_delivered`, for a row that is there
  unfoldable pub deliver : String → DeliveryRow → Instant → Tx (Store Doc) DeliveryReceipt
  deliver key row at = elim row.state [
    | delivered ↦ lift (receipt_of key row)
    | reserved ↦ (do
      receipt ← lift (receipt_of key (record row { state = delivered; delivered_at = some at }))
      put_delivery key (record row { state = delivered; delivered_at = some at })
      pure receipt)
  ]

  unfoldable pub mark_delivery_delivered :
      Instant → String → Option Datetime → Tx (Store Doc) DeliveryReceipt
  unfolding transaction aware_time deliver
  mark_delivery_delivered now raw at = do
    delivered_at ← lift (aware_time now at)
    key ← lift (clean_delivery_id raw)
    transaction (do
      found ← find_delivery key
      row ← or_raise found record_not_found
      deliver key row delivered_at)

  unfoldable pub release_delivery : String → Tx (Store Doc) Bool
  unfolding transaction
  release_delivery raw = do
    key ← lift (clean_delivery_id raw)
    transaction (do
      found ← find_delivery key
      elim found [
        | none ↦ pure false
        | some row ↦ elim row.state [
          | delivered ↦ raise data_integrity
          | reserved ↦ (do
            modify (λ s. record s { delivery_receipts = delete key s.delivery_receipts })
            pure true)
        ]
      ])

  unfoldable pub reconcile_reserved_deliveries : Tx (Store Doc) (List String)
  unfolding transaction
  reconcile_reserved_deliveries = transaction (do
    keys ← gets (λ s. sort_texts (keys_where row_reserved s.delivery_receipts))
    modify (λ s. record s { delivery_receipts = delete_where row_reserved s.delivery_receipts })
    pure keys)
