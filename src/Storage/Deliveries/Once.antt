-- ===== src/Storage/Deliveries/Once.antt =====
-- A delivery from its reservation to its receipt, and what later calls do.
use ai_infrastructure_as_cod.Prelude.{
  true, false, String, none, some, lookup, insert, lookup-insert_self, ◌≡◌, ◌≤◌, arith,
}
use ai_infrastructure_as_cod.Errors.{ok, err, data_integrity}
use ai_infrastructure_as_cod.Domain.Time.{Instant, aware}
use ai_infrastructure_as_cod.Storage.Models.{
  reserved, delivered, DeliveryReceipt, validate_delivery_state,
}
use ai_infrastructure_as_cod.Storage.Pydantic.{Pydantic}
use ai_infrastructure_as_cod.Storage.Store.{DeliveryRow, Store}
use ai_infrastructure_as_cod.Storage.Deliveries.{
  receipt_of, clean_delivery_id, reserve_delivery, mark_delivery_delivered, release_delivery,
  is_delivery_delivered,
}

module _ (p : Pydantic) where
  open p use {Doc, route_value}

  abbrev held_row : Instant → DeliveryRow
  held_row begin = record { state = reserved; created_at = begin; delivered_at = none }

  abbrev sent_row : Instant → Instant → DeliveryRow
  sent_row begin end = record { state = delivered; created_at = begin; delivered_at = some end }

  abbrev sent_receipt : String → Instant → Instant → DeliveryReceipt
  sent_receipt key begin end = record {
    delivery_id = key;
    state = delivered;
    created_at = begin;
    delivered_at = some end;
  }

  abbrev with_row : Store Doc → String → DeliveryRow → Store Doc
  with_row s key row = record s { delivery_receipts = insert key row s.delivery_receipts }

  stored :
      (s : Store Doc) (key : String) (row : DeliveryRow)
      → lookup key (with_row s key row).delivery_receipts ≡ some row
  stored s key row = lookup-insert_self key row s.delivery_receipts

  reserve_free :
      (now : Instant) (raw key : String) (begin : Instant) (s : Store Doc)
      → s.closed ≡ false
      → clean_delivery_id p raw ≡ ok key
      → lookup key s.delivery_receipts ≡ none
      → reserve_delivery p now raw (some (aware begin)) s
        ≡ (ok true, with_row s key (held_row begin))
  unfolding reserve_delivery
  reserve_free now raw key begin s o k l = ground arith

  mark_held :
      (now : Instant) (raw key : String) (begin end : Instant) (s : Store Doc)
      → s.closed ≡ false
      → clean_delivery_id p raw ≡ ok key
      → lookup key s.delivery_receipts ≡ some (held_row begin)
      → begin.utc ≤ end.utc
      → mark_delivery_delivered p now raw (some (aware end)) s
        ≡ (ok (sent_receipt key begin end), with_row s key (sent_row begin end))
  unfolding mark_delivery_delivered receipt_of validate_delivery_state
  mark_held now raw key begin end s o k l le = ground arith

  not_yet :
      (raw key : String) (begin : Instant) (s : Store Doc)
      → s.closed ≡ false
      → clean_delivery_id p raw ≡ ok key
      → lookup key s.delivery_receipts ≡ some (held_row begin)
      → (is_delivery_delivered p raw s).0 ≡ ok false
  unfolding is_delivery_delivered receipt_of validate_delivery_state
  not_yet raw key begin s o k l = ground arith

  reads_delivered :
      (raw key : String) (begin end : Instant) (s : Store Doc)
      → s.closed ≡ false
      → clean_delivery_id p raw ≡ ok key
      → lookup key s.delivery_receipts ≡ some (sent_row begin end)
      → begin.utc ≤ end.utc
      → (is_delivery_delivered p raw s).0 ≡ ok true
  unfolding is_delivery_delivered receipt_of validate_delivery_state
  reads_delivered raw key begin end s o k l le = ground arith

  mark_again :
      (now : Instant) (raw key : String) (begin end later : Instant) (s : Store Doc)
      → s.closed ≡ false
      → clean_delivery_id p raw ≡ ok key
      → lookup key s.delivery_receipts ≡ some (sent_row begin end)
      → begin.utc ≤ end.utc
      → mark_delivery_delivered p now raw (some (aware later)) s
        ≡ (ok (sent_receipt key begin end), s)
  unfolding mark_delivery_delivered receipt_of validate_delivery_state
  mark_again now raw key begin end later s o k l le = ground arith

  release_sent :
      (raw key : String) (begin end : Instant) (s : Store Doc)
      → s.closed ≡ false
      → clean_delivery_id p raw ≡ ok key
      → lookup key s.delivery_receipts ≡ some (sent_row begin end)
      → release_delivery p raw s ≡ (err data_integrity, s)
  unfolding release_delivery
  release_sent raw key begin end s o k l = ground arith

  -- In an open store, a free and clean id is reserved and then marked as delivered, at aware times
  -- in order: it reads as undelivered before the mark and as delivered after it; a second mark, at
  -- any aware time, returns the receipt of the first and changes nothing, and a release is
  -- refused.
  pub deliver_once :
      (now : Instant) (raw key : String) (begin end later : Instant) (s : Store Doc)
      → s.closed ≡ false
      → clean_delivery_id p raw ≡ ok key
      → lookup key s.delivery_receipts ≡ none
      → begin.utc ≤ end.utc
      → let held = (reserve_delivery p now raw (some (aware begin)) s).1 in
        let (r, sent) = mark_delivery_delivered p now raw (some (aware end)) held in
        ((is_delivery_delivered p raw held).0 ≡ ok false)
        × ((is_delivery_delivered p raw sent).0 ≡ ok true)
        × (mark_delivery_delivered p now raw (some (aware later)) sent ≡ (r, sent))
        × (release_delivery p raw sent ≡ (err data_integrity, sent))
  deliver_once now raw key begin end later s o k l le =
      let held = with_row s key (held_row begin) in
      let sent = with_row held key (sent_row begin end) in
      let kept = stored held key (sent_row begin end) in
      rw (reserve_free now raw key begin s o k l) (
        rw (mark_held now raw key begin end held o k (stored s key (held_row begin)) le) (
          not_yet raw key begin held o k (stored s key (held_row begin)),
          reads_delivered raw key begin end sent o k kept le,
          mark_again now raw key begin end later sent o k kept le,
          release_sent raw key begin end sent o k kept,
        ))
