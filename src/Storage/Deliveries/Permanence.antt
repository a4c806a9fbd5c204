-- ===== src/Storage/Deliveries/Permanence.antt =====
-- The life of a delivery receipt: reserved, then delivered or released; a delivered one stays.
use ai_infrastructure_as_cod.Prelude.{
  String, Option, none, some, List, [], ◌∷◌, Table, lookup, insert, delete, delete_where, HasKeys,
  lookup-insert, lookup-delete, lookup-delete_where, insert-HasKeys, delete-HasKeys,
  delete_where-HasKeys, ◌≡◌, ◌⊎◌, refl, arith, eq_iff, Option-cases, Bool-cases, inl, inr,
}
use ai_infrastructure_as_cod.Errors.{Result-cases}
use ai_infrastructure_as_cod.Domain.Time.{Instant, Datetime, aware_time}
use ai_infrastructure_as_cod.Storage.Models.{DeliveryState, reserved, delivered}
use ai_infrastructure_as_cod.Storage.Pydantic.{Pydantic}
use ai_infrastructure_as_cod.Storage.Store.{DeliveryRow, Store}
use ai_infrastructure_as_cod.Storage.Deliveries.{
  row_reserved, clean_delivery_id, reserve_delivery, mark_delivery_delivered, release_delivery,
  reconcile_reserved_deliveries,
}

-- One call of an operation that writes the table.
pub data DeliveryCall : Type 0 where
  reserve : Instant → String → Option Datetime → DeliveryCall
  mark : Instant → String → Option Datetime → DeliveryCall
  release : String → DeliveryCall
  reconcile : DeliveryCall

module _ (p : Pydantic) where
  open p use {Doc, route_value}

  -- The store that a call leaves, whether it returns or raises.
  unfoldable pub after : DeliveryCall → Store Doc → Store Doc
  after (reserve now id at) s = (reserve_delivery p now id at s).1
  after (mark now id at) s = (mark_delivery_delivered p now id at s).1
  after (release id) s = (release_delivery p id s).1
  after reconcile s = (reconcile_reserved_deliveries p s).1

  -- What one call can do to the table.
  pub data DeliveryStep (m m' : Table DeliveryRow) : Type 0 where
    unchanged : m' ≡ m → DeliveryStep m m'
    booked :
        (key : String) (row : DeliveryRow)
        → lookup key m ≡ none
        → m' ≡ insert key row m
        → DeliveryStep m m'
    marked :
        (key : String) (row new : DeliveryRow)
        → lookup key m ≡ some row
        → row.state ≡ reserved
        → m' ≡ insert key new m
        → DeliveryStep m m'
    released :
        (key : String) (row : DeliveryRow)
        → lookup key m ≡ some row
        → row.state ≡ reserved
        → m' ≡ delete key m
        → DeliveryStep m m'
    swept : m' ≡ delete_where row_reserved m → DeliveryStep m m'

  State-cases : (st : DeliveryState) → (st ≡ reserved) ⊎ (st ≡ delivered)
  State-cases reserved = inl refl
  State-cases delivered = inr refl

  reserve_step :
      (now : Instant) (raw : String) (at : Option Datetime) (s : Store Doc)
      → DeliveryStep s.delivery_receipts (reserve_delivery p now raw at s).1.delivery_receipts
  reserve_step now raw at s = elim (Result-cases (aware_time now at)) [
    | inr (e, t) ↦ unchanged (unfold reserve_delivery in ground (arith, t))
    | inl (time, t) ↦ elim (Result-cases (clean_delivery_id p raw)) [
      | inr (e, k) ↦ unchanged (unfold reserve_delivery in ground (arith, t))
      | inl (key, k) ↦ elim (Option-cases (lookup key s.delivery_receipts)) [
        | inr (row, l) ↦ unchanged (unfold reserve_delivery in ground (arith, t))
        | inl l ↦ elim (Bool-cases s.closed) [
          | inl c ↦ unchanged (unfold reserve_delivery in ground (arith, t))
          | inr c ↦
              booked key (record { state = reserved; created_at = time; delivered_at = none }) l
                (unfold reserve_delivery in ground (arith, t))
        ]
      ]
    ]
  ]

  mark_step :
      (now : Instant) (raw : String) (at : Option Datetime) (s : Store Doc)
      → DeliveryStep s.delivery_receipts
          (mark_delivery_delivered p now raw at s).1.delivery_receipts
  mark_step now raw at s = elim (Result-cases (mark_delivery_delivered p now raw at s).0) [
    | inr (e, q) ↦ unchanged (unfold mark_delivery_delivered in ground arith)
    | inl (receipt, q) ↦ elim (Result-cases (aware_time now at)) [
      | inr (e, t) ↦ unchanged (unfold mark_delivery_delivered in ground (arith, t))
      | inl (time, t) ↦ elim (Result-cases (clean_delivery_id p raw)) [
        | inr (e, k) ↦ unchanged (unfold mark_delivery_delivered in ground (arith, t))
        | inl (key, k) ↦ elim (Option-cases (lookup key s.delivery_receipts)) [
          | inl l ↦ unchanged (unfold mark_delivery_delivered in ground (arith, t))
          | inr (row, l) ↦ elim (State-cases row.state) [
            | inr d ↦ unchanged (unfold mark_delivery_delivered in ground (arith, t))
            | inl d ↦
                marked key row (record row { state = delivered; delivered_at = some time }) l d
                  (unfold mark_delivery_delivered in ground (arith, t))
          ]
        ]
      ]
    ]
  ]

  release_step :
      (raw : String) (s : Store Doc)
      → DeliveryStep s.delivery_receipts (release_delivery p raw s).1.delivery_receipts
  release_step raw s = elim (Result-cases (clean_delivery_id p raw)) [
    | inr (e, k) ↦ unchanged (unfold release_delivery in ground arith)
    | inl (key, k) ↦ elim (Option-cases (lookup key s.delivery_receipts)) [
      | inl l ↦ unchanged (unfold release_delivery in ground arith)
      | inr (row, l) ↦ elim (State-cases row.state) [
        | inr d ↦ unchanged (unfold release_delivery in ground arith)
        | inl d ↦ elim (Bool-cases s.closed) [
          | inl c ↦ unchanged (unfold release_delivery in ground arith)
          | inr c ↦ released key row l d (unfold release_delivery in ground arith)
        ]
      ]
    ]
  ]

  call_step :
      (c : DeliveryCall) (s : Store Doc)
      → DeliveryStep s.delivery_receipts (after c s).delivery_receipts
  unfolding after
  call_step (reserve now raw at) s = reserve_step now raw at s
  call_step (mark now raw at) s = mark_step now raw at s
  call_step (release raw) s = release_step raw s
  call_step reconcile s = elim (Bool-cases s.closed) [
    | inl c ↦ unchanged (unfold reconcile_reserved_deliveries in ground arith)
    | inr c ↦ swept (unfold reconcile_reserved_deliveries in ground arith)
  ]

  step-HasKeys : {m m' : Table DeliveryRow} → DeliveryStep m m' → HasKeys m → HasKeys m'
  step-HasKeys (unchanged e) h = rw e h
  step-HasKeys (booked key row l e) h = rw e (insert-HasKeys key _ h)
  step-HasKeys (marked key row new l r e) h = rw e (insert-HasKeys key _ h)
  step-HasKeys (released key row l r e) h = rw e (delete-HasKeys key h)
  step-HasKeys (swept e) h = rw e (delete_where-HasKeys row_reserved h)

  abbrev pub Delivered : Table DeliveryRow → String → DeliveryRow → Type 0
  Delivered m key row = (lookup key m ≡ some row) × (row.state ≡ delivered)

  step-Delivered :
      {m m' : Table DeliveryRow} (key : String) (row : DeliveryRow)
      → DeliveryStep m m'
      → HasKeys m
      → Delivered m key row
      → Delivered m' key row
  step-Delivered key row (unchanged e) h r = rw e r
  step-Delivered {m} key row (booked k new l e) h (q, t) =
      rw e (ground (arith, lookup-insert k key new m, eq_iff k key), t)
  step-Delivered {m} key row (marked k old new l o e) h (q, t) =
      rw e (ground (arith, lookup-insert k key new m, eq_iff k key), t)
  step-Delivered {m} key row (released k old l o e) h (q, t) =
      rw e (ground (arith, lookup-delete k key m, eq_iff k key), t)
  step-Delivered {m} key row (swept e) h (q, t) =
      rw e (ground (arith, lookup-delete_where row_reserved key h), t)

  unfoldable pub after_all : List DeliveryCall → Store Doc → Store Doc
  after_all [] s = s
  after_all (c ∷ cs) s = after_all cs (after c s)

  -- From a table with a primary key, a delivered receipt outlives any sequence of calls, failing
  -- ones included, with the times that it was written with.
  pub Delivered-permanent :
      (calls : List DeliveryCall) (s : Store Doc) (key : String) (row : DeliveryRow)
      → HasKeys s.delivery_receipts
      → Delivered s.delivery_receipts key row
      → HasKeys (after_all calls s).delivery_receipts
        × Delivered (after_all calls s).delivery_receipts key row
  unfolding after_all
  Delivered-permanent [] s key row h r = (h, r)
  Delivered-permanent (c ∷ cs) s key row h r =
      Delivered-permanent cs (after c s) key row (step-HasKeys (call_step c s) h)
        (step-Delivered key row (call_step c s) h r)
