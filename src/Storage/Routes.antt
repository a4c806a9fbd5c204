-- ===== src/Storage/Routes.antt =====
-- The task routes of `SQLiteStore`: `save_task_route` and `get_task_route`,
-- src/macmini_ai_hub/storage/sqlite.py.
pub mod Fixed
use ai_infrastructure_as_cod.Prelude.{
  Bool, true, false, not, ◌&&◌, ◌||◌, String, Option, none, some, lookup, insert, is_none, ◌==◌,
  string_eq, if◌then◌else◌,
}
use ai_infrastructure_as_cod.Errors.{
  Error, Result, ok, err, validation_error, data_integrity, record_not_found, idempotency_conflict,
}
use ai_infrastructure_as_cod.Storage.Models.{TaskRoute}
use ai_infrastructure_as_cod.Storage.Secrets.{is_secret_shaped}
use ai_infrastructure_as_cod.Storage.Pydantic.{Pydantic}
use ai_infrastructure_as_cod.Storage.Transaction.{
  Tx, pure, raise, lift, gets, or_raise, modify, raise_if, ◌>>=◌, ◌>>◌,
}
use ai_infrastructure_as_cod.Storage.Store.{Store, transaction, reading}

abbrev pub same_route : TaskRoute → TaskRoute → Bool
same_route a b = a.source == b.source && a.target == b.target

module _ (p : Pydantic) where
  open p use {Doc, task_id_value, route_value}

  -- one field of `TaskRoute`: constrained by pydantic, then `reject_secret_values`
  clean_route_value : String → Option String
  clean_route_value raw = elim (route_value raw) [
    | none ↦ none
    | some v ↦ if is_secret_shaped v then none else some v
  ]

  -- `TaskRoute(task_id=..., source=..., target=...)`
  unfoldable pub make_route : String → String → String → Result TaskRoute
  unfolding clean_route_value
  make_route task_id source target = elim (task_id_value task_id) [
    | none ↦ err validation_error
    | some id ↦ elim (clean_route_value source) [
      | none ↦ err validation_error
      | some s ↦ elim (clean_route_value target) [
        | none ↦ err validation_error
        | some t ↦ ok (record { task_id = id; source = s; target = t })
      ]
    ]
  ]

  unfoldable pub save_task_route : String → String → String → Tx (Store Doc) TaskRoute
  unfolding transaction
  save_task_route task_id source target = do
    route ← lift (make_route task_id source target)
    transaction (do
      task ← gets (λ s. lookup route.task_id s.tasks)
      raise_if (is_none task) record_not_found
      found ← gets (λ s. lookup route.task_id s.task_routes)
      elim found [
        | some row ↦ if same_route row route then pure route else raise idempotency_conflict
        | none ↦ (do
          modify (λ s. record s { task_routes = insert route.task_id route s.task_routes })
          pure route)
      ])

  -- the stored row is validated again as it is read
  unfoldable pub get_task_route : String → Tx (Store Doc) (Option TaskRoute)
  unfolding reading
  get_task_route task_id = reading (do
    found ← gets (λ s. lookup task_id s.task_routes)
    elim found [
      | none ↦ pure none
      | some row ↦ elim (make_route task_id row.source row.target) [
        | ok route ↦ pure (some route)
        | err e ↦ raise data_integrity
      ]
    ])
