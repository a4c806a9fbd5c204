-- ===== src/Storage/Routes/Fixed.antt =====
-- A task's route is fixed by the first save.
use ai_infrastructure_as_cod.Prelude.{
  String, some, lookup, lookup-insert, ◌≡◌, arith, eq_iff, Option-cases, inl, inr,
}
use ai_infrastructure_as_cod.Errors.{ok, Result-cases}
use ai_infrastructure_as_cod.Storage.Models.{TaskRoute}
use ai_infrastructure_as_cod.Storage.Pydantic.{Pydantic}
use ai_infrastructure_as_cod.Storage.Store.{Store}
use ai_infrastructure_as_cod.Storage.Routes.{make_route, save_task_route}

module _ (p : Pydantic) where
  open p use {Doc, route_value}

  -- A stored route survives any call of `save_task_route`, whatever its arguments and its outcome.
  pub route_fixed :
      (task_id source target : String) (s : Store Doc) (key : String) (row : TaskRoute)
      → lookup key s.task_routes ≡ some row
      → lookup key (save_task_route p task_id source target s).1.task_routes ≡ some row
  route_fixed task_id source target s key row h =
      elim (Result-cases (make_route p task_id source target)) [
        | inr (e, m) ↦ unfold save_task_route in ground arith
        | inl (route, m) ↦
            unfold save_task_route in
            ground
              (arith, lookup-insert route.task_id key route s.task_routes, eq_iff route.task_id key)
      ]

  -- A save that returned can be repeated: it returns the same route and changes nothing.
  pub save_again :
      (task_id source target : String) (s : Store Doc) (route : TaskRoute)
      → (save_task_route p task_id source target s).0 ≡ ok route
      → save_task_route p task_id source target (save_task_route p task_id source target s).1
        ≡ (ok route, (save_task_route p task_id source target s).1)
  save_again task_id source target s route h =
      elim (Result-cases (make_route p task_id source target)) [
        | inr (e, m) ↦ unfold save_task_route in ground arith
        | inl (r, m) ↦ elim (Option-cases (lookup r.task_id s.task_routes)) [
          | inr (row, l) ↦ unfold save_task_route in ground arith
          | inl l ↦
              unfold save_task_route in
              ground (
                arith,
                lookup-insert r.task_id r.task_id r s.task_routes,
                eq_iff r.task_id r.task_id,
                eq_iff r.source r.source,
                eq_iff r.target r.target,
              )
        ]
      ]
