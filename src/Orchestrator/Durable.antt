-- ===== src/Orchestrator/Durable.antt =====
-- The orchestrator's ports with the durable store behind them: a fresh event moves a task to the
-- status that it announces.
use ai_infrastructure_as_cod.Prelude.{String, none, lookup, ◌≡◌, inl, inr, arith, Option-cases}
use ai_infrastructure_as_cod.Errors.{ok, Result-cases}
use ai_infrastructure_as_cod.Domain.Status.{TaskStatus}
use ai_infrastructure_as_cod.Domain.Tasks.{Task}
use ai_infrastructure_as_cod.Domain.Tasks.Lifecycle.{transition_moves}
use ai_infrastructure_as_cod.Domain.Events.{EventEnvelope}
use ai_infrastructure_as_cod.Storage.Pydantic.{Pydantic}
use ai_infrastructure_as_cod.Storage.Transaction.{Tx}
use ai_infrastructure_as_cod.Storage.Store.{Store}
use ai_infrastructure_as_cod.Storage.Tasks
use ai_infrastructure_as_cod.Storage.Tasks.Transition.{transition_fresh}
use ai_infrastructure_as_cod.Storage.Adapters.{Machine, in_thread, sqlite_ports}
use ai_infrastructure_as_cod.Storage.Adapters
use ai_infrastructure_as_cod.Orchestrator.Ports.{returned, Ports}
use ai_infrastructure_as_cod.Orchestrator.Calls.{Leaves}
use ai_infrastructure_as_cod.Orchestrator.Service.Outcomes.{Moves}

module _ (p : Pydantic) where
  open p use {Doc, load_task}

  carried-ok :
      {A T : Type 0} (m : Tx (Store Doc) A) (w : Store Doc × T) (a : A)
      → (in_thread m w).0 ≡ returned a
      → (m w.0).0 ≡ ok a
  unfolding in_thread
  carried-ok m w a h = elim (Result-cases (m w.0).0) [
    | inl (b, e) ↦ ground (arith, e, h)
    | inr (x, e) ↦ ground (arith, e, h)
  ]

  fresh_moves :
      (id : String) (target : TaskStatus) (event : EventEnvelope) (s : Store Doc) (u : Task)
      → lookup event.event_id s.events ≡ none
      → (Tasks.transition_task p id target event s).0 ≡ ok u
      → u.status ≡ target
  fresh_moves id target event s u f h = elim (Option-cases (lookup id s.tasks)) [
    | inl e ↦ absurd (unfold Tasks.transition_task in ground (arith, e, h))
    | inr (row, e) ↦ elim (Option-cases (load_task row.task_json)) [
      | inl l ↦ absurd (unfold Tasks.transition_task in ground (arith, e, l, h))
      | inr (t, l) ↦
          let (a, d, w) = transition_fresh p id target event s row t u (e, l) f h in
          (transition_moves event.timestamp t target event.timestamp u d).0
    ]
  ]

  module _ {T : Type 0} (m : Machine T) where
    -- no event of the log has this id
    abbrev pub IsNew : String → Store Doc × T → Type 0
    IsNew id w = lookup id w.0.events ≡ none

    -- The store behind its adapter moves tasks as the orchestrator expects it, where `uuid4` gives
    -- each new event an id that the log does not have.
    pub sqlite-Moves :
        (others : Ports (Store Doc × T))
        → Leaves others.draw (λ x w. IsNew x.0 w)
        → Moves (sqlite_ports p m others) IsNew
    sqlite-Moves others drawn = record {
      drawn = drawn;
      transition = λ id t e w r f h.
          fresh_moves id t e w.0 r f (
            carried-ok (Tasks.transition_task p id t e) w r (unfold Adapters.transition_task in h));
      cancel = λ id e w r f h. fresh_moves id TaskStatus.cancelled e w.0 r f (
          unfold Tasks.cancel_task in
          carried-ok (Tasks.cancel_task p id e) w r (unfold Adapters.cancel_task in h));
    }
