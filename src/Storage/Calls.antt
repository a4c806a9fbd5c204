-- ===== src/Storage/Calls.antt =====
-- Sequences of calls of the task and event operations, valid or not.
use ai_infrastructure_as_cod.Prelude.{
  String, Option, some, List, [], ◌∷◌, All, lookup, lookup-nil, ◌≡◌, arith, string_eq, option_eq,
}
use ai_infrastructure_as_cod.Errors.{Error, Result, ok, err}
use ai_infrastructure_as_cod.Domain.Status.{TaskStatus}
use ai_infrastructure_as_cod.Domain.Tasks.{Task, validate}
use ai_infrastructure_as_cod.Domain.Events.{EventEnvelope}
use ai_infrastructure_as_cod.Storage.Models.{TaskRoute}
use ai_infrastructure_as_cod.Storage.Pydantic.{Pydantic}
use ai_infrastructure_as_cod.Storage.Store.{Store, empty_store}
use ai_infrastructure_as_cod.Storage.Tasks.{
  create_task, create_queued_task, transition_task, cancel_task, assign_task, append_event,
}
use ai_infrastructure_as_cod.Storage.Tasks.Transition.{transition-err}
use ai_infrastructure_as_cod.Storage.Tasks.Assignment.{assign-err}
use ai_infrastructure_as_cod.Storage.Sound.{IsSound}
use ai_infrastructure_as_cod.Storage.Sound.Tasks.{transition-IsSound, assign-IsSound}
use ai_infrastructure_as_cod.Storage.Sound.Creation.{
  create-IsSound, create_queued-IsSound, append_event-IsSound,
}

pub data TaskCall : Type 0 where
  create : Task → EventEnvelope → TaskCall
  create_queued : Task → EventEnvelope → EventEnvelope → Option TaskRoute → TaskCall
  transition : String → TaskStatus → EventEnvelope → TaskCall
  assign : String → String → EventEnvelope → TaskCall
  cancel : String → EventEnvelope → TaskCall
  append : EventEnvelope → TaskCall

-- A task that the code has built has passed the validators of its class.
abbrev pub HasValidTask : TaskCall → Type 0
HasValidTask (create t e) = validate t ≡ ok t
HasValidTask (create_queued t e f r) = validate t ≡ ok t
HasValidTask _ = Unit

module _ (p : Pydantic) where
  open p use {Doc, doc_eq, dump_event, dump_task, load_task, load-dump_task}

  abbrev pub did : {A : Type 0} → Result A → Result (Unit {0})
  did (ok a) = ok tt
  did (err e) = err e

  -- How a call ended, and the store that it left.
  unfoldable pub perform : TaskCall → Store Doc → Result (Unit {0}) × Store Doc
  perform (create t e) s = let (r, s') = create_task p t e s in (did r, s')
  perform (create_queued t e f route) s =
      let (r, s') = create_queued_task p t e f route s in (did r, s')
  perform (transition k target e) s = let (r, s') = transition_task p k target e s in (did r, s')
  perform (assign k agent e) s = let (r, s') = assign_task p k agent e s in (did r, s')
  perform (cancel k e) s = let (r, s') = cancel_task p k e s in (did r, s')
  perform (append e) s = let (r, s') = append_event p e s in (did r, s')

  did-err : {A : Type 0} (r : Result A) (e : Error) → did r ≡ err e → r ≡ err e
  did-err (ok a) e h = cc
  did-err (err x) e h = cc

  -- A call that raises leaves the store exactly as it was, also where it raises after it has
  -- written: no task without its event, no event without its task, no half of a creation.
  pub perform_atomic :
      (c : TaskCall) (s : Store Doc) (e : Error) → (perform c s).0 ≡ err e → (perform c s).1 ≡ s
  unfolding perform
  perform_atomic (create t event) s e h = unfold create_task in ground arith
  perform_atomic (create_queued t event f route) s e h = unfold create_queued_task in ground arith
  perform_atomic (transition k target event) s e h =
      transition-err p k target event s e (did-err (transition_task p k target event s).0 e h)
  perform_atomic (assign k agent event) s e h =
      assign-err p k agent event s e (did-err (assign_task p k agent event s).0 e h)
  perform_atomic (cancel k event) s e h = unfold cancel_task in ground arith
  perform_atomic (append event) s e h = unfold append_event in ground arith

  unfoldable pub perform_all : List TaskCall → Store Doc → Store Doc
  perform_all [] s = s
  perform_all (c ∷ cs) s = perform_all cs (perform c s).1

  perform-IsSound :
      (c : TaskCall) (s : Store Doc) → HasValidTask c → IsSound p s → IsSound p (perform c s).1
  unfolding perform
  perform-IsSound (create t e) s v h = create-IsSound p t e v s h
  perform-IsSound (create_queued t e f route) s v h = create_queued-IsSound p t e f route v s h
  perform-IsSound (transition k target e) s v h = transition-IsSound p k target e s h
  perform-IsSound (assign k agent e) s v h = assign-IsSound p k agent e s h
  perform-IsSound (cancel k e) s v h =
      unfold cancel_task in transition-IsSound p k TaskStatus.cancelled e s h
  perform-IsSound (append e) s v h = append_event-IsSound p e s h

  -- From consistent tables of tasks and events, any sequence of calls, failing ones included, leaves
  -- these two tables consistent, provided that the tasks that it creates have passed their
  -- validators.
  pub perform_all-IsSound :
      (cs : List TaskCall) (s : Store Doc)
      → All HasValidTask cs
      → IsSound p s
      → IsSound p (perform_all cs s)
  unfolding perform_all
  perform_all-IsSound [] s v h = h
  perform_all-IsSound (c ∷ cs) s v h =
      perform_all-IsSound cs (perform c s).1 v.1 (perform-IsSound c s v.0 h)

  pub empty-IsSound : IsSound p empty_store
  empty-IsSound = record {
    rows = λ k row q. absurd (nothing k q);
    counted = λ k e q. absurd (nothing k q);
    distinct = λ j k d e q r same. absurd (nothing j q);
    linked = λ k t e q l m. nothing k q;
  }
    where
      nothing : {V : Type 0} (k : String) {v : V} → lookup k [] ≡ some v → ⊥
      nothing {V} k q = cc (q, lookup-nil {V = V} k)
