-- ===== src/Orchestrator/Ports.antt =====
-- The ports of src/macmini_ai_hub/orchestrator/ports.py and runtime/base.py: what an awaited call of
-- the orchestrator can do, and the operations that it is given.
use ai_infrastructure_as_cod.Prelude.{ℕ, ℤ, String, Option, List}
use ai_infrastructure_as_cod.Errors.{Error}
use ai_infrastructure_as_cod.Domain.Time.{Instant}
use ai_infrastructure_as_cod.Domain.Status.{TaskStatus}
use ai_infrastructure_as_cod.Domain.Tasks.{Task}
use ai_infrastructure_as_cod.Domain.Events.{EventEnvelope}

-- The first two are ProjectPreparationBlocked and another ProjectPreparationError; `exception` is
-- any other Exception, and `interruption` a BaseException that is none, as a cancellation is.
pub data Failure : Type 0 where
  preparation_blocked preparation_error lookup_error exception interruption : Failure
  storage : Error → Failure

pub data Outcome (A : Type 0) : Type 0 where
  returned : A → Outcome A
  raised : Failure → Outcome A

-- A call on a state, which it leaves changed also where it raises.
abbrev pub Call : Type 0 → Type 0 → Type 0
Call S A = S → Outcome A × S

unfoldable pub pure : {S A : Type 0} → A → Call S A
pure a s = (returned a, s)

unfoldable pub raise : {S A : Type 0} → Failure → Call S A
raise e s = (raised e, s)

abbrev pub and_then : {S A B : Type 0} → Outcome A × S → (A → Call S B) → Outcome B × S
and_then (returned a, s) f = f a s
and_then (raised e, s) f = (raised e, s)

infixl 5 ◌>>=◌ ◌>>◌
unfoldable pub ◌>>=◌ : {S A B : Type 0} → Call S A → (A → Call S B) → Call S B
(m >>= f) s = and_then (m s) f

abbrev pub ◌>>◌ : {S A B : Type 0} → Call S A → Call S B → Call S B
m >> k = m >>= (λ _. k)

-- try: m except Exception: log
abbrev pub logged : {S : Type 0} → Outcome (Unit {0}) × S → Outcome (Unit {0}) × S
logged (returned a, s) = (returned a, s)
logged (raised interruption, s) = (raised interruption, s)
logged (raised e, s) = (returned tt, s)

unfoldable pub log_exceptions : {S : Type 0} → Call S (Unit {0}) → Call S (Unit {0})
log_exceptions m s = logged (m s)

abbrev pub unless_lookup : {S : Type 0} → Outcome (Unit {0}) × S → Outcome (Unit {0}) × S
unless_lookup (raised lookup_error, s) = (returned tt, s)
unless_lookup (r, s) = (r, s)

-- with suppress(LookupError): m
unfoldable pub suppress_lookup : {S : Type 0} → Call S (Unit {0}) → Call S (Unit {0})
suppress_lookup m s = unless_lookup (m s)

-- the end of a `with`: what `__aexit__` raises takes the place of the outcome
abbrev pub after_exit : {S A : Type 0} → Outcome A → Outcome (Unit {0}) × S → Outcome A × S
after_exit r (returned a, s) = (r, s)
after_exit r (raised e, s) = (raised e, s)

-- async with enter as w: body w
unfoldable pub within :
    {S A W : Type 0} → Call S W → (W → Call S (Unit {0})) → (W → Call S A) → Call S A
unfolding ◌>>=◌
within enter exit body = enter >>= λ w s. after_exit (body w s).0 (exit w (body w s).1)

pub data RunOutcome : Type 0 where
  succeeded failed timed_out cancelled interrupted : RunOutcome

pub data RuntimeStatus : Type 0 where
  succeeded failed timed_out cancelled : RuntimeStatus

pub record PreparedWorkspace : Type 0 where
  pub path : String
  pub branch : String

pub record RuntimeRequest : Type 0 where
  pub task_id : String
  pub agent : String
  pub project : String
  pub workspace : String
  pub prompt : String
  pub timeout_seconds : ℕ

pub record RuntimeResult : Type 0 where
  pub status : RuntimeStatus
  pub exit_code : Option ℤ
  pub changed_files : List String

-- The store, the projects, the runtime and the notifier, on a state that they share. `draw` gives a
-- new event its `uuid4` and its time, `correlation_of` is `uuid5`, and `validated` is pydantic's
-- construction of a request.
pub record Ports (S : Type 0) : Type 0 where
  pub get_task : String → Call S Task
  pub transition_task : String → TaskStatus → EventEnvelope → Call S Task
  pub assign_task : String → String → EventEnvelope → Call S Task
  pub cancel_task : String → EventEnvelope → Call S Task
  pub create_run : String → String → String → Call S String
  pub start_run : String → Call S (Unit {0})
  pub finish_run : String → RunOutcome → Option ℤ → Option String → Call S (Unit {0})
  pub open_workspace : String → String → String → Call S PreparedWorkspace
  pub close_workspace : PreparedWorkspace → Call S (Unit {0})
  pub execute : RuntimeRequest → Call S RuntimeResult
  pub cancel_execution : String → Call S (Unit {0})
  pub notifier : Option (Task → Call S (Unit {0}))
  pub runtime_name : String
  pub draw : Call S (String × Instant)
  pub correlation_of : String → String
  pub validated : RuntimeRequest → Option RuntimeRequest
