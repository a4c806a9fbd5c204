-- ===== src/Gateway/Ports.antt =====
-- The ports of src/macmini_ai_hub/gateway/ports.py: what an awaited call can do, and the operations
-- that the gateway is given.
use ai_infrastructure_as_cod.Prelude.{ℕ, Bool, String, Option, List}
use ai_infrastructure_as_cod.Gateway.Models.{
  GatewayCommand, CreateTaskCommand, CancelTaskCommand, TaskView, GatewayResponse,
}

-- `interruption` is a `BaseException` that is no `Exception`, such as a cancelled coroutine.
pub data Raise : Type 0 where
  task_not_found task_conflict dependency_unavailable exception interruption : Raise

pub data Outcome (A : Type 0) : Type 0 where
  returned : A → Outcome A
  raised : Raise → Outcome A

-- A call on a state, which it leaves changed also where it raises.
abbrev pub Call : Type 0 → Type 0 → Type 0
Call S A = S → Outcome A × S

abbrev pub pure : {S A : Type 0} → A → Call S A
pure a s = (returned a, s)

abbrev pub raise : {S A : Type 0} → Raise → Call S A
raise e s = (raised e, s)

abbrev pub and_then : {S A B : Type 0} → Outcome A → (A → Call S B) → Call S B
and_then (returned a) f s = f a s
and_then (raised e) f s = (raised e, s)

infixl 1 ◌>>=◌
abbrev pub ◌>>=◌ : {S A B : Type 0} → Call S A → (A → Call S B) → Call S B
(m >>= f) s = and_then (m s).0 f (m s).1

-- try: a ← m; except Exception: default; and then k a, outside the try
abbrev pub or_else : {S A B : Type 0} → Outcome A → Call S B → (A → Call S B) → Call S B
or_else (returned a) default k s = k a s
or_else (raised interruption) default k s = (raised interruption, s)
or_else (raised e) default k s = default s

abbrev pub attempt : {S A B : Type 0} → Call S A → Call S B → (A → Call S B) → Call S B
attempt m default k s = or_else (m s).0 default k (m s).1

-- The authorizer, the commands, the queries and the queue, on a state that they share, with the
-- factory of task ids, the test of an instruction for credentials, and pydantic's `SafeMessage`.
pub record Hub (T : Type 0) : Type 0 where
  pub is_authorized : String → GatewayCommand → Option String → Call T Bool
  pub create_task : CreateTaskCommand → Call T TaskView
  pub cancel_task : CancelTaskCommand → Call T TaskView
  pub get_task : String → Call T (Option TaskView)
  pub list_tasks : ℕ → Call T (List TaskView)
  pub enqueue_task : String → Call T TaskView
  pub new_task_id : String → String
  pub contains_sensitive_material : String → Bool
  pub safe_message : String → Option String

pub record RequestDeduplicator (D : Type 0) : Type 0 where
  pub get : String → Call D (Option GatewayResponse)
  pub reserve : String → Call D Bool
  pub remember : String → GatewayResponse → Call D (Unit {0})
  pub release : String → Call D (Unit {0})
