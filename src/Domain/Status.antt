-- ===== src/Domain/Status.antt =====
-- The lifecycle of a task: `TaskStatus` and the table of legal transitions,
-- src/macmini_ai_hub/domain/tasks.py.
pub mod Graph
use ai_infrastructure_as_cod.Prelude.{
  Bool, true, false, String, List, [], ◌∷◌, Eq, contains, Discrete→Eq,
}

pub data TaskStatus : Type 0 where
  pending queued planning running review qa blocked completed failed cancelled : TaskStatus

unfoldable pub TaskStatus-discrete : Discrete TaskStatus
TaskStatus-discrete = hlevel

instance abbrev pub status_eq : Eq TaskStatus
status_eq = Discrete→Eq TaskStatus-discrete

abbrev pub value : TaskStatus → String
value pending = "pending"
value queued = "queued"
value planning = "planning"
value running = "running"
value review = "review"
value qa = "qa"
value blocked = "blocked"
value completed = "completed"
value failed = "failed"
value cancelled = "cancelled"

unfoldable pub is_terminal : TaskStatus → Bool
is_terminal completed = true
is_terminal failed = true
is_terminal cancelled = true
is_terminal _ = false

unfoldable pub allowed_transitions : TaskStatus → List TaskStatus
allowed_transitions pending = queued ∷ cancelled ∷ []
allowed_transitions queued = planning ∷ running ∷ failed ∷ cancelled ∷ []
allowed_transitions planning = running ∷ blocked ∷ failed ∷ cancelled ∷ []
allowed_transitions running = review ∷ qa ∷ blocked ∷ completed ∷ failed ∷ cancelled ∷ []
allowed_transitions review = running ∷ qa ∷ blocked ∷ completed ∷ failed ∷ cancelled ∷ []
allowed_transitions qa = running ∷ review ∷ blocked ∷ completed ∷ failed ∷ cancelled ∷ []
allowed_transitions blocked = queued ∷ planning ∷ running ∷ review ∷ qa ∷ failed ∷ cancelled ∷ []
allowed_transitions completed = []
allowed_transitions failed = []
allowed_transitions cancelled = []

unfoldable pub can_transition : TaskStatus → TaskStatus → Bool
unfolding allowed_transitions TaskStatus-discrete
can_transition current target = contains (allowed_transitions current) target
