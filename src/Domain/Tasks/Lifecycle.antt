-- ===== src/Domain/Tasks/Lifecycle.antt =====
-- What a valid task is, and what `transition_task` does to one.
use ai_infrastructure_as_cod.Prelude.{
  ◌≤◌, true, false, Option, none, some, ◌≡◌, ◌≢◌, ◌∙◌, ap, ◌↔◌, ◌⊎◌, refl, arith, all_different,
  string_eq,
}
use ai_infrastructure_as_cod.Errors.{ok}
use ai_infrastructure_as_cod.Domain.Time.{Instant, Datetime, naive, aware}
use ai_infrastructure_as_cod.Domain.Status.{TaskStatus, is_terminal, can_transition}
use ai_infrastructure_as_cod.Domain.Tasks.{Task, validate, updated, transition_task, is_active}

-- The instant of `o` is not before `t`.
abbrev pub NotBefore : Instant → Option Instant → Type 0
NotBefore t none = Unit
NotBefore t (some u) = t.utc ≤ u.utc

abbrev pub Ordered : Option Instant → Option Instant → Type 0
Ordered none c = Unit
Ordered (some s) c = NotBefore s c

abbrev pub Present : Option Instant → Type 0
Present o = (c : Instant) × (o ≡ some c)

pub record IsValid (t : Task) : Type 0 where
  pub unique : all_different t.assigned_agents ≡ true
  pub started : NotBefore t.created_at t.started_at
  pub completed : NotBefore t.created_at t.completed_at
  pub ordered : Ordered t.started_at t.completed_at
  pub finished : is_terminal t.status ≡ true → t.completed_at ≢ none
  pub unfinished : is_terminal t.status ≡ false → t.completed_at ≡ none

pub validate-IsValid : (t : Task) → validate t ≡ ok t → IsValid t
unfolding validate
validate-IsValid t h = ground arith

pub IsValid-validate : (t : Task) → IsValid t → validate t ≡ ok t
unfolding validate
IsValid-validate t v = ground arith

pub validate-eq : (t u : Task) → validate t ≡ ok u → u ≡ t
unfolding validate
validate-eq t u h = ground arith

-- The guards of `transition_task` at an aware time.
abbrev pub IsAllowed : Task → TaskStatus → Instant → Type 0
IsAllowed t target at =
    (can_transition t.status target ≡ true)
    × (t.created_at.utc ≤ at.utc)
    × Ordered t.started_at (some at)

not_terminal : (s u : TaskStatus) → can_transition s u ≡ true → is_terminal s ≡ false
unfolding can_transition is_terminal
not_terminal s u h = ground arith

pub updated-IsValid :
    (t : Task) (target : TaskStatus) (at : Instant)
    → IsValid t
    → IsAllowed t target at
    → IsValid (updated t target at)
unfolding updated
updated-IsValid t target at v a = ground (arith, not_terminal t.status target a.0)

-- On a valid task the final validation of `transition_task` never fails: an allowed transition
-- returns the updated snapshot.
transition-ok :
    (now : Instant) (t : Task) (target : TaskStatus) (at : Instant)
    → IsValid t
    → IsAllowed t target at
    → transition_task now t target (some (aware at)) ≡ ok (updated t target at)
unfolding transition_task
transition-ok now t target at v a =
    ground (arith, IsValid-validate (updated t target at) (updated-IsValid t target at v a))

transition-ok_only :
    (now : Instant) (t : Task) (target : TaskStatus) (at : Instant) (u : Task)
    → transition_task now t target (some (aware at)) ≡ ok u
    → IsAllowed t target at × (u ≡ updated t target at)
unfolding transition_task
transition-ok_only now t target at u h = ground (arith, validate-eq (updated t target at) u)

-- At an aware time, a transition of a valid task succeeds exactly if the table allows it and the
-- time precedes neither the creation nor the start; the result is then the updated snapshot, and
-- it is valid again.
pub transition_iff :
    (now : Instant) (t : Task) (target : TaskStatus) (at : Instant) (u : Task)
    → IsValid t
    → (transition_task now t target (some (aware at)) ≡ ok u)
      ↔ (IsAllowed t target at × (u ≡ updated t target at) × IsValid u)
transition_iff now t target at u v = (
  λ h.
      let (a, e) = transition-ok_only now t target at u h in
      (a, e, rw e (updated-IsValid t target at v a)),
  λ k. rw (k.1) (transition-ok now t target at v k.0),
)

IsValid-of_validate : (t : Task) (u : Task) → validate t ≡ ok u → IsValid u
IsValid-of_validate t u h =
    rw (validate-eq t u h) (validate-IsValid t (h ∙ ap ok (validate-eq t u h)))

-- The result of any successful transition, for any form of the time argument, is a valid task.
pub transition-IsValid :
    (now : Instant) (t : Task) (target : TaskStatus) (at : Option Datetime) (u : Task)
    → transition_task now t target at ≡ ok u
    → IsValid u
transition-IsValid now t target none u h =
    IsValid-of_validate (updated t target now) u (unfold transition_task in ground arith)
transition-IsValid now t target (some (naive n)) u h = unfold transition_task in ground arith
transition-IsValid now t target (some (aware i)) u h =
    IsValid-of_validate (updated t target i) u (unfold transition_task in ground arith)

-- What a transition may never change, and how it stamps the start and the end.
pub record Keeps (t u : Task) (at : Instant) : Type 0 where
  pub identity :
      (u.task_id ≡ t.task_id)
      × (u.source ≡ t.source)
      × (u.project ≡ t.project)
      × (u.team ≡ t.team)
      × (u.request ≡ t.request)
      × (u.created_at ≡ t.created_at)
      × (u.assigned_agents ≡ t.assigned_agents)
  pub start :
      (u.started_at ≡ t.started_at)
      ⊎ ((t.started_at ≡ none) × (is_active u.status ≡ true) × (u.started_at ≡ some at))
  pub finish :
      (u.completed_at ≡ t.completed_at)
      ⊎ ((is_terminal u.status ≡ true) × (u.completed_at ≡ some at))

-- A successful transition at an aware time keeps the identity, the request and the agents of the
-- task, stamps `started_at` only where there is none and on an active status, and `completed_at`
-- only on a terminal one.
pub transition-Keeps :
    (now : Instant) (t : Task) (target : TaskStatus) (at : Instant) (u : Task)
    → transition_task now t target (some (aware at)) ≡ ok u
    → Keeps t u at
transition-Keeps now t target at u h =
    let (a, e) = transition-ok_only now t target at u h in rw e (unfold updated in ground arith)

-- A successful transition puts the task in the target status, along the table.
pub transition_moves :
    (now : Instant) (t : Task) (target : TaskStatus) (at : Instant) (u : Task)
    → transition_task now t target (some (aware at)) ≡ ok u
    → (u.status ≡ target) × (can_transition t.status target ≡ true)
transition_moves now t target at u h =
    let (a, e) = transition-ok_only now t target at u h in (rw e (unfold updated in refl), a.0)
