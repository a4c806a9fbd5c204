-- ===== src/Domain/Status/Graph.antt =====
-- The transition table as a graph: where a task can go from each status.
use ai_infrastructure_as_cod.Prelude.{
  true, false, ◌≡◌, ◌⊎◌, inl, inr, refl, ap, arith, Bool-cases, ◌↔◌,
}
use ai_infrastructure_as_cod.Domain.Status.{
  TaskStatus, pending, queued, planning, running, review, qa, blocked, completed, failed, cancelled,
  is_terminal, can_transition,
}

-- One legal transition after another.
pub data Reaches : TaskStatus → TaskStatus → Type 0 where
  here : {s : TaskStatus} → Reaches s s
  next : {s u : TaskStatus} (t : TaskStatus) → can_transition s t ≡ true → Reaches t u → Reaches s u

pub terminal_stuck : (s t : TaskStatus) → is_terminal s ≡ true → can_transition s t ≡ false
unfolding is_terminal can_transition
terminal_stuck s t h = ground arith

-- Every status but the three terminal ones can be cancelled at once.
pub cancellable : (s : TaskStatus) → is_terminal s ≡ false → can_transition s cancelled ≡ true
unfolding is_terminal can_transition
cancellable s h = ground arith

-- No transition keeps the status, and none returns to `pending`.
pub no_self_loop : (s : TaskStatus) → can_transition s s ≡ false
unfolding can_transition
no_self_loop s = ground arith

pub not_to_pending : (s : TaskStatus) → can_transition s pending ≡ false
unfolding can_transition
not_to_pending s = ground arith

-- A task completes only from `running`, `review` or `qa`.
pub completed_from :
    (s : TaskStatus) → can_transition s completed ≡ true → (s ≡ running) ⊎ (s ≡ review) ⊎ (s ≡ qa)
unfolding can_transition
completed_from s h = ground arith

terminal-Reaches_self : {s t : TaskStatus} → is_terminal s ≡ true → Reaches s t → s ≡ t
terminal-Reaches_self h here = refl
terminal-Reaches_self {s} h (next t c r) = cc (terminal_stuck s t h)

not_same : (s : TaskStatus) → is_terminal s ≡ false → ((t : TaskStatus) → Reaches s t → s ≡ t) → ⊥
not_same s h k =
    let q = k cancelled (next cancelled (cancellable s h) here) in
    cc (h, ap is_terminal q, cancelled_ends)
  where
    cancelled_ends : is_terminal cancelled ≡ true
    cancelled_ends = unfold is_terminal in refl

-- The terminal statuses are exactly those from which no sequence of legal transitions leads to
-- another status.
pub terminal_iff :
    (s : TaskStatus) → (is_terminal s ≡ true) ↔ ((t : TaskStatus) → Reaches s t → s ≡ t)
terminal_iff s = (
  λ h t r. terminal-Reaches_self h r,
  λ k. elim (Bool-cases (is_terminal s)) [ inl h ↦ h | inr h ↦ absurd (not_same s h k) ],
)

-- Every status is reached from `pending` by legal transitions.
pub pending-Reaches : (s : TaskStatus) → Reaches pending s
unfolding can_transition
pending-Reaches pending = here
pending-Reaches queued = next queued refl here
pending-Reaches planning = next queued refl (next planning refl here)
pending-Reaches running = next queued refl (next running refl here)
pending-Reaches review = next queued refl (next running refl (next review refl here))
pending-Reaches qa = next queued refl (next running refl (next qa refl here))
pending-Reaches blocked = next queued refl (next running refl (next blocked refl here))
pending-Reaches completed = next queued refl (next running refl (next completed refl here))
pending-Reaches failed = next queued refl (next running refl (next failed refl here))
pending-Reaches cancelled = next cancelled refl here

-- A status can be cancelled in one step exactly if it is not terminal.
pub cancellable_iff :
    (s : TaskStatus) → (can_transition s cancelled ≡ true) ↔ (is_terminal s ≡ false)
unfolding is_terminal can_transition
cancellable_iff s = (λ h. ground arith, cancellable s)
