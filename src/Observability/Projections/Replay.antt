-- ===== src/Observability/Projections/Replay.antt =====
-- Replaying events: duplicates are harmless, and the status follows the transition table.
use ai_infrastructure_as_cod.Prelude.{
  Bool, true, Option, none, some, List, [], ◌∷◌, lookup, lookup-insert_self, ◌≡◌, ◌⊎◌, refl, arith,
  Option-cases, inl, inr,
}
use ai_infrastructure_as_cod.Errors.{Result, ok, err, Result-cases}
use ai_infrastructure_as_cod.Domain.Status.{TaskStatus, pending, can_transition}
use ai_infrastructure_as_cod.Domain.Status.Graph.{Reaches, here, next}
use ai_infrastructure_as_cod.Domain.Events.{EventEnvelope}
use ai_infrastructure_as_cod.Observability.Projections.{
  TaskProjection, TaskProjector, new_projector, create, apply, consume, consume_all, settle,
  next_projection, replay_task,
}

-- One transition more, at the end.
Reaches-step : {s t u : TaskStatus} → Reaches s t → can_transition t u ≡ true → Reaches s u
Reaches-step {u = u} here c = next u c here
Reaches-step (next v c r) d = next v c (Reaches-step r d)

create-pending : (e : EventEnvelope) (x : TaskProjection) → create e ≡ ok x → x.status ≡ pending
unfolding create
create-pending e x h = ground arith

-- An event moves the status along the table, or leaves it.
apply_legal :
    (x y : TaskProjection) (e : EventEnvelope)
    → apply x e ≡ ok y
    → (y.status ≡ x.status) ⊎ (can_transition x.status y.status ≡ true)
unfolding apply
apply_legal x y e h = ground arith

abbrev Legal : Option TaskProjection → Type 0
Legal none = Unit
Legal (some x) = Reaches pending x.status

abbrev pub IsLegal : Option TaskProjection → Type 0
IsLegal none = Unit
IsLegal (some x) = Reaches pending x.status

apply-IsLegal :
    (x y : TaskProjection) (e : EventEnvelope)
    → apply x e ≡ ok y
    → IsLegal (some x)
    → IsLegal (some y)
apply-IsLegal x y e h r = elim (apply_legal x y e h) [ inl q ↦ rw q r | inr c ↦ Reaches-step r c ]

module _ (same : EventEnvelope → EventEnvelope → Bool) where
  next-IsLegal :
      (o : Option TaskProjection) (e : EventEnvelope) (y : TaskProjection)
      → next_projection same o e ≡ ok y
      → IsLegal o
      → IsLegal (some y)
  next-IsLegal none e y h k = rw (create-pending e y h) here
  next-IsLegal (some x) e y h k = apply-IsLegal x y e h k

  settle-IsLegal :
      (p : TaskProjector) (e : EventEnvelope) (r : Result TaskProjection)
      → ((y : TaskProjection) → r ≡ ok y → IsLegal (some y))
      → IsLegal p.projection
      → IsLegal (settle same p e r).1.projection
  unfolding settle
  settle-IsLegal p e (err x) k h = h
  settle-IsLegal p e (ok y) k h = k y refl

  pub consume_fresh :
      (p : TaskProjector) (e : EventEnvelope)
      → lookup e.event_id p.seen_events ≡ none
      → consume same p e ≡ settle same p e (next_projection same p.projection e)
  unfolding consume
  consume_fresh p e l = ground arith

  pub consume_seen :
      (p : TaskProjector) (e d : EventEnvelope)
      → lookup e.event_id p.seen_events ≡ some d
      → (consume same p e).1 ≡ p
  unfolding consume
  consume_seen p e d l = ground arith

  consume-IsLegal :
      (p : TaskProjector) (e : EventEnvelope)
      → IsLegal p.projection
      → IsLegal (consume same p e).1.projection
  consume-IsLegal p e h = elim (Option-cases (lookup e.event_id p.seen_events)) [
    | inr (d, l) ↦ rw (consume_seen p e d l) h
    | inl l ↦ rw (consume_fresh p e l) (
        settle-IsLegal p e (next_projection same p.projection e)
          (λ y q. next-IsLegal p.projection e y q h) h)
  ]

  consume_all-IsLegal :
      (es : List EventEnvelope) (p q : TaskProjector)
      → consume_all same p es ≡ ok q
      → IsLegal p.projection
      → IsLegal q.projection
  unfolding consume_all
  consume_all-IsLegal [] p q h k = let e : p ≡ q = ground arith in rw (← e) k
  consume_all-IsLegal (e ∷ es) p q h k =
      consume_all-IsLegal es (consume same p e).1 q (ground arith) (consume-IsLegal p e k)

  -- Whatever the events, the status that a replay returns is reached from `pending` by legal
  -- transitions: a stream that would break the lifecycle is refused.
  pub replay-Reaches :
      (es : List EventEnvelope) (x : TaskProjection)
      → replay_task same es ≡ ok x
      → Reaches pending x.status
  replay-Reaches es x h = elim (Result-cases (consume_all same new_projector es)) [
    | inr (e, q) ↦ unfold replay_task in ground arith
    | inl (p, q) ↦ elim (Option-cases p.projection) [
      | inl n ↦ unfold replay_task in ground arith
      | inr (y, n) ↦
          let k : IsLegal p.projection = consume_all-IsLegal es new_projector p q tt in
          let e : y ≡ x = unfold replay_task in ground arith in rw (← e) (rw n at k)
    ]
  ]

  -- An event that is new to the projector and is consumed without an error can be consumed again,
  -- provided that it equals itself: the second time returns the same projection and changes
  -- nothing.
  pub consume_twice :
      (p : TaskProjector) (e : EventEnvelope) (x : TaskProjection)
      → same e e ≡ true
      → lookup e.event_id p.seen_events ≡ none
      → (consume same p e).0 ≡ ok x
      → consume same (consume same p e).1 e ≡ (ok x, (consume same p e).1)
  unfolding consume
  consume_twice p e x r f h = ground (arith, lookup-insert_self e.event_id e p.seen_events)
