-- ===== src/Gateway/Service/Outcomes.antt =====
-- How a request ends.
use ai_infrastructure_as_cod.Prelude.{
  Bool, true, false, String, Option, none, some, ◌≡◌, arith, Bool-cases, inl, inr,
}
use ai_infrastructure_as_cod.Gateway.Models.{idempotency_key, GatewayRequest, GatewayResponse}
use ai_infrastructure_as_cod.Gateway.Ports.{
  Raise, interruption, Outcome, returned, raised, Call, or_else, Hub, RequestDeduplicator,
}
use ai_infrastructure_as_cod.Gateway.Service.{
  response_for, is_transient, dispatch, conclude, settle, process, if_reserved, unless_cached,
  if_authorized, deduplicate, handle, is_sensitive,
}

module _ {T D : Type 0} (hub : Hub T) (dedup : RequestDeduplicator D) where
  -- A call that raises interruptions only.
  abbrev Contained : Outcome GatewayResponse → Type 0
  Contained o = (e : Raise) → o ≡ raised e → e ≡ interruption

  attempt-Contained :
      {A : Type 0} (o : Outcome A) (default : Call (T × D) GatewayResponse)
      (k : A → Call (T × D) GatewayResponse) (s : T × D)
      → Contained (default s).0
      → ((a : A) → Contained (k a s).0)
      → Contained (or_else o default k s).0
  attempt-Contained (returned a) default k s h g = g a
  attempt-Contained (raised interruption) default k s h g = λ e q. ground arith
  attempt-Contained (raised _) default k s h g = h

  pure-Contained : (r : GatewayResponse) → Contained (returned r)
  pure-Contained r = λ e q. ground arith

  conclude-Contained :
      (key : String) (response : GatewayResponse) (s : T × D)
      → Contained (conclude hub dedup key response s).0
  unfolding conclude
  conclude-Contained key response s = elim (Bool-cases (is_transient response.code)) [
    | inl t ↦ rw t (
        attempt-Contained (dedup.release key s.1).0 _ _ _ (pure-Contained response)
          (λ u. pure-Contained response))
    | inr t ↦ rw t (
        attempt-Contained (dedup.remember key response s.1).0 _ _ _ (pure-Contained _)
          (λ u. pure-Contained response))
  ]

  settle-Contained :
      (key : String) (o : Outcome GatewayResponse) (s : T × D)
      → Contained (settle hub dedup key o s).0
  unfolding settle
  settle-Contained key (returned x) s = conclude-Contained key x s
  settle-Contained key (raised interruption) s =
      attempt-Contained (dedup.release key s.1).0 _ _ _ (λ e q. ground arith)
        (λ u e q. ground arith)
  settle-Contained key (raised Raise.task_not_found) s =
      conclude-Contained key (response_for Raise.task_not_found) s
  settle-Contained key (raised Raise.task_conflict) s =
      conclude-Contained key (response_for Raise.task_conflict) s
  settle-Contained key (raised Raise.dependency_unavailable) s =
      conclude-Contained key (response_for Raise.dependency_unavailable) s
  settle-Contained key (raised Raise.exception) s =
      conclude-Contained key (response_for Raise.exception) s

  if_reserved-Contained :
      (request : GatewayRequest) (b : Bool) (s : T × D)
      → Contained (if_reserved hub dedup request b s).0
  unfolding if_reserved process
  if_reserved-Contained request true s =
      settle-Contained (idempotency_key request) (dispatch hub request s.0).0
        ((dispatch hub request s.0).1, s.1)
  if_reserved-Contained request false s = pure-Contained _

  unless_cached-Contained :
      (request : GatewayRequest) (o : Option GatewayResponse) (s : T × D)
      → Contained (unless_cached hub dedup request o s).0
  unfolding unless_cached
  unless_cached-Contained request (some r) s = pure-Contained _
  unless_cached-Contained request none s =
      attempt-Contained (dedup.reserve (idempotency_key request) s.1).0 _ _ _ (pure-Contained _)
        (λ b. if_reserved-Contained request b _)

  if_authorized-Contained :
      (request : GatewayRequest) (b : Bool) (s : T × D)
      → Contained (if_authorized hub dedup request b s).0
  unfolding if_authorized deduplicate
  if_authorized-Contained request false s = pure-Contained _
  if_authorized-Contained request true s =
      elim (Bool-cases (is_sensitive hub request.instruction)) [
        | inl t ↦ rw t (pure-Contained _)
        | inr t ↦ rw t (
            attempt-Contained (dedup.get (idempotency_key request) s.1).0 _ _ _ (pure-Contained _)
              (λ o. unless_cached-Contained request o _))
      ]

  -- Whatever the ports raise, `handle` raises nothing but an interruption: every `Exception` of an
  -- adapter becomes a response.
  pub handle-Contained :
      (request : GatewayRequest) (s : T × D) (e : Raise)
      → (handle hub dedup request s).0 ≡ raised e
      → e ≡ interruption
  unfolding handle
  handle-Contained request s =
      attempt-Contained (hub.is_authorized request.actor_id request.command request.project s.0).0 _
        _ _ (pure-Contained _) (λ b. if_authorized-Contained request b _)
