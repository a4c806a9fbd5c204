-- ===== src/Gateway/Service/Once.antt =====
-- A request that was processed is replayed.
use ai_infrastructure_as_cod.Prelude.{
  ℕ, ◌+◌, ◌≤◌, true, false, String, none, some, ◌≡◌, ◌≢◌, sym, arith, ap, ◌∙◌,
}
use ai_infrastructure_as_cod.Gateway.Models.{
  duplicate, GatewayRequest, GatewayResponse, idempotency_key,
}
use ai_infrastructure_as_cod.Gateway.Ports.{Raise, interruption, Outcome, returned, raised, Hub}
use ai_infrastructure_as_cod.Gateway.Dedup.{InMemory, in_memory, get, reserve, remember, release}
use ai_infrastructure_as_cod.Gateway.Dedup.Replay.{get_remembered}
use ai_infrastructure_as_cod.Gateway.Service.{
  response_for, is_transient, is_sensitive, dispatch, conclude, settle, process, if_reserved,
  unless_cached, if_authorized, deduplicate, handle,
}

module _ {T : Type 0} (hub : Hub T) where
  -- a response that frees no key was remembered
  conclude_kept :
      (now : ℕ) (key : String) (response r : GatewayResponse) (s s' : T × InMemory)
      → conclude hub (in_memory now) key response s ≡ (returned r, s')
      → is_transient r.code ≡ false
      → s' ≡ (s.0, (remember now key r s.1).1)
  unfolding conclude remember release
  conclude_kept now key response r s s' h n = ground arith

  settle_kept :
      (now : ℕ) (key : String) (o : Outcome GatewayResponse) (r : GatewayResponse)
      (s s' : T × InMemory)
      → settle hub (in_memory now) key o s ≡ (returned r, s')
      → is_transient r.code ≡ false
      → s' ≡ (s.0, (remember now key r s.1).1)
  unfolding settle release
  settle_kept now key (returned x) r s s' h n = conclude_kept now key x r s s' h n
  settle_kept now key (raised interruption) r s s' h n = ground arith
  settle_kept now key (raised Raise.task_not_found) r s s' h n =
      conclude_kept now key (response_for Raise.task_not_found) r s s' h n
  settle_kept now key (raised Raise.task_conflict) r s s' h n =
      conclude_kept now key (response_for Raise.task_conflict) r s s' h n
  settle_kept now key (raised Raise.dependency_unavailable) r s s' h n =
      conclude_kept now key (response_for Raise.dependency_unavailable) r s s' h n
  settle_kept now key (raised Raise.exception) r s s' h n =
      conclude_kept now key (response_for Raise.exception) r s s' h n

  get_keeps :
      (now : ℕ) (key : String) (d : InMemory)
      → ((get now key d).1.ttl ≡ d.ttl) × ((get now key d).1.max_entries ≡ d.max_entries)
  unfolding get
  get_keeps now key d = ground arith

  reserve_keeps :
      (now : ℕ) (key : String) (d : InMemory)
      → ((reserve now key d).1.ttl ≡ d.ttl) × ((reserve now key d).1.max_entries ≡ d.max_entries)
  unfolding reserve
  reserve_keeps now key d = ground arith

  -- a reserved request whose response frees no key
  process_kept :
      (now : ℕ) (request : GatewayRequest) (r : GatewayResponse) (s s' : T × InMemory)
      → process hub (in_memory now) request s ≡ (returned r, s')
      → is_transient r.code ≡ false
      → s'.1 ≡ (remember now (idempotency_key request) r s.1).1
  unfolding process
  process_kept now request r s s' h n =
      ap (λ k. k.1)
        (settle_kept now (idempotency_key request) (dispatch hub request s.0).0 r
          ((dispatch hub request s.0).1, s.1) s' h n)

  -- a new request is refused, or reserved and processed
  reserved_process :
      (now : ℕ) (request : GatewayRequest) (r : GatewayResponse) (s s' : T × InMemory)
      → (get now (idempotency_key request) s.1).0 ≡ returned none
      → deduplicate hub (in_memory now) request s ≡ (returned r, s')
      → r.code ≢ duplicate
      → process hub
          (in_memory now)
          request
          (s.0, (reserve now (idempotency_key request) (get now (idempotency_key request) s.1).1).1)
        ≡ (returned r, s')
  unfolding deduplicate unless_cached if_reserved
  reserved_process now request r s s' new h nd = unfold reserve in ground (arith, new)

  -- a new request, which is neither being processed nor answered
  deduplicate_kept :
      (now : ℕ) (request : GatewayRequest) (r : GatewayResponse) (s s' : T × InMemory)
      → (get now (idempotency_key request) s.1).0 ≡ returned none
      → deduplicate hub (in_memory now) request s ≡ (returned r, s')
      → is_transient r.code ≡ false
      → r.code ≢ duplicate
      → (d : InMemory) × (s'.1 ≡ (remember now (idempotency_key request) r d).1)
        × (d.ttl ≡ s.1.ttl)
        × (d.max_entries ≡ s.1.max_entries)
  deduplicate_kept now request r s s' new h n nd =
      let key = idempotency_key request in
      let d = (get now key s.1).1 in
      let g = get_keeps now key s.1 in
      let k = reserve_keeps now key d in
      let p = reserved_process now request r s s' new h nd in
      (
        (reserve now key d).1,
        process_kept now request r (s.0, (reserve now key d).1) s' p n,
        k.0 ∙ g.0,
        k.1 ∙ g.1,
      )

  -- an authorized request without credentials comes to its deduplication
  handled :
      (now : ℕ) (request : GatewayRequest) (s : T × InMemory)
      → hub.is_authorized request.actor_id request.command request.project s.0
        ≡ (returned true, s.0)
      → is_sensitive hub request.instruction ≡ false
      → handle hub (in_memory now) request s ≡ deduplicate hub (in_memory now) request s
  unfolding handle if_authorized
  handled now request s a c = ground (arith, a)

  -- Over the in-memory deduplicator that keeps at least one response, a new request of an actor
  -- whom the authorizer always admits, without credentials in its instruction, is handled. If its
  -- response is neither transient nor says that it is a duplicate, then the same request, before
  -- the time to live of the response is over, gets this response marked as replayed, and the
  -- state that the other ports share stays as the first left it.
  pub handle-once :
      (now later : ℕ) (request : GatewayRequest) (r : GatewayResponse) (s s' : T × InMemory)
      → ((t : T)
          → hub.is_authorized request.actor_id request.command request.project t
            ≡ (returned true, t))
      → is_sensitive hub request.instruction ≡ false
      → 1 ≤ s.1.max_entries
      → later ≤ now + s.1.ttl
      → (get now (idempotency_key request) s.1).0 ≡ returned none
      → handle hub (in_memory now) request s ≡ (returned r, s')
      → is_transient r.code ≡ false
      → r.code ≢ duplicate
      → handle hub (in_memory later) request s' ≡ (
        returned (record r { replayed = true }),
        (s'.0, (get later (idempotency_key request) s'.1).1),
      )
  handle-once now later request r s s' a c one le new h n nd =
      let (d, kept, ttl, max) =
        deduplicate_kept now request r s s' new (sym (handled now request s (a s.0) c) ∙ h) n nd in
      let again : (get later (idempotency_key request) s'.1).0 ≡ returned (some r) = rw kept (
        get_remembered now later (idempotency_key request) r d (omega (arith, max))
          (omega (arith, ttl))) in
      handled later request s' (a s'.0) c
      ∙ (unfold deduplicate unless_cached in ground (arith, again))
