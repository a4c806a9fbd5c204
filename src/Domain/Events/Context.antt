-- ===== src/Domain/Events/Context.antt =====
-- Which envelopes the validator accepts.
use ai_infrastructure_as_cod.Prelude.{
  true, false, String, Option, none, some, [], ◌≡◌, ◌≢◌, ◌↔◌, refl, arith, string_eq, beq_refl,
  beq_ne, ap,
}
use ai_infrastructure_as_cod.Errors.{ok}
use ai_infrastructure_as_cod.Domain.Json.Search.{IsCleanFields, find_fields_iff}
use ai_infrastructure_as_cod.Domain.Events.{
  EventType, task_created, team_activated, team_idle, agent_assigned, agent_started,
  agent_status_changed, agent_completed, agent_failed, project_task_routed, EventEnvelope,
  is_forbidden_key, names_context, validate_context, causes_itself,
}

-- The fields that an event of each type must name.
abbrev pub Names : EventType → EventEnvelope → Type 0
Names team_activated e = e.team ≢ none
Names team_idle e = e.team ≢ none
Names agent_assigned e = e.agent ≢ none
Names agent_started e = e.agent ≢ none
Names agent_status_changed e = e.agent ≢ none
Names agent_completed e = e.agent ≢ none
Names agent_failed e = e.agent ≢ none
Names project_task_routed e = (e.task_id ≢ none) × (e.project ≢ none) × (e.team ≢ none)
Names _ e = e.task_id ≢ none

names_context-Names : (t : EventType) (e : EventEnvelope) → names_context t e ≡ true → Names t e
unfolding names_context
names_context-Names task_created e h = ground arith
names_context-Names _ e h = ground arith

Names-names_context : (t : EventType) (e : EventEnvelope) → Names t e → names_context t e ≡ true
unfolding names_context
Names-names_context task_created e h = ground arith
Names-names_context _ e h = ground arith

not_self :
    (e : EventEnvelope)
    → e.causation_id ≡ some e.event_id
    → causes_itself e.causation_id e.event_id ≡ false
    → ⊥
not_self e q h = cc (h, beq_refl e.event_id, ap (λ o. causes_itself o e.event_id) q)

other_cause_of : (o : Option String) (i : String) → o ≢ some i → causes_itself o i ≡ false
other_cause_of none i h = refl
other_cause_of (some c) i h = beq_ne c i (λ q. h (ap some q))

other_cause :
    (e : EventEnvelope)
    → e.causation_id ≢ some e.event_id
    → causes_itself e.causation_id e.event_id ≡ false
other_cause e = other_cause_of e.causation_id e.event_id

-- An envelope passes the validator exactly if it names the fields that its type asks for, is not
-- its own cause, and holds no forbidden key at any depth of its payload; it is returned unchanged.
pub validate_context_iff :
    (e : EventEnvelope)
    → (validate_context e ≡ ok e) ↔ (
        Names e.event_type e
        × (e.causation_id ≢ some e.event_id)
        × IsCleanFields is_forbidden_key e.payload)
unfolding validate_context
validate_context_iff e = (
  λ h. (
    names_context-Names e.event_type e (ground arith),
    λ q. not_self e q (ground arith),
    (find_fields_iff is_forbidden_key e.payload []).0 (ground arith),
  ),
  λ k. ground (
    arith,
    Names-names_context e.event_type e k.0,
    other_cause e k.1,
    (find_fields_iff is_forbidden_key e.payload []).1 k.2,
  ),
)

-- Case, dashes and the Kelvin sign do not hide a key.
forbidden_examples :
    (is_forbidden_key "API-Key" ≡ true)
    × (is_forbidden_key "toKen" ≡ true)
    × (is_forbidden_key "tokens" ≡ false)
unfolding is_forbidden_key
forbidden_examples = (refl, refl, refl)
