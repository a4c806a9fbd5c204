-- ===== src/Orchestrator/Selection/Unique.antt =====
-- The selected Developer is the only eligible agent of the team.
use ai_infrastructure_as_cod.Prelude.{
  Bool, true, false, String, some, List, [], ◌∷◌, lookup, ◌==◌, string_eq, eq_iff, contains,
  sort_texts, contains-sort_texts, if◌then◌else◌, ap, ◌≡◌, ◌⊎◌, refl, sym, arith, Bool-cases,
  Option-cases, Option, none, In, head, In-cases, inl, inr, ◌∙◌,
}
use mathlib.Core.Path.{subst}
use ai_infrastructure_as_cod.Domain.Tasks.{Task}
use ai_infrastructure_as_cod.Orchestrator.Selection.{
  ConfigBundle, AgentDefinition, TeamDefinition, Capability, DeveloperSelection, Selected, chosen,
  refused, candidates, SelectionError, is_eligible, select_developer, the_only, TeamType,
  is_product, names_project,
}
use ai_infrastructure_as_cod.Orchestrator.Selection.Eligible.{
  Eligible, Eligible-test, tested-Eligible,
}

abbrev among : List DeveloperSelection → String → Bool
among [] id = false
among (d ∷ ds) id = if d.agent_id == id then true else among ds id

Selected-cases :
    {A : Type 0} (r : Selected A)
    → ((a : A) × (r ≡ chosen a)) ⊎ ((e : SelectionError) × (r ≡ refused e))
Selected-cases (chosen a) = inl (a, refl)
Selected-cases (refused e) = inr (e, refl)

-- an eligible agent is a candidate
candidates-Eligible :
    (bundle : ConfigBundle) (ids : List String) (cs : List DeveloperSelection) (id : String)
    → candidates bundle ids ≡ chosen cs
    → contains ids id ≡ true
    → Eligible bundle id
    → among cs id ≡ true
unfolding candidates
candidates-Eligible bundle [] cs id h c e = ground arith
candidates-Eligible bundle (i ∷ ids) cs id h c e = elim (Selected-cases (candidates bundle ids)) [
  | inr (x, r) ↦ elim (Option-cases (lookup i bundle.agents)) [
    | inl l ↦ ground (arith, r)
    | inr (a, l) ↦ elim (Option-cases (lookup a.permission_profile bundle.permissions)) [
      | inl p ↦ ground (arith, r)
      | inr (k, p) ↦ ground (arith, r)
    ]
  ]
  | inl (rest, r) ↦ elim (Option-cases (lookup i bundle.agents)) [
    | inl l ↦ ground (arith, r)
    | inr (a, l) ↦ elim (Option-cases (lookup a.permission_profile bundle.permissions)) [
      | inl p ↦ ground (arith, r)
      | inr (k, p) ↦
          let tail = candidates-Eligible bundle ids rest id r in
          elim (Bool-cases (id == i)) [
            | inl q ↦
                let same : id ≡ i = (eq_iff id i).0 q in
                let now : lookup i bundle.agents ≡ some e.agent =
                  ap (λ j. lookup j bundle.agents) (sym same) ∙ e.registered in
                ground (arith, r, now, same, e.granted, Eligible-test bundle id e, eq_iff i id)
            | inr q ↦ ground (arith, r, tail, e, eq_iff i id)
          ]
    ]
  ]
]

only_one :
    (r : Selected (List DeveloperSelection)) (d : DeveloperSelection)
    → the_only r ≡ chosen d
    → r ≡ chosen (d ∷ [])
only_one (refused e) d h = ground arith
only_one (chosen []) d h = ground arith
only_one (chosen (c ∷ [])) d h = ground arith
only_one (chosen (c ∷ b ∷ cs)) d h = ground arith

selected-candidates :
    (bundle : ConfigBundle) (task : Task) (team : TeamDefinition) (d : DeveloperSelection)
    → lookup task.team bundle.teams ≡ some team
    → select_developer bundle task ≡ chosen d
    → candidates bundle (sort_texts team.agents) ≡ chosen (d ∷ [])
unfolding select_developer
selected-candidates bundle task team d l h =
    only_one (candidates bundle (sort_texts team.agents)) d (ground (arith, l))

-- what a candidate is
record Candidate (bundle : ConfigBundle) (ids : List String) (d : DeveloperSelection) : Type 0 where
  listed : contains ids d.agent_id ≡ true
  known : lookup d.agent_id bundle.agents ≡ some d.definition
  fits : Eligible bundle d.agent_id

widened :
    (bundle : ConfigBundle) (i : String) (ids : List String) (d : DeveloperSelection)
    → Candidate bundle ids d
    → Candidate bundle (i ∷ ids) d
widened bundle i ids d c = record {
  listed = ground (arith, c.listed);
  known = c.known;
  fits = c.fits;
}

Candidate-head :
    (bundle : ConfigBundle) (i : String) (ids : List String) (a : AgentDefinition)
    (k : List Capability)
    → lookup i bundle.agents ≡ some a
    → lookup a.permission_profile bundle.permissions ≡ some k
    → is_eligible a k ≡ true
    → Candidate bundle (i ∷ ids) (record { agent_id = i; definition = a })
Candidate-head bundle i ids a k l p h = record {
  listed = ground (arith, eq_iff i i);
  known = l;
  fits = tested-Eligible bundle i a k l p h;
}

candidates-Candidate :
    (bundle : ConfigBundle) (ids : List String) (cs : List DeveloperSelection)
    (d : DeveloperSelection)
    → candidates bundle ids ≡ chosen cs
    → In d cs
    → Candidate bundle ids d
unfolding candidates
candidates-Candidate bundle [] cs d h m =
    let none_left : cs ≡ [] = ground (arith, h) in absurd (elim (subst (In d) none_left m) [ ])
candidates-Candidate bundle (i ∷ ids) cs d h m = elim (Selected-cases (candidates bundle ids)) [
  | inr (x, r) ↦ elim (Option-cases (lookup i bundle.agents)) [
    | inl l ↦ ground (arith, r)
    | inr (a, l) ↦ elim (Option-cases (lookup a.permission_profile bundle.permissions)) [
      | inl p ↦ ground (arith, r)
      | inr (k, p) ↦ ground (arith, r)
    ]
  ]
  | inl (rest, r) ↦ elim (Option-cases (lookup i bundle.agents)) [
    | inl l ↦ ground (arith, r)
    | inr (a, l) ↦ elim (Option-cases (lookup a.permission_profile bundle.permissions)) [
      | inl p ↦ ground (arith, r)
      | inr (k, p) ↦ elim (Bool-cases (is_eligible a k)) [
        | inr e ↦
            let same : cs ≡ rest = ground (arith, r, l, p, e, h) in
            widened bundle i ids d (candidates-Candidate bundle ids rest d r (subst (In d) same m))
        | inl e ↦
            let same : cs ≡ record { agent_id = i; definition = a } ∷ rest =
              ground (arith, r, l, p, e, h) in
            elim (In-cases (subst (In d) same m)) [
              | inl q ↦
                  subst (Candidate bundle (i ∷ ids)) (sym q) (Candidate-head bundle i ids a k l p e)
              | inr j ↦ widened bundle i ids d (candidates-Candidate bundle ids rest d r j)
            ]
      ]
    ]
  ]
]

product_team : (t : TeamType) → is_product t ≡ true → t ≡ TeamType.product
product_team TeamType.product h = refl
product_team TeamType.platform h = ground (arith, h)

-- The selected Developer: the one eligible agent of a team that owns the task's project.
pub record IsTheDeveloper (bundle : ConfigBundle) (task : Task) (team : TeamDefinition)
    (d : DeveloperSelection) : Type 0 where
  pub listed : contains team.agents d.agent_id ≡ true
  pub known : lookup d.agent_id bundle.agents ≡ some d.definition
  pub fits : Eligible bundle d.agent_id
  pub only : (id : String) → contains team.agents id ≡ true → Eligible bundle id → d.agent_id ≡ id
  pub builds : team.type ≡ TeamType.product
  pub owner : lookup task.project bundle.projects ≡ some task.team
  pub project : team.project ≡ some task.project

named : (o : Option String) (s : String) → names_project o s ≡ true → o ≡ some s
named none s h = ground (arith, h)
named (some q) s h = ap some ((eq_iff q s).0 h)

reciprocal :
    (bundle : ConfigBundle) (task : Task) (team : TeamDefinition) (d : DeveloperSelection)
    → lookup task.team bundle.teams ≡ some team
    → select_developer bundle task ≡ chosen d
    → (is_product team.type ≡ true)
      × (lookup task.project bundle.projects ≡ some task.team)
      × (names_project team.project task.project ≡ true)
unfolding select_developer
reciprocal bundle task team d l h = elim (Option-cases (lookup task.project bundle.projects)) [
  | inl q ↦ ground (arith, l, h, q)
  | inr (owner, q) ↦ elim (Bool-cases (owner == task.team)) [
    | inl e ↦
        let same : owner ≡ task.team = (eq_iff owner task.team).0 e in
        (ground (arith, l, h, q), q ∙ ap some same, ground (arith, l, h, q, e))
    | inr e ↦ ground (arith, l, h, q, e)
  ]
]

-- Where a Developer is selected for a task, it is an agent of the task's team that is enabled, has
-- the role, the runtime, the working directory policy and all needed capabilities, and none of the
-- prohibited ones; no other agent of the team is such. The team is a product team that names the
-- task's project, and the project names the team.
pub select-Eligible :
    (bundle : ConfigBundle) (task : Task) (team : TeamDefinition) (d : DeveloperSelection)
    → lookup task.team bundle.teams ≡ some team
    → select_developer bundle task ≡ chosen d
    → IsTheDeveloper bundle task team d
select-Eligible bundle task team d l h =
    let cs = selected-candidates bundle task team d l h in
    let c = candidates-Candidate bundle (sort_texts team.agents) (d ∷ []) d cs head in
    let r = reciprocal bundle task team d l h in
    record {
      listed = sym (contains-sort_texts d.agent_id team.agents) ∙ c.listed;
      known = c.known;
      fits = c.fits;
      only = λ id k e.
          let found =
            candidates-Eligible bundle (sort_texts team.agents) (d ∷ []) id cs
              (contains-sort_texts id team.agents ∙ k) e in
          ground (arith, found, eq_iff d.agent_id id);
      builds = product_team team.type r.0;
      owner = r.1;
      project = named team.project task.project r.2;
    }
