-- ===== src/Orchestrator/Selection.antt =====
-- `select_developer` of src/macmini_ai_hub/orchestrator/selection.py, with the fields of the
-- registries of src/macmini_ai_hub/config/models.py that it reads.
pub mod Eligible
pub mod Unique
use ai_infrastructure_as_cod.Prelude.{
  Bool, true, false, not, ◌&&◌, ◌||◌, String, Option, none, some, List, [], ◌∷◌, Table, lookup,
  ◌==◌, string_eq, sort_texts, if◌then◌else◌,
}
use ai_infrastructure_as_cod.Domain.Tasks.{Task}

pub data RuntimeKind : Type 0 where
  disabled codex : RuntimeKind

pub data TeamType : Type 0 where
  platform product : TeamType

pub data WorkingDirectoryPolicy : Type 0 where
  project_workspace read_only : WorkingDirectoryPolicy

pub data Capability : Type 0 where
  read write execute git network deploy admin : Capability

pub record AgentDefinition : Type 0 where
  pub role : String
  pub runtime : RuntimeKind
  pub enabled : Bool
  pub permission_profile : String
  pub working_directory_policy : WorkingDirectoryPolicy

pub record TeamDefinition : Type 0 where
  pub type : TeamType
  pub agents : List String
  pub project : Option String

pub record ConfigBundle : Type 0 where
  pub agents : Table AgentDefinition
  pub teams : Table TeamDefinition
  -- the team of each project
  pub projects : Table String
  pub permissions : Table (List Capability)

pub record DeveloperSelection : Type 0 where
  pub agent_id : String
  pub definition : AgentDefinition

-- `missing_key` is a `KeyError`; the others are a `DeveloperSelectionError`.
pub data SelectionError : Type 0 where
  no_product_team not_reciprocal no_candidate several_candidates missing_key : SelectionError

pub data Selected (A : Type 0) : Type 0 where
  chosen : A → Selected A
  refused : SelectionError → Selected A

abbrev pub is_product : TeamType → Bool
is_product product = true
is_product platform = false

abbrev pub is_codex : RuntimeKind → Bool
is_codex codex = true
is_codex disabled = false

abbrev pub works_in_project : WorkingDirectoryPolicy → Bool
works_in_project project_workspace = true
works_in_project read_only = false

-- the capabilities that a Developer needs, and those that it must not have
abbrev pub same_capability : Capability → Capability → Bool
same_capability read read = true
same_capability write write = true
same_capability execute execute = true
same_capability git git = true
same_capability network network = true
same_capability deploy deploy = true
same_capability admin admin = true
same_capability _ _ = false

abbrev pub has : List Capability → Capability → Bool
has [] c = false
has (d ∷ ds) c = same_capability d c || has ds c

unfoldable pub is_capable : List Capability → Bool
is_capable cs =
    has cs read
    && has cs write
    && has cs execute
    && has cs git
    && not (has cs network)
    && not (has cs deploy)
    && not (has cs admin)

unfoldable pub is_eligible : AgentDefinition → List Capability → Bool
is_eligible agent capabilities =
    agent.enabled
    && agent.role == "developer"
    && is_codex agent.runtime
    && works_in_project agent.working_directory_policy
    && is_capable capabilities

-- one agent more, before the candidates among the agents after it
abbrev and_candidate :
    String
    → AgentDefinition
    → List Capability
    → Selected (List DeveloperSelection)
    → Selected (List DeveloperSelection)
and_candidate id agent capabilities (refused e) = refused e
and_candidate id agent capabilities (chosen rest) = chosen (
    if is_eligible agent capabilities
    then record { agent_id = id; definition = agent } ∷ rest
    else rest)

unfoldable pub candidates : ConfigBundle → List String → Selected (List DeveloperSelection)
candidates bundle [] = chosen []
candidates bundle (id ∷ ids) =
    let rest = candidates bundle ids in
    elim (lookup id bundle.agents) [
      | none ↦ refused missing_key
      | some agent ↦ elim (lookup agent.permission_profile bundle.permissions) [
        | none ↦ refused missing_key
        | some capabilities ↦ and_candidate id agent capabilities rest
      ]
    ]

abbrev pub the_only : Selected (List DeveloperSelection) → Selected DeveloperSelection
the_only (refused e) = refused e
the_only (chosen []) = refused no_candidate
the_only (chosen (d ∷ [])) = chosen d
the_only (chosen (d ∷ e ∷ ds)) = refused several_candidates

abbrev pub names_project : Option String → String → Bool
names_project none p = false
names_project (some q) p = q == p

unfoldable pub select_developer : ConfigBundle → Task → Selected DeveloperSelection
unfolding candidates
select_developer bundle task = elim (lookup task.team bundle.teams) [
  | none ↦ refused no_product_team
  | some team ↦
      if not (is_product team.type)
      then refused no_product_team
      else elim (lookup task.project bundle.projects) [
        | none ↦ refused not_reciprocal
        | some owner ↦
            if not (owner == task.team) || not (names_project team.project task.project)
            then refused not_reciprocal
            else the_only (candidates bundle (sort_texts team.agents))
      ]
]
