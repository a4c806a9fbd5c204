-- ===== src/Examples/Orchestrator.antt =====
-- The theorem on the selection at a small registry.
use ai_infrastructure_as_cod.Prelude.{
  Bool, true, false, String, Option, none, some, List, [], ◌∷◌, lookup, contains, string_eq, ◌≡◌,
  refl,
}
use ai_infrastructure_as_cod.Domain.Status.{TaskStatus}
use ai_infrastructure_as_cod.Orchestrator.Selection.{
  RuntimeKind, TeamType, WorkingDirectoryPolicy, Capability, AgentDefinition, TeamDefinition,
  ConfigBundle, DeveloperSelection, chosen, is_eligible, select_developer,
}
use ai_infrastructure_as_cod.Orchestrator.Selection.Unique.{IsTheDeveloper, select-Eligible}
use ai_infrastructure_as_cod.Examples.Samples.{errand}

abbrev builder : AgentDefinition
builder = record {
  role = "developer";
  runtime = RuntimeKind.codex;
  enabled = true;
  permission_profile = "dev";
  working_directory_policy = WorkingDirectoryPolicy.project_workspace;
}

abbrev reviewer : AgentDefinition
reviewer = record builder { role = "reviewer" }

abbrev crew : TeamDefinition
crew = record { type = TeamType.product; agents = "rev" ∷ "dev" ∷ []; project = some "hub" }

abbrev rights : List Capability
rights = Capability.read ∷ Capability.write ∷ Capability.execute ∷ Capability.git ∷ []

abbrev pub registries : ConfigBundle
registries = record {
  agents = ("dev", builder) ∷ ("rev", reviewer) ∷ [];
  teams = ("platform", crew) ∷ [];
  projects = ("hub", "platform") ∷ [];
  permissions = ("dev", rights) ∷ [];
}

abbrev the_builder : DeveloperSelection
the_builder = record { agent_id = "dev"; definition = builder }

found_team : lookup "platform" registries.teams ≡ some crew
unfolding lookup
found_team = refl

builder_selected : select_developer registries (errand TaskStatus.pending) ≡ chosen the_builder
unfolding select_developer lookup ai_infrastructure_as_cod.Prelude.sort_texts is_eligible
    ai_infrastructure_as_cod.Orchestrator.Selection.is_capable
builder_selected = refl

select-Eligible_example : IsTheDeveloper registries (errand TaskStatus.pending) crew the_builder
select-Eligible_example =
    select-Eligible registries (errand TaskStatus.pending) crew the_builder found_team
      builder_selected
