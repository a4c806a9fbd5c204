-- ===== src/Orchestrator/Selection/Eligible.antt =====
-- What makes an agent eligible, beside the test of `select_developer`.
use ai_infrastructure_as_cod.Prelude.{
  true, false, String, some, List, lookup, string_eq, eq_iff, ap, ◌≡◌, refl, arith,
}
use ai_infrastructure_as_cod.Orchestrator.Selection.{
  ConfigBundle, AgentDefinition, Capability, is_eligible, is_capable, is_codex, works_in_project,
  has, RuntimeKind, WorkingDirectoryPolicy,
}

-- An agent of the registry that may be selected: it is enabled, it has the role, the runtime and the
-- working directory policy, its profile grants the four capabilities that are needed, and none of the
-- three that are prohibited.
pub record Eligible (bundle : ConfigBundle) (id : String) : Type 0 where
  pub agent : AgentDefinition
  pub capabilities : List Capability
  pub registered : lookup id bundle.agents ≡ some agent
  pub granted : lookup agent.permission_profile bundle.permissions ≡ some capabilities
  pub enabled : agent.enabled ≡ true
  pub role : agent.role ≡ "developer"
  pub runtime : agent.runtime ≡ RuntimeKind.codex
  pub policy : agent.working_directory_policy ≡ WorkingDirectoryPolicy.project_workspace
  pub reads : has capabilities Capability.read ≡ true
  pub writes : has capabilities Capability.write ≡ true
  pub executes : has capabilities Capability.execute ≡ true
  pub commits : has capabilities Capability.git ≡ true
  pub offline : has capabilities Capability.network ≡ false
  pub no_deploy : has capabilities Capability.deploy ≡ false
  pub no_admin : has capabilities Capability.admin ≡ false

codex_runtime : (r : RuntimeKind) → is_codex r ≡ true → r ≡ RuntimeKind.codex
codex_runtime RuntimeKind.codex h = refl
codex_runtime RuntimeKind.disabled h = ground (arith, h)

project_policy :
    (d : WorkingDirectoryPolicy)
    → works_in_project d ≡ true
    → d ≡ WorkingDirectoryPolicy.project_workspace
project_policy WorkingDirectoryPolicy.project_workspace h = refl
project_policy WorkingDirectoryPolicy.read_only h = ground (arith, h)

pub Eligible-test :
    (bundle : ConfigBundle) (id : String) (e : Eligible bundle id)
    → is_eligible e.agent e.capabilities ≡ true
unfolding is_eligible is_capable
Eligible-test bundle id e =
    let role = (eq_iff e.agent.role "developer").1 e.role in
    let runtime : is_codex e.agent.runtime ≡ true = ap is_codex e.runtime in
    let policy : works_in_project e.agent.working_directory_policy ≡ true =
      ap works_in_project e.policy in
    ground (
      arith, role, runtime, policy, e.enabled, e.reads, e.writes, e.executes, e.commits, e.offline,
      e.no_deploy, e.no_admin,
    )

pub tested-Eligible :
    (bundle : ConfigBundle) (id : String) (a : AgentDefinition) (cs : List Capability)
    → lookup id bundle.agents ≡ some a
    → lookup a.permission_profile bundle.permissions ≡ some cs
    → is_eligible a cs ≡ true
    → Eligible bundle id
unfolding is_eligible is_capable
tested-Eligible bundle id a cs l g h = record {
  agent = a;
  capabilities = cs;
  registered = l;
  granted = g;
  enabled = ground (arith, h);
  role = (eq_iff a.role "developer").0 (ground (arith, h));
  runtime = codex_runtime a.runtime (ground (arith, h));
  policy = project_policy a.working_directory_policy (ground (arith, h));
  reads = ground (arith, h);
  writes = ground (arith, h);
  executes = ground (arith, h);
  commits = ground (arith, h);
  offline = ground (arith, h);
  no_deploy = ground (arith, h);
  no_admin = ground (arith, h);
}
