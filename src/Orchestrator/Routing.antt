-- ===== src/Orchestrator/Routing.antt =====
-- routing.go: the routing matrix, its lookup table and the functions that read it; and
-- `RouteAgentToTaskType` of task_runner.go, which goes the other way.
use neuralgentics.Prelude.{
  subst, ◌≡◌, ◌↔◌, ◌⊎◌, inl, inr, refl, Bool, true, false, not, String, List, Option, none, some,
  [], ◌∷◌, ◌==◌, arith, ==_iff, lookup, insert, contains, if◌then◌else◌,
}
use neuralgentics.Orchestrator.Types.{
  TaskType, code_impl, arch_design, file_finding, testing, linting, git, documentation,
  web_scraping, mcp_debug, release, AgentRole, RoutingRule, RoutingValidation, no_violation,
  wrong_agent, forbidden_agent, task_type_comparable, agent_role_comparable, TaskType-discrete,
  AgentRole-discrete,
}

-- The literal of one entry of the matrix.
abbrev rule : TaskType → AgentRole → List AgentRole → String → RoutingRule
rule t a fs d = record { task_type = t; agent = a; forbidden_agents = fs; description = d }

-- RoutingMatrix
pub routing_matrix : List RoutingRule
routing_matrix =
    rule code_impl AgentRole.coder (AgentRole.explorer ∷ []) "Writing/editing code, tests, config"
    ∷ rule arch_design AgentRole.architect (AgentRole.coder ∷ AgentRole.explorer ∷ [])
        "System design, trade-offs, research"
    ∷ rule file_finding AgentRole.explorer
        (AgentRole.architect ∷ AgentRole.coder ∷ AgentRole.tester ∷ AgentRole.writer
          ∷ AgentRole.linter ∷ AgentRole.git ∷ AgentRole.scraper ∷ AgentRole.mcp_specialist
          ∷ AgentRole.release ∷ [])
        "ONLY glob/find operations — no analysis"
    ∷ rule testing AgentRole.tester (AgentRole.coder ∷ []) "Test writing and test execution"
    ∷ rule linting AgentRole.linter (AgentRole.coder ∷ AgentRole.architect ∷ AgentRole.tester ∷ [])
        "Code style enforcement"
    ∷ rule git AgentRole.git
        (AgentRole.coder ∷ AgentRole.architect ∷ AgentRole.tester ∷ AgentRole.linter ∷ [])
        "Commits, branches, tags"
    ∷ rule documentation AgentRole.writer (AgentRole.explorer ∷ []) "Markdown, README, docs"
    ∷ rule web_scraping AgentRole.scraper (AgentRole.explorer ∷ []) "URL fetching, data extraction"
    ∷ rule mcp_debug AgentRole.mcp_specialist (AgentRole.explorer ∷ [])
        "MCP protocol, server issues"
    ∷ rule release AgentRole.release
        (AgentRole.coder ∷ AgentRole.architect ∷ AgentRole.tester ∷ AgentRole.linter
          ∷ AgentRole.explorer ∷ AgentRole.scraper ∷ AgentRole.writer ∷ AgentRole.git
          ∷ AgentRole.mcp_specialist ∷ [])
        "Version bumps, changelogs"
    ∷ []

-- The loop of `init`, over the map that has been built.
build : List (TaskType × RoutingRule) → List RoutingRule → List (TaskType × RoutingRule)
unfolding insert TaskType-discrete
build m [] = m
build m (r ∷ rs) = build (insert r.task_type r m) rs

-- routingByType
routing_by_type : List (TaskType × RoutingRule)
unfolding build routing_matrix
routing_by_type = build [] routing_matrix

abbrev agent_of : Option RoutingRule → Option AgentRole
agent_of none = none
agent_of (some r) = some r.agent

-- `none` is the error "no routing rule for task type".
unfoldable pub resolve_agent : TaskType → Option AgentRole
unfolding routing_by_type lookup TaskType-discrete
resolve_agent task_type = agent_of (lookup task_type routing_by_type)

pub is_forbidden_agent : TaskType → AgentRole → Bool
unfolding routing_by_type lookup TaskType-discrete AgentRole-discrete
is_forbidden_agent task_type agent = elim (lookup task_type routing_by_type) [
  | none ↦ false
  | some r ↦ contains agent r.forbidden_agents
]

pub get_routing_rule : TaskType → Option RoutingRule
unfolding routing_by_type lookup TaskType-discrete
get_routing_rule task_type = lookup task_type routing_by_type

abbrev validate : TaskType → AgentRole → Option RoutingRule → RoutingValidation
validate t a none = record { valid = true; expected_agent = none; violation = no_violation }
validate t a (some r) =
    if not (r.agent == a)
    then record {
      valid = false;
      expected_agent = some r.agent;
      violation = wrong_agent t r.agent a;
    }
    else if contains a r.forbidden_agents
    then record { valid = false; expected_agent = some r.agent; violation = forbidden_agent a t }
    else record { valid = true; expected_agent = some r.agent; violation = no_violation }

pub validate_routing : TaskType → AgentRole → RoutingValidation
unfolding routing_by_type lookup TaskType-discrete
validate_routing task_type agent = validate task_type agent (lookup task_type routing_by_type)

-- RouteAgentToTaskType
unfoldable pub route_agent_to_task_type : AgentRole → TaskType
route_agent_to_task_type AgentRole.coder = code_impl
route_agent_to_task_type AgentRole.architect = arch_design
route_agent_to_task_type AgentRole.explorer = file_finding
route_agent_to_task_type AgentRole.tester = testing
route_agent_to_task_type AgentRole.linter = linting
route_agent_to_task_type AgentRole.git = git
route_agent_to_task_type AgentRole.writer = documentation
route_agent_to_task_type AgentRole.scraper = web_scraping
route_agent_to_task_type AgentRole.mcp_specialist = mcp_debug
route_agent_to_task_type AgentRole.release = release
route_agent_to_task_type _ = arch_design

abbrev Fits : TaskType → Option AgentRole → Type 0
Fits t none = (a : AgentRole) → (validate_routing t a).valid ≡ true
Fits t (some a) = ((validate_routing t a).valid ≡ true) × (is_forbidden_agent t a ≡ false)

resolved-Fits : (t : TaskType) → Fits t (resolve_agent t)
unfolding resolve_agent validate_routing is_forbidden_agent AgentRole-discrete
resolved-Fits code_impl = (refl, refl)
resolved-Fits (TaskType.other s) = λ a. refl
resolved-Fits _ = (refl, refl)

-- The agent that a task type is routed to is never forbidden for it, and the assignment is valid.
pub resolve_agent-valid :
    (t : TaskType) (a : AgentRole)
    → resolve_agent t ≡ some a
    → ((validate_routing t a).valid ≡ true) × (is_forbidden_agent t a ≡ false)
resolve_agent-valid t a h = subst (Fits t) h (resolved-Fits t)

validate-valid :
    (t : TaskType) (a : AgentRole) (o : Option RoutingRule)
    → (validate t a o).valid ≡ true
    → (o ≡ none) ⊎ (agent_of o ≡ some a)
validate-valid t a none h = inl refl
validate-valid t a (some r) h = ground (arith, ==_iff r.agent a)

-- An assignment is valid exactly when the task type has no rule, or when the rule's agent is the
-- one assigned: the test for forbidden agents rejects nothing more.
pub validate_routing-valid_iff :
    (t : TaskType) (a : AgentRole)
    → ((validate_routing t a).valid ≡ true)
      ↔ ((resolve_agent t ≡ none) ⊎ (resolve_agent t ≡ some a))
unfolding validate_routing resolve_agent
validate_routing-valid_iff t a = (
  λ h. ground (arith, validate-valid t a (lookup t routing_by_type) h),
  elim [ inl e ↦ subst (Fits t) e (resolved-Fits t) a | inr e ↦ (resolve_agent-valid t a e).0 ],
)

-- The agent that `entryToTask` and `ResolveAgent` together give: an agent with a task type of its
-- own comes back, and all others become the architect.
pub resolve_agent-route_agent_to_task_type :
    (a : AgentRole)
    → resolve_agent (route_agent_to_task_type a)
      ≡ some (elim a [
        | AgentRole.orchestrator ↦ AgentRole.architect
        | AgentRole.reviewer ↦ AgentRole.architect
        | AgentRole.other s ↦ AgentRole.architect
        | b ↦ b
      ])
unfolding resolve_agent route_agent_to_task_type
resolve_agent-route_agent_to_task_type AgentRole.orchestrator = refl
resolve_agent-route_agent_to_task_type _ = refl

abbrev Returns : TaskType → Option AgentRole → Type 0
Returns t none = Unit
Returns t (some a) = route_agent_to_task_type a ≡ t

resolved-Returns : (t : TaskType) → Returns t (resolve_agent t)
unfolding resolve_agent route_agent_to_task_type
resolved-Returns code_impl = refl
resolved-Returns (TaskType.other s) = tt
resolved-Returns _ = refl

-- No two task types share an agent: the agent of a rule leads back to the rule's task type.
pub route_agent_to_task_type-resolve_agent :
    (t : TaskType) (a : AgentRole) → resolve_agent t ≡ some a → route_agent_to_task_type a ≡ t
route_agent_to_task_type-resolve_agent t a h = subst (Returns t) h (resolved-Returns t)
