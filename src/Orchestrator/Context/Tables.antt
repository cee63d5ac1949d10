-- ===== src/Orchestrator/Context/Tables.antt =====
-- context_builder.go: what a task type and an agent determine of the context package.
use Prim.Native.String.{◌++◌ as append}
use neuralgentics.Prelude.{String, Bool, false, [], ◌∷◌, Option, none, some, ◌==◌, if◌then◌else◌}
use neuralgentics.Orchestrator.Types.{
  TaskType, AgentRole, ScopeBoundaries, agent_role_comparable, AgentRole-discrete, code_impl,
  arch_design, file_finding, testing, linting, git, documentation, web_scraping, mcp_debug, release,
}
use neuralgentics.Orchestrator.Routing.{resolve_agent}

-- The `switch`, with the test whether the agent is the one that the type is routed to.
scope_of : TaskType → Bool → ScopeBoundaries
scope_of code_impl same = record {
  in_scope = "Write/edit code" ∷ "Implement features" ∷ "Fix bugs" ∷ [];
  out_scope = if same then "Architecture decisions" ∷ "Test infrastructure design" ∷ [] else [];
}
scope_of arch_design same = record {
  in_scope = "System design" ∷ "Trade-off analysis" ∷ "Research" ∷ [];
  out_scope = "Code implementation" ∷ "File finding" ∷ [];
}
scope_of testing same = record {
  in_scope = "Write tests" ∷ "Run tests" ∷ "Coverage analysis" ∷ [];
  out_scope = "Implementation changes" ∷ [];
}
scope_of file_finding same = record {
  in_scope = "Glob/find files by name" ∷ "Map directory structure" ∷ [];
  out_scope = "Code analysis" ∷ "Pattern detection" ∷ "Research" ∷ [];
}
scope_of linting same = record {
  in_scope = "Lint code" ∷ "Format code" ∷ "Style checks" ∷ [];
  out_scope = "Code changes" ∷ "Architecture" ∷ [];
}
scope_of git same = record {
  in_scope = "Commits" ∷ "Branches" ∷ "Tags" ∷ "Push/Pull" ∷ [];
  out_scope = "Code implementation" ∷ "Testing" ∷ [];
}
scope_of documentation same = record {
  in_scope = "Markdown" ∷ "README" ∷ "API docs" ∷ [];
  out_scope = "Code implementation" ∷ [];
}
scope_of web_scraping same = record {
  in_scope = "URL fetching" ∷ "Data extraction" ∷ "Research" ∷ [];
  out_scope = "Code implementation" ∷ [];
}
scope_of mcp_debug same = record {
  in_scope = "MCP protocol" ∷ "Server debugging" ∷ "Schema validation" ∷ [];
  out_scope = "Feature implementation" ∷ [];
}
scope_of release same = record {
  in_scope = "Version bumps" ∷ "Changelogs" ∷ "Git tags" ∷ [];
  out_scope = "Feature implementation" ∷ "Testing" ∷ [];
}
scope_of (TaskType.other s) same = record { in_scope = append s " tasks" ∷ []; out_scope = [] }

abbrev is_agent : AgentRole → Option AgentRole → Bool
is_agent agent none = false
is_agent agent (some resolved) = resolved == agent

unfoldable pub resolve_scope_boundaries : TaskType → AgentRole → ScopeBoundaries
unfolding scope_of resolve_agent AgentRole-discrete
resolve_scope_boundaries kind agent = scope_of kind (is_agent agent (resolve_agent kind))

unfoldable pub resolve_expected_output : TaskType → String
resolve_expected_output code_impl = "Modified files with implementation, 100-300 word summary"
resolve_expected_output arch_design = "Design document with trade-offs and recommendations"
resolve_expected_output file_finding = "List of file paths matching query"
resolve_expected_output testing = "Test files with coverage summary"
resolve_expected_output linting = "Linting results and auto-fixes applied"
resolve_expected_output git = "Git operation result (commit hash, branch name, etc.)"
resolve_expected_output documentation = "Markdown documentation files"
resolve_expected_output web_scraping = "Summary of work completed"
resolve_expected_output mcp_debug = "Summary of work completed"
resolve_expected_output release = "Version bump, changelog, git tag"
resolve_expected_output (TaskType.other s) = "Summary of work completed"

unfoldable pub resolve_error_handling : TaskType → String
resolve_error_handling code_impl =
    "Type errors -> fix types. Runtime errors -> add guards. Never swallow exceptions."
resolve_error_handling arch_design =
    "Log errors, never swallow exceptions. Escalate to orchestrator if blocked."
resolve_error_handling file_finding =
    "Log errors, never swallow exceptions. Escalate to orchestrator if blocked."
resolve_error_handling testing = "Flaky tests -> add retries. Missing deps -> skip with warning."
resolve_error_handling linting =
    "Log errors, never swallow exceptions. Escalate to orchestrator if blocked."
resolve_error_handling git =
    "Log errors, never swallow exceptions. Escalate to orchestrator if blocked."
resolve_error_handling documentation =
    "Log errors, never swallow exceptions. Escalate to orchestrator if blocked."
resolve_error_handling web_scraping =
    "Log errors, never swallow exceptions. Escalate to orchestrator if blocked."
resolve_error_handling mcp_debug =
    "Log errors, never swallow exceptions. Escalate to orchestrator if blocked."
resolve_error_handling release =
    "Log errors, never swallow exceptions. Escalate to orchestrator if blocked."
resolve_error_handling (TaskType.other s) =
    "Log errors, never swallow exceptions. Escalate to orchestrator if blocked."

unfoldable pub agent_role_to_skill_name : AgentRole → String
agent_role_to_skill_name AgentRole.orchestrator = "orchestrator"
agent_role_to_skill_name AgentRole.architect = "boomerang-architect"
agent_role_to_skill_name AgentRole.coder = "boomerang-coder"
agent_role_to_skill_name AgentRole.reviewer = "boomerang-architect"
agent_role_to_skill_name AgentRole.explorer = "boomerang-explorer"
agent_role_to_skill_name AgentRole.tester = "boomerang-tester"
agent_role_to_skill_name AgentRole.linter = "boomerang-linter"
agent_role_to_skill_name AgentRole.git = "boomerang-git"
agent_role_to_skill_name AgentRole.writer = "boomerang-writer"
agent_role_to_skill_name AgentRole.scraper = "boomerang-scraper"
agent_role_to_skill_name AgentRole.mcp_specialist = "mcp-specialist"
agent_role_to_skill_name AgentRole.release = "boomerang-release"
agent_role_to_skill_name (AgentRole.other s) = s
