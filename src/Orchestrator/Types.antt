-- ===== src/Orchestrator/Types.antt =====
-- types.go: the data that the orchestrator's parts share. Go's string types with named constants
-- are enumerations with one more constructor for any other text.
use neuralgentics.Prelude.{
  ℕ, String, Bool, true, false, List, [], ◌∷◌, Comparable, comparable_of, String-discrete, Option,
  none, some, lookup,
}

pub data TaskType : Type 0 where
  code_impl arch_design file_finding testing linting git documentation web_scraping : TaskType
  mcp_debug release : TaskType
  other : String → TaskType

pub data AgentRole : Type 0 where
  orchestrator architect coder reviewer explorer tester linter git writer scraper : AgentRole
  mcp_specialist release : AgentRole
  other : String → AgentRole

pub data Priority : Type 0 where
  low medium high : Priority
  other : String → Priority

pub data TaskStatus : Type 0 where
  pending ready active blocked resolving dependency_building resumed : TaskStatus
  complete failed cancelled : TaskStatus
  other : String → TaskStatus

unfoldable pub TaskType-discrete : Discrete TaskType
TaskType-discrete = hlevel String-discrete

unfoldable pub AgentRole-discrete : Discrete AgentRole
AgentRole-discrete = hlevel String-discrete

unfoldable pub TaskStatus-discrete : Discrete TaskStatus
TaskStatus-discrete = hlevel String-discrete

instance abbrev pub task_type_comparable : Comparable TaskType
unfolding TaskType-discrete
task_type_comparable = comparable_of TaskType-discrete

instance abbrev pub agent_role_comparable : Comparable AgentRole
unfolding AgentRole-discrete
agent_role_comparable = comparable_of AgentRole-discrete

instance abbrev pub task_status_comparable : Comparable TaskStatus
unfolding TaskStatus-discrete
task_status_comparable = comparable_of TaskStatus-discrete

pub record RoutingRule : Type 0 where
  pub task_type : TaskType
  pub agent : AgentRole
  pub forbidden_agents : List AgentRole
  pub description : String

-- `Violation` is a message; which of the two messages it is stands here.
pub data Violation : Type 0 where
  no_violation : Violation
  wrong_agent : TaskType → AgentRole → AgentRole → Violation
  forbidden_agent : AgentRole → TaskType → Violation

-- An `ExpectedAgent` of "" is `none`.
pub record RoutingValidation : Type 0 where
  pub valid : Bool
  pub expected_agent : Option AgentRole
  pub violation : Violation

pub record FileLock : Type 0 where
  pub task_id : String
  pub status : TaskStatus
  pub acquired_at : ℕ

-- TerminalStatuses
unfoldable pub terminal_statuses : List (TaskStatus × Bool)
terminal_statuses = (complete, true) ∷ (failed, true) ∷ (cancelled, true) ∷ []

-- A read of a map of Booleans gives false for a missing key.
abbrev pub flag : Option Bool → Bool
flag none = false
flag (some b) = b

-- TerminalStatuses[s]
unfoldable pub is_terminal_status : TaskStatus → Bool
unfolding terminal_statuses TaskStatus-discrete lookup
is_terminal_status s = flag (lookup s terminal_statuses)

pub record Task : Type 0 where
  pub id : String
  pub kind : TaskType
  pub task_description : String
  pub user_request : String
  pub priority : Priority
  pub files : List String
  pub dependencies : List String

pub record ScopeBoundaries : Type 0 where
  pub in_scope : List String
  pub out_scope : List String

pub record FineGrainedTaskEntry : Type 0 where
  pub id : String
  pub target_file : String
  pub entry_type : String
  pub agent : AgentRole
  pub scope : ScopeBoundaries
  pub depends_on : List String
  pub status : TaskStatus
  pub priority : Priority
  pub estimated_tokens : ℕ
  pub dispatch_count : ℕ
  pub max_dispatches : ℕ
  pub is_delta_task : Bool
  pub parent_task_id : String
  pub resolved_blocker_id : String
  pub design_doc_id : String
  pub result_memory_id : String

pub record TaskPlan : Type 0 where
  pub tasks : List Task
  pub dependencies : List (String × List String)
