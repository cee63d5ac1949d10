-- ===== src/Orchestrator/Runner.antt =====
-- The TaskRunner of task_runner.go. The dispatch callback and `BuildContextPackage` are parameters:
-- each gives a value or an error for its arguments. The worker pool is a step relation, since its
-- goroutines run in any order.
pub mod Pool
pub mod Invariant
pub mod Results
pub mod Dispatch
pub mod Ends
pub mod Coders
use Prim.Native.String.{◌++◌ as append}
use neuralgentics.Prelude.{
  ℕ, ◌<◌, suc, ℤ, positive_or, String, ◌≡◌, Bool, true, false, List, [], ◌∷◌, ◌++◌, Option, none,
  some, lookup, length, In, map, get_elem?, ltb, if◌then◌else◌, string_comparable,
}
use neuralgentics.Orchestrator.Types.{
  Task, TaskType, AgentRole, TaskPlan, FineGrainedTaskEntry, pending,
}
use neuralgentics.Orchestrator.Routing.{resolve_agent, route_agent_to_task_type}
use neuralgentics.Orchestrator.Graph.{get_parallel_groups, done, cycle}

pub data Fallible {ℓ} (A : Type ℓ) : Type ℓ where
  returns : A → Fallible A
  fails : String → Fallible A

pub record DispatchResult : Type 0 where
  pub task_id : String
  pub agent : AgentRole
  pub success : Bool
  pub error : String
  pub duration : ℕ
  pub memory_id : String
  pub description : String

-- The text of an agent.
pub agent_name : AgentRole → String
agent_name AgentRole.orchestrator = "orchestrator"
agent_name AgentRole.architect = "architect"
agent_name AgentRole.coder = "coder"
agent_name AgentRole.reviewer = "reviewer"
agent_name AgentRole.explorer = "explorer"
agent_name AgentRole.tester = "tester"
agent_name AgentRole.linter = "linter"
agent_name AgentRole.git = "git"
agent_name AgentRole.writer = "writer"
agent_name AgentRole.scraper = "scraper"
agent_name AgentRole.mcp_specialist = "mcp-specialist"
agent_name AgentRole.release = "release"
agent_name (AgentRole.other s) = s

-- deps[id]
abbrev listed : Option (List String) → List String
listed none = []
listed (some ids) = ids

-- One round of the loop of `tasksToEntries`.
pub task_to_entry : List (String × List String) → Task → FineGrainedTaskEntry
unfolding lookup
task_to_entry deps t = record {
  id = t.id;
  target_file = "";
  entry_type = "";
  agent = AgentRole.coder;
  scope = record { in_scope = []; out_scope = [] };
  depends_on = listed (lookup t.id deps);
  status = pending;
  priority = t.priority;
  estimated_tokens = 0;
  dispatch_count = 0;
  max_dispatches = 3;
  is_delta_task = false;
  parent_task_id = "";
  resolved_blocker_id = "";
  design_doc_id = "";
  result_memory_id = "";
}

unfoldable pub tasks_to_entries :
    List Task → List (String × List String) → List FineGrainedTaskEntry
unfolding task_to_entry
tasks_to_entries tasks deps = map (task_to_entry deps) tasks

pub entry_to_task : FineGrainedTaskEntry → Task
unfolding agent_name
entry_to_task e =
    let text = append "Task " (append e.id (append " for " (agent_name e.agent))) in
    record {
      id = e.id;
      kind = route_agent_to_task_type e.agent;
      task_description = text;
      user_request = text;
      priority = e.priority;
      files = [];
      dependencies = [];
    }

-- ResolveAgent, or the architect where it fails.
abbrev pub agent_or_architect : Option AgentRole → AgentRole
agent_or_architect none = AgentRole.architect
agent_or_architect (some a) = a

abbrev failure : Task → AgentRole → String → DispatchResult
failure t a e = record {
  task_id = t.id;
  agent = a;
  success = false;
  error = e;
  duration = 0;
  memory_id = "";
  description = "";
}

-- The zero value, which fills `finalResults` at first.
abbrev pub no_result : DispatchResult
no_result = record {
  task_id = "";
  agent = AgentRole.other "";
  success = false;
  error = "";
  duration = 0;
  memory_id = "";
  description = "";
}

-- NewTaskRunner: the limit on concurrent tasks.
abbrev pub max_concurrent : ℤ → ℕ
max_concurrent n = positive_or 5 n

-- min(len(group), tr.maxConcurrent)
abbrev pub workers_for : ℕ → List FineGrainedTaskEntry → ℕ
workers_for most group = if ltb (length group) most then length group else most

module _ {Package : Type 0} (build_context : Task → AgentRole → Fallible Package)
    (dispatch : Task → AgentRole → Package → Fallible DispatchResult) where
  abbrev dispatched : Task → AgentRole → Fallible Package → DispatchResult
  dispatched t a (fails e) = failure t a e
  dispatched t a (returns context) = elim (dispatch t a context) [
    | returns result ↦ result
    | fails e ↦ failure t a e
  ]

  -- What `dispatchGroup` does with one entry, in its branch for one task and in a worker.
  pub run_entry : FineGrainedTaskEntry → DispatchResult
  unfolding entry_to_task
  run_entry e =
      let t = entry_to_task e in
      let a = agent_or_architect (resolve_agent t.kind) in dispatched t a (build_context t a)
