-- ===== src/Orchestrator/Examples.antt =====
-- The plan on which the examples of the orchestrator run.
mod Locks
mod Protocols
mod Plans
mod Statuses
mod Dispatching
use neuralgentics.Prelude.{
  All, Option, map, none, ℕ, arith, length, ◌*◌, ◌≤◌, ◌<◌, String, ◌≡◌, ◌≢◌, ◌⊎◌, ◌↔◌, inl, inr,
  refl, true, false, List, [], ◌∷◌, some, lookup, In, ◌==◌, ==_iff, string_comparable,
}
use neuralgentics.Orchestrator.Sorting.{ordered, no_fuel, topological_sort}
use neuralgentics.Orchestrator.Sorting.Drain.{InOrder}
use neuralgentics.Orchestrator.Sorting.Complete.{topological_sort-validate_dependency_graph}
use neuralgentics.Orchestrator.Sorting.Sorted.{topological_sort_lem}
use neuralgentics.Orchestrator.Runner.{
  Fallible, returns, fails, DispatchResult, run_entry, tasks_to_entries, task_to_entry,
  entry_to_task, agent_or_architect,
}
use neuralgentics.Orchestrator.Runner.Pool.{Pool, PoolRun, opened, IsFinished}
use neuralgentics.Orchestrator.Runner.Results.{pool_results}
use neuralgentics.Orchestrator.Types.{
  Task, TaskPlan, TaskType, AgentRole, Priority, TaskStatus, pending, ready, active, blocked,
  resolving, dependency_building, resumed, complete, failed, cancelled, is_terminal_status,
  FineGrainedTaskEntry,
}
use neuralgentics.Orchestrator.Status.{
  is_terminal-eq-is_terminal_status, is_terminal, can_transition,
}
use neuralgentics.Orchestrator.Status.Runs.{
  Run, here, next, activations, activations_bound, reachable_can_cancel,
}
use neuralgentics.Orchestrator.Locks.{
  FileOwnershipRegistry, acquire_lock, release_lock, get_owner, get_active_locks,
}
use neuralgentics.Orchestrator.Locks.Laws.{
  acquire_lock_exclusive, acquire_lock_granted, release_lock_owned, acquire_lock_twice,
  get_owner-get_active_locks,
}
use neuralgentics.Orchestrator.Locks.Traces.{acquires, releases, perform_all, lock_is_safe}
use neuralgentics.Orchestrator.Graph.{
  done, cycle, out_of_fuel, get_parallel_groups, task_map, deps_of,
}
use neuralgentics.Orchestrator.Graph.Fuel.{get_parallel_groups-ne-out_of_fuel}
use neuralgentics.Orchestrator.Graph.Order.{prerequisites_first}
use neuralgentics.Orchestrator.Graph.Cycles.{Needs}
use neuralgentics.Orchestrator.Graph.Groups.{InGroups, Layers, get_parallel_groups_sound}
use neuralgentics.Orchestrator.Ready.{
  find_ready_tasks, status_map, find_ready_tasks_iff, ready_needs_complete,
}
use neuralgentics.Orchestrator.Validation.{validate_dependency_graph}
use neuralgentics.Orchestrator.Validation.Verdict.{IsSoundTask, validate_dependency_graph-valid_iff}
use neuralgentics.Orchestrator.Routing.{
  resolve_agent, is_forbidden_agent, validate_routing, route_agent_to_task_type,
  resolve_agent-valid, validate_routing-valid_iff, resolve_agent-route_agent_to_task_type,
  route_agent_to_task_type-resolve_agent,
}

differ : (a b : String) → (a == b) ≡ false → a ≢ b
differ a b e same = absurd (cc (e, (==_iff a b).1 same))

abbrev entry : String → String → List String → TaskStatus → FineGrainedTaskEntry
entry id file deps status = record {
  id = id;
  target_file = file;
  entry_type = "file";
  agent = AgentRole.coder;
  scope = record { in_scope = []; out_scope = [] };
  depends_on = deps;
  status = status;
  priority = Priority.medium;
  estimated_tokens = 0;
  dispatch_count = 0;
  max_dispatches = 3;
  is_delta_task = false;
  parent_task_id = "";
  resolved_blocker_id = "";
  design_doc_id = "";
  result_memory_id = "";
}

abbrev design : FineGrainedTaskEntry
design = entry "design" "a.md" [] complete

abbrev build : FineGrainedTaskEntry
build = entry "build" "b.go" ("design" ∷ []) pending

abbrev test : FineGrainedTaskEntry
test = entry "test" "c.go" ("build" ∷ "design" ∷ []) pending

abbrev plan : List FineGrainedTaskEntry
plan = test ∷ design ∷ build ∷ []
