-- ===== src/Orchestrator/Examples/Dispatching.antt =====
-- Runs of the task runner.
use neuralgentics.Prelude.{
  concat, refl, Option, map, none, ℕ, arith, String, ◌≡◌, List, [], ◌∷◌, string_comparable,
}
use neuralgentics.Orchestrator.Runner.{
  Fallible, returns, fails, DispatchResult, run_entry, workers_for, tasks_to_entries,
}
use neuralgentics.Orchestrator.Runner.Pool.{PoolStep, Pool, opened}
use neuralgentics.Orchestrator.Runner.Dispatch.{Doing, Ending, Step, Run, dispatch_start}
use neuralgentics.Orchestrator.Runner.Coders.{dispatch_to_coder}
use neuralgentics.Orchestrator.Runner.Ends.{Ends, dispatch_start-Ends}
use neuralgentics.Orchestrator.Types.{
  Task, TaskPlan, TaskType, AgentRole, Priority, FineGrainedTaskEntry,
}
use neuralgentics.Orchestrator.Graph.{get_parallel_groups}

abbrev builds : Task → AgentRole → Fallible String
builds t a = returns "context"

abbrev sends_back : Task → AgentRole → String → Fallible DispatchResult
sends_back t a context = fails "timeout"

abbrev work : FineGrainedTaskEntry → DispatchResult
work = run_entry builds sends_back

abbrev test_task : String → Task
test_task id = record {
  id = id;
  kind = TaskType.testing;
  task_description = "";
  user_request = "";
  priority = Priority.high;
  files = [];
  dependencies = [];
}

-- Two tasks that form one group.
abbrev whole_plan : TaskPlan
whole_plan = record { tasks = test_task "a" ∷ test_task "b" ∷ []; dependencies = [] }

abbrev pair : List FineGrainedTaskEntry
pair = tasks_to_entries whole_plan.tasks whole_plan.dependencies

abbrev never : ℕ → Option String
never k = none

-- A worker takes the first task.
abbrev one_taken : Pool
one_taken = record (opened pair) { jobs = 1 ∷ []; busy = 0 ∷ [] }

first_taken : PoolStep work pair (workers_for 5 pair) (opened pair) one_taken
unfolding opened tasks_to_entries
first_taken = PoolStep.takes 0 (1 ∷ []) refl (omega arith)

-- The first two steps: into the pool of the group, where a worker takes the first task.
abbrev taken : Doing
taken = Doing.pooling 0 pair [] [] one_taken

into_pool : Run work 5 never (dispatch_start whole_plan) 2 taken
unfolding dispatch_start get_parallel_groups tasks_to_entries opened
into_pool = Run.next (Run.next Run.here (Step.opens (omega arith))) (Step.moves first_taken)

dispatch_start-Ends_example :
    Ends work 5 never
      (get_parallel_groups (tasks_to_entries whole_plan.tasks whole_plan.dependencies))
      2
      taken
dispatch_start-Ends_example =
    dispatch_start-Ends work 5 never (omega arith) whole_plan 2 taken into_pool

-- A callback that knows the coder alone.
abbrev coders_only : Task → AgentRole → String → Fallible DispatchResult
coders_only t AgentRole.coder context = fails "timeout"
coders_only t a context = fails "no such agent"

abbrev one_test : TaskPlan
one_test = record { tasks = test_task "a" ∷ []; dependencies = [] }

abbrev one_entry : List FineGrainedTaskEntry
one_entry = tasks_to_entries one_test.tasks one_test.dependencies

one_run :
    Run work 5 never (dispatch_start one_test) 3 (Doing.ended (map work one_entry) Ending.finished)
unfolding dispatch_start get_parallel_groups tasks_to_entries
one_run = Run.next (Run.next (Run.next Run.here Step.alone) (Step.goes_on refl)) Step.no_more

dispatch_to_coder_example :
    map work one_entry ≡ map (run_entry builds coders_only) (concat (one_entry ∷ []))
unfolding get_parallel_groups tasks_to_entries
dispatch_to_coder_example =
    dispatch_to_coder builds builds sends_back coders_only (λ t. refl) (λ t c. refl) 5 never
      one_test (one_entry ∷ []) 3 (map work one_entry) (omega arith) refl one_run
