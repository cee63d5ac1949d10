-- ===== src/Orchestrator/Runner/Dispatch.antt =====
-- `dispatchGroup` and `Dispatch` as a machine: the groups of a plan one after the other, each with
-- the moves of its pool, and a look at the context after each.
use neuralgentics.Prelude.{
  ℕ, suc, ◌<◌, String, ◌≡◌, List, [], ◌∷◌, ◌++◌, Option, none, some, length,
}
use neuralgentics.Orchestrator.Types.{TaskPlan, FineGrainedTaskEntry}
use neuralgentics.Orchestrator.Graph.{Outcome, done, cycle, out_of_fuel, get_parallel_groups}
use neuralgentics.Orchestrator.Runner.{DispatchResult, tasks_to_entries, workers_for}
use neuralgentics.Orchestrator.Runner.Pool.{Pool, opened, PoolStep, IsFinished}

abbrev pub Groups : Type 0
Groups = List (List FineGrainedTaskEntry)

-- How `Dispatch` ends: without an error, with the error of the grouping, or with that of the context.
-- A grouping out of fuel does not happen.
pub data Ending : Type 0 where
  finished no_fuel : Ending
  cyclic : String → Ending
  stopped_by : String → Ending

-- Where `Dispatch` stands, with the results so far: before group number `k`, with the groups from it
-- on; in the pool of that group, with the groups behind it; after the group, before the look at
-- the context; or at its end.
pub data Doing : Type 0 where
  ready : (k : ℕ) → Groups → List DispatchResult → Doing
  pooling : (k : ℕ) → List FineGrainedTaskEntry → Groups → List DispatchResult → Pool → Doing
  looks : (k : ℕ) → Groups → List DispatchResult → Doing
  ended : List DispatchResult → Ending → Doing

abbrev pub begun : Outcome Groups → Doing
begun (done groups) = ready 0 groups []
begun (cycle id) = ended [] (cyclic id)
begun out_of_fuel = ended [] no_fuel

unfoldable pub dispatch_start : TaskPlan → Doing
unfolding get_parallel_groups tasks_to_entries
dispatch_start plan = begun (get_parallel_groups (tasks_to_entries plan.tasks plan.dependencies))

-- One step, where `ctx_err` is the error of the context after a group, and `job` the result of a task.
module _ (job : FineGrainedTaskEntry → DispatchResult) (most : ℕ)
    (ctx_err : ℕ → Option String) where
  pub data Step : Doing → Doing → Type 0 where
    no_more : {k : ℕ} {rs : List DispatchResult} → Step (ready k [] rs) (ended rs finished)
    empty :
        {k : ℕ} {groups : Groups} {rs : List DispatchResult}
        → Step (ready k ([] ∷ groups) rs) (looks k groups rs)
    alone :
        {k : ℕ} {e : FineGrainedTaskEntry} {groups : Groups} {rs : List DispatchResult}
        → Step (ready k ((e ∷ []) ∷ groups) rs) (looks k groups (rs ++ job e ∷ []))
    opens :
        {k : ℕ} {group : List FineGrainedTaskEntry} {groups : Groups} {rs : List DispatchResult}
        → 1 < length group
        → Step (ready k (group ∷ groups) rs) (pooling k group groups rs (opened group))
    moves :
        {k : ℕ} {group : List FineGrainedTaskEntry} {groups : Groups} {rs : List DispatchResult}
        {p q : Pool}
        → PoolStep job group (workers_for most group) p q
        → Step (pooling k group groups rs p) (pooling k group groups rs q)
    closes :
        {k : ℕ} {group : List FineGrainedTaskEntry} {groups : Groups} {rs : List DispatchResult}
        {p : Pool}
        → IsFinished p
        → Step (pooling k group groups rs p) (looks k groups (rs ++ p.final_results))
    stops :
        {k : ℕ} {groups : Groups} {rs : List DispatchResult} {e : String}
        → ctx_err k ≡ some e
        → Step (looks k groups rs) (ended rs (stopped_by e))
    goes_on :
        {k : ℕ} {groups : Groups} {rs : List DispatchResult}
        → ctx_err k ≡ none
        → Step (looks k groups rs) (ready (suc k) groups rs)

  pub data Run (s : Doing) : ℕ → Doing → Type 0 where
    here : Run s 0 s
    next : {n : ℕ} {t u : Doing} → Run s n t → Step t u → Run s (suc n) u
