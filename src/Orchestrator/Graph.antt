-- ===== src/Orchestrator/Graph.antt =====
-- `GetParallelGroups` of task_runner.go: depths with cycle detection, and parallel groups.
-- `computeDepth` takes fuel, a call for each level; on the fuel see `Graph.Fuel`.
pub mod Depth
pub mod Frame
pub mod Fuel
pub mod Cycles
pub mod Distinct
pub mod Groups
pub mod Order
use neuralgentics.Prelude.{
  ℕ, zero, suc, ◌+◌, ◌-◌, ◌≤◌, ◌<◌, String, ◌≡◌, Bool, true, false, not, List, [], ◌∷◌, ◌++◌,
  Option, none, some, ◌==◌, string_comparable, number_comparable, lookup, insert, length, ltb, leb,
  if◌then◌else◌, select, contains,
}
use neuralgentics.Orchestrator.Types.{
  TaskStatus, FineGrainedTaskEntry, pending, blocked, complete, flag, task_status_comparable,
  TaskStatus-discrete,
}

-- `taskMap`: a later entry with the same id replaces an earlier one.
unfoldable pub task_map_from :
    List (String × FineGrainedTaskEntry)
    → List FineGrainedTaskEntry
    → List (String × FineGrainedTaskEntry)
task_map_from m [] = m
task_map_from m (t ∷ ts) = task_map_from (insert t.id t m) ts

unfoldable pub task_map : List FineGrainedTaskEntry → List (String × FineGrainedTaskEntry)
unfolding task_map_from insert
task_map tasks = task_map_from [] tasks

abbrev pub DepsMap : Type 0
DepsMap = List (String × FineGrainedTaskEntry)

abbrev pub entry_deps : Option FineGrainedTaskEntry → List String
entry_deps none = []
entry_deps (some t) = t.depends_on

-- The prerequisites of a task; none for an id that is no task.
unfoldable pub deps_of : DepsMap → String → List String
deps_of m id = entry_deps (lookup id m)

-- The two maps that the closure `computeDepth` shares.
pub record DepthState : Type 0 where
  pub depths : List (String × ℕ)
  pub computing : List (String × Bool)

pub data Outcome {ℓ} (A : Type ℓ) : Type ℓ where
  done : A → Outcome A
  cycle : String → Outcome A
  out_of_fuel : Outcome A

infixl 5 ◌>>=◌
abbrev pub ◌>>=◌ {ℓ κ} : {A : Type ℓ} {B : Type κ} → Outcome A → (A → Outcome B) → Outcome B
done a >>= f = f a
cycle id >>= f = cycle id
out_of_fuel >>= f = out_of_fuel

-- if d > maxDepDepth { maxDepDepth = d }
abbrev pub larger : ℕ → ℕ → ℕ
larger m d = if ltb m d then d else m

abbrev pub Visit : Type 0
Visit = String → DepthState → Outcome (ℕ × DepthState)

-- The loop over the prerequisites, with the recursive call as an argument.
pub deps_depth : Visit → List String → ℕ → DepthState → Outcome (ℕ × DepthState)
deps_depth visit [] m st = done (m, st)
deps_depth visit (id ∷ ids) m st = visit id st >>= λ r. deps_depth visit ids (larger m r.0) r.1

abbrev pub marked : String → DepthState → Bool
marked id st = flag (lookup id st.computing)

abbrev pub start : String → DepthState → DepthState
start id st = record st { computing = insert id true st.computing }

abbrev pub finish : String → ℕ → DepthState → DepthState
finish id d st = record { depths = insert id d st.depths; computing = insert id false st.computing }

-- The tail of `computeDepth`, where the task has prerequisites or has none.
pub expand : Visit → String → List String → DepthState → Outcome (ℕ × DepthState)
unfolding deps_depth
expand visit id [] st = done (0, finish id 0 st)
expand visit id (x ∷ xs) st =
    deps_depth visit (x ∷ xs) 0 st >>= λ r. done (r.0 + 1, finish id (r.0 + 1) r.1)

-- The head of `computeDepth`, after the look at `depths`.
pub unknown : DepsMap → Visit → String → DepthState → Bool → Outcome (ℕ × DepthState)
unfolding expand deps_of
unknown m visit id st true = cycle id
unknown m visit id st false = expand visit id (deps_of m id) (start id st)

pub known : DepsMap → Visit → String → DepthState → Option ℕ → Outcome (ℕ × DepthState)
unfolding unknown
known m visit id st (some d) = done (d, st)
known m visit id st none = unknown m visit id st (marked id st)

pub compute_depth : ℕ → DepsMap → Visit
unfolding known lookup insert
compute_depth zero m id st = out_of_fuel
compute_depth (suc fuel) m id st =
    known m (λ j s. compute_depth fuel m j s) id st (lookup id st.depths)

-- The loop that computes the depth of every task.
pub compute_all : ℕ → DepsMap → List FineGrainedTaskEntry → DepthState → Outcome DepthState
unfolding compute_depth
compute_all fuel m [] st = done st
compute_all fuel m (t ∷ ts) st = compute_depth fuel m t.id st >>= λ r. compute_all fuel m ts r.1

-- The largest value of the map, by its loop.
max_depth : ℕ → List (String × ℕ) → ℕ
max_depth m [] = m
max_depth m ((id, d) ∷ rest) = max_depth (larger m d) rest

-- depths[id]
abbrev pub depth_or_zero : Option ℕ → ℕ
depth_or_zero none = 0
depth_or_zero (some d) = d

abbrev pub at_depth : List (String × ℕ) → ℕ → FineGrainedTaskEntry → Bool
at_depth depths d t = depth_or_zero (lookup t.id depths) == d

abbrev pub nonempty :
    List FineGrainedTaskEntry → List (List FineGrainedTaskEntry) → List (List FineGrainedTaskEntry)
nonempty [] groups = groups
nonempty (t ∷ ts) groups = (t ∷ ts) ∷ groups

-- The loop from depth `d` on, for the given number of rounds.
pub groups_from :
    List FineGrainedTaskEntry → List (String × ℕ) → ℕ → ℕ → List (List FineGrainedTaskEntry)
groups_from tasks depths d zero = []
groups_from tasks depths d (suc rounds) =
    nonempty (select (at_depth depths d) tasks) (groups_from tasks depths (suc d) rounds)

abbrev pub fresh_state : DepthState
fresh_state = record { depths = []; computing = [] }

-- One call more than there are ids of tasks.
abbrev pub fuel_for : DepsMap → ℕ
fuel_for m = suc (length m)

unfoldable pub get_parallel_groups :
    List FineGrainedTaskEntry → Outcome (List (List FineGrainedTaskEntry))
unfolding task_map compute_all max_depth groups_from
get_parallel_groups [] = done []
get_parallel_groups (t ∷ ts) =
    let m = task_map (t ∷ ts) in
    compute_all (fuel_for m) m (t ∷ ts) fresh_state >>= λ st.
    done (groups_from (t ∷ ts) st.depths 0 (suc (max_depth 0 st.depths)))
