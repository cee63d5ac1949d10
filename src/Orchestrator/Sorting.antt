-- ===== src/Orchestrator/Sorting.antt =====
-- `TopologicalSort` of task_runner.go: Kahn's algorithm. The main loop takes fuel, one round for
-- each in-degree and one more, on which see `Sorting.Drain`. An in-degree is a natural number; on
-- its decrements see `Sorting.Release`.
pub mod Weights
pub mod Building
pub mod Origins
pub mod Release
pub mod Drain
pub mod Sorted
pub mod Complete
use neuralgentics.Prelude.{
  ℕ, zero, suc, ◌+◌, ◌-◌, String, Bool, true, false, List, [], ◌∷◌, ◌++◌, Option, none, some, ◌==◌,
  string_comparable, number_comparable, lookup, insert, keys, select, length, if◌then◌else◌,
}
use neuralgentics.Orchestrator.Types.{FineGrainedTaskEntry}
use neuralgentics.Orchestrator.Graph.{DepsMap, task_map}

pub record Edges : Type 0 where
  pub in_degree : List (String × ℕ)
  pub graph : List (String × List String)

abbrev pub degree : Option ℕ → ℕ
degree none = 0
degree (some n) = n

abbrev pub listed : Option (List String) → List String
listed none = []
listed (some ids) = ids

-- graph[id]
unfoldable pub dependents : String → List (String × List String) → List String
dependents id graph = listed (lookup id graph)

-- inDegree[id]
unfoldable pub degree_of : String → List (String × ℕ) → ℕ
degree_of id in_degree = degree (lookup id in_degree)

-- inDegree[task.ID]++; graph[depID] = append(graph[depID], task.ID)
abbrev pub add_edge : String → String → Edges → Edges
add_edge id dep e = record {
  in_degree = insert id (degree_of id e.in_degree + 1) e.in_degree;
  graph = insert dep (dependents dep e.graph ++ id ∷ []) e.graph;
}

unfoldable pub add_deps : String → List String → Edges → Edges
unfolding degree_of dependents insert
add_deps id [] e = e
add_deps id (dep ∷ deps) e = add_deps id deps (add_edge id dep e)

abbrev pub known_id : String → Option ℕ → Edges → Edges
known_id id none e = record e { in_degree = insert id 0 e.in_degree }
known_id id (some n) e = e

unfoldable pub add_tasks : List FineGrainedTaskEntry → Edges → Edges
unfolding add_deps
add_tasks [] e = e
add_tasks (t ∷ ts) e =
    add_tasks ts (add_deps t.id t.depends_on (known_id t.id (lookup t.id e.in_degree) e))

pub record Work : Type 0 where
  pub degrees : List (String × ℕ)
  pub queue : List String

-- inDegree[depID]--; if inDegree[depID] == 0 { queue = append(queue, depID) }
abbrev pub release : String → Work → Work
release id w =
    let left = degree_of id w.degrees - 1 in
    record {
      degrees = insert id left w.degrees;
      queue = if left == 0 then w.queue ++ id ∷ [] else w.queue;
    }

unfoldable pub release_all : List String → Work → Work
unfolding degree_of insert
release_all [] w = w
release_all (id ∷ ids) w = release_all ids (release id w)

-- sorted = append(sorted, *task), for an id that is a task's.
abbrev pub appended :
    List FineGrainedTaskEntry → Option FineGrainedTaskEntry → List FineGrainedTaskEntry
appended sorted none = sorted
appended sorted (some t) = sorted ++ t ∷ []

-- The main loop; `none` when the fuel is out.
unfoldable pub drain :
    ℕ
    → DepsMap
    → List (String × List String)
    → Work
    → List FineGrainedTaskEntry
    → Option (List FineGrainedTaskEntry)
unfolding release_all dependents
drain zero m graph w sorted = none
drain (suc fuel) m graph w sorted = elim w.queue [
  | [] ↦ some sorted
  | current ∷ rest ↦
      drain fuel m graph (release_all (dependents current graph) (record w { queue = rest }))
        (appended sorted (lookup current m))
]

pub data SortOutcome : Type 0 where
  ordered : List FineGrainedTaskEntry → SortOutcome
  cycle_detected : ℕ → ℕ → SortOutcome
  no_fuel : SortOutcome

-- len(sorted) != len(tasks)
abbrev pub concluded : ℕ → Option (List FineGrainedTaskEntry) → SortOutcome
concluded total none = no_fuel
concluded total (some sorted) =
    if length sorted == total then ordered sorted else cycle_detected (length sorted) total

abbrev pub no_edges : Edges
no_edges = record { in_degree = []; graph = [] }

-- The roots are queued in the order of the list of in-degrees, one of the orders in which the source
-- may range over its map.
unfoldable pub topological_sort : List FineGrainedTaskEntry → SortOutcome
unfolding add_tasks drain task_map
topological_sort [] = ordered []
topological_sort (t ∷ ts) =
    let e = add_tasks (t ∷ ts) no_edges in
    let roots = keys (select (λ p. p.1 == 0) e.in_degree) in
    concluded (length (t ∷ ts)) (
      drain (suc (length e.in_degree)) (task_map (t ∷ ts)) e.graph
        (record { degrees = e.in_degree; queue = roots }) [])
