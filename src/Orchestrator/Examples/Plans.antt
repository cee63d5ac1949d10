-- ===== src/Orchestrator/Examples/Plans.antt =====
-- Runs of the dependency graph, of its validation and of its sort.
use neuralgentics.Prelude.{
  All, length, ◌<◌, String, ◌≡◌, ◌≢◌, ◌↔◌, inl, inr, refl, true, List, [], ◌∷◌, some, lookup, In,
  string_comparable,
}
use neuralgentics.Orchestrator.Sorting.{ordered, no_fuel, topological_sort}
use neuralgentics.Orchestrator.Sorting.Drain.{InOrder}
use neuralgentics.Orchestrator.Sorting.Complete.{topological_sort-validate_dependency_graph}
use neuralgentics.Orchestrator.Sorting.Sorted.{topological_sort_lem}
use neuralgentics.Orchestrator.Types.{pending, complete, FineGrainedTaskEntry}
use neuralgentics.Orchestrator.Graph.{done, cycle, out_of_fuel, get_parallel_groups, task_map}
use neuralgentics.Orchestrator.Graph.Fuel.{get_parallel_groups-ne-out_of_fuel}
use neuralgentics.Orchestrator.Graph.Order.{prerequisites_first}
use neuralgentics.Orchestrator.Graph.Cycles.{Needs}
use neuralgentics.Orchestrator.Graph.Distinct.{Requires, get_parallel_groups_cycles}
use neuralgentics.Orchestrator.Graph.Groups.{InGroups, Layers, get_parallel_groups_sound}
use neuralgentics.Orchestrator.Ready.{find_ready_tasks, status_map, find_ready_tasks_iff}
use neuralgentics.Orchestrator.Validation.{validate_dependency_graph}
use neuralgentics.Orchestrator.Validation.Verdict.{IsSoundTask, validate_dependency_graph-valid_iff}
use neuralgentics.Orchestrator.Examples.{entry, design, build, test, plan}

abbrev layers : List (List FineGrainedTaskEntry)
layers = (design ∷ []) ∷ (build ∷ []) ∷ (test ∷ []) ∷ []

plan-layers : get_parallel_groups plan ≡ done layers
unfolding get_parallel_groups
plan-layers = refl

prerequisites_first_example : 0 < 2
prerequisites_first_example =
    prerequisites_first plan layers 2 0 test design (test ∷ []) (design ∷ [])
      (refl, (refl, (refl, tt))) plan-layers refl (inl refl) refl (inl refl) (inr (inl refl))

get_parallel_groups-ne-out_of_fuel_example : get_parallel_groups plan ≢ out_of_fuel
get_parallel_groups-ne-out_of_fuel_example = get_parallel_groups-ne-out_of_fuel plan

get_parallel_groups_sound_example :
    ((t : FineGrainedTaskEntry) → InGroups t layers ↔ In t plan) × Layers (task_map plan) 0 layers
get_parallel_groups_sound_example = get_parallel_groups_sound plan layers plan-layers

abbrev circular : List FineGrainedTaskEntry
circular = entry "a" "" ("b" ∷ []) pending ∷ entry "b" "" ("a" ∷ []) pending ∷ []

get_parallel_groups_cycles_example :
    ((id : String) → get_parallel_groups circular ≡ cycle id → Requires circular id id)
    × ((groups : List (List FineGrainedTaskEntry)) (t : FineGrainedTaskEntry)
        → get_parallel_groups circular ≡ done groups
        → In t circular
        → ¬ Requires circular t.id t.id)
get_parallel_groups_cycles_example = get_parallel_groups_cycles circular (refl, (refl, tt))

circular_cycle : get_parallel_groups circular ≡ cycle "a"
unfolding get_parallel_groups
circular_cycle = refl

build_ready : In build (find_ready_tasks plan)
unfolding status_map lookup
build_ready = (find_ready_tasks_iff plan build).1 (inr (inr (inl refl)), refl, needs)
  where
    needs : (id : String) → In id build.depends_on → lookup id (status_map plan) ≡ some complete
    needs id (inl same) = rw same refl
    needs id (inr k) = absurd k

validate_dependency_graph-valid_iff_example :
    (validate_dependency_graph plan).valid ≡ true
    ↔ ((t : FineGrainedTaskEntry) → In t plan → IsSoundTask plan t)
      × ((id : String) → ¬ Needs (task_map plan) id id)
validate_dependency_graph-valid_iff_example = validate_dependency_graph-valid_iff plan

plan_valid : (validate_dependency_graph plan).valid ≡ true
unfolding validate_dependency_graph get_parallel_groups
plan_valid = refl

topological_sort_lem_example :
    (topological_sort plan ≢ no_fuel)
    × ((sorted : List FineGrainedTaskEntry)
        → topological_sort plan ≡ ordered sorted
        → InOrder [] sorted × All (λ t. In t plan) sorted × (length sorted ≡ length plan))
topological_sort_lem_example = topological_sort_lem plan

plan-sorted : topological_sort plan ≡ ordered (design ∷ build ∷ test ∷ [])
unfolding topological_sort lookup
plan-sorted = refl

topological_sort-validate_dependency_graph_example :
    (sorted : List FineGrainedTaskEntry) × (topological_sort plan ≡ ordered sorted)
topological_sort-validate_dependency_graph_example =
    topological_sort-validate_dependency_graph plan (refl, (refl, (refl, tt))) plan_valid
