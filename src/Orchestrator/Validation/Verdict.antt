-- ===== src/Orchestrator/Validation/Verdict.antt =====
-- What the verdict of `ValidateDependencyGraph` means for the tasks.
use neuralgentics.Prelude.{
  subst, sym, String, ◌≡◌, ◌≢◌, ◌⊎◌, ◌↔◌, refl, true, List, [], ◌∷◌, some, ==_iff,
  string_comparable, lookup, lookup-insert, arith, inl, inr, In, map, Option-cases, String-discrete,
  insert,
}
use neuralgentics.Orchestrator.Types.{FineGrainedTaskEntry}
use neuralgentics.Orchestrator.Graph.{
  Outcome, done, cycle, out_of_fuel, get_parallel_groups, task_map, task_map_from, deps_of,
  entry_deps, DepsMap,
}
use neuralgentics.Orchestrator.Graph.Cycles.{Needs, directly, through, get_parallel_groups-Needs}
use neuralgentics.Orchestrator.Graph.Fuel.{get_parallel_groups-ne-out_of_fuel}
use neuralgentics.Orchestrator.Validation.{
  validate_dependency_graph, task_errors, dep_errors, file_errors, no_errors, cycle_errors,
}
use neuralgentics.Orchestrator.Validation.Errors.{
  IsGoodDep, no_errors-append_iff, dep_errors_iff, file_errors_iff, shares_target_iff,
  task_errors_iff,
}

-- The prerequisites of the task are other tasks of the list, and no other task writes its file.
abbrev pub IsSoundTask : List FineGrainedTaskEntry → FineGrainedTaskEntry → Type 0
IsSoundTask tasks t =
    ((dep : String) → In dep t.depends_on → IsGoodDep (map (λ u. u.id) tasks) t dep)
    × ((other : FineGrainedTaskEntry)
        → In other tasks
        → other.id ≢ t.id
        → t.target_file ≢ ""
        → other.target_file ≢ t.target_file)

IsSoundTask-iff :
    (tasks : List FineGrainedTaskEntry) (t : FineGrainedTaskEntry)
    → ((no_errors (dep_errors (map (λ u. u.id) tasks) t t.depends_on) ≡ true)
        × (no_errors (file_errors t tasks) ≡ true))
      ↔ IsSoundTask tasks t
IsSoundTask-iff tasks t =
    let deps = dep_errors_iff (map (λ u. u.id) tasks) t t.depends_on in
    let files = file_errors_iff t tasks in
    (
      (λ h. (deps.0 h.0, λ o k. (shares_target_iff t o).0 (files.0 h.1 o k))),
      λ h. (deps.1 h.0, files.1 λ o k. (shares_target_iff t o).1 (h.1 o k)),
    )

-- An id with a prerequisite is the id of a task.
task_map_from-In :
    (id : String) (m : DepsMap) (ts : List FineGrainedTaskEntry) (u : FineGrainedTaskEntry)
    → lookup id (task_map_from m ts) ≡ some u
    → (lookup id m ≡ some u) ⊎ ((t : FineGrainedTaskEntry) × In t ts × (t.id ≡ id))
unfolding task_map_from
task_map_from-In id m [] u h = inl h
task_map_from-In id m (t ∷ ts) u h = elim (task_map_from-In id (insert t.id t m) ts u h) [
  | inr (t', k, same) ↦ inr (t', inr k, same)
  | inl found ↦ elim (String-discrete t.id id) [
    | yes same ↦ inr (t, inl refl, same)
    | no other ↦ inl (ground (arith, lookup-insert t.id id t m, ==_iff t.id id))
  ]
]

deps_of-In :
    (tasks : List FineGrainedTaskEntry) (id b : String)
    → In b (deps_of (task_map tasks) id)
    → (t : FineGrainedTaskEntry) × In t tasks × (t.id ≡ id)
unfolding deps_of task_map lookup
deps_of-In tasks id b k = elim (Option-cases (lookup id (task_map tasks))) [
  | inl e ↦ absurd (subst (λ o. In b (entry_deps o)) e k)
  | inr (u, e) ↦ elim (task_map_from-In id [] tasks u e) [ inl h ↦ absurd (cc h) | inr t ↦ t ]
]

Needs-In :
    (tasks : List FineGrainedTaskEntry) (a b : String)
    → Needs (task_map tasks) a b
    → (t : FineGrainedTaskEntry) × In t tasks × (t.id ≡ a)
Needs-In tasks a b (directly dep) = deps_of-In tasks a b dep
Needs-In tasks a c (through {b} path dep) = Needs-In tasks a b path

IsAcyclic_iff :
    (tasks : List FineGrainedTaskEntry)
    → no_errors (cycle_errors (get_parallel_groups tasks)) ≡ true
      ↔ ((id : String) → ¬ Needs (task_map tasks) id id)
IsAcyclic_iff tasks = by_outcome (get_parallel_groups tasks) refl
  where
    by_outcome :
        (o : Outcome (List (List FineGrainedTaskEntry)))
        → get_parallel_groups tasks ≡ o
        → no_errors (cycle_errors o) ≡ true ↔ ((id : String) → ¬ Needs (task_map tasks) id id)
    by_outcome (done groups) e = (
      (λ h id path.
          let (t, k, same) = Needs-In tasks id id path in
          (get_parallel_groups-Needs tasks).1 groups t e k
            (subst (λ i. Needs (task_map tasks) i i) (sym same) path)),
      λ h. refl,
    )
    by_outcome (cycle id) e =
        ((λ h. absurd (cc h)), λ h. absurd (h id ((get_parallel_groups-Needs tasks).0 id e)))
    by_outcome out_of_fuel e = absurd (get_parallel_groups-ne-out_of_fuel tasks e)

-- A list of tasks is valid exactly when every prerequisite of a task is the id of a task and not
-- the task's own, no two tasks of different ids share a target file that is not empty, and no id
-- needs itself, by one or more steps from an id to a prerequisite, where an id that several tasks
-- have needs what the last of them lists.
pub validate_dependency_graph-valid_iff :
    (tasks : List FineGrainedTaskEntry)
    → (validate_dependency_graph tasks).valid ≡ true
      ↔ ((t : FineGrainedTaskEntry) → In t tasks → IsSoundTask tasks t)
        × ((id : String) → ¬ Needs (task_map tasks) id id)
unfolding validate_dependency_graph
validate_dependency_graph-valid_iff tasks =
    let both =
      no_errors-append_iff (task_errors tasks tasks) (cycle_errors (get_parallel_groups tasks)) in
    let each = task_errors_iff tasks tasks in
    let acyclic = IsAcyclic_iff tasks in
    (
      (λ h.
          ((λ t k. (IsSoundTask-iff tasks t).0 (each.0 (both.0 h).0 t k)), acyclic.0 (both.0 h).1)),
      λ h. both.1 (each.1 (λ t k. (IsSoundTask-iff tasks t).1 (h.0 t k)), acyclic.1 h.1),
    )
