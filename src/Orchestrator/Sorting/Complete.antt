-- ===== src/Orchestrator/Sorting/Complete.antt =====
-- `TopologicalSort` of a list of tasks that `ValidateDependencyGraph` calls valid.
use native.Mathlib.Decide.{dec_lt}
use neuralgentics.Prelude.{
  ℕ, zero, suc, ◌<◌, ap, sym, subst, ◌∙◌, String, ◌≡◌, inl, inr, refl, Bool, true, false, List, [],
  ◌∷◌, ◌++◌, some, ==_iff, string_comparable, number_comparable, lookup, keys, length, contains,
  contains_iff, contains-append, append_nil, Unique, Unique-length_le, arith, In, map,
}
use neuralgentics.Orchestrator.Types.{FineGrainedTaskEntry}
use neuralgentics.Orchestrator.Graph.{
  Outcome, done, cycle, out_of_fuel, deps_of, task_map, get_parallel_groups,
}
use neuralgentics.Orchestrator.Graph.Depth.{Depth, Depth-dep}
use neuralgentics.Orchestrator.Graph.Fuel.{get_parallel_groups-ne-out_of_fuel}
use neuralgentics.Orchestrator.Graph.Groups.{has-Depth}
use neuralgentics.Orchestrator.Graph.Cycles.{Needs, get_parallel_groups-Needs}
use neuralgentics.Orchestrator.Validation.{validate_dependency_graph}
use neuralgentics.Orchestrator.Validation.Verdict.{validate_dependency_graph-valid_iff}
use neuralgentics.Orchestrator.Sorting.{
  ordered, concluded, topological_sort, add_tasks, no_edges, dependents,
}
use neuralgentics.Orchestrator.Sorting.Weights.{count, weight, sent, sent-eq-weight}
use neuralgentics.Orchestrator.Sorting.Building.{no_edges-IsCounted, add_tasks-IsCounted}
use neuralgentics.Orchestrator.Sorting.Origins.{add_tasks-origin, add_tasks-has_key}
use neuralgentics.Orchestrator.Sorting.Release.{Unique-left}
use neuralgentics.Orchestrator.Sorting.Sorted.{Run, topological_sort-Run, task_of}

abbrev task_ids : List FineGrainedTaskEntry → List String
task_ids tasks = map (λ t. t.id) tasks

In-task_ids :
    (tasks : List FineGrainedTaskEntry) (t : FineGrainedTaskEntry)
    → In t tasks
    → In t.id (task_ids tasks)
In-task_ids [] t h = absurd h
In-task_ids (u ∷ tasks) t (inl same) = inl (ap (λ w. w.id) same)
In-task_ids (u ∷ tasks) t (inr h) = inr (In-task_ids tasks t h)

task_with_id :
    (tasks : List FineGrainedTaskEntry) (x : String)
    → In x (task_ids tasks)
    → (t : FineGrainedTaskEntry) × In t tasks × (t.id ≡ x)
task_with_id [] x h = absurd h
task_with_id (t ∷ tasks) x (inl same) = (t, inl refl, sym same)
task_with_id (t ∷ tasks) x (inr h) =
    let (u, there, same) = task_with_id tasks x h in (u, inr there, same)

repeated : {b : Bool} → b ≡ false → b ≡ true → ⊥
repeated f t = absurd (cc (f, t))

-- Of tasks with different ids, those with one id are the same.
same_task :
    (tasks : List FineGrainedTaskEntry) (t u : FineGrainedTaskEntry)
    → Unique (task_ids tasks)
    → In t tasks
    → In u tasks
    → t.id ≡ u.id
    → t ≡ u
same_task [] t u d h k e = absurd h
same_task (w ∷ tasks) t u d (inl p) (inl q) e = p ∙ sym q
same_task (w ∷ tasks) t u d (inl p) (inr k) e = absurd (
    repeated d.0 (
      (contains_iff w.id (task_ids tasks)).1
        (subst (λ i. In i (task_ids tasks)) (sym e ∙ ap (λ v. v.id) p) (In-task_ids tasks u k))))
same_task (w ∷ tasks) t u d (inr h) (inl q) e = absurd (
    repeated d.0 (
      (contains_iff w.id (task_ids tasks)).1
        (subst (λ i. In i (task_ids tasks)) (e ∙ ap (λ v. v.id) q) (In-task_ids tasks t h))))
same_task (w ∷ tasks) t u d (inr h) (inr k) e = same_task tasks t u d.1 h k e

length-task_ids : (tasks : List FineGrainedTaskEntry) → length (task_ids tasks) ≡ length tasks
length-task_ids [] = refl
length-task_ids (t ∷ tasks) = ap suc (length-task_ids tasks)

acyclic_groups :
    (tasks : List FineGrainedTaskEntry)
    → ((id : String) → ¬ Needs (task_map tasks) id id)
    → (groups : List (List FineGrainedTaskEntry)) × (get_parallel_groups tasks ≡ done groups)
acyclic_groups tasks h = by_outcome (get_parallel_groups tasks) refl
  where
    by_outcome :
        (o : Outcome (List (List FineGrainedTaskEntry)))
        → get_parallel_groups tasks ≡ o
        → (groups : List (List FineGrainedTaskEntry)) × (get_parallel_groups tasks ≡ done groups)
    by_outcome (done groups) e = (groups, e)
    by_outcome (cycle id) e = absurd (h id ((get_parallel_groups-Needs tasks).0 id e))
    by_outcome out_of_fuel e = absurd (get_parallel_groups-ne-out_of_fuel tasks e)

module _ (tasks : List FineGrainedTaskEntry) (different : Unique (task_ids tasks))
    (listed : (t : FineGrainedTaskEntry) (dep : String)
      → In t tasks
      → In dep t.depends_on
      → In dep (task_ids tasks))
    (deep : (t : FineGrainedTaskEntry) → In t tasks → (d : ℕ) × Depth (task_map tasks) t.id d) where
  abbrev all_keys : List String
  all_keys = keys (add_tasks tasks no_edges).in_degree

  key-In : (x : String) → contains x all_keys ≡ true → In x (task_ids tasks)
  key-In x h =
      let (t, found, same, there) = task_of tasks x h in
      subst (λ i. In i (task_ids tasks)) same (In-task_ids tasks t there)

  In-key : (x : String) → In x (task_ids tasks) → contains x all_keys ≡ true
  In-key x h =
      let (t, there, same) = task_with_id tasks x h in
      subst (λ i. contains i all_keys ≡ true) same (add_tasks-has_key tasks no_edges t there)

  -- An edge to a task starts from one of its prerequisites.
  edge-dep :
      (t : FineGrainedTaskEntry) (d : String)
      → In t tasks
      → 0 < count t.id (dependents d (add_tasks tasks no_edges).graph)
      → In d t.depends_on
  unfolding dependents lookup
  edge-dep t d there h = elim (add_tasks-origin tasks no_edges t.id d h) [
    | inl none_yet ↦ absurd (omega arith)
    | inr (u, k, same, dep) ↦
        subst (λ w. In d w.depends_on) (same_task tasks u t different k there same) dep
  ]

  deps_of-task :
      (t : FineGrainedTaskEntry) → In t tasks → deps_of (task_map tasks) t.id ≡ t.depends_on
  unfolding deps_of
  deps_of-task t there =
      let (u, found, same, k) = task_of tasks t.id (add_tasks-has_key tasks no_edges t there) in
      rw found (ap (λ w. w.depends_on) (same_task tasks u t different k there same))

  module _ (result : List FineGrainedTaskEntry) (run : Run tasks result) where
    reached :
        (n d : ℕ) (t : FineGrainedTaskEntry)
        → d < n
        → Depth (task_map tasks) t.id d
        → In t tasks
        → contains t.id run.processed ≡ true
    reached zero d t lt depth there = absurd (omega arith)
    reached (suc n) d t lt depth there =
        subst (λ l. contains t.id l ≡ true)
          (ap (λ q. run.processed ++ q) run.no_queue ∙ append_nil run.processed)
          (run.balanced.full t.id (add_tasks-has_key tasks no_edges t there) (
            omega (
              arith,
              run.balanced.balance t.id,
              all_sent (λ dep k.
                  let (u, u_there, same) = task_with_id tasks dep (listed t dep there k) in
                  let (e, deeper, less) =
                    Depth-dep (subst (λ l. In dep l) (sym (deps_of-task t there)) k) depth in
                  subst (λ i. contains i run.processed ≡ true) same
                    (reached n e u (omega arith)
                      (subst (λ i. Depth (task_map tasks) i e) (sym same) deeper) u_there)),
            )))
      where
        all_sent :
            ((dep : String) → In dep t.depends_on → contains dep run.processed ≡ true)
            → sent t.id run.processed (add_tasks tasks no_edges).graph
              ≡ weight t.id (add_tasks tasks no_edges).graph
        all_sent h =
            sent-eq-weight t.id run.processed (add_tasks tasks no_edges).graph
              (add_tasks-IsCounted tasks no_edges no_edges-IsCounted).distinct
              (Unique-left run.processed run.work.queue run.balanced.unique)
              (λ d absent.
                elim (dec_lt 0 (count t.id (dependents d (add_tasks tasks no_edges).graph))) [
                  | yes edge ↦ absurd (cc (absent, h d (edge-dep t d there edge)))
                  | no zero_edges ↦ omega arith
                ])

    complete_run : length result ≡ length tasks
    complete_run = omega (
      arith,
      run.sorted.sized,
      length-task_ids tasks,
      Unique-length_le run.processed (task_ids tasks)
          (Unique-left run.processed run.work.queue run.balanced.unique)
          (λ x h. (contains_iff x (task_ids tasks)).1 (
            key-In x (
              run.balanced.keyed x
                (ground (arith, contains-append x run.processed run.work.queue))))),
      Unique-length_le (task_ids tasks) run.processed different (λ x h.
          let (t, there, same) = task_with_id tasks x ((contains_iff x (task_ids tasks)).0 h) in
          let (d, depth) = deep t there in
          subst (λ i. contains i run.processed ≡ true) same
            (reached (suc d) d t (omega arith) depth there)),
    )

-- A list of tasks with different ids that `ValidateDependencyGraph` finds valid is sorted by
-- `TopologicalSort` without an error.
pub topological_sort-validate_dependency_graph :
    (tasks : List FineGrainedTaskEntry)
    → Unique (map (λ t. t.id) tasks)
    → (validate_dependency_graph tasks).valid ≡ true
    → (sorted : List FineGrainedTaskEntry) × (topological_sort tasks ≡ ordered sorted)
unfolding topological_sort
topological_sort-validate_dependency_graph [] different valid = ([], refl)
topological_sort-validate_dependency_graph (t ∷ ts) different valid =
    let tasks = t ∷ ts in
    let sound = (validate_dependency_graph-valid_iff tasks).0 valid in
    let (groups, grouped) = acyclic_groups tasks sound.1 in
    let (result, finds, run) = topological_sort-Run t ts in
    let all : length result ≡ length tasks =
      complete_run tasks different (λ u dep there k. ((sound.0 u there).0 dep k).1)
        (λ u there. has-Depth tasks groups u grouped there) result run in
    (result, finds ∙ concluded_all result all)
  where
    concluded_all :
        (result : List FineGrainedTaskEntry)
        → length result ≡ length (t ∷ ts)
        → concluded (length (t ∷ ts)) (some result) ≡ ordered result
    concluded_all result all = rw ((==_iff (length result) (length (t ∷ ts))).1 all) refl
