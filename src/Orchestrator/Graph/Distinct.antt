-- ===== src/Orchestrator/Graph/Distinct.antt =====
-- `taskMap` of tasks with different ids, where each id is mapped to its own task, and the cycles of
-- such tasks.
use neuralgentics.Prelude.{
  String, ◌≡◌, inl, inr, refl, ap, ◌∙◌, false, List, [], ◌∷◌, some, lookup, sym, subst,
  Option-cases, Bool-cases, ◌⊎◌, ◌==◌, insert, lookup-insert, string_comparable, number_comparable,
  ==_iff, contains, Unique, map, In, arith,
}
use neuralgentics.Orchestrator.Types.{FineGrainedTaskEntry}
use neuralgentics.Orchestrator.Graph.{
  DepsMap, entry_deps, deps_of, task_map_from, task_map, get_parallel_groups, done, cycle,
}
use neuralgentics.Orchestrator.Graph.Cycles.{Needs, directly, through, get_parallel_groups-Needs}

-- One or more steps from a task of the plan to a prerequisite that it lists.
pub data Requires (tasks : List FineGrainedTaskEntry) (a : String) : String → Type 0 where
  lists :
      (t : FineGrainedTaskEntry) {b : String}
      → In t tasks
      → t.id ≡ a
      → In b t.depends_on
      → Requires tasks a b
  then_lists :
      (t : FineGrainedTaskEntry) {c : String}
      → Requires tasks a t.id
      → In t tasks
      → In c t.depends_on
      → Requires tasks a c

map-In :
    (t : FineGrainedTaskEntry) (ts : List FineGrainedTaskEntry)
    → In t ts
    → In t.id (map (λ u. u.id) ts)
map-In t [] k = absurd k
map-In t (u ∷ us) (inl e) = inl (ap (λ v. v.id) e)
map-In t (u ∷ us) (inr k) = inr (map-In t us k)

lookup-other :
    (id : String) (m : DepsMap) (ts : List FineGrainedTaskEntry)
    → contains id (map (λ t. t.id) ts) ≡ false
    → lookup id (task_map_from m ts) ≡ lookup id m
unfolding task_map_from
lookup-other id m [] h = refl
lookup-other id m (t ∷ ts) h =
    lookup-other id (insert t.id t m) ts (ground arith)
    ∙ ground (arith, lookup-insert t.id id t m, ==_iff t.id id)

lookup-task_map_from :
    (t : FineGrainedTaskEntry) (m : DepsMap) (ts : List FineGrainedTaskEntry)
    → Unique (map (λ u. u.id) ts)
    → In t ts
    → lookup t.id (task_map_from m ts) ≡ some t
unfolding task_map_from
lookup-task_map_from t m [] h k = absurd k
lookup-task_map_from t m (u ∷ us) (new, rest) (inl same) =
    subst (λ v. lookup v.id (task_map_from (insert u.id u m) us) ≡ some v) (sym same)
      (lookup-other u.id (insert u.id u m) us new
        ∙ ground (arith, lookup-insert u.id u.id u m, ==_iff u.id u.id))
lookup-task_map_from t m (u ∷ us) (new, rest) (inr k) =
    lookup-task_map_from t (insert u.id u m) us rest k

-- An entry of the map is a task with its id.
task_map_from-In :
    (id : String) (t : FineGrainedTaskEntry) (m : DepsMap) (ts : List FineGrainedTaskEntry)
    → lookup id (task_map_from m ts) ≡ some t
    → (In t ts × (t.id ≡ id)) ⊎ (lookup id m ≡ some t)
unfolding task_map_from
task_map_from-In id t m [] h = inr h
task_map_from-In id t m (u ∷ us) h = elim (task_map_from-In id t (insert u.id u m) us h) [
  | inl (k, e) ↦ inl (inr k, e)
  | inr e ↦ elim (Bool-cases (u.id == id)) [
    | inl same ↦
        let u_t : some u ≡ some t = ground (arith, lookup-insert u.id id u m) in
        let t_u : t ≡ u = cc in inl (inl t_u, ground (arith, ==_iff u.id id))
    | inr other ↦ inr (ground (arith, lookup-insert u.id id u m))
  ]
]

pub deps_of-task_map :
    (tasks : List FineGrainedTaskEntry) (t : FineGrainedTaskEntry)
    → Unique (map (λ u. u.id) tasks)
    → In t tasks
    → deps_of (task_map tasks) t.id ≡ t.depends_on
unfolding deps_of task_map
deps_of-task_map tasks t different k = ap entry_deps (lookup-task_map_from t [] tasks different k)

In-deps_of :
    (tasks : List FineGrainedTaskEntry) (a b : String)
    → In b (deps_of (task_map tasks) a)
    → (t : FineGrainedTaskEntry) × In t tasks × (t.id ≡ a) × In b t.depends_on
unfolding deps_of task_map lookup
In-deps_of tasks a b k = elim (Option-cases (lookup a (task_map tasks))) [
  | inl e ↦ absurd (subst (λ o. In b (entry_deps o)) e k)
  | inr (t, e) ↦ elim (task_map_from-In a t [] tasks e) [
    | inl (there, same) ↦ (t, there, same, subst (λ o. In b (entry_deps o)) e k)
    | inr none_ ↦ absurd (cc none_)
  ]
]

Requires-of_Needs :
    (tasks : List FineGrainedTaskEntry) {a b : String}
    → Needs (task_map tasks) a b
    → Requires tasks a b
Requires-of_Needs tasks (directly dep) =
    let (t, k, same, needs) = In-deps_of tasks _ _ dep in lists t k same needs
Requires-of_Needs tasks (through {b} {c} path dep) =
    let (t, k, same, needs) = In-deps_of tasks b c dep in
    then_lists t (subst (Requires tasks _) (sym same) (Requires-of_Needs tasks path)) k needs

Needs-of_Requires :
    (tasks : List FineGrainedTaskEntry)
    → Unique (map (λ u. u.id) tasks)
    → {a b : String} → Requires tasks a b
    → Needs (task_map tasks) a b
Needs-of_Requires tasks different (lists t {b} k same needs) =
    subst (λ x. Needs (task_map tasks) x b) same
      (directly (subst (In b) (sym (deps_of-task_map tasks t different k)) needs))
Needs-of_Requires tasks different (then_lists t {c} path k needs) =
    through (Needs-of_Requires tasks different path)
      (subst (In c) (sym (deps_of-task_map tasks t different k)) needs)

-- For tasks with different ids, `GetParallelGroups` fails exactly for cycles: the id in its error
-- requires itself, by one or more steps from a task to a prerequisite that it lists, and when it
-- succeeds no task requires itself.
pub get_parallel_groups_cycles :
    (tasks : List FineGrainedTaskEntry)
    → Unique (map (λ t. t.id) tasks)
    → ((id : String) → get_parallel_groups tasks ≡ cycle id → Requires tasks id id)
      × ((groups : List (List FineGrainedTaskEntry)) (t : FineGrainedTaskEntry)
          → get_parallel_groups tasks ≡ done groups
          → In t tasks
          → ¬ Requires tasks t.id t.id)
get_parallel_groups_cycles tasks different = (
  λ id e. Requires-of_Needs tasks ((get_parallel_groups-Needs tasks).0 id e),
  λ groups t e k path.
      (get_parallel_groups-Needs tasks).1 groups t e k (Needs-of_Requires tasks different path),
)
