-- ===== src/Orchestrator/Sorting/Sorted.antt =====
-- `TopologicalSort` as a whole.
use neuralgentics.Prelude.{
  ℕ, suc, ap, subst, String, ◌≡◌, ◌≢◌, ◌⊎◌, inl, inr, refl, Bool, true, false, List, [], ◌∷◌,
  Option, some, ◌==◌, ==_iff, string_comparable, number_comparable, String-discrete, lookup, insert,
  lookup-insert, keys, length, contains, Distinct, Unique, select, arith, Bool-cases, In, All,
}
use neuralgentics.Orchestrator.Types.{FineGrainedTaskEntry}
use neuralgentics.Orchestrator.Graph.{DepsMap, task_map, task_map_from}
use neuralgentics.Orchestrator.Sorting.{
  Edges, ordered, no_fuel, concluded, topological_sort, add_tasks, no_edges, degree_of,
}
use neuralgentics.Orchestrator.Sorting.Weights.{sent}
use neuralgentics.Orchestrator.Sorting.Building.{
  IsCounted, no_edges-IsCounted, add_tasks-IsCounted, add_tasks-edges,
}
use neuralgentics.Orchestrator.Sorting.Origins.{add_tasks-keys}
use neuralgentics.Orchestrator.Sorting.Release.{Balanced}
use neuralgentics.Orchestrator.Sorting.Drain.{InOrder, Ended, drain-Ended, remaining}

-- The map of the tasks has an entry for the id of every task.
abbrev pub Named : String → List FineGrainedTaskEntry → Option FineGrainedTaskEntry → Type 0
Named x tasks o = (t : FineGrainedTaskEntry) × (o ≡ some t) × (t.id ≡ x) × In t tasks

task_map_from-Named :
    (x : String) (tasks : List FineGrainedTaskEntry) (m : DepsMap) (ts : List FineGrainedTaskEntry)
    → ((t : FineGrainedTaskEntry) → In t ts → In t tasks)
    → Named x tasks (lookup x m) ⊎ ((t : FineGrainedTaskEntry) × In t ts × (t.id ≡ x))
    → Named x tasks (lookup x (task_map_from m ts))
unfolding task_map_from
task_map_from-Named x tasks m [] all (inl h) = h
task_map_from-Named x tasks m [] all (inr (t, k, same)) = absurd k
task_map_from-Named x tasks m (t ∷ ts) all h =
    task_map_from-Named x tasks (insert t.id t m) ts (λ u k. all u (inr k))
      (elim (String-discrete t.id x) [
        | yes same ↦
            inl (t, ground (arith, lookup-insert t.id x t m, ==_iff t.id x), same, all t (inl refl))
        | no other ↦ elim h [
          | inl (u, found, e, k) ↦
              inl (u, ground (arith, lookup-insert t.id x t m, ==_iff t.id x), e, k)
          | inr (u, inl same, e) ↦ absurd (other (subst (λ w. w.id ≡ x) same e))
          | inr (u, inr later, e) ↦ inr (u, later, e)
        ]
      ])

keys-Unique : (m : List (String × ℕ)) → Distinct m → Unique (keys m)
keys-Unique [] d = tt
keys-Unique ((k, n) ∷ m) d = (d.0, keys-Unique m d.1)

abbrev roots : List (String × ℕ) → List String
roots m = keys (select (λ p. p.1 == 0) m)

contains-roots :
    (x : String) (m : List (String × ℕ))
    → Distinct m
    → contains x (roots m) ≡ true
    → (degree_of x m ≡ 0) × (contains x (keys m) ≡ true)
unfolding degree_of lookup
contains-roots x [] d h = absurd (cc h)
contains-roots x ((k, n) ∷ m) d h = ground (arith, contains-roots x m d.1, ==_iff k x, ==_iff n 0)

roots-full :
    (x : String) (m : List (String × ℕ))
    → contains x (keys m) ≡ true
    → degree_of x m ≡ 0
    → contains x (roots m) ≡ true
unfolding degree_of lookup
roots-full x [] h z = absurd (cc h)
roots-full x ((k, n) ∷ m) h z = ground (arith, roots-full x m, ==_iff k x, ==_iff n 0)

roots-Unique : (m : List (String × ℕ)) → Distinct m → Unique (roots m)
roots-Unique [] d = tt
roots-Unique ((k, n) ∷ m) d = by_test (n == 0) (roots-Unique m d.1)
  where
    rest : List (String × ℕ)
    rest = select (λ p. p.1 == 0) m

    absent : contains k (keys rest) ≡ false
    absent = elim (Bool-cases (contains k (roots m))) [
      | inl there ↦ absurd (cc (d.0, (contains-roots k m d.1 there).1))
      | inr none_there ↦ none_there
    ]

    by_test :
        (b : Bool)
        → Unique (roots m)
        → Unique (keys (elim b [ true ↦ (k, n) ∷ rest | false ↦ rest ]))
    by_test true u = (absent, u)
    by_test false u = u

length-remaining : (m : List (String × ℕ)) → length (remaining [] (keys m)) ≡ length m
length-remaining [] = refl
length-remaining (p ∷ m) = ap suc (length-remaining m)

begin_Balanced :
    (e : Edges) (v : IsCounted e)
    → Balanced e.graph v.distinct
        (keys e.in_degree)
        []
        []
        (record { degrees = e.in_degree; queue = roots e.in_degree })
unfolding sent
begin_Balanced e v = record {
  unique = roots-Unique e.in_degree v.one_degree;
  balance = λ x. omega (arith, v.counts x);
  free = λ x h. (contains-roots x e.in_degree v.one_degree h).0;
  keyed = λ x h. (contains-roots x e.in_degree v.one_degree h).1;
  full = λ x k z. roots-full x e.in_degree k z;
}

pub task_of :
    (tasks : List FineGrainedTaskEntry) (x : String)
    → contains x (keys (add_tasks tasks no_edges).in_degree) ≡ true
    → Named x tasks (lookup x (task_map tasks))
unfolding task_map
task_of tasks x h =
    task_map_from-Named x tasks [] tasks (λ t k. k)
      (elim (add_tasks-keys tasks no_edges x h) [
        | inl none_yet ↦ absurd (cc none_yet)
        | inr task ↦ inr task
      ])

abbrev Result : List FineGrainedTaskEntry → List FineGrainedTaskEntry → Type 0
Result tasks sorted =
    InOrder [] sorted × All (λ t. In t tasks) sorted × (length sorted ≡ length tasks)

concluded_lem :
    (tasks result : List FineGrainedTaskEntry)
    → InOrder [] result
    → All (λ t. In t tasks) result
    → (concluded (length tasks) (some result) ≢ no_fuel)
      × ((sorted : List FineGrainedTaskEntry)
          → concluded (length tasks) (some result) ≡ ordered sorted
          → Result tasks sorted)
concluded_lem tasks result in_order from = elim (Bool-cases (length result == length tasks)) [
  | inl all ↦ rw all (
    (λ e. absurd (cc e)),
    λ sorted e.
        let same : result ≡ sorted = cc e in
        subst (Result tasks) same (in_order, from, (==_iff (length result) (length tasks)).0 all),
  )
  | inr fewer ↦ rw fewer ((λ e. absurd (cc e)), λ sorted e. absurd (cc e))
]

-- The run of the main loop, for the tasks.
abbrev pub Run : (tasks : List FineGrainedTaskEntry) → List FineGrainedTaskEntry → Type 0
Run tasks result =
    let v = add_tasks-IsCounted tasks no_edges no_edges-IsCounted in
    Ended tasks (task_map tasks) (add_tasks tasks no_edges).graph
      (keys (add_tasks tasks no_edges).in_degree) v.distinct v.known (task_of tasks)
      (λ u d. add_tasks-edges tasks no_edges u d) result

pub topological_sort-Run :
    (t : FineGrainedTaskEntry) (ts : List FineGrainedTaskEntry)
    → (result : List FineGrainedTaskEntry) × (topological_sort (t ∷ ts)
        ≡ concluded (length (t ∷ ts)) (some result))
      × Run (t ∷ ts) result
unfolding topological_sort
topological_sort-Run t ts =
    let all = t ∷ ts in
    let e = add_tasks all no_edges in
    let v = add_tasks-IsCounted all no_edges no_edges-IsCounted in
    let (result, finds, ended) =
      drain-Ended all (task_map all) e.graph (keys e.in_degree) v.distinct v.known (task_of all)
        (λ u d. add_tasks-edges all no_edges u d) (suc (length e.in_degree)) []
        (record { degrees = e.in_degree; queue = roots e.in_degree }) []
        (omega (arith, length-remaining e.in_degree)) (begin_Balanced e v)
        (record { in_order = tt; sized = refl; from_tasks = tt; present = λ x h. absurd (cc h) }) in
    (result, ap (λ o. concluded (length all) o) finds, ended)

-- `TopologicalSort` always returns: its fuel is enough. What it returns without an error is a list
-- of as many of the given tasks as there are, in which every prerequisite of a task is the id of a
-- task before it.
pub topological_sort_lem :
    (tasks : List FineGrainedTaskEntry)
    → (topological_sort tasks ≢ no_fuel)
      × ((sorted : List FineGrainedTaskEntry)
          → topological_sort tasks ≡ ordered sorted
          → InOrder [] sorted × All (λ t. In t tasks) sorted × (length sorted ≡ length tasks))
unfolding topological_sort
topological_sort_lem [] = (
  (λ e. absurd (cc e)),
  λ sorted e. let same : [] ≡ sorted = cc e in subst (Result []) same (tt, tt, refl),
)
topological_sort_lem (t ∷ ts) =
    let (result, finds, ended) = topological_sort-Run t ts in
    let s = ended.sorted in rw finds (concluded_lem (t ∷ ts) result s.in_order s.from_tasks)
