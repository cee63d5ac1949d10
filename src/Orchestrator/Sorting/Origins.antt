-- ===== src/Orchestrator/Sorting/Origins.antt =====
-- Where the in-degrees and the edges of `TopologicalSort` come from.
use neuralgentics.Prelude.{
  lookup-eq-none_iff, Bool-cases, Option, sym, ==_self, In, inl, inr, ◌⊎◌, ℕ, ◌+◌, ◌<◌, subst,
  String, ◌≡◌, refl, true, List, [], ◌∷◌, none, some, ==_iff, string_comparable, lookup, keys,
  contains, arith, contains-keys-insert,
}
use neuralgentics.Orchestrator.Types.{FineGrainedTaskEntry}
use neuralgentics.Orchestrator.Sorting.{
  Edges, degree_of, dependents, add_edge, add_deps, known_id, add_tasks,
}
use neuralgentics.Orchestrator.Sorting.Weights.{count}
use neuralgentics.Orchestrator.Sorting.Building.{count-add_edge, known_id-graph}

-- The ids with an in-degree are those of tasks.
add_deps-keys :
    (id : String) (deps : List String) (e : Edges) (x : String)
    → contains x (keys (add_deps id deps e).in_degree) ≡ true
    → (contains x (keys e.in_degree) ≡ true) ⊎ (id ≡ x)
unfolding add_deps
add_deps-keys id [] e x h = inl h
add_deps-keys id (dep ∷ deps) e x h = elim (add_deps-keys id deps (add_edge id dep e) x h) [
  | inr same ↦ inr same
  | inl there ↦
      ground
        (arith, contains-keys-insert id x (degree_of id e.in_degree + 1) e.in_degree, ==_iff id x)
]

known_id-keys :
    (id : String) (o : Option ℕ) (e : Edges) (x : String)
    → contains x (keys (known_id id o e).in_degree) ≡ true
    → (contains x (keys e.in_degree) ≡ true) ⊎ (id ≡ x)
known_id-keys id none e x h = ground (arith, contains-keys-insert id x 0 e.in_degree, ==_iff id x)
known_id-keys id (some n) e x h = inl h

pub add_tasks-keys :
    (ts : List FineGrainedTaskEntry) (e : Edges) (x : String)
    → contains x (keys (add_tasks ts e).in_degree) ≡ true
    → (contains x (keys e.in_degree) ≡ true) ⊎ ((t : FineGrainedTaskEntry) × In t ts × (t.id ≡ x))
unfolding add_tasks
add_tasks-keys [] e x h = inl h
add_tasks-keys (t ∷ ts) e x h =
    let k = known_id t.id (lookup t.id e.in_degree) e in
    elim (add_tasks-keys ts (add_deps t.id t.depends_on k) x h) [
      | inr (u, there, same) ↦ inr (u, inr there, same)
      | inl there ↦ elim (add_deps-keys t.id t.depends_on k x there) [
        | inr same ↦ inr (t, inl refl, same)
        | inl before ↦ elim (known_id-keys t.id (lookup t.id e.in_degree) e x before) [
          | inr same ↦ inr (t, inl refl, same)
          | inl old ↦ inl old
        ]
      ]
    ]

-- Every edge is a prerequisite of a task.
add_deps-origin :
    (id : String) (deps : List String) (e : Edges) (x d : String)
    → 0 < count x (dependents d (add_deps id deps e).graph)
    → (0 < count x (dependents d e.graph)) ⊎ ((id ≡ x) × In d deps)
unfolding add_deps
add_deps-origin id [] e x d h = inl h
add_deps-origin id (dep ∷ deps) e x d h = elim (add_deps-origin id deps (add_edge id dep e) x d h) [
  | inr (same, k) ↦ inr (same, inr k)
  | inl there ↦ ground (arith, count-add_edge x d id dep e, ==_iff dep d, ==_iff id x)
]

pub add_tasks-origin :
    (ts : List FineGrainedTaskEntry) (e : Edges) (x d : String)
    → 0 < count x (dependents d (add_tasks ts e).graph)
    → (0 < count x (dependents d e.graph))
      ⊎ ((t : FineGrainedTaskEntry) × In t ts × (t.id ≡ x) × In d t.depends_on)
unfolding add_tasks
add_tasks-origin [] e x d h = inl h
add_tasks-origin (t ∷ ts) e x d h =
    let k = known_id t.id (lookup t.id e.in_degree) e in
    elim (add_tasks-origin ts (add_deps t.id t.depends_on k) x d h) [
      | inr (u, there, same, dep) ↦ inr (u, inr there, same, dep)
      | inl there ↦ elim (add_deps-origin t.id t.depends_on k x d there) [
        | inr (same, dep) ↦ inr (t, inl refl, same, dep)
        | inl before ↦ inl (
            subst (λ g. 0 < count x (dependents d g))
              (known_id-graph t.id (lookup t.id e.in_degree) e) before)
      ]
    ]

-- Every task has an in-degree.
add_deps-has_key :
    (id : String) (deps : List String) (e : Edges) (x : String)
    → contains x (keys e.in_degree) ≡ true
    → contains x (keys (add_deps id deps e).in_degree) ≡ true
unfolding add_deps
add_deps-has_key id [] e x h = h
add_deps-has_key id (dep ∷ deps) e x h =
    add_deps-has_key id deps (add_edge id dep e) x
      (ground (arith, contains-keys-insert id x (degree_of id e.in_degree + 1) e.in_degree))

known_id-has_key :
    (id : String) (o : Option ℕ) (e : Edges)
    → lookup id e.in_degree ≡ o
    → contains id (keys (known_id id o e).in_degree) ≡ true
known_id-has_key id none e h = ground (arith, contains-keys-insert id id 0 e.in_degree, ==_self id)
known_id-has_key id (some n) e h = elim (Bool-cases (contains id (keys e.in_degree))) [
  | inl there ↦ there
  | inr absent ↦ absurd (cc (h, (lookup-eq-none_iff id e.in_degree).1 absent))
]

known_id-has_keys :
    (id : String) (o : Option ℕ) (e : Edges) (x : String)
    → contains x (keys e.in_degree) ≡ true
    → contains x (keys (known_id id o e).in_degree) ≡ true
known_id-has_keys id none e x h = ground (arith, contains-keys-insert id x 0 e.in_degree)
known_id-has_keys id (some n) e x h = h

add_tasks-has_keys :
    (ts : List FineGrainedTaskEntry) (e : Edges) (x : String)
    → contains x (keys e.in_degree) ≡ true
    → contains x (keys (add_tasks ts e).in_degree) ≡ true
unfolding add_tasks
add_tasks-has_keys [] e x h = h
add_tasks-has_keys (t ∷ ts) e x h = add_tasks-has_keys ts _ x (
    add_deps-has_key t.id t.depends_on (known_id t.id (lookup t.id e.in_degree) e) x
      (known_id-has_keys t.id (lookup t.id e.in_degree) e x h))

pub add_tasks-has_key :
    (ts : List FineGrainedTaskEntry) (e : Edges) (t : FineGrainedTaskEntry)
    → In t ts
    → contains t.id (keys (add_tasks ts e).in_degree) ≡ true
unfolding add_tasks
add_tasks-has_key [] e t h = absurd h
add_tasks-has_key (u ∷ ts) e t (inr h) = add_tasks-has_key ts _ t h
add_tasks-has_key (u ∷ ts) e t (inl same) =
    let k = known_id u.id (lookup u.id e.in_degree) e in
    add_tasks-has_keys ts (add_deps u.id u.depends_on k) t.id (
      subst (λ w. contains w.id (keys (add_deps u.id u.depends_on k).in_degree) ≡ true) (sym same)
        (add_deps-has_key u.id u.depends_on k u.id
          (known_id-has_key u.id (lookup u.id e.in_degree) e refl)))
