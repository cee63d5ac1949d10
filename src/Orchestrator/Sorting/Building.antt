-- ===== src/Orchestrator/Sorting/Building.antt =====
-- What the first loop of `TopologicalSort` builds.
use neuralgentics.Prelude.{
  Option, sym, ==_self, In, inl, inr, ℕ, ◌+◌, ◌≤◌, ◌<◌, ap, subst, String, ◌≡◌, refl, true, List,
  [], ◌∷◌, ◌++◌, none, some, ◌==◌, ==_iff, string_comparable, lookup, insert, keys, contains,
  Distinct, insert-Distinct, arith, if◌then◌else◌, lookup-insert, contains-keys-insert,
}
use neuralgentics.Orchestrator.Types.{FineGrainedTaskEntry}
use neuralgentics.Orchestrator.Sorting.{
  Edges, degree_of, dependents, add_edge, add_deps, known_id, add_tasks, no_edges,
}
use neuralgentics.Orchestrator.Sorting.Weights.{count, count-append, weight, weight-insert}

-- The in-degrees count the edges, and every task at the end of an edge has one.
pub record IsCounted (e : Edges) : Type 0 where
  pub distinct : Distinct e.graph
  pub one_degree : Distinct e.in_degree
  pub counts : (x : String) → degree_of x e.in_degree ≡ weight x e.graph
  pub known :
      (x d : String) → 0 < count x (dependents d e.graph) → contains x (keys e.in_degree) ≡ true

pub count-add_edge :
    (x d id dep : String) (e : Edges)
    → count x (dependents d (add_edge id dep e).graph)
      ≡ count x (dependents d e.graph) + (if dep == d then count x (id ∷ []) else 0)
unfolding dependents
count-add_edge x d id dep e = ground (
  arith,
  lookup-insert dep d (dependents dep e.graph ++ id ∷ []) e.graph,
  count-append x (dependents dep e.graph) (id ∷ []),
  ==_iff dep d,
)

pub degree_of-insert :
    (x id : String) (n : ℕ) (m : List (String × ℕ))
    → degree_of x (insert id n m) ≡ (if id == x then n else degree_of x m)
unfolding degree_of
degree_of-insert x id n m = ground (arith, lookup-insert id x n m)

add_edge-IsCounted : (id dep : String) (e : Edges) → IsCounted e → IsCounted (add_edge id dep e)
add_edge-IsCounted id dep e v = record {
  one_degree = insert-Distinct id (degree_of id e.in_degree + 1) e.in_degree v.one_degree;
  distinct = insert-Distinct dep (dependents dep e.graph ++ id ∷ []) e.graph v.distinct;
  counts = λ x. ground (
    arith,
    degree_of-insert x id (degree_of id e.in_degree + 1) e.in_degree,
    weight-insert x dep id e.graph,
    v.counts x,
    ==_iff id x,
  );
  known = λ x d h. ground (
    arith,
    count-add_edge x d id dep e,
    v.known x d,
    contains-keys-insert id x (degree_of id e.in_degree + 1) e.in_degree,
    ==_iff id x,
  );
}

add_deps-IsCounted :
    (id : String) (deps : List String) (e : Edges) → IsCounted e → IsCounted (add_deps id deps e)
unfolding add_deps
add_deps-IsCounted id [] e v = v
add_deps-IsCounted id (dep ∷ deps) e v =
    add_deps-IsCounted id deps (add_edge id dep e) (add_edge-IsCounted id dep e v)

known_id-IsCounted :
    (id : String) (o : Option ℕ) (e : Edges)
    → lookup id e.in_degree ≡ o
    → IsCounted e
    → IsCounted (known_id id o e)
unfolding degree_of
known_id-IsCounted id none e h v = record {
  distinct = v.distinct;
  one_degree = insert-Distinct id 0 e.in_degree v.one_degree;
  counts = λ x. ground (arith, lookup-insert id x 0 e.in_degree, v.counts x, ==_iff id x);
  known = λ x d k. ground (arith, contains-keys-insert id x 0 e.in_degree, v.known x d k);
}
known_id-IsCounted id (some n) e h v = v

pub add_tasks-IsCounted :
    (ts : List FineGrainedTaskEntry) (e : Edges) → IsCounted e → IsCounted (add_tasks ts e)
unfolding add_tasks
add_tasks-IsCounted [] e v = v
add_tasks-IsCounted (t ∷ ts) e v =
    add_tasks-IsCounted ts (add_deps t.id t.depends_on (known_id t.id (lookup t.id e.in_degree) e))
      (add_deps-IsCounted t.id t.depends_on (known_id t.id (lookup t.id e.in_degree) e)
        (known_id-IsCounted t.id (lookup t.id e.in_degree) e refl v))

pub no_edges-IsCounted : IsCounted no_edges
unfolding degree_of dependents lookup weight
no_edges-IsCounted = record {
  distinct = tt;
  one_degree = tt;
  counts = λ x. refl;
  known = λ x d h. absurd (omega arith);
}

-- No edge is lost.
add_deps-keeps :
    (id : String) (deps : List String) (e : Edges) (x d : String)
    → count x (dependents d e.graph) ≤ count x (dependents d (add_deps id deps e).graph)
unfolding add_deps
add_deps-keeps id [] e x d = omega arith
add_deps-keeps id (dep ∷ deps) e x d =
    omega (arith, add_deps-keeps id deps (add_edge id dep e) x d, count-add_edge x d id dep e)

add_deps-edges :
    (id : String) (deps : List String) (e : Edges) (d : String)
    → In d deps
    → 0 < count id (dependents d (add_deps id deps e).graph)
unfolding add_deps
add_deps-edges id [] e d h = absurd h
add_deps-edges id (dep ∷ deps) e d (inl same) = ground (
  arith,
  add_deps-keeps id deps (add_edge id dep e) id d,
  count-add_edge id d id dep e,
  ==_iff dep d,
  ==_self id,
)
add_deps-edges id (dep ∷ deps) e d (inr h) = add_deps-edges id deps (add_edge id dep e) d h

pub known_id-graph : (id : String) (o : Option ℕ) (e : Edges) → (known_id id o e).graph ≡ e.graph
known_id-graph id none e = refl
known_id-graph id (some n) e = refl

add_tasks-keeps :
    (ts : List FineGrainedTaskEntry) (e : Edges) (x d : String)
    → count x (dependents d e.graph) ≤ count x (dependents d (add_tasks ts e).graph)
unfolding add_tasks
add_tasks-keeps [] e x d = omega arith
add_tasks-keeps (t ∷ ts) e x d =
    let k = known_id t.id (lookup t.id e.in_degree) e in
    omega (
      arith,
      add_tasks-keeps ts (add_deps t.id t.depends_on k) x d,
      add_deps-keeps t.id t.depends_on k x d,
      ap (λ g. count x (dependents d g)) (known_id-graph t.id (lookup t.id e.in_degree) e),
    )

-- Every prerequisite of a task is an edge.
pub add_tasks-edges :
    (ts : List FineGrainedTaskEntry) (e : Edges) (t : FineGrainedTaskEntry) (d : String)
    → In t ts
    → In d t.depends_on
    → 0 < count t.id (dependents d (add_tasks ts e).graph)
unfolding add_tasks
add_tasks-edges [] e t d h k = absurd h
add_tasks-edges (u ∷ ts) e t d (inl same) k =
    let after = add_deps u.id u.depends_on (known_id u.id (lookup u.id e.in_degree) e) in
    omega (
      arith,
      add_tasks-keeps ts after t.id d,
      subst (λ w. 0 < count w.id (dependents d after.graph)) (sym same)
          (add_deps-edges u.id u.depends_on (known_id u.id (lookup u.id e.in_degree) e) d
            (subst (λ w. In d w.depends_on) same k)),
    )
add_tasks-edges (u ∷ ts) e t d (inr h) k = add_tasks-edges ts _ t d h k
