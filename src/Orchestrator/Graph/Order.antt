-- ===== src/Orchestrator/Graph/Order.antt =====
-- The order that the parallel groups give.
use native.Mathlib.Decide.{dec_lt}
use neuralgentics.Prelude.{
  ℕ, zero, suc, subst, ◌≤◌, ◌<◌, ◌≡◌, List, [], ◌∷◌, some, arith, In, All-In, get_elem?, sym, inl,
  inr, Unique, map, string_comparable,
}
use neuralgentics.Orchestrator.Types.{FineGrainedTaskEntry}
use neuralgentics.Orchestrator.Graph.{DepsMap, deps_of, task_map, done, get_parallel_groups}
use neuralgentics.Orchestrator.Graph.Distinct.{deps_of-task_map}
use neuralgentics.Orchestrator.Graph.Depth.{Depth, Depth-lt}
use neuralgentics.Orchestrator.Graph.Groups.{InGroups, Layers, get_parallel_groups_sound}

module _ (m : DepsMap) where
  Layers-At :
      (lo : ℕ) (gs : List (List FineGrainedTaskEntry)) (j : ℕ) (u : FineGrainedTaskEntry)
      (h : List FineGrainedTaskEntry)
      → Layers m lo gs
      → get_elem? gs j ≡ some h
      → In u h
      → (e : ℕ) × Depth m u.id e × (lo ≤ e)
  Layers-At lo [] j u h l q k = absurd (cc q)
  Layers-At lo (g ∷ gs) zero u h (d, p, deep, rest) q k =
      let same : h ≡ g = cc in (d, All-In (λ t. Depth m t.id d) g u deep (subst (In u) same k), p)
  Layers-At lo (g ∷ gs) (suc j) u h (d, p, deep, rest) q k =
      let (e, there, le) = Layers-At (suc d) gs j u h rest q k in (e, there, omega arith)

  -- A task of a group that does not come later is not deeper.
  Layers-ordered :
      (lo : ℕ) (gs : List (List FineGrainedTaskEntry)) (i j : ℕ) (t u : FineGrainedTaskEntry)
      (g h : List FineGrainedTaskEntry)
      → Layers m lo gs
      → get_elem? gs i ≡ some g
      → In t g
      → get_elem? gs j ≡ some h
      → In u h
      → i ≤ j
      → (d e : ℕ) × Depth m t.id d × Depth m u.id e × (d ≤ e)
  Layers-ordered lo [] i j t u g h l p tg q uh le = absurd (cc p)
  Layers-ordered lo (g' ∷ gs) zero zero t u g h (d, low, deep, rest) p tg q uh le =
      let same : g ≡ g' = cc in
      let same' : h ≡ g' = cc in
      (
        d,
        d,
        All-In (λ v. Depth m v.id d) g' t deep (subst (In t) same tg),
        All-In (λ v. Depth m v.id d) g' u deep (subst (In u) same' uh),
        omega arith,
      )
  Layers-ordered lo (g' ∷ gs) zero (suc j) t u g h (d, low, deep, rest) p tg q uh le =
      let same : g ≡ g' = cc in
      let (e, there, later) = Layers-At (suc d) gs j u h rest q uh in
      (d, e, All-In (λ v. Depth m v.id d) g' t deep (subst (In t) same tg), there, omega arith)
  Layers-ordered lo (g' ∷ gs) (suc i) zero t u g h l p tg q uh le = absurd (omega arith)
  Layers-ordered lo (g' ∷ gs) (suc i) (suc j) t u g h (d, low, deep, rest) p tg q uh le =
      Layers-ordered (suc d) gs i j t u g h rest p tg q uh (omega arith)

-- The same in terms of the map of the tasks.
groups_ordered :
    (tasks : List FineGrainedTaskEntry) (groups : List (List FineGrainedTaskEntry)) (i j : ℕ)
    (t u : FineGrainedTaskEntry) (g h : List FineGrainedTaskEntry)
    → get_parallel_groups tasks ≡ done groups
    → get_elem? groups i ≡ some g
    → In t g
    → get_elem? groups j ≡ some h
    → In u h
    → In u.id (deps_of (task_map tasks) t.id)
    → j < i
groups_ordered tasks groups i j t u g h ok p tg q uh dep = elim (dec_lt j i) [
  | yes lt ↦ lt
  | no ge ↦
      let m = task_map tasks in
      let (d, e, deep, deep', le) =
        Layers-ordered m 0 groups i j t u g h (get_parallel_groups_sound tasks groups ok).1 p tg q
          uh (omega arith) in
      absurd (omega (arith, Depth-lt dep deep deep'))
]

InGroups-of_group :
    (t : FineGrainedTaskEntry) (g : List FineGrainedTaskEntry)
    (groups : List (List FineGrainedTaskEntry)) (i : ℕ)
    → get_elem? groups i ≡ some g
    → In t g
    → InGroups t groups
InGroups-of_group t g [] i p k = absurd (cc p)
InGroups-of_group t g (f ∷ fs) zero p k = let same : g ≡ f = cc in inl (subst (In t) same k)
InGroups-of_group t g (f ∷ fs) (suc i) p k = inr (InGroups-of_group t g fs i p k)

-- When `GetParallelGroups` succeeds for tasks with different ids, a task of a group whose id is
-- among the prerequisites that a task of a group lists stands in an earlier group than that task.
pub prerequisites_first :
    (tasks : List FineGrainedTaskEntry) (groups : List (List FineGrainedTaskEntry)) (i j : ℕ)
    (t u : FineGrainedTaskEntry) (g h : List FineGrainedTaskEntry)
    → Unique (map (λ v. v.id) tasks)
    → get_parallel_groups tasks ≡ done groups
    → get_elem? groups i ≡ some g
    → In t g
    → get_elem? groups j ≡ some h
    → In u h
    → In u.id t.depends_on
    → j < i
prerequisites_first tasks groups i j t u g h different ok p tg q uh dep =
    let there =
      ((get_parallel_groups_sound tasks groups ok).0 t).0 (InGroups-of_group t g groups i p tg) in
    groups_ordered tasks groups i j t u g h ok p tg q uh
      (subst (In u.id) (sym (deps_of-task_map tasks t different there)) dep)
