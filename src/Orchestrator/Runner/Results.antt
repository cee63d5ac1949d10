-- ===== src/Orchestrator/Runner/Results.antt =====
-- How the runs of the pool end, and what they leave.
use neuralgentics.Prelude.{
  ℕ, zero, suc, ◌+◌, ◌*◌, ◌≤◌, ◌<◌, ap, subst, ◌≡◌, ◌⊎◌, inl, inr, refl, List, [], ◌∷◌, some,
  length, length-append, In, map, get_elem?, arith, List-cases, number_comparable,
}
use neuralgentics.Orchestrator.Types.{FineGrainedTaskEntry}
use neuralgentics.Orchestrator.Runner.{DispatchResult}
use neuralgentics.Orchestrator.Runner.Pool.{
  Pool, upto, Carries, opened, PoolStep, takes, sends, collects, PoolRun, here, next, IsFinished,
  left, run_at,
}
use neuralgentics.Orchestrator.Runner.Invariant.{opened-IsValid, run-IsValid}

module _ (job : FineGrainedTaskEntry → DispatchResult) (group : List FineGrainedTaskEntry) where
  pub step-left :
      (workers : ℕ) (s t : Pool) → PoolStep job group workers s t → left s ≡ suc (left t)
  step-left workers s t (takes i rest e free) = rw e (omega arith)
  step-left workers s t (sends before i after e) = rw e (
      omega (
        arith,
        length-append before (i ∷ after),
        length-append before after,
        length-append s.results ((i, run_at job group i) ∷ []),
      ))
  step-left workers s t (collects i r rest e) = rw e (omega arith)

  -- While the pool is not finished it can move.
  pub progress :
      (workers : ℕ) (s : Pool)
      → 0 < workers
      → IsFinished s ⊎ ((t : Pool) × PoolStep job group workers s t)
  progress workers s free = elim (List-cases s.results) [
    | inr ((i, r), rest, e) ↦ inr (_, collects i r rest e)
    | inl no_results ↦ elim (List-cases s.busy) [
      | inr (i, after, e) ↦ inr (_, sends [] i after e)
      | inl no_busy ↦ elim (List-cases s.jobs) [
        | inr (i, rest, e) ↦ inr (_, takes i rest e (rw no_busy free))
        | inl no_jobs ↦ inl (no_jobs, no_busy, no_results)
      ]
    ]
  ]

  PoolRun-left :
      (workers : ℕ) (s : Pool) (n : ℕ) (t : Pool)
      → PoolRun job group workers s n t
      → left s ≡ n + left t
  PoolRun-left workers s n t here = omega arith
  PoolRun-left workers s n u (next {n = m} {t} run step) =
      omega (arith, PoolRun-left workers s m t run, step-left workers t u step)

  finish_run :
      (workers fuel : ℕ) (s : Pool) (n : ℕ) (t : Pool)
      → 0 < workers
      → left t ≤ fuel
      → PoolRun job group workers s n t
      → (m : ℕ) × (u : Pool) × PoolRun job group workers s m u × IsFinished u
  finish_run workers zero s n t free le run = elim (progress workers t free) [
    | inl ended ↦ (n, t, run, ended)
    | inr (u, step) ↦ absurd (omega (arith, step-left workers t u step))
  ]
  finish_run workers (suc fuel) s n t free le run = elim (progress workers t free) [
    | inl ended ↦ (n, t, run, ended)
    | inr (u, step) ↦
        finish_run workers fuel s (suc n) u free (omega (arith, step-left workers t u step))
          (next run step)
  ]

  pub opened-left : left (opened group) ≡ 3 * length group
  unfolding opened
  opened-left = omega (arith, length-upto 0 (length group))
    where
      length-upto : (i n : ℕ) → length (upto i n) ≡ n
      length-upto i zero = refl
      length-upto i (suc n) = ap suc (length-upto (suc i) n)

-- Lists of one length with the same entries are equal.
same_entries :
    (job : FineGrainedTaskEntry → DispatchResult) (group : List FineGrainedTaskEntry)
    (rs : List DispatchResult)
    → length rs ≡ length group
    → ((i : ℕ) → i < length group → get_elem? rs i ≡ some (run_at job group i))
    → rs ≡ map job group
same_entries job [] [] e h = refl
same_entries job [] (r ∷ rs) e h = absurd (omega arith)
same_entries job (x ∷ group) [] e h = absurd (omega arith)
same_entries job (x ∷ group) (r ∷ rs) e h =
    let first : r ≡ job x = cc (h 0 (omega arith)) in
    let rest = same_entries job group rs (omega arith) (λ i lt. h (suc i) (omega arith)) in cc

pub pool_results :
    (job : FineGrainedTaskEntry → DispatchResult) (group : List FineGrainedTaskEntry)
    (workers n : ℕ) (t : Pool)
    → 0 < workers
    → PoolRun job group workers (opened group) n t
    → (n ≤ 3 * length group)
      × ((m : ℕ) × (u : Pool) × PoolRun job group workers (opened group) m u × IsFinished u)
      × (IsFinished t → t.final_results ≡ map job group)
pool_results job group workers n t free run = (
  omega (arith, PoolRun-left job group workers (opened group) n t run, opened-left job group),
  finish_run job group workers (left t) (opened group) n t free (omega arith) run,
  λ ended.
      let v = run-IsValid job group workers (opened group) n t (opened-IsValid job group) run in
      same_entries job group t.final_results v.sized (λ i h. elim (v.placed i h) [
        | inl k ↦ absurd (subst (In i) ended.0 k)
        | inr (inl k) ↦ absurd (subst (In i) ended.1 k)
        | inr (inr (inl k)) ↦ absurd (subst (Carries i (run_at job group i)) ended.2 k)
        | inr (inr (inr k)) ↦ k
      ]),
)
