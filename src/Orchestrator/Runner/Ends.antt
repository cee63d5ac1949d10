-- ===== src/Orchestrator/Runner/Ends.antt =====
-- How the runs of `Dispatch` end, in whatever order the workers run.
use neuralgentics.Prelude.{
  ℕ, suc, ◌+◌, ◌*◌, ◌≤◌, ◌<◌, ap, sym, subst, ◌∙◌, String, ◌≡◌, ◌⊎◌, inl, inr, refl, List, [], ◌∷◌,
  ◌++◌, Option, some, length, map, concat, map-append, take, arith, Option-cases, append_nil,
  append_assoc, length-append,
}
use neuralgentics.Orchestrator.Types.{TaskPlan, FineGrainedTaskEntry}
use neuralgentics.Orchestrator.Graph.{Outcome, done, cycle, out_of_fuel, get_parallel_groups}
use neuralgentics.Orchestrator.Graph.Fuel.{get_parallel_groups-ne-out_of_fuel}
use neuralgentics.Orchestrator.Runner.{DispatchResult, tasks_to_entries, workers_for}
use neuralgentics.Orchestrator.Runner.Pool.{opened, PoolRun, left}
use neuralgentics.Orchestrator.Runner.Results.{step-left, opened-left, progress, pool_results}
use neuralgentics.Orchestrator.Runner.Dispatch.{
  Groups, Ending, finished, no_fuel, cyclic, stopped_by, Doing, ready, pooling, looks, ended, begun,
  dispatch_start, Step, no_more, empty, alone, opens, moves, closes, stops, goes_on, Run, here,
  next,
}

-- For each group three steps, and three for each of its tasks.
abbrev pub steps_of : Groups → ℕ
steps_of [] = 0
steps_of (g ∷ gs) = 3 * length g + 3 + steps_of gs

-- The steps that are still to come.
abbrev to_come : Doing → ℕ
to_come (ready k gs rs) = suc (steps_of gs)
to_come (pooling k g gs rs p) = left p + 3 + steps_of gs
to_come (looks k gs rs) = 2 + steps_of gs
to_come (ended rs e) = 0

take_all : {A : Type 0} (xs ys : List A) → take (length xs) (xs ++ ys) ≡ xs
take_all [] ys = refl
take_all (x ∷ xs) ys = ap (λ zs. x ∷ zs) (take_all xs ys)

concat-append :
    {A : Type 0} (xs : List (List A)) (ys : List A) → concat (xs ++ ys ∷ []) ≡ concat xs ++ ys
concat-append [] ys = append_nil ys
concat-append (x ∷ xs) ys =
    ap (λ zs. x ++ zs) (concat-append xs ys) ∙ sym (append_assoc x (concat xs) ys)

module _ (job : FineGrainedTaskEntry → DispatchResult) (most : ℕ)
    (ctx_err : ℕ → Option String) where
  Step-to_come : (s t : Doing) → Step job most ctx_err s t → to_come t < to_come s
  Step-to_come s t no_more = omega arith
  Step-to_come s t empty = omega arith
  Step-to_come s t alone = omega arith
  Step-to_come s t (opens {group} big) = omega (arith, opened-left job group)
  Step-to_come s t (moves {group} {p} {q} step) =
      omega (arith, step-left job group (workers_for most group) p q step)
  Step-to_come s t (closes ended_) = omega arith
  Step-to_come s t (stops e) = omega arith
  Step-to_come s t (goes_on e) = omega arith

  Run-to_come :
      (s : Doing) (n : ℕ) (t : Doing) → Run job most ctx_err s n t → n + to_come t ≤ to_come s
  Run-to_come s n t here = omega arith
  Run-to_come s n u (next {n = m} {t} run step) =
      omega (arith, Run-to_come s m t run, Step-to_come t u step)

  -- The results for the groups before number `k`, with the groups that are left.
  record Met (all : Groups) (k : ℕ) (gs : Groups) (rs : List DispatchResult) : Type 0 where
    before : Groups
    split : all ≡ before ++ gs
    sized : length before ≡ k
    results : rs ≡ map job (concat before)

  -- The results at the end.
  abbrev pub Told : Groups → List DispatchResult → Ending → Type 0
  Told all rs finished = rs ≡ map job (concat all)
  Told all rs no_fuel = ⊥
  Told all rs (cyclic id) = ⊥
  Told all rs (stopped_by e) =
      (k : ℕ) × (ctx_err k ≡ some e) × (rs ≡ map job (concat (take (suc k) all)))

  -- It has ended with the right results, or a step is possible.
  abbrev pub Proceeds : Groups → Doing → Type 0
  Proceeds all t =
      ((rs : List DispatchResult) × (ending : Ending) × (t ≡ ended rs ending) × Told all rs ending)
      ⊎ ((u : Doing) × Step job most ctx_err t u)

  -- What holds after `n` steps.
  abbrev pub Ends : Outcome Groups → ℕ → Doing → Type 0
  Ends (done groups) n t = (n ≤ suc (steps_of groups)) × Proceeds groups t
  Ends (cycle id) n t = (n ≡ 0) × (t ≡ ended [] (cyclic id))
  Ends out_of_fuel n t = ⊥

  abbrev Reached : Groups → Doing → Type 0
  Reached all (ready k gs rs) = Met all k gs rs
  Reached all (pooling k g gs rs p) =
      Met all k (g ∷ gs) rs
      × (1 < length g)
      × ((n : ℕ) × PoolRun job g (workers_for most g) (opened g) n p)
  Reached all (looks k gs rs) = Met all (suc k) gs rs
  Reached all (ended rs e) = Told all rs e

  Met-suc :
      (all : Groups) (k : ℕ) (g : List FineGrainedTaskEntry) (gs : Groups)
      (rs new : List DispatchResult)
      → Met all k (g ∷ gs) rs
      → new ≡ map job g
      → Met all (suc k) gs (rs ++ new)
  Met-suc all k g gs rs new m e = record {
    before = m.before ++ g ∷ [];
    split = m.split ∙ sym (append_assoc m.before (g ∷ []) gs);
    sized = omega (arith, m.sized, length-append m.before (g ∷ []));
    results =
        joined (concat m.before) g rs new m.results e
        ∙ ap (map job) (sym (concat-append m.before g));
  }
    where
      joined :
          (xs ys : List FineGrainedTaskEntry) (firsts others : List DispatchResult)
          → firsts ≡ map job xs
          → others ≡ map job ys
          → firsts ++ others ≡ map job (xs ++ ys)
      joined xs ys firsts others p q = cc (p, q, map-append job xs ys)

  Met-take :
      (all : Groups) (k : ℕ) (gs : Groups) (rs : List DispatchResult)
      → Met all k gs rs
      → rs ≡ map job (concat (take k all))
  Met-take all k gs rs m =
      m.results
      ∙ ap (λ xs. map job (concat xs))
          (sym (take_all m.before gs)
            ∙ ap (λ xs. take (length m.before) xs) (sym m.split)
            ∙ ap (λ n. take n all) m.sized)

  Met-all :
      (all : Groups) (k : ℕ) (rs : List DispatchResult)
      → Met all k [] rs
      → rs ≡ map job (concat all)
  Met-all all k rs m =
      m.results ∙ ap (λ xs. map job (concat xs)) (sym (append_nil m.before) ∙ sym m.split)

  module _ (some_workers : 0 < most) (all : Groups) where
    workers_for-pos :
        (group : List FineGrainedTaskEntry) → 1 < length group → 0 < workers_for most group
    workers_for-pos group h = ground arith

    Step-Reached : (s t : Doing) → Step job most ctx_err s t → Reached all s → Reached all t
    Step-Reached s t (no_more {k} {rs}) h = Met-all all k rs h
    Step-Reached s t (empty {k} {groups} {rs}) h =
        subst (Met all (suc k) groups) (append_nil rs) (Met-suc all k [] groups rs [] h refl)
    Step-Reached s t (alone {k} {e} {groups} {rs}) h =
        Met-suc all k (e ∷ []) groups rs (job e ∷ []) h refl
    Step-Reached s t (opens big) h = (h, big, (0, PoolRun.here))
    Step-Reached s t (moves step) (h, big, (n, run)) = (h, big, (suc n, PoolRun.next run step))
    Step-Reached s t (closes {k} {group} {groups} {rs} {p} done_) (h, big, (n, run)) =
        Met-suc all k group groups rs p.final_results h (
          (pool_results job group (workers_for most group) n p (workers_for-pos group big) run).2
            done_)
    Step-Reached s t (stops {k} {groups} {rs} e) h = (k, e, Met-take all (suc k) groups rs h)
    Step-Reached s t (goes_on e) h = h

    Run-Reached :
        (s : Doing) (n : ℕ) (t : Doing) → Run job most ctx_err s n t → Reached all s → Reached all t
    Run-Reached s n t here h = h
    Run-Reached s n u (next {n = m} {t} run step) h =
        Step-Reached t u step (Run-Reached s m t run h)

    Reached-Proceeds : (t : Doing) → Reached all t → Proceeds all t
    Reached-Proceeds (ready k [] rs) h = inr (_, no_more)
    Reached-Proceeds (ready k ([] ∷ gs) rs) h = inr (_, empty)
    Reached-Proceeds (ready k ((e ∷ []) ∷ gs) rs) h = inr (_, alone)
    Reached-Proceeds (ready k ((e ∷ f ∷ g) ∷ gs) rs) h = inr (_, opens (omega arith))
    Reached-Proceeds (pooling k g gs rs p) (h, big, run) =
        elim (progress job g (workers_for most g) p (workers_for-pos g big)) [
          | inl done_ ↦ inr (_, closes done_)
          | inr (q, step) ↦ inr (_, moves step)
        ]
    Reached-Proceeds (looks k gs rs) h = elim (Option-cases (ctx_err k)) [
      | inl e ↦ inr (_, goes_on e)
      | inr (e, stop) ↦ inr (_, stops stop)
    ]
    Reached-Proceeds (ended rs e) h = inl (rs, e, refl, h)

  Run-zero : (s : Doing) (n : ℕ) (t : Doing) → n ≡ 0 → Run job most ctx_err s n t → t ≡ s
  Run-zero s n t e here = refl
  Run-zero s n t e (next run step) = absurd (omega arith)

  -- What a run that has ended returns.
  pub results-Told :
      0 < most
      → (plan : TaskPlan) (groups : Groups) (n : ℕ) (rs : List DispatchResult) (ending : Ending)
      → get_parallel_groups (tasks_to_entries plan.tasks plan.dependencies) ≡ done groups
      → Run job most ctx_err (dispatch_start plan) n (ended rs ending)
      → Told groups rs ending
  unfolding dispatch_start
  results-Told some_workers plan groups n rs ending e run =
      Run-Reached some_workers groups (ready 0 groups []) n (ended rs ending)
        (subst (λ o. Run job most ctx_err (begun o) n (ended rs ending)) e run)
        (record { before = []; split = refl; sized = refl; results = refl })

  -- With a positive limit on the workers, in whatever order they run, whatever the result of a task
  -- is and whatever the context says after each group. When the grouping fails for a cycle,
  -- `Dispatch` ends at once with that error and no results. When it succeeds, a run takes at most
  -- one step, and for each group three and three for each of its tasks; where it has not ended it
  -- can take a step, so that every run that goes on as long as it can does end; and at the end
  -- the results are those of all groups, whole and in order, or, with the error that the context
  -- gives after some group, those of the groups up to that one.
  pub dispatch_start-Ends :
      0 < most
      → (plan : TaskPlan) (n : ℕ) (t : Doing) → Run job most ctx_err (dispatch_start plan) n t
      → Ends (get_parallel_groups (tasks_to_entries plan.tasks plan.dependencies)) n t
  unfolding dispatch_start
  dispatch_start-Ends some_workers plan n t run =
      begun-Ends (get_parallel_groups (tasks_to_entries plan.tasks plan.dependencies)) refl run
    where
      begun-Ends :
          (o : Outcome Groups)
          → get_parallel_groups (tasks_to_entries plan.tasks plan.dependencies) ≡ o
          → Run job most ctx_err (begun o) n t
          → Ends o n t
      begun-Ends (done groups) e run = (
        omega (arith, Run-to_come (ready 0 groups []) n t run),
        Reached-Proceeds some_workers groups t (
            Run-Reached some_workers groups (ready 0 groups []) n t run
              (record { before = []; split = refl; sized = refl; results = refl })),
      )
      begun-Ends (cycle id) e run =
          let at_once : n ≡ 0 = omega (arith, Run-to_come (ended [] (cyclic id)) n t run) in
          (at_once, Run-zero (ended [] (cyclic id)) n t at_once run)
      begun-Ends out_of_fuel e run =
          absurd
            (get_parallel_groups-ne-out_of_fuel (tasks_to_entries plan.tasks plan.dependencies) e)
