-- ===== src/Orchestrator/Runner/Pool.antt =====
-- The worker pool of `dispatchGroup`: the channel `jobs`, the workers, the channel `results`, and
-- the loop that collects. Both channels have room for all their messages, so no send waits, and a
-- worker that takes a job early does nothing that it could not do once all jobs are sent.
use neuralgentics.Prelude.{
  ℕ, zero, suc, ◌+◌, ◌*◌, ◌<◌, ◌≡◌, List, [], ◌∷◌, ◌++◌, Option, none, some, length, In, get_elem?,
  number_comparable,
}
use neuralgentics.Orchestrator.Types.{FineGrainedTaskEntry}
use neuralgentics.Orchestrator.Runner.{DispatchResult, no_result}

pub record Pool : Type 0 where
  pub jobs : List ℕ
  pub busy : List ℕ
  pub results : List (ℕ × DispatchResult)
  pub final_results : List DispatchResult

-- finalResults[i] = r
abbrev pub store : ℕ → DispatchResult → List DispatchResult → List DispatchResult
store i r [] = []
store zero r (x ∷ xs) = r ∷ xs
store (suc i) r (x ∷ xs) = x ∷ store i r xs

-- The indices of the group, from `i` on.
abbrev pub upto : ℕ → ℕ → List ℕ
upto i zero = []
upto i (suc n) = i ∷ upto (suc i) n

abbrev pub repeated : ℕ → List DispatchResult
repeated zero = []
repeated (suc n) = no_result ∷ repeated n

-- The message is in the channel.
abbrev pub Carries : ℕ → DispatchResult → List (ℕ × DispatchResult) → Type 0
Carries i r sent = In (i, r) sent

-- All jobs are sent and the channel is closed.
unfoldable pub opened : List FineGrainedTaskEntry → Pool
opened group = record {
  jobs = upto 0 (length group);
  busy = [];
  results = [];
  final_results = repeated (length group);
}

-- The workers have left, and both channels are empty.
abbrev pub IsFinished : Pool → Type 0
IsFinished s = (s.jobs ≡ []) × (s.busy ≡ []) × (s.results ≡ [])

-- The messages and moves that are still to come.
abbrev pub left : Pool → ℕ
left s = 3 * length s.jobs + 2 * length s.busy + length s.results

module _ (job : FineGrainedTaskEntry → DispatchResult) (group : List FineGrainedTaskEntry) where
  abbrev at : Option FineGrainedTaskEntry → DispatchResult
  at none = no_result
  at (some e) = job e

  -- The result for group[i].
  abbrev pub run_at : ℕ → DispatchResult
  run_at i = at (get_elem? group i)

  -- A free worker takes the next job; a worker sends the result of its job; the collector stores
  -- the next result.
  pub data PoolStep (workers : ℕ) (s : Pool) : Pool → Type 0 where
    takes :
        (i : ℕ) (rest : List ℕ)
        → s.jobs ≡ i ∷ rest
        → length s.busy < workers
        → PoolStep workers s (record s { jobs = rest; busy = i ∷ s.busy })
    sends :
        (before : List ℕ) (i : ℕ) (after : List ℕ)
        → s.busy ≡ before ++ i ∷ after
        → PoolStep workers s
            (record s { busy = before ++ after; results = s.results ++ (i, run_at i) ∷ [] })
    collects :
        (i : ℕ) (r : DispatchResult) (rest : List (ℕ × DispatchResult))
        → s.results ≡ (i, r) ∷ rest
        → PoolStep workers s
            (record s { results = rest; final_results = store i r s.final_results })

  pub data PoolRun (workers : ℕ) (s : Pool) : ℕ → Pool → Type 0 where
    here : PoolRun workers s 0 s
    next :
        {n : ℕ} {t u : Pool}
        → PoolRun workers s n t
        → PoolStep workers t u
        → PoolRun workers s (suc n) u
