-- ===== src/Orchestrator/Runner/Invariant.antt =====
-- Where the indices of the group are on their way through the pool.
use neuralgentics.Prelude.{
  ℕ, zero, suc, ◌+◌, ◌≤◌, ◌<◌, ap, sym, subst, ◌∙◌, ◌≡◌, ◌≢◌, ◌⊎◌, inl, inr, refl, List, [], ◌∷◌,
  ◌++◌, some, length, In, In-append_iff, get_elem?, arith, Bool-cases, ◌==◌, ==_iff,
  number_comparable,
}
use neuralgentics.Orchestrator.Types.{FineGrainedTaskEntry}
use neuralgentics.Orchestrator.Runner.{DispatchResult}
use neuralgentics.Orchestrator.Runner.Pool.{
  Pool, store, upto, repeated, Carries, opened, PoolStep, takes, sends, collects, PoolRun, here,
  next, run_at,
}

module _ (job : FineGrainedTaskEntry → DispatchResult) (group : List FineGrainedTaskEntry) where
  -- The index is waiting, with a worker, on its way to the collector, or stored.
  abbrev pub Placed : Pool → ℕ → Type 0
  Placed s i =
      In i s.jobs
      ⊎ (In i s.busy
          ⊎ (In (i, run_at job group i) s.results
              ⊎ (get_elem? s.final_results i ≡ some (run_at job group i))))

  pub record IsValid (s : Pool) : Type 0 where
    pub placed : (i : ℕ) → i < length group → Placed s i
    pub right : (i : ℕ) (r : DispatchResult) → In (i, r) s.results → r ≡ run_at job group i
    pub sized : length s.final_results ≡ length group

  length-store :
      (i : ℕ) (r : DispatchResult) (xs : List DispatchResult) → length (store i r xs) ≡ length xs
  length-store i r [] = refl
  length-store zero r (x ∷ xs) = refl
  length-store (suc i) r (x ∷ xs) = ap suc (length-store i r xs)

  get_elem?-store_same :
      (i : ℕ) (r : DispatchResult) (xs : List DispatchResult)
      → i < length xs
      → get_elem? (store i r xs) i ≡ some r
  get_elem?-store_same i r [] h = absurd (omega arith)
  get_elem?-store_same zero r (x ∷ xs) h = refl
  get_elem?-store_same (suc i) r (x ∷ xs) h = get_elem?-store_same i r xs (omega arith)

  get_elem?-store_other :
      (i j : ℕ) (r : DispatchResult) (xs : List DispatchResult)
      → i ≢ j
      → get_elem? (store i r xs) j ≡ get_elem? xs j
  get_elem?-store_other i j r [] ne = refl
  get_elem?-store_other zero zero r (x ∷ xs) ne = absurd (ne refl)
  get_elem?-store_other zero (suc j) r (x ∷ xs) ne = refl
  get_elem?-store_other (suc i) zero r (x ∷ xs) ne = refl
  get_elem?-store_other (suc i) (suc j) r (x ∷ xs) ne =
      get_elem?-store_other i j r xs (λ e. ne (ap suc e))

  step-IsValid : (workers : ℕ) (s t : Pool) → IsValid s → PoolStep job group workers s t → IsValid t
  step-IsValid workers s t v (takes i rest e free) = record {
    placed = λ j h. moved j (v.placed j h);
    right = v.right;
    sized = v.sized;
  }
    where
      moved : (j : ℕ) → Placed s j → Placed (record s { jobs = rest; busy = i ∷ s.busy }) j
      moved j (inl k) = elim (subst (In j) e k) [
        | inl same ↦ inr (inl (inl same))
        | inr later ↦ inl later
      ]
      moved j (inr (inl k)) = inr (inl (inr k))
      moved j (inr (inr k)) = inr (inr k)
  step-IsValid workers s t v (sends before i after e) = record {
    placed = λ j h. moved j (v.placed j h);
    right = λ j r k. elim ((In-append_iff (j, r) s.results ((i, run_at job group i) ∷ [])).0 k) [
      | inl old ↦ v.right j r old
      | inr new ↦ only j r new
    ];
    sized = v.sized;
  }
    where
      only :
          (j : ℕ) (r : DispatchResult)
          → Carries j r ((i, run_at job group i) ∷ [])
          → r ≡ run_at job group j
      only j r (inl same) = ap (λ p. p.1) same ∙ ap (run_at job group) (sym (ap (λ p. p.0) same))
      only j r (inr k) = absurd k

      moved :
          (j : ℕ)
          → Placed s j
          → Placed
              (record s {
                busy = before ++ after;
                results = s.results ++ (i, run_at job group i) ∷ [];
              })
              j
      moved j (inl k) = inl k
      moved j (inr (inl k)) = elim ((In-append_iff j before (i ∷ after)).0 (subst (In j) e k)) [
        | inl b ↦ inr (inl ((In-append_iff j before after).1 (inl b)))
        | inr (inl same) ↦ inr (
            inr (
              inl (
                (In-append_iff (j, run_at job group j) s.results ((i, run_at job group i) ∷ [])).1
                  (inr (inl (ap (λ x. (x, run_at job group x)) same))))))
        | inr (inr a) ↦ inr (inl ((In-append_iff j before after).1 (inr a)))
      ]
      moved j (inr (inr (inl k))) = inr (
          inr (
            inl (
              (In-append_iff (j, run_at job group j) s.results ((i, run_at job group i) ∷ [])).1
                (inl k))))
      moved j (inr (inr (inr k))) = inr (inr (inr k))
  step-IsValid workers s t v (collects i r rest e) = record {
    placed = λ j h. moved j h (v.placed j h);
    right = λ j q k. v.right j q (subst (Carries j q) (sym e) (inr k));
    sized = length-store i r s.final_results ∙ v.sized;
  }
    where
      is_run : r ≡ run_at job group i
      is_run = v.right i r (subst (Carries i r) (sym e) (inl refl))

      stored :
          (j : ℕ)
          → j < length group
          → i ≡ j
          → get_elem? (store i r s.final_results) j ≡ some (run_at job group j)
      stored j h same =
          subst (λ x. get_elem? (store i r s.final_results) x ≡ some (run_at job group x)) same
            (get_elem?-store_same i r s.final_results (omega (arith, v.sized)) ∙ ap some is_run)

      moved :
          (j : ℕ)
          → j < length group
          → Placed s j
          → Placed (record s { results = rest; final_results = store i r s.final_results }) j
      moved j h (inl k) = inl k
      moved j h (inr (inl k)) = inr (inl k)
      moved j h (inr (inr (inl k))) = elim (subst (Carries j (run_at job group j)) e k) [
        | inl same ↦ inr (inr (inr (stored j h (sym (ap (λ p. p.0) same)))))
        | inr later ↦ inr (inr (inl later))
      ]
      moved j h (inr (inr (inr k))) = elim (Bool-cases (i == j)) [
        | inl same ↦ inr (inr (inr (stored j h ((==_iff i j).0 same))))
        | inr other ↦ inr (
            inr (
              inr (
                get_elem?-store_other i j r s.final_results
                  (λ same. absurd (cc (other, (==_iff i j).1 same)))
                ∙ k)))
      ]

  In-upto : (i n j : ℕ) → i ≤ j → j < i + n → In j (upto i n)
  In-upto i zero j p q = absurd (omega arith)
  In-upto i (suc n) j p q = elim (Bool-cases (i == j)) [
    | inl same ↦ inl (sym ((==_iff i j).0 same))
    | inr other ↦ inr (In-upto (suc i) n j (ground (arith, ==_iff i j)) (omega arith))
  ]

  length-repeated : (n : ℕ) → length (repeated n) ≡ n
  length-repeated zero = refl
  length-repeated (suc n) = ap suc (length-repeated n)

  pub opened-IsValid : IsValid (opened group)
  unfolding opened
  opened-IsValid = record {
    placed = λ i h. inl (In-upto 0 (length group) i (omega arith) (omega arith));
    right = λ i r k. absurd k;
    sized = length-repeated (length group);
  }

  pub run-IsValid :
      (workers : ℕ) (s : Pool) (n : ℕ) (t : Pool)
      → IsValid s
      → PoolRun job group workers s n t
      → IsValid t
  run-IsValid workers s n t v here = v
  run-IsValid workers s n u v (next {n = m} {t} run step) =
      step-IsValid workers t u (run-IsValid workers s m t v run) step
