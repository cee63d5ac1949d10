-- ===== src/Orchestrator/Sorting/Drain.antt =====
-- The main loop: its order, and its fuel.
use neuralgentics.Prelude.{
  length-append, ℕ, zero, suc, ◌≤◌, ◌<◌, sym, subst, ◌∙◌, String, ◌≡◌, inl, inr, refl, true, false,
  not, List, [], ◌∷◌, ◌++◌, some, ==_iff, ==_self, string_comparable, lookup, length, contains,
  contains-append, append_assoc, Distinct, Unique, select, arith, Bool-cases, List-cases, In,
  In-append_iff, All, All-append,
}
use neuralgentics.Orchestrator.Types.{FineGrainedTaskEntry}
use neuralgentics.Orchestrator.Graph.{DepsMap}
use neuralgentics.Orchestrator.Sorting.{Work, dependents, release_all, appended, drain}
use neuralgentics.Orchestrator.Sorting.Weights.{Graph, count}
use neuralgentics.Orchestrator.Sorting.Release.{
  Balanced, release_all-Balanced, next-Balanced, prerequisites_processed,
}

-- Every prerequisite of a task stands before it, among `before` or earlier in the list.
abbrev pub InOrder : List FineGrainedTaskEntry → List FineGrainedTaskEntry → Type 0
InOrder before [] = Unit
InOrder before (t ∷ ts) =
    ((dep : String) → In dep t.depends_on → (u : FineGrainedTaskEntry) × In u before × (u.id ≡ dep))
    × InOrder (before ++ t ∷ []) ts

InOrder-concat :
    (before ts : List FineGrainedTaskEntry) (t : FineGrainedTaskEntry)
    → InOrder before ts
    → ((dep : String)
        → In dep t.depends_on
        → (u : FineGrainedTaskEntry) × In u (before ++ ts) × (u.id ≡ dep))
    → InOrder before (ts ++ t ∷ [])
InOrder-concat before [] t h k = (
  (λ dep d.
      let (u, in_both, same) = k dep d in
      (u, elim ((In-append_iff u before []).0 in_both) [ inl b ↦ b | inr n ↦ absurd n ], same)),
  tt,
)
InOrder-concat before (x ∷ ts) t h k = (
  h.0,
  InOrder-concat (before ++ x ∷ []) ts t h.1 (λ dep d.
      let (u, there, same) = k dep d in
      (u, subst (In u) (sym (append_assoc before (x ∷ []) ts)) there, same)),
)

Unique-middle :
    (xs : List String) (y : String) (ys : List String)
    → Unique (xs ++ y ∷ ys)
    → contains y xs ≡ false
Unique-middle [] y ys u = refl
Unique-middle (x ∷ xs) y ys u = ground (
  arith,
  Unique-middle xs y ys u.1,
  contains-append x xs (y ∷ ys),
  ==_iff x y,
  ==_iff y x,
  ==_self y,
)

-- The ids that are not processed yet.
abbrev pub remaining : List String → List String → List String
remaining processed K = select (λ k. not (contains k processed)) K

remaining-le :
    (processed : List String) (x : String) (K : List String)
    → length (remaining (processed ++ x ∷ []) K) ≤ length (remaining processed K)
remaining-le processed x [] = omega arith
remaining-le processed x (k ∷ K) =
    ground (arith, remaining-le processed x K, contains-append k processed (x ∷ []))

remaining-lt :
    (processed : List String) (x : String) (K : List String)
    → contains x processed ≡ false
    → contains x K ≡ true
    → length (remaining (processed ++ x ∷ []) K) < length (remaining processed K)
remaining-lt processed x [] h k = absurd (cc k)
remaining-lt processed x (y ∷ K) h k = ground (
  arith,
  remaining-le processed x K,
  remaining-lt processed x K h,
  contains-append y processed (x ∷ []),
  ==_iff y x,
  ==_iff x y,
)

module _ (tasks : List FineGrainedTaskEntry) (m : DepsMap) (g : Graph) (K : List String)
    (distinct : Distinct g)
    (keyed : (x d : String) → 0 < count x (dependents d g) → contains x K ≡ true)
    (named : (x : String)
      → contains x K ≡ true
      → (t : FineGrainedTaskEntry) × (lookup x m ≡ some t) × (t.id ≡ x) × In t tasks)
    (edges : (t : FineGrainedTaskEntry) (d : String)
      → In t tasks
      → In d t.depends_on
      → 0 < count t.id (dependents d g)) where
  -- What the list of sorted tasks is for the ids that were taken from the queue.
  pub record Sorted (processed : List String) (sorted : List FineGrainedTaskEntry) : Type 0 where
    pub in_order : InOrder [] sorted
    pub sized : length sorted ≡ length processed
    pub from_tasks : All (λ t. In t tasks) sorted
    pub present :
        (x : String)
        → contains x processed ≡ true
        → (u : FineGrainedTaskEntry) × In u sorted × (u.id ≡ x)

  next-Sorted :
      (processed : List String) (current : String) (w : Work) (sorted : List FineGrainedTaskEntry)
      → contains current (processed ++ w.queue) ≡ true
      → Balanced g distinct K processed [] w
      → Sorted processed sorted
      → Sorted (processed ++ current ∷ []) (appended sorted (lookup current m))
  next-Sorted processed current w sorted here v s =
      let (t, found, same, listed) = named current (v.keyed current here) in
      subst (λ o. Sorted (processed ++ current ∷ []) (appended sorted o)) (sym found)
        (record {
          in_order = InOrder-concat [] sorted t s.in_order (λ dep d. s.present dep (
              prerequisites_processed g distinct K processed current w here v dep
                (subst (λ x. 0 < count x (dependents dep g)) same (edges t dep listed d))));
          sized = omega (
            arith,
            s.sized,
            length-append sorted (t ∷ []),
            length-append processed (current ∷ []),
          );
          from_tasks = All-append (λ u. In u tasks) sorted (t ∷ []) s.from_tasks (listed, tt);
          present = λ x h. elim (Bool-cases (contains x processed)) [
            | inl before ↦
                let (u, in_sorted, e) = s.present x before in
                (u, (In-append_iff u sorted (t ∷ [])).1 (inl in_sorted), e)
            | inr new ↦ (
              t,
              (In-append_iff t sorted (t ∷ [])).1 (inr (inl refl)),
              same ∙ ground (arith, contains-append x processed (current ∷ []), ==_iff current x),
            )
          ];
        })

  drain_empty :
      (fuel : ℕ) (w : Work) (sorted : List FineGrainedTaskEntry)
      → w.queue ≡ []
      → drain (suc fuel) m g w sorted ≡ some sorted
  unfolding drain
  drain_empty fuel w sorted e = rw e refl

  drain_next :
      (fuel : ℕ) (w : Work) (sorted : List FineGrainedTaskEntry) (current : String)
      (rest : List String)
      → w.queue ≡ current ∷ rest
      → drain (suc fuel) m g w sorted
        ≡ drain fuel m g
            (release_all (dependents current g) (record w { queue = rest }))
            (appended sorted (lookup current m))
  unfolding drain
  drain_next fuel w sorted current rest e = rw e refl

  -- The end of the main loop.
  pub record Ended (result : List FineGrainedTaskEntry) : Type 0 where
    pub processed : List String
    pub work : Work
    pub no_queue : work.queue ≡ []
    pub balanced : Balanced g distinct K processed [] work
    pub sorted : Sorted processed result

  pub drain-Ended :
      (fuel : ℕ) (processed : List String) (w : Work) (sorted : List FineGrainedTaskEntry)
      → length (remaining processed K) < fuel
      → Balanced g distinct K processed [] w
      → Sorted processed sorted
      → (result : List FineGrainedTaskEntry) × (drain fuel m g w sorted ≡ some result)
        × Ended result
  drain-Ended zero processed w sorted lt v s = absurd (omega arith)
  drain-Ended (suc fuel) processed w sorted lt v s = elim (List-cases w.queue) [
    | inl e ↦ (
      sorted,
      drain_empty fuel w sorted e,
      record { processed = processed; work = w; no_queue = e; balanced = v; sorted = s },
    )
    | inr (current, rest, e) ↦
        let queued : contains current (processed ++ w.queue) ≡ true =
          rw e
            (ground (arith, contains-append current processed (current ∷ rest), ==_self current)) in
        let new : contains current processed ≡ false =
          Unique-middle processed current rest (subst (λ q. Unique (processed ++ q)) e v.unique) in
        let (result, finds, state) =
          drain-Ended fuel (processed ++ current ∷ [])
            (release_all (dependents current g) (record w { queue = rest }))
            (appended sorted (lookup current m))
            (omega (arith, remaining-lt processed current K new (v.keyed current queued)))
            (release_all-Balanced g distinct K (processed ++ current ∷ []) (dependents current g)
              (record w { queue = rest }) (λ x. keyed x current)
              (next-Balanced g distinct K processed current rest w e v))
            (next-Sorted processed current w sorted queued v s) in
        (result, drain_next fuel w sorted current rest e ∙ finds, state)
  ]
