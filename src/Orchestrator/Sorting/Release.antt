-- ===== src/Orchestrator/Sorting/Release.antt =====
-- The loop over the dependents of one task, between two rounds of the main loop.
use neuralgentics.Prelude.{
  ◌+◌, ◌-◌, ◌<◌, ap, sym, subst, ◌∙◌, String, ◌≡◌, inl, inr, true, false, List, [], ◌∷◌, ◌++◌, ◌==◌,
  ==_iff, ==_self, string_comparable, number_comparable, insert, contains, contains-append,
  append_assoc, Distinct, Unique, Unique-concat, arith, Bool-cases, ◌||◌,
}
use neuralgentics.Orchestrator.Sorting.{Work, degree_of, dependents, release, release_all}
use neuralgentics.Orchestrator.Sorting.Weights.{
  Graph, count, weight, sent, sent-append, sent-le-weight,
}
use neuralgentics.Orchestrator.Sorting.Building.{degree_of-insert}

pub Unique-left : (xs ys : List String) → Unique (xs ++ ys) → Unique xs
Unique-left [] ys u = tt
Unique-left (x ∷ xs) ys u = (ground (arith, u.0, contains-append x xs ys), Unique-left xs ys u.1)

module _ (g : Graph) (distinct : Distinct g) (K : List String) where
  -- With the ids `processed` taken from the queue, and the decrements for `pending` to come.
  pub record Balanced (processed pending : List String) (w : Work) : Type 0 where
    pub unique : Unique (processed ++ w.queue)
    pub balance :
        (x : String) → degree_of x w.degrees + sent x processed g ≡ weight x g + count x pending
    pub free : (x : String) → contains x (processed ++ w.queue) ≡ true → degree_of x w.degrees ≡ 0
    pub keyed : (x : String) → contains x (processed ++ w.queue) ≡ true → contains x K ≡ true
    pub full :
        (x : String)
        → contains x K ≡ true
        → degree_of x w.degrees ≡ 0
        → contains x (processed ++ w.queue) ≡ true

  release-Balanced :
      (processed pending : List String) (id : String) (w : Work)
      → contains id K ≡ true
      → Balanced processed (id ∷ pending) w
      → Balanced processed pending (release id w)
  release-Balanced processed pending id w key v =
      let positive : 0 < degree_of id w.degrees = ground (
        arith,
        v.balance id,
        ==_self id,
        sent-le-weight id processed g distinct (Unique-left processed w.queue v.unique),
      ) in
      let fresh : contains id (processed ++ w.queue) ≡ false =
        elim (Bool-cases (contains id (processed ++ w.queue))) [
          | inl old ↦ absurd (omega (arith, v.free id old))
          | inr new ↦ new
        ] in
      let left = degree_of id w.degrees - 1 in
      let balance : (x : String)
          → degree_of x (insert id left w.degrees) + sent x processed g
            ≡ weight x g + count x pending =
        λ x.
          ground
            (arith, v.balance x, degree_of-insert x id left w.degrees, ==_iff id x, ==_self id) in
      elim (Bool-cases (left == 0)) [
        | inl last ↦ rw last (record {
          unique =
              subst Unique (append_assoc processed w.queue (id ∷ []))
                (Unique-concat (processed ++ w.queue) id v.unique fresh);
          balance = balance;
          free = λ x h. ground (
            arith,
            queued x,
            v.free x,
            degree_of-insert x id left w.degrees,
            ==_iff id x,
            ==_iff left 0,
          );
          keyed = λ x h. ground (arith, queued x, v.keyed x, ==_iff id x);
          full = λ x k h.
              ground
                (arith, queued x, v.full x k, degree_of-insert x id left w.degrees, ==_iff id x);
        })
        | inr more ↦ rw more (record {
          unique = v.unique;
          balance = balance;
          free = λ x h. ground (arith, v.free x, degree_of-insert x id left w.degrees, ==_iff id x);
          keyed = v.keyed;
          full = λ x k h.
              ground (
                arith,
                v.full x k,
                degree_of-insert x id left w.degrees,
                ==_iff id x,
                ==_iff left 0,
              );
        })
      ]
    where
      queued :
          (x : String)
          → contains x (processed ++ (w.queue ++ id ∷ []))
            ≡ (contains x (processed ++ w.queue) || id == x)
      queued x = ground (
        arith,
        contains-append x processed (w.queue ++ id ∷ []),
        contains-append x processed w.queue,
        contains-append x w.queue (id ∷ []),
      )

  pub release_all-Balanced :
      (processed pending : List String) (w : Work)
      → ((x : String) → 0 < count x pending → contains x K ≡ true)
      → Balanced processed pending w
      → Balanced processed [] (release_all pending w)
  unfolding release_all
  release_all-Balanced processed [] w keys v = v
  release_all-Balanced processed (id ∷ pending) w keys v =
      release_all-Balanced processed pending (release id w) (λ x h. keys x (ground arith))
        (release-Balanced processed pending id w (keys id (ground (arith, ==_self id))) v)

  -- The next id leaves the queue, and its dependents are pending.
  pub next-Balanced :
      (processed : List String) (current : String) (rest : List String) (w : Work)
      → w.queue ≡ current ∷ rest
      → Balanced processed [] w
      → Balanced (processed ++ current ∷ []) (dependents current g) (record w { queue = rest })
  unfolding sent
  next-Balanced processed current rest w e v = record {
    unique = subst Unique same v.unique;
    balance = λ x. ground (arith, v.balance x, sent-append x processed (current ∷ []) g);
    free = λ x h. v.free x (subst (λ l. contains x l ≡ true) (sym same) h);
    keyed = λ x h. v.keyed x (subst (λ l. contains x l ≡ true) (sym same) h);
    full = λ x k h. subst (λ l. contains x l ≡ true) same (v.full x k h);
  }
    where
      same : processed ++ w.queue ≡ (processed ++ current ∷ []) ++ rest
      same = ap (λ l. processed ++ l) e ∙ sym (append_assoc processed (current ∷ []) rest)

  -- Where the id in front of the queue has all its prerequisites.
  pub prerequisites_processed :
      (processed : List String) (current : String) (w : Work)
      → contains current (processed ++ w.queue) ≡ true
      → Balanced processed [] w
      → (d : String) → 0 < count current (dependents d g)
      → contains d processed ≡ true
  unfolding sent
  prerequisites_processed processed current w here v d edge =
      elim (Bool-cases (contains d processed)) [
        | inl before ↦ before
        | inr later ↦ absurd (
            omega (
              arith,
              v.balance current,
              v.free current here,
              sent-le-weight current (d ∷ processed) g distinct
                  (later, Unique-left processed w.queue v.unique),
            ))
      ]
