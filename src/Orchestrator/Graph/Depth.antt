-- ===== src/Orchestrator/Graph/Depth.antt =====
-- The depth of a task as a relation, and what `computeDepth` returns and stores.
use neuralgentics.Prelude.{
  ℕ, subst, ap, sym, ◌∙◌, String-discrete, zero, suc, ◌+◌, ◌≤◌, ◌<◌, String, ◌≡◌, inl, inr, refl,
  Bool, true, false, List, [], ◌∷◌, Option, none, some, ==_iff, string_comparable, lookup,
  lookup-insert, arith, In,
}
use neuralgentics.Orchestrator.Graph.{
  DepsMap, deps_of, DepthState, Outcome, done, cycle, out_of_fuel, ◌>>=◌, larger, Visit, deps_depth,
  marked, start, finish, expand, unknown, known, compute_depth,
}

-- A task with no prerequisites, or an id that is no task, has depth 0; any other task is one deeper
-- than the deepest of its prerequisites. `Deepest m ids a d`: `d` is the largest of `a` and the
-- depths of the ids.
mutual
  pub data Depth (m : DepsMap) : String → ℕ → Type 0 where
    leaf : {id : String} → deps_of m id ≡ [] → Depth m id 0
    node :
        {id x : String} {xs : List String} {d : ℕ}
        → deps_of m id ≡ x ∷ xs
        → Deepest m (x ∷ xs) 0 d
        → Depth m id (suc d)

  pub data Deepest (m : DepsMap) : List String → ℕ → ℕ → Type 0 where
    none_left : {a : ℕ} → Deepest m [] a a
    next :
        {x : String} {xs : List String} {a d r : ℕ}
        → Depth m x d
        → Deepest m xs (larger a d) r
        → Deepest m (x ∷ xs) a r

-- What holds of the result where there is one.
abbrev pub Ends {ℓ κ} : {A : Type ℓ} → Outcome A → (A → Type κ) → Type κ
Ends (done a) P = P a
Ends (cycle id) P = Unit
Ends out_of_fuel P = Unit

pub Ends-bind {ℓ} :
    {A B : Type 0} (P : A → Type ℓ) (Q : B → Type ℓ) (o : Outcome A) (f : A → Outcome B)
    → Ends o P
    → ((a : A) → P a → Ends (f a) Q)
    → Ends (o >>= f) Q
Ends-bind P Q (done a) f h k = k a h
Ends-bind P Q (cycle id) f h k = tt
Ends-bind P Q out_of_fuel f h k = tt

-- Inversion of a bind that succeeds.
pub >>=-eq-done {ℓ κ} :
    {A : Type ℓ} {B : Type κ} (o : Outcome A) (f : A → Outcome B) (b : B)
    → (o >>= f) ≡ done b
    → (a : A) × (o ≡ done a) × (f a ≡ done b)
>>=-eq-done (done a) f b h = (a, refl, h)
>>=-eq-done (cycle id) f b h = cc
>>=-eq-done out_of_fuel f b h = cc

pub Ends-imp {ℓ} :
    {A : Type 0} (P Q : A → Type ℓ) (o : Outcome A) → Ends o P → ((a : A) → P a → Q a) → Ends o Q
Ends-imp P Q (done a) h k = k a h
Ends-imp P Q (cycle id) h k = tt
Ends-imp P Q out_of_fuel h k = tt

module _ (m : DepsMap) where
  -- Every depth that is stored is the depth.
  pub record IsRight (st : DepthState) : Type 0 where
    pub stored : (id : String) (d : ℕ) → lookup id st.depths ≡ some d → Depth m id d

  abbrev Found : String → ℕ × DepthState → Type 0
  Found id r = Depth m id r.0 × IsRight r.1

  start-IsRight : (id : String) (st : DepthState) → IsRight st → IsRight (start id st)
  start-IsRight id st h = record { stored = h.stored }

  finish-IsRight :
      (id : String) (d : ℕ) (st : DepthState) → IsRight st → Depth m id d → IsRight (finish id d st)
  finish-IsRight id d st h found = record {
    stored = λ j e p. elim (String-discrete id j) [
      | yes same ↦
          let q : d ≡ e = ground (arith, lookup-insert id j d st.depths, ==_iff id j) in
          subst (λ k. Depth m k e) same (subst (Depth m id) q found)
      | no other ↦ h.stored j e (ground (arith, lookup-insert id j d st.depths, ==_iff id j))
    ];
  }

  module _ (visit : Visit)
      (found : (id : String) (st : DepthState) → IsRight st → Ends (visit id st) (Found id)) where
    deps_depth-Deepest :
        (ids : List String) (a : ℕ) (st : DepthState)
        → IsRight st
        → Ends (deps_depth visit ids a st) (λ r. Deepest m ids a r.0 × IsRight r.1)
    unfolding deps_depth
    deps_depth-Deepest [] a st h = (none_left, h)
    deps_depth-Deepest (id ∷ ids) a st h =
        Ends-bind (Found id) (λ r. Deepest m (id ∷ ids) a r.0 × IsRight r.1) (visit id st) _
          (found id st h)
          λ r p.
            Ends-imp (λ r'. Deepest m ids (larger a r.0) r'.0 × IsRight r'.1)
              (λ r'. Deepest m (id ∷ ids) a r'.0 × IsRight r'.1)
              (deps_depth visit ids (larger a r.0) r.1)
              (deps_depth-Deepest ids (larger a r.0) r.1 p.1) λ r' q. (next p.0 q.0, q.1)

    expand-Depth :
        (id : String) (ids : List String) (st : DepthState)
        → deps_of m id ≡ ids
        → IsRight st
        → Ends (expand visit id ids st) (Found id)
    unfolding expand
    expand-Depth id [] st e h = (leaf e, finish-IsRight id 0 st h (leaf e))
    expand-Depth id (x ∷ xs) st e h =
        Ends-bind (λ r. Deepest m (x ∷ xs) 0 r.0 × IsRight r.1) (Found id)
          (deps_depth visit (x ∷ xs) 0 st) (λ r. done (r.0 + 1, finish id (r.0 + 1) r.1))
          (deps_depth-Deepest (x ∷ xs) 0 st h)
          λ r p.
            let q : Depth m id (r.0 + 1) = subst (Depth m id) (omega arith) (node e p.0) in
            (q, finish-IsRight id (r.0 + 1) r.1 p.1 q)

    unknown-Depth :
        (id : String) (st : DepthState) (b : Bool)
        → IsRight st
        → Ends (unknown m visit id st b) (Found id)
    unfolding unknown
    unknown-Depth id st true h = tt
    unknown-Depth id st false h =
        expand-Depth id (deps_of m id) (start id st) refl (start-IsRight id st h)

    known-Depth :
        (id : String) (st : DepthState) (o : Option ℕ)
        → lookup id st.depths ≡ o
        → IsRight st
        → Ends (known m visit id st o) (Found id)
    unfolding known
    known-Depth id st none e h = unknown-Depth id st (marked id st) h
    known-Depth id st (some d) e h = (h.stored id d e, h)

  pub compute_depth-Depth :
      (fuel : ℕ) (id : String) (st : DepthState)
      → IsRight st
      → Ends (compute_depth fuel m id st) (λ r. Depth m id r.0 × IsRight r.1)
  unfolding compute_depth
  compute_depth-Depth zero id st h = tt
  compute_depth-Depth (suc fuel) id st h =
      known-Depth (λ j s. compute_depth fuel m j s) (compute_depth-Depth fuel) id st
        (lookup id st.depths) refl h

-- The depth of an id is one number.
mutual
  pub Depth-unique : {m : DepsMap} {id : String} {d e : ℕ} → Depth m id d → Depth m id e → d ≡ e
  Depth-unique (leaf p) (leaf q) = refl
  Depth-unique (leaf p) (node q ds) = cc
  Depth-unique (node p ds) (leaf q) = cc
  Depth-unique {m} (node p ds) (node {d = e} q es) =
      ap suc (Deepest-unique ds (subst (λ l. Deepest m l 0 e) (sym q ∙ p) es))

  Deepest-unique :
      {m : DepsMap} {ids : List String} {a d e : ℕ} → Deepest m ids a d → Deepest m ids a e → d ≡ e
  Deepest-unique none_left none_left = refl
  Deepest-unique {m} (next {xs} {a} p ps) (next {r} q qs) =
      Deepest-unique ps (subst (λ k. Deepest m xs (larger a k) r) (sym (Depth-unique p q)) qs)

Deepest-le : {m : DepsMap} (ids : List String) {a d : ℕ} → Deepest m ids a d → a ≤ d
Deepest-le [] none_left = omega arith
Deepest-le (x ∷ xs) (next {a} {d} p ps) = ground (arith, Deepest-le xs ps)

-- Every id of the list has a depth that is at most the result.
Deepest-In :
    {m : DepsMap} (ids : List String) {a d : ℕ}
    → Deepest m ids a d
    → (id : String) → In id ids
    → (e : ℕ) × Depth m id e × (e ≤ d)
Deepest-In [] ds id h = absurd h
Deepest-In {m} (x ∷ xs) (next {a} {d = e} p ps) id (inl same) =
    (e, subst (λ k. Depth m k e) (sym same) p, ground (arith, Deepest-le xs ps))
Deepest-In (x ∷ xs) (next p ps) id (inr h) = Deepest-In xs ps id h

-- A prerequisite is strictly less deep than the task.
pub Depth-lt :
    {m : DepsMap} {id dep : String} {d e : ℕ}
    → In dep (deps_of m id)
    → Depth m id d
    → Depth m dep e
    → e < d
Depth-lt {dep} h (leaf p) q = absurd (subst (In dep) p h)
Depth-lt {dep} h (node {x} {xs} p ps) q =
    let (e', q', le) = Deepest-In (x ∷ xs) ps dep (subst (In dep) p h) in
    omega (arith, Depth-unique q q')

-- A prerequisite of a task that has a depth has one, and is strictly less deep.
pub Depth-dep :
    {m : DepsMap} {id dep : String} {d : ℕ}
    → In dep (deps_of m id)
    → Depth m id d
    → (e : ℕ) × Depth m dep e × (e < d)
Depth-dep {dep} h (leaf p) = absurd (subst (In dep) p h)
Depth-dep {dep} h (node {x} {xs} p ps) =
    let (e, deep, le) = Deepest-In (x ∷ xs) ps dep (subst (In dep) p h) in (e, deep, omega arith)
