-- ===== src/Orchestrator/Graph/Cycles.antt =====
-- Cycles of prerequisites, and how the grouping tells of them.
use neuralgentics.Prelude.{
  ℕ, zero, suc, subst, sym, ◌∙◌, ◌+◌, ◌<◌, String, ◌≡◌, refl, Bool, true, false, List, [], ◌∷◌,
  Option, none, some, ==_iff, string_comparable, number_comparable, lookup, lookup-insert, arith,
  inl, inr, In, String-discrete,
}
use neuralgentics.Orchestrator.Types.{FineGrainedTaskEntry}
use neuralgentics.Orchestrator.Graph.{
  DepsMap, deps_of, task_map, fuel_for, DepthState, fresh_state, Outcome, done, cycle, out_of_fuel,
  ◌>>=◌, larger, Visit, deps_depth, marked, start, finish, expand, unknown, known, compute_depth,
  compute_all, get_parallel_groups, groups_from, max_depth,
}
use neuralgentics.Orchestrator.Graph.Depth.{Depth, Depth-dep, Depth-unique, Ends}
use neuralgentics.Orchestrator.Graph.Frame.{SameMarks, SameMarks-IsFrame, compute_depth_frame}
use neuralgentics.Orchestrator.Graph.Groups.{has-Depth}

-- One or more steps from a task to a prerequisite.
pub data Needs (m : DepsMap) (a : String) : String → Type 0 where
  directly : {b : String} → In b (deps_of m a) → Needs m a b
  through : {b c : String} → Needs m a b → In c (deps_of m b) → Needs m a c

-- If the call ends with the error, its id is on a cycle.
abbrev pub Blames {ℓ} : {A : Type ℓ} → DepsMap → Outcome A → Type 0
Blames m (done a) = Unit
Blames m (cycle id) = Needs m id id
Blames m out_of_fuel = Unit

Blames-bind :
    {A B : Type 0} (m : DepsMap) (P : A → Type 0) (o : Outcome A) (f : A → Outcome B)
    → Blames m o
    → Ends o P
    → ((a : A) → P a → Blames m (f a))
    → Blames m (o >>= f)
Blames-bind m P (done a) f h p k = k a p
Blames-bind m P (cycle id) f h p k = h
Blames-bind m P out_of_fuel f h p k = tt

-- The marked ids are those under way: each of them needs the id that is visited.
abbrev UnderWay : DepsMap → String → DepthState → Type 0
UnderWay m id st = (k : String) → marked k st ≡ true → Needs m k id

module _ (m : DepsMap) where
  start-UnderWay :
      (id x : String) (st : DepthState)
      → UnderWay m id st
      → In x (deps_of m id)
      → UnderWay m x (start id st)
  start-UnderWay id x st h dep k p = elim (String-discrete id k) [
    | yes same ↦ subst (λ j. Needs m j x) same (directly dep)
    | no other ↦
        through (h k (ground (arith, lookup-insert id k true st.computing, ==_iff id k))) dep
  ]

  same-UnderWay : (x : String) (a b : DepthState) → SameMarks a b → UnderWay m x a → UnderWay m x b
  same-UnderWay x a b s h k p = h k (sym (s k) ∙ p)

  module _ (visit : Visit)
      (blames : (id : String) (st : DepthState) → UnderWay m id st → Blames m (visit id st))
      (kept : (id : String) (st : DepthState) → Ends (visit id st) (λ r. SameMarks st r.1)) where
    deps_depth-Blames :
        (ids : List String) (a : ℕ) (st : DepthState)
        → ((x : String) → In x ids → UnderWay m x st)
        → Blames m (deps_depth visit ids a st)
    unfolding deps_depth
    deps_depth-Blames [] a st h = tt
    deps_depth-Blames (id ∷ ids) a st h =
        Blames-bind m (λ r. SameMarks st r.1) (visit id st)
          (λ r. deps_depth visit ids (larger a r.0) r.1) (blames id st (h id (inl refl)))
          (kept id st)
          λ r p.
            deps_depth-Blames ids (larger a r.0) r.1 (λ x k. same-UnderWay x st r.1 p (h x (inr k)))

    expand-Blames :
        (id : String) (ids : List String) (st : DepthState)
        → ((x : String) → In x ids → UnderWay m x st)
        → Blames m (expand visit id ids st)
    unfolding expand
    expand-Blames id [] st h = tt
    expand-Blames id (x ∷ xs) st h =
        Blames-done (deps_depth visit (x ∷ xs) 0 st) (λ r. (r.0 + 1, finish id (r.0 + 1) r.1))
          (deps_depth-Blames (x ∷ xs) 0 st h)
      where
        Blames-done :
            {A B : Type 0} (o : Outcome A) (f : A → B)
            → Blames m o
            → Blames m (o >>= λ a. done (f a))
        Blames-done (done a) f b = tt
        Blames-done (cycle i) f b = b
        Blames-done out_of_fuel f b = tt

    unknown-Blames :
        (id : String) (st : DepthState) (b : Bool)
        → marked id st ≡ b
        → UnderWay m id st
        → Blames m (unknown m visit id st b)
    unfolding unknown
    unknown-Blames id st true e h = h id e
    unknown-Blames id st false e h =
        expand-Blames id (deps_of m id) (start id st) (λ x dep. start-UnderWay id x st h dep)

    known-Blames :
        (id : String) (st : DepthState) (o : Option ℕ)
        → UnderWay m id st
        → Blames m (known m visit id st o)
    unfolding known
    known-Blames id st none h = unknown-Blames id st (marked id st) refl h
    known-Blames id st (some d) h = tt

  compute_depth-Blames :
      (fuel : ℕ) (id : String) (st : DepthState)
      → UnderWay m id st
      → Blames m (compute_depth fuel m id st)
  unfolding compute_depth
  compute_depth-Blames zero id st h = tt
  compute_depth-Blames (suc fuel) id st h =
      known-Blames (λ j s. compute_depth fuel m j s) (compute_depth-Blames fuel)
        (compute_depth_frame m SameMarks SameMarks-IsFrame fuel) id st (lookup id st.depths) h

  compute_all-Blames :
      (fuel : ℕ) (ts : List FineGrainedTaskEntry) (st : DepthState)
      → ((x : String) → UnderWay m x st)
      → Blames m (compute_all fuel m ts st)
  unfolding compute_all
  compute_all-Blames fuel [] st h = tt
  compute_all-Blames fuel (t ∷ ts) st h =
      Blames-bind m (λ r. SameMarks st r.1) (compute_depth fuel m t.id st)
        (λ r. compute_all fuel m ts r.1) (compute_depth-Blames fuel t.id st (h t.id))
        (compute_depth_frame m SameMarks SameMarks-IsFrame fuel t.id st)
        λ r p. compute_all-Blames fuel ts r.1 (λ x. same-UnderWay x st r.1 p (h x))

fresh_state-UnderWay : (m : DepsMap) (x : String) → UnderWay m x fresh_state
unfolding lookup
fresh_state-UnderWay m x k p = absurd (cc p)

Needs-Depth :
    (m : DepsMap) (a b : String) (d : ℕ)
    → Depth m a d
    → Needs m a b
    → (e : ℕ) × Depth m b e × (e < d)
Needs-Depth m a b d deep (directly dep) = Depth-dep dep deep
Needs-Depth m a c d deep (through {b} path dep) =
    let (e, there, lt) = Needs-Depth m a b d deep path in
    let (e', there', lt') = Depth-dep dep there in (e', there', omega arith)

pub get_parallel_groups-Needs :
    (tasks : List FineGrainedTaskEntry)
    → ((id : String) → get_parallel_groups tasks ≡ cycle id → Needs (task_map tasks) id id)
      × ((groups : List (List FineGrainedTaskEntry)) (t : FineGrainedTaskEntry)
          → get_parallel_groups tasks ≡ done groups
          → In t tasks
          → ¬ Needs (task_map tasks) t.id t.id)
unfolding get_parallel_groups
get_parallel_groups-Needs tasks = (failed tasks, succeeded tasks)
  where
    named :
        (m : DepsMap) (o : Outcome DepthState) (f : DepthState → List (List FineGrainedTaskEntry))
        (id : String)
        → Blames m o
        → (o >>= λ st. done (f st)) ≡ cycle id
        → Needs m id id
    named m (done st) f id b h = absurd (cc h)
    named m (cycle j) f id b h = let same : j ≡ id = cc h in subst (λ k. Needs m k k) same b
    named m out_of_fuel f id b h = absurd (cc h)

    failed :
        (ts : List FineGrainedTaskEntry) (id : String)
        → get_parallel_groups ts ≡ cycle id
        → Needs (task_map ts) id id
    failed [] id h = absurd (cc h)
    failed (t ∷ ts) id h =
        let m = task_map (t ∷ ts) in
        named m (compute_all (fuel_for m) m (t ∷ ts) fresh_state)
          (λ st. groups_from (t ∷ ts) st.depths 0 (suc (max_depth 0 st.depths))) id
          (compute_all-Blames m (fuel_for m) (t ∷ ts) fresh_state (fresh_state-UnderWay m)) h

    succeeded :
        (ts : List FineGrainedTaskEntry) (groups : List (List FineGrainedTaskEntry))
        (t : FineGrainedTaskEntry)
        → get_parallel_groups ts ≡ done groups
        → In t ts
        → ¬ Needs (task_map ts) t.id t.id
    succeeded ts groups t ok k path =
        let (d, deep) = has-Depth ts groups t ok k in
        let (e, deep', lt) = Needs-Depth (task_map ts) t.id t.id d deep path in
        absurd (omega (arith, Depth-unique deep deep'))
