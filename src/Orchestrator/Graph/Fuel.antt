-- ===== src/Orchestrator/Graph/Fuel.antt =====
-- The fuel of `GetParallelGroups`: each nested call marks one more task.
use neuralgentics.Prelude.{
  ℕ, zero, suc, ◌+◌, ◌≤◌, ◌<◌, String, ◌≡◌, ◌≢◌, refl, Bool, true, false, List, [], ◌∷◌, Option,
  none, some, ◌==◌, ==_iff, string_comparable, lookup, if◌then◌else◌, lookup-insert, arith, ◌||◌,
  contains, keys, lookup-eq-none_iff, length, Bool-cases, inl, inr,
}
use neuralgentics.Orchestrator.Types.{FineGrainedTaskEntry}
use neuralgentics.Orchestrator.Graph.{
  DepsMap, deps_of, task_map, fuel_for, DepthState, Outcome, done, cycle, out_of_fuel, ◌>>=◌,
  larger, Visit, deps_depth, marked, start, finish, expand, unknown, known, compute_depth,
  compute_all, get_parallel_groups, groups_from, max_depth, fresh_state,
}
use neuralgentics.Orchestrator.Graph.Depth.{Ends}
use neuralgentics.Orchestrator.Graph.Frame.{SameMarks, SameMarks-IsFrame, compute_depth_frame}

-- The number of entries whose id is not marked.
pub unmarked : DepsMap → DepthState → ℕ
unmarked [] st = 0
unmarked ((id, t) ∷ m) st = (if marked id st then 0 else 1) + unmarked m st

unmarked-same : (m : DepsMap) (a b : DepthState) → SameMarks a b → unmarked m b ≡ unmarked m a
unfolding unmarked
unmarked-same [] a b h = refl
unmarked-same ((id, t) ∷ m) a b h = ground (arith, h id, unmarked-same m a b h)

marked-start : (id j : String) (st : DepthState) → marked j (start id st) ≡ (id == j || marked j st)
marked-start id j st = ground (arith, lookup-insert id j true st.computing)

unmarked-start-le :
    (m : DepsMap) (id : String) (st : DepthState) → unmarked m (start id st) ≤ unmarked m st
unfolding unmarked
unmarked-start-le [] id st = omega arith
unmarked-start-le ((j, t) ∷ m) id st =
    ground (arith, marked-start id j st, unmarked-start-le m id st)

unmarked-start-lt :
    (m : DepsMap) (id : String) (st : DepthState)
    → contains id (keys m) ≡ true
    → marked id st ≡ false
    → unmarked m (start id st) < unmarked m st
unfolding unmarked
unmarked-start-lt [] id st h k = cc
unmarked-start-lt ((j, t) ∷ m) id st h k = ground (
  arith,
  marked-start id j st,
  unmarked-start-le m id st,
  unmarked-start-lt m id st,
  ==_iff j id,
  ==_iff id j,
)

unmarked-le : (m : DepsMap) (st : DepthState) → unmarked m st ≤ length m
unfolding unmarked
unmarked-le [] st = omega arith
unmarked-le ((j, t) ∷ m) st = ground (arith, unmarked-le m st)

-- The call does not run out of fuel.
abbrev pub Enough {ℓ} : {A : Type ℓ} → Outcome A → Type 0
Enough (done a) = Unit
Enough (cycle id) = Unit
Enough out_of_fuel = ⊥

pub Enough-bind :
    {A B : Type 0} (P : A → Type 0) (o : Outcome A) (f : A → Outcome B)
    → Enough o
    → Ends o P
    → ((a : A) → P a → Enough (f a))
    → Enough (o >>= f)
Enough-bind P (done a) f h p k = k a p
Enough-bind P (cycle id) f h p k = tt
Enough-bind P out_of_fuel f h p k = absurd h

module _ (m : DepsMap) where
  module _ (visit : Visit) (bound : ℕ)
      (enough : (id : String) (st : DepthState) → unmarked m st < bound → Enough (visit id st))
      (kept : (id : String) (st : DepthState) → Ends (visit id st) (λ r. SameMarks st r.1)) where
    deps_depth-Enough :
        (ids : List String) (a : ℕ) (st : DepthState)
        → unmarked m st < bound
        → Enough (deps_depth visit ids a st)
    unfolding deps_depth
    deps_depth-Enough [] a st h = tt
    deps_depth-Enough (id ∷ ids) a st h =
        Enough-bind (λ r. SameMarks st r.1) (visit id st)
          (λ r. deps_depth visit ids (larger a r.0) r.1) (enough id st h) (kept id st)
          λ r p. deps_depth-Enough ids (larger a r.0) r.1 (omega (arith, unmarked-same m st r.1 p))

    expand-Enough :
        (id : String) (ids : List String) (st : DepthState)
        → (ids ≢ [] → unmarked m st < bound)
        → Enough (expand visit id ids st)
    unfolding expand
    expand-Enough id [] st h = tt
    expand-Enough id (x ∷ xs) st h =
        Enough-bind (λ r. Unit {0}) (deps_depth visit (x ∷ xs) 0 st)
          (λ r. done (r.0 + 1, finish id (r.0 + 1) r.1))
          (deps_depth-Enough (x ∷ xs) 0 st (h (λ e. cc))) (trivial (deps_depth visit (x ∷ xs) 0 st))
          (λ r p. tt)
      where
        trivial : {A : Type 0} (o : Outcome A) → Ends o (λ r. Unit {0})
        trivial (done a) = tt
        trivial (cycle i) = tt
        trivial out_of_fuel = tt

    -- An id with prerequisites is the id of a task.
    is_task : (id : String) → deps_of m id ≢ [] → contains id (keys m) ≡ true
    unfolding deps_of
    is_task id h = elim (Bool-cases (contains id (keys m))) [
      | inl e ↦ e
      | inr e ↦ absurd (h (ground (arith, lookup-eq-none_iff id m)))
    ]

    unknown-Enough :
        (id : String) (st : DepthState) (b : Bool)
        → marked id st ≡ b
        → unmarked m st < suc bound
        → Enough (unknown m visit id st b)
    unfolding unknown
    unknown-Enough id st true e h = tt
    unknown-Enough id st false e h =
        expand-Enough id (deps_of m id) (start id st)
          λ some_deps. omega (arith, unmarked-start-lt m id st (is_task id some_deps) e)

    known-Enough :
        (id : String) (st : DepthState) (o : Option ℕ)
        → unmarked m st < suc bound
        → Enough (known m visit id st o)
    unfolding known
    known-Enough id st none h = unknown-Enough id st (marked id st) refl h
    known-Enough id st (some d) h = tt

  compute_depth-Enough :
      (fuel : ℕ) (id : String) (st : DepthState)
      → unmarked m st < fuel
      → Enough (compute_depth fuel m id st)
  unfolding compute_depth
  compute_depth-Enough zero id st h = absurd (omega arith)
  compute_depth-Enough (suc fuel) id st h =
      known-Enough (λ j s. compute_depth fuel m j s) fuel (compute_depth-Enough fuel)
        (compute_depth_frame m SameMarks SameMarks-IsFrame fuel) id st (lookup id st.depths) h

  compute_all-Enough :
      (ts : List FineGrainedTaskEntry) (st : DepthState) → Enough (compute_all (fuel_for m) m ts st)
  unfolding compute_all
  compute_all-Enough [] st = tt
  compute_all-Enough (t ∷ ts) st =
      Enough-bind (λ r. SameMarks st r.1) (compute_depth (fuel_for m) m t.id st)
        (λ r. compute_all (fuel_for m) m ts r.1)
        (compute_depth-Enough (fuel_for m) t.id st (omega (arith, unmarked-le m st)))
        (compute_depth_frame m SameMarks SameMarks-IsFrame (fuel_for m) t.id st)
        λ r p. compute_all-Enough ts r.1

-- Whatever the tasks, and also where they depend on one another in a cycle, `GetParallelGroups`
-- ends with groups or with the error: the fuel of one call more than there are task ids is enough.
pub get_parallel_groups-ne-out_of_fuel :
    (tasks : List FineGrainedTaskEntry) → get_parallel_groups tasks ≢ out_of_fuel
unfolding get_parallel_groups
get_parallel_groups-ne-out_of_fuel [] h = cc
get_parallel_groups-ne-out_of_fuel (t ∷ ts) h =
    let m = task_map (t ∷ ts) in
    go (compute_all (fuel_for m) m (t ∷ ts) fresh_state) (compute_all-Enough m (t ∷ ts) fresh_state)
      h
  where
    go :
        (o : Outcome DepthState)
        → Enough o
        → (o >>= λ st. done (groups_from (t ∷ ts) st.depths 0 (suc (max_depth 0 st.depths))))
          ≡ out_of_fuel
        → ⊥
    go (done st) e p = cc
    go (cycle id) e p = cc
    go out_of_fuel e p = e
