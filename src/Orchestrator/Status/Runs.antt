-- ===== src/Orchestrator/Status/Runs.antt =====
-- Runs of the state machine: sequences of transitions that `CanTransition` allows.
use neuralgentics.Prelude.{ℕ, subst, ◌+◌, ◌≤◌, ◌<◌, ◌≡◌, ◌⊎◌, refl, true, arith}
use neuralgentics.Orchestrator.Types.{
  TaskStatus, pending, ready, active, blocked, resolving, dependency_building, resumed, complete,
  failed, cancelled, other, task_status_comparable,
}
use neuralgentics.Orchestrator.Status.{can_transition, is_terminal}

pub data Run (s : TaskStatus) : TaskStatus → Type 0 where
  here : Run s s
  next : {t u : TaskStatus} → Run s t → can_transition t u ≡ true → Run s u

-- How far a task has come: the statuses between a blocker and its resolution share one phase.
abbrev phase : TaskStatus → ℕ
phase pending = 0
phase ready = 1
phase active = 2
phase blocked = 3
phase resolving = 3
phase dependency_building = 3
phase resumed = 3
phase _ = 4

can_transition-phase :
    (t u : TaskStatus)
    → can_transition t u ≡ true
    → (phase t < phase u) ⊎ ((phase t ≡ 3) × (phase u ≡ 3))
unfolding can_transition
can_transition-phase pending pending h = ground arith
can_transition-phase pending _ h = ground arith
can_transition-phase ready pending h = ground arith
can_transition-phase ready _ h = ground arith
can_transition-phase active pending h = ground arith
can_transition-phase active _ h = ground arith
can_transition-phase blocked pending h = ground arith
can_transition-phase blocked _ h = ground arith
can_transition-phase resolving pending h = ground arith
can_transition-phase resolving _ h = ground arith
can_transition-phase dependency_building pending h = ground arith
can_transition-phase dependency_building _ h = ground arith
can_transition-phase resumed pending h = ground arith
can_transition-phase resumed _ h = ground arith
can_transition-phase _ u h = ground arith

-- How often a run enters the status ACTIVE.
abbrev is_active : TaskStatus → ℕ
is_active active = 1
is_active _ = 0

pub activations : {s t : TaskStatus} → Run s t → ℕ
activations here = 0
activations (next {u = u} r h) = activations r + is_active u

-- What the activations of a run from PENDING are, by the status where it ends.
abbrev Counted : TaskStatus → ℕ → Type 0
Counted pending n = n ≡ 0
Counted ready n = n ≡ 0
Counted failed n = n ≤ 1
Counted cancelled n = n ≤ 1
Counted (other _) n = ⊥
Counted _ n = n ≡ 1

step-Counted :
    (t u : TaskStatus) (n : ℕ)
    → can_transition t u ≡ true
    → Counted t n
    → Counted u (n + is_active u)
unfolding can_transition
step-Counted pending pending n h c = ground arith
step-Counted pending _ n h c = ground arith
step-Counted ready pending n h c = ground arith
step-Counted ready _ n h c = ground arith
step-Counted active pending n h c = ground arith
step-Counted active _ n h c = ground arith
step-Counted blocked pending n h c = ground arith
step-Counted blocked _ n h c = ground arith
step-Counted resolving pending n h c = ground arith
step-Counted resolving _ n h c = ground arith
step-Counted dependency_building pending n h c = ground arith
step-Counted dependency_building _ n h c = ground arith
step-Counted resumed pending n h c = ground arith
step-Counted resumed _ n h c = ground arith
step-Counted _ u n h c = ground arith

Run-Counted : {t : TaskStatus} (r : Run pending t) → Counted t (activations r)
unfolding activations
Run-Counted here = refl
Run-Counted (next {t} {u} r h) = step-Counted t u (activations r) h (Run-Counted r)

Counted-le : (t : TaskStatus) (n : ℕ) → Counted t n → n ≤ 1
Counted-le pending n c = omega arith
Counted-le _ n c = ground arith

-- Whatever transitions a task makes from PENDING, blocked and resumed as often as it may be, it
-- enters ACTIVE at most once, and exactly once if it ends COMPLETE.
pub activations_bound :
    {t : TaskStatus} (r : Run pending t) → (activations r ≤ 1) × (t ≡ complete → activations r ≡ 1)
activations_bound {t} r =
    let c = Run-Counted r in (Counted-le t _ c, λ e. subst (λ s. Counted s (activations r)) e c)

-- Along a run the phase never falls.
pub Run-phase : {s t : TaskStatus} → Run s t → phase s ≤ phase t
Run-phase here = omega arith
Run-phase (next {t} {u} r h) = omega (arith, Run-phase r, can_transition-phase t u h)

no_way_out : (t u : TaskStatus) → is_terminal t ≡ true → can_transition t u ≡ true → ⊥
unfolding can_transition is_terminal
no_way_out pending u h k = cc
no_way_out _ u h k = cc

-- A run that starts in a terminal status stays there.
pub Run-terminal : {s t : TaskStatus} → is_terminal s ≡ true → Run s t → t ≡ s
Run-terminal h here = refl
Run-terminal {s} h (next {t} {u} r k) = absurd (no_way_out t u (rw (Run-terminal h r) h) k)

can_cancel :
    (t : TaskStatus) (n : ℕ)
    → Counted t n
    → (is_terminal t ≡ true) ⊎ (can_transition t cancelled ≡ true)
unfolding can_transition is_terminal
can_cancel pending n c = ground arith
can_cancel _ n c = ground arith

-- Every status that a task reaches from PENDING is terminal or can be cancelled in one step.
pub reachable_can_cancel :
    {t : TaskStatus} → Run pending t → (is_terminal t ≡ true) ⊎ (can_transition t cancelled ≡ true)
reachable_can_cancel {t} r = can_cancel t _ (Run-Counted r)
