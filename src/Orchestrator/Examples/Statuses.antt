-- ===== src/Orchestrator/Examples/Statuses.antt =====
-- Runs of the state machine and of the routing.
use neuralgentics.Prelude.{◌≤◌, ◌≡◌, refl, string_comparable}
use neuralgentics.Orchestrator.Types.{
  pending, ready, active, blocked, resolving, dependency_building, resumed, complete,
}
use neuralgentics.Orchestrator.Status.{can_transition}
use neuralgentics.Orchestrator.Status.Runs.{Run, here, next, activations, activations_bound}

blocked_run : Run pending blocked
unfolding can_transition
blocked_run = next {t = active} (next {t = ready} (next {t = pending} here refl) refl) refl

resumed_run : Run pending complete
unfolding can_transition
resumed_run =
    next {t = resumed}
      (next {t = dependency_building}
        (next {t = resolving} (next {t = blocked} blocked_run refl) refl) refl)
      refl

activations_bound_example :
    (activations resumed_run ≤ 1) × (complete ≡ complete → activations resumed_run ≡ 1)
activations_bound_example = activations_bound resumed_run
