-- ===== src/Orchestrator/Status.antt =====
-- The state machine of a task: `TaskStateTransitions`, `CanTransition` and `IsTerminal` of
-- task_runner.go, and the runs that they allow.
pub mod Runs
use neuralgentics.Prelude.{
  ◌≡◌, ◌≢◌, ◌↔◌, refl, Bool, true, false, List, Option, none, some, [], ◌∷◌, ◌==◌, arith, ==_iff,
  lookup, contains,
}
use neuralgentics.Orchestrator.Types.{
  TaskStatus, pending, ready, active, blocked, resolving, dependency_building, resumed, complete,
  failed, cancelled, task_status_comparable, TaskStatus-discrete, is_terminal_status,
}

-- TaskStateTransitions
pub task_state_transitions : List (TaskStatus × List TaskStatus)
task_state_transitions =
    (pending, ready ∷ cancelled ∷ [])
    ∷ (ready, active ∷ cancelled ∷ [])
    ∷ (active, complete ∷ blocked ∷ failed ∷ cancelled ∷ [])
    ∷ (blocked, resolving ∷ failed ∷ cancelled ∷ [])
    ∷ (resolving, dependency_building ∷ failed ∷ cancelled ∷ [])
    ∷ (dependency_building, resumed ∷ failed ∷ cancelled ∷ [])
    ∷ (resumed, complete ∷ blocked ∷ failed ∷ cancelled ∷ [])
    ∷ (complete, [])
    ∷ (failed, [])
    ∷ (cancelled, [])
    ∷ []

abbrev among : TaskStatus → Option (List TaskStatus) → Bool
among to none = false
among to (some allowed) = contains to allowed

unfoldable pub can_transition : TaskStatus → TaskStatus → Bool
unfolding task_state_transitions TaskStatus-discrete lookup
can_transition from to = among to (lookup from task_state_transitions)

-- len(allowed) == 0
abbrev none_allowed : Option (List TaskStatus) → Bool
none_allowed none = false
none_allowed (some []) = true
none_allowed (some (_ ∷ _)) = false

unfoldable pub is_terminal : TaskStatus → Bool
unfolding task_state_transitions TaskStatus-discrete lookup
is_terminal status = none_allowed (lookup status task_state_transitions)

-- The two tables of terminal statuses, `TerminalStatuses` and the empty rows of
-- `TaskStateTransitions`, agree on every status, known or not.
pub is_terminal-eq-is_terminal_status : (s : TaskStatus) → is_terminal s ≡ is_terminal_status s
unfolding is_terminal is_terminal_status
is_terminal-eq-is_terminal_status pending = refl
is_terminal-eq-is_terminal_status _ = refl
