-- ===== src/Orchestrator/Protocol.antt =====
-- protocol.go: the machine that tracks the nine steps of the protocol for each task. A state is
-- reached through the map of the machine; each call is one step.
pub mod Strict
pub mod Cycle
use neuralgentics.Prelude.{
  String, String-discrete, Bool, true, false, not, List, [], ◌∷◌, ◌++◌, Option, none, some, ◌==◌,
  ◌&&◌, ◌||◌, Comparable, comparable_of, string_comparable, lookup, insert, contains, select,
  if◌then◌else◌, Result, ok, err, ◌>>=◌,
}
use neuralgentics.Memory.Chunker.Text.{trim_space, lowers_to}

pub data ProtocolStep : Type 0 where
  idle memory_query thought_chain plan delegate git_check quality_gates : ProtocolStep
  improve doc_update memory_save complete : ProtocolStep
  other : String → ProtocolStep

unfoldable pub ProtocolStep-discrete : Discrete ProtocolStep
ProtocolStep-discrete = hlevel String-discrete

instance abbrev pub protocol_step_comparable : Comparable ProtocolStep
unfolding ProtocolStep-discrete
protocol_step_comparable = comparable_of ProtocolStep-discrete

pub data StrictnessLevel : Type 0 where
  lenient standard strict : StrictnessLevel
  other : String → StrictnessLevel

abbrev pub is_strict : StrictnessLevel → Bool
is_strict strict = true
is_strict _ = false

-- ProtocolSteps
abbrev pub protocol_steps : List ProtocolStep
protocol_steps =
    memory_query ∷ thought_chain ∷ plan ∷ delegate ∷ git_check ∷ quality_gates ∷ improve
    ∷ doc_update ∷ memory_save ∷ []

-- ProtocolValidTransitions, read at a step.
unfoldable pub protocol_valid_transitions : ProtocolStep → Option (List ProtocolStep)
protocol_valid_transitions idle = some (memory_query ∷ [])
protocol_valid_transitions memory_query = some (thought_chain ∷ complete ∷ [])
protocol_valid_transitions thought_chain = some (plan ∷ [])
protocol_valid_transitions plan = some (delegate ∷ [])
protocol_valid_transitions delegate = some (git_check ∷ [])
protocol_valid_transitions git_check = some (quality_gates ∷ [])
protocol_valid_transitions quality_gates = some (improve ∷ [])
protocol_valid_transitions improve = some (doc_update ∷ [])
protocol_valid_transitions doc_update = some (memory_save ∷ [])
protocol_valid_transitions memory_save = some (complete ∷ [])
protocol_valid_transitions complete = some []
protocol_valid_transitions (other s) = none

unfoldable pub waiver_phrases : List (String × ProtocolStep)
waiver_phrases =
    ("skip planning", plan)
    ∷ ("just do it", plan)
    ∷ ("no plan needed", plan)
    ∷ ("skip tests", quality_gates)
    ∷ ("skip gates", quality_gates)
    ∷ ("git is fine", git_check)
    ∷ ("no docs needed", doc_update)
    ∷ ("skip improve", improve)
    ∷ []

-- The messages of the violations that the machine and the orchestrator record.
pub data ViolationMessage : Type 0 where
  unexpected_transition : ProtocolStep → ProtocolStep → ViolationMessage
  routing_violation : ViolationMessage

pub data Severity : Type 0 where
  low medium high : Severity

pub record ProtocolViolation : Type 0 where
  pub step : ProtocolStep
  pub message : ViolationMessage
  pub severity : Severity

pub record ProtocolState : Type 0 where
  pub current_step : ProtocolStep
  pub completed_steps : List ProtocolStep
  pub violations : List ProtocolViolation
  pub waived_steps : List (ProtocolStep × String)

abbrev pub new_protocol_state : ProtocolState
new_protocol_state = record {
  current_step = idle;
  completed_steps = [];
  violations = [];
  waived_steps = [];
}

pub record ProtocolMachine : Type 0 where
  pub strictness : StrictnessLevel
  pub states : List (String × ProtocolState)

pub data ProtocolError : Type 0 where
  no_protocol_state : String → ProtocolError
  invalid_transition : ProtocolStep → ProtocolStep → ProtocolError
  protocol_blocked : List ProtocolStep → ProtocolError

unfoldable pub new_protocol_machine : StrictnessLevel → ProtocolMachine
new_protocol_machine strictness = record { strictness = strictness; states = [] }

unfoldable pub init_state : ProtocolMachine → String → ProtocolMachine
init_state m task = record m { states = insert task new_protocol_state m.states }

unfoldable pub get_state : ProtocolMachine → String → Option ProtocolState
get_state m task = lookup task m.states

abbrev pub recorded : ProtocolStep → List ProtocolStep → List ProtocolStep
recorded step completed =
    if contains step completed || (step == idle || step == complete)
    then completed
    else completed ++ step ∷ []

-- The end of `Advance`: the step becomes the current one, and is recorded once.
unfoldable pub enter_step : ProtocolStep → ProtocolState → ProtocolState
enter_step step s = record s {
  current_step = step;
  completed_steps = recorded step s.completed_steps;
}

abbrev flagged : ProtocolStep → ProtocolState → ProtocolState
flagged step s = record s {
  violations =
      s.violations
      ++ record {
        step = s.current_step;
        message = unexpected_transition s.current_step step;
        severity = low;
      }
        ∷ [];
}

-- What the level makes of a transition that is not allowed.
abbrev unexpected :
    StrictnessLevel → ProtocolStep → ProtocolState → Result ProtocolError ProtocolState
unexpected strict step s = err (invalid_transition s.current_step step)
unexpected standard step s = ok (enter_step step (flagged step s))
unexpected lenient step s = ok (enter_step step s)
unexpected (other _) step s = ok (enter_step step s)

abbrev transition :
    StrictnessLevel
    → ProtocolStep
    → ProtocolState
    → Option (List ProtocolStep)
    → Result ProtocolError ProtocolState
transition level step s none = ok (enter_step step s)
transition level step s (some next) =
    if contains step next then ok (enter_step step s) else unexpected level step s

unfoldable pub advance_state :
    StrictnessLevel → ProtocolStep → ProtocolState → Result ProtocolError ProtocolState
unfolding enter_step protocol_valid_transitions
advance_state level step s = transition level step s (protocol_valid_transitions s.current_step)

abbrev stored :
    ProtocolMachine
    → String
    → Result ProtocolError ProtocolState
    → ProtocolMachine × Option ProtocolError
stored m task (ok s) = (record m { states = insert task s m.states }, none)
stored m task (err e) = (m, some e)

abbrev advance_found :
    ProtocolMachine
    → String
    → ProtocolStep
    → Option ProtocolState
    → ProtocolMachine × Option ProtocolError
advance_found m task step none = (m, some (no_protocol_state task))
advance_found m task step (some s) = stored m task (advance_state m.strictness step s)

-- The machine afterwards, and the error if there is one. The source changes the state after it has
-- released the mutex; two calls for one task at the same time are left out.
unfoldable pub advance :
    ProtocolMachine → String → ProtocolStep → ProtocolMachine × Option ProtocolError
unfolding advance_state
advance m task step = advance_found m task step (get_state m task)

waived_by : String → List (String × ProtocolStep) → Option ProtocolStep
waived_by phrase [] = none
waived_by phrase ((key, step) ∷ rest) =
    if lowers_to (trim_space phrase) key then some step else waived_by phrase rest

unfoldable pub can_waiver_step : String → ProtocolStep → Bool
unfolding waived_by waiver_phrases
can_waiver_step phrase step = elim (waived_by phrase waiver_phrases) [
  | none ↦ false
  | some waived ↦ waived == step
]

abbrev waive : ProtocolStep → String → ProtocolState → ProtocolState
waive step phrase s = record s { waived_steps = insert step phrase s.waived_steps }

-- The error of `Advance` is not looked at.
abbrev waived_found :
    ProtocolMachine → String → ProtocolStep → String → Option ProtocolState → ProtocolMachine
waived_found m task step phrase none = m
waived_found m task step phrase (some s) =
    (advance (record m { states = insert task (waive step phrase s) m.states }) task step).0

unfoldable pub apply_waiver : ProtocolMachine → String → ProtocolStep → String → ProtocolMachine
unfolding advance
apply_waiver m task step phrase = waived_found m task step phrase (get_state m task)

-- A read of a missing key gives the empty text.
abbrev waiver_of : Option String → String
waiver_of none = ""
waiver_of (some phrase) = phrase

unfoldable pub is_done : ProtocolState → ProtocolStep → Bool
is_done s step =
    contains step s.completed_steps || not (waiver_of (lookup step s.waived_steps) == "")

unfoldable pub missing_steps : ProtocolState → List ProtocolStep
unfolding is_done
missing_steps s = select (λ step. not (is_done s step)) protocol_steps

abbrev blocked :
    StrictnessLevel → ProtocolState → List ProtocolStep → Result ProtocolError ProtocolState
blocked strict s (step ∷ steps) = err (protocol_blocked (step ∷ steps))
blocked level s missing = ok s

abbrev enforce_found :
    StrictnessLevel → String → Option ProtocolState → Result ProtocolError ProtocolState
enforce_found level task none = err (no_protocol_state task)
enforce_found level task (some s) = blocked level s (missing_steps s)

-- A lenient machine does not look for missing steps, and no machine but a strict one acts on them.
unfoldable pub enforce : ProtocolMachine → String → Result ProtocolError ProtocolState
unfolding missing_steps
enforce m task = enforce_found m.strictness task (get_state m task)

-- A strict machine stops at the first error.
abbrev after_step :
    StrictnessLevel
    → ProtocolMachine × Option ProtocolError
    → ProtocolMachine × Option ProtocolError
    → ProtocolMachine × Option ProtocolError
after_step level (m, none) rest = rest
after_step level (m, some e) rest = if is_strict level then (m, some e) else rest

-- The loop of `CompleteProtocol`.
complete_steps :
    ProtocolMachine → String → List ProtocolStep → ProtocolMachine × Option ProtocolError
unfolding advance
complete_steps m task [] = (m, none)
complete_steps m task (step ∷ steps) =
    let r = advance m task step in after_step m.strictness r (complete_steps r.0 task steps)

abbrev pub remaining_steps : List ProtocolStep
remaining_steps = git_check ∷ quality_gates ∷ improve ∷ doc_update ∷ memory_save ∷ []

abbrev completed :
    String
    → ProtocolMachine × Option ProtocolError
    → ProtocolMachine × Result ProtocolError ProtocolState
completed task (m, some e) = (m, err e)
completed task (m, none) = let m' = (advance m task complete).0 in (m', enforce m' task)

unfoldable pub complete_protocol :
    ProtocolMachine → String → ProtocolMachine × Result ProtocolError ProtocolState
unfolding complete_steps enforce advance
complete_protocol m task = completed task (complete_steps m task remaining_steps)

unfoldable pub is_step_complete : ProtocolMachine → String → ProtocolStep → Bool
unfolding is_done
is_step_complete m task step = elim (get_state m task) [ none ↦ false | some s ↦ is_done s step ]
