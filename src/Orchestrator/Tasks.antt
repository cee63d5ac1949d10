-- ===== src/Orchestrator/Tasks.antt =====
-- orchestrator.go: handling a task and completing its cycle. Log lines are left out; what the memory
-- does is a `MemoryProvider`.
pub mod Handling
use Prim.Native.String.{◌++◌ as append}
use neuralgentics.Prelude.{
  ℕ, String, Bool, true, false, not, List, [], ◌∷◌, ◌++◌, Option, none, some, ◌==◌, ◌&&◌, ◌||◌,
  string_comparable, insert, length, map, ltb, leb, if◌then◌else◌, Result, ok, err, wrap_error,
}
use neuralgentics.Orchestrator.Types.{
  TaskType, AgentRole, Priority, Task, Violation, no_violation, RoutingValidation,
}
use neuralgentics.Orchestrator.Routing.{resolve_agent, validate_routing}
use neuralgentics.Orchestrator.Skills
use neuralgentics.Orchestrator.Protocol
use neuralgentics.Orchestrator.Protocol.{
  ProtocolMachine, ProtocolState, StrictnessLevel, is_strict, memory_query, thought_chain, plan,
  delegate, init_state, advance, get_state, complete_protocol, routing_violation,
}
use neuralgentics.Orchestrator.Context.{
  ContextPackage, ContextError, MemoryProvider, Codec, AgentWrapUp, build_context_package,
  store_context_package, fetch_agent_wrap_up,
}
use neuralgentics.Orchestrator.Context.Prompts.{SeedPrompt, seed_prompt}
use neuralgentics.Orchestrator.Improve
use neuralgentics.Orchestrator.Improve.{ImproveHandler}

pub record ExecutionStep : Type 0 where
  pub agent : AgentRole
  pub task : String
  pub depends_on : List String
  pub priority : Priority

pub data Complexity : Type 0 where
  low medium high : Complexity

pub record ExecutionPlan : Type 0 where
  pub steps : List ExecutionStep
  pub can_parallelize : Bool
  pub estimated_complexity : Complexity

abbrev is_high : Priority → Bool
is_high Priority.high = true
is_high _ = false

abbrev is_medium : Priority → Bool
is_medium Priority.medium = true
is_medium _ = false

unfoldable pub estimate_complexity : Task → Complexity
estimate_complexity t =
    if is_high t.priority || ltb 3 (length t.files)
    then Complexity.high
    else if ltb 0 (length t.dependencies) || is_medium t.priority
    then Complexity.medium
    else Complexity.low

abbrev prerequisite : String → ExecutionStep
prerequisite dep = record {
  agent = AgentRole.orchestrator;
  task = append "Resolve dependency: " dep;
  depends_on = [];
  priority = Priority.high;
}

abbrev plan_steps : Task → AgentRole → List ExecutionStep
plan_steps t agent =
    record { agent = agent; task = t.task_description; depends_on = []; priority = t.priority }
    ∷ map prerequisite t.dependencies

-- The loop below the first test only sets `canParallelize` to false again.
unfoldable pub build_execution_plan : Task → AgentRole → ExecutionPlan
unfolding estimate_complexity
build_execution_plan t agent = record {
  steps = plan_steps t agent;
  can_parallelize = leb (length (plan_steps t agent)) 1;
  estimated_complexity = estimate_complexity t;
}

abbrev or_architect : Option AgentRole → AgentRole
or_architect none = AgentRole.architect
or_architect (some agent) = agent

unfoldable pub resolve_task_agent : TaskType → AgentRole
resolve_task_agent kind = or_architect (resolve_agent kind)

pub record OrchestratorConfig : Type 0 where
  pub protocol_strictness : StrictnessLevel
  pub max_concurrent : ℕ
  pub use_stateless_agents : Bool

-- The memory's state stands beside; locks are a component of their own.
pub record Orchestrator (S : Type 0) : Type 0 where
  pub config : OrchestratorConfig
  pub protocol : ProtocolMachine
  pub improve_handler : Option (ImproveHandler S)

pub data TaskError : Type 0 where
  routing_blocked : Violation → TaskError
  build_context_failed build_seed_failed fetch_failed : ContextError → TaskError

pub record OrchestrationResult : Type 0 where
  pub agent : AgentRole
  pub context_package : Option ContextPackage
  pub execution_plan : ExecutionPlan

pub record StatelessOrchestrationResult : Type 0 where
  pub agent : AgentRole
  pub context_memory_id : String
  pub seed_prompt : SeedPrompt
  pub execution_plan : ExecutionPlan

-- The steps before DELEGATE, whose errors are logged.
abbrev pub opened : ProtocolMachine → String → ProtocolMachine
opened m task =
    let m0 = init_state m task in
    let m1 = (advance m0 task memory_query).0 in
    let m2 = (advance m1 task thought_chain).0 in (advance m2 task plan).0

abbrev violates : RoutingValidation → Bool
violates r = not r.valid && (elim r.violation [ no_violation ↦ false | _ ↦ true ])

abbrev noted : ProtocolMachine → String → Option ProtocolState → ProtocolMachine
noted m task none = m
noted m task (some s) = record m {
  states =
      insert task
        (record s {
          violations =
              s.violations
              ++ record {
                step = delegate;
                message = routing_violation;
                severity = Protocol.Severity.high;
              }
                ∷ [];
        })
        m.states;
}

abbrev delegation : ProtocolMachine → String → ProtocolMachine × Option TaskError
delegation m task = ((advance m task delegate).0, none)

-- The routing check and the step to DELEGATE.
abbrev checked :
    StrictnessLevel
    → ProtocolMachine
    → String
    → RoutingValidation
    → ProtocolMachine × Option TaskError
checked level m task r =
    if violates r
    then (let m' = noted m task (get_state m task) in
        if is_strict level then (m', some (routing_blocked r.violation)) else delegation m' task)
    else delegation m task

unfoldable pub start_task :
    {S : Type 0} → Orchestrator S → Task → ProtocolMachine × Option TaskError
unfolding resolve_task_agent
start_task o t =
    checked o.config.protocol_strictness (opened o.protocol t.id) t.id
      (validate_routing t.kind (resolve_task_agent t.kind))

module _ (mem : MemoryProvider) (registry : Option Skills.Registry) where
  abbrev inline_result :
      Task → Result ContextError ContextPackage → Result TaskError OrchestrationResult
  inline_result t (err e) = err (build_context_failed e)
  inline_result t (ok pkg) = ok (record {
    agent = resolve_task_agent t.kind;
    context_package = some pkg;
    execution_plan = build_execution_plan t (resolve_task_agent t.kind);
  })

  abbrev inline_started :
      Orchestrator mem.State
      → mem.State
      → Task
      → ProtocolMachine × Option TaskError
      → Orchestrator mem.State × Result TaskError OrchestrationResult
  inline_started o s t (m, some e) = (record o { protocol = m }, err e)
  inline_started o s t (m, none) = (
    record o { protocol = m },
    inline_result t (build_context_package mem registry s t (resolve_task_agent t.kind)),
  )

  unfoldable pub handle_task_inline :
      Orchestrator mem.State
      → mem.State
      → Task
      → Orchestrator mem.State × Result TaskError OrchestrationResult
  unfolding start_task build_execution_plan resolve_task_agent
  handle_task_inline o s t = inline_started o s t (start_task o t)

  abbrev Stateless : Type 0
  Stateless = mem.State × Result TaskError StatelessOrchestrationResult

  abbrev seeded : Task → mem.State × Result ContextError String → Stateless
  seeded t (s, err e) = (s, err (build_seed_failed e))
  seeded t (s, ok id) = (
    s,
    ok (record {
      agent = resolve_task_agent t.kind;
      context_memory_id = id;
      seed_prompt = seed_prompt t.task_description id;
      execution_plan = build_execution_plan t (resolve_task_agent t.kind);
    }),
  )

  abbrev stateless_result :
      Codec ContextPackage → mem.State → Task → Result ContextError ContextPackage → Stateless
  stateless_result codec s t (err e) = (s, err (build_context_failed e))
  stateless_result codec s t (ok pkg) = seeded t (store_context_package mem codec s pkg)

  abbrev stateless_started :
      Codec ContextPackage
      → Orchestrator mem.State
      → mem.State
      → Task
      → ProtocolMachine × Option TaskError
      → Orchestrator mem.State × Stateless
  stateless_started codec o s t (m, some e) = (record o { protocol = m }, (s, err e))
  stateless_started codec o s t (m, none) = (
    record o { protocol = m },
    stateless_result codec s t (build_context_package mem registry s t (resolve_task_agent t.kind)),
  )

  unfoldable pub handle_task_stateless :
      Codec ContextPackage
      → Orchestrator mem.State
      → mem.State
      → Task
      → Orchestrator mem.State × Stateless
  unfolding start_task build_execution_plan resolve_task_agent
  handle_task_stateless codec o s t = stateless_started codec o s t (start_task o t)

-- `HandleTask` in stateless mode: the package is in the memory.
abbrev as_inline :
    Result TaskError StatelessOrchestrationResult → Result TaskError OrchestrationResult
as_inline (err e) = err e
as_inline (ok r) =
    ok (record { agent = r.agent; context_package = none; execution_plan = r.execution_plan })

unfoldable pub handle_task :
    (mem : MemoryProvider)
    → Option Skills.Registry
    → Codec ContextPackage
    → Orchestrator mem.State
    → mem.State
    → Task
    → Orchestrator mem.State × mem.State × Result TaskError OrchestrationResult
unfolding handle_task_inline handle_task_stateless
handle_task mem registry codec o s t =
    if o.config.use_stateless_agents
    then (let r = handle_task_stateless mem registry codec o s t in (r.0, r.1.0, as_inline r.1.1))
    else (let r = handle_task_inline mem registry o s t in (r.0, s, r.1))

-- The improve phase, if there is a handler; what it returns is only logged.
abbrev improved : {S : Type 0} → Option (ImproveHandler S) → S → String → String → S
improved none s task summary = s
improved (some h) s task summary = (Improve.run h s task summary).0

abbrev cycled :
    (mem : MemoryProvider)
    → Orchestrator mem.State
    → mem.State
    → String
    → String
    → Result ContextError AgentWrapUp
    → Orchestrator mem.State × mem.State × Result TaskError AgentWrapUp
cycled mem o s task context (err e) = (o, s, err (fetch_failed e))
cycled mem o s task context (ok w) = (
  record o { protocol = (complete_protocol o.protocol task).0 },
  improved o.improve_handler (mem.adjust_trust s context).0 task w.summary,
  ok w,
)

-- What the adjustment of trust and the completed protocol return is logged or dropped.
unfoldable pub complete_task_cycle :
    (mem : MemoryProvider)
    → Codec AgentWrapUp
    → Orchestrator mem.State
    → mem.State
    → String
    → String
    → String
    → Orchestrator mem.State × mem.State × Result TaskError AgentWrapUp
complete_task_cycle mem codec o s task wrap_up context =
    cycled mem o s task context (fetch_agent_wrap_up mem codec s wrap_up)
