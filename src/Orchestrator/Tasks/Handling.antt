-- ===== src/Orchestrator/Tasks/Handling.antt =====
-- orchestrator.go: what handling a task leaves and returns, and a whole cycle.
use neuralgentics.Prelude.{
  String, ◌≡◌, ◌⊎◌, inl, inr, refl, ap, ◌∙◌, Bool, if◌then◌else◌, true, false, Option, none, some,
  arith, Result, ok, err,
}
use neuralgentics.Orchestrator.Types.{TaskType, AgentRole, Task, RoutingValidation}
use neuralgentics.Orchestrator.Routing.{resolve_agent, validate_routing, validate_routing-valid_iff}
use neuralgentics.Orchestrator.Skills
use neuralgentics.Orchestrator.Protocol.{ProtocolMachine, StrictnessLevel, complete_protocol}
use neuralgentics.Orchestrator.Protocol.Cycle.{
  put, delegated, finished, prepared_lem, complete_protocol_lem,
}
use neuralgentics.Orchestrator.Context.{
  ContextPackage, ContextError, MemoryProvider, Codec, AgentWrapUp, build_context_package,
  store_context_package, fetch_agent_wrap_up,
}
use neuralgentics.Orchestrator.Tasks.{
  resolve_task_agent, or_architect, Orchestrator, TaskError, build_context_failed,
  build_seed_failed, OrchestrationResult, opened, delegation, checked, start_task, inline_result,
  handle_task_inline, seeded, stateless_result, handle_task_stateless, as_inline, handle_task,
  cycled, complete_task_cycle,
}

-- The agent of a task, named or defaulted, is never refused by the routing check.
or_architect-valid :
    (kind : TaskType) (found : Option AgentRole)
    → resolve_agent kind ≡ found
    → (validate_routing kind (or_architect found)).valid ≡ true
or_architect-valid kind none e = (validate_routing-valid_iff kind AgentRole.architect).1 (inl e)
or_architect-valid kind (some agent) e = (validate_routing-valid_iff kind agent).1 (inr e)

resolve_task_agent-valid :
    (kind : TaskType) → (validate_routing kind (resolve_task_agent kind)).valid ≡ true
unfolding resolve_task_agent
resolve_task_agent-valid kind = or_architect-valid kind (resolve_agent kind) refl

checked-valid :
    (level : StrictnessLevel) (m : ProtocolMachine) (task : String) (r : RoutingValidation)
    → r.valid ≡ true
    → checked level m task r ≡ delegation m task
checked-valid level m task r h = ground arith

start_task_lem :
    {S : Type 0} (o : Orchestrator S) (t : Task)
    → start_task o t ≡ (put o.protocol t.id delegated, none)
unfolding start_task
start_task_lem o t =
    checked-valid o.config.protocol_strictness (opened o.protocol t.id) t.id
      (validate_routing t.kind (resolve_task_agent t.kind)) (resolve_task_agent-valid t.kind)
    ∙ ap (λ m. (m, none)) (prepared_lem o.protocol t.id)

-- A result names the agent of the task; an error comes from the memory.
abbrev pub Answers : Task → Result TaskError OrchestrationResult → Type 0
Answers t (ok r) = r.agent ≡ resolve_task_agent t.kind
Answers t (err e) = (x : ContextError) × ((e ≡ build_context_failed x) ⊎ (e ≡ build_seed_failed x))

module _ (mem : MemoryProvider) (registry : Option Skills.Registry)
    (codec : Codec ContextPackage) where
  inline_result-Answers :
      (t : Task) (r : Result ContextError ContextPackage)
      → Answers t (inline_result mem registry t r)
  unfolding resolve_task_agent
  inline_result-Answers t (ok pkg) = refl
  inline_result-Answers t (err e) = (e, inl refl)

  seeded-Answers :
      (t : Task) (r : mem.State × Result ContextError String)
      → Answers t (as_inline (seeded mem registry t r).1)
  seeded-Answers t (s, ok id) = refl
  seeded-Answers t (s, err e) = (e, inr refl)

  stateless_result-Answers :
      (s : mem.State) (t : Task) (r : Result ContextError ContextPackage)
      → Answers t (as_inline (stateless_result mem registry codec s t r).1)
  stateless_result-Answers s t (ok pkg) = seeded-Answers t (store_context_package mem codec s pkg)
  stateless_result-Answers s t (err e) = (e, inl refl)

  -- What a call of `HandleTask` comes to.
  pub record Handled (o : Orchestrator mem.State) (t : Task)
      (r : Orchestrator mem.State × mem.State × Result TaskError OrchestrationResult) : Type 0 where
    pub protocol : r.0.protocol ≡ put o.protocol t.id delegated
    pub config : r.0.config ≡ o.config
    pub answers : Answers t r.2

  module _ (o : Orchestrator mem.State) (s : mem.State) (t : Task) where
    either-Handled :
        {r r' : Orchestrator mem.State × mem.State × Result TaskError OrchestrationResult}
        (b : Bool)
        → Handled o t r
        → Handled o t r'
        → Handled o t (if b then r else r')
    either-Handled true h h' = h
    either-Handled false h h' = h'

    handle_task_inline_lem :
        ((handle_task_inline mem registry o s t).0
          ≡ record o { protocol = put o.protocol t.id delegated })
        × Answers t (handle_task_inline mem registry o s t).1
    unfolding handle_task_inline
    handle_task_inline_lem = rw (start_task_lem o t) (
      refl,
      inline_result-Answers t (build_context_package mem registry s t (resolve_task_agent t.kind)),
    )

    handle_task_stateless_lem :
        ((handle_task_stateless mem registry codec o s t).0
          ≡ record o { protocol = put o.protocol t.id delegated })
        × Answers t (as_inline (handle_task_stateless mem registry codec o s t).1.1)
    unfolding handle_task_stateless
    handle_task_stateless_lem = rw (start_task_lem o t) (
      refl,
      stateless_result-Answers s t
          (build_context_package mem registry s t (resolve_task_agent t.kind)),
    )

    -- Whatever the strictness, the mode, the memory and the states of other tasks: a task that is
    -- handled stands at DELEGATE with the first four steps completed and no violation; the
    -- routing check never blocks it; the agent is the one that its type is routed to, or the
    -- architect; and an error is one of the memory.
    pub handle_task-Handled : Handled o t (handle_task mem registry codec o s t)
    unfolding handle_task
    handle_task-Handled =
        let (e, a) = handle_task_stateless_lem in
        let (f, b) = handle_task_inline_lem in
        either-Handled o.config.use_stateless_agents
          (record { protocol = ap (λ x. x.protocol) e; config = ap (λ x. x.config) e; answers = a })
          (record { protocol = ap (λ x. x.protocol) f; config = ap (λ x. x.config) f; answers = b })

module _ (mem : MemoryProvider) (registry : Option Skills.Registry)
    (packages : Codec ContextPackage) (wraps : Codec AgentWrapUp) where
  module _ (o : Orchestrator mem.State) (s s' : mem.State) (t : Task) (wrap_up context : String)
      (w : AgentWrapUp) where
    cycled-put :
        (x : Orchestrator mem.State)
        → x.protocol ≡ put o.protocol t.id delegated
        → (cycled mem x s' t.id context (ok w)).0.protocol ≡ put o.protocol t.id finished
    cycled-put x e =
        ap (λ m. (complete_protocol m t.id).0) e
        ∙ ap (λ r. r.0) (complete_protocol_lem o.protocol t.id)

    -- A whole cycle, in any mode, at any strictness and over any memory: when a task has been handled
    -- and the wrap-up of its agent can be fetched later, completing its cycle returns that wrap-up
    -- and leaves the task at COMPLETE with all nine steps in their order and no violation, the
    -- states of the other tasks being as they were before the task was handled.
    pub complete_task_cycle-handle_task :
        fetch_agent_wrap_up mem wraps s' wrap_up ≡ ok w
        → let o' = (handle_task mem registry packages o s t).0 in
          let r = complete_task_cycle mem wraps o' s' t.id wrap_up context in
          (r.0.protocol ≡ put o.protocol t.id finished) × (r.2 ≡ ok w)
    unfolding complete_task_cycle
    complete_task_cycle-handle_task found =
        let o' = (handle_task mem registry packages o s t).0 in
        let h = handle_task-Handled mem registry packages o s t in
        let e = ap (cycled mem o' s' t.id context) found in
        (ap (λ r. r.0.protocol) e ∙ cycled-put o' h.protocol, ap (λ r. r.2) e)
