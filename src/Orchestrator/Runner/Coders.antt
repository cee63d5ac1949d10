-- ===== src/Orchestrator/Runner/Coders.antt =====
-- The agent of every task that `Dispatch` runs.
use neuralgentics.Prelude.{
  ℕ, ◌<◌, ap, ◌∙◌, String, ◌≡◌, inl, inr, refl, List, [], ◌∷◌, Option, map, concat, In,
  In-append_iff,
}
use neuralgentics.Orchestrator.Types.{Task, AgentRole, TaskPlan, FineGrainedTaskEntry}
use neuralgentics.Orchestrator.Routing.{resolve_agent, route_agent_to_task_type}
use neuralgentics.Orchestrator.Graph.{done, get_parallel_groups}
use neuralgentics.Orchestrator.Graph.Groups.{InGroups, get_parallel_groups_sound}
use neuralgentics.Orchestrator.Runner.{
  Fallible, returns, fails, DispatchResult, dispatched, run_entry, task_to_entry, tasks_to_entries,
  entry_to_task, agent_or_architect,
}
use neuralgentics.Orchestrator.Runner.Dispatch.{Groups, ended, finished, dispatch_start, Run}
use neuralgentics.Orchestrator.Runner.Ends.{results-Told}

tasks_to_entries-agent :
    (ts : List Task) (deps : List (String × List String)) (e : FineGrainedTaskEntry)
    → In e (tasks_to_entries ts deps)
    → e.agent ≡ AgentRole.coder
unfolding tasks_to_entries task_to_entry
tasks_to_entries-agent [] deps e k = absurd k
tasks_to_entries-agent (t ∷ ts) deps e (inl same) = ap (λ x. x.agent) same
tasks_to_entries-agent (t ∷ ts) deps e (inr k) = tasks_to_entries-agent ts deps e k

InGroups-concat : (e : FineGrainedTaskEntry) (gs : Groups) → In e (concat gs) → InGroups e gs
InGroups-concat e [] k = absurd k
InGroups-concat e (g ∷ gs) k = elim ((In-append_iff e g (concat gs)).0 k) [
  | inl here ↦ inl here
  | inr later ↦ inr (InGroups-concat e gs later)
]

map_same :
    {A B : Type 0} (f g : A → B) (xs : List A)
    → ((x : A) → In x xs → f x ≡ g x)
    → map f xs ≡ map g xs
map_same f g [] h = refl
map_same f g (x ∷ xs) h =
    let first = h x (inl refl) in
    let rest = map_same f g xs (λ y k. h y (inr k)) in cc (first, rest)

coder_resolved :
    (e : FineGrainedTaskEntry)
    → e.agent ≡ AgentRole.coder
    → agent_or_architect (resolve_agent (entry_to_task e).kind) ≡ AgentRole.coder
unfolding entry_to_task route_agent_to_task_type resolve_agent
coder_resolved e h = ap (λ a. agent_or_architect (resolve_agent (route_agent_to_task_type a))) h

module _ {Package : Type 0} (build build' : Task → AgentRole → Fallible Package)
    (send send' : Task → AgentRole → Package → Fallible DispatchResult)
    (same_build : (t : Task) → build t AgentRole.coder ≡ build' t AgentRole.coder)
    (same_send : (t : Task) (c : Package)
      → send t AgentRole.coder c ≡ send' t AgentRole.coder c) where
  sent_alike :
      (t : Task) (o : Fallible Package)
      → dispatched build send t AgentRole.coder o ≡ dispatched build' send' t AgentRole.coder o
  sent_alike t (fails e) = refl
  sent_alike t (returns c) = rw (dispatched, same_send t c) refl

  run_alike :
      (e : FineGrainedTaskEntry)
      → e.agent ≡ AgentRole.coder
      → run_entry build send e ≡ run_entry build' send' e
  unfolding run_entry
  run_alike e h =
      let t = entry_to_task e in
      rw (coder_resolved e h) (
        sent_alike t (build t AgentRole.coder)
        ∙ ap (dispatched build' send' t AgentRole.coder) (same_build t))

  -- When `Dispatch` ends without an error, whatever the types of the tasks of the plan, its results do
  -- not depend on what the context builder and the callback do for another agent than the coder:
  -- they are the results of the tasks of all groups, in order, also with any other two that do the
  -- same for the coder.
  pub dispatch_to_coder :
      (most : ℕ) (ctx_err : ℕ → Option String) (plan : TaskPlan) (groups : Groups) (n : ℕ)
      (rs : List DispatchResult)
      → 0 < most
      → get_parallel_groups (tasks_to_entries plan.tasks plan.dependencies) ≡ done groups
      → Run (run_entry build send) most ctx_err (dispatch_start plan) n (ended rs finished)
      → rs ≡ map (run_entry build' send') (concat groups)
  dispatch_to_coder most ctx_err plan groups n rs some_workers e run =
      results-Told (run_entry build send) most ctx_err some_workers plan groups n rs finished e run
      ∙ map_same (run_entry build send) (run_entry build' send') (concat groups) λ x k.
        run_alike x (
          tasks_to_entries-agent plan.tasks plan.dependencies x (
            ((get_parallel_groups_sound (tasks_to_entries plan.tasks plan.dependencies) groups e).0
                x).0
              (InGroups-concat x groups k)))
