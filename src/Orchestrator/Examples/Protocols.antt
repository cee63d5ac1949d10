-- ===== src/Orchestrator/Examples/Protocols.antt =====
-- Runs of the protocol, of the context package and of a whole cycle.
use neuralgentics.Memory.Chunker.Text.{has_prefix, trim_space, after_prefix}
use neuralgentics.Prelude.{
  String, ◌≡◌, refl, true, List, [], ◌∷◌, ◌++◌, none, some, string_comparable, lookup, insert, All,
  map, length, ◌≤◌, ok, err,
}
use neuralgentics.Orchestrator.Types.{Task, TaskType, AgentRole, Priority}
use neuralgentics.Orchestrator.Protocol.{
  memory_query, delegate, git_check, strict, ProtocolState, ProtocolMachine, new_protocol_machine,
  init_state, get_state, advance, apply_waiver, complete_protocol, invalid_transition,
  advance_state, protocol_valid_transitions, enter_step, ProtocolStep-discrete,
}
use neuralgentics.Orchestrator.Protocol.Strict.{fresh, after, inits, advances, strict_in_order}
use neuralgentics.Orchestrator.Protocol.Cycle.{put, delegated, finished, waived_git_check_blocks}
use neuralgentics.Orchestrator.Skills.{parse_sections}
use neuralgentics.Orchestrator.Skills.Sections.{
  Written, written_lines, section_of, parse_sections-written_lines,
}
use neuralgentics.Orchestrator.Context.{
  MemoryEntry, MemoryProvider, Codec, ContextPackage, AgentWrapUp, assemble, fetch_agent_wrap_up,
}
use neuralgentics.Orchestrator.Context.Laws.{IsShort, memory_lines, assemble_bounds}
use neuralgentics.Orchestrator.Tasks.{Orchestrator, handle_task, complete_task_cycle}
use neuralgentics.Orchestrator.Tasks.Handling.{
  Handled, handle_task-Handled, complete_task_cycle-handle_task,
}

-- A strict machine on which one task has made its first step and was refused a later one.
abbrev begun : ProtocolMachine
begun =
    (advance (advance (init_state (new_protocol_machine strict) "t1") "t1" memory_query).0 "t1"
      delegate).0

abbrev queried : ProtocolState
queried = record {
  current_step = memory_query;
  completed_steps = memory_query ∷ [];
  violations = [];
  waived_steps = [];
}

strict_in_order_example : (memory_query ∷ [] ≡ memory_query ∷ []) × (queried.violations ≡ [])
unfolding get_state advance init_state new_protocol_machine advance_state protocol_valid_transitions
    enter_step ProtocolStep-discrete lookup insert
strict_in_order_example =
    strict_in_order begun "t1" queried
      (after (after (after fresh (inits "t1")) (advances "t1" memory_query))
        (advances "t1" delegate))
      refl

abbrev at_delegate : ProtocolMachine
at_delegate = put (new_protocol_machine strict) "t1" delegated

waived_git_check_blocks_example :
    complete_protocol (apply_waiver at_delegate "t1" git_check "git is fine") "t1" ≡ (
      apply_waiver at_delegate "t1" git_check "git is fine",
      err (invalid_transition git_check git_check),
    )
unfolding get_state new_protocol_machine lookup insert
waived_git_check_blocks_example =
    waived_git_check_blocks at_delegate "t1" "git is fine" delegated refl refl refl

abbrev chapters : List Written
chapters =
    record { line = "## Role"; below = "You write." ∷ "" ∷ [] }
    ∷ record { line = "## Rules"; below = [] }
    ∷ []

parse_sections-written_lines_example :
    parse_sections ("# Writer" ∷ [] ++ written_lines chapters) ≡ map section_of chapters
unfolding has_prefix trim_space after_prefix
parse_sections-written_lines_example =
    parse_sections-written_lines ("# Writer" ∷ []) chapters (refl, tt)
      (
        record { marked = refl; titled = refl; plain = (refl, (refl, tt)) },
        (record { marked = refl; titled = refl; plain = tt }, tt),
      )

abbrev task : Task
task = record {
  id = "t1";
  kind = TaskType.code_impl;
  task_description = "add a flag";
  user_request = "a flag, please";
  priority = Priority.low;
  files = "a.go" ∷ [];
  dependencies = [];
}

abbrev source : MemoryEntry
source = record {
  id = "m1";
  content = "package a";
  source_type = "file";
  source_path = some "a.go";
  trust_score = 1;
}

assemble_bounds_example :
    (length (assemble none task AgentRole.coder (source ∷ source ∷ [])).code_snippets ≤ 5)
    × (memory_lines (assemble none task AgentRole.coder (source ∷ source ∷ [])).task_background ≤ 5)
    × All IsShort (assemble none task AgentRole.coder (source ∷ source ∷ [])).task_background
assemble_bounds_example = assemble_bounds none task AgentRole.coder (source ∷ source ∷ [])

-- A memory whose ids are the contents.
abbrev by_content : MemoryProvider
by_content = record {
  State = List (String × String);
  query_memories = λ s text. some (source ∷ []);
  add_memory = λ s content kind. (insert content content s, some content);
  get_memory = λ s id. lookup id s;
  adjust_trust = λ s id. (s, true);
}

-- A package that carries a request alone.
abbrev request : String → ContextPackage
request text = record {
  user_request = text;
  task_background = [];
  relevant_files = [];
  code_snippets = [];
  previous_decisions = [];
  expected_output = "";
  scope_in = [];
  scope_out = [];
  error_handling = "";
  trust_scores = [];
  skill_content = "";
}

abbrev requests : Codec ContextPackage
requests = record { marshal = λ p. p.user_request; unmarshal = λ text. some (request text) }

abbrev orchestrator : Orchestrator by_content.State
orchestrator = record {
  config = record { protocol_strictness = strict; max_concurrent = 5; use_stateless_agents = true };
  protocol = new_protocol_machine strict;
  improve_handler = none;
}

handle_task-Handled_example :
    Handled by_content none requests orchestrator task
      (handle_task by_content none requests orchestrator [] task)
handle_task-Handled_example = handle_task-Handled by_content none requests orchestrator [] task

abbrev wrapped : AgentWrapUp
wrapped = record { summary = "done"; files_modified = "a.go" ∷ []; files_created = []; errors = [] }

abbrev wrap_ups : Codec AgentWrapUp
wrap_ups = record { marshal = λ w. w.summary; unmarshal = λ text. some wrapped }

complete_task_cycle-handle_task_example :
    let o = (handle_task by_content none requests orchestrator [] task).0 in
    let r =
      complete_task_cycle by_content wrap_ups o (("w1", "done") ∷ []) "t1" "w1" "a flag, please" in
    (r.0.protocol ≡ put (new_protocol_machine strict) "t1" finished) × (r.2 ≡ ok wrapped)
unfolding fetch_agent_wrap_up lookup
complete_task_cycle-handle_task_example =
    complete_task_cycle-handle_task by_content none requests wrap_ups orchestrator []
      (("w1", "done") ∷ []) task "w1" "a flag, please" wrapped refl
