-- ===== src/Orchestrator/Context.antt =====
-- context_builder.go: the context package of a task, and its way through the memory. A formatted
-- text is the list of the values that it shows. A trust score is a number of units, of which 1.0 has
-- a fixed number. A text is measured in characters, which are the bytes of an ASCII text.
pub mod Tables
pub mod Prompts
pub mod Laws
use neuralgentics.Prelude.{
  ℕ, zero, suc, ◌+◌, String, Bool, true, false, not, List, [], ◌∷◌, ◌++◌, Option, none, some, ◌==◌,
  ◌&&◌, ◌||◌, string_comparable, contains, lookup, insert, length, text_length, take, map, ltb,
  if◌then◌else◌, Result, ok, err, ok_or,
}
use neuralgentics.Orchestrator.Types.{TaskType, AgentRole, Priority, Task, ScopeBoundaries}
use neuralgentics.Orchestrator.Skills
use neuralgentics.Orchestrator.Skills.{Skill}
use neuralgentics.Orchestrator.Context.Tables.{
  resolve_scope_boundaries, resolve_expected_output, resolve_error_handling,
  agent_role_to_skill_name,
}

-- The fields of a memory that are used here.
pub record MemoryEntry : Type 0 where
  pub id : String
  pub content : String
  pub source_type : String
  pub source_path : Option String
  pub trust_score : ℕ

-- The lines of the background.
pub data BackgroundLine : Type 0 where
  task_line : String → BackgroundLine
  type_line : TaskType → BackgroundLine
  priority_line : Priority → BackgroundLine
  files_line : List String → BackgroundLine
  results_line : ℕ → BackgroundLine
  memory_line : String → String → BackgroundLine

pub record ContextPackage : Type 0 where
  pub user_request : String
  pub task_background : List BackgroundLine
  pub relevant_files : List String
  pub code_snippets : List (String × String)
  pub previous_decisions : List String
  pub expected_output : String
  pub scope_in : List String
  pub scope_out : List String
  pub error_handling : String
  pub trust_scores : List (String × ℕ)
  pub skill_content : String

-- The loop that fills the map of trust scores.
trust_from : List (String × ℕ) → List MemoryEntry → List (String × ℕ)
trust_from scores [] = scores
trust_from scores (m ∷ memories) =
    trust_from (if ltb 0 m.trust_score then insert m.id m.trust_score scores else scores) memories

decisions : List MemoryEntry → List String
decisions [] = []
decisions (m ∷ memories) =
    let rest = decisions memories in
    if m.source_type == "project" || m.source_type == "boomerang" then m.content ∷ rest else rest

-- The path of a memory that the loop over the files looks at.
abbrev file_path : MemoryEntry → Option String → Option String
file_path m none = none
file_path m (some path) = if m.source_type == "file" && not (path == "") then some path else none

abbrev with_file : List String → Option String → List String
with_file files none = files
with_file files (some path) = if contains path files then files else files ++ path ∷ []

-- The paths that were seen are those of the list.
files_from : List String → List MemoryEntry → List String
files_from files [] = files
files_from files (m ∷ memories) = files_from (with_file files (file_path m m.source_path)) memories

unfoldable pub extract_relevant_files : List MemoryEntry → List String
unfolding files_from
extract_relevant_files memories = files_from [] memories

-- A count of snippets and their map.
abbrev Snippets : Type 0
Snippets = ℕ × List (String × String)

abbrev snippet : MemoryEntry → Snippets → Option String → Snippets
snippet m s none = s
snippet m (count, snippets) (some path) =
    if m.source_type == "file" && ltb count 5
    then (count + 1, insert path m.content snippets)
    else (count, snippets)

snippets_from : Snippets → List MemoryEntry → Snippets
snippets_from s [] = s
snippets_from s (m ∷ memories) = snippets_from (snippet m s m.source_path) memories

unfoldable pub extract_code_snippets : List MemoryEntry → List (String × String)
unfolding snippets_from
extract_code_snippets memories = (snippets_from (0, []) memories).1

-- content[:n]
unfoldable pub cut : ℕ → String → String
cut zero s = ""
cut (suc n) String.[] = ""
cut (suc n) (String.◌∷◌ c s) = String.◌∷◌ c (cut n s)

memory_part : MemoryEntry → BackgroundLine
unfolding cut text_length
memory_part m =
    memory_line m.source_type
      (if ltb 200 (text_length m.content) then cut 200 m.content else m.content)

abbrev files_part : List String → List BackgroundLine
files_part [] = []
files_part (f ∷ files) = files_line (f ∷ files) ∷ []

abbrev memories_part : List MemoryEntry → List BackgroundLine
memories_part [] = []
memories_part (m ∷ memories) =
    results_line (length (m ∷ memories)) ∷ map memory_part (take 5 (m ∷ memories))

unfoldable pub build_task_background : Task → List MemoryEntry → List BackgroundLine
unfolding memory_part
build_task_background t memories =
    task_line t.task_description ∷ type_line t.kind ∷ priority_line t.priority ∷ files_part t.files
    ++ memories_part memories

abbrev content_of : Option Skill → String
content_of none = ""
content_of (some s) = s.content

-- The global registry is `none` until it is set.
unfoldable pub resolve_skill_content : Option Skills.Registry → AgentRole → String
resolve_skill_content none agent = ""
resolve_skill_content (some registry) agent =
    content_of (Skills.get registry (agent_role_to_skill_name agent))

-- The memory behind the interface: a state, and what the calls return.
pub record MemoryProvider : Type 1 where
  pub State : Type 0
  pub query_memories : State → String → Option (List MemoryEntry)
  pub add_memory : State → String → String → State × Option String
  pub get_memory : State → String → Option String
  pub adjust_trust : State → String → State × Bool

pub data ContextError : Type 0 where
  query_failed store_failed fetch_failed unmarshal_failed : ContextError

unfoldable pub assemble :
    Option Skills.Registry → Task → AgentRole → List MemoryEntry → ContextPackage
unfolding trust_from decisions extract_relevant_files extract_code_snippets build_task_background
    resolve_skill_content
assemble registry t agent memories =
    let scope = resolve_scope_boundaries t.kind agent in
    record {
      user_request = t.user_request;
      task_background = build_task_background t memories;
      relevant_files = extract_relevant_files memories;
      code_snippets = extract_code_snippets memories;
      previous_decisions = decisions memories;
      expected_output = resolve_expected_output t.kind;
      scope_in = scope.in_scope;
      scope_out = scope.out_scope;
      error_handling = resolve_error_handling t.kind;
      trust_scores = trust_from [] memories;
      skill_content = resolve_skill_content registry agent;
    }

-- encoding/json for one type of documents.
pub record Codec (A : Type 0) : Type 0 where
  pub marshal : A → String
  pub unmarshal : String → Option A

abbrev decoded : {A : Type 0} → Codec A → Option String → Result ContextError A
decoded codec none = err fetch_failed
decoded codec (some content) = ok_or unmarshal_failed (codec.unmarshal content)

abbrev added : {S : Type 0} → S × Option String → S × Result ContextError String
added (s, none) = (s, err store_failed)
added (s, some id) = (s, ok id)

abbrev built :
    Option Skills.Registry
    → Task
    → AgentRole
    → Option (List MemoryEntry)
    → Result ContextError ContextPackage
built registry t agent none = err query_failed
built registry t agent (some memories) = ok (assemble registry t agent memories)

module _ (mem : MemoryProvider) where
  open mem use {State, query_memories, add_memory, get_memory}

  unfoldable pub build_context_package :
      Option Skills.Registry → State → Task → AgentRole → Result ContextError ContextPackage
  unfolding assemble
  build_context_package registry s t agent =
      built registry t agent (query_memories s t.task_description)

  unfoldable pub store_context_package :
      Codec ContextPackage → State → ContextPackage → State × Result ContextError String
  store_context_package codec s pkg = added (add_memory s (codec.marshal pkg) "context_package")

  unfoldable pub fetch_context_package :
      Codec ContextPackage → State → String → Result ContextError ContextPackage
  fetch_context_package codec s id = decoded codec (get_memory s id)

-- AgentWrapUp, without the lists that nothing here reads.
pub record AgentWrapUp : Type 0 where
  pub summary : String
  pub files_modified : List String
  pub files_created : List String
  pub errors : List String

module _ (mem : MemoryProvider) (codec : Codec AgentWrapUp) where
  open mem use {State, add_memory, get_memory}

  unfoldable pub store_agent_wrap_up : State → AgentWrapUp → State × Result ContextError String
  store_agent_wrap_up s wrap_up = added (add_memory s (codec.marshal wrap_up) "agent_wrap_up")

  unfoldable pub fetch_agent_wrap_up : State → String → Result ContextError AgentWrapUp
  fetch_agent_wrap_up s id = decoded codec (get_memory s id)
