-- ===== src/Orchestrator/Context/Prompts.antt =====
-- context_builder.go: the seed prompt of an agent, which fetches its context by an id.
use Prim.Native.String.{◌++◌ as append}
use neuralgentics.Prelude.{String, List, [], ◌∷◌}

pub record SeedPrompt : Type 0 where
  pub task : String
  pub memory_id : String
  pub prompt : String

-- The texts that the builder is given, one after the other.
written : List String → String
written [] = ""
written (t ∷ ts) = append t (written ts)

unfoldable pub format_seed_prompt : String → String → String
unfolding written
format_seed_prompt task memory_id = written (
    "---\n" ∷ "## Task\n" ∷ task ∷ "\n\n" ∷ "## Memory Context\n"
    ∷ "Your full context package is stored in the memini-core memory system at ID: `" ∷ memory_id
    ∷ "`\n\n" ∷ "## Protocol (MANDATORY - Do NOT skip)\n\n" ∷ "### 1. Context Retrieval\n"
    ∷ "Fetch your context package from memory using the ID above.\n\n"
    ∷ "### 2. Memory Queries (during work)\n" ∷ "Query memory as needed for relevant context.\n\n"
    ∷ "### 3. Wrap-Up Storage (before returning)\n"
    ∷ "Store your wrap-up in memory with sourceType=\"agent_wrap_up\".\n\n"
    ∷ "### 4. Trust Signal\n" ∷ "Adjust trust on the context memory: signal=\"agent_used\".\n\n"
    ∷ "### 5. Return Format\n"
    ∷ "Return ONLY: {memory_id: \"<wrap_up_memory_id>\", description: \"<one-line summary>\"}\n"
    ∷ "---" ∷ [])

unfoldable pub seed_prompt : String → String → SeedPrompt
unfolding format_seed_prompt
seed_prompt task memory_id = record {
  task = task;
  memory_id = memory_id;
  prompt = format_seed_prompt task memory_id;
}
