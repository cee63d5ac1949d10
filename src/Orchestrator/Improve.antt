-- ===== src/Orchestrator/Improve.antt =====
-- improve.go: the IMPROVE phase. Times are left out, and so is the fingerprint of configuration files,
-- which nothing reads; a text is measured in characters, which are the bytes of an ASCII text.
use neuralgentics.Prelude.{
  ℕ, ◌+◌, ◌*◌, ◌/◌, String, Bool, false, not, List, [], ◌∷◌, ◌++◌, Option, none, some, ◌==◌,
  string_comparable, number_comparable, text_length, ltb, if◌then◌else◌,
}

abbrev pub default_context_window_tokens : ℕ
default_context_window_tokens = 200000

pub record ContextBudget : Type 0 where
  pub task_input_tokens : ℕ
  pub task_output_tokens : ℕ
  pub context_window_tokens : ℕ
  pub recommend_precompress : Bool

pub data ImproveError : Type 0 where
  extraction_failed summary_failed : ImproveError

pub record ImproveResult : Type 0 where
  pub task_id : String
  pub patterns_extracted : ℕ
  pub trust_adjustments : ℕ
  pub summary_generated : Bool
  pub errors : List ImproveError
  pub context_budget : ContextBudget
  pub restart_recommended : Bool

unfoldable pub estimate_tokens : String → ℕ
estimate_tokens s = if s == "" then 0 else (text_length s + 3) / 4

unfoldable pub estimate_task_output_tokens : ℕ → Bool → ℕ
estimate_task_output_tokens patterns summary = (if summary then 2000 else 0) + patterns * 100

-- The memory over its state: the number of patterns that it extracts, and its summary, which is
-- asked for without a forced refresh. Both calls may change the memory.
pub record ImproveMemory (S : Type 0) : Type 0 where
  pub trigger_extraction : S → String → S × Option ℕ
  pub get_tier1_summary : S → S × Option String

pub record ImproveHandler (S : Type 0) : Type 0 where
  pub memory : ImproveMemory S
  pub context_window : ℕ

unfoldable pub new_improve_handler : {S : Type 0} → ImproveMemory S → ImproveHandler S
new_improve_handler memory = record {
  memory = memory;
  context_window = default_context_window_tokens;
}

unfoldable pub new_improve_handler_with_context :
    {S : Type 0} → ImproveMemory S → ℕ → ImproveHandler S
unfolding new_improve_handler
new_improve_handler_with_context memory window =
    if ltb 0 window
    then record (new_improve_handler memory) { context_window = window }
    else new_improve_handler memory

unfoldable pub compute_context_budget :
    {S : Type 0} → ImproveHandler S → String → ℕ → Bool → ContextBudget
unfolding estimate_tokens estimate_task_output_tokens
compute_context_budget h conversation patterns summary = record {
  task_input_tokens = estimate_tokens conversation;
  task_output_tokens = estimate_task_output_tokens patterns summary;
  context_window_tokens =
      if ltb 0 h.context_window then h.context_window else default_context_window_tokens;
  recommend_precompress = false;
}

abbrev extraction : {S : Type 0} → ImproveHandler S → S → String → S × Option ℕ
extraction h s conversation =
    if not (conversation == "") then h.memory.trigger_extraction s conversation else (s, some 0)

abbrev errors_of : {A : Type 0} → ImproveError → Option A → List ImproveError
errors_of e none = e ∷ []
errors_of e (some _) = []

abbrev count_of : Option ℕ → ℕ
count_of none = 0
count_of (some n) = n

abbrev generated : Option String → Bool
generated none = false
generated (some summary) = not (summary == "")

abbrev reported :
    {S : Type 0} → ImproveHandler S → String → String → Option ℕ → Option String → ImproveResult
reported h task conversation extracted summary = record {
  task_id = task;
  patterns_extracted = count_of extracted;
  trust_adjustments = 0;
  summary_generated = generated summary;
  errors = errors_of extraction_failed extracted ++ errors_of summary_failed summary;
  context_budget = compute_context_budget h conversation (count_of extracted) (generated summary);
  restart_recommended = false;
}

-- It never fails: errors are part of the result.
unfoldable pub run : {S : Type 0} → ImproveHandler S → S → String → String → S × ImproveResult
unfolding compute_context_budget
run h s task conversation =
    let e = extraction h s conversation in
    let g = h.memory.get_tier1_summary e.0 in (g.0, reported h task conversation e.1 g.1)
