-- ===== src/Memory/Chunker.antt =====
-- index/chunker.go: splitting a file into chunks of lines. Positions are 0-based in the loops and
-- 1-based in the results, as in the source. The loops take fuel, on which see `Windows`. A score is always 0.
pub mod Text
pub mod Windows
pub mod Boundaries
pub mod Files
use neuralgentics.Prelude.{
  ℤ, pos, negsuc, positive_or, ℕ, zero, suc, ◌+◌, ◌-◌, ◌*◌, ◌/◌, String, Bool, true, false, not,
  List, [], ◌∷◌, ◌++◌, Option, none, some, ◌==◌, string_comparable, number_comparable, length, ltb,
  leb, if◌then◌else◌, take, drop, ◌&&◌, ◌||◌,
}
use Text.{
  trim_space, has_prefix, contains_text, split_lines, join_lines, extension, lowers_to,
  starts_blank, is_empty,
}

pub record ChunkConfig : Type 0 where
  pub max_lines : ℤ
  pub overlap_lines : ℤ
  pub max_chunk_bytes : ℤ

-- DefaultChunkConfig
abbrev pub default_chunk_config : ChunkConfig
default_chunk_config = record {
  max_lines = pos 50;
  overlap_lines = pos 5;
  max_chunk_bytes = pos 8000;
}

-- The configuration of a `Chunker`, which `NewChunker` has made positive.
pub record Chunker : Type 0 where
  pub max_lines : ℕ
  pub overlap_lines : ℕ
  pub max_chunk_bytes : ℕ

abbrev not_negative : ℤ → ℕ
not_negative (pos n) = n
not_negative (negsuc n) = 0

unfoldable pub new_chunker : ChunkConfig → Chunker
new_chunker config =
    let lines = positive_or 50 config.max_lines in
    let overlap = not_negative config.overlap_lines in
    record {
      max_lines = lines;
      overlap_lines = if leb lines overlap then lines / 4 else overlap;
      max_chunk_bytes = positive_or 8000 config.max_chunk_bytes;
    }

pub record ChunkResult : Type 0 where
  pub file_path : String
  pub content : String
  pub start_line : ℕ
  pub end_line : ℕ
  pub score : ℕ

-- strings.Join(lines[start:end], "\n")
abbrev pub slice_text : List String → ℕ → ℕ → String
slice_text lines start end = join_lines (take (end - start) (drop start lines))

abbrev pub chunk_of : String → List String → ℕ → ℕ → ChunkResult
chunk_of path lines start end = record {
  file_path = path;
  content = slice_text lines start end;
  start_line = start + 1;
  end_line = end;
  score = 0;
}

-- The end of a window, and the step to the next.
abbrev pub window_end : Chunker → ℕ → ℕ → ℕ
window_end c start end = if ltb end (start + c.max_lines) then end else start + c.max_lines

abbrev pub step_of : Chunker → ℕ
step_of c = if leb c.max_lines c.overlap_lines then 1 else c.max_lines - c.overlap_lines

-- The loop of `chunkLineBased` and `splitLargeBoundary`, which are the same over their bounds.
pub windows : ℕ → Chunker → String → List String → ℕ → ℕ → List ChunkResult
windows zero c path lines start end = []
windows (suc fuel) c path lines start end =
    let rest = windows fuel c path lines (start + step_of c) end in
    if ltb start end then chunk_of path lines start (window_end c start end) ∷ rest else []

pub split_large_boundary : Chunker → String → List String → ℕ → ℕ → List ChunkResult
unfolding windows
split_large_boundary c path lines start end = windows (end - start) c path lines start end

pub chunk_line_based : Chunker → String → List String → List ChunkResult
unfolding windows
chunk_line_based c path lines = windows (length lines) c path lines 0 (length lines)

pub is_go_function_decl : String → Bool
unfolding has_prefix contains_text
is_go_function_decl line =
    if not (has_prefix line "func ")
    then false
    else if has_prefix line "func //"
    then false
    else contains_text line "("

pub is_go_type_decl : String → Bool
unfolding has_prefix contains_text
is_go_type_decl line = has_prefix line "type " && contains_text line "struct"

pub is_js_boundary : String → Bool
unfolding has_prefix
is_js_boundary line =
    if has_prefix line "export "
    then true
    else if has_prefix line "function "
    then true
    else if has_prefix line "class "
    then true
    else has_prefix line "const " || (has_prefix line "let " || has_prefix line "var ")

-- The test of each loop over the lines.
pub is_go_boundary : String → Bool
unfolding is_go_function_decl is_go_type_decl trim_space
is_go_boundary line = is_go_function_decl (trim_space line) || is_go_type_decl (trim_space line)

-- The first `if` of the loop appends the line once, the second once more; no line passes both.
pub is_python_boundary : String → Bool
unfolding has_prefix trim_space starts_blank
is_python_boundary line =
    if not (is_empty line) && not (starts_blank line)
    then (has_prefix (trim_space line) "def " || has_prefix (trim_space line) "class ")
      || has_prefix (trim_space line) "if __name__"
    else false

abbrev pub kept : Bool → ℕ → List ℕ → List ℕ
kept true i rest = i ∷ rest
kept false i rest = rest

-- The indices, from `i` on, of the lines that pass the test.
pub boundaries_from : (String → Bool) → ℕ → List String → List ℕ
boundaries_from test i [] = []
boundaries_from test i (line ∷ lines) = kept (test line) i (boundaries_from test (suc i) lines)

pub data Language : Type 0 where
  go typescript javascript python : Language
  plain : String → Language

pub find_boundaries : Language → List String → List ℕ
unfolding boundaries_from is_go_boundary is_python_boundary is_js_boundary trim_space
find_boundaries go lines = boundaries_from is_go_boundary 0 lines
find_boundaries python lines = boundaries_from is_python_boundary 0 lines
find_boundaries typescript lines = boundaries_from (λ l. is_js_boundary (trim_space l)) 0 lines
find_boundaries javascript lines = boundaries_from (λ l. is_js_boundary (trim_space l)) 0 lines
find_boundaries (plain name) lines = []

abbrev pub last_of : ℕ → List ℕ → ℕ
last_of b [] = b
last_of b (x ∷ xs) = last_of x xs

-- The start boundary and the end boundary are added where they are not present.
abbrev pub with_start : List ℕ → List ℕ
with_start [] = []
with_start (b ∷ bs) = if ltb 0 b then 0 ∷ b ∷ bs else b ∷ bs

abbrev pub with_end : ℕ → List ℕ → List ℕ
with_end total [] = []
with_end total (b ∷ bs) = if ltb (last_of b bs) total then (b ∷ bs) ++ total ∷ [] else b ∷ bs

-- One round of the loop over the boundaries.
pub segment : Chunker → String → List String → ℕ → ℕ → List ChunkResult
unfolding split_large_boundary
segment c path lines start end =
    if ltb (c.max_lines * 2) (end - start)
    then split_large_boundary c path lines start end
    else chunk_of path lines start end ∷ []

pub segments : Chunker → String → List String → List ℕ → List ChunkResult
unfolding segment
segments c path lines [] = []
segments c path lines (b ∷ []) = []
segments c path lines (b ∷ b' ∷ bs) = segment c path lines b b' ++ segments c path lines (b' ∷ bs)

abbrev bounded : Chunker → String → List String → List ℕ → List ChunkResult
bounded c path lines [] = chunk_line_based c path lines
bounded c path lines (b ∷ bs) =
    segments c path lines (with_end (length lines) (with_start (b ∷ bs)))

pub chunk_with_boundaries : Chunker → String → List String → Language → List ChunkResult
unfolding find_boundaries
chunk_with_boundaries c path lines lang = bounded c path lines (find_boundaries lang lines)

-- DetectLanguage; the four languages that `ChunkFile` treats apart have constructors.
pub detect_language : String → Language
unfolding extension lowers_to
detect_language path =
    let ext = extension path in
    if lowers_to ext ".go"
    then go
    else if lowers_to ext ".ts" || lowers_to ext ".tsx"
    then typescript
    else if lowers_to ext ".js" || lowers_to ext ".jsx"
    then javascript
    else if lowers_to ext ".py"
    then python
    else if lowers_to ext ".md"
    then plain "markdown"
    else if lowers_to ext ".json"
    then plain "json"
    else if lowers_to ext ".yaml" || lowers_to ext ".yml"
    then plain "yaml"
    else if lowers_to ext ".sql"
    then plain "sql"
    else if lowers_to ext ".proto"
    then plain "protobuf"
    else if lowers_to ext ".toml"
    then plain "toml"
    else if lowers_to ext ".rs"
    then plain "rust"
    else if lowers_to ext ".java"
    then plain "java"
    else if lowers_to ext ".rb"
    then plain "ruby"
    else if lowers_to ext ".c" || lowers_to ext ".h"
    then plain "c"
    else if lowers_to ext ".css"
    then plain "css"
    else if lowers_to ext ".html"
    then plain "html"
    else if lowers_to ext ".mod"
    then plain "go_mod"
    else if lowers_to ext ".sum"
    then plain "go_sum"
    else plain "unknown"

abbrev by_language : Chunker → String → List String → Language → List ChunkResult
by_language c path lines (plain name) = chunk_line_based c path lines
by_language c path lines lang = chunk_with_boundaries c path lines lang

pub chunk_file : Chunker → String → String → List ChunkResult
unfolding detect_language split_lines
chunk_file c path content =
    if content == "" then [] else by_language c path (split_lines content) (detect_language path)
