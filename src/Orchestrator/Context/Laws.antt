-- ===== src/Orchestrator/Context/Laws.antt =====
-- context_builder.go: the size of a package, its files, and its way through the memory.
use neuralgentics.Prelude.{
  text_length, ℕ, zero, suc, ◌+◌, ◌≤◌, String, ◌≡◌, ◌≢◌, ◌↔◌, ◌⊎◌, inl, inr, refl, subst, List, [],
  ◌∷◌, ◌++◌, Option, none, some, ==_iff, string_comparable, In, In-append_iff, Unique,
  Unique-concat, contains, contains_iff, All, insert, length, take, map, arith, Bool-cases,
}
use neuralgentics.Orchestrator.Types.{Task, AgentRole}
use neuralgentics.Orchestrator.Skills
use neuralgentics.Orchestrator.Context.{
  MemoryEntry, BackgroundLine, task_line, type_line, priority_line, files_line, results_line,
  memory_line, file_path, with_file, files_from, extract_relevant_files, Snippets, snippet,
  snippets_from, extract_code_snippets, cut, memory_part, files_part, memories_part,
  build_task_background, assemble,
}

text_length-cut : (n : ℕ) (s : String) → text_length (cut n s) ≤ n
unfolding text_length cut
text_length-cut zero s = omega arith
text_length-cut (suc n) String.[] = omega arith
text_length-cut (suc n) (String.◌∷◌ c s) = omega (arith, text_length-cut n s)

-- A line about a memory shows at most 200 characters of it.
abbrev pub IsShort : BackgroundLine → Type 0
IsShort (memory_line source content) = text_length content ≤ 200
IsShort (task_line s) = Unit
IsShort (type_line t) = Unit
IsShort (priority_line p) = Unit
IsShort (files_line fs) = Unit
IsShort (results_line n) = Unit

-- How many lines are about a memory.
abbrev pub memory_lines : List BackgroundLine → ℕ
memory_lines [] = 0
memory_lines (memory_line s c ∷ ls) = suc (memory_lines ls)
memory_lines (task_line s ∷ ls) = memory_lines ls
memory_lines (type_line t ∷ ls) = memory_lines ls
memory_lines (priority_line p ∷ ls) = memory_lines ls
memory_lines (files_line fs ∷ ls) = memory_lines ls
memory_lines (results_line n ∷ ls) = memory_lines ls

memory_part-IsShort : (m : MemoryEntry) → IsShort (memory_part m)
unfolding memory_part
memory_part-IsShort m = ground (arith, text_length-cut 200 m.content)

memory_parts-IsShort : (ms : List MemoryEntry) → All IsShort (map memory_part ms)
memory_parts-IsShort [] = tt
memory_parts-IsShort (m ∷ ms) = (memory_part-IsShort m, memory_parts-IsShort ms)

memory_lines-map : (n : ℕ) (ms : List MemoryEntry) → memory_lines (map memory_part (take n ms)) ≤ n
unfolding memory_part
memory_lines-map zero ms = omega arith
memory_lines-map (suc n) [] = omega arith
memory_lines-map (suc n) (m ∷ ms) = omega (arith, memory_lines-map n ms)

length-insert :
    (k v : String) (entries : List (String × String))
    → length (insert k v entries) ≤ length entries + 1
unfolding insert
length-insert k v [] = omega arith
length-insert k v ((j, w) ∷ entries) = ground (arith, length-insert k v entries)

-- No more snippets than the count, which stops at five.
abbrev Few : Snippets → Type 0
Few s = (length s.1 ≤ s.0) × (s.0 ≤ 5)

snippet-Few :
    (m : MemoryEntry) (s : Snippets) (path : Option String) → Few s → Few (snippet m s path)
snippet-Few m s none f = f
snippet-Few m (count, snippets) (some path) f =
    ground (arith, length-insert path m.content snippets)

snippets_from-Few : (s : Snippets) (ms : List MemoryEntry) → Few s → Few (snippets_from s ms)
unfolding snippets_from
snippets_from-Few s [] f = f
snippets_from-Few s (m ∷ ms) f =
    snippets_from-Few (snippet m s m.source_path) ms (snippet-Few m s m.source_path f)

memories_part_bounds :
    (ms : List MemoryEntry) → All IsShort (memories_part ms) × (memory_lines (memories_part ms) ≤ 5)
memories_part_bounds [] = (tt, omega arith)
memories_part_bounds (m ∷ ms) =
    ((tt, memory_parts-IsShort (take 5 (m ∷ ms))), memory_lines-map 5 (m ∷ ms))

files_part_bounds :
    (files : List String) (ls : List BackgroundLine)
    → All IsShort ls
    → All IsShort (files_part files ++ ls)
      × (memory_lines (files_part files ++ ls) ≡ memory_lines ls)
files_part_bounds [] ls s = (s, refl)
files_part_bounds (f ∷ fs) ls s = ((tt, s), refl)

-- However many memories there are and however long: a context package has at most five snippets,
-- and its background has at most five lines about memories, each with at most 200
-- characters of its memory.
pub assemble_bounds :
    (registry : Option Skills.Registry) (t : Task) (agent : AgentRole) (ms : List MemoryEntry)
    → (length (assemble registry t agent ms).code_snippets ≤ 5)
      × (memory_lines (assemble registry t agent ms).task_background ≤ 5)
      × All IsShort (assemble registry t agent ms).task_background
unfolding assemble extract_code_snippets build_task_background
assemble_bounds registry t agent ms =
    let f = snippets_from-Few (0, []) ms (omega arith, omega arith) in
    let (short, few) = memories_part_bounds ms in
    let (all, same) = files_part_bounds t.files (memories_part ms) short in
    (omega arith, omega (arith, same), (tt, (tt, (tt, all))))

-- A memory of type "file" with a path that is not empty.
abbrev pub FileOf : String → MemoryEntry → Type 0
FileOf path m = (m.source_type ≡ "file") × (m.source_path ≡ some path) × (path ≢ "")

file_path_iff :
    (path : String) (m : MemoryEntry) (p : Option String)
    → (file_path m p ≡ some path) ↔ ((m.source_type ≡ "file") × (p ≡ some path) × (path ≢ ""))
file_path_iff path m none = ground arith
file_path_iff path m (some q) =
    ground (arith, ==_iff m.source_type "file", ==_iff q "", ==_iff path "")

-- Some memory of the list is such a file.
abbrev pub FileIn : String → List MemoryEntry → Type 0
FileIn path [] = ⊥
FileIn path (m ∷ ms) = FileOf path m ⊎ FileIn path ms

with_file-Unique :
    (files : List String) (p : Option String) → Unique files → Unique (with_file files p)
with_file-Unique files none u = u
with_file-Unique files (some path) u = elim (Bool-cases (contains path files)) [
  | inl old ↦ rw old u
  | inr new ↦ rw new (Unique-concat files path u new)
]

In-with_file :
    (path : String) (files : List String) (p : Option String)
    → In path (with_file files p) ↔ (In path files ⊎ (p ≡ some path))
In-with_file path files none = ground arith
In-with_file path files (some q) = elim (Bool-cases (contains q files)) [
  | inl old ↦ rw old (
    λ h. inl h,
    λ h. elim h [
      | inl there ↦ there
      | inr e ↦ subst (λ x. In x files) (ground arith) ((contains_iff q files).0 old)
    ],
  )
  | inr new ↦ rw new (ground (arith, In-append_iff path files (q ∷ [])))
]

files_from-Unique :
    (files : List String) (ms : List MemoryEntry) → Unique files → Unique (files_from files ms)
unfolding files_from
files_from-Unique files [] u = u
files_from-Unique files (m ∷ ms) u =
    let p = file_path m m.source_path in
    files_from-Unique (with_file files p) ms (with_file-Unique files p u)

In-files_from :
    (path : String) (files : List String) (ms : List MemoryEntry)
    → In path (files_from files ms) ↔ (In path files ⊎ FileIn path ms)
unfolding files_from
In-files_from path files [] = ground arith
In-files_from path files (m ∷ ms) =
    let p = file_path m m.source_path in
    ground (
      arith,
      In-files_from path (with_file files p) ms,
      In-with_file path files p,
      file_path_iff path m m.source_path,
    )

-- The files of a package are, each once, the paths that are not empty of the memories of type
-- "file".
pub extract_relevant_files_lem :
    (ms : List MemoryEntry)
    → Unique (extract_relevant_files ms)
      × ((path : String) → In path (extract_relevant_files ms) ↔ FileIn path ms)
unfolding extract_relevant_files
extract_relevant_files_lem ms =
    (files_from-Unique [] ms tt, λ path. ground (arith, In-files_from path [] ms))
