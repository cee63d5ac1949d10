-- ===== src/Memory/Index/Walk.antt =====
-- index/tracker.go: the walk over the files of a project. A directory is its entries, in the order of
-- the walk, all of which can be read; a path is the list of its components, the last one first.
pub mod Collected
use neuralgentics.Prelude.{
  String, Bool, true, false, not, List, [], ◌∷◌, ◌++◌, ◌&&◌, ◌||◌, string_comparable, contains,
  if◌then◌else◌,
}
use neuralgentics.Memory.Chunker.Text.{extension}

-- The entries of a directory: a file, or a directory with its entries, before the rest.
pub data Entries : Type 0 where
  done : Entries
  file : String → Entries → Entries
  dir : String → Entries → Entries → Entries

-- SkipDirs
unfoldable pub skip_dirs : List String
skip_dirs =
    "node_modules" ∷ ".git" ∷ "dist" ∷ "__pycache__" ∷ ".venv" ∷ "vendor" ∷ ".cache" ∷ ".next"
    ∷ ".nuxt" ∷ "build" ∷ ".tox" ∷ ".mypy_cache" ∷ ".pytest_cache" ∷ []

-- AllowedExtensions
unfoldable pub allowed_extensions : List String
allowed_extensions =
    ".go" ∷ ".ts" ∷ ".tsx" ∷ ".js" ∷ ".py" ∷ ".md" ∷ ".json" ∷ ".yaml" ∷ ".yml" ∷ ".sql" ∷ ".proto"
    ∷ ".toml" ∷ ".mod" ∷ ".sum" ∷ ".rs" ∷ ".java" ∷ ".rb" ∷ ".c" ∷ ".h" ∷ ".css" ∷ ".html" ∷ []

unfoldable pub skipped : String → Bool
skipped name = contains name skip_dirs

-- The loop over the directories of the path.
unfoldable pub any_skipped : List String → Bool
any_skipped [] = false
any_skipped (d ∷ dirs) = skipped d || any_skipped dirs

unfoldable pub should_index_path : List String → String → Bool
unfolding any_skipped
should_index_path dirs name = contains (extension name) allowed_extensions && not (any_skipped dirs)

unfoldable pub walk : List String → Entries → List (List String)
unfolding should_index_path
walk dirs done = []
walk dirs (file name rest) =
    let more = walk dirs rest in if should_index_path dirs name then (name ∷ dirs) ∷ more else more
walk dirs (dir name inside rest) =
    let more = walk dirs rest in
    let below = walk (name ∷ dirs) inside in if skipped name then more else below ++ more

-- The root is a directory like the others, by its own name.
unfoldable pub collect_files : String → Entries → List (List String)
unfolding walk
collect_files root entries = if skipped root then [] else walk [] entries
