-- ===== src/Memory/Index.antt =====
-- index/tracker.go and index/indexer.go: the hashes of files that were indexed, and the run over the
-- files of a project. The disk, the hash and the store are parameters. The batches only group the
-- calls of the embedder, whose vectors are not stored: a chunk is added in the same way with and
-- without one.
pub mod Walk
pub mod Settling
pub mod Again
use neuralgentics.Prelude.{
  ℕ, suc, ◌+◌, String, Bool, true, false, not, List, [], ◌∷◌, ◌++◌, Option, none, some, ◌==◌, ◌&&◌,
  string_comparable, lookup, insert, delete, if◌then◌else◌, Result, ok, err,
}
use neuralgentics.Memory.Chunker.{
  ChunkResult, Chunker, default_chunk_config, new_chunker, chunk_file,
}

pub record FileTracker : Type 0 where
  pub hashes : List (String × String)

unfoldable pub new_file_tracker : FileTracker
new_file_tracker = record { hashes = [] }

abbrev differs : String → Option String → Bool
differs hash none = true
differs hash (some tracked) = not (tracked == hash)

unfoldable pub has_changed : FileTracker → String → String → Bool
has_changed t path hash = differs hash (lookup path t.hashes)

unfoldable pub track : FileTracker → String → String → FileTracker
track t path hash = record { hashes = insert path hash t.hashes }

abbrev or_empty : Option String → String
or_empty none = ""
or_empty (some hash) = hash

unfoldable pub get_hash : FileTracker → String → String
get_hash t path = or_empty (lookup path t.hashes)

unfoldable pub remove : FileTracker → String → FileTracker
remove t path = record { hashes = delete path t.hashes }

unfoldable pub snapshot : FileTracker → List (String × String)
snapshot t = t.hashes

-- os.ReadFile in ComputeHash and afterwards in Index, and the digest of SHA-256.
pub record Disk : Type 0 where
  pub read_first : String → Option String
  pub read_again : String → Option String
  pub digest : String → String

abbrev digested : Disk → Option String → Option String
digested disk none = none
digested disk (some data_read) = some (disk.digest data_read)

unfoldable pub compute_hash : Disk → String → Option String
compute_hash disk path = digested disk (disk.read_first path)

-- DeleteChunksByPath and AddProjectChunk, as far as the store accepts them.
pub data Write : Type 0 where
  deletes : String → Write
  adds : ChunkResult → Write

pub record Store : Type 0 where
  pub accepts : List Write → Write → Bool

-- The state of a run: the tracker, the writes that the store accepted, and the counts.
pub record Progress : Type 0 where
  pub tracker : FileTracker
  pub writes : List Write
  pub indexed : ℕ
  pub skipped : ℕ
  pub errors : ℕ

abbrev written : Store → Write → Progress → Progress
written store w p = if store.accepts p.writes w then record p { writes = p.writes ++ w ∷ [] } else p

-- A chunk that is refused is counted as an error.
abbrev stored : Store → ChunkResult → Progress → Progress
stored store chunk p =
    if store.accepts p.writes (adds chunk)
    then record p { writes = p.writes ++ adds chunk ∷ [] }
    else record p { errors = p.errors + 1 }

unfoldable pub store_chunks : Store → List ChunkResult → Progress → Progress
store_chunks store [] p = p
store_chunks store (chunk ∷ chunks) p = store_chunks store chunks (stored store chunk p)

abbrev pub tracked : String → String → Progress → Progress
tracked path hash p = record p { tracker = track p.tracker path hash }

abbrev pub counted : Progress → Progress
counted p = record p { indexed = p.indexed + 1 }

abbrev chunked : Store → String → String → List ChunkResult → Progress → Progress
chunked store path hash [] p = tracked path hash p
chunked store path hash (chunk ∷ chunks) p =
    counted (tracked path hash (store_chunks store (chunk ∷ chunks) p))

-- The second read, and the chunks in place of the old ones.
abbrev read_file : Store → String → String → Option String → Progress → Progress
read_file store path hash none p = record p { errors = p.errors + 1 }
read_file store path hash (some content) p =
    chunked store path hash (chunk_file (new_chunker default_chunk_config) path content)
      (written store (deletes path) p)

abbrev hashed : Store → Disk → Bool → String → Option String → Progress → Progress
hashed store disk force path none p = record p { errors = p.errors + 1 }
hashed store disk force path (some hash) p =
    if not force && not (has_changed p.tracker path hash)
    then record p { skipped = p.skipped + 1 }
    else read_file store path hash (disk.read_again path) p

-- One round of the loop.
unfoldable pub index_file : Store → Disk → Bool → String → Progress → Progress
unfolding has_changed track compute_hash store_chunks
index_file store disk force path p = hashed store disk force path (compute_hash disk path) p

-- The context is tested before each file: a `false` stops the loop.
unfoldable pub index_files :
    Store → Disk → Bool → (ℕ → Bool) → ℕ → List String → Progress → Progress × Bool
unfolding index_file
index_files store disk force live i [] p = (p, true)
index_files store disk force live i (path ∷ paths) p =
    let rest =
      index_files store disk force live (suc i) paths (index_file store disk force path p) in
    if live i then rest else (p, false)

pub data IndexError : Type 0 where
  in_progress cannot_collect cancelled : IndexError

pub record ProjectIndexer : Type 0 where
  pub tracker : FileTracker
  pub indexing : Bool

unfoldable pub new_project_indexer : ProjectIndexer
unfolding new_file_tracker
new_project_indexer = record { tracker = new_file_tracker; indexing = false }

abbrev Indexed : Type 0
Indexed = ProjectIndexer × Progress × Option IndexError

abbrev started : ProjectIndexer → List Write → Progress
started x ws = record { tracker = x.tracker; writes = ws; indexed = 0; skipped = 0; errors = 0 }

-- The flag is cleared at every end of the run.
abbrev ended : ProjectIndexer → Progress × Bool → Indexed
ended x (p, true) = (record { tracker = p.tracker; indexing = false }, p, none)
ended x (p, false) = (record { tracker = p.tracker; indexing = false }, p, some cancelled)

abbrev collected :
    Store → Disk → Bool → (ℕ → Bool) → ProjectIndexer → List Write → Option (List String) → Indexed
collected store disk force live x ws none =
    (record x { indexing = false }, started x ws, some cannot_collect)
collected store disk force live x ws (some files) =
    ended x (index_files store disk force live 0 files (started x ws))

-- `files` is what the walk over the directory collects, `none` when there is none.
unfoldable pub index :
    Store → Disk → Bool → (ℕ → Bool) → Option (List String) → ProjectIndexer → List Write → Indexed
unfolding index_files
index store disk force live files x ws =
    if x.indexing
    then (x, started x ws, some in_progress)
    else collected store disk force live x ws files
