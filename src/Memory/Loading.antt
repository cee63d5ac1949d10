-- ===== src/Memory/Loading.antt =====
-- Runs of the tiered loader and of the indexer.
use neuralgentics.Prelude.{In, ◌↔◌}
use neuralgentics.Memory.Index.Walk.{Entries, done, dir, collect_files}
use neuralgentics.Memory.Index.Walk.Collected.{IsKept, FileAt, IsIndexed, collect_files_iff}
use neuralgentics.Memory.Index.{Disk, Store as IndexStore, index}
use neuralgentics.Memory.Index.Again.{resting, Repeats, index-index}
use neuralgentics.Prelude.{refl, String, true, false, List, [], ◌∷◌, Option, none, some, arith}
use neuralgentics.Memory.Cache.{new_summary_cache}
use neuralgentics.Memory.Loader.{l1, Store, MemoryEntry, Prompt, Clock, get_tier_summary}
use neuralgentics.Memory.Loader.Laws.{Outcome, get_tier_summary-Outcome}

abbrev store : Store
store = record {
  State = List MemoryEntry;
  list_memories = λ s least most. some s;
  add_memory = λ s m. (m ∷ s, some "id");
}

abbrev memories : List MemoryEntry
memories = record { content = "use tabs"; source_type = "project"; trust_score = 9 } ∷ []

abbrev model : Prompt → Option String
model p = some "tabs are used"

abbrev first : Clock
first = record { now = 1; later = 2; at = 3 }

abbrev second : Clock
second = record { now = 60; later = 61; at = 62 }

get_tier_summary-Outcome_example :
    Outcome store
      (λ p. none)
      []
      second
      model
      l1
      new_summary_cache
      (some memories)
      (get_tier_summary store model memories first l1 true new_summary_cache)
get_tier_summary-Outcome_example =
    get_tier_summary-Outcome store (λ p. none) [] second store model memories first l1
      new_summary_cache (omega arith)

abbrev disk : Disk
disk = record {
  read_first = λ path. some "package a";
  read_again = λ path. some "package a";
  digest = λ text. text;
}

-- A store that refuses everything.
abbrev closed : IndexStore
closed = record { accepts = λ ws w. false }

index-index_example :
    let r =
      index closed disk true
        (λ i. true)
        (some ("a.go" ∷ []))
        (resting (record { hashes = [] }))
        [] in
    Repeats r.0 r.1.writes (index closed disk false (λ i. true) (some ("a.go" ∷ [])) r.0 r.1.writes)
unfolding index
index-index_example =
    index-index disk closed closed true (λ i. true) (λ i. true) ("a.go" ∷ [])
      (record { hashes = [] }) [] refl

abbrev project : Entries
project = Entries.file "a.go" (dir "vendor" (Entries.file "b.go" done) done)

collect_files_iff_example : In ("b.go" ∷ "vendor" ∷ []) (collect_files "app" project) ↔ (
    IsKept "app" × FileAt ("b.go" ∷ "vendor" ∷ []) [] project × IsIndexed ("b.go" ∷ "vendor" ∷ []))
collect_files_iff_example = collect_files_iff "app" project ("b.go" ∷ "vendor" ∷ [])
