-- ===== src/Memory/Examples.antt =====
-- Runs of the memory definitions on small inputs.
use neuralgentics.Prelude.{
  List, [], ◌∷◌, Option, some, pos, string_comparable, ◌==◌, if◌then◌else◌, ℕ, ◌<◌, ◌*◌, String,
  ◌≡◌, ◌≢◌, refl, false, none, ==_iff, arith, All, length,
}
use neuralgentics.Memory.Traversal.{Relationship, find_inference_paths}
use neuralgentics.Memory.Traversal.Shortest.{Verdict, find_inference_paths-Verdict}
use neuralgentics.Memory.Cache.{SummaryCache, set, evict}
use neuralgentics.Memory.Cache.Laws.{evict-set}
use neuralgentics.Memory.Chunker.{default_chunk_config, new_chunker, chunk_file}
use neuralgentics.Memory.Chunker.Text.{split_lines, join_lines, join_lines-split_lines}
use neuralgentics.Memory.Chunker.Windows.{Covers, Within}
use neuralgentics.Memory.Chunker.Files.{chunk_file_sound}

differ : (a b : String) → (a == b) ≡ false → a ≢ b
differ a b e same = absurd (cc (e, (==_iff a b).1 same))

abbrev cached : SummaryCache
cached = record { entries = ("k", record { value = "old"; expires_at = 10 }) ∷ [] }

evict-set_example : evict 11 "k" (set 11 "k" "new" 7 cached) ≡ set 11 "k" "new" 7 cached
evict-set_example = evict-set cached "k" "new" 7 11 11 (omega arith)

abbrev program : String
program = "package a\n\nfunc f() {\n}\n"

join_lines-split_lines_example : join_lines (split_lines program) ≡ program
join_lines-split_lines_example = join_lines-split_lines program

chunk_file_sound_example :
    ((i : ℕ)
      → i < length (split_lines program)
      → Covers i (chunk_file (new_chunker default_chunk_config) "a.go" program))
    × All
        (Within "a.go"
          (split_lines program)
          0
          (length (split_lines program))
          ((new_chunker default_chunk_config).max_lines * 2))
        (chunk_file (new_chunker default_chunk_config) "a.go" program)
chunk_file_sound_example =
    chunk_file_sound default_chunk_config "a.go" program (differ program "" refl)

-- Two relationships in a row, the second of them pointing backwards.
abbrev first_link : Relationship
first_link = record {
  id = "r1";
  source_id = "m1";
  target_id = "m2";
  relationship_type = "RELATED_TO";
}

abbrev second_link : Relationship
second_link = record {
  id = "r2";
  source_id = "m3";
  target_id = "m2";
  relationship_type = "RELATED_TO";
}

abbrev store : String → Option (List Relationship)
store id =
    if id == "m1"
    then some (first_link ∷ [])
    else if id == "m2"
    then some (first_link ∷ second_link ∷ [])
    else if id == "m3"
    then some (second_link ∷ [])
    else none

find_inference_paths-Verdict_example :
    Verdict store "m3" "m1" 3 (find_inference_paths store "m3" "m1" (pos 3))
find_inference_paths-Verdict_example = find_inference_paths-Verdict store "m1" "m3" (pos 3)

two_links : find_inference_paths store "m3" "m1" (pos 3) ≡ first_link ∷ second_link ∷ []
unfolding find_inference_paths
two_links = refl

-- A depth of two is one too few for a path of two relationships.
too_shallow : find_inference_paths store "m3" "m1" (pos 2) ≡ []
unfolding find_inference_paths
too_shallow = refl
