-- ===== src/Memory/Chunker/Files.antt =====
-- `ChunkFile` as a whole.
use neuralgentics.Prelude.{
  ℕ, subst, ◌*◌, ◌<◌, String, ◌≢◌, inl, inr, Bool, List, [], ◌∷◌, ◌==◌, ==_iff, All, All-imp,
  Bool-cases, arith, length, string_comparable,
}
use neuralgentics.Memory.Chunker.{
  ChunkConfig, Chunker, new_chunker, ChunkResult, chunk_line_based, windows, boundaries_from,
  is_go_boundary, is_python_boundary, is_js_boundary, find_boundaries, bounded,
  chunk_with_boundaries, Language, go, python, typescript, javascript, plain, by_language,
  detect_language, chunk_file,
}
use neuralgentics.Memory.Chunker.Text.{split_lines, trim_space}
use neuralgentics.Memory.Chunker.Windows.{
  IsNormal, new_chunker-IsNormal, Covers, Within, windows_cover, windows-Within,
}
use neuralgentics.Memory.Chunker.Boundaries.{
  Rises, boundaries_from-Rises, closed-Ascends, segments_cover, segments-Within,
}

indices-Rise :
    (test : String → Bool) (lines : List String)
    → Rises 0 (boundaries_from test 0 lines) (length lines)
indices-Rise test lines =
    subst (Rises 0 (boundaries_from test 0 lines)) (omega arith)
      (boundaries_from-Rises test 0 lines)

find_boundaries-Rises :
    (lang : Language) (lines : List String) → Rises 0 (find_boundaries lang lines) (length lines)
unfolding find_boundaries
find_boundaries-Rises go lines = indices-Rise is_go_boundary lines
find_boundaries-Rises python lines = indices-Rise is_python_boundary lines
find_boundaries-Rises typescript lines = indices-Rise (λ l. is_js_boundary (trim_space l)) lines
find_boundaries-Rises javascript lines = indices-Rise (λ l. is_js_boundary (trim_space l)) lines
find_boundaries-Rises (plain name) lines = tt

module _ (c : Chunker) (n : IsNormal c) (path : String) (lines : List String) where
  abbrev Sound : List ChunkResult → Type 0
  Sound rs =
      ((i : ℕ) → i < length lines → Covers i rs)
      × All (Within path lines 0 (length lines) (c.max_lines * 2)) rs

  line_based-Sound : Sound (chunk_line_based c path lines)
  unfolding chunk_line_based
  line_based-Sound = (
    λ i h.
        windows_cover c n path lines (length lines) 0 (length lines) i (omega arith) (omega arith)
          h,
    All-imp (Within path lines 0 (length lines) c.max_lines)
        (Within path lines 0 (length lines) (c.max_lines * 2))
        (windows (length lines) c path lines 0 (length lines))
        (λ r w. record {
          file = w.file;
          after = w.after;
          ordered = w.ordered;
          before = w.before;
          small = omega (arith, w.small);
          text = w.text;
        })
        (windows-Within c n path lines (length lines) 0 (length lines)),
  )

  bounded-Sound : (bs : List ℕ) → Rises 0 bs (length lines) → Sound (bounded c path lines bs)
  bounded-Sound [] r = line_based-Sound
  bounded-Sound (b ∷ bs) r =
      let (xs, e, a) = closed-Ascends (length lines) b bs r in
      rw e (
        λ i h. segments_cover c n path lines (length lines) 0 i xs a (omega arith) h,
        segments-Within c n path lines (length lines) 0 xs a,
      )

  by_language-Sound : (lang : Language) → Sound (by_language c path lines lang)
  unfolding chunk_with_boundaries
  by_language-Sound (plain name) = line_based-Sound
  by_language-Sound go = bounded-Sound _ (find_boundaries-Rises go lines)
  by_language-Sound python = bounded-Sound _ (find_boundaries-Rises python lines)
  by_language-Sound typescript = bounded-Sound _ (find_boundaries-Rises typescript lines)
  by_language-Sound javascript = bounded-Sound _ (find_boundaries-Rises javascript lines)

-- Of a file that is not empty, every line lies in a chunk; and each chunk names the file, is a
-- range of at least one of its lines and at most twice the line limit, and holds their text.
pub chunk_file_sound :
    (config : ChunkConfig) (path content : String)
    → content ≢ ""
    → ((i : ℕ)
        → i < length (split_lines content)
        → Covers i (chunk_file (new_chunker config) path content))
      × All
          (Within path
            (split_lines content)
            0
            (length (split_lines content))
            ((new_chunker config).max_lines * 2))
          (chunk_file (new_chunker config) path content)
unfolding chunk_file
chunk_file_sound config path content ne = elim (Bool-cases (content == "")) [
  | inl e ↦ absurd (ne ((==_iff content "").0 e))
  | inr e ↦ rw e (
      by_language-Sound (new_chunker config) (new_chunker-IsNormal config) path
        (split_lines content) (detect_language path))
]
