-- ===== src/Memory/Chunker/Windows.antt =====
-- The windows of the line-based loop: what they cover, and their bounds.
use neuralgentics.Prelude.{
  positive_or-pos, ℕ, ap, All-imp, zero, suc, ◌+◌, ◌-◌, ◌≤◌, ◌<◌, String, ◌≡◌, ◌⊎◌, inl, inr, refl,
  List, [], ◌∷◌, ◌++◌, ltb, All, Bool-cases, arith,
}
use neuralgentics.Memory.Chunker.{
  ChunkConfig, Chunker, new_chunker, ChunkResult, slice_text, window_end, step_of, windows,
}

-- What `NewChunker` makes sure of, whatever the configuration.
pub record IsNormal (c : Chunker) : Type 0 where
  pub some_lines : 0 < c.max_lines
  pub less_overlap : c.overlap_lines < c.max_lines
  pub some_bytes : 0 < c.max_chunk_bytes

-- Whatever the configuration, a chunker has positive limits and an overlap below its line limit, so
-- that each round of its loops moves on.
pub new_chunker-IsNormal : (config : ChunkConfig) → IsNormal (new_chunker config)
unfolding new_chunker
new_chunker-IsNormal config = record {
  some_lines = positive_or-pos 50 config.max_lines (omega arith);
  less_overlap = ground (arith, positive_or-pos 50 config.max_lines (omega arith));
  some_bytes = positive_or-pos 8000 config.max_chunk_bytes (omega arith);
}

-- The line of index `i` lies in one of the chunks.
abbrev pub Covers : ℕ → List ChunkResult → Type 0
Covers i [] = ⊥
Covers i (r ∷ rs) = ((r.start_line ≤ i + 1) × (i + 1 ≤ r.end_line)) ⊎ Covers i rs

pub Covers-append_left : (i : ℕ) (rs qs : List ChunkResult) → Covers i rs → Covers i (rs ++ qs)
Covers-append_left i [] qs h = absurd h
Covers-append_left i (r ∷ rs) qs (inl h) = inl h
Covers-append_left i (r ∷ rs) qs (inr h) = inr (Covers-append_left i rs qs h)

pub Covers-append_right : (i : ℕ) (rs qs : List ChunkResult) → Covers i qs → Covers i (rs ++ qs)
Covers-append_right i [] qs h = h
Covers-append_right i (r ∷ rs) qs h = inr (Covers-append_right i rs qs h)

-- A chunk that holds the lines `start` to `end`, and `most` of them at most.
pub record Within (path : String) (lines : List String) (start end most : ℕ) (r : ChunkResult)
    : Type 0 where
  pub file : r.file_path ≡ path
  pub after : start < r.start_line
  pub ordered : r.start_line ≤ r.end_line
  pub before : r.end_line ≤ end
  pub small : r.end_line < r.start_line + most
  pub text : r.content ≡ slice_text lines (r.start_line - 1) r.end_line

module _ (c : Chunker) (n : IsNormal c) (path : String) (lines : List String) where
  pub windows_cover :
      (fuel start end i : ℕ)
      → end - start ≤ fuel
      → start ≤ i
      → i < end
      → Covers i (windows fuel c path lines start end)
  unfolding windows
  windows_cover zero start end i h p q = absurd (omega arith)
  windows_cover (suc fuel) start end i h p q =
      ground (arith, n.some_lines, n.less_overlap, windows_cover fuel (start + step_of c) end i)

  pub windows-Within :
      (fuel start end : ℕ)
      → All (Within path lines start end c.max_lines) (windows fuel c path lines start end)
  unfolding windows
  windows-Within zero start end = tt
  windows-Within (suc fuel) start end = elim (Bool-cases (ltb start end)) [
    | inl more ↦ rw more (
      record {
        file = refl;
        after = omega arith;
        ordered = ground (arith, n.some_lines);
        before = ground arith;
        small = ground (arith, n.some_lines);
        text = ap (λ s. slice_text lines s (window_end c start end)) (omega arith);
      },
      All-imp (Within path lines (start + step_of c) end c.max_lines)
          (Within path lines start end c.max_lines)
          (windows fuel c path lines (start + step_of c) end)
          (λ r w. record {
            file = w.file;
            after = omega (arith, w.after);
            ordered = w.ordered;
            before = w.before;
            small = w.small;
            text = w.text;
          })
          (windows-Within fuel (start + step_of c) end),
    )
    | inr ended ↦ rw ended tt
  ]
