-- ===== src/Memory/Chunker/Boundaries.antt =====
-- The boundaries, and the loop over them.
use neuralgentics.Prelude.{
  ℕ, zero, suc, ap, subst, ◌+◌, ◌-◌, ◌*◌, ◌≤◌, ◌<◌, String, ◌≡◌, inl, inr, refl, Bool, true, false,
  List, [], ◌∷◌, ◌++◌, ltb, All, All-imp, All-append, Bool-cases, arith, length,
}
use neuralgentics.Memory.Chunker.{
  Chunker, slice_text, split_large_boundary, windows, boundaries_from, kept, last_of, with_start,
  with_end, segment, segments,
}
use neuralgentics.Memory.Chunker.Windows.{
  IsNormal, Covers, Covers-append_left, Covers-append_right, Within, windows_cover, windows-Within,
}

-- Strictly rising from `lo` on, and below `hi`.
abbrev pub Rises : ℕ → List ℕ → ℕ → Type 0
Rises lo [] hi = Unit
Rises lo (b ∷ bs) hi = (lo ≤ b) × (b < hi) × Rises (suc b) bs hi

Rises-le : (lo lo' hi : ℕ) (bs : List ℕ) → lo ≤ lo' → Rises lo' bs hi → Rises lo bs hi
Rises-le lo lo' hi [] h r = tt
Rises-le lo lo' hi (b ∷ bs) h r = (omega arith, r.1, r.2)

kept-Rises :
    (b : Bool) (i hi : ℕ) (rest : List ℕ)
    → i < hi
    → Rises (suc i) rest hi
    → Rises i (kept b i rest) hi
kept-Rises true i hi rest h r = (omega arith, h, r)
kept-Rises false i hi rest h r = Rises-le i (suc i) hi rest (omega arith) r

pub boundaries_from-Rises :
    (test : String → Bool) (i : ℕ) (lines : List String)
    → Rises i (boundaries_from test i lines) (i + length lines)
unfolding boundaries_from
boundaries_from-Rises test i [] = tt
boundaries_from-Rises test i (line ∷ lines) =
    let ih : Rises (suc i) (boundaries_from test (suc i) lines) (i + suc (length lines)) =
      subst (Rises (suc i) (boundaries_from test (suc i) lines)) (omega arith)
        (boundaries_from-Rises test (suc i) lines) in
    kept-Rises (test line) i _ (boundaries_from test (suc i) lines) (omega arith) ih

-- Strictly rising from `b` to `total`, which is the last.
abbrev pub Ascends : ℕ → ℕ → List ℕ → Type 0
Ascends total b [] = b ≡ total
Ascends total b (b' ∷ bs) = (b < b') × Ascends total b' bs

Ascends-le : (total b : ℕ) (bs : List ℕ) → Ascends total b bs → b ≤ total
Ascends-le total b [] a = omega arith
Ascends-le total b (b' ∷ bs) a = omega (arith, Ascends-le total b' bs a.1)

Ascends-close :
    (total b : ℕ) (bs : List ℕ)
    → b < total
    → Rises (suc b) bs total
    → Ascends total b (bs ++ total ∷ [])
Ascends-close total b [] h r = (h, refl)
Ascends-close total b (b' ∷ bs) h r = (r.0, Ascends-close total b' bs r.1 r.2)

last_of-lt : (total b : ℕ) (bs : List ℕ) → b < total → Rises (suc b) bs total → last_of b bs < total
last_of-lt total b [] h r = h
last_of-lt total b (b' ∷ bs) h r = last_of-lt total b' bs r.1 r.2

with_end-Ascends :
    (total b : ℕ) (bs : List ℕ)
    → b < total
    → Rises (suc b) bs total
    → (with_end total (b ∷ bs) ≡ b ∷ (bs ++ total ∷ [])) × Ascends total b (bs ++ total ∷ [])
with_end-Ascends total b bs h r =
    (ground (arith, last_of-lt total b bs h r), Ascends-close total b bs h r)

-- With the start and the end added, the boundaries rise from 0 to the number of lines.
pub closed-Ascends :
    (total b : ℕ) (bs : List ℕ)
    → Rises 0 (b ∷ bs) total
    → (xs : List ℕ) × (with_end total (with_start (b ∷ bs)) ≡ 0 ∷ xs) × Ascends total 0 xs
closed-Ascends total zero bs r =
    let w = with_end-Ascends total 0 bs r.1 r.2 in (bs ++ total ∷ [], w.0, w.1)
closed-Ascends total (suc b) bs r =
    let w = with_end-Ascends total 0 (suc b ∷ bs) (omega arith) (omega arith, r.1, r.2) in
    (suc b ∷ (bs ++ total ∷ []), ground (arith, w.0), w.1)

module _ (c : Chunker) (n : IsNormal c) (path : String) (lines : List String) where
  segment_cover :
      (start end i : ℕ) → start ≤ i → i < end → Covers i (segment c path lines start end)
  unfolding segment split_large_boundary
  segment_cover start end i p q = elim (Bool-cases (ltb (c.max_lines * 2) (end - start))) [
    | inl large ↦
        rw large (windows_cover c n path lines (end - start) start end i (omega arith) p q)
    | inr small ↦ rw small (inl (omega arith, omega arith))
  ]

  segment-Within :
      (start end : ℕ)
      → start < end
      → All (Within path lines start end (c.max_lines * 2)) (segment c path lines start end)
  unfolding segment split_large_boundary
  segment-Within start end h = elim (Bool-cases (ltb (c.max_lines * 2) (end - start))) [
    | inl large ↦ rw large (
        All-imp (Within path lines start end c.max_lines)
          (Within path lines start end (c.max_lines * 2))
          (windows (end - start) c path lines start end)
          (λ r w. record {
            file = w.file;
            after = w.after;
            ordered = w.ordered;
            before = w.before;
            small = omega (arith, w.small);
            text = w.text;
          })
          (windows-Within c n path lines (end - start) start end))
    | inr small ↦ rw small (
      record {
        file = refl;
        after = omega arith;
        ordered = omega arith;
        before = omega arith;
        small = ground arith;
        text = ap (λ s. slice_text lines s end) (omega arith);
      },
      tt,
    )
  ]

  pub segments_cover :
      (total b i : ℕ) (bs : List ℕ)
      → Ascends total b bs
      → b ≤ i
      → i < total
      → Covers i (segments c path lines (b ∷ bs))
  unfolding segments
  segments_cover total b i [] a p q = absurd (omega arith)
  segments_cover total b i (b' ∷ bs) a p q = elim (Bool-cases (ltb i b')) [
    | inl here ↦ Covers-append_left i _ _ (segment_cover b b' i p (ground arith))
    | inr later ↦
        Covers-append_right i (segment c path lines b b') _
          (segments_cover total b' i bs a.1 (ground arith) q)
  ]

  pub segments-Within :
      (total b : ℕ) (bs : List ℕ)
      → Ascends total b bs
      → All (Within path lines 0 total (c.max_lines * 2)) (segments c path lines (b ∷ bs))
  unfolding segments
  segments-Within total b [] a = tt
  segments-Within total b (b' ∷ bs) a =
      All-append (Within path lines 0 total (c.max_lines * 2)) (segment c path lines b b') _
        (All-imp (Within path lines b b' (c.max_lines * 2))
          (Within path lines 0 total (c.max_lines * 2)) (segment c path lines b b')
          (λ r w. record {
            file = w.file;
            after = omega (arith, w.after);
            ordered = w.ordered;
            before = omega (arith, w.before, Ascends-le total b' bs a.1);
            small = w.small;
            text = w.text;
          })
          (segment-Within b b' a.0))
        (segments-Within total b' bs a.1)
