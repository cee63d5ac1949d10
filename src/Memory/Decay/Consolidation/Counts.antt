-- ===== src/Memory/Decay/Consolidation/Counts.antt =====
-- decay/consolidate.go: how many memories a consolidation merges.
use neuralgentics.Prelude.{
  ℕ, ◌+◌, ◌≤◌, ◌<◌, String, ◌≡◌, ◌⊎◌, inl, inr, refl, subst, Bool, true, false, not, List, [], ◌∷◌,
  Option, ◌==◌, ==_self, ◌&&◌, ◌||◌, string_comparable, contains, In, All, All-members, length,
  if◌then◌else◌, arith, Bool-cases,
}
use neuralgentics.Memory.Entries.{MemoryEntry, Write, Store}
use neuralgentics.Memory.Decay.Consolidation.{
  Progress, is_similar, merge, counted, compare_pair, inner, outer,
}

-- How many of the memories have not been merged.
abbrev pub unseen : List String → List MemoryEntry → ℕ
unseen seen [] = 0
unseen seen (b ∷ bs) = (if contains b.id seen then 0 else 1) + unseen seen bs

unseen_le : (seen : List String) (bs : List MemoryEntry) → unseen seen bs ≤ length bs
unseen_le seen [] = omega arith
unseen_le seen (b ∷ bs) = ground (arith, unseen_le seen bs)

unseen_mono :
    (x : String) (seen : List String) (bs : List MemoryEntry)
    → unseen (x ∷ seen) bs ≤ unseen seen bs
unseen_mono x seen [] = omega arith
unseen_mono x seen (b ∷ bs) = ground (arith, unseen_mono x seen bs)

unseen-mark :
    (b : MemoryEntry) (seen : List String) (bs : List MemoryEntry)
    → In b bs
    → contains b.id seen ≡ false
    → unseen (b.id ∷ seen) bs + 1 ≤ unseen seen bs
unseen-mark b seen (x ∷ bs) (inl same) new =
    subst
      (λ y.
        (if (b.id == y.id || contains y.id seen) then 0 else 1) + unseen (b.id ∷ seen) bs + 1
        ≤ (if contains y.id seen then 0 else 1) + unseen seen bs)
      same (ground (arith, ==_self b.id, new, unseen_mono b.id seen bs))
unseen-mark b seen (x ∷ bs) (inr there) new = ground (arith, unseen-mark b seen bs there new)
unseen-mark b seen [] h new = absurd h

abbrev pub behind : List MemoryEntry → List MemoryEntry
behind [] = []
behind (a ∷ rest) = rest

unseen-behind :
    (seen : List String) (bs : List MemoryEntry) → unseen seen (behind bs) ≤ unseen seen bs
unseen-behind seen [] = omega arith
unseen-behind seen (b ∷ bs) = omega arith

pub unseen-behind_lt :
    (seen : List String) (bs : List MemoryEntry)
    → (unseen seen (behind bs) ≡ 0) ⊎ (unseen seen (behind bs) < length bs)
unseen-behind_lt seen [] = inl refl
unseen-behind_lt seen (b ∷ bs) = inr (omega (arith, unseen_le seen bs))

module _ (store : Store) (similarity : MemoryEntry → MemoryEntry → Option Bool) where
  abbrev Bounded : List MemoryEntry → Progress → Progress → Type 0
  Bounded bs p q = q.merged + unseen q.seen bs ≤ p.merged + unseen p.seen bs

  counted-Bounded :
      (bs : List MemoryEntry) (b : MemoryEntry) (p : Progress) (r : List Write × Bool)
      → In b bs
      → contains b.id p.seen ≡ false
      → Bounded bs p (counted store similarity b p r)
  counted-Bounded bs b p (ws, true) k new = omega (arith, unseen-mark b p.seen bs k new)
  counted-Bounded bs b p (ws, false) k new = omega arith

  compare_pair-Bounded :
      (bs : List MemoryEntry) (a b : MemoryEntry) (p : Progress)
      → In b bs
      → Bounded bs p (compare_pair store similarity a b p)
  unfolding compare_pair
  compare_pair-Bounded bs a b p k =
      elim (Bool-cases (not (contains b.id p.seen) && is_similar (similarity a b))) [
        | inl similar ↦
            rw similar
              (counted-Bounded bs b p (merge store similarity a b p.writes) k (ground arith))
        | inr skipped ↦ rw skipped (omega arith)
      ]

  inner-Bounded :
      (all : List MemoryEntry) (a : MemoryEntry) (bs : List MemoryEntry) (p : Progress)
      → All (λ b. In b all) bs
      → Bounded all p (inner store similarity a bs p)
  unfolding inner
  inner-Bounded all a [] p ks = omega arith
  inner-Bounded all a (b ∷ bs) p ks =
      let q = compare_pair store similarity a b p in
      omega (arith, compare_pair-Bounded all a b p ks.0, inner-Bounded all a bs q ks.1)

  either-Bounded :
      (bs : List MemoryEntry) (t : Bool) (p q : Progress)
      → Bounded bs p q
      → Bounded bs p (if t then p else q)
  either-Bounded bs true p q h = omega arith
  either-Bounded bs false p q h = h

  pub outer_le :
      (xs : List MemoryEntry) (p : Progress)
      → (outer store similarity xs p).merged ≤ p.merged + unseen p.seen (behind xs)
  unfolding outer
  outer_le [] p = omega arith
  outer_le (a ∷ xs) p =
      let q = inner store similarity a xs p in
      let r = if contains a.id p.seen then p else q in
      omega (
        arith,
        outer_le xs r,
        unseen-behind r.seen xs,
        either-Bounded xs (contains a.id p.seen) p q (inner-Bounded xs a xs p (All-members xs)),
      )
