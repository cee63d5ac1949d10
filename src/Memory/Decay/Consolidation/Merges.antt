-- ===== src/Memory/Decay/Consolidation/Merges.antt =====
-- decay/consolidate.go: the writes of a consolidation.
use neuralgentics.Prelude.{
  ◌≤◌, ◌≡◌, inl, inr, refl, Bool, true, false, not, List, [], ◌∷◌, Option, ◌&&◌, string_comparable,
  contains, In, All, All-append, ltb, if◌then◌else◌, arith, Bool-cases,
}
use neuralgentics.Memory.Entries.{
  MemoryEntry, Write, trust_fields, supersedes, decay_rate_of, audited_rate, adjustment, Store,
  write,
}
use neuralgentics.Memory.Decay.Consolidation.{
  Progress, is_similar, related, superseded, merge, counted, compare_pair, inner, outer,
}

-- A write that merges two of the memories: the lower one is archived with its score, or the higher
-- one supersedes it.
abbrev pub IsMerge : List MemoryEntry → Write → Type 0
IsMerge active (trust_fields id score archived) =
    (b : MemoryEntry) × In b active × (b.id ≡ id) × (b.trust_score ≡ score) × (archived ≡ true)
IsMerge active (supersedes x y) =
    (a : MemoryEntry) × (b : MemoryEntry) × In a active
    × In b active
    × (a.id ≡ x)
    × (b.id ≡ y)
    × (b.trust_score ≤ a.trust_score)
IsMerge active (decay_rate_of id rate) = ⊥
IsMerge active (audited_rate id rate) = ⊥
IsMerge active (adjustment id old new) = ⊥

module _ (store : Store) (similarity : MemoryEntry → MemoryEntry → Option Bool)
    (active : List MemoryEntry) where
  abbrev Merges : List Write → Type 0
  Merges ws = All (IsMerge active) ws

  write-Merges :
      (ws : List Write) (w : Write) → Merges ws → IsMerge active w → Merges (write store ws w).0
  write-Merges ws w all new = elim (Bool-cases (store.accepts ws w)) [
    | inl yes_written ↦ rw yes_written (All-append (IsMerge active) ws (w ∷ []) all (new, tt))
    | inr refused ↦ rw refused all
  ]

  module _ (a b : MemoryEntry) (h : In a active) (k : In b active)
      (le : b.trust_score ≤ a.trust_score) where
    related-Merges :
        (r : List Write × Bool) → Merges r.0 → Merges (related store similarity a b r).0
    related-Merges (ws, true) all =
        write-Merges ws (supersedes a.id b.id) all (a, b, h, k, refl, refl, le)
    related-Merges (ws, false) all = all

    superseded-Merges :
        (ws : List Write) → Merges ws → Merges (superseded store similarity a b ws).0
    superseded-Merges ws all =
        related-Merges (write store ws (trust_fields b.id b.trust_score true))
          (write-Merges ws (trust_fields b.id b.trust_score true) all (b, k, refl, refl, refl))

  module _ (a : MemoryEntry) (h : In a active) where
    merge-Merges :
        (b : MemoryEntry) (ws : List Write)
        → In b active
        → Merges ws
        → Merges (merge store similarity a b ws).0
    unfolding merge
    merge-Merges b ws k all = elim (Bool-cases (ltb a.trust_score b.trust_score)) [
      | inl lower ↦ rw lower (superseded-Merges b a k h (ground arith) ws all)
      | inr higher ↦ rw higher (superseded-Merges a b h k (ground arith) ws all)
    ]

    counted-Merges :
        (b : MemoryEntry) (p : Progress) (r : List Write × Bool)
        → Merges r.0
        → Merges (counted store similarity b p r).writes
    counted-Merges b p (ws, true) all = all
    counted-Merges b p (ws, false) all = all

    compare_pair-Merges :
        (b : MemoryEntry) (p : Progress)
        → In b active
        → Merges p.writes
        → Merges (compare_pair store similarity a b p).writes
    unfolding compare_pair
    compare_pair-Merges b p k all =
        elim (Bool-cases (not (contains b.id p.seen) && is_similar (similarity a b))) [
          | inl similar ↦ rw similar (
              counted-Merges b p (merge store similarity a b p.writes)
                (merge-Merges b p.writes k all))
          | inr skipped ↦ rw skipped all
        ]

    inner-Merges :
        (bs : List MemoryEntry) (p : Progress)
        → All (λ b. In b active) bs
        → Merges p.writes
        → Merges (inner store similarity a bs p).writes
    unfolding inner
    inner-Merges [] p ks all = all
    inner-Merges (b ∷ bs) p ks all =
        inner-Merges bs (compare_pair store similarity a b p) ks.1
          (compare_pair-Merges b p ks.0 all)

  either-Merges :
      (t : Bool) (p q : Progress)
      → Merges p.writes
      → Merges q.writes
      → Merges (if t then p else q).writes
  either-Merges true p q h k = h
  either-Merges false p q h k = k

  pub outer-Merges :
      (xs : List MemoryEntry) (p : Progress)
      → All (λ b. In b active) xs
      → Merges p.writes
      → Merges (outer store similarity xs p).writes
  unfolding outer
  outer-Merges [] p ks all = all
  outer-Merges (a ∷ xs) p ks all =
      let q = inner store similarity a xs p in
      outer-Merges xs (if contains a.id p.seen then p else q) ks.1
        (either-Merges (contains a.id p.seen) p q all (inner-Merges a ks.0 xs p ks.1 all))
