-- ===== src/Memory/Decay/Consolidation.antt =====
-- decay/consolidate.go: the merge of similar memories. The similarity of two memories, with the
-- embeddings behind it, is a parameter: `none` when it cannot be computed, and otherwise whether it
-- reaches the threshold.
pub mod Merges
pub mod Counts
pub mod Runs
pub mod Archived
use neuralgentics.Prelude.{
  ℕ, suc, ◌+◌, ◌-◌, String, Bool, true, false, not, List, [], ◌∷◌, Option, none, some, ◌&&◌,
  string_comparable, contains, length, ltb, if◌then◌else◌,
}
use neuralgentics.Memory.Entries.{MemoryEntry, Write, trust_fields, supersedes, Store, write}

pub record ConsolidationStats : Type 0 where
  pub examined : ℕ
  pub merged : ℕ
  pub skipped : ℕ

-- The state of the loops: the writes, the ids that were merged, and their number.
pub record Progress : Type 0 where
  pub writes : List Write
  pub seen : List String
  pub merged : ℕ

abbrev is_similar : Option Bool → Bool
is_similar none = false
is_similar (some reached) = reached

module _ (store : Store) (similarity : MemoryEntry → MemoryEntry → Option Bool) where
  -- The lower one is archived first; the relationship may fail afterwards.
  abbrev related : MemoryEntry → MemoryEntry → List Write × Bool → List Write × Bool
  related higher lower (ws, true) = write store ws (supersedes higher.id lower.id)
  related higher lower (ws, false) = (ws, false)

  abbrev superseded : MemoryEntry → MemoryEntry → List Write → List Write × Bool
  superseded higher lower ws =
      related higher lower (write store ws (trust_fields lower.id lower.trust_score true))

  unfoldable pub merge : MemoryEntry → MemoryEntry → List Write → List Write × Bool
  merge higher lower ws =
      if ltb higher.trust_score lower.trust_score
      then superseded lower higher ws
      else superseded higher lower ws

  abbrev counted : MemoryEntry → Progress → List Write × Bool → Progress
  counted b p (ws, true) = record { writes = ws; seen = b.id ∷ p.seen; merged = p.merged + 1 }
  counted b p (ws, false) = record p { writes = ws }

  -- One round of the inner loop.
  unfoldable pub compare_pair : MemoryEntry → MemoryEntry → Progress → Progress
  unfolding merge
  compare_pair a b p =
      if not (contains b.id p.seen) && is_similar (similarity a b)
      then counted b p (merge a b p.writes)
      else p

  unfoldable pub inner : MemoryEntry → List MemoryEntry → Progress → Progress
  unfolding compare_pair
  inner a [] p = p
  inner a (b ∷ bs) p = inner a bs (compare_pair a b p)

  unfoldable pub outer : List MemoryEntry → Progress → Progress
  unfolding inner
  outer [] p = p
  outer (a ∷ rest) p = outer rest (if contains a.id p.seen then p else inner a rest p)

  abbrev stats : List MemoryEntry → Progress → List Write × ConsolidationStats
  stats active p = (
    p.writes,
    record { examined = length active; merged = p.merged; skipped = length active - p.merged },
  )

  abbrev started : List Write → Progress
  started ws = record { writes = ws; seen = []; merged = 0 }

  abbrev consolidation :
      Bool → List Write → Option (List MemoryEntry) → List Write × Option ConsolidationStats
  consolidation force ws none = (ws, none)
  consolidation force ws (some active) =
      let p =
        if not force && ltb (length active) 2 then started ws else outer active (started ws) in
      let r = stats active p in (r.0, some r.1)

  -- No statistics when the memories cannot be listed.
  unfoldable pub consolidate : Bool → List Write → List Write × Option ConsolidationStats
  unfolding outer
  consolidate force ws = consolidation force ws (store.list_memories false 0)
