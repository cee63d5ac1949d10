-- ===== src/Memory/Decay/Consolidation/Runs.antt =====
-- decay/consolidate.go: a consolidation as a whole.
use neuralgentics.Prelude.{
  ◌+◌, ◌<◌, ◌≡◌, ◌⊎◌, inl, inr, refl, sym, subst, Bool, true, false, not, List, [], Option, none,
  some, ◌&&◌, string_comparable, All, All-members, length, ltb, if◌then◌else◌, arith,
}
use neuralgentics.Memory.Entries.{MemoryEntry, Write, Store}
use neuralgentics.Memory.Decay.Consolidation.{
  ConsolidationStats, Progress, outer, stats, started, consolidation, consolidate,
}
use neuralgentics.Memory.Decay.Consolidation.Merges.{IsMerge, outer-Merges}
use neuralgentics.Memory.Decay.Consolidation.Counts.{unseen-behind_lt, outer_le}

-- What a consolidation of the memories comes to.
pub record Consolidated (active : List MemoryEntry) (ws : List Write) (st : ConsolidationStats)
    : Type 0 where
  pub merges : All (IsMerge active) ws
  pub examined : st.examined ≡ length active
  pub sum : st.merged + st.skipped ≡ st.examined
  pub fewer : (st.merged ≡ 0) ⊎ (st.merged < st.examined)

module _ (store : Store) (similarity : MemoryEntry → MemoryEntry → Option Bool)
    (active : List MemoryEntry) where
  stats-Consolidated :
      (p : Progress)
      → All (IsMerge active) p.writes
      → (p.merged ≡ 0) ⊎ (p.merged < length active)
      → Consolidated active (stats store similarity active p).0 (stats store similarity active p).1
  stats-Consolidated p all few = record {
    merges = all;
    examined = refl;
    sum = ground (arith, few);
    fewer = few;
  }

  outer_few :
      ((outer store similarity active (started store similarity [])).merged ≡ 0)
      ⊎ ((outer store similarity active (started store similarity [])).merged < length active)
  outer_few =
      let p = started store similarity [] in
      elim (unseen-behind_lt [] active) [
        | inl none_left ↦ inl (omega (arith, outer_le store similarity active p, none_left))
        | inr fewer ↦ inr (omega (arith, outer_le store similarity active p, fewer))
      ]

  run-Consolidated :
      (t : Bool)
      → let p = started store similarity [] in
        let q = if t then p else outer store similarity active p in
        Consolidated active (stats store similarity active q).0 (stats store similarity active q).1
  run-Consolidated true = stats-Consolidated (started store similarity []) tt (inl refl)
  run-Consolidated false =
      stats-Consolidated (outer store similarity active (started store similarity []))
        (outer-Merges store similarity active active (started store similarity [])
          (All-members active) tt)
        outer_few

  abbrev pub Ends : List Write × Option ConsolidationStats → Type 0
  Ends (ws, none) = ⊥
  Ends (ws, some st) = Consolidated active ws st

  -- A consolidation of memories that can be listed, forced or not, whatever the similarities are and
  -- whichever writes the store refuses, returns its numbers: every write archives one of the
  -- memories with its own score, or makes a memory supersede one whose score is not higher; and
  -- the merged and the skipped memories add up to those examined, of which, where there are
  -- any, one at least is not merged.
  pub consolidate-Ends :
      (force : Bool)
      → store.list_memories false 0 ≡ some active
      → Ends (consolidate store similarity force [])
  unfolding consolidate
  consolidate-Ends force listed =
      subst (λ o. Ends (consolidation store similarity force [] o)) (sym listed)
        (run-Consolidated (not force && ltb (length active) 2))
