-- ===== src/Memory/Decay/Consolidation/Archived.antt =====
-- decay/consolidate.go: a memory that is archived early goes on.
use neuralgentics.Prelude.{
  ◌+◌, ◌≤◌, ◌<◌, ◌≡◌, refl, ap, ◌∙◌, Bool, true, false, not, List, [], ◌∷◌, ◌++◌, Option, some,
  ◌==◌, ==_self, ◌&&◌, string_comparable, contains, ltb, if◌then◌else◌, arith,
}
use neuralgentics.Memory.Entries.{MemoryEntry, Write, trust_fields, supersedes, Store, write}
use neuralgentics.Memory.Decay.Consolidation.{
  Progress, related, superseded, merge, counted, compare_pair, inner, outer, started, consolidation,
  consolidate,
}

module _ (store : Store) (accepts : (ws : List Write) (w : Write) → store.accepts ws w ≡ true) where
  abbrev all_similar : MemoryEntry → MemoryEntry → Option Bool
  all_similar x y = some true

  written : (ws : List Write) (w : Write) → write store ws w ≡ (ws ++ w ∷ [], true)
  written ws w = ap (λ t. if t then (ws ++ w ∷ [], true) else (ws, false)) (accepts ws w)

  abbrev both : MemoryEntry → MemoryEntry → List Write → List Write
  both x y ws = (ws ++ trust_fields y.id y.trust_score true ∷ []) ++ supersedes x.id y.id ∷ []

  superseded-both :
      (x y : MemoryEntry) (ws : List Write)
      → superseded store all_similar x y ws ≡ (both x y ws, true)
  superseded-both x y ws =
      ap (related store all_similar x y) (written ws (trust_fields y.id y.trust_score true))
      ∙ written (ws ++ trust_fields y.id y.trust_score true ∷ []) (supersedes x.id y.id)

  module _ (a b : MemoryEntry) (ws : List Write) where
    abbrev chosen : Bool → List Write × Bool
    chosen lower =
        if lower then superseded store all_similar b a ws else superseded store all_similar a b ws

    merge-lower :
        a.trust_score < b.trust_score → merge store all_similar a b ws ≡ (both b a ws, true)
    unfolding merge
    merge-lower h =
        let e : ltb a.trust_score b.trust_score ≡ true = ground arith in
        ap chosen e ∙ superseded-both b a ws

    merge-higher :
        b.trust_score ≤ a.trust_score → merge store all_similar a b ws ≡ (both a b ws, true)
    unfolding merge
    merge-higher h =
        let e : ltb a.trust_score b.trust_score ≡ false = ground arith in
        ap chosen e ∙ superseded-both a b ws

  compare_pair-new :
      (a b : MemoryEntry) (p : Progress) (ws : List Write)
      → contains b.id p.seen ≡ false
      → merge store all_similar a b p.writes ≡ (ws, true)
      → compare_pair store all_similar a b p
        ≡ record { writes = ws; seen = b.id ∷ p.seen; merged = p.merged + 1 }
  unfolding compare_pair
  compare_pair-new a b p ws new m =
      ap
        (λ t.
          if not t && true
          then counted store all_similar b p (merge store all_similar a b p.writes)
          else p)
        new
      ∙ ap (counted store all_similar b p) m

  outer-seen :
      (a : MemoryEntry) (rest : List MemoryEntry) (p : Progress)
      → contains a.id p.seen ≡ true
      → outer store all_similar (a ∷ rest) p ≡ outer store all_similar rest p
  unfolding outer
  outer-seen a rest p h =
      ap (λ t. outer store all_similar rest (if t then p else inner store all_similar a rest p)) h

  -- On a store that accepts every write, three memories that are all similar, the second with a higher
  -- score than the first and the third with none that is higher: the first is archived in favour
  -- of the second, and then still supersedes the third, which the second, the best of them, does
  -- not.
  pub archived_supersedes :
      (a b c : MemoryEntry)
      → (b.id == c.id) ≡ false
      → a.trust_score < b.trust_score
      → c.trust_score ≤ a.trust_score
      → store.list_memories false 0 ≡ some (a ∷ b ∷ c ∷ [])
      → (consolidate store all_similar false []).0
        ≡ trust_fields a.id a.trust_score true
          ∷ supersedes b.id a.id
          ∷ trust_fields c.id c.trust_score true
          ∷ supersedes a.id c.id
          ∷ []
  unfolding consolidate outer inner
  archived_supersedes a b c differ lower lowest listed =
      let p0 = started store all_similar [] in
      let p1 : Progress = record { writes = both b a []; seen = b.id ∷ []; merged = 1 } in
      let p2 : Progress = record {
        writes = both a c (both b a []);
        seen = c.id ∷ b.id ∷ [];
        merged = 2;
      } in
      let first = compare_pair-new a b p0 (both b a []) refl (merge-lower a b [] lower) in
      let then_c =
        compare_pair-new a c p1 (both a c (both b a [])) (ground (arith, differ))
          (merge-higher a c (both b a []) lowest) in
      ap (λ o. (consolidation store all_similar false [] o).0) listed
      ∙ ap
          (λ p.
            (outer store all_similar (b ∷ c ∷ []) (compare_pair store all_similar a c p)).writes)
          first
      ∙ ap (λ p. (outer store all_similar (b ∷ c ∷ []) p).writes) then_c
      ∙ ap (λ p. p.writes) (outer-seen b (c ∷ []) p2 (ground (arith, ==_self b.id)))
      ∙ ap (λ p. p.writes) (outer-seen c [] p2 (ground (arith, ==_self c.id)))
