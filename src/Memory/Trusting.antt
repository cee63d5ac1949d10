-- ===== src/Memory/Trusting.antt =====
-- Runs of the trust and decay engines.
use neuralgentics.Prelude.{
  ℤ, pos, negsuc, subst, ℕ, String, ◌≡◌, refl, true, false, List, [], ◌∷◌, none, some, arith,
}
use neuralgentics.Memory.Entries.{MemoryEntry, found, trust_fields, supersedes, Store}
use neuralgentics.Memory.Trust.{user_confirmed, up, signal_deltas, adjust_trust}
use neuralgentics.Memory.Trust.Laws.{Adjusts, adjust_trust-Adjusts}
use neuralgentics.Memory.Decay.{default_half_life, apply_decay}
use neuralgentics.Memory.Decay.Laws.{Decays, IsPast, apply_decay-Decays}
use neuralgentics.Memory.Decay.Consolidation.{consolidate}
use neuralgentics.Memory.Decay.Consolidation.Runs.{Ends, consolidate-Ends}
use neuralgentics.Memory.Decay.Consolidation.Archived.{archived_supersedes}

abbrev memory : String → ℕ → MemoryEntry
memory id score = record {
  id = id;
  trust_score = score;
  retrieval_count = 0;
  is_archived = false;
  created_at = 0;
  last_accessed_at = none;
  decay_rate = none;
}

abbrev three : List MemoryEntry
three = memory "a" 40 ∷ memory "b" 95 ∷ memory "c" 20 ∷ []

-- A store that holds three memories and accepts every write.
abbrev store : Store
store = record {
  get_memory = λ id. found (memory id 95);
  list_memories = λ archived limit. some three;
  list_fading_memories = λ threshold limit. some [];
  accepts = λ ws w. true;
}

adjust_trust-Adjusts_example :
    Adjusts "b" (memory "b" 95) (up 10) [] (adjust_trust store [] "b" user_confirmed)
unfolding signal_deltas
adjust_trust-Adjusts_example =
    adjust_trust-Adjusts store [] "b" user_confirmed (memory "b" 95) (up 10) refl refl
      (ground arith)

-- A factor of one half for every time that has passed.
abbrev half_gone : ℤ → ℕ → ℕ
half_gone (pos n) half = 50
half_gone (negsuc n) half = 200

apply_decay-Decays_example :
    Decays store "b" [] (apply_decay store default_half_life 100 half_gone 5 [] "b").0
apply_decay-Decays_example =
    apply_decay-Decays store default_half_life 100 half_gone (λ elapsed half. omega arith) 5 [] "b"
      λ m there. let same : memory "b" 95 ≡ m = cc in subst (IsPast 5) same (omega arith, tt)

consolidate-Ends_example :
    Ends store (λ x y. some true) three (consolidate store (λ x y. some true) false [])
consolidate-Ends_example = consolidate-Ends store (λ x y. some true) three false refl

archived_supersedes_example :
    (consolidate store (λ x y. some true) false []).0
    ≡ trust_fields "a" 40 true
      ∷ supersedes "b" "a"
      ∷ trust_fields "c" 20 true
      ∷ supersedes "a" "c"
      ∷ []
archived_supersedes_example =
    archived_supersedes store (λ ws w. refl) (memory "a" 40) (memory "b" 95) (memory "c" 20) refl
      (ground arith) (ground arith) refl
