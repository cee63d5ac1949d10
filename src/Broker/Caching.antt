-- ===== src/Broker/Caching.antt =====
-- Runs of the cache of skill bodies and of the tags of skills.
use neuralgentics.Broker.SkillTags.{merged_tags}
use neuralgentics.Broker.SkillTags.Merged.{verdict, contains-merged_tags}
use neuralgentics.Prelude.{true, contains, string_comparable, ◌≡◌}
use neuralgentics.Prelude.{[], ◌∷◌, some}
use neuralgentics.Broker.SkillCache.{SkillBodyCache, new_skill_body_cache, Disk}
use neuralgentics.Broker.SkillCache.Laws.{IsSound}
use neuralgentics.Broker.SkillCache.Calls.{
  gets, puts, invalidates, perform_all, perform_all-new_skill_body_cache,
}
use neuralgentics.Broker.SkillCache.Reads.{Reads}

-- Every file is there, and holds its own path.
abbrev disk : Disk
disk = record {
  stat = λ path. some (record { mod_time = 3; size = 4 });
  read_file = λ path. some path;
}

perform_all-new_skill_body_cache_example : IsSound (
    perform_all
      (new_skill_body_cache 1 9)
      (gets disk "a" ∷ puts disk "b" "text" ∷ invalidates "a" ∷ []))
perform_all-new_skill_body_cache_example =
    perform_all-new_skill_body_cache 1 9
      (gets disk "a" ∷ puts disk "b" "text" ∷ invalidates "a" ∷ [])

abbrev one_skill : SkillBodyCache
one_skill = record {
  capacity = 1;
  max_bytes = 0;
  ll = record { path = "a"; body = "a"; mod_time = 3; size = 4 } ∷ [];
  bytes = 4;
  hits = 0;
  misses = 1;
}

contains-merged_tags_example :
    contains "go" (merged_tags ("+go" ∷ "-go" ∷ []) (some ("go" ∷ "sql" ∷ [])))
    ≡ verdict "go" ("+go" ∷ "-go" ∷ []) true
contains-merged_tags_example =
    contains-merged_tags "go" ("+go" ∷ "-go" ∷ []) (some ("go" ∷ "sql" ∷ []))
