-- ===== src/Broker/SkillCache/Calls.antt =====
-- catalog/skill_cache.go: every order of calls.
use neuralgentics.Prelude.{
  ℕ, String, ◌≡◌, inl, inr, refl, sym, subst, true, false, List, [], ◌∷◌, Option, none, some, ◌==◌,
  number_comparable, string_comparable, arith, Bool-cases,
}
use neuralgentics.Broker.SkillCache.{
  CacheEntry, SkillBodyCache, new_skill_body_cache, FileInfo, Disk, entry_at, remove_element,
  enforce_limits, to_back, renewed, pushed, entry_of, reread, stated, loaded, absent, looked_up,
  get, put_at, put, removed_at, invalidate, invalidate_all,
}
use neuralgentics.Broker.SkillCache.Laws.{
  IsSound, enforce_limits-IsSound, entry_at-path, pushed-IsCounted, remove_element-IsSound,
  renewed-IsCounted, to_back-IsSound, missed-IsSound, hit-IsSound,
}

-- The element that is found is the one of its own path.
pub own_entry :
    (path : String) (es : List CacheEntry) (e : CacheEntry)
    → entry_at path es ≡ some e
    → entry_at e.path es ≡ some e
own_entry path es e h = subst (λ p. entry_at p es ≡ some e) (sym (entry_at-path path es e h)) h

module _ (c : SkillBodyCache) (v : IsSound c) where
  module _ (e : CacheEntry) (h : entry_at e.path c.ll ≡ some e) where
    reread-IsSound : (info : FileInfo) (body : Option String) → IsSound (reread c e info body).0
    reread-IsSound info none =
        missed-IsSound (remove_element e c) (remove_element-IsSound c v e h) ("", false)
    reread-IsSound info (some body) =
        let x = entry_of e.path body info in
        hit-IsSound (enforce_limits (renewed e x c))
          (enforce_limits-IsSound (renewed e x c) (renewed-IsCounted c v.counted e h x refl)) body

    stated-IsSound : (disk : Disk) (info : Option FileInfo) → IsSound (stated disk c e info).0
    stated-IsSound disk none =
        missed-IsSound (remove_element e c) (remove_element-IsSound c v e h) ("", false)
    stated-IsSound disk (some info) = elim (Bool-cases (info.mod_time == e.mod_time)) [
      | inl fresh ↦ rw fresh (hit-IsSound (to_back e c) (to_back-IsSound c v e h) e.body)
      | inr old ↦ rw old (reread-IsSound info (disk.read_file e.path))
    ]

  loaded-IsSound :
      (path : String) (info : FileInfo) (body : Option String)
      → entry_at path c.ll ≡ none
      → IsSound (loaded c path info body).0
  loaded-IsSound path info none h = missed-IsSound c v ("", false)
  loaded-IsSound path info (some body) h =
      let e = entry_of path body info in
      missed-IsSound (enforce_limits (pushed e c))
        (enforce_limits-IsSound (pushed e c) (pushed-IsCounted c v.counted e h)) (body, true)

  absent-IsSound :
      (disk : Disk) (path : String) (info : Option FileInfo)
      → entry_at path c.ll ≡ none
      → IsSound (absent disk c path info).0
  absent-IsSound disk path none h = missed-IsSound c v ("", false)
  absent-IsSound disk path (some info) h = loaded-IsSound path info (disk.read_file path) h

  looked_up-IsSound :
      (disk : Disk) (path : String) (found : Option CacheEntry)
      → entry_at path c.ll ≡ found
      → IsSound (looked_up disk path c found).0
  looked_up-IsSound disk path none h = absent-IsSound disk path (disk.stat path) h
  looked_up-IsSound disk path (some e) h =
      stated-IsSound e (own_entry path c.ll e h) disk (disk.stat path)

  pub get-IsSound : (disk : Disk) (path : String) → IsSound (get disk path c).0
  unfolding get
  get-IsSound disk path = looked_up-IsSound disk path (entry_at path c.ll) refl

  put_at-IsSound :
      (e : CacheEntry) (found : Option CacheEntry)
      → entry_at e.path c.ll ≡ found
      → IsSound (put_at e c found)
  put_at-IsSound e none h = enforce_limits-IsSound (pushed e c) (pushed-IsCounted c v.counted e h)
  put_at-IsSound e (some old) h =
      let x = record e { path = old.path } in
      enforce_limits-IsSound (renewed old x c)
        (renewed-IsCounted c v.counted old (own_entry e.path c.ll old h) x refl)

  put-IsSound : (disk : Disk) (path body : String) → IsSound (put disk path body c)
  unfolding put
  put-IsSound disk path body = put_at-IsSound _ (entry_at path c.ll) refl

  removed_at-IsSound :
      (path : String) (found : Option CacheEntry)
      → entry_at path c.ll ≡ found
      → IsSound (removed_at c found)
  removed_at-IsSound path none h = v
  removed_at-IsSound path (some e) h = remove_element-IsSound c v e (own_entry path c.ll e h)

  invalidate-IsSound : (path : String) → IsSound (invalidate path c)
  unfolding invalidate
  invalidate-IsSound path = removed_at-IsSound path (entry_at path c.ll) refl

-- A call of one of the methods, with the disk as it is then.
pub data Call : Type 0 where
  gets : Disk → String → Call
  puts : Disk → String → String → Call
  invalidates : String → Call
  clears : Call

abbrev pub perform : SkillBodyCache → Call → SkillBodyCache
perform c (gets disk path) = (get disk path c).0
perform c (puts disk path body) = put disk path body c
perform c (invalidates path) = invalidate path c
perform c clears = invalidate_all c

pub perform_all : SkillBodyCache → List Call → SkillBodyCache
perform_all c [] = c
perform_all c (call ∷ calls) = perform_all (perform c call) calls

perform-IsSound : (c : SkillBodyCache) (call : Call) → IsSound c → IsSound (perform c call)
unfolding invalidate_all
perform-IsSound c (gets disk path) v = get-IsSound c v disk path
perform-IsSound c (puts disk path body) v = put-IsSound c v disk path body
perform-IsSound c (invalidates path) v = invalidate-IsSound c v path
perform-IsSound c clears v = record {
  counted = record { distinct = tt; counted = refl };
  few = inr (ground arith);
  light = inr (ground arith);
}

pub perform_all-IsSound :
    (c : SkillBodyCache) (calls : List Call) → IsSound c → IsSound (perform_all c calls)
unfolding perform_all
perform_all-IsSound c [] v = v
perform_all-IsSound c (call ∷ calls) v =
    perform_all-IsSound (perform c call) calls (perform-IsSound c call v)

-- After any calls of its methods, in any order and whatever the disk does meanwhile: no path is in
-- the cache twice, its count of bytes is the sum of the sizes of its entries, and neither of
-- its limits is exceeded, a limit of 0 being none.
pub perform_all-new_skill_body_cache :
    (capacity max_bytes : ℕ) (calls : List Call)
    → IsSound (perform_all (new_skill_body_cache capacity max_bytes) calls)
unfolding new_skill_body_cache
perform_all-new_skill_body_cache capacity max_bytes calls =
    perform_all-IsSound (new_skill_body_cache capacity max_bytes) calls (record {
      counted = record { distinct = tt; counted = refl };
      few = inr (ground arith);
      light = inr (ground arith);
    })
