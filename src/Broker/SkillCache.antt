-- ===== src/Broker/SkillCache.antt =====
-- catalog/skill_cache.go: the cache of skill bodies. The list stands for `ll`, oldest first, and for
-- the map from paths to its elements, which every operation changes with it. A size is in bytes,
-- which are the characters of an ASCII text; a limit that is not positive is 0.
pub mod Laws
pub mod Calls
pub mod Reads
use neuralgentics.Prelude.{
  ℕ, ◌+◌, ◌-◌, String, Bool, true, false, List, [], ◌∷◌, ◌++◌, Option, none, some, ◌==◌, ◌&&◌,
  string_comparable, number_comparable, length, text_length, ltb, if◌then◌else◌,
}

pub record CacheEntry : Type 0 where
  pub path : String
  pub body : String
  pub mod_time : ℕ
  pub size : ℕ

pub record SkillBodyCache : Type 0 where
  pub capacity : ℕ
  pub max_bytes : ℕ
  pub ll : List CacheEntry
  pub bytes : ℕ
  pub hits : ℕ
  pub misses : ℕ

unfoldable pub new_skill_body_cache : ℕ → ℕ → SkillBodyCache
new_skill_body_cache capacity max_bytes = record {
  capacity = capacity;
  max_bytes = max_bytes;
  ll = [];
  bytes = 0;
  hits = 0;
  misses = 0;
}

-- os.Stat and os.ReadFile during one operation.
pub record FileInfo : Type 0 where
  pub mod_time : ℕ
  pub size : ℕ

pub record Disk : Type 0 where
  pub stat : String → Option FileInfo
  pub read_file : String → Option String

-- c.entries[path]
unfoldable pub entry_at : String → List CacheEntry → Option CacheEntry
entry_at path [] = none
entry_at path (e ∷ es) = if e.path == path then some e else entry_at path es

-- The list without the element of a path.
unfoldable pub without : String → List CacheEntry → List CacheEntry
without path [] = []
without path (e ∷ es) = let rest = without path es in if e.path == path then es else e ∷ rest

unfoldable pub remove_element : CacheEntry → SkillBodyCache → SkillBodyCache
unfolding without
remove_element e c = record c { bytes = c.bytes - e.size; ll = without e.path c.ll }

-- The two loops of `enforceLimits`, on the list and the count of its bytes.
unfoldable pub shed_entries : ℕ → List CacheEntry → ℕ → List CacheEntry × ℕ
shed_entries capacity [] bytes = ([], bytes)
shed_entries capacity (e ∷ es) bytes =
    let rest = shed_entries capacity es (bytes - e.size) in
    if ltb 0 capacity && ltb capacity (length (e ∷ es)) then rest else (e ∷ es, bytes)

unfoldable pub shed_bytes : ℕ → List CacheEntry → ℕ → List CacheEntry × ℕ
shed_bytes max_bytes [] bytes = ([], bytes)
shed_bytes max_bytes (e ∷ es) bytes =
    let rest = shed_bytes max_bytes es (bytes - e.size) in
    if ltb 0 max_bytes && ltb max_bytes bytes then rest else (e ∷ es, bytes)

abbrev pub kept : SkillBodyCache → List CacheEntry × ℕ → SkillBodyCache
kept c r = record c { ll = r.0; bytes = r.1 }

unfoldable pub enforce_limits : SkillBodyCache → SkillBodyCache
unfolding shed_entries shed_bytes
enforce_limits c =
    let r = shed_entries c.capacity c.ll c.bytes in kept c (shed_bytes c.max_bytes r.0 r.1)

abbrev pub to_back : CacheEntry → SkillBodyCache → SkillBodyCache
to_back e c = record c { ll = without e.path c.ll ++ e ∷ [] }

-- An element that is changed to another with its path, and moved to the back.
abbrev pub renewed : CacheEntry → CacheEntry → SkillBodyCache → SkillBodyCache
renewed old e c = record c {
  bytes = (c.bytes + e.size) - old.size;
  ll = without old.path c.ll ++ e ∷ [];
}

abbrev pub pushed : CacheEntry → SkillBodyCache → SkillBodyCache
pushed e c = record c { bytes = c.bytes + e.size; ll = c.ll ++ e ∷ [] }

abbrev pub Answer : Type 0
Answer = SkillBodyCache × (String × Bool)

abbrev pub missed : SkillBodyCache → String × Bool → Answer
missed c a = (record c { misses = c.misses + 1 }, a)

abbrev pub hit : SkillBodyCache → String → Answer
hit c body = (record c { hits = c.hits + 1 }, (body, true))

abbrev pub entry_of : String → String → FileInfo → CacheEntry
entry_of path body info = record {
  path = path;
  body = body;
  mod_time = info.mod_time;
  size = info.size;
}

abbrev pub reread : SkillBodyCache → CacheEntry → FileInfo → Option String → Answer
reread c e info none = missed (remove_element e c) ("", false)
reread c e info (some body) = hit (enforce_limits (renewed e (entry_of e.path body info) c)) body

-- The file is there, and there is an element for it.
abbrev pub stated : Disk → SkillBodyCache → CacheEntry → Option FileInfo → Answer
stated disk c e none = missed (remove_element e c) ("", false)
stated disk c e (some info) =
    if info.mod_time == e.mod_time
    then hit (to_back e c) e.body
    else reread c e info (disk.read_file e.path)

abbrev pub loaded : SkillBodyCache → String → FileInfo → Option String → Answer
loaded c path info none = missed c ("", false)
loaded c path info (some body) =
    missed (enforce_limits (pushed (entry_of path body info) c)) (body, true)

abbrev pub absent : Disk → SkillBodyCache → String → Option FileInfo → Answer
absent disk c path none = missed c ("", false)
absent disk c path (some info) = loaded c path info (disk.read_file path)

abbrev pub looked_up : Disk → String → SkillBodyCache → Option CacheEntry → Answer
looked_up disk path c none = absent disk c path (disk.stat path)
looked_up disk path c (some e) = stated disk c e (disk.stat path)

unfoldable pub get : Disk → String → SkillBodyCache → Answer
unfolding entry_at
get disk path c = looked_up disk path c (entry_at path c.ll)

-- The zero time when the file is not there.
abbrev pub mod_time_of : Option FileInfo → ℕ
mod_time_of none = 0
mod_time_of (some info) = info.mod_time

abbrev pub put_at : CacheEntry → SkillBodyCache → Option CacheEntry → SkillBodyCache
put_at e c none = enforce_limits (pushed e c)
put_at e c (some old) = enforce_limits (renewed old (record e { path = old.path }) c)

unfoldable pub put : Disk → String → String → SkillBodyCache → SkillBodyCache
unfolding entry_at text_length
put disk path body c =
    let e : CacheEntry = record {
      path = path;
      body = body;
      mod_time = mod_time_of (disk.stat path);
      size = text_length body;
    } in
    put_at e c (entry_at path c.ll)

abbrev pub removed_at : SkillBodyCache → Option CacheEntry → SkillBodyCache
removed_at c none = c
removed_at c (some e) = remove_element e c

unfoldable pub invalidate : String → SkillBodyCache → SkillBodyCache
unfolding entry_at
invalidate path c = removed_at c (entry_at path c.ll)

unfoldable pub invalidate_all : SkillBodyCache → SkillBodyCache
invalidate_all c = record c { ll = []; bytes = 0 }

pub record CacheStats : Type 0 where
  pub entries : ℕ
  pub bytes : ℕ
  pub hits : ℕ
  pub misses : ℕ

unfoldable pub stats : SkillBodyCache → CacheStats
stats c = record { entries = length c.ll; bytes = c.bytes; hits = c.hits; misses = c.misses }
