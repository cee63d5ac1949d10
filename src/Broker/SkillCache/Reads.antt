-- ===== src/Broker/SkillCache/Reads.antt =====
-- catalog/skill_cache.go: what a reader of the cache gets.
use neuralgentics.Prelude.{
  ◌+◌, String, ◌≡◌, ◌≢◌, ◌⊎◌, Bool, true, false, Option, none, some, number_comparable,
  string_comparable, All,
}
use neuralgentics.Broker.SkillCache.{CacheEntry, SkillBodyCache, FileInfo, Disk, Answer}

-- A read of the disk without a cache.
abbrev pub read_of : Option FileInfo → Option String → String × Bool
read_of none body = ("", false)
read_of (some info) none = ("", false)
read_of (some info) (some body) = (body, true)

abbrev pub direct : Disk → String → String × Bool
direct disk path = read_of (disk.stat path) (disk.read_file path)

-- A file that has the modification time of an entry has its body.
abbrev pub Agrees : CacheEntry → Option FileInfo → Option String → Type 0
Agrees e none body = Unit
Agrees e (some info) body = (info.mod_time ≢ e.mod_time) ⊎ (body ≡ some e.body)

abbrev pub IsFresh : Disk → CacheEntry → Type 0
IsFresh disk e = Agrees e (disk.stat e.path) (disk.read_file e.path)

-- What a call of `Get` on a path comes to.
pub record Reads (disk : Disk) (path : String) (c : SkillBodyCache) (a : Answer) : Type 0 where
  pub answer : a.1 ≡ direct disk path
  pub fresh : All (IsFresh disk) a.0.ll
  pub requests : a.0.hits + a.0.misses ≡ c.hits + c.misses + 1
