-- ===== src/Memory/Cache.antt =====
-- tiered/cache.go: the cache of summaries with a time to live. A clock reading is an argument of
-- each operation, in nanoseconds; a time to live is not negative. Each critical section is one step.
pub mod Laws
use neuralgentics.Prelude.{
  ℕ, ◌+◌, String, Bool, true, false, not, List, [], ◌∷◌, Option, none, some, ◌==◌,
  string_comparable, lookup, insert, delete, select, length, ltb, if◌then◌else◌,
}

pub record CacheEntry : Type 0 where
  pub value : String
  pub expires_at : ℕ

pub record SummaryCache : Type 0 where
  pub entries : List (String × CacheEntry)

abbrev pub new_summary_cache : SummaryCache
new_summary_cache = record { entries = [] }

-- time.Now().After(e.expiresAt)
abbrev pub expired : ℕ → CacheEntry → Bool
expired now e = ltb e.expires_at now

-- What the first section of `Get` and the test behind it come to.
pub data Probe : Type 0 where
  missing stale : Probe
  found : String → Probe

abbrev pub probed : ℕ → Option CacheEntry → Probe
probed now none = missing
probed now (some e) = if expired now e then stale else found e.value

-- The read under the read lock.
unfoldable pub probe : ℕ → String → SummaryCache → Probe
probe now key c = probed now (lookup key c.entries)

abbrev pub rechecked : ℕ → String → SummaryCache → Option CacheEntry → SummaryCache
rechecked now key c none = c
rechecked now key c (some e) =
    if expired now e then record { entries = delete key c.entries } else c

-- The second section of `Get`, under the write lock, where the entry is tested again.
unfoldable pub evict : ℕ → String → SummaryCache → SummaryCache
evict now key c = rechecked now key c (lookup key c.entries)

abbrev pub concluded : ℕ → String → SummaryCache → Probe → SummaryCache × (String × Bool)
concluded later key c missing = (c, ("", false))
concluded later key c stale = (evict later key c, ("", false))
concluded later key c (found v) = (c, (v, true))

-- `Get` with no other call between its sections: the clock is read once in each.
unfoldable pub get : ℕ → ℕ → String → SummaryCache → SummaryCache × (String × Bool)
unfolding probe evict
get now later key c = concluded later key c (probe now key c)

unfoldable pub set : ℕ → String → String → ℕ → SummaryCache → SummaryCache
set now key value ttl c = record {
  entries = insert key (record { value = value; expires_at = now + ttl }) c.entries;
}

unfoldable pub invalidate : String → SummaryCache → SummaryCache
invalidate key c = record { entries = delete key c.entries }

unfoldable pub invalidate_all : SummaryCache → SummaryCache
invalidate_all c = record { entries = [] }

-- The loop of `Size` deletes what has expired; the rest stays in its order.
unfoldable pub size : ℕ → SummaryCache → SummaryCache × ℕ
size now c =
    let live = select (λ e. not (expired now e.1)) c.entries in
    (record { entries = live }, length live)
