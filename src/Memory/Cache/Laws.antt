-- ===== src/Memory/Cache/Laws.antt =====
-- What readers of the cache see, also between the sections of another reader's `Get`.
use neuralgentics.Prelude.{
  ℕ, ◌+◌, ◌≤◌, String, ◌≡◌, refl, true, false, not, List, [], ◌∷◌, Option, none, some, ◌==◌, ==_iff,
  ==_self, string_comparable, lookup, select, length, ltb, if◌then◌else◌, lookup-insert,
  lookup-delete, arith, Distinct, contains, keys, lookup-eq-none_iff, delete-Distinct,
  insert-Distinct, select-Distinct,
}
use neuralgentics.Memory.Cache.{
  CacheEntry, SummaryCache, expired, Probe, missing, stale, found, rechecked, concluded, probe,
  evict, get, set, invalidate, size,
}

-- What a reader can learn of a key: its value while it is live.
abbrev shown : ℕ → Option CacheEntry → Option String
shown now none = none
shown now (some e) = if expired now e then none else some e.value

pub view : ℕ → String → SummaryCache → Option String
view now key c = shown now (lookup key c.entries)

-- `Get` after `Set` returns the value up to the end of the time to live, that instant included,
-- and nothing after it.
pub get-set :
    (c : SummaryCache) (key value : String) (ttl t now later : ℕ)
    → (get now later key (set t key value ttl c)).1
      ≡ (if ltb (t + ttl) now then ("", false) else (value, true))
unfolding get set
get-set c key value ttl t now later = ground (
  arith,
  lookup-insert key key (record { value = value; expires_at = t + ttl }) c.entries,
  ==_self key,
)

-- While the entry is live, `Get` also leaves the cache as it is.
pub get-set_live :
    (c : SummaryCache) (key value : String) (ttl t now later : ℕ)
    → now ≤ t + ttl
    → get now later key (set t key value ttl c) ≡ (set t key value ttl c, (value, true))
unfolding get set
get-set_live c key value ttl t now later h = ground (
  arith,
  lookup-insert key key (record { value = value; expires_at = t + ttl }) c.entries,
  ==_self key,
)

pub view-set :
    (c : SummaryCache) (key other value : String) (ttl t seen : ℕ)
    → (key == other) ≡ false
    → view seen other (set t key value ttl c) ≡ view seen other c
unfolding view set
view-set c key other value ttl t seen h =
    ground
      (arith, lookup-insert key other (record { value = value; expires_at = t + ttl }) c.entries)

-- When an entry is set, also between the two sections of a `Get` that found an expired one, the
-- second section of the `Get` leaves the cache as it is, if it reads the clock before the new entry
-- expires.
pub evict-set :
    (c : SummaryCache) (key value : String) (ttl t later : ℕ)
    → later ≤ t + ttl
    → evict later key (set t key value ttl c) ≡ set t key value ttl c
unfolding evict set
evict-set c key value ttl t later h = ground (
  arith,
  lookup-insert key key (record { value = value; expires_at = t + ttl }) c.entries,
  ==_self key,
)

view-rechecked :
    (now later : ℕ) (key j : String) (c : SummaryCache) (o : Option CacheEntry)
    → now ≤ later
    → lookup key c.entries ≡ o
    → shown later (lookup j (rechecked now key c o).entries) ≡ shown later (lookup j c.entries)
view-rechecked now later key j c none h e = refl
view-rechecked now later key j c (some x) h e =
    ground (arith, lookup-delete key j c.entries, ==_iff key j)

view-evict :
    (now later : ℕ) (key j : String) (c : SummaryCache)
    → now ≤ later
    → view later j (evict now key c) ≡ view later j c
unfolding view evict
view-evict now later key j c h = view-rechecked now later key j c _ h refl

view-concluded :
    (later seen : ℕ) (key j : String) (c : SummaryCache) (p : Probe)
    → later ≤ seen
    → view seen j (concluded later key c p).0 ≡ view seen j c
view-concluded later seen key j c missing h = refl
view-concluded later seen key j c stale h = view-evict later seen key j c h
view-concluded later seen key j c (found v) h = refl

-- `Get` returns what is visible of its key at its first clock reading, and changes nothing that any
-- reader can see of any key from its second reading on.
pub get-view :
    (now later seen : ℕ) (key j : String) (c : SummaryCache)
    → later ≤ seen
    → (view seen j (get now later key c).0 ≡ view seen j c)
      × ((get now later key c).1
          ≡ elim (view now key c) [ none ↦ ("", false) | some v ↦ (v, true) ])
unfolding get view
get-view now later seen key j c h =
    (view-concluded later seen key j c (probe now key c) h, ground arith)

lookup-live :
    (now : ℕ) (j : String) (m : List (String × CacheEntry))
    → Distinct m
    → lookup j (select (λ e. not (expired now e.1)) m)
      ≡ elim (lookup j m) [ none ↦ none | some e ↦ if expired now e then none else some e ]
unfolding lookup
lookup-live now j [] d = refl
lookup-live now j ((i, e) ∷ m) d =
    ground (arith, lookup-live now j m d.1, ==_iff i j, lookup-eq-none_iff i m)

contains-live :
    (now : ℕ) (j : String) (m : List (String × CacheEntry))
    → Distinct m
    → contains j (keys (select (λ e. not (expired now e.1)) m))
      ≡ elim (shown now (lookup j m)) [ none ↦ false | some v ↦ true ]
contains-live now j m d =
    ground
      (arith, lookup-live now j m d, lookup-eq-none_iff j (select (λ e. not (expired now e.1)) m))

-- Of a cache that stores no key twice, `Size` keeps exactly the keys that a reader can see, returns
-- their number, and changes nothing that a reader can see from then on.
pub size-view :
    (now seen : ℕ) (j : String) (c : SummaryCache)
    → Distinct c.entries
    → now ≤ seen
    → (view seen j (size now c).0 ≡ view seen j c)
      × ((size now c).1 ≡ length (size now c).0.entries)
      × (contains j (keys (size now c).0.entries)
          ≡ elim (view now j c) [ none ↦ false | some v ↦ true ])
unfolding size view
size-view now seen j c d h =
    (ground (arith, lookup-live now j c.entries d), refl, contains-live now j c.entries d)

rechecked-Distinct :
    (now : ℕ) (key : String) (c : SummaryCache) (o : Option CacheEntry)
    → Distinct c.entries
    → Distinct (rechecked now key c o).entries
rechecked-Distinct now key c none d = d
rechecked-Distinct now key c (some e) d = ground (arith, delete-Distinct key c.entries d)

evict-Distinct :
    (now : ℕ) (key : String) (c : SummaryCache)
    → Distinct c.entries
    → Distinct (evict now key c).entries
unfolding evict
evict-Distinct now key c d = rechecked-Distinct now key c _ d

concluded-Distinct :
    (later : ℕ) (key : String) (c : SummaryCache) (p : Probe)
    → Distinct c.entries
    → Distinct (concluded later key c p).0.entries
concluded-Distinct later key c missing d = d
concluded-Distinct later key c stale d = evict-Distinct later key c d
concluded-Distinct later key c (found v) d = d

-- Every operation keeps the entries a map: no key is stored twice.
pub operations-Distinct :
    (now later ttl : ℕ) (key value : String) (c : SummaryCache)
    → Distinct c.entries
    → Distinct (set now key value ttl c).entries
      × Distinct (evict later key c).entries
      × Distinct (get now later key c).0.entries
      × Distinct (invalidate key c).entries
      × Distinct (size now c).0.entries
unfolding set get invalidate size
operations-Distinct now later ttl key value c d =
    let evicted = evict-Distinct later key c d in
    (
      insert-Distinct key _ c.entries d,
      evicted,
      concluded-Distinct later key c (probe now key c) d,
      delete-Distinct key c.entries d,
      select-Distinct (λ e. not (expired now e.1)) c.entries d,
    )
