-- ===== src/Broker/SkillCache/Laws.antt =====
-- catalog/skill_cache.go: the limits of the cache, and what a reader gets.
use neuralgentics.Prelude.{
  ℕ, ◌+◌, ◌-◌, ◌≤◌, String, ◌≡◌, ◌⊎◌, inl, inr, refl, sym, subst, Bool, false, List, [], ◌∷◌, ◌++◌,
  none, some, ◌==◌, ==_iff, ◌&&◌, string_comparable, number_comparable, contains, Unique,
  Unique-concat, All, map, map-append, length, length-append, ltb, arith, Bool-cases,
}
use neuralgentics.Broker.SkillCache.{
  CacheEntry, SkillBodyCache, entry_at, without, remove_element, shed_entries, shed_bytes,
  enforce_limits, to_back, renewed, pushed, missed, hit,
}

abbrev pub sizes : List CacheEntry → ℕ
sizes [] = 0
sizes (e ∷ es) = e.size + sizes es

abbrev pub paths : List CacheEntry → List String
paths es = map (λ e. e.path) es

-- No path twice, and the count of bytes is the sum of the sizes.
pub record IsCounted (es : List CacheEntry) (bytes : ℕ) : Type 0 where
  pub distinct : Unique (paths es)
  pub counted : bytes ≡ sizes es

abbrev pub Within : ℕ → ℕ → Type 0
Within limit n = (limit ≡ 0) ⊎ (n ≤ limit)

tail-IsCounted :
    (e : CacheEntry) (es : List CacheEntry) (bytes : ℕ)
    → IsCounted (e ∷ es) bytes
    → IsCounted es (bytes - e.size)
tail-IsCounted e es bytes v = record { distinct = v.distinct.1; counted = omega (arith, v.counted) }

-- What one of the two loops leaves.
pub record Shed (P : CacheEntry → Type 0) (es : List CacheEntry) (r : List CacheEntry × ℕ)
    : Type 0 where
  pub counted : IsCounted r.0 r.1
  pub short : length r.0 ≤ length es
  pub all : All P es → All P r.0

module _ (P : CacheEntry → Type 0) where
  shed_entries-Shed :
      (capacity : ℕ) (es : List CacheEntry) (bytes : ℕ)
      → IsCounted es bytes
      → Shed P es (shed_entries capacity es bytes)
        × Within capacity (length (shed_entries capacity es bytes).0)
  unfolding shed_entries
  shed_entries-Shed capacity [] bytes v =
      (record { counted = v; short = omega arith; all = λ a. a }, inr (omega arith))
  shed_entries-Shed capacity (e ∷ es) bytes v =
      let (s, w) = shed_entries-Shed capacity es (bytes - e.size) (tail-IsCounted e es bytes v) in
      elim (Bool-cases (ltb 0 capacity && ltb capacity (length (e ∷ es)))) [
        | inl full ↦ rw full (
          record { counted = s.counted; short = omega (arith, s.short); all = λ a. s.all a.1 },
          w,
        )
        | inr fits ↦
            rw fits (record { counted = v; short = omega arith; all = λ a. a }, ground arith)
      ]

  shed_bytes-Shed :
      (most : ℕ) (es : List CacheEntry) (bytes : ℕ)
      → IsCounted es bytes
      → Shed P es (shed_bytes most es bytes) × Within most (shed_bytes most es bytes).1
  unfolding shed_bytes
  shed_bytes-Shed most [] bytes v =
      (record { counted = v; short = omega arith; all = λ a. a }, inr (omega (arith, v.counted)))
  shed_bytes-Shed most (e ∷ es) bytes v =
      let (s, w) = shed_bytes-Shed most es (bytes - e.size) (tail-IsCounted e es bytes v) in
      elim (Bool-cases (ltb 0 most && ltb most bytes)) [
        | inl full ↦ rw full (
          record { counted = s.counted; short = omega (arith, s.short); all = λ a. s.all a.1 },
          w,
        )
        | inr fits ↦
            rw fits (record { counted = v; short = omega arith; all = λ a. a }, ground arith)
      ]

-- What holds of the cache between two operations.
pub record IsSound (c : SkillBodyCache) : Type 0 where
  pub counted : IsCounted c.ll c.bytes
  pub few : Within c.capacity (length c.ll)
  pub light : Within c.max_bytes c.bytes

pub enforce_limits-IsSound :
    (c : SkillBodyCache) → IsCounted c.ll c.bytes → IsSound (enforce_limits c)
unfolding enforce_limits
enforce_limits-IsSound c v =
    let r = shed_entries c.capacity c.ll c.bytes in
    let (s, few) = shed_entries-Shed (λ e. Unit) c.capacity c.ll c.bytes v in
    let (t, light) = shed_bytes-Shed (λ e. Unit) c.max_bytes r.0 r.1 s.counted in
    record { counted = t.counted; few = ground (arith, t.short); light = light }

pub enforce_limits-All :
    (P : CacheEntry → Type 0) (c : SkillBodyCache)
    → IsCounted c.ll c.bytes
    → All P c.ll
    → All P (enforce_limits c).ll
unfolding enforce_limits
enforce_limits-All P c v a =
    let r = shed_entries c.capacity c.ll c.bytes in
    let (s, few) = shed_entries-Shed P c.capacity c.ll c.bytes v in
    let (t, light) = shed_bytes-Shed P c.max_bytes r.0 r.1 s.counted in t.all (s.all a)

pub entry_at-path :
    (path : String) (es : List CacheEntry) (e : CacheEntry)
    → entry_at path es ≡ some e
    → e.path ≡ path
unfolding entry_at
entry_at-path path [] e h = absurd (cc)
entry_at-path path (x ∷ es) e h = ground (arith, ==_iff x.path path, entry_at-path path es e)

pub absent-paths :
    (path : String) (es : List CacheEntry)
    → entry_at path es ≡ none
    → contains path (paths es) ≡ false
unfolding entry_at
absent-paths path [] h = refl
absent-paths path (x ∷ es) h = ground (arith, absent-paths path es)

contains-without :
    (path other : String) (es : List CacheEntry)
    → contains other (paths es) ≡ false
    → contains other (paths (without path es)) ≡ false
unfolding without
contains-without path other [] h = refl
contains-without path other (e ∷ es) h = ground (arith, contains-without path other es)

without-Unique :
    (path : String) (es : List CacheEntry) → Unique (paths es) → Unique (paths (without path es))
unfolding without
without-Unique path [] u = u
without-Unique path (e ∷ es) u = elim (Bool-cases (e.path == path)) [
  | inl same ↦ rw same u.1
  | inr other ↦ rw other (contains-without path e.path es u.0, without-Unique path es u.1)
]

without-gone :
    (path : String) (es : List CacheEntry)
    → Unique (paths es)
    → contains path (paths (without path es)) ≡ false
unfolding without
without-gone path [] u = refl
without-gone path (e ∷ es) u = ground (arith, ==_iff e.path path, without-gone path es u.1, u.0)

-- The rest of the list when the element of a path is taken out.
sizes-without :
    (path : String) (es : List CacheEntry) (e : CacheEntry)
    → entry_at path es ≡ some e
    → (sizes (without path es) + e.size ≡ sizes es) × (length (without path es) + 1 ≡ length es)
unfolding entry_at without
sizes-without path [] e h = absurd (cc)
sizes-without path (x ∷ es) e h = ground (arith, sizes-without path es e)

pub without-All :
    (P : CacheEntry → Type 0) (path : String) (es : List CacheEntry)
    → All P es
    → All P (without path es)
unfolding without
without-All P path [] a = a
without-All P path (e ∷ es) a = elim (Bool-cases (e.path == path)) [
  | inl same ↦ rw same a.1
  | inr other ↦ rw other (a.0, without-All P path es a.1)
]

pub entry_at-All :
    (P : CacheEntry → Type 0) (path : String) (es : List CacheEntry) (e : CacheEntry)
    → entry_at path es ≡ some e
    → All P es
    → P e
unfolding entry_at
entry_at-All P path [] e h a = absurd (cc)
entry_at-All P path (x ∷ es) e h a = elim (Bool-cases (x.path == path)) [
  | inl same ↦ subst P (ground arith) a.0
  | inr other ↦ entry_at-All P path es e (ground arith) a.1
]

sizes-append : (es fs : List CacheEntry) → sizes (es ++ fs) ≡ sizes es + sizes fs
sizes-append [] fs = omega arith
sizes-append (e ∷ es) fs = omega (arith, sizes-append es fs)

-- An element is put at the back of a list that has none of its path.
back-IsCounted :
    (e : CacheEntry) (es : List CacheEntry) (bytes : ℕ)
    → Unique (paths es)
    → contains e.path (paths es) ≡ false
    → bytes ≡ sizes es + e.size
    → IsCounted (es ++ e ∷ []) bytes
back-IsCounted e es bytes u new h = record {
  distinct =
      subst Unique (sym (map-append (λ x. x.path) es (e ∷ [])))
        (Unique-concat (paths es) e.path u new);
  counted = omega (arith, h, sizes-append es (e ∷ []));
}

module _ (c : SkillBodyCache) (v : IsCounted c.ll c.bytes) where
  pub pushed-IsCounted :
      (e : CacheEntry) → entry_at e.path c.ll ≡ none → IsCounted (pushed e c).ll (pushed e c).bytes
  pushed-IsCounted e h =
      back-IsCounted e c.ll (c.bytes + e.size) v.distinct (absent-paths e.path c.ll h)
        (omega (arith, v.counted))

  module _ (old : CacheEntry) (h : entry_at old.path c.ll ≡ some old) where
    pub remove_element-IsCounted : IsCounted (remove_element old c).ll (remove_element old c).bytes
    unfolding remove_element
    remove_element-IsCounted = record {
      distinct = without-Unique old.path c.ll v.distinct;
      counted = omega (arith, v.counted, (sizes-without old.path c.ll old h).0);
    }

    pub renewed-IsCounted :
        (e : CacheEntry)
        → e.path ≡ old.path
        → IsCounted (renewed old e c).ll (renewed old e c).bytes
    renewed-IsCounted e same =
        back-IsCounted e (without old.path c.ll) ((c.bytes + e.size) - old.size)
          (without-Unique old.path c.ll v.distinct)
          (subst (λ p. contains p (paths (without old.path c.ll)) ≡ false) (sym same)
            (without-gone old.path c.ll v.distinct))
          (omega (arith, v.counted, (sizes-without old.path c.ll old h).0))

    to_back-IsCounted : IsCounted (to_back old c).ll c.bytes
    to_back-IsCounted =
        back-IsCounted old (without old.path c.ll) c.bytes (without-Unique old.path c.ll v.distinct)
          (without-gone old.path c.ll v.distinct)
          (omega (arith, v.counted, (sizes-without old.path c.ll old h).0))

module _ (c : SkillBodyCache) (v : IsSound c) where
  module _ (old : CacheEntry) (h : entry_at old.path c.ll ≡ some old) where
    pub remove_element-IsSound : IsSound (remove_element old c)
    unfolding remove_element
    remove_element-IsSound =
        let (fewer, shorter) = sizes-without old.path c.ll old h in
        record {
          counted = remove_element-IsCounted c v.counted old h;
          few = ground (arith, v.few, shorter);
          light = ground (arith, v.light);
        }

    pub to_back-IsSound : IsSound (to_back old c)
    to_back-IsSound =
        let (fewer, shorter) = sizes-without old.path c.ll old h in
        record {
          counted = to_back-IsCounted c v.counted old h;
          few = ground (arith, v.few, shorter, length-append (without old.path c.ll) (old ∷ []));
          light = v.light;
        }

  pub missed-IsSound : (a : String × Bool) → IsSound (missed c a).0
  missed-IsSound a = record { counted = v.counted; few = v.few; light = v.light }

  pub hit-IsSound : (body : String) → IsSound (hit c body).0
  hit-IsSound body = record { counted = v.counted; few = v.few; light = v.light }
