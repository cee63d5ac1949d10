-- ===== src/Memory/Loader.antt =====
-- tiered/loader.go: the summaries of the two tiers, and the extraction of memories. The store and the
-- language model are parameters; a prompt is the values that it shows. A trust score is a number of
-- units, of which 1.0 has ten; a text is measured in characters.
pub mod Laws
use neuralgentics.Prelude.{
  ℕ, ◌+◌, ◌*◌, ◌/◌, String, Bool, true, false, not, List, [], ◌∷◌, Option, none, some, ◌==◌,
  string_comparable, select, map, length, text_length, leb, if◌then◌else◌, Result, ok, err,
}
use neuralgentics.Memory.Cache
use neuralgentics.Memory.Cache.{SummaryCache}
use neuralgentics.Memory.Chunker.Text.{trim_space, has_prefix, after_prefix, split_lines}

pub data Tier : Type 0 where
  l0 l1 : Tier

-- CacheKeyL0, CacheKeyL1
abbrev pub cache_key : Tier → String
cache_key l0 = "l0_summary"
cache_key l1 = "l1_summary"

-- DefaultL0TTL, DefaultL1TTL, in nanoseconds.
abbrev pub default_ttl : Tier → ℕ
default_ttl l0 = 5 * 60000000000
default_ttl l1 = 15 * 60000000000

-- l0MinTrust, l1MinTrust
abbrev pub min_trust : Tier → ℕ
min_trust l0 = 5
min_trust l1 = 8

-- l0Limit, l1Limit
abbrev pub fetch_limit : Tier → ℕ
fetch_limit l0 = 20
fetch_limit l1 = 100

pub record Summary : Type 0 where
  pub content : String
  pub token_count : ℕ
  pub tier : Tier

pub record MemoryEntry : Type 0 where
  pub content : String
  pub source_type : String
  pub trust_score : ℕ

-- What a call of the language model is asked.
pub data Prompt : Type 0 where
  summary_prompt : Tier → List MemoryEntry → Prompt
  extraction_prompt precompress_prompt : String → Prompt

pub data LoaderError : Type 0 where
  fetch_failed : Tier → LoaderError
  chat_failed : Prompt → LoaderError

-- The store: its state, and what the two calls that are made of it return.
pub record Store : Type 1 where
  pub State : Type 0
  pub list_memories : State → ℕ → ℕ → Option (List MemoryEntry)
  pub add_memory : State → MemoryEntry → State × Option String

unfoldable pub estimate_tokens : String → ℕ
estimate_tokens text = text_length text / 4

-- Each line behind a dash is a memory.
abbrev bullet : String → List String → List String
bullet line rest =
    if has_prefix line "- "
    then (let mem = trim_space (after_prefix "- " line) in
        if not (mem == "") then mem ∷ rest else rest)
    else rest

extracted : List String → List String
unfolding after_prefix
extracted [] = []
extracted (line ∷ lines) = let rest = extracted lines in bullet (trim_space line) rest

unfoldable pub parse_extracted_memories : String → List String
unfolding extracted
parse_extracted_memories output = extracted (split_lines output)

abbrev trusted : Tier → List MemoryEntry → List MemoryEntry
trusted tier = select (λ m. leb (min_trust tier) m.trust_score)

-- The clock: two readings of `Get`, and the one of `Set`.
pub record Clock : Type 0 where
  pub now : ℕ
  pub later : ℕ
  pub at : ℕ

abbrev pub no_memories : Tier → Summary
no_memories l0 = record {
  content = "No high-trust memories available.";
  token_count = 6;
  tier = l0;
}
no_memories l1 = record { content = "No key decisions available."; token_count = 5; tier = l1 }

abbrev pub Loaded : Type 0
Loaded = SummaryCache × Result LoaderError Summary

abbrev answered : Clock → Tier → SummaryCache → Prompt → Option String → Loaded
answered clock tier c prompt none = (c, err (chat_failed prompt))
answered clock tier c prompt (some text) = (
  Cache.set clock.at (cache_key tier) text (default_ttl tier) c,
  ok (record { content = text; token_count = estimate_tokens text; tier = tier }),
)

abbrev summarised :
    (Prompt → Option String) → Clock → Tier → SummaryCache → List MemoryEntry → Loaded
summarised chat clock tier c [] = (c, ok (no_memories tier))
summarised chat clock tier c (m ∷ ms) =
    let prompt = summary_prompt tier (m ∷ ms) in answered clock tier c prompt (chat prompt)

abbrev fetched :
    (Prompt → Option String) → Clock → Tier → SummaryCache → Option (List MemoryEntry) → Loaded
fetched chat clock tier c none = (c, err (fetch_failed tier))
fetched chat clock tier c (some ms) = summarised chat clock tier c (trusted tier ms)

module _ (store : Store) where
  open store use {State, list_memories, add_memory}

  abbrev generated : (Prompt → Option String) → State → Clock → Tier → SummaryCache → Loaded
  generated chat s clock tier c =
      fetched chat clock tier c (list_memories s (min_trust tier) (fetch_limit tier))

  -- A cached summary has no count of tokens.
  abbrev from_cache :
      (Prompt → Option String) → State → Clock → Tier → SummaryCache × (String × Bool) → Loaded
  from_cache chat s clock tier (c, (text, true)) =
      (c, ok (record { content = text; token_count = 0; tier = tier }))
  from_cache chat s clock tier (c, (text, false)) = generated chat s clock tier c

  -- GetTier0Summary and GetTier1Summary, which differ in their constants.
  unfoldable pub get_tier_summary :
      (Prompt → Option String) → State → Clock → Tier → Bool → SummaryCache → Loaded
  unfolding estimate_tokens
  get_tier_summary chat s clock tier true c = generated chat s clock tier c
  get_tier_summary chat s clock tier false c =
      from_cache chat s clock tier (Cache.get clock.now clock.later (cache_key tier) c)

  abbrev recorded : Option String → List String → List String
  recorded none ids = ids
  recorded (some id) ids = id ∷ ids

  -- The loop that adds the memories: one that cannot be added is left out.
  unfoldable pub add_memories : State → List String → State × List String
  add_memories s [] = (s, [])
  add_memories s (content ∷ contents) =
      let r =
        add_memory s (record { content = content; source_type = "boomerang"; trust_score = 0 }) in
      let rest = add_memories r.0 contents in (rest.0, recorded r.1 rest.1)

  pub record ExtractionResult : Type 0 where
    pub memory_ids : List String
    pub count : ℕ

  pub record PrecompressResult : Type 0 where
    pub memories_extracted : ℕ
    pub memory_ids : List String
    pub context : String

  abbrev extraction : State × List String → State × Result LoaderError ExtractionResult
  extraction (s, ids) = (s, ok (record { memory_ids = ids; count = length ids }))

  abbrev extracted_from :
      State → Prompt → Option String → State × Result LoaderError ExtractionResult
  extracted_from s prompt none = (s, err (chat_failed prompt))
  extracted_from s prompt (some text) = extraction (add_memories s (parse_extracted_memories text))

  unfoldable pub trigger_extraction :
      (Prompt → Option String) → State → String → State × Result LoaderError ExtractionResult
  unfolding add_memories parse_extracted_memories
  trigger_extraction chat s conversation =
      if conversation == ""
      then extraction (s, [])
      else extracted_from s (extraction_prompt conversation) (chat (extraction_prompt conversation))

  abbrev precompression :
      String → State × List String → State × Result LoaderError PrecompressResult
  precompression text (s, ids) =
      (s, ok (record { memories_extracted = length ids; memory_ids = ids; context = text }))

  abbrev precompressed_from :
      String → State → Prompt → Option String → State × Result LoaderError PrecompressResult
  precompressed_from context s prompt none = (s, err (chat_failed prompt))
  precompressed_from context s prompt (some text) =
      precompression context (add_memories s (parse_extracted_memories text))

  unfoldable pub precompress_extraction :
      (Prompt → Option String) → State → String → State × Result LoaderError PrecompressResult
  unfolding add_memories parse_extracted_memories
  precompress_extraction chat s context =
      if context == ""
      then precompression "" (s, [])
      else precompressed_from context s (precompress_prompt context)
          (chat (precompress_prompt context))

unfoldable pub invalidate_cache : String → SummaryCache → SummaryCache
invalidate_cache tier c =
    if tier == "L0"
    then Cache.invalidate (cache_key l0) c
    else if tier == "L1"
    then Cache.invalidate (cache_key l1) c
    else Cache.invalidate_all c
