-- ===== src/Memory/Loader/Laws.antt =====
-- tiered/loader.go: what a call leaves in the cache, and what the next one returns.
use neuralgentics.Prelude.{
  ℕ, ◌+◌, ◌≤◌, String, ◌≡◌, refl, ap, ◌∙◌, Bool, true, false, List, [], ◌∷◌, Option, none, some,
  ◌==◌, string_comparable, Result, ok, err, leb, select, ◌/◌, text_length,
}
use neuralgentics.Memory.Cache
use neuralgentics.Memory.Cache.{SummaryCache}
use neuralgentics.Memory.Cache.Laws.{view, get-view, get-set_live, view-set}
use neuralgentics.Memory.Loader.{
  Tier, l0, l1, cache_key, default_ttl, Summary, MemoryEntry, Prompt, LoaderError, Store, Clock,
  no_memories, Loaded, answered, summarised, fetched, from_cache, get_tier_summary, trusted,
  min_trust, fetch_limit, summary_prompt, fetch_failed, chat_failed, estimate_tokens,
}

-- What a call without a forced refresh returns of a cached text.
abbrev pub cached : Tier → String → Result LoaderError Summary
cached tier text = ok (record { content = text; token_count = 0; tier = tier })

abbrev pub other_tier : Tier → Tier
other_tier l0 = l1
other_tier l1 = l0

keys_differ : (tier : Tier) → (cache_key tier == cache_key (other_tier tier)) ≡ false
keys_differ l0 = refl
keys_differ l1 = refl

-- A later call, over a store and with a model.
module _ (store : Store) (chat : Prompt → Option String) (s : store.State) (later : Clock) where
  abbrev pub Served : Tier → String → SummaryCache → Type 0
  Served tier text c = get_tier_summary store chat s later tier false c ≡ (c, cached tier text)

  set-Served :
      (tier : Tier) (at : ℕ) (text : String) (c : SummaryCache)
      → later.now ≤ at + default_ttl tier
      → Served tier text (Cache.set at (cache_key tier) text (default_ttl tier) c)
  unfolding get_tier_summary
  set-Served tier at text c h =
      ap (from_cache store chat s later tier)
        (get-set_live c (cache_key tier) text (default_ttl tier) at later.now later.later h)

  -- What the answer of the model comes to.
  abbrev pub Answered : Tier → SummaryCache → Prompt → Option String → Loaded → Type 0
  Answered tier c prompt none r = r ≡ (c, err (chat_failed prompt))
  Answered tier c prompt (some text) r =
      (r.1 ≡ ok (record { content = text; token_count = text_length text / 4; tier = tier }))
      × Served tier text r.0

  -- What the memories come to that are trusted enough for the tier.
  abbrev pub Told :
      (Prompt → Option String) → Tier → SummaryCache → List MemoryEntry → Loaded → Type 0
  Told ask tier c [] r = r ≡ (c, ok (no_memories tier))
  Told ask tier c (m ∷ ms) r =
      Answered tier c (summary_prompt tier (m ∷ ms)) (ask (summary_prompt tier (m ∷ ms))) r

  -- What the listing of the store comes to.
  abbrev pub Outcome :
      (Prompt → Option String) → Tier → SummaryCache → Option (List MemoryEntry) → Loaded → Type 0
  Outcome ask tier c none r = r ≡ (c, err (fetch_failed tier))
  Outcome ask tier c (some ms) r =
      Told ask tier c (select (λ m. leb (min_trust tier) m.trust_score) ms) r

  module _ (clock : Clock) (tier : Tier) (c : SummaryCache) (ask : Prompt → Option String)
      (h : later.now ≤ clock.at + default_ttl tier) where
    answered-Answered :
        (p : Prompt) (a : Option String) → Answered tier c p a (answered clock tier c p a)
    unfolding estimate_tokens
    answered-Answered p none = refl
    answered-Answered p (some text) = (refl, set-Served tier clock.at text c h)

    summarised-Told : (ms : List MemoryEntry) → Told ask tier c ms (summarised ask clock tier c ms)
    summarised-Told [] = refl
    summarised-Told (m ∷ ms) =
        answered-Answered (summary_prompt tier (m ∷ ms)) (ask (summary_prompt tier (m ∷ ms)))

    fetched-Outcome :
        (ms : Option (List MemoryEntry)) → Outcome ask tier c ms (fetched ask clock tier c ms)
    fetched-Outcome none = refl
    fetched-Outcome (some ms) = summarised-Told (trusted tier ms)

  -- A forced refresh, whatever the cache holds, and a later call without force that reads the clock
  -- up to the end of the time to live. When the store cannot list its memories, the result is an
  -- error; when none of the listed is trusted enough, the fixed summary; when the model gives no
  -- answer to the prompt made of those that are, an error; and in these three cases the cache is
  -- left as it was. Otherwise the summary is the answer with a quarter of its length as the count
  -- of tokens, and the later call returns the answer, over any store and with any model, and
  -- leaves the cache as it is.
  pub get_tier_summary-Outcome :
      (first : Store) (ask : Prompt → Option String) (t : first.State) (clock : Clock) (tier : Tier)
      (c : SummaryCache)
      → later.now ≤ clock.at + default_ttl tier
      → Outcome ask tier c
          (first.list_memories t (min_trust tier) (fetch_limit tier))
          (get_tier_summary first ask t clock tier true c)
  unfolding get_tier_summary
  get_tier_summary-Outcome first ask t clock tier c h =
      fetched-Outcome clock tier c ask h (first.list_memories t (min_trust tier) (fetch_limit tier))

-- What a reader at an instant sees of the other tier.
abbrev pub Apart : ℕ → Tier → SummaryCache → Loaded → Type 0
Apart seen tier c r =
    view seen (cache_key (other_tier tier)) r.0 ≡ view seen (cache_key (other_tier tier)) c

module _ (seen : ℕ) (clock : Clock) (tier : Tier) (c : SummaryCache)
    (ask : Prompt → Option String) where
  answered-Apart : (p : Prompt) (a : Option String) → Apart seen tier c (answered clock tier c p a)
  answered-Apart p none = refl
  answered-Apart p (some text) =
      view-set c (cache_key tier) (cache_key (other_tier tier)) text (default_ttl tier) clock.at
        seen (keys_differ tier)

  summarised-Apart : (ms : List MemoryEntry) → Apart seen tier c (summarised ask clock tier c ms)
  summarised-Apart [] = refl
  summarised-Apart (m ∷ ms) = answered-Apart _ (ask _)

  fetched-Apart : (ms : Option (List MemoryEntry)) → Apart seen tier c (fetched ask clock tier c ms)
  fetched-Apart none = refl
  fetched-Apart (some ms) = summarised-Apart (trusted tier ms)

module _ (store : Store) (chat : Prompt → Option String) (s : store.State) (clock : Clock)
    (tier : Tier) (seen : ℕ) where
  from_cache-Apart :
      (c : SummaryCache) (r : SummaryCache × (String × Bool))
      → view seen (cache_key (other_tier tier)) r.0 ≡ view seen (cache_key (other_tier tier)) c
      → Apart seen tier c (from_cache store chat s clock tier r)
  from_cache-Apart c (c', (text, true)) e = e
  from_cache-Apart c (c', (text, false)) e =
      fetched-Apart seen clock tier c' chat
        (store.list_memories s (min_trust tier) (fetch_limit tier))
      ∙ e

  -- A call for one tier, forced or not, with any store and model, changes nothing that a reader sees
  -- of the other tier from its second clock reading on.
  pub get_tier_summary-Apart :
      (force : Bool) (c : SummaryCache)
      → clock.later ≤ seen
      → Apart seen tier c (get_tier_summary store chat s clock tier force c)
  unfolding get_tier_summary
  get_tier_summary-Apart true c h =
      fetched-Apart seen clock tier c chat
        (store.list_memories s (min_trust tier) (fetch_limit tier))
  get_tier_summary-Apart false c h =
      from_cache-Apart c (Cache.get clock.now clock.later (cache_key tier) c)
        (get-view clock.now clock.later seen (cache_key tier) (cache_key (other_tier tier)) c h).0
