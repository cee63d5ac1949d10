-- ===== src/Memory/Decay.antt =====
-- decay/engine.go: trust that decays over time. Of `exponentialDecay`, the value of `math.Exp` is a
-- parameter, `halved`, for the elapsed time and the half-life, in units of which 1.0 has `scale`; a
-- score is a number of hundredths, rounded down; a rate is a number of hundredths, too, and the
-- clock reading is an argument.
pub mod Consolidation
pub mod Laws
use neuralgentics.Prelude.{
  ℕ, ◌-◌, ◌*◌, ◌/◌, String, Bool, true, false, List, [], ◌∷◌, Option, none, some, select, length,
  ltb, leb, ℤ, pos, negsuc, if◌then◌else◌, Result, ok, err,
}
use neuralgentics.Memory.Entries.{
  MemoryEntry, Fetched, unreadable, missing, found, Write, trust_fields, decay_rate_of,
  audited_rate, Store, write,
}

-- 30 days, in nanoseconds.
abbrev pub default_half_life : ℕ
default_half_life = 30 * 86400000000000

abbrev pub fading_threshold : ℕ
fading_threshold = 30

abbrev pub archive_threshold : ℕ
archive_threshold = 10

pub data DecayError : Type 0 where
  get_failed archive_failed update_failed rate_failed fading_failed archived_failed : DecayError

-- time.Since, which is negative for a time after the present one.
abbrev since : ℕ → ℕ → ℤ
since now t = if leb t now then pos (now - t) else negsuc (t - now - 1)

-- From the later of the two times.
abbrev elapsed_from : ℕ → ℕ → Option ℕ → ℤ
elapsed_from now created none = since now created
elapsed_from now created (some accessed) =
    if ltb created accessed then since now accessed else since now created

unfoldable pub clamp : ℕ → ℕ → ℕ → ℕ
clamp value least most = if ltb value least then least else if ltb most value then most else value

abbrev unless_written : DecayError → List Write × Bool → List Write × Option DecayError
unless_written e (ws, true) = (ws, none)
unless_written e (ws, false) = (ws, some e)

pub record DecayStatus : Type 0 where
  pub half_life_days : ℕ
  pub fading_count : ℕ
  pub archived_count : ℕ

abbrev approximated : Option (List MemoryEntry) → Result DecayError (List MemoryEntry)
approximated none = err fading_failed
approximated (some ms) = ok (select (λ m. ltb m.trust_score fading_threshold) ms)

abbrev status : ℕ → List MemoryEntry → Option (List MemoryEntry) → Result DecayError DecayStatus
status half_life fading none = err archived_failed
status half_life fading (some archived) = ok (record {
  half_life_days = half_life / 86400000000000;
  fading_count = length fading;
  archived_count = length archived;
})

abbrev then_status :
    ℕ
    → Option (List MemoryEntry)
    → Result DecayError (List MemoryEntry)
    → Result DecayError DecayStatus
then_status half_life archived (err e) = err e
then_status half_life archived (ok fading) = status half_life fading archived

module _ (store : Store) (half_life : ℕ) (scale : ℕ) (halved : ℤ → ℕ → ℕ) where
  abbrev fading : Option (List MemoryEntry) → Result DecayError (List MemoryEntry)
  fading (some (m ∷ ms)) = ok (m ∷ ms)
  fading (some []) = approximated (store.list_memories false 0)
  fading none = approximated (store.list_memories false 0)

  unfoldable pub get_decay_status : Result DecayError DecayStatus
  get_decay_status =
      then_status half_life (store.list_memories true 0)
        (fading (store.list_fading_memories fading_threshold 0))

  -- What the audit log answers is not looked at.
  abbrev audited : ℕ → String → List Write × Bool → List Write × Option DecayError
  audited rate id (ws, false) = (ws, some rate_failed)
  audited rate id (ws, true) = ((write store ws (audited_rate id rate)).0, none)

  unfoldable pub adjust_decay_rate : List Write → String → ℕ → List Write × Option DecayError
  unfolding clamp
  adjust_decay_rate ws id rate =
      let rate' = clamp rate 10 1000 in audited rate' id (write store ws (decay_rate_of id rate'))

  abbrev exponential_decay : ℕ → ℤ → ℕ
  exponential_decay score elapsed =
      if ltb 0 half_life then score * halved elapsed half_life / scale else score

  abbrev scored : List Write → String → ℕ → List Write × Option DecayError
  scored ws id score =
      if ltb score archive_threshold
      then unless_written archive_failed (write store ws (trust_fields id score true))
      else unless_written update_failed (write store ws (trust_fields id score false))

  abbrev applied : ℕ → List Write → String → Fetched → List Write × Option DecayError
  applied now ws id unreadable = (ws, some get_failed)
  applied now ws id missing = (ws, none)
  applied now ws id (found m) =
      if m.is_archived
      then (ws, none)
      else scored ws id
          (exponential_decay m.trust_score (elapsed_from now m.created_at m.last_accessed_at))

  unfoldable pub apply_decay : ℕ → List Write → String → List Write × Option DecayError
  apply_decay now ws id = applied now ws id (store.get_memory id)
