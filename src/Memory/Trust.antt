-- ===== src/Memory/Trust.antt =====
-- trust/engine.go: trust scores and the signals that change them.
pub mod Laws
use neuralgentics.Prelude.{
  ℕ, ◌+◌, ◌-◌, String, Bool, true, false, not, List, [], ◌∷◌, Option, none, some, ltb,
  if◌then◌else◌, Result, ok, err,
}
use neuralgentics.Memory.Entries.{
  MemoryEntry, Fetched, unreadable, missing, found, Write, trust_fields, adjustment, Store, write,
}

pub data TrustSignal : Type 0 where
  agent_used agent_ignored user_confirmed user_corrected : TrustSignal
  other : String → TrustSignal

-- A change by a number of hundredths.
pub data Delta : Type 0 where
  up down : ℕ → Delta

-- SignalDeltas, read at a signal.
unfoldable pub signal_deltas : TrustSignal → Option Delta
signal_deltas agent_used = some (up 5)
signal_deltas agent_ignored = some (down 5)
signal_deltas user_confirmed = some (up 10)
signal_deltas user_corrected = some (down 10)
signal_deltas (other s) = none

-- clamp(oldScore+delta, 0.0, 1.0)
abbrev pub clamped : ℕ → ℕ
clamped n = if ltb 100 n then 100 else n

unfoldable pub moved : Delta → ℕ → ℕ
moved (up n) score = clamped (score + n)
moved (down n) score = clamped (score - n)

pub data TrustError : Type 0 where
  not_found : String → TrustError
  unknown_signal : TrustSignal → TrustError
  fetch_failed update_failed log_failed : TrustError

pub record TrustResult : Type 0 where
  pub memory_id : String
  pub trust_score : ℕ
  pub retrieval_count : ℕ
  pub is_archived : Bool
  pub decay_rate : ℕ

-- The default rate is 1.0.
abbrev rate_of : Option ℕ → ℕ
rate_of none = 100
rate_of (some rate) = rate

abbrev result_of : String → Fetched → Result TrustError TrustResult
result_of id unreadable = err fetch_failed
result_of id missing = err (not_found id)
result_of id (found m) = ok (record {
  memory_id = m.id;
  trust_score = m.trust_score;
  retrieval_count = m.retrieval_count;
  is_archived = m.is_archived;
  decay_rate = rate_of m.decay_rate;
})

pub record TrustAdjustment : Type 0 where
  pub memory_id : String
  pub old_score : ℕ
  pub new_score : ℕ
  pub signal : TrustSignal

module _ (store : Store) where
  unfoldable pub get_trust_score : String → Result TrustError TrustResult
  get_trust_score id = result_of id (store.get_memory id)

  abbrev pub Adjusted : Type 0
  Adjusted = List Write × Result TrustError TrustAdjustment

  abbrev logged : TrustAdjustment → List Write × Bool → Adjusted
  logged adj (ws, true) = (ws, ok adj)
  logged adj (ws, false) = (ws, err log_failed)

  abbrev updated : TrustAdjustment → List Write × Bool → Adjusted
  updated adj (ws, true) =
      logged adj (write store ws (adjustment adj.memory_id adj.old_score adj.new_score))
  updated adj (ws, false) = (ws, err update_failed)

  abbrev adjusted : List Write → String → TrustSignal → Delta → Fetched → Adjusted
  adjusted ws id signal delta unreadable = (ws, err fetch_failed)
  adjusted ws id signal delta missing = (ws, err (not_found id))
  adjusted ws id signal delta (found m) =
      let score = moved delta m.trust_score in
      updated
        (record { memory_id = id; old_score = m.trust_score; new_score = score; signal = signal })
        (write store ws (trust_fields id score m.is_archived))

  abbrev signalled : List Write → String → TrustSignal → Option Delta → Adjusted
  signalled ws id signal none = (ws, err (unknown_signal signal))
  signalled ws id signal (some delta) = adjusted ws id signal delta (store.get_memory id)

  unfoldable pub adjust_trust : List Write → String → TrustSignal → Adjusted
  unfolding signal_deltas moved
  adjust_trust ws id signal = signalled ws id signal (signal_deltas signal)

  abbrev promoted : List Write × Bool → List Write × Option TrustError
  promoted (ws, true) = (ws, none)
  promoted (ws, false) = (ws, some update_failed)

  abbrev promotion : List Write → String → Fetched → List Write × Option TrustError
  promotion ws id unreadable = (ws, some fetch_failed)
  promotion ws id missing = (ws, some (not_found id))
  promotion ws id (found m) =
      if m.is_archived
      then promoted (write store ws (trust_fields id m.trust_score false))
      else (ws, none)

  unfoldable pub promote_memory : List Write → String → List Write × Option TrustError
  promote_memory ws id = promotion ws id (store.get_memory id)

  unfoldable pub list_archived : ℕ → Option (List MemoryEntry)
  list_archived limit = store.list_memories true limit
