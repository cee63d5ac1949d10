-- ===== src/Memory/Trust/Laws.antt =====
-- trust/engine.go: what a signal does to a score and to the store.
use neuralgentics.Prelude.{
  ℕ, ◌+◌, ◌≤◌, ◌<◌, String, ◌≡◌, ◌⊎◌, refl, sym, subst, Bool, true, false, List, [], ◌∷◌, ◌++◌,
  some, if◌then◌else◌, arith, Result, ok, err, append_assoc,
}
use neuralgentics.Memory.Entries.{MemoryEntry, found, Write, trust_fields, adjustment, Store}
use neuralgentics.Memory.Trust.{
  TrustSignal, Delta, up, down, signal_deltas, moved, TrustError, unknown_signal, not_found,
  fetch_failed, update_failed, log_failed, TrustAdjustment, logged, updated, adjusted, signalled,
  adjust_trust,
}

-- The score moves by the whole delta, or stops at the end of the range.
abbrev pub Toward : Delta → ℕ → ℕ → Type 0
Toward (up n) old new = (new ≡ old + n) ⊎ ((new ≡ 100) × (100 < old + n))
Toward (down n) old new = (new + n ≡ old) ⊎ ((new ≡ 0) × (old < n))

moved-Toward : (d : Delta) (old : ℕ) → old ≤ 100 → (moved d old ≤ 100) × Toward d old (moved d old)
unfolding moved
moved-Toward (up n) old h = ground arith
moved-Toward (down n) old h = ground arith

module _ (id : String) (m : MemoryEntry) (d : Delta) (ws : List Write) where
  -- What a call leaves of the store with what it returns.
  abbrev pub Adjusts : List Write × Result TrustError TrustAdjustment → Type 0
  Adjusts (ws', ok adj) =
      (adj.old_score ≡ m.trust_score)
      × (adj.new_score ≤ 100)
      × Toward d m.trust_score adj.new_score
      × (ws'
          ≡ ws
            ++ trust_fields id adj.new_score m.is_archived
              ∷ adjustment id m.trust_score adj.new_score
              ∷ [])
  Adjusts (ws', err update_failed) = ws' ≡ ws
  Adjusts (ws', err log_failed) =
      (new : ℕ) × Toward d m.trust_score new × (ws' ≡ ws ++ trust_fields id new m.is_archived ∷ [])
  Adjusts (ws', err (unknown_signal s)) = ⊥
  Adjusts (ws', err (not_found i)) = ⊥
  Adjusts (ws', err fetch_failed) = ⊥

  module _ (store : Store) (signal : TrustSignal) (old_le : m.trust_score ≤ 100) where
    abbrev new : ℕ
    new = moved d m.trust_score

    abbrev adj : TrustAdjustment
    adj = record { memory_id = id; old_score = m.trust_score; new_score = new; signal = signal }

    abbrev first : List Write
    first = ws ++ trust_fields id new m.is_archived ∷ []

    logged-Adjusts :
        (t : Bool)
        → Adjusts (
            logged store adj
              (if t then (first ++ adjustment id m.trust_score new ∷ [], true) else (first, false)))
    logged-Adjusts true =
        let (le, toward) = moved-Toward d m.trust_score old_le in
        (
          refl,
          le,
          toward,
          append_assoc ws (trust_fields id new m.is_archived ∷ [])
              (adjustment id m.trust_score new ∷ []),
        )
    logged-Adjusts false = (new, (moved-Toward d m.trust_score old_le).1, refl)

    updated-Adjusts :
        (t : Bool) → Adjusts (updated store adj (if t then (first, true) else (ws, false)))
    updated-Adjusts true = logged-Adjusts (store.accepts first (adjustment id m.trust_score new))
    updated-Adjusts false = refl

-- A known signal for a memory that the store finds, with a score of 1.0 at most, whatever writes the
-- store accepts: on success the score moved by the delta of the signal or stopped at the end of
-- [0, 1], and exactly the new score, with the archive flag as it was, and the adjustment were
-- written; when the score cannot be written, nothing is; and when the adjustment cannot be
-- logged, the call fails although the score has been changed.
pub adjust_trust-Adjusts :
    (store : Store) (ws : List Write) (id : String) (signal : TrustSignal) (m : MemoryEntry)
    (d : Delta)
    → signal_deltas signal ≡ some d
    → store.get_memory id ≡ found m
    → m.trust_score ≤ 100
    → Adjusts id m d ws (adjust_trust store ws id signal)
unfolding adjust_trust
adjust_trust-Adjusts store ws id signal m d known there le =
    subst (λ o. Adjusts id m d ws (signalled store ws id signal o)) (sym known)
      (subst (λ f. Adjusts id m d ws (adjusted store ws id signal d f)) (sym there)
        (updated-Adjusts id m d ws store signal le
          (store.accepts ws (trust_fields id (moved d m.trust_score) m.is_archived))))
