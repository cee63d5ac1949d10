-- ===== src/Memory/Decay/Laws.antt =====
-- decay/engine.go: what the decay of one memory writes.
use native.Mathlib.Nat.{div-le_of_le-mul, mul-le-mul_left, mul_comm}
use neuralgentics.Prelude.{
  ℤ, pos, ◌*◌, Option, none, some, Bool-cases, ℕ, ◌≤◌, String, ◌≡◌, ◌⊎◌, inl, inr, refl, subst,
  Bool, true, false, List, [], ◌∷◌, ◌++◌, ltb, leb, ◌-◌, if◌then◌else◌, arith,
}
use neuralgentics.Memory.Entries.{
  MemoryEntry, Fetched, unreadable, missing, found, Write, trust_fields, Store, write,
}
use neuralgentics.Memory.Decay.{
  archive_threshold, DecayError, archive_failed, update_failed, unless_written, elapsed_from, since,
  exponential_decay, scored, applied, apply_decay,
}

abbrev pub AccessedBy : ℕ → Option ℕ → Type 0
AccessedBy now none = Unit
AccessedBy now (some accessed) = accessed ≤ now

-- The memory was neither created nor accessed after the present time.
abbrev pub IsPast : ℕ → MemoryEntry → Type 0
IsPast now m = (m.created_at ≤ now) × AccessedBy now m.last_accessed_at

-- Nothing is written, or one lower score of a memory that is not archived.
abbrev pub Decays : Store → String → List Write → List Write → Type 0
Decays store id ws ws' =
    (ws' ≡ ws)
    ⊎ ((m : MemoryEntry) × (score : ℕ) × (store.get_memory id ≡ found m)
        × (m.is_archived ≡ false)
        × (score ≤ m.trust_score)
        × (ws' ≡ ws ++ trust_fields id score (ltb score archive_threshold) ∷ []))

module _ (store : Store) (half_life : ℕ) (scale : ℕ) (halved : ℤ → ℕ → ℕ)
    (lower : (elapsed half : ℕ) → halved (pos elapsed) half ≤ scale) where
  decay_le :
      (score elapsed : ℕ)
      → exponential_decay store half_life scale halved score (pos elapsed) ≤ score
  decay_le score elapsed = elim (Bool-cases (ltb 0 half_life)) [
    | inl on ↦ rw on (
        div-le_of_le-mul scale (
          subst (λ x. score * halved (pos elapsed) half_life ≤ x) (mul_comm score scale)
            (mul-le-mul_left score (lower elapsed half_life))))
    | inr none_ ↦ rw none_ (omega arith)
  ]

  -- The time that has passed since a memory of the past is not negative.
  elapsed_le :
      (now score : ℕ) (m : MemoryEntry)
      → IsPast now m
      → exponential_decay store half_life scale halved score
          (elapsed_from now m.created_at m.last_accessed_at)
        ≤ score
  elapsed_le now score m (created, accessed) =
      elapsed m.created_at m.last_accessed_at created accessed
    where
      since_le :
          (t : ℕ)
          → t ≤ now
          → exponential_decay store half_life scale halved score (since now t) ≤ score
      since_le t h =
          let early : leb t now ≡ true = ground arith in rw early (decay_le score (now - t))

      elapsed :
          (t : ℕ) (a : Option ℕ)
          → t ≤ now
          → AccessedBy now a
          → exponential_decay store half_life scale halved score (elapsed_from now t a) ≤ score
      elapsed t none h k = since_le t h
      elapsed t (some u) h k = elim (Bool-cases (ltb t u)) [
        | inl on ↦ rw on (since_le u k)
        | inr off ↦ rw off (since_le t h)
      ]

  module _ (ws : List Write) (id : String) (m : MemoryEntry) (there : store.get_memory id ≡ found m)
      (active : m.is_archived ≡ false) (score : ℕ) (le : score ≤ m.trust_score) where
    written-Decays :
        (e : DecayError) (t : Bool) (flag : Bool)
        → flag ≡ ltb score archive_threshold
        → Decays store id ws
            (unless_written e
              (if t then (ws ++ trust_fields id score flag ∷ [], true) else (ws, false))).0
    written-Decays e true flag same = inr (
      m,
      score,
      there,
      active,
      le,
      subst (λ f. ws ++ trust_fields id score flag ∷ [] ≡ ws ++ trust_fields id score f ∷ []) same
          refl,
    )
    written-Decays e false flag same = inl refl

    either-Decays :
        (t : Bool)
        → t ≡ ltb score archive_threshold
        → Decays store id ws
            (if t
              then unless_written archive_failed (write store ws (trust_fields id score true))
              else unless_written update_failed (write store ws (trust_fields id score false))).0
    either-Decays true same =
        written-Decays archive_failed (store.accepts ws (trust_fields id score true)) true same
    either-Decays false same =
        written-Decays update_failed (store.accepts ws (trust_fields id score false)) false same

    scored-Decays : Decays store id ws (scored store half_life scale halved ws id score).0
    scored-Decays = either-Decays (ltb score archive_threshold) refl

  active-Decays :
      (now : ℕ) (ws : List Write) (id : String) (m : MemoryEntry) (t : Bool)
      → IsPast now m
      → store.get_memory id ≡ found m
      → m.is_archived ≡ t
      → Decays store id ws
          (if t
            then (ws, none)
            else scored store half_life scale halved ws id (
                exponential_decay store half_life scale halved m.trust_score
                  (elapsed_from now m.created_at m.last_accessed_at))).0
  active-Decays now ws id m true past there e = inl refl
  active-Decays now ws id m false past there e =
      let elapsed = elapsed_from now m.created_at m.last_accessed_at in
      scored-Decays ws id m there e
        (exponential_decay store half_life scale halved m.trust_score elapsed)
        (elapsed_le now m.trust_score m past)

  applied-Decays :
      (now : ℕ) (ws : List Write) (id : String)
      → ((m : MemoryEntry) → store.get_memory id ≡ found m → IsPast now m)
      → (f : Fetched) → store.get_memory id ≡ f
      → Decays store id ws (applied store half_life scale halved now ws id f).0
  applied-Decays now ws id past unreadable e = inl refl
  applied-Decays now ws id past missing e = inl refl
  applied-Decays now ws id past (found m) e =
      active-Decays now ws id m m.is_archived (past m e) e refl

  -- With an exponential function that is at most 1 for a time that is not negative, and a memory, if
  -- the store finds one, that was neither created nor accessed after the present time, whatever
  -- the store answers and whichever writes it accepts: decaying the memory writes nothing, or it
  -- is not archived and exactly one score is written, which is not above its score and archives
  -- the memory exactly when it is below 0.1.
  pub apply_decay-Decays :
      (now : ℕ) (ws : List Write) (id : String)
      → ((m : MemoryEntry) → store.get_memory id ≡ found m → IsPast now m)
      → Decays store id ws (apply_decay store half_life scale halved now ws id).0
  unfolding apply_decay
  apply_decay-Decays now ws id past = applied-Decays now ws id past (store.get_memory id) refl
