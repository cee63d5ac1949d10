-- ===== src/Memory/Entries.antt =====
-- core/types.go: the fields of a memory that the trust and decay engines use, and their writes to the
-- store. A trust score is a number of hundredths.
use neuralgentics.Prelude.{ℕ, String, Bool, true, false, List, [], ◌∷◌, ◌++◌, Option, if◌then◌else◌}

pub record MemoryEntry : Type 0 where
  pub id : String
  pub trust_score : ℕ
  pub retrieval_count : ℕ
  pub is_archived : Bool
  pub created_at : ℕ
  pub last_accessed_at : Option ℕ
  pub decay_rate : Option ℕ

-- What a read of one memory returns.
pub data Fetched : Type 0 where
  unreadable missing : Fetched
  found : MemoryEntry → Fetched

-- UpdateTrustFields, CreateRelationship with SUPERSEDES, UpdateDecayRate, LogAuditEvent of a new rate,
-- and LogTrustAdjustment with the old and the new score.
pub data Write : Type 0 where
  trust_fields : String → ℕ → Bool → Write
  supersedes : String → String → Write
  decay_rate_of audited_rate : String → ℕ → Write
  adjustment : String → ℕ → ℕ → Write

-- The store: its answers, where a number behind the filter is the limit, and whether it accepts a write after those before.
pub record Store : Type 0 where
  pub get_memory : String → Fetched
  pub list_memories : Bool → ℕ → Option (List MemoryEntry)
  pub list_fading_memories : ℕ → ℕ → Option (List MemoryEntry)
  pub accepts : List Write → Write → Bool

-- A write: the writes that were made, and whether this one was.
abbrev pub write : Store → List Write → Write → List Write × Bool
write store ws w = if store.accepts ws w then (ws ++ w ∷ [], true) else (ws, false)
