-- ===== src/Orchestrator/Locks.antt =====
-- `FileOwnershipRegistry` of task_runner.go. Each method runs under the mutex, so it is one step: a
-- function from the registry to the registry after it and the result.
pub mod Laws
pub mod Traces
use neuralgentics.Prelude.{
  ℕ, String, Bool, true, false, not, List, [], ◌∷◌, Option, none, some, ◌==◌, lookup, insert,
  delete, if◌then◌else◌, string_comparable, ◌&&◌,
}
use neuralgentics.Orchestrator.Types.{TaskStatus, FileLock, is_terminal_status}

-- nowMillis: a placeholder that returns 0
pub now_millis : ℕ
now_millis = 0

pub record FileOwnershipRegistry : Type 0 where
  pub locks : List (String × FileLock)

-- NewFileOwnershipRegistry
abbrev pub new_file_ownership_registry : FileOwnershipRegistry
new_file_ownership_registry = record { locks = [] }

-- The lock that `AcquireLock` writes.
abbrev take_lock : FileOwnershipRegistry → String → String → TaskStatus → FileOwnershipRegistry
take_lock r path task status = record {
  locks =
      insert path (record { task_id = task; status = status; acquired_at = now_millis }) r.locks;
}

abbrev acquire :
    Option FileLock
    → FileOwnershipRegistry
    → String
    → String
    → TaskStatus
    → FileOwnershipRegistry × Bool
acquire none r path task status = (take_lock r path task status, true)
acquire (some existing) r path task status =
    if existing.task_id == task
    then (r, true)
    else if is_terminal_status existing.status
    then (take_lock r path task status, true)
    else (r, false)

unfoldable pub acquire_lock :
    FileOwnershipRegistry → String → String → TaskStatus → FileOwnershipRegistry × Bool
acquire_lock r path task status = acquire (lookup path r.locks) r path task status

abbrev release :
    Option FileLock → FileOwnershipRegistry → String → String → FileOwnershipRegistry × Bool
release none r path task = (r, false)
release (some existing) r path task =
    if not (existing.task_id == task)
    then (r, false)
    else (record { locks = delete path r.locks }, true)

pub release_lock : FileOwnershipRegistry → String → String → FileOwnershipRegistry × Bool
release_lock r path task = release (lookup path r.locks) r path task

abbrev owner : Option FileLock → String
owner none = ""
owner (some lock) = if is_terminal_status lock.status then "" else lock.task_id

unfoldable pub get_owner : FileOwnershipRegistry → String → String
get_owner r path = owner (lookup path r.locks)

abbrev update :
    Option FileLock
    → FileOwnershipRegistry
    → String
    → String
    → TaskStatus
    → FileOwnershipRegistry × Bool
update none r path task status = (r, false)
update (some existing) r path task status =
    if not (existing.task_id == task)
    then (r, false)
    else (record { locks = insert path (record existing { status = status }) r.locks }, true)

pub update_lock_status :
    FileOwnershipRegistry → String → String → TaskStatus → FileOwnershipRegistry × Bool
update_lock_status r path task status = update (lookup path r.locks) r path task status

-- The loop of `GetActiveLocks`.
pub active_from : List (String × FileLock) → List (String × FileLock) → List (String × FileLock)
active_from active [] = active
active_from active ((path, lock) ∷ rest) =
    active_from (if not (is_terminal_status lock.status) then insert path lock active else active)
      rest

pub get_active_locks : FileOwnershipRegistry → List (String × FileLock)
unfolding active_from
get_active_locks r = active_from [] r.locks

pub clear : FileOwnershipRegistry → FileOwnershipRegistry
clear r = record { locks = [] }
