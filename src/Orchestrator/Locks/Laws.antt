-- ===== src/Orchestrator/Locks/Laws.antt =====
-- What each operation on the file locks does, on every branch.
use neuralgentics.Prelude.{
  ap, String, ◌≡◌, ◌≢◌, ◌⊎◌, inl, inr, refl, true, false, List, [], ◌∷◌, Option, none, some, ==_iff,
  ==_self, lookup, insert, if◌then◌else◌, string_comparable, lookup-insert, lookup-delete, Distinct,
  arith, Option-cases, Bool-cases, map_laws, lookup-eq-none_iff,
}
use neuralgentics.Orchestrator.Types.{TaskStatus, FileLock, is_terminal_status}
use neuralgentics.Orchestrator.Locks.{
  FileOwnershipRegistry, acquire, release, update, owner, now_millis, acquire_lock, release_lock,
  get_owner, update_lock_status, active_from, get_active_locks,
}

module _ (r : FileOwnershipRegistry) (path : String) where
  -- A file that a task of a non-empty name owns is refused to every other task, and the refusal
  -- changes nothing.
  pub acquire_lock_exclusive :
      (a b : String) (status : TaskStatus)
      → a ≢ ""
      → get_owner r path ≡ a
      → a ≢ b
      → acquire_lock r path b status ≡ (r, false)
  unfolding acquire_lock get_owner
  acquire_lock_exclusive a b status named owned other = elim (Option-cases (lookup path r.locks)) [
    | inl e ↦ absurd (named (ground arith))
    | inr (lock, e) ↦ ground (arith, ==_iff lock.task_id b)
  ]

  granted_by :
      (task : String) (status : TaskStatus) (o : Option FileLock)
      → lookup path r.locks ≡ o
      → is_terminal_status status ≡ false
      → (acquire o r path task status).1 ≡ true
      → (get_owner (acquire o r path task status).0 path ≡ task)
        ⊎ (((acquire o r path task status).0 ≡ r) × (get_owner r path ≡ ""))
  unfolding get_owner
  granted_by task status none e live g = inl (simp map_laws (ground (arith, ==_self path)))
  granted_by task status (some lock) e live g = ground (
    arith,
    ==_self path,
    ==_iff lock.task_id task,
    lookup-insert path path (record { task_id = task; status = status; acquired_at = now_millis })
        r.locks,
  )

  -- When `AcquireLock` returns true for a live status, the task owns the file from then on, or
  -- the registry is unchanged and the file is unowned: an ended lock of the same task is on it.
  pub acquire_lock_granted :
      (task : String) (status : TaskStatus)
      → is_terminal_status status ≡ false
      → (acquire_lock r path task status).1 ≡ true
      → (get_owner (acquire_lock r path task status).0 path ≡ task)
        ⊎ (((acquire_lock r path task status).0 ≡ r) × (get_owner r path ≡ ""))
  unfolding acquire_lock
  acquire_lock_granted task status live g = granted_by task status (lookup path r.locks) refl live g

  -- Of a task of a non-empty name that owns a file, `ReleaseLock` returns true; the file is then
  -- unowned, and any task can acquire it.
  pub release_lock_owned :
      (task next : String) (status : TaskStatus)
      → task ≢ ""
      → get_owner r path ≡ task
      → ((release_lock r path task).1 ≡ true)
        × (get_owner (release_lock r path task).0 path ≡ "")
        × ((acquire_lock (release_lock r path task).0 path next status).1 ≡ true)
  unfolding release_lock acquire_lock get_owner
  release_lock_owned task next status named owned = elim (Option-cases (lookup path r.locks)) [
    | inl e ↦ absurd (named (ground arith))
    | inr (lock, e) ↦
        ground (arith, ==_iff lock.task_id task, lookup-delete path path r.locks, ==_self path)
  ]

  module _ (task : String) (status : TaskStatus) (other : String) (ne : path ≢ other) where
    acquire_frame :
        (o : Option FileLock)
        → lookup other (acquire o r path task status).0.locks ≡ lookup other r.locks
    acquire_frame none = simp map_laws (ground (arith, ==_iff path other))
    acquire_frame (some lock) = ground (
      arith,
      ==_iff path other,
      lookup-insert path other
          (record { task_id = task; status = status; acquired_at = now_millis }) r.locks,
    )

    release_frame :
        (o : Option FileLock) → lookup other (release o r path task).0.locks ≡ lookup other r.locks
    release_frame none = refl
    release_frame (some lock) = ground (arith, ==_iff path other, lookup-delete path other r.locks)

    update_frame :
        (o : Option FileLock)
        → lookup other (update o r path task status).0.locks ≡ lookup other r.locks
    update_frame none = refl
    update_frame (some lock) = ground (
      arith,
      ==_iff path other,
      lookup-insert path other (record lock { status = status }) r.locks,
    )

    -- No operation on one file changes the owner of another.
    pub get_owner_frame :
        (get_owner (acquire_lock r path task status).0 other ≡ get_owner r other)
        × (get_owner (release_lock r path task).0 other ≡ get_owner r other)
        × (get_owner (update_lock_status r path task status).0 other ≡ get_owner r other)
    unfolding acquire_lock release_lock update_lock_status get_owner
    get_owner_frame = (
      ap owner (acquire_frame (lookup path r.locks)),
      ap owner (release_frame (lookup path r.locks)),
      ap owner (update_frame (lookup path r.locks)),
    )

  -- A task whose own lock on a file has ended is told that it has the file, the lock stays ended,
  -- and the next task is told that it has the file too.
  pub acquire_lock_twice :
      (a b : String) (lock : FileLock) (status : TaskStatus)
      → lookup path r.locks ≡ some lock
      → lock.task_id ≡ a
      → is_terminal_status lock.status ≡ true
      → (acquire_lock r path a status ≡ (r, true)) × ((acquire_lock r path b status).1 ≡ true)
  unfolding acquire_lock
  acquire_lock_twice a b lock status e owned ended = rw e (ground (arith, ==_iff lock.task_id a))

-- What is left of a lock when only the live ones count, or the value before it.
abbrev live_or : Option FileLock → Option FileLock → Option FileLock
live_or old none = old
live_or old (some lock) = if is_terminal_status lock.status then old else some lock

lookup-active_from :
    (path : String) (active locks : List (String × FileLock))
    → Distinct locks
    → lookup path (active_from active locks) ≡ live_or (lookup path active) (lookup path locks)
unfolding active_from lookup
lookup-active_from path active [] d = refl
lookup-active_from path active ((p, lock) ∷ rest) d =
    let ih = λ (m : List (String × FileLock)). lookup-active_from path m rest d.1 in
    elim (Bool-cases (is_terminal_status lock.status)) [
      | inl e ↦ ground (arith, ih active, ==_iff p path, lookup-eq-none_iff p rest)
      | inr e ↦ ground (
        arith,
        ih (insert p lock active),
        ==_iff p path,
        lookup-eq-none_iff p rest,
        lookup-insert p path lock active,
      )
    ]

-- When no file has two locks, `GetActiveLocks` holds exactly the live locks of the registry, and
-- `GetOwner` is a read of it.
pub get_owner-get_active_locks :
    (r : FileOwnershipRegistry) (path : String)
    → Distinct r.locks
    → (lookup path (get_active_locks r) ≡ live_or none (lookup path r.locks))
      × (get_owner r path
          ≡ elim (lookup path (get_active_locks r)) [ none ↦ "" | some lock ↦ lock.task_id ])
unfolding get_active_locks get_owner lookup
get_owner-get_active_locks r path d =
    let e : lookup path (active_from [] r.locks) ≡ live_or none (lookup path r.locks) =
      lookup-active_from path [] r.locks d in
    (e, rw e (ground arith))
