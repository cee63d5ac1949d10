-- ===== src/Orchestrator/Locks/Traces.antt =====
-- Sequences of operations on the file locks, by several tasks in any order.
use neuralgentics.Prelude.{
  String, ◌≡◌, ◌≢◌, refl, false, List, [], ◌∷◌, Option, none, some, ==_iff, lookup,
  string_comparable, lookup-insert, lookup-delete, arith, All,
}
use neuralgentics.Orchestrator.Types.{TaskStatus, FileLock, is_terminal_status}
use neuralgentics.Orchestrator.Locks.{
  FileOwnershipRegistry, acquire, release, update, now_millis, acquire_lock, release_lock,
  get_owner, update_lock_status,
}

-- A call that a task makes on a file and that changes the registry, with the status where one is
-- given. `Clear`, which drops every lock and is no call of a task, is none of them.
pub data LockCall : Type 0 where
  acquires : String → String → TaskStatus → LockCall
  releases : String → String → LockCall
  updates : String → String → TaskStatus → LockCall

abbrev pub caller : LockCall → String
caller (acquires path task status) = task
caller (releases path task) = task
caller (updates path task status) = task

pub perform : FileOwnershipRegistry → LockCall → FileOwnershipRegistry
perform r (acquires path task status) = (acquire_lock r path task status).0
perform r (releases path task) = (release_lock r path task).0
perform r (updates path task status) = (update_lock_status r path task status).0

pub perform_all : FileOwnershipRegistry → List LockCall → FileOwnershipRegistry
unfolding perform
perform_all r [] = r
perform_all r (c ∷ cs) = perform_all (perform r c) cs

-- The file's lock is live and belongs to the task.
abbrev pub Holds : FileOwnershipRegistry → String → String → Type 0
Holds r path a =
    (lock : FileLock) × (lookup path r.locks ≡ some lock)
    × (lock.task_id ≡ a)
    × (is_terminal_status lock.status ≡ false)

module _ (path a : String) (lock : FileLock) (mine : lock.task_id ≡ a)
    (live : is_terminal_status lock.status ≡ false) where
  acquire_keeps :
      (r : FileOwnershipRegistry) (p task : String) (status : TaskStatus) (o : Option FileLock)
      → lookup p r.locks ≡ o
      → a ≢ task
      → lookup path r.locks ≡ some lock
      → lookup path (acquire o r p task status).0.locks ≡ some lock
  acquire_keeps r p task status none e ne h = ground (
    arith,
    ==_iff p path,
    lookup-insert p path (record { task_id = task; status = status; acquired_at = now_millis })
        r.locks,
  )
  acquire_keeps r p task status (some l) e ne h = ground (
    arith,
    ==_iff p path,
    ==_iff l.task_id task,
    lookup-insert p path (record { task_id = task; status = status; acquired_at = now_millis })
        r.locks,
  )

  release_keeps :
      (r : FileOwnershipRegistry) (p task : String) (o : Option FileLock)
      → lookup p r.locks ≡ o
      → a ≢ task
      → lookup path r.locks ≡ some lock
      → lookup path (release o r p task).0.locks ≡ some lock
  release_keeps r p task none e ne h = h
  release_keeps r p task (some l) e ne h =
      ground (arith, ==_iff p path, ==_iff l.task_id task, lookup-delete p path r.locks)

  update_keeps :
      (r : FileOwnershipRegistry) (p task : String) (status : TaskStatus) (o : Option FileLock)
      → lookup p r.locks ≡ o
      → a ≢ task
      → lookup path r.locks ≡ some lock
      → lookup path (update o r p task status).0.locks ≡ some lock
  update_keeps r p task status none e ne h = h
  update_keeps r p task status (some l) e ne h = ground (
    arith,
    ==_iff p path,
    ==_iff l.task_id task,
    lookup-insert p path (record l { status = status }) r.locks,
  )

  perform_keeps :
      (r : FileOwnershipRegistry) (c : LockCall)
      → a ≢ caller c
      → lookup path r.locks ≡ some lock
      → lookup path (perform r c).locks ≡ some lock
  unfolding perform acquire_lock release_lock update_lock_status
  perform_keeps r (acquires p task status) ne h = acquire_keeps r p task status _ refl ne h
  perform_keeps r (releases p task) ne h = release_keeps r p task _ refl ne h
  perform_keeps r (updates p task status) ne h = update_keeps r p task status _ refl ne h

  perform_all_keeps :
      (r : FileOwnershipRegistry) (cs : List LockCall)
      → All (λ c. a ≢ caller c) cs
      → lookup path r.locks ≡ some lock
      → lookup path (perform_all r cs).locks ≡ some lock
  unfolding perform_all
  perform_all_keeps r [] ne h = h
  perform_all_keeps r (c ∷ cs) ne h =
      perform_all_keeps (perform r c) cs ne.1 (perform_keeps r c ne.0 h)

-- A live lock cannot be taken, released or changed by other tasks, whatever calls they make on
-- whatever files and in whatever order: the owner stays, and each of them is still refused.
pub lock_is_safe :
    (r : FileOwnershipRegistry) (path a b : String) (status : TaskStatus) (cs : List LockCall)
    → Holds r path a
    → All (λ c. a ≢ caller c) cs
    → a ≢ b
    → (get_owner (perform_all r cs) path ≡ a)
      × (acquire_lock (perform_all r cs) path b status ≡ (perform_all r cs, false))
unfolding get_owner acquire_lock
lock_is_safe r path a b status cs (lock, held, mine, live) others ne =
    let e : lookup path (perform_all r cs).locks ≡ some lock =
      perform_all_keeps path a lock mine live r cs others held in
    (rw e (ground arith), rw e (ground (arith, ==_iff lock.task_id b)))
