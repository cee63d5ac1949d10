-- ===== src/Orchestrator/Examples/Locks.antt =====
-- Runs of the file locks.
use neuralgentics.Prelude.{◌≡◌, refl, true, false, [], ◌∷◌, lookup, string_comparable}
use neuralgentics.Orchestrator.Types.{ready, active, failed, is_terminal_status}
use neuralgentics.Orchestrator.Locks.{FileOwnershipRegistry, acquire_lock, get_owner}
use neuralgentics.Orchestrator.Locks.Laws.{acquire_lock_twice}
use neuralgentics.Orchestrator.Locks.Traces.{acquires, releases, perform_all, lock_is_safe}
use neuralgentics.Orchestrator.Examples.{differ}

abbrev held : FileOwnershipRegistry
held = record { locks = ("a.go", record { task_id = "t1"; status = active; acquired_at = 0 }) ∷ [] }

abbrev ended : FileOwnershipRegistry
ended = record {
  locks = ("a.go", record { task_id = "t1"; status = failed; acquired_at = 0 }) ∷ [];
}

acquire_lock_twice_example :
    (acquire_lock ended "a.go" "t1" active ≡ (ended, true))
    × ((acquire_lock ended "a.go" "t2" active).1 ≡ true)
unfolding lookup is_terminal_status
acquire_lock_twice_example =
    acquire_lock_twice ended "a.go" "t1" "t2"
      (record { task_id = "t1"; status = failed; acquired_at = 0 }) active refl refl refl

lock_is_safe_example :
    (get_owner (perform_all held (acquires "a.go" "t2" ready ∷ releases "a.go" "t2" ∷ [])) "a.go"
      ≡ "t1")
    × (acquire_lock
          (perform_all held (acquires "a.go" "t2" ready ∷ releases "a.go" "t2" ∷ []))
          "a.go"
          "t2"
          ready
        ≡ (perform_all held (acquires "a.go" "t2" ready ∷ releases "a.go" "t2" ∷ []), false))
unfolding lookup is_terminal_status
lock_is_safe_example =
    lock_is_safe held "a.go" "t1" "t2" ready
      (acquires "a.go" "t2" ready ∷ releases "a.go" "t2" ∷ [])
      (record { task_id = "t1"; status = active; acquired_at = 0 }, refl, refl, refl)
      (differ "t1" "t2" refl, (differ "t1" "t2" refl, tt)) (differ "t1" "t2" refl)
