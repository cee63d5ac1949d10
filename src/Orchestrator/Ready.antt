-- ===== src/Orchestrator/Ready.antt =====
-- `FindReadyTasks` and `FindBlockedTasks` of task_runner.go.
use neuralgentics.Prelude.{
  String, ◌≡◌, ◌⊎◌, ◌↔◌, refl, Bool, true, false, not, List, [], ◌∷◌, Option, none, some, ◌==◌,
  ==_iff, string_comparable, lookup, insert, if◌then◌else◌, lookup-insert, arith, inl, inr, In,
  In-select_iff, select, String-discrete,
}
use neuralgentics.Orchestrator.Types.{
  FineGrainedTaskEntry, TaskStatus, pending, blocked, complete, task_status_comparable,
}

status_from : List (String × TaskStatus) → List FineGrainedTaskEntry → List (String × TaskStatus)
status_from m [] = m
status_from m (t ∷ ts) = status_from (insert t.id t.status m) ts

-- `statusMap`
unfoldable pub status_map : List FineGrainedTaskEntry → List (String × TaskStatus)
unfolding status_from insert
status_map tasks = status_from [] tasks

-- statusMap[id] == StatusComplete
abbrev is_complete : Option TaskStatus → Bool
is_complete none = false
is_complete (some s) = s == complete

-- The loop over the prerequisites, which breaks at the first that is not complete.
all_complete : List (String × TaskStatus) → List String → Bool
all_complete m [] = true
all_complete m (id ∷ ids) =
    let rest = all_complete m ids in if is_complete (lookup id m) then rest else false

is_ready : List (String × TaskStatus) → FineGrainedTaskEntry → Bool
unfolding all_complete
is_ready m t = if not (t.status == pending) then false else all_complete m t.depends_on

unfoldable pub find_ready_tasks : List FineGrainedTaskEntry → List FineGrainedTaskEntry
unfolding is_ready status_map
find_ready_tasks tasks = select (is_ready (status_map tasks)) tasks

unfoldable pub find_blocked_tasks : List FineGrainedTaskEntry → List FineGrainedTaskEntry
find_blocked_tasks tasks = select (λ t. t.status == blocked) tasks

is_complete_iff : (o : Option TaskStatus) → (is_complete o ≡ true) ↔ (o ≡ some complete)
is_complete_iff none = (λ h. absurd (cc h), λ h. absurd (cc h))
is_complete_iff (some s) = ground (arith, ==_iff s complete)

all_complete_iff :
    (m : List (String × TaskStatus)) (ids : List String)
    → (all_complete m ids ≡ true) ↔ ((id : String) → In id ids → lookup id m ≡ some complete)
unfolding all_complete
all_complete_iff m [] = (λ h j k. absurd k, λ h. refl)
all_complete_iff m (id ∷ ids) = (
  λ h j k. elim k [
    | inl same ↦ rw same ((is_complete_iff (lookup id m)).0 (ground arith))
    | inr later ↦ (all_complete_iff m ids).0 (ground arith) j later
  ],
  λ h. ground (
    arith,
    (is_complete_iff (lookup id m)).1 (h id (inl refl)),
    (all_complete_iff m ids).1 (λ j k. h j (inr k)),
  ),
)

status_from_entry :
    (id : String) (s : TaskStatus) (m : List (String × TaskStatus)) (ts : List FineGrainedTaskEntry)
    → lookup id (status_from m ts) ≡ some s
    → (lookup id m ≡ some s) ⊎ ((t : FineGrainedTaskEntry) × In t ts × (t.id ≡ id) × (t.status ≡ s))
unfolding status_from
status_from_entry id s m [] h = inl h
status_from_entry id s m (t ∷ ts) h = elim (status_from_entry id s (insert t.id t.status m) ts h) [
  | inl k ↦ elim (String-discrete t.id id) [
    | yes same ↦
        inr (t, inl refl, same, ground (arith, lookup-insert t.id id t.status m, ==_iff t.id id))
    | no other ↦ inl (ground (arith, lookup-insert t.id id t.status m, ==_iff t.id id))
  ]
  | inr (u, k, p, q) ↦ inr (u, inr k, p, q)
]

is_ready_iff :
    (m : List (String × TaskStatus)) (t : FineGrainedTaskEntry)
    → (is_ready m t ≡ true) ↔ ((t.status ≡ pending) × (all_complete m t.depends_on ≡ true))
unfolding is_ready
is_ready_iff m t = ground (arith, ==_iff t.status pending)

-- The tasks that are ready are those of the list that are PENDING and whose prerequisites all have
-- the status COMPLETE by the map of statuses.
pub find_ready_tasks_iff :
    (tasks : List FineGrainedTaskEntry) (t : FineGrainedTaskEntry)
    → In t (find_ready_tasks tasks) ↔ (
        In t tasks
        × (t.status ≡ pending)
        × ((id : String) → In id t.depends_on → lookup id (status_map tasks) ≡ some complete))
unfolding find_ready_tasks
find_ready_tasks_iff tasks t =
    let listed = In-select_iff (is_ready (status_map tasks)) t tasks in
    let prerequisites = all_complete_iff (status_map tasks) t.depends_on in
    let ready = is_ready_iff (status_map tasks) t in
    (
      λ h. let (k, r) = listed.0 h in let (p, c) = ready.0 r in (k, p, prerequisites.0 c),
      λ h. listed.1 (h.0, ready.1 (h.1, prerequisites.1 h.2)),
    )

-- Of a ready task every prerequisite is a task of the list that is COMPLETE: a prerequisite that
-- is not in the list, or in any other status, holds the task back.
pub ready_needs_complete :
    (tasks : List FineGrainedTaskEntry) (t : FineGrainedTaskEntry) (id : String)
    → In t (find_ready_tasks tasks)
    → In id t.depends_on
    → (u : FineGrainedTaskEntry) × In u tasks × (u.id ≡ id) × (u.status ≡ complete)
unfolding status_map lookup
ready_needs_complete tasks t id h k =
    let done = ((find_ready_tasks_iff tasks t).0 h).2 id k in
    elim (status_from_entry id complete [] tasks done) [
      | inl e ↦ absurd (no_entry e)
      | inr found ↦ found
    ]
  where
    no_entry : lookup id [] ≡ some complete → ⊥
    no_entry e = cc e
