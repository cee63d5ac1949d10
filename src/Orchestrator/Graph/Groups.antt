-- ===== src/Orchestrator/Graph/Groups.antt =====
-- The parallel groups: which tasks they hold, and at which depths.
use neuralgentics.Prelude.{
  ℕ, zero, suc, subst, ◌+◌, ◌≤◌, ◌<◌, String, ◌≡◌, ◌⊎◌, ◌↔◌, refl, List, [], ◌∷◌, some, ◌==◌,
  ==_iff, string_comparable, number_comparable, lookup, arith, Bool-cases, inl, inr, In,
  In-select_iff, select, All, All-In,
}
use neuralgentics.Orchestrator.Types.{FineGrainedTaskEntry}
use neuralgentics.Orchestrator.Graph.{
  DepsMap, task_map, fuel_for, DepthState, done, larger, compute_depth, compute_all,
  get_parallel_groups, groups_from, max_depth, fresh_state, at_depth, nonempty,
}
use neuralgentics.Orchestrator.Graph.Depth.{
  Depth, >>=-eq-done, Ends, Ends-bind, Ends-imp, IsRight, compute_depth-Depth,
}
use neuralgentics.Orchestrator.Graph.Frame.{
  Grows, Grows-IsFrame, compute_depth_frame, compute_depth_stores, Ends-and,
}

-- Every task has a stored depth, and the stored depths are right.
abbrev HasDepths : DepsMap → List FineGrainedTaskEntry → DepthState → Type 0
HasDepths m ts st =
    (t : FineGrainedTaskEntry)
    → In t ts
    → (d : ℕ) × (lookup t.id st.depths ≡ some d) × Depth m t.id d

module _ (m : DepsMap) where
  has_depths :
      (t : FineGrainedTaskEntry) (ts : List FineGrainedTaskEntry) (st : DepthState)
      → IsRight m st
      → (e : ℕ) × (lookup t.id st.depths ≡ some e)
      → HasDepths m ts st
      → HasDepths m (t ∷ ts) st
  has_depths t ts st right (e, k) h u (inl same) = (e, rw same k, rw same (right.stored t.id e k))
  has_depths t ts st right k h u (inr later) = h u later

  compute_all-HasDepths :
      (fuel : ℕ) (ts : List FineGrainedTaskEntry) (st : DepthState)
      → IsRight m st
      → Ends (compute_all fuel m ts st) (λ st'. IsRight m st' × Grows st st' × HasDepths m ts st')
  unfolding compute_all
  compute_all-HasDepths fuel [] st h = (h, (λ id d k. (d, k)), (λ t k. absurd k))
  compute_all-HasDepths fuel (t ∷ ts) st h =
      let call = compute_depth fuel m t.id st in
      Ends-bind
        (λ r.
          ((Depth m t.id r.0 × IsRight m r.1) × Grows st r.1) × (lookup t.id r.1.depths ≡ some r.0))
        (λ st'. IsRight m st' × Grows st st' × HasDepths m (t ∷ ts) st') call
        (λ r. compute_all fuel m ts r.1)
        (Ends-and (λ r. (Depth m t.id r.0 × IsRight m r.1) × Grows st r.1) _ call
          (Ends-and (λ r. Depth m t.id r.0 × IsRight m r.1) _ call
            (compute_depth-Depth m fuel t.id st h)
            (compute_depth_frame m Grows Grows-IsFrame fuel t.id st))
          (compute_depth_stores m fuel t.id st))
        λ r p.
          Ends-imp (λ st'. IsRight m st' × Grows r.1 st' × HasDepths m ts st')
            (λ st'. IsRight m st' × Grows st st' × HasDepths m (t ∷ ts) st')
            (compute_all fuel m ts r.1) (compute_all-HasDepths fuel ts r.1 p.0.0.1)
            λ st' q. (
              q.0,
              Grows-IsFrame.then_ st r.1 st' p.0.1 q.1,
              has_depths t ts st' q.0 (q.1 t.id r.0 p.1) q.2,
            )

-- Each group has one depth, and the depths rise from group to group.
abbrev pub Layers : DepsMap → ℕ → List (List FineGrainedTaskEntry) → Type 0
Layers m lo [] = Unit
Layers m lo (g ∷ gs) = (d : ℕ) × (lo ≤ d) × All (λ t. Depth m t.id d) g × Layers m (suc d) gs

abbrev pub InGroups : FineGrainedTaskEntry → List (List FineGrainedTaskEntry) → Type 0
InGroups t [] = ⊥
InGroups t (g ∷ gs) = In t g ⊎ InGroups t gs

Layers-le :
    (m : DepsMap) (lo hi : ℕ) (gs : List (List FineGrainedTaskEntry))
    → lo ≤ hi
    → Layers m hi gs
    → Layers m lo gs
Layers-le m lo hi [] h l = tt
Layers-le m lo hi (g ∷ gs) h (d, p, q, r) = (d, omega arith, q, r)

nonempty-Layers :
    (m : DepsMap) (d : ℕ) (g : List FineGrainedTaskEntry) (gs : List (List FineGrainedTaskEntry))
    → All (λ t. Depth m t.id d) g
    → Layers m (suc d) gs
    → Layers m d (nonempty g gs)
nonempty-Layers m d [] gs h l = Layers-le m d (suc d) gs (omega arith) l
nonempty-Layers m d (t ∷ ts) gs h l = (d, omega arith, h, l)

InGroups-nonempty_iff :
    (t : FineGrainedTaskEntry) (g : List FineGrainedTaskEntry)
    (gs : List (List FineGrainedTaskEntry))
    → InGroups t (nonempty g gs) ↔ (In t g ⊎ InGroups t gs)
InGroups-nonempty_iff t [] gs = (λ h. inr h, elim [ inl h ↦ absurd h | inr h ↦ h ])
InGroups-nonempty_iff t (u ∷ us) gs = (λ h. h, λ h. h)

module _ (m : DepsMap) (st : DepthState) where
  select-Depth :
      (d : ℕ) (ts : List FineGrainedTaskEntry)
      → HasDepths m ts st
      → All (λ t. Depth m t.id d) (select (at_depth st.depths d) ts)
  select-Depth d [] h = tt
  select-Depth d (t ∷ ts) h =
      let (e, stored, deep) = h t (inl refl) in
      let rest = select-Depth d ts (λ u k. h u (inr k)) in
      elim (Bool-cases (at_depth st.depths d t)) [
        | inl here ↦
            let same : e ≡ d = ground (arith, ==_iff e d) in
            rw (here, select) (subst (Depth m t.id) same deep, rest)
        | inr elsewhere ↦ rw (elsewhere, select) rest
      ]

  groups_from-Layers :
      (ts : List FineGrainedTaskEntry) (d rounds : ℕ)
      → HasDepths m ts st
      → Layers m d (groups_from ts st.depths d rounds)
  unfolding groups_from
  groups_from-Layers ts d zero h = tt
  groups_from-Layers ts d (suc rounds) h =
      nonempty-Layers m d (select (at_depth st.depths d) ts)
        (groups_from ts st.depths (suc d) rounds) (select-Depth d ts h)
        (groups_from-Layers ts (suc d) rounds h)

  InGroups-groups_from :
      (ts : List FineGrainedTaskEntry) (t : FineGrainedTaskEntry) (e d rounds : ℕ)
      → lookup t.id st.depths ≡ some e
      → In t ts
      → d ≤ e
      → e < d + rounds
      → InGroups t (groups_from ts st.depths d rounds)
  unfolding groups_from
  InGroups-groups_from ts t e d zero k h p q = absurd (omega arith)
  InGroups-groups_from ts t e d (suc rounds) k h p q =
      (InGroups-nonempty_iff t (select (at_depth st.depths d) ts)
          (groups_from ts st.depths (suc d) rounds)).1
        (elim (Bool-cases (e == d)) [
          | inl same ↦ inl ((In-select_iff (at_depth st.depths d) t ts).1 (h, rw k same))
          | inr more ↦
              inr (InGroups-groups_from ts t e (suc d) rounds k h (ground arith) (omega arith))
        ])

In-of_InGroups :
    (ts : List FineGrainedTaskEntry) (depths : List (String × ℕ)) (t : FineGrainedTaskEntry)
    (d rounds : ℕ)
    → InGroups t (groups_from ts depths d rounds)
    → In t ts
unfolding groups_from
In-of_InGroups ts depths t d zero h = absurd h
In-of_InGroups ts depths t d (suc rounds) h =
    elim ((InGroups-nonempty_iff t (select (at_depth depths d) ts)
        (groups_from ts depths (suc d) rounds)).0
      h) [
        | inl here ↦ ((In-select_iff (at_depth depths d) t ts).0 here).0
        | inr later ↦ In-of_InGroups ts depths t (suc d) rounds later
      ]

le-max_depth : (a : ℕ) (l : List (String × ℕ)) → a ≤ max_depth a l
unfolding max_depth
le-max_depth a [] = omega arith
le-max_depth a ((id, d) ∷ l) = ground (arith, le-max_depth (larger a d) l)

lookup-le-max_depth :
    (id : String) (e a : ℕ) (l : List (String × ℕ)) → lookup id l ≡ some e → e ≤ max_depth a l
unfolding max_depth lookup
lookup-le-max_depth id e a [] h = cc
lookup-le-max_depth id e a ((j, d) ∷ l) h =
    ground (arith, lookup-le-max_depth id e (larger a d) l, le-max_depth (larger a d) l)

abbrev Grouped : List FineGrainedTaskEntry → List (List FineGrainedTaskEntry) → Type 0
Grouped tasks groups =
    ((t : FineGrainedTaskEntry) → InGroups t groups ↔ In t tasks) × Layers (task_map tasks) 0 groups

groups_from-Grouped :
    (tasks : List FineGrainedTaskEntry) (st : DepthState)
    → HasDepths (task_map tasks) tasks st
    → Grouped tasks (groups_from tasks st.depths 0 (suc (max_depth 0 st.depths)))
groups_from-Grouped tasks st h = (
  λ t. (
    In-of_InGroups tasks st.depths t 0 (suc (max_depth 0 st.depths)),
    λ k.
        let (e, stored, deep) = h t k in
        InGroups-groups_from (task_map tasks) st tasks t e 0 (suc (max_depth 0 st.depths)) stored k
          (omega arith) (omega (arith, lookup-le-max_depth t.id e 0 st.depths stored)),
  ),
  groups_from-Layers (task_map tasks) st tasks 0 (suc (max_depth 0 st.depths)) h,
)

fresh_state-IsRight : (m : DepsMap) → IsRight m fresh_state
unfolding lookup
fresh_state-IsRight m = record { stored = λ id d p. absurd (cc p) }

-- When `GetParallelGroups` succeeds, its groups hold exactly the given tasks; the tasks of a group
-- have one depth, and the depths rise from group to group.
pub get_parallel_groups_sound :
    (tasks : List FineGrainedTaskEntry) (groups : List (List FineGrainedTaskEntry))
    → get_parallel_groups tasks ≡ done groups
    → ((t : FineGrainedTaskEntry) → InGroups t groups ↔ In t tasks)
      × Layers (task_map tasks) 0 groups
unfolding get_parallel_groups
get_parallel_groups_sound [] groups h =
    let e : [] ≡ groups = cc in subst (Grouped []) e ((λ t. (λ k. k, λ k. k)), tt)
get_parallel_groups_sound (t ∷ ts) groups h =
    let m = task_map (t ∷ ts) in
    let all = compute_all (fuel_for m) m (t ∷ ts) fresh_state in
    let (st, e, k) = >>=-eq-done all _ groups h in
    let found : IsRight m st × Grows fresh_state st × HasDepths m (t ∷ ts) st =
      subst (λ o. Ends o (λ s. IsRight m s × Grows fresh_state s × HasDepths m (t ∷ ts) s)) e
        (compute_all-HasDepths m (fuel_for m) (t ∷ ts) fresh_state (fresh_state-IsRight m)) in
    let same : groups_from (t ∷ ts) st.depths 0 (suc (max_depth 0 st.depths)) ≡ groups = cc in
    subst (Grouped (t ∷ ts)) same (groups_from-Grouped (t ∷ ts) st found.2)

InGroups-Depth :
    (m : DepsMap) (lo : ℕ) (t : FineGrainedTaskEntry) (gs : List (List FineGrainedTaskEntry))
    → Layers m lo gs
    → InGroups t gs
    → (d : ℕ) × Depth m t.id d
InGroups-Depth m lo t [] l h = absurd h
InGroups-Depth m lo t (g ∷ gs) (d, p, deep, rest) (inl h) =
    (d, All-In (λ u. Depth m u.id d) g t deep h)
InGroups-Depth m lo t (g ∷ gs) (d, p, deep, rest) (inr h) = InGroups-Depth m (suc d) t gs rest h

-- After a success every task has a depth.
pub has-Depth :
    (tasks : List FineGrainedTaskEntry) (groups : List (List FineGrainedTaskEntry))
    (t : FineGrainedTaskEntry)
    → get_parallel_groups tasks ≡ done groups
    → In t tasks
    → (d : ℕ) × Depth (task_map tasks) t.id d
has-Depth tasks groups t ok h =
    let sound = get_parallel_groups_sound tasks groups ok in
    InGroups-Depth (task_map tasks) 0 t groups sound.1 ((sound.0 t).1 h)
