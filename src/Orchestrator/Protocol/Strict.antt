-- ===== src/Orchestrator/Protocol/Strict.antt =====
-- protocol.go: a strict machine keeps the order of the steps.
use neuralgentics.Prelude.{
  String, ◌≡◌, ◌≢◌, ◌⊎◌, inl, inr, refl, sym, subst, ◌∙◌, true, List, [], ◌∷◌, Option, none, some,
  ◌==◌, ==_iff, string_comparable, contains, contains_iff, lookup, insert, lookup-insert, arith,
  Bool-cases, Option-cases, Result, ok, err, Result-cases,
}
use neuralgentics.Orchestrator.Protocol.{
  ProtocolStep, idle, memory_query, thought_chain, plan, delegate, git_check, quality_gates,
  improve, doc_update, memory_save, complete, protocol_step_comparable, ProtocolStep-discrete,
  StrictnessLevel, strict, lenient, standard, waived_found, after_step, ProtocolState,
  ProtocolMachine, ProtocolError, new_protocol_state, new_protocol_machine, init_state, get_state,
  recorded, enter_step, transition, advance_state, protocol_valid_transitions, stored,
  advance_found, advance, waive, apply_waiver, protocol_steps, complete_steps, remaining_steps,
  completed, complete_protocol,
}

-- The steps that are completed while the machine stands at a step: those up to it, in order.
abbrev pub Ordered : ProtocolStep → List ProtocolStep → Type 0
Ordered idle c = c ≡ []
Ordered memory_query c = c ≡ memory_query ∷ []
Ordered thought_chain c = c ≡ memory_query ∷ thought_chain ∷ []
Ordered plan c = c ≡ memory_query ∷ thought_chain ∷ plan ∷ []
Ordered delegate c = c ≡ memory_query ∷ thought_chain ∷ plan ∷ delegate ∷ []
Ordered git_check c = c ≡ memory_query ∷ thought_chain ∷ plan ∷ delegate ∷ git_check ∷ []
Ordered quality_gates c =
    c ≡ memory_query ∷ thought_chain ∷ plan ∷ delegate ∷ git_check ∷ quality_gates ∷ []
Ordered improve c =
    c ≡ memory_query ∷ thought_chain ∷ plan ∷ delegate ∷ git_check ∷ quality_gates ∷ improve ∷ []
Ordered doc_update c =
    c
    ≡ memory_query ∷ thought_chain ∷ plan ∷ delegate ∷ git_check ∷ quality_gates ∷ improve
      ∷ doc_update ∷ []
Ordered memory_save c = c ≡ protocol_steps
Ordered complete c = (c ≡ memory_query ∷ []) ⊎ (c ≡ protocol_steps)
Ordered (ProtocolStep.other s) c = ⊥

-- The step that a list of one allows.
only : (step x : ProtocolStep) → contains step (x ∷ []) ≡ true → step ≡ x
only step x h = ground (arith, ==_iff x step)

abbrev Next : List ProtocolStep → ProtocolStep → Type 0
Next c step = Ordered step (recorded step c)

unique-Next :
    (x step : ProtocolStep) (c next : List ProtocolStep)
    → ◌≡◌ {A = Option (List ProtocolStep)} (some (x ∷ [])) (some next)
    → contains step next ≡ true
    → Next c x
    → Next c step
unique-Next x step c next e h n =
    let q : x ∷ [] ≡ next = cc in
    let same : step ≡ x = only step x (subst (λ l. contains step l ≡ true) (sym q) h) in
    subst (Next c) (sym same) n

-- The first step may be followed by the second or by the end.
two-Next :
    (step : ProtocolStep) (c next : List ProtocolStep)
    → c ≡ memory_query ∷ []
    → next ≡ thought_chain ∷ complete ∷ []
    → contains step next ≡ true
    → Next c step
unfolding ProtocolStep-discrete
two-Next step c next o e h =
    elim ((contains_iff step (thought_chain ∷ complete ∷ [])).0
      (subst (λ l. contains step l ≡ true) e h)) [
        | inl q ↦ subst (Next c) (sym q) (rw o refl)
        | inr (inl q) ↦ subst (Next c) (sym q) (rw o (inl refl))
        | inr (inr q) ↦ absurd q
      ]

-- From each step, a step that is allowed keeps the order.
allowed-Ordered :
    (from step : ProtocolStep) (c next : List ProtocolStep)
    → Ordered from c
    → protocol_valid_transitions from ≡ some next
    → contains step next ≡ true
    → Next c step
unfolding protocol_valid_transitions ProtocolStep-discrete
allowed-Ordered idle step c next o e h = unique-Next memory_query step c next e h (rw o refl)
allowed-Ordered memory_query step c next o e h = two-Next step c next o (cc) h
allowed-Ordered thought_chain step c next o e h = unique-Next plan step c next e h (rw o refl)
allowed-Ordered plan step c next o e h = unique-Next delegate step c next e h (rw o refl)
allowed-Ordered delegate step c next o e h = unique-Next git_check step c next e h (rw o refl)
allowed-Ordered git_check step c next o e h = unique-Next quality_gates step c next e h (rw o refl)
allowed-Ordered quality_gates step c next o e h = unique-Next improve step c next e h (rw o refl)
allowed-Ordered improve step c next o e h = unique-Next doc_update step c next e h (rw o refl)
allowed-Ordered doc_update step c next o e h = unique-Next memory_save step c next e h (rw o refl)
allowed-Ordered memory_save step c next o e h =
    unique-Next complete step c next e h (rw o (inr refl))
allowed-Ordered complete step c next o e h = absurd (ground arith)
allowed-Ordered (ProtocolStep.other s) step c next o e h = absurd o

never_none :
    (from : ProtocolStep) (c : List ProtocolStep)
    → Ordered from c
    → protocol_valid_transitions from ≢ none
unfolding protocol_valid_transitions
never_none idle c o = λ e. cc
never_none memory_query c o = λ e. cc
never_none thought_chain c o = λ e. cc
never_none plan c o = λ e. cc
never_none delegate c o = λ e. cc
never_none git_check c o = λ e. cc
never_none quality_gates c o = λ e. cc
never_none improve c o = λ e. cc
never_none doc_update c o = λ e. cc
never_none memory_save c o = λ e. cc
never_none complete c o = λ e. cc
never_none (ProtocolStep.other s) c o = absurd o

-- The steps are completed in order, and nothing was recorded as a violation.
pub record IsOrdered (s : ProtocolState) : Type 0 where
  pub order : Ordered s.current_step s.completed_steps
  pub clean : s.violations ≡ []

transition-IsOrdered :
    (step : ProtocolStep) (s s' : ProtocolState) (next : Option (List ProtocolStep))
    → IsOrdered s
    → protocol_valid_transitions s.current_step ≡ next
    → transition strict step s next ≡ ok s'
    → IsOrdered s'
unfolding enter_step
transition-IsOrdered step s s' none v e h =
    absurd (never_none s.current_step s.completed_steps v.order e)
transition-IsOrdered step s s' (some next) v e h = elim (Bool-cases (contains step next)) [
  | inl allowed ↦
      let q : enter_step step s ≡ s' = ground arith in
      subst IsOrdered q (record {
        order = allowed-Ordered s.current_step step s.completed_steps next v.order e allowed;
        clean = v.clean;
      })
  | inr refused ↦ absurd (ground arith)
]

abbrev pub AllOrdered : ProtocolMachine → Type 0
AllOrdered m = (task : String) (s : ProtocolState) → get_state m task ≡ some s → IsOrdered s

insert-AllOrdered :
    (m : ProtocolMachine) (task : String) (s : ProtocolState)
    → AllOrdered m
    → IsOrdered s
    → AllOrdered (record m { states = insert task s m.states })
unfolding get_state
insert-AllOrdered m task s v o other t h = elim (Bool-cases (task == other)) [
  | inl same ↦ subst IsOrdered (ground (arith, lookup-insert task other s m.states)) o
  | inr differs ↦ v other t (ground (arith, lookup-insert task other s m.states))
]

module _ (m : ProtocolMachine) (level : m.strictness ≡ strict) (v : AllOrdered m) where
  stored-AllOrdered :
      (task : String) (r : Result ProtocolError ProtocolState)
      → ((s : ProtocolState) → r ≡ ok s → IsOrdered s)
      → AllOrdered (stored m task r).0
  stored-AllOrdered task (ok s) h = insert-AllOrdered m task s v (h s refl)
  stored-AllOrdered task (err e) h = v

  advance_found-AllOrdered :
      (task : String) (step : ProtocolStep) (found : Option ProtocolState)
      → get_state m task ≡ found
      → AllOrdered (advance_found m task step found).0
  unfolding advance_state
  advance_found-AllOrdered task step none e = v
  advance_found-AllOrdered task step (some s) e =
      stored-AllOrdered task (advance_state m.strictness step s) λ s' h.
        transition-IsOrdered step s s' (protocol_valid_transitions s.current_step) (v task s e) refl
          (subst (λ l. transition l step s (protocol_valid_transitions s.current_step) ≡ ok s')
            level h)

  pub advance-AllOrdered :
      (task : String) (step : ProtocolStep) → AllOrdered (advance m task step).0
  unfolding advance
  advance-AllOrdered task step = advance_found-AllOrdered task step (get_state m task) refl

strictness-advance :
    (m : ProtocolMachine) (task : String) (step : ProtocolStep)
    → (advance m task step).0.strictness ≡ m.strictness
unfolding advance
strictness-advance m task step = elim (Option-cases (get_state m task)) [
  | inl e ↦ rw e refl
  | inr (s, e) ↦ elim (Result-cases (advance_state m.strictness step s)) [
    | inl (s', k) ↦ ground arith
    | inr (x, k) ↦ ground arith
  ]
]

-- A strict machine whose states are all in order.
pub record IsStrict (m : ProtocolMachine) : Type 0 where
  pub level : m.strictness ≡ strict
  pub ordered : AllOrdered m

advance-IsStrict :
    (m : ProtocolMachine) (task : String) (step : ProtocolStep)
    → IsStrict m
    → IsStrict (advance m task step).0
advance-IsStrict m task step v = record {
  level = strictness-advance m task step ∙ v.level;
  ordered = advance-AllOrdered m v.level v.ordered task step;
}

init_state-IsStrict :
    (m : ProtocolMachine) (task : String) → IsStrict m → IsStrict (init_state m task)
unfolding init_state
init_state-IsStrict m task v = record {
  level = v.level;
  ordered =
      insert-AllOrdered m task new_protocol_state v.ordered (record { order = refl; clean = refl });
}

module _ (m : ProtocolMachine) (task : String) (v : IsStrict m) where
  waived_found-IsStrict :
      (step : ProtocolStep) (phrase : String) (found : Option ProtocolState)
      → get_state m task ≡ found
      → IsStrict (waived_found m task step phrase found)
  waived_found-IsStrict step phrase none e = v
  waived_found-IsStrict step phrase (some s) e =
      let o = v.ordered task s e in
      let w = waive step phrase s in
      advance-IsStrict (record m { states = insert task w m.states }) task step
        (record {
          level = v.level;
          ordered =
              insert-AllOrdered m task w v.ordered (record { order = o.order; clean = o.clean });
        })

  apply_waiver-IsStrict :
      (step : ProtocolStep) (phrase : String) → IsStrict (apply_waiver m task step phrase)
  unfolding apply_waiver
  apply_waiver-IsStrict step phrase = waived_found-IsStrict step phrase (get_state m task) refl

after_step-IsStrict :
    (level : StrictnessLevel) (r rest : ProtocolMachine × Option ProtocolError)
    → IsStrict r.0
    → IsStrict rest.0
    → IsStrict (after_step level r rest).0
after_step-IsStrict level (m, none) rest v w = w
after_step-IsStrict strict (m, some e) rest v w = v
after_step-IsStrict lenient (m, some e) rest v w = w
after_step-IsStrict standard (m, some e) rest v w = w
after_step-IsStrict (StrictnessLevel.other s) (m, some e) rest v w = w

complete_steps-IsStrict :
    (m : ProtocolMachine) (task : String) (steps : List ProtocolStep)
    → IsStrict m
    → IsStrict (complete_steps m task steps).0
unfolding complete_steps
complete_steps-IsStrict m task [] v = v
complete_steps-IsStrict m task (step ∷ steps) v =
    let v' = advance-IsStrict m task step v in
    let r = advance m task step in
    after_step-IsStrict m.strictness r (complete_steps r.0 task steps) v'
      (complete_steps-IsStrict r.0 task steps v')

completed-IsStrict :
    (task : String) (r : ProtocolMachine × Option ProtocolError)
    → IsStrict r.0
    → IsStrict (completed task r).0
completed-IsStrict task (m, none) v = advance-IsStrict m task complete v
completed-IsStrict task (m, some e) v = v

complete_protocol-IsStrict :
    (m : ProtocolMachine) (task : String) → IsStrict m → IsStrict (complete_protocol m task).0
unfolding complete_protocol
complete_protocol-IsStrict m task v =
    completed-IsStrict task (complete_steps m task remaining_steps)
      (complete_steps-IsStrict m task remaining_steps v)

-- A call of one of the machine's methods.
pub data MachineStep (m : ProtocolMachine) : ProtocolMachine → Type 0 where
  inits : (task : String) → MachineStep m (init_state m task)
  advances : (task : String) (step : ProtocolStep) → MachineStep m (advance m task step).0
  waives :
      (task : String) (step : ProtocolStep) (phrase : String)
      → MachineStep m (apply_waiver m task step phrase)
  completes : (task : String) → MachineStep m (complete_protocol m task).0

pub data Reachable (level : StrictnessLevel) : ProtocolMachine → Type 0 where
  fresh : Reachable level (new_protocol_machine level)
  after : {m n : ProtocolMachine} → Reachable level m → MachineStep m n → Reachable level n

step-IsStrict : {m n : ProtocolMachine} → MachineStep m n → IsStrict m → IsStrict n
step-IsStrict {m} (inits task) v = init_state-IsStrict m task v
step-IsStrict {m} (advances task step) v = advance-IsStrict m task step v
step-IsStrict {m} (waives task step phrase) v = apply_waiver-IsStrict m task v step phrase
step-IsStrict {m} (completes task) v = complete_protocol-IsStrict m task v

pub Reachable-IsStrict : {m : ProtocolMachine} → Reachable strict m → IsStrict m
unfolding new_protocol_machine get_state lookup
Reachable-IsStrict fresh = record { level = refl; ordered = λ task s h. cc }
Reachable-IsStrict (after r s) = step-IsStrict s (Reachable-IsStrict r)

-- Whatever calls of its methods a strict machine has had, for any tasks in any order, waivers
-- included: the steps that a task has completed are the first of the nine steps in their order, up
-- to the step at which it stands; at COMPLETE they are the first alone or all nine. No
-- violation is recorded.
pub strict_in_order :
    (m : ProtocolMachine) (task : String) (s : ProtocolState)
    → Reachable strict m
    → get_state m task ≡ some s
    → Ordered s.current_step s.completed_steps × (s.violations ≡ [])
strict_in_order m task s r h = let v = (Reachable-IsStrict r).ordered task s h in (v.order, v.clean)
