-- ===== src/Orchestrator/Protocol/Cycle.antt =====
-- protocol.go: a whole run of the protocol for one task, and a waiver that blocks it.
use neuralgentics.Prelude.{
  sym, subst, ℕ, take, drop, String, ◌≡◌, refl, ap, ◌∙◌, List, [], ◌∷◌, none, some, ==_iff, ==_self,
  string_comparable, lookup, insert, lookup-insert, arith, ok, err,
}
use neuralgentics.Orchestrator.Protocol.{
  ProtocolStep, idle, memory_query, thought_chain, plan, delegate, git_check, quality_gates,
  improve, doc_update, memory_save, complete, protocol_step_comparable, ProtocolStep-discrete,
  StrictnessLevel, strict, lenient, standard, ProtocolState, ProtocolMachine, invalid_transition,
  init_state, get_state, enter_step, transition, advance_state, protocol_valid_transitions, stored,
  advance_found, advance, waive, waived_found, apply_waiver, protocol_steps, after_step,
  complete_steps, remaining_steps, completed, complete_protocol, enforce_found, enforce,
  missing_steps, is_done, blocked,
}

unblocked : (level : StrictnessLevel) (s : ProtocolState) → blocked level s [] ≡ ok s
unblocked strict s = refl
unblocked lenient s = refl
unblocked standard s = refl
unblocked (StrictnessLevel.other t) s = refl

-- The machine with the state of one task replaced.
abbrev pub put : ProtocolMachine → String → ProtocolState → ProtocolMachine
put m task s = record m { states = insert task s m.states }

insert-insert :
    {V : Type 0} (k : String) (v w : V) (entries : List (String × V))
    → insert k w (insert k v entries) ≡ insert k w entries
unfolding insert
insert-insert k v w [] = ground (arith, ==_self k)
insert-insert k v w ((j, old) ∷ entries) =
    ground (arith, ==_self k, ==_iff j k, insert-insert k v w entries)

module _ (m : ProtocolMachine) (task : String) where
  get_state-put : (s : ProtocolState) → get_state (put m task s) task ≡ some s
  unfolding get_state
  get_state-put s = ground (arith, lookup-insert task task s m.states, ==_self task)

  put-put : (s t : ProtocolState) → put (put m task s) task t ≡ put m task t
  put-put s t = ap (λ states. record m { states = states }) (insert-insert task s t m.states)

  module _ (step : ProtocolStep) (s s' : ProtocolState)
      (next : advance_state m.strictness step s ≡ ok s') where
    advance-put : advance (put m task s) task step ≡ (put m task s', none)
    unfolding advance
    advance-put =
        ap (advance_found (put m task s) task step) (get_state-put s)
        ∙ ap (stored (put m task s) task) next
        ∙ ap (λ x. (x, none)) (put-put s s')

    complete_steps-put :
        (steps : List ProtocolStep)
        → complete_steps (put m task s) task (step ∷ steps)
          ≡ complete_steps (put m task s') task steps
    unfolding complete_steps
    complete_steps-put steps =
        ap (λ r. after_step m.strictness r (complete_steps r.0 task steps)) advance-put

abbrev pub at_step : ProtocolStep → List ProtocolStep → ProtocolState
at_step step done = record {
  current_step = step;
  completed_steps = done;
  violations = [];
  waived_steps = [];
}

abbrev pub delegated : ProtocolState
delegated = at_step delegate (memory_query ∷ thought_chain ∷ plan ∷ delegate ∷ [])

-- The state of a task whose nine steps were completed in their order.
abbrev pub finished : ProtocolState
finished = at_step complete protocol_steps

-- The calls that `HandleTask` makes before a task is delegated.
abbrev pub prepared : ProtocolMachine → String → ProtocolMachine
prepared m task =
    let m0 = init_state m task in
    let m1 = (advance m0 task memory_query).0 in
    let m2 = (advance m1 task thought_chain).0 in
    let m3 = (advance m2 task plan).0 in (advance m3 task delegate).0

module _ (m : ProtocolMachine) (task : String) where
  -- One allowed step of the run, from a state without violations and waivers.
  steps_to :
      (from step : ProtocolStep) (done done' : List ProtocolStep)
      → advance_state m.strictness step (at_step from done) ≡ ok (at_step step done')
      → (advance (put m task (at_step from done)) task step).0 ≡ put m task (at_step step done')
  steps_to from step done done' h =
      ap (λ r. r.0) (advance-put m task step (at_step from done) (at_step step done') h)

  pub prepared_lem : prepared m task ≡ put m task delegated
  unfolding init_state advance_state protocol_valid_transitions enter_step ProtocolStep-discrete
  prepared_lem =
      ap (λ n. (advance (advance (advance n task thought_chain).0 task plan).0 task delegate).0)
        (steps_to idle memory_query [] _ refl)
      ∙ ap (λ n. (advance (advance n task plan).0 task delegate).0)
          (steps_to memory_query thought_chain _ _ refl)
      ∙ ap (λ n. (advance n task delegate).0) (steps_to thought_chain plan _ _ refl)
      ∙ steps_to plan delegate _ _ refl

  -- One allowed step of the loop of `CompleteProtocol`.
  loop_to :
      (from step : ProtocolStep) (done done' steps : List ProtocolStep)
      → advance_state m.strictness step (at_step from done) ≡ ok (at_step step done')
      → complete_steps (put m task (at_step from done)) task (step ∷ steps)
        ≡ complete_steps (put m task (at_step step done')) task steps
  loop_to from step done done' steps h =
      complete_steps-put m task step (at_step from done) (at_step step done') h steps

  saved : ProtocolState
  saved = at_step memory_save protocol_steps

  complete_steps_lem :
      complete_steps (put m task delegated) task remaining_steps ≡ (put m task saved, none)
  unfolding advance_state protocol_valid_transitions enter_step ProtocolStep-discrete complete_steps
      saved
  complete_steps_lem =
      let done = λ (n : ℕ). take n protocol_steps in
      let left = λ (n : ℕ). drop n remaining_steps in
      loop_to delegate git_check (done 4) (done 5) (left 1) refl
      ∙ loop_to git_check quality_gates (done 5) (done 6) (left 2) refl
      ∙ loop_to quality_gates improve (done 6) (done 7) (left 3) refl
      ∙ loop_to improve doc_update (done 7) (done 8) (left 4) refl
      ∙ loop_to doc_update memory_save (done 8) (done 9) [] refl

  enforce-put : (s : ProtocolState) → missing_steps s ≡ [] → enforce (put m task s) task ≡ ok s
  unfolding enforce
  enforce-put s none_missing =
      ap (enforce_found m.strictness task) (get_state-put m task s)
      ∙ ap (blocked m.strictness s) none_missing
      ∙ unblocked m.strictness s

  pub complete_protocol_lem :
      complete_protocol (put m task delegated) task ≡ (put m task finished, ok finished)
  unfolding complete_protocol saved advance_state protocol_valid_transitions enter_step
      ProtocolStep-discrete missing_steps is_done lookup
  complete_protocol_lem =
      ap (completed task) complete_steps_lem
      ∙ ap (λ n. (n, enforce n task))
          (steps_to memory_save complete protocol_steps protocol_steps refl)
      ∙ ap (λ r. (put m task finished, r)) (enforce-put finished refl)

  -- On a machine of any strictness, with any other tasks: a task that is taken through the first
  -- four steps and is then completed ends at COMPLETE with all nine steps in their order and no
  -- violation, the protocol is not blocked, and the states of other tasks are as they were.
  pub complete_protocol-prepared :
      complete_protocol (prepared m task) task ≡ (put m task finished, ok finished)
  complete_protocol-prepared =
      ap (λ n. complete_protocol n task) prepared_lem ∙ complete_protocol_lem

module _ (m : ProtocolMachine) (task phrase : String) (s : ProtocolState) where
  abbrev waived : ProtocolState
  waived = enter_step git_check (waive git_check phrase s)

  waiver_allowed :
      (level : StrictnessLevel)
      → s.current_step ≡ delegate
      → advance_state level git_check (waive git_check phrase s) ≡ ok waived
  unfolding advance_state protocol_valid_transitions ProtocolStep-discrete
  waiver_allowed level e =
      let w = waive git_check phrase s in
      ap (λ from. transition level git_check w (protocol_valid_transitions from)) e

  waiver_lands :
      get_state m task ≡ some s
      → s.current_step ≡ delegate
      → apply_waiver m task git_check phrase ≡ put m task waived
  unfolding apply_waiver
  waiver_lands found standing =
      ap (waived_found m task git_check phrase) found
      ∙ ap (λ r. r.0)
          (advance-put m task git_check (waive git_check phrase s) waived
            (waiver_allowed m.strictness standing))

  refused_twice :
      m.strictness ≡ strict
      → advance (put m task waived) task git_check
        ≡ (put m task waived, some (invalid_transition git_check git_check))
  unfolding advance advance_state protocol_valid_transitions enter_step ProtocolStep-discrete
  refused_twice level =
      ap (advance_found (put m task waived) task git_check) (get_state-put m task waived)
      ∙ ap (λ l. stored (put m task waived) task (advance_state l git_check waived)) level

  -- A strict machine refuses `CompleteProtocol` for a task whose git check was waived while it stood
  -- at DELEGATE: the error names the transition from GIT_CHECK, to which the waiver has moved the
  -- task, to GIT_CHECK, and the machine is as it was before that call, so that a second call is
  -- refused, too. Calls of `Advance` between the two are not considered.
  pub waived_git_check_blocks :
      m.strictness ≡ strict
      → get_state m task ≡ some s
      → s.current_step ≡ delegate
      → complete_protocol (apply_waiver m task git_check phrase) task
        ≡ (apply_waiver m task git_check phrase, err (invalid_transition git_check git_check))
  unfolding complete_protocol complete_steps
  waived_git_check_blocks level found standing =
      let n = put m task waived in
      let steps = quality_gates ∷ improve ∷ doc_update ∷ memory_save ∷ [] in
      subst (λ x. complete_protocol x task ≡ (x, err (invalid_transition git_check git_check)))
        (sym (waiver_lands found standing))
        (ap (λ r. completed task (after_step m.strictness r (complete_steps r.0 task steps)))
            (refused_twice level)
          ∙ ap
              (λ l. completed task (
                after_step l (n, some (invalid_transition git_check git_check))
                  (complete_steps n task steps)))
              level)
