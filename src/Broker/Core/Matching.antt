-- ===== src/Broker/Core/Matching.antt =====
-- broker.go: MatchIntent, which asks the matcher for a tool among those that a role may call.
use neuralgentics.Prelude.{
  ℕ, true, not, List, [], ◌∷◌, ◌==◌, ==_iff, string_comparable, select, In, In-select_iff,
  if◌then◌else◌, ◌≡◌, ◌⊎◌, inl, inr, refl, sym, subst, arith, Bool-cases, Result, ok, err,
  wrap_error,
}
use neuralgentics.Broker.Transport.{ToolSummary}
use neuralgentics.Broker.Registry.{get_all_tools}
use neuralgentics.Broker.Access.{Role, can_access}
use neuralgentics.Broker.Intent.Words.{Alphabet}
use neuralgentics.Broker.Intent.{
  ToolMatch, MatchError, match_tool, score_tool, intent_tokens, less, default_threshold,
}
use neuralgentics.Broker.Intent.Scores.{◌⊑◌}
use neuralgentics.Broker.Intent.Ranking.{Judges, match_tool-Judges}
use neuralgentics.Broker.Core.{Broker, BrokerError, no_tools, no_match}

-- The tools that are considered.
unfoldable pub candidates : Broker → Role → List ToolSummary
candidates b role =
    if not (role == "")
    then select (λ t. can_access b.access role t.server) (get_all_tools b.registry)
    else get_all_tools b.registry

abbrev matched : Alphabet → List ℕ → List ToolSummary → Result BrokerError ToolMatch
matched alphabet text [] = err no_tools
matched alphabet text (t ∷ ts) = wrap_error (λ _. no_match) (match_tool alphabet (t ∷ ts) text)

unfoldable pub match_intent : Alphabet → Broker → Role → List ℕ → Result BrokerError ToolMatch
unfolding candidates
match_intent alphabet b role text = matched alphabet text (candidates b role)

-- What the broker's answer says of every registered tool that the role may call.
abbrev pub Answers : Alphabet → Broker → Role → List ℕ → Result BrokerError ToolMatch → Type 0
Answers alphabet b role text (ok best) =
    In best.tool (get_all_tools b.registry)
    × ((role ≡ "") ⊎ (can_access b.access role best.tool.server ≡ true))
    × ((tool : ToolSummary)
        → In tool (get_all_tools b.registry)
        → can_access b.access role tool.server ≡ true
        → score_tool alphabet (intent_tokens alphabet text) tool
          ⊑ score_tool alphabet (intent_tokens alphabet text) best.tool)
Answers alphabet b role text (err e) =
    (tool : ToolSummary)
    → In tool (get_all_tools b.registry)
    → can_access b.access role tool.server ≡ true
    → less (score_tool alphabet (intent_tokens alphabet text) tool) default_threshold ≡ true

module _ (alphabet : Alphabet) (b : Broker) (role : Role) (text : List ℕ) where
  In-candidates :
      (tool : ToolSummary)
      → In tool (candidates b role)
      → In tool (get_all_tools b.registry)
        × ((role ≡ "") ⊎ (can_access b.access role tool.server ≡ true))
  unfolding candidates
  In-candidates tool h = elim (Bool-cases (role == "")) [
    | inl e ↦ ground (arith, ==_iff role "")
    | inr e ↦ ground (
      arith,
      In-select_iff (λ t. can_access b.access role t.server) tool (get_all_tools b.registry),
    )
  ]

  candidates_of_In :
      (tool : ToolSummary)
      → In tool (get_all_tools b.registry)
      → can_access b.access role tool.server ≡ true
      → In tool (candidates b role)
  unfolding candidates
  candidates_of_In tool there may = elim (Bool-cases (role == "")) [
    | inl e ↦ ground arith
    | inr e ↦ ground (
      arith,
      In-select_iff (λ t. can_access b.access role t.server) tool (get_all_tools b.registry),
    )
  ]

  Answers-of_Judges :
      (tools : List ToolSummary)
      → tools ≡ candidates b role
      → (r : Result MatchError ToolMatch) → Judges alphabet (intent_tokens alphabet text) tools r
      → Answers alphabet b role text (wrap_error (λ _. no_match) r)
  Answers-of_Judges tools e (ok best) (there, value, high, most) =
      let (registered, may) = In-candidates best.tool (subst (In best.tool) e there) in
      (registered, may, λ tool t m. most tool (subst (In tool) (sym e) (candidates_of_In tool t m)))
  Answers-of_Judges tools e (err x) low =
      λ tool t m. low tool (subst (In tool) (sym e) (candidates_of_In tool t m))

  matched-Answers :
      (tools : List ToolSummary)
      → tools ≡ candidates b role
      → Answers alphabet b role text (matched alphabet text tools)
  matched-Answers [] e = λ tool t m. absurd (subst (In tool) (sym e) (candidates_of_In tool t m))
  matched-Answers (t ∷ ts) e =
      Answers-of_Judges (t ∷ ts) e (match_tool alphabet (t ∷ ts) text)
        (match_tool-Judges alphabet (t ∷ ts) text)

  -- The tool that the broker suggests is registered, stands on a server that the role may access,
  -- if a role is given, and no registered tool on a server that the role may access has
  -- a higher score; an error means that every such tool is below the threshold.
  pub match_intent-Answers : Answers alphabet b role text (match_intent alphabet b role text)
  unfolding match_intent
  match_intent-Answers = matched-Answers (candidates b role) refl
