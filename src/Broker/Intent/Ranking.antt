-- ===== src/Broker/Intent/Ranking.antt =====
-- intent/matcher.go: the match that is returned, among all the tools.
use mathlib.Core.List.{reverse, reverse-append, reverse-reverse}
use neuralgentics.Prelude.{
  ℕ, ◌*◌, ◌<◌, ◌≡◌, ◌↔◌, ◌⊎◌, inl, inr, refl, sym, subst, ap, ◌∙◌, true, List, [], ◌∷◌, ◌++◌,
  number_comparable, All, All-In, In, arith, Bool-cases, List-cases, Result, ok, err,
}
use neuralgentics.Broker.Transport.{ToolSummary}
use neuralgentics.Broker.Intent.Words.{Token, Alphabet, stem_tokens}
use neuralgentics.Broker.Intent.{
  Score, less, ToolMatch, MatchError, score_tool, scored, positive_matches, sift, sort_loop,
  limited, intent_tokens, ranked, match_all, accepted, match_tool, default_threshold,
  no_matching_tool,
}
use neuralgentics.Broker.Intent.Scores.{
  InUnit, ◌⊑◌, ⊑_of-less, ⊑_of-not-less, ⊑_trans, score_tool_bounds, Nat_cases,
}

abbrev Valued : ToolMatch → Type 0
Valued m = 0 < m.score.den

-- From the lowest score up.
abbrev Ascending : List ToolMatch → Type 0
Ascending [] = Unit
Ascending (m ∷ ms) = All (λ n. m.score ⊑ n.score) ms × Ascending ms

All-sift :
    (P : ToolMatch → Type 0) (m : ToolMatch) (ms : List ToolMatch)
    → P m
    → All P ms
    → All P (sift m ms)
unfolding sift
All-sift P m [] pm ps = (pm, tt)
All-sift P m (left ∷ ms) pm ps = elim (Bool-cases (less left.score m.score)) [
  | inl lower ↦ rw lower (ps.0, All-sift P m ms pm ps.1)
  | inr e ↦ rw e (pm, ps)
]

All-⊑_trans :
    (m left : ToolMatch) (ms : List ToolMatch)
    → 0 < left.score.den
    → m.score ⊑ left.score
    → All (λ n. left.score ⊑ n.score) ms
    → All (λ n. m.score ⊑ n.score) ms
All-⊑_trans m left [] pos h ps = tt
All-⊑_trans m left (n ∷ ms) pos h ps =
    (⊑_trans m.score left.score n.score pos h ps.0, All-⊑_trans m left ms pos h ps.1)

sift-Ascending :
    (m : ToolMatch) (ms : List ToolMatch) → All Valued ms → Ascending ms → Ascending (sift m ms)
unfolding sift
sift-Ascending m [] vs a = (tt, tt)
sift-Ascending m (left ∷ ms) vs a = elim (Bool-cases (less left.score m.score)) [
  | inl lower ↦ rw lower (
    All-sift (λ n. left.score ⊑ n.score) m ms (⊑_of-less left.score m.score lower) a.0,
    sift-Ascending m ms vs.1 a.1,
  )
  | inr e ↦
      let h = ⊑_of-not-less left.score m.score e in rw e ((h, All-⊑_trans m left ms vs.0 h a.0), a)
]

In-sift : (n m : ToolMatch) (ms : List ToolMatch) → In n (sift m ms) ↔ ((m ≡ n) ⊎ In n ms)
unfolding sift
In-sift n m [] = ground arith
In-sift n m (left ∷ ms) = elim (Bool-cases (less left.score m.score)) [
  | inl lower ↦ rw lower (ground (arith, In-sift n m ms))
  | inr e ↦ rw e (ground arith)
]

-- What the sort keeps: the order of the sorted part, and the elements of both parts.
sort_loop-Ascending :
    (sorted ms : List ToolMatch)
    → All Valued sorted
    → All Valued ms
    → Ascending sorted
    → Ascending (sort_loop sorted ms)
unfolding sort_loop
sort_loop-Ascending sorted [] vs ws a = a
sort_loop-Ascending sorted (m ∷ ms) vs ws a =
    sort_loop-Ascending (sift m sorted) ms (All-sift Valued m sorted ws.0 vs) ws.1
      (sift-Ascending m sorted vs a)

In-sort_loop :
    (n : ToolMatch) (sorted ms : List ToolMatch)
    → In n (sort_loop sorted ms) ↔ (In n sorted ⊎ In n ms)
unfolding sort_loop
In-sort_loop n sorted [] = ground arith
In-sort_loop n sorted (m ∷ ms) =
    ground (arith, In-sort_loop n (sift m sorted) ms, In-sift n m sorted)

abbrev Below : ToolMatch → ToolMatch → Type 0
Below best n = n.score ⊑ best.score

reverse-cons : (m : ToolMatch) (ms : List ToolMatch) → reverse (m ∷ ms) ≡ reverse ms ++ m ∷ []
reverse-cons m ms = reverse-append (m ∷ []) ms

-- The first of the reversed list is the highest.
reverse-top :
    (ms : List ToolMatch) (best : ToolMatch) (rest : List ToolMatch)
    → Ascending ms
    → reverse ms ≡ best ∷ rest
    → In best ms × All (Below best) ms
reverse-top [] best rest a h = absurd (cc)
reverse-top (m ∷ ms) best rest a h = elim (List-cases (reverse ms)) [
  | inl e ↦
      let nil : ms ≡ [] = sym (reverse-reverse ms) ∙ ap reverse e in
      let same : m ≡ best = cc (reverse-cons m ms, e) in rw nil (inl (sym same), (ground arith, tt))
  | inr (c, r, e) ↦
      let same : c ≡ best = cc (reverse-cons m ms, e) in
      let (found, below) = reverse-top ms c r a.1 e in
      subst (λ b. In b (m ∷ ms) × All (Below b) (m ∷ ms)) same
        (inr found, (All-In (λ n. m.score ⊑ n.score) ms c a.0 found, below))
]

accepted-limited : (ms : List ToolMatch) → accepted (limited 1 ms) ≡ accepted ms
accepted-limited [] = ground arith
accepted-limited (m ∷ ms) = ground arith

Or-right : {A : Type 0} → ⊥ ⊎ A → A
Or-right (inl e) = absurd e
Or-right (inr a) = a

module _ (alphabet : Alphabet) where
  In-positive_matches :
      (intent : List Token) (m : ToolMatch) (tools : List ToolSummary)
      → In m (positive_matches alphabet intent tools)
      → In m.tool tools × (m.score ≡ score_tool alphabet intent m.tool)
  unfolding positive_matches
  In-positive_matches intent m [] h = absurd h
  In-positive_matches intent m (tool ∷ tools) h = ground (arith, In-positive_matches intent m tools)

  positive_matches-Valued :
      (intent : List Token) (tools : List ToolSummary)
      → All Valued (positive_matches alphabet intent tools)
  unfolding positive_matches
  positive_matches-Valued intent [] = tt
  positive_matches-Valued intent (tool ∷ tools) =
      let p = (score_tool_bounds alphabet intent tool).0.positive in
      ground (arith, positive_matches-Valued intent tools)

  -- A tool that the loop passes over has a score of zero.
  scored-In :
      (intent : List Token) (tool : ToolSummary) (tools : List ToolSummary)
      → In tool tools
      → ((score_tool alphabet intent tool).num ≡ 0)
        ⊎ In (scored alphabet intent tool) (positive_matches alphabet intent tools)
  unfolding positive_matches
  scored-In intent tool [] h = absurd h
  scored-In intent tool (t ∷ tools) h = ground (arith, scored-In intent tool tools)

  -- What the matcher's verdict says of every tool.
  abbrev pub Judges : List Token → List ToolSummary → Result MatchError ToolMatch → Type 0
  Judges intent tools (ok best) =
      In best.tool tools
      × (best.score ≡ score_tool alphabet intent best.tool)
      × (default_threshold ⊑ best.score)
      × ((tool : ToolSummary)
          → In tool tools
          → score_tool alphabet intent tool ⊑ score_tool alphabet intent best.tool)
  Judges intent tools (err e) =
      (tool : ToolSummary)
      → In tool tools
      → less (score_tool alphabet intent tool) default_threshold ≡ true

  below_best :
      (intent : List Token) (tools : List ToolSummary) (best : ToolMatch)
      → All (Below best) (positive_matches alphabet intent tools)
      → (tool : ToolSummary) → In tool tools
      → score_tool alphabet intent tool ⊑ best.score
  below_best intent tools best below tool there = elim (scored-In intent tool tools there) [
    | inl z ↦ omega (arith, ap (λ (n : ℕ). n * best.score.den) z)
    | inr found ↦
        All-In (Below best) (positive_matches alphabet intent tools) (scored alphabet intent tool)
          below found
  ]

  less_of_below :
      (s best : Score)
      → InUnit s
      → s ⊑ best
      → less best default_threshold ≡ true
      → less s default_threshold ≡ true
  less_of_below s best u h low = elim (Bool-cases (less s default_threshold)) [
    | inl yes_ ↦ yes_
    | inr no_ ↦
        let t =
          ⊑_trans default_threshold s best u.positive (⊑_of-not-less s default_threshold no_) h in
        absurd (ground arith)
  ]

  zero_score-less : (s : Score) → InUnit s → s.num ≡ 0 → less s default_threshold ≡ true
  zero_score-less s u z = let p = u.positive in ground arith

  none-Judges :
      (intent : List Token) (tools : List ToolSummary)
      → positive_matches alphabet intent tools ≡ []
      → Judges intent tools (err no_matching_tool)
  none-Judges intent tools e tool there =
      let u = (score_tool_bounds alphabet intent tool).0 in
      elim (scored-In intent tool tools there) [
        | inl z ↦ zero_score-less (score_tool alphabet intent tool) u z
        | inr found ↦ absurd (subst (In (scored alphabet intent tool)) e found)
      ]

  best-Judges :
      (intent : List Token) (tools : List ToolSummary) (best : ToolMatch) (rest : List ToolMatch)
      → In best (positive_matches alphabet intent tools)
      → All (Below best) (positive_matches alphabet intent tools)
      → Judges intent tools (accepted (best ∷ rest))
  best-Judges intent tools best rest found below =
      let (there, value) = In-positive_matches intent best tools found in
      elim (Bool-cases (less best.score default_threshold)) [
        | inl low ↦ rw low (λ tool t.
            less_of_below (score_tool alphabet intent tool) best.score
              (score_tool_bounds alphabet intent tool).0 (below_best intent tools best below tool t)
              low)
        | inr high ↦ rw high (
          there,
          value,
          ⊑_of-not-less best.score default_threshold high,
          λ tool t.
              subst (λ s. score_tool alphabet intent tool ⊑ s) value
                (below_best intent tools best below tool t),
        )
      ]

  All-of_In :
      (P : ToolMatch → Type 0) (ms : List ToolMatch) → ((m : ToolMatch) → In m ms → P m) → All P ms
  All-of_In P [] h = tt
  All-of_In P (m ∷ ms) h = (h m (inl refl), All-of_In P ms (λ n i. h n (inr i)))

  sorted-Judges :
      (intent : List Token) (tools : List ToolSummary)
      → Judges intent tools
          (accepted (reverse (sort_loop [] (positive_matches alphabet intent tools))))
  sorted-Judges intent tools =
      let pm = positive_matches alphabet intent tools in
      let ms = sort_loop [] pm in
      elim (List-cases (reverse ms)) [
        | inl e ↦
            let nil : ms ≡ [] = sym (reverse-reverse ms) ∙ ap reverse e in
            rw e (
              none-Judges intent tools (elim (List-cases pm) [
                | inl empty ↦ empty
                | inr (m, r, full) ↦ absurd (
                    subst (In m) nil
                      ((In-sort_loop m [] pm).1 (inr (subst (In m) (sym full) (inl refl)))))
              ]))
        | inr (best, rest, e) ↦
            let (found, below) =
              reverse-top ms best rest
                (sort_loop-Ascending [] pm tt (positive_matches-Valued intent tools) tt) e in
            rw e (
              best-Judges intent tools best rest (Or-right ((In-sort_loop best [] pm).0 found)) (
                All-of_In (Below best) pm
                  (λ m i. All-In (Below best) ms m below ((In-sort_loop m [] pm).1 (inr i)))))
      ]

  ranked-Judges :
      (intent : List Token) (tools : List ToolSummary)
      → Judges intent tools (accepted (ranked alphabet intent tools 1))
  unfolding stem_tokens
  ranked-Judges [] tools = λ tool there.
      let b = score_tool_bounds alphabet [] tool in
      zero_score-less (score_tool alphabet [] tool) b.0
        (elim (Nat_cases (score_tool alphabet [] tool).num) [
          | inl z ↦ z
          | inr pos ↦ absurd ((b.1.0 pos).1)
        ])
  ranked-Judges (t ∷ ts) tools =
      subst (Judges (t ∷ ts) tools)
        (sym (accepted-limited (reverse (sort_loop [] (positive_matches alphabet (t ∷ ts) tools)))))
        (sorted-Judges (t ∷ ts) tools)

  -- `Match` returns a tool of the list that reaches the threshold and whose score no tool of the
  -- list exceeds; it fails only if every tool of the list has a score below the threshold.
  pub match_tool-Judges :
      (tools : List ToolSummary) (text : List ℕ)
      → Judges (intent_tokens alphabet text) tools (match_tool alphabet tools text)
  unfolding match_tool match_all
  match_tool-Judges tools text = ranked-Judges (intent_tokens alphabet text) tools
