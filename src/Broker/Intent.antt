-- ===== src/Broker/Intent.antt =====
-- intent/matcher.go: which tool an intent asks for. A token is a list of code points; the tables of
-- the package unicode are parameters. A score is the exact fraction that the code rounds to a
-- float64.
pub mod Words
pub mod Scores
pub mod Ranking
use neuralgentics.Prelude.{
  ℕ, zero, suc, ◌+◌, ◌-◌, ◌*◌, String, Bool, true, false, not, List, [], ◌∷◌, ◌++◌, ◌==◌, ◌&&◌,
  ◌||◌, contains, length, take, map, select, ltb, if◌then◌else◌, Result, ok, err, number_comparable,
}
use mathlib.Core.List.{reverse}
use neuralgentics.Broker.Transport.{ToolSummary}
use neuralgentics.Broker.Intent.Words.{
  Token, Alphabet, token_comparable, codes, tokenize, remove_stop_words, stem_tokens,
  contains_token,
}

pub record Score : Type 0 where
  pub num : ℕ
  pub den : ℕ

abbrev pub zero_score : Score
zero_score = record { num = 0; den = 1 }

abbrev pub one_score : Score
one_score = record { num = 1; den = 1 }

-- a < b
abbrev pub less : Score → Score → Bool
less a b = ltb (a.num * b.den) (b.num * a.den)

-- DefaultThreshold: 0.2
abbrev pub default_threshold : Score
default_threshold = record { num = 1; den = 5 }

-- The keys of the map that the loop over the tokens fills.
distinct : List Token → List Token
distinct [] = []
distinct (t ∷ ts) = let rest = distinct ts in if contains t rest then rest else t ∷ rest

shared : List Token → List Token → List Token
shared a b = select (λ t. contains t a) b

abbrev union_size : List Token → List Token → ℕ
union_size a b = length (distinct a) + length b - length (shared a b)

unfoldable pub jaccard_similarity : List Token → List Token → Score
unfolding distinct shared
jaccard_similarity a b =
    if union_size a b == 0
    then zero_score
    else record { num = length (shared a b); den = union_size a b }

any_overlap : Token → List Token → Bool
any_overlap t [] = false
any_overlap t (n ∷ names) = contains_token n t || contains_token t n || any_overlap t names

-- One round of the loop over the tokens of the intent; a substring counts while nothing has matched.
name_matched : List Token → ℕ → Token → ℕ
unfolding any_overlap
name_matched names matched t =
    let m = if contains t names then matched + 1 else matched in
    if (m == 0) && any_overlap t names then m + 1 else m

count_matches : List Token → ℕ → List Token → ℕ
unfolding name_matched
count_matches names matched [] = matched
count_matches names matched (t ∷ ts) = count_matches names (name_matched names matched t) ts

-- The bonus is a twentieth of the count.
unfoldable pub exact_name_match_bonus : List Token → List Token → ℕ
unfolding count_matches
exact_name_match_bonus intent names = count_matches names 0 intent

abbrev plus_bonus : Score → ℕ → Score
plus_bonus s matches = record { num = 20 * s.num + matches * s.den; den = 20 * s.den }

-- Cap at 1.0.
abbrev capped : Score → Score
capped s = if less one_score s then one_score else s

-- What the reason says: the number of name matches, and the stems that both sides have.
pub record Reason : Type 0 where
  pub name_matches : ℕ
  pub matched_stems : List Token

pub record ToolMatch : Type 0 where
  pub tool : ToolSummary
  pub score : Score
  pub reason : Reason

pub data MatchError : Type 0 where
  no_matching_tool below_threshold : MatchError

module _ (alphabet : Alphabet) where
  abbrev pub name_tokens : ToolSummary → List Token
  name_tokens tool = tokenize alphabet (codes tool.name)

  abbrev pub tool_tokens : ToolSummary → List Token
  tool_tokens tool =
      name_tokens tool ++ remove_stop_words (tokenize alphabet (codes tool.description))

  abbrev base_score : List Token → ToolSummary → Score
  base_score intent tool = jaccard_similarity (stem_tokens intent) (stem_tokens (tool_tokens tool))

  unfoldable pub score_tool : List Token → ToolSummary → Score
  unfolding jaccard_similarity exact_name_match_bonus
  score_tool intent tool =
      if (base_score intent tool).num == 0
      then zero_score
      else capped
          (plus_bonus (base_score intent tool) (exact_name_match_bonus intent (name_tokens tool)))

  unfoldable pub match_reason : List Token → ToolSummary → Reason
  unfolding shared
  match_reason intent tool = record {
    name_matches = exact_name_match_bonus intent (name_tokens tool);
    matched_stems = shared (stem_tokens intent) (stem_tokens (tool_tokens tool));
  }

  abbrev pub scored : List Token → ToolSummary → ToolMatch
  scored intent tool = record {
    tool = tool;
    score = score_tool intent tool;
    reason = match_reason intent tool;
  }

  -- The loop over the tools.
  positive_matches : List Token → List ToolSummary → List ToolMatch
  positive_matches intent [] = []
  positive_matches intent (tool ∷ tools) =
      let rest = positive_matches intent tools in
      if (score_tool intent tool).num == 0 then rest else scored intent tool ∷ rest

-- The inner loop of the sort: a match moves before those of a lower score, from the right; the list
-- is the sorted part, its last element first.
sift : ToolMatch → List ToolMatch → List ToolMatch
sift m [] = m ∷ []
sift m (left ∷ ms) =
    let moved = sift m ms in if less left.score m.score then left ∷ moved else m ∷ left ∷ ms

sort_loop : List ToolMatch → List ToolMatch → List ToolMatch
unfolding sift
sort_loop sorted [] = sorted
sort_loop sorted (m ∷ ms) = sort_loop (sift m sorted) ms

abbrev limited : ℕ → List ToolMatch → List ToolMatch
limited zero ms = ms
limited (suc n) ms = if ltb (suc n) (length ms) then take (suc n) ms else ms

abbrev accepted : List ToolMatch → Result MatchError ToolMatch
accepted [] = err no_matching_tool
accepted (best ∷ _) = if less best.score default_threshold then err below_threshold else ok best

module _ (alphabet : Alphabet) where
  abbrev pub intent_tokens : List ℕ → List Token
  intent_tokens intent = remove_stop_words (tokenize alphabet intent)

  abbrev ranked : List Token → List ToolSummary → ℕ → List ToolMatch
  ranked [] tools limit = []
  ranked (t ∷ ts) tools limit =
      limited limit (reverse (sort_loop [] (positive_matches alphabet (t ∷ ts) tools)))

  unfoldable pub match_all : List ToolSummary → List ℕ → ℕ → List ToolMatch
  unfolding positive_matches sort_loop
  match_all tools intent limit = ranked (intent_tokens intent) tools limit

  unfoldable pub match_tool : List ToolSummary → List ℕ → Result MatchError ToolMatch
  unfolding match_all
  match_tool tools intent = accepted (match_all tools intent 1)
