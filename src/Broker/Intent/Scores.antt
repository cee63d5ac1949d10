-- ===== src/Broker/Intent/Scores.antt =====
-- intent/matcher.go: the range of the scores and their order.
use native.Mathlib.Nat.{le_of_mul-le-mul_right, mul-le-mul_right}
use neuralgentics.Prelude.{
  ℕ, ◌*◌, ◌<◌, ◌≤◌, ◌≡◌, ◌↔◌, ◌⊎◌, inl, inr, Bool, true, false, List, [], ◌∷◌, number_comparable,
  contains, length, select, arith, In, In-select_iff, contains_iff, List-cases,
}
use neuralgentics.Broker.Transport.{ToolSummary}
use neuralgentics.Broker.Intent.Words.{Token, Alphabet, token_comparable, stem_tokens}
use neuralgentics.Broker.Intent.{
  Score, zero_score, less, distinct, shared, jaccard_similarity, exact_name_match_bonus, plus_bonus,
  capped, name_tokens, tool_tokens, base_score, score_tool,
}

pub Nat_cases : (n : ℕ) → (n ≡ 0) ⊎ (0 < n)
Nat_cases n = ground arith

-- A fraction from 0 to 1.
pub record InUnit (s : Score) : Type 0 where
  pub positive : 0 < s.den
  pub capped : s.num ≤ s.den

abbrev pub ◌⊑◌ : Score → Score → Type 0
a ⊑ b = a.num * b.den ≤ b.num * a.den

infix 50 ◌⊑◌
pub ⊑_of-less : (a b : Score) → less a b ≡ true → a ⊑ b
⊑_of-less a b h = ground arith

pub ⊑_of-not-less : (a b : Score) → less a b ≡ false → b ⊑ a
⊑_of-not-less a b h = ground arith

pub ⊑_trans : (a b c : Score) → 0 < b.den → a ⊑ b → b ⊑ c → a ⊑ c
⊑_trans a b c pos h k =
    le_of_mul-le-mul_right {k = b.den}
      (grind (arith, mul-le-mul_right c.den h, mul-le-mul_right a.den k)) pos

capped-InUnit : (s : Score) → 0 < s.den → InUnit (capped s)
capped-InUnit s h = ground arith

capped-positive : (s : Score) → 0 < s.num → 0 < (capped s).num
capped-positive s h = ground arith

-- A token of both lists.
abbrev pub Common : List Token → List Token → Type 0
Common a b = (t : Token) × In t a × In t b

length-select {ℓ} :
    {A : Type ℓ} (test : A → Bool) (xs : List A) → length (select test xs) ≤ length xs
length-select test [] = omega arith
length-select test (x ∷ xs) = ground (arith, length-select test xs)

In-distinct : (t : Token) (ts : List Token) → In t ts → In t (distinct ts)
unfolding distinct
In-distinct t [] h = h
In-distinct t (s ∷ ts) h =
    ground (arith, In-distinct t ts, contains_iff s (distinct ts), contains_iff t (distinct ts))

length-pos_of_In : (t : Token) (ts : List Token) → In t ts → 0 < length ts
length-pos_of_In t [] h = absurd h
length-pos_of_In t (s ∷ ts) h = omega arith

shared-Common : (a b : List Token) → 0 < length (shared a b) → Common a b
unfolding shared
shared-Common a b h = elim (List-cases (shared a b)) [
  | inl e ↦ absurd (ground arith)
  | inr (t, rest, e) ↦ (
    t,
    ground (arith, In-select_iff (λ t. contains t a) t b, contains_iff t a),
    ground (arith, In-select_iff (λ t. contains t a) t b),
  )
]

module _ (a b : List Token) where
  jaccard_similarity-pos_den : 0 < (jaccard_similarity a b).den
  unfolding jaccard_similarity
  jaccard_similarity-pos_den = ground arith

  Common-of_jaccard_similarity : 0 < (jaccard_similarity a b).num → Common a b
  unfolding jaccard_similarity
  Common-of_jaccard_similarity h = shared-Common a b (ground arith)

  jaccard_similarity_of_Common : Common a b → 0 < (jaccard_similarity a b).num
  unfolding jaccard_similarity shared
  jaccard_similarity_of_Common (t, in_a, in_b) = ground (
    arith,
    length-pos_of_In t (distinct a) (In-distinct t a in_a),
    length-pos_of_In t (shared a b)
        ((In-select_iff (λ t. contains t a) t b).1 (in_b, (contains_iff t a).1 in_a)),
    length-select (λ t. contains t a) b,
  )

module _ (alphabet : Alphabet) (intent : List Token) (tool : ToolSummary) where
  abbrev base : Score
  base = base_score alphabet intent tool

  abbrev bonus : ℕ
  bonus = exact_name_match_bonus intent (name_tokens alphabet tool)

  score_tool-zero : base.num ≡ 0 → score_tool alphabet intent tool ≡ zero_score
  unfolding score_tool
  score_tool-zero h = ground arith

  score_tool-capped :
      0 < base.num → score_tool alphabet intent tool ≡ capped (plus_bonus base bonus)
  unfolding score_tool
  score_tool-capped h = ground arith

  pub score_tool_bounds :
      InUnit (score_tool alphabet intent tool)
      × ((0 < (score_tool alphabet intent tool).num)
          ↔ Common (stem_tokens intent) (stem_tokens (tool_tokens alphabet tool)))
  score_tool_bounds = elim (Nat_cases base.num) [
    | inl z ↦ rw (score_tool-zero z) (
      ground arith,
      (
        λ h. absurd (omega arith),
        λ c. absurd (
            omega (
              arith,
              jaccard_similarity_of_Common (stem_tokens intent)
                  (stem_tokens (tool_tokens alphabet tool)) c,
            )),
      ),
    )
    | inr pos ↦ rw (score_tool-capped pos) (
      capped-InUnit (plus_bonus base bonus) (
          omega (
            arith,
            jaccard_similarity-pos_den (stem_tokens intent)
                (stem_tokens (tool_tokens alphabet tool)),
          )),
      (
        λ _.
            Common-of_jaccard_similarity (stem_tokens intent)
              (stem_tokens (tool_tokens alphabet tool)) pos,
        λ _. capped-positive (plus_bonus base bonus) (omega arith),
      ),
    )
  ]
