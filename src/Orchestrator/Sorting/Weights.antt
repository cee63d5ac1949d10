-- ===== src/Orchestrator/Sorting/Weights.antt =====
-- Counting edges: how often a task is among the dependents of given ids.
use neuralgentics.Prelude.{
  ==_self, ap, sym, ◌∙◌, keys, lookup-eq-none_iff, lookup, ℕ, suc, ◌+◌, ◌≤◌, String, ◌≡◌, refl,
  false, List, [], ◌∷◌, ◌++◌, ◌==◌, ==_iff, string_comparable, insert, delete, contains, Distinct,
  Unique, arith, if◌then◌else◌, lookup-delete, delete-Distinct,
}
use neuralgentics.Orchestrator.Sorting.{dependents}

abbrev pub Graph : Type 0
Graph = List (String × List String)

abbrev pub count : String → List String → ℕ
count x [] = 0
count x (y ∷ ys) = if y == x then suc (count x ys) else count x ys

pub count-append : (x : String) (ys zs : List String) → count x (ys ++ zs) ≡ count x ys + count x zs
count-append x [] zs = omega arith
count-append x (y ∷ ys) zs = ground (arith, count-append x ys zs)

-- All edges to a task, and those from the ids of a list.
unfoldable pub weight : String → Graph → ℕ
weight x [] = 0
weight x ((d, l) ∷ g) = count x l + weight x g

unfoldable pub sent : String → List String → Graph → ℕ
sent x [] g = 0
sent x (d ∷ ds) g = count x (dependents d g) + sent x ds g

weight-delete_absent :
    (x d : String) (g : Graph) → contains d (keys g) ≡ false → weight x (delete d g) ≡ weight x g
unfolding weight delete
weight-delete_absent x d [] h = refl
weight-delete_absent x d ((e, l) ∷ g) h = ground (arith, weight-delete_absent x d g)

pub weight-delete :
    (x d : String) (g : Graph)
    → Distinct g
    → weight x g ≡ count x (dependents d g) + weight x (delete d g)
unfolding weight delete dependents lookup
weight-delete x d [] h = omega arith
weight-delete x d ((e, l) ∷ g) h =
    ground (
      arith,
      weight-delete x d g h.1,
      weight-delete_absent x d g,
      ==_iff e d,
      lookup-eq-none_iff d g,
    )

dependents-delete :
    (d e : String) (g : Graph) → dependents e (delete d g) ≡ (if d == e then [] else dependents e g)
unfolding dependents
dependents-delete d e g = ground (arith, lookup-delete d e g)

sent-delete :
    (x d : String) (ds : List String) (g : Graph)
    → contains d ds ≡ false
    → sent x ds (delete d g) ≡ sent x ds g
unfolding sent
sent-delete x d [] g h = refl
sent-delete x d (e ∷ ds) g h =
    ground (arith, sent-delete x d ds g, dependents-delete d e g, ==_iff d e, ==_iff e d)

-- The edges from different ids are among all edges.
pub sent-le-weight :
    (x : String) (ds : List String) (g : Graph) → Distinct g → Unique ds → sent x ds g ≤ weight x g
unfolding sent
sent-le-weight x [] g h u = omega arith
sent-le-weight x (d ∷ ds) g h u = omega (
  arith,
  weight-delete x d g h,
  sent-delete x d ds g u.0,
  sent-le-weight x ds (delete d g) (delete-Distinct d g h) u.1,
)

pub sent-append :
    (x : String) (ds es : List String) (g : Graph) → sent x (ds ++ es) g ≡ sent x ds g + sent x es g
unfolding sent
sent-append x [] es g = omega arith
sent-append x (d ∷ ds) es g = omega (arith, sent-append x ds es g)

-- A new edge adds one to the weight of its task.
pub weight-insert :
    (x d y : String) (g : Graph)
    → weight x (insert d (dependents d g ++ y ∷ []) g) ≡ weight x g + count x (y ∷ [])
unfolding weight insert dependents lookup
weight-insert x d y [] = omega arith
weight-insert x d y ((e, l) ∷ g) =
    ground (arith, weight-insert x d y g, count-append x l (y ∷ []), ==_iff e d)

dependents_first : (d : String) (l : List String) (g : Graph) → dependents d ((d, l) ∷ g) ≡ l
unfolding dependents lookup
dependents_first d l g = ground (arith, ==_self d)

count_later :
    (x d : String) (l : List String) (g : Graph)
    → contains d (keys g) ≡ false
    → ((e : String) → count x (dependents e ((d, l) ∷ g)) ≡ 0)
    → (e : String) → count x (dependents e g) ≡ 0
unfolding dependents lookup
count_later x d l g absent z e = ground (arith, z e, ==_iff d e, lookup-eq-none_iff d g)

weight-zero :
    (x : String) (g : Graph)
    → Distinct g
    → ((d : String) → count x (dependents d g) ≡ 0)
    → weight x g ≡ 0
unfolding weight
weight-zero x [] h z = refl
weight-zero x ((d, l) ∷ g) h z =
    let here : count x l ≡ 0 = sym (ap (count x) (dependents_first d l g)) ∙ z d in
    omega (arith, here, weight-zero x g h.1 (count_later x d l g h.0 z))

-- When all edges start from the given ids, those from the ids are all edges.
pub sent-eq-weight :
    (x : String) (ds : List String) (g : Graph)
    → Distinct g
    → Unique ds
    → ((d : String) → contains d ds ≡ false → count x (dependents d g) ≡ 0)
    → sent x ds g ≡ weight x g
unfolding sent
sent-eq-weight x [] g h u z = sym (weight-zero x g h (λ d. z d refl))
sent-eq-weight x (d ∷ ds) g h u z = omega (
  arith,
  weight-delete x d g h,
  sent-delete x d ds g u.0,
  sent-eq-weight x ds (delete d g) (delete-Distinct d g h) u.1
      (λ e absent. ground (arith, dependents-delete d e g, z e, ==_iff d e)),
)
