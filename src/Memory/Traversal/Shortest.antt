-- ===== src/Memory/Traversal/Shortest.antt =====
-- The search as a whole.
use native.Mathlib.Decide.{dec_lt}
use neuralgentics.Prelude.{
  ℕ, zero, suc, ◌+◌, ◌≤◌, ◌<◌, ℤ, positive_or, ap, sym, subst, String, ◌≡◌, ◌⊎◌, inl, inr, refl,
  List, [], ◌∷◌, Option, length, length-append, In, All, All-In, List-cases, string_comparable,
  arith, append_nil,
}
use neuralgentics.Memory.Traversal.{
  Relationship, Node, Search, Found, path_of, go_on, level, levels, find_inference_paths,
}
use neuralgentics.Memory.Traversal.Paths.{
  IsPath, at_start, along, AtLevel, Expanded, ids, Settled, Extends,
}
use neuralgentics.Memory.Traversal.Levels.{
  LevelEnds, reached, passed, Expanded-Extends, level-LevelEnds,
}

module _ (get_relationships : String → Option (List Relationship)) (end start : String) where
  -- What holds before level `k`.
  pub record Inv (k : ℕ) (s : Search) : Type 0 where
    pub at : All (AtLevel get_relationships end start k) s.queue
    pub settled : Settled get_relationships end s
    pub begun : In start s.visited
    pub early :
        (p : List Relationship) (x : String)
        → IsPath get_relationships end start p x
        → length p < k
        → Expanded get_relationships end s x

  -- The result is a shortest path, of fewer than `d` relationships; or it is empty and there is no
  -- such path.
  abbrev pub Verdict : ℕ → List Relationship → Type 0
  Verdict d p =
      (IsPath get_relationships end start p end
        × (length p < d)
        × ((q : List Relationship)
            → IsPath get_relationships end start q end
            → length p ≤ length q))
      ⊎ ((p ≡ [])
          × ((q : List Relationship) → IsPath get_relationships end start q end → d ≤ length q))

  no_shorter :
      (k : ℕ) (s : Search) (q : List Relationship)
      → Inv k s
      → IsPath get_relationships end start q end
      → k ≤ length q
  no_shorter k s q v path = elim (dec_lt (length q) k) [
    | yes lt ↦ absurd ((v.early q end path lt).0 refl)
    | no ge ↦ omega arith
  ]

  -- With an empty queue everything that can be reached has been followed.
  reach_visited :
      (k : ℕ) (s : Search) (q : List Relationship) (x : String)
      → Inv k s
      → s.queue ≡ []
      → IsPath get_relationships end start q x
      → In x s.visited
  reach_visited k s q x v e at_start = v.begun
  reach_visited k s q y v e (along {p} {x} rel path edge same long) =
      elim (v.settled x (reach_visited k s p x v e path)) [
        | inl waits ↦ absurd (subst (λ l. In x (ids l)) e waits)
        | inr done ↦ subst (λ z. In z s.visited) (sym same) (done.1 rel edge)
      ]

  unreachable :
      (k : ℕ) (s : Search) (q : List Relationship)
      → Inv k s
      → s.queue ≡ []
      → IsPath get_relationships end start q end
      → ⊥
  unreachable k s q v e path = elim (v.settled end (reach_visited k s q end v e path)) [
    | inl waits ↦ subst (λ l. In end (ids l)) e waits
    | inr done ↦ done.0 refl
  ]

  passed-Inv :
      (k : ℕ) (s t : Search)
      → Inv k s
      → All (AtLevel get_relationships end start (suc k)) t.queue
      → Extends s t
      → ((x : String) → In x (ids s.queue) → Expanded get_relationships end t x)
      → Settled get_relationships end t
      → Inv (suc k) t
  passed-Inv k s t v deep grown all settled = record {
    at = deep;
    settled = settled;
    begun = grown start v.begun;
    early = early;
  }
    where
      known : (x : String) → In x s.visited → Expanded get_relationships end t x
      known x h = elim (v.settled x h) [
        | inl waits ↦ all x waits
        | inr done ↦ Expanded-Extends get_relationships end start s t x grown done
      ]

      early :
          (q : List Relationship) (x : String)
          → IsPath get_relationships end start q x
          → length q < suc k
          → Expanded get_relationships end t x
      early q x at_start h = known start v.begun
      early q y (along {p} {x} rel path edge same long) h =
          let before =
            v.early p x path (omega (arith, h, ap length long, length-append p (rel ∷ []))) in
          known y (subst (λ z. In z s.visited) (sym same) (before.1 rel edge))

  abbrev ended : ℕ → Found → List Relationship
  ended depth (path_of p) = p
  ended depth (go_on t) = levels get_relationships end depth t

  levels_empty :
      (depth : ℕ) (s : Search) → s.queue ≡ [] → levels get_relationships end (suc depth) s ≡ []
  unfolding levels
  levels_empty depth s e = rw e refl

  levels-level :
      (depth : ℕ) (s : Search) (node : Node) (rest : List Node)
      → s.queue ≡ node ∷ rest
      → levels get_relationships end (suc depth) s
        ≡ ended depth (level get_relationships end (length s.queue) s)
  unfolding levels
  levels-level depth s node rest e =
      by_queue s.queue (level get_relationships end (length s.queue) s) e
    where
      by_end :
          (o : Found)
          → (elim o [ path_of p ↦ p | go_on t ↦ levels get_relationships end depth t ])
            ≡ ended depth o
      by_end (path_of p) = refl
      by_end (go_on t) = refl

      by_queue :
          (q : List Node) (o : Found)
          → q ≡ node ∷ rest
          → (elim q [
            | [] ↦ []
            | _ ∷ _ ↦ elim o [ path_of p ↦ p | go_on t ↦ levels get_relationships end depth t ]
          ])
            ≡ ended depth o
      by_queue q o same = rw same (by_end o)

  ended-Verdict :
      (depth k : ℕ) (s : Search) (o : Found)
      → Inv k s
      → ((t : Search)
          → Inv (suc k) t
          → Verdict (suc k + depth) (levels get_relationships end depth t))
      → LevelEnds get_relationships end start k s.queue s o
      → Verdict (k + suc depth) (ended depth o)
  ended-Verdict depth k s o v later (reached node here same) =
      let at = All-In (AtLevel get_relationships end start k) s.queue node v.at here in
      inl (
        subst (IsPath get_relationships end start node.path) same at.0,
        omega (arith, at.1),
        λ q path. omega (arith, at.1, no_shorter k s q v path),
      )
  ended-Verdict depth k s o v later (passed t deep grown all settled) =
      subst (λ d. Verdict d (levels get_relationships end depth t)) (omega arith)
        (later t (passed-Inv k s t v deep grown all settled))

  levels-Verdict :
      (depth k : ℕ) (s : Search)
      → Inv k s
      → Verdict (k + depth) (levels get_relationships end depth s)
  unfolding levels
  levels-Verdict zero k s v = inr (refl, λ q path. omega (arith, no_shorter k s q v path))
  levels-Verdict (suc depth) k s v = elim (List-cases s.queue) [
    | inl e ↦
        subst (Verdict (k + suc depth)) (sym (levels_empty depth s e))
          (inr (refl, λ q path. absurd (unreachable k s q v e path)))
    | inr (node, rest, e) ↦
        subst (Verdict (k + suc depth)) (sym (levels-level depth s node rest e)) (
          ended-Verdict depth k s (level get_relationships end (length s.queue) s) v
            (levels-Verdict depth (suc k))
            (level-LevelEnds get_relationships end start k s.queue [] s (sym (append_nil s.queue))
              v.at tt v.settled))
  ]

-- `FindInferencePaths` finds a path from the start to the end with the fewest relationships, when
-- one has fewer than the maximal depth (5 where none is set); else it returns none. A memory for
-- which the store fails counts as one without relationships.
pub find_inference_paths-Verdict :
    (get_relationships : String → Option (List Relationship)) (start end : String) (max_depth : ℤ)
    → Verdict get_relationships end start
        (positive_or 5 max_depth)
        (find_inference_paths get_relationships end start max_depth)
unfolding find_inference_paths
find_inference_paths-Verdict get_relationships start end max_depth =
    subst
      (λ d.
        Verdict get_relationships end start d
          (find_inference_paths get_relationships end start max_depth))
      (omega arith)
      (levels-Verdict get_relationships end start (positive_or 5 max_depth) 0
        (record { visited = start ∷ []; queue = record { id = start; path = [] } ∷ [] })
        (record {
          at = ((at_start, refl), tt);
          settled = λ x h. elim h [ inl same ↦ inl (inl same) | inr h ↦ absurd h ];
          begun = inl refl;
          early = λ p x path h. absurd (omega arith);
        }))
