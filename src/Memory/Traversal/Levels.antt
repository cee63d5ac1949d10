-- ===== src/Memory/Traversal/Levels.antt =====
-- One level of the search.
use neuralgentics.Prelude.{
  ℕ, suc, sym, subst, ◌∙◌, String, ◌≡◌, inl, inr, refl, List, [], ◌∷◌, ◌++◌, Option, length, In,
  All, All-append, Bool-cases, string_comparable, if◌then◌else◌, append_assoc, ◌==◌, ==_iff,
}
use neuralgentics.Memory.Traversal.{
  Relationship, Node, Search, Found, path_of, go_on, neighbor, visit_all, level,
}
use neuralgentics.Memory.Traversal.Paths.{
  followed, AtLevel, Expanded, ids, In-ids_iff, Settled, Extends,
}
use neuralgentics.Memory.Traversal.Visits.{Visited, visit_all-Visited}

module _ (get_relationships : String → Option (List Relationship)) (end start : String) where
  -- How a level ends that starts with the nodes `now`.
  pub data LevelEnds (k : ℕ) (now : List Node) (s : Search) : Found → Type 0 where
    reached : (node : Node) → In node now → node.id ≡ end → LevelEnds k now s (path_of node.path)
    passed :
        (t : Search)
        → All (AtLevel get_relationships end start (suc k)) t.queue
        → Extends s t
        → ((x : String) → In x (ids now) → Expanded get_relationships end t x)
        → Settled get_relationships end t
        → LevelEnds k now s (go_on t)

  pub Expanded-Extends :
      (s t : Search) (x : String)
      → Extends s t
      → Expanded get_relationships end s x
      → Expanded get_relationships end t x
  Expanded-Extends s t x more h = (h.0, λ rel k. more (neighbor x rel) (h.1 rel k))

  LevelEnds-cons :
      (k : ℕ) (current : Node) (rest : List Node) (s t : Search) (o : Found)
      → Extends s t
      → Expanded get_relationships end t current.id
      → LevelEnds k rest t o
      → LevelEnds k (current ∷ rest) s o
  LevelEnds-cons k current rest s t o more h (reached node here same) = reached node (inr here) same
  LevelEnds-cons k current rest s t o more h (passed u deep grown all settled) =
      passed u deep (λ x p. grown x (more x p))
        (λ x p. elim p [
          | inl same ↦
              subst (Expanded get_relationships end u) (sym same)
                (Expanded-Extends t u current.id grown h)
          | inr p ↦ all x p
        ])
        settled

  visit_all-Settled :
      (k : ℕ) (current : Node) (rest : List Node) (s t : Search)
      → s.queue ≡ current ∷ rest
      → Settled get_relationships end s
      → Expanded get_relationships end t current.id
      → Visited get_relationships end start k current
          (followed get_relationships end current.id)
          (record { visited = s.visited; queue = rest })
          t
      → Settled get_relationships end t
  visit_all-Settled k current rest s t e settled expanded v x h = elim (v.new_ones x h) [
    | inr new ↦
        inl (subst (λ q. In x (ids q)) (sym v.appended) ((In-ids_iff x rest v.added).1 (inr new)))
    | inl old ↦ elim (settled x old) [
      | inr done ↦ inr (Expanded-Extends s t x v.extends done)
      | inl waits ↦ elim (subst (λ q. In x (ids q)) e waits) [
        | inl same ↦ inr (subst (Expanded get_relationships end t) (sym same) expanded)
        | inr later ↦
            inl (
              subst (λ q. In x (ids q)) (sym v.appended)
                ((In-ids_iff x rest v.added).1 (inl later)))
      ]
    ]
  ]

  level-cons :
      (n : ℕ) (s : Search) (current : Node) (rest : List Node)
      → s.queue ≡ current ∷ rest
      → level get_relationships end (suc n) s ≡ (
          if current.id == end
          then path_of current.path
          else level get_relationships end n (
              visit_all current
                (followed get_relationships end current.id)
                (record { visited = s.visited; queue = rest })))
  unfolding level
  level-cons n s current rest e = rw e refl

  pub level-LevelEnds :
      (k : ℕ) (now later : List Node) (s : Search)
      → s.queue ≡ now ++ later
      → All (AtLevel get_relationships end start k) now
      → All (AtLevel get_relationships end start (suc k)) later
      → Settled get_relationships end s
      → LevelEnds k now s (level get_relationships end (length now) s)
  unfolding level
  level-LevelEnds k [] later s e at deep settled =
      passed s (subst (λ q. All (AtLevel get_relationships end start (suc k)) q) (sym e) deep)
        (λ x h. h) (λ x h. absurd h) settled
  level-LevelEnds k (current ∷ rest) later s e at deep settled =
      let s0 : Search = record { visited = s.visited; queue = rest ++ later } in
      let s1 = visit_all current (followed get_relationships end current.id) s0 in
      let v =
        visit_all-Visited get_relationships end start k current
          (followed get_relationships end current.id) s0 at.0 (λ rel h. h) in
      subst (LevelEnds k (current ∷ rest) s)
        (sym (level-cons (length rest) s current (rest ++ later) e))
        (elim (Bool-cases (current.id == end)) [
          | inl found ↦ rw found (reached current (inl refl) ((==_iff current.id end).0 found))
          | inr other ↦
              let expanded : Expanded get_relationships end s1 current.id =
                ((λ same. absurd (cc (other, (==_iff current.id end).1 same))), v.met) in
              rw other (
                LevelEnds-cons k current rest s s1 (level get_relationships end (length rest) s1)
                  v.extends expanded
                  (level-LevelEnds k rest (later ++ v.added) s1
                    (v.appended ∙ append_assoc rest later v.added) at.1
                    (All-append (AtLevel get_relationships end start (suc k)) later v.added deep
                      v.deeper)
                    (visit_all-Settled k current (rest ++ later) s s1 e settled expanded v)))
        ])
