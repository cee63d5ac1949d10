-- ===== src/Memory/Traversal/Visits.antt =====
-- What the loop over the relationships of one memory does.
use neuralgentics.Prelude.{
  ℕ, suc, sym, String, ◌≡◌, ◌⊎◌, inl, inr, refl, List, [], ◌∷◌, ◌++◌, Option, length-append, In,
  All, All-append, contains, contains_iff, Bool-cases, string_comparable, arith, append_nil,
  append_assoc,
}
use neuralgentics.Memory.Traversal.{Relationship, Node, Search, neighbor, visit, visit_all}
use neuralgentics.Memory.Traversal.Paths.{followed, along, AtLevel, ids, In-ids_iff, Extends}

module _ (get_relationships : String → Option (List Relationship)) (end start : String)
    (k : ℕ) where
  abbrev Deeper : List Node → Type 0
  Deeper nodes = All (AtLevel get_relationships end start (suc k)) nodes

  -- The loop appends nodes of the next level, one for each memory that it meets first.
  pub record Visited (current : Node) (rels : List Relationship) (s t : Search) : Type 0 where
    pub added : List Node
    pub appended : t.queue ≡ s.queue ++ added
    pub deeper : Deeper added
    pub extends : Extends s t
    pub met : (rel : Relationship) → In rel rels → In (neighbor current.id rel) t.visited
    pub new_ones : (x : String) → In x t.visited → In x s.visited ⊎ In x (ids added)

  visit-Visited :
      (current : Node) (rel : Relationship) (s : Search)
      → AtLevel get_relationships end start k current
      → In rel (followed get_relationships end current.id)
      → Visited current (rel ∷ []) s (visit current rel s)
  unfolding visit
  visit-Visited current rel s at edge =
      elim (Bool-cases (contains (neighbor current.id rel) s.visited)) [
        | inl known ↦ rw known (record {
          added = [];
          appended = sym (append_nil s.queue);
          deeper = tt;
          extends = λ x h. h;
          met = λ r h. elim h [
            | inl same ↦ rw same ((contains_iff (neighbor current.id rel) s.visited).0 known)
            | inr h ↦ absurd h
          ];
          new_ones = λ x h. inl h;
        })
        | inr new ↦ rw new (record {
          added = record { id = neighbor current.id rel; path = current.path ++ rel ∷ [] } ∷ [];
          appended = refl;
          deeper = (
            (
              along rel at.0 edge refl refl,
              omega (arith, at.1, length-append current.path (rel ∷ [])),
            ),
            tt,
          );
          extends = λ x h. inr h;
          met = λ r h. elim h [ inl same ↦ rw same (inl refl) | inr h ↦ absurd h ];
          new_ones = λ x h. elim h [ inl same ↦ inr (inl same) | inr h ↦ inl h ];
        })
      ]

  Visited-then :
      (current : Node) (rel : Relationship) (rels : List Relationship) (s t u : Search)
      → Visited current (rel ∷ []) s t
      → Visited current rels t u
      → Visited current (rel ∷ rels) s u
  Visited-then current rel rels s t u first rest = record {
    added = first.added ++ rest.added;
    appended = cc (rest.appended, first.appended, append_assoc s.queue first.added rest.added);
    deeper =
        All-append (AtLevel get_relationships end start (suc k)) first.added rest.added first.deeper
          rest.deeper;
    extends = λ x h. rest.extends x (first.extends x h);
    met = λ r h. elim h [
      | inl same ↦ rest.extends (neighbor current.id r) (first.met r (inl same))
      | inr h ↦ rest.met r h
    ];
    new_ones = λ x h. elim (rest.new_ones x h) [
      | inr late ↦ inr ((In-ids_iff x first.added rest.added).1 (inr late))
      | inl mid ↦ elim (first.new_ones x mid) [
        | inl old ↦ inl old
        | inr now ↦ inr ((In-ids_iff x first.added rest.added).1 (inl now))
      ]
    ];
  }

  pub visit_all-Visited :
      (current : Node) (rels : List Relationship) (s : Search)
      → AtLevel get_relationships end start k current
      → ((rel : Relationship) → In rel rels → In rel (followed get_relationships end current.id))
      → Visited current rels s (visit_all current rels s)
  unfolding visit_all
  visit_all-Visited current [] s at edges = record {
    added = [];
    appended = sym (append_nil s.queue);
    deeper = tt;
    extends = λ x h. h;
    met = λ r h. absurd h;
    new_ones = λ x h. inl h;
  }
  visit_all-Visited current (rel ∷ rels) s at edges =
      let t = visit current rel s in
      Visited-then current rel rels s t (visit_all current rels t)
        (visit-Visited current rel s at (edges rel (inl refl)))
        (visit_all-Visited current rels t at (λ r h. edges r (inr h)))
