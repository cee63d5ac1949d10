-- ===== src/Memory/Traversal/Paths.antt =====
-- Paths of relationships, as the search walks them, and what is known of a memory when its
-- relationships have been followed.
use neuralgentics.Prelude.{
  ℕ, String, ◌≡◌, ◌≢◌, ◌⊎◌, List, [], ◌∷◌, ◌++◌, Option, length, In, In-append_iff, map, map-append,
  ◌↔◌,
}
use neuralgentics.Memory.Traversal.{Relationship, Node, Search, neighbor, fetched}

abbrev pub ids : List Node → List String
ids nodes = map (λ n. n.id) nodes

pub In-ids_iff :
    (x : String) (a b : List Node) → In x (ids (a ++ b)) ↔ (In x (ids a) ⊎ In x (ids b))
In-ids_iff x a b = rw (map-append (λ n. n.id) a b) (In-append_iff x (ids a) (ids b))

abbrev pub Extends : Search → Search → Type 0
Extends s t = (x : String) → In x s.visited → In x t.visited

module _ (get_relationships : String → Option (List Relationship)) (end : String) where
  -- The relationships that the search follows from a memory.
  abbrev pub followed : String → List Relationship
  followed x = fetched (get_relationships x)

  pub data IsPath (start : String) : List Relationship → String → Type 0 where
    at_start : IsPath start [] start
    along :
        {p q : List Relationship} {x y : String} (rel : Relationship)
        → IsPath start p x
        → In rel (followed x)
        → y ≡ neighbor x rel
        → q ≡ p ++ rel ∷ []
        → IsPath start q y

  abbrev pub AtLevel : String → ℕ → Node → Type 0
  AtLevel start k node = IsPath start node.path node.id × (length node.path ≡ k)

  -- The memory is not the one that is sought, and its neighbors are known.
  abbrev pub Expanded : Search → String → Type 0
  Expanded s x =
      (x ≢ end) × ((rel : Relationship) → In rel (followed x) → In (neighbor x rel) s.visited)

  -- What is known and not waiting has been followed.
  abbrev pub Settled : Search → Type 0
  Settled s = (x : String) → In x s.visited → In x (ids s.queue) ⊎ Expanded s x
