-- ===== src/Memory/Traversal.antt =====
-- graph/traversal.go: paths of relationships between memories. The store is a parameter: it answers
-- the relationships of a memory, or `none` for an error.
pub mod Paths
pub mod Visits
pub mod Levels
pub mod Shortest
use neuralgentics.Prelude.{
  ℕ, zero, suc, ◌+◌, ℤ, positive_or, String, Bool, true, false, not, List, [], ◌∷◌, ◌++◌, Option,
  none, some, ◌==◌, string_comparable, length, contains, if◌then◌else◌,
}

pub record Relationship : Type 0 where
  pub id : String
  pub source_id : String
  pub target_id : String
  pub relationship_type : String

pub record Node : Type 0 where
  pub id : String
  pub path : List Relationship

-- `visited`, as the list of its keys, and `queue`.
pub record Search : Type 0 where
  pub visited : List String
  pub queue : List Node

abbrev pub neighbor : String → Relationship → String
neighbor current rel = if not (rel.source_id == current) then rel.source_id else rel.target_id

-- The end of a level, or a path from inside of it.
pub data Found : Type 0 where
  path_of : List Relationship → Found
  go_on : Search → Found

-- One round of the loop over the relationships of `current`.
unfoldable pub visit : Node → Relationship → Search → Search
visit current rel s =
    let next = neighbor current.id rel in
    if contains next s.visited then s else record {
      visited = next ∷ s.visited;
      queue = s.queue ++ record { id = next; path = current.path ++ rel ∷ [] } ∷ [];
    }

unfoldable pub visit_all : Node → List Relationship → Search → Search
unfolding visit
visit_all current [] s = s
visit_all current (rel ∷ rels) s = visit_all current rels (visit current rel s)

-- A node whose relationships cannot be fetched has none.
abbrev pub fetched : Option (List Relationship) → List Relationship
fetched none = []
fetched (some rels) = rels

module _ (get_relationships : String → Option (List Relationship)) (end : String) where
  -- The inner loop, for the given number of nodes; it never meets an empty queue.
  unfoldable pub level : ℕ → Search → Found
  unfolding visit_all
  level zero s = go_on s
  level (suc n) s = elim s.queue [
    | [] ↦ go_on s
    | current ∷ rest ↦
        let after = level n (
          visit_all current (fetched (get_relationships current.id))
            (record { visited = s.visited; queue = rest })) in
        if current.id == end then path_of current.path else after
  ]

  -- The outer loop, for the given number of levels.
  unfoldable pub levels : ℕ → Search → List Relationship
  unfolding level
  levels zero s = []
  levels (suc depth) s = elim s.queue [
    | [] ↦ []
    | _ ∷ _ ↦ elim (level (length s.queue) s) [ path_of p ↦ p | go_on t ↦ levels depth t ]
  ]

  unfoldable pub find_inference_paths : String → ℤ → List Relationship
  unfolding levels
  find_inference_paths start max_depth =
      levels (positive_or 5 max_depth)
        (record { visited = start ∷ []; queue = record { id = start; path = [] } ∷ [] })

module _ {Entry : Type 0} (get_memory : String → Option Entry) where
  -- The loop over the ids, which skips what is missing.
  entries_of : List String → List Entry
  entries_of [] = []
  entries_of (id ∷ ids) = elim (get_memory id) [
    | none ↦ entries_of ids
    | some entry ↦ entry ∷ entries_of ids
  ]

  -- `none` is an error of the store. `chain` is its GetSupersessionChain.
  pub get_supersession_chain :
      (String → ℕ → Option (List String)) → String → ℤ → Option (List Entry)
  unfolding entries_of
  get_supersession_chain chain id max_depth = elim (chain id (positive_or 10 max_depth)) [
    | none ↦ none
    | some ids ↦ some (entries_of ids)
  ]
