-- ===== src/Prelude/Sorting.antt =====
-- sort.Strings, as insertion by the order of texts.
use Prim.Native.Nat.{Ordering}
use Prim.Native.String.{String, compare}
use mathlib.Core.Path.{◌≡◌}
use mathlib.Core.Logic.{◌↔◌, ◌⊎◌}
use mathlib.Core.Bool.{Bool, true, false}
use mathlib.Core.List.{List, [], ◌∷◌}
use native.Mathlib.Omega.{arith}
use neuralgentics.Prelude.Tests.{if◌then◌else◌}
use neuralgentics.Prelude.Lists.{In}

abbrev pub text_le : String → String → Bool
text_le s t = elim (compare s t) [ Ordering.gt ↦ false | _ ↦ true ]

insert_sorted : String → List String → List String
insert_sorted s [] = s ∷ []
insert_sorted s (x ∷ xs) = if text_le s x then s ∷ x ∷ xs else x ∷ insert_sorted s xs

unfoldable pub sort_strings : List String → List String
unfolding insert_sorted
sort_strings [] = []
sort_strings (x ∷ xs) = insert_sorted x (sort_strings xs)

In-insert_sorted_iff :
    (a s : String) (xs : List String) → In a (insert_sorted s xs) ↔ ((a ≡ s) ⊎ In a xs)
unfolding insert_sorted
In-insert_sorted_iff a s [] = ground arith
In-insert_sorted_iff a s (x ∷ xs) = ground (arith, In-insert_sorted_iff a s xs)

-- Sorting changes the order alone.
pub In-sort_strings_iff : (a : String) (xs : List String) → In a (sort_strings xs) ↔ In a xs
unfolding sort_strings
In-sort_strings_iff a [] = ground arith
In-sort_strings_iff a (x ∷ xs) =
    ground (arith, In-sort_strings_iff a xs, In-insert_sorted_iff a x (sort_strings xs))
