-- ===== src/Prelude/Subsets.antt =====
-- Lists without repetition: a list whose entries are all in another is not longer.
use Prim.Native.Nat.{◌≤◌, ◌<◌}
use mathlib.Core.Path.{◌≡◌, refl}
use mathlib.Core.Bool.{true, not, ◌&&◌}
use mathlib.Core.List.{List, [], ◌∷◌}
use native.Mathlib.Omega.{arith}
use neuralgentics.Prelude.Lists.{length, contains, select, Unique}
use neuralgentics.Prelude.Keys.{Comparable, ◌==◌, ==_iff}

module _ {ℓ} {A : Type ℓ} ⦃c : Comparable A⦄ where
  abbrev without : A → List A → List A
  without a xs = select (λ x. not (x == a)) xs

  contains-without :
      (a b : A) (xs : List A) → contains a (without b xs) ≡ (contains a xs && not (b == a))
  contains-without a b [] = refl
  contains-without a b (x ∷ xs) =
      ground (arith, contains-without a b xs, ==_iff x b, ==_iff x a, ==_iff b a)

  length-without_le : (a : A) (xs : List A) → length (without a xs) ≤ length xs
  length-without_le a [] = omega arith
  length-without_le a (x ∷ xs) = ground (arith, length-without_le a xs)

  length-without_lt :
      (a : A) (xs : List A) → contains a xs ≡ true → length (without a xs) < length xs
  length-without_lt a [] h = absurd (cc h)
  length-without_lt a (x ∷ xs) h =
      ground (arith, length-without_lt a xs, length-without_le a xs, ==_iff x a)

  pub Unique-length_le :
      (xs ys : List A)
      → Unique xs
      → ((a : A) → contains a xs ≡ true → contains a ys ≡ true)
      → length xs ≤ length ys
  Unique-length_le [] ys u h = omega arith
  Unique-length_le (x ∷ xs) ys u h = omega (
    arith,
    length-without_lt x ys (h x (ground (arith, ==_iff x x))),
    Unique-length_le xs (without x ys) u.1
        (λ a k. ground (arith, contains-without a x ys, h a, ==_iff x a)),
  )
