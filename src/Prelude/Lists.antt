-- ===== src/Prelude/Lists.antt =====
-- Lists measured by native numbers, and membership: as a Boolean test, and by recursion.
use Prim.Native.Nat.{ℕ, zero, suc, ◌+◌}
use mathlib.Core.Path.{◌≡◌, refl, subst, sym}
use mathlib.Core.Logic.{◌↔◌, ◌⊎◌, inl, inr}
use mathlib.Core.Bool.{Bool, true, false, ◌||◌}
use mathlib.Core.Option.{Option, none, some}
use mathlib.Core.List.{List, [], ◌∷◌, ◌++◌, map}
use native.Mathlib.Omega.{arith}
use neuralgentics.Prelude.Keys.{Comparable, ◌==◌, ==_iff}

module _ {ℓ} {A : Type ℓ} where
  abbrev pub length : List A → ℕ
  length [] = 0
  length (x ∷ xs) = suc (length xs)

  pub length-append : (xs ys : List A) → length (xs ++ ys) ≡ length xs + length ys
  length-append [] ys = omega arith
  length-append (x ∷ xs) ys = omega (arith, length-append xs ys)

  abbrev pub All {κ} : (A → Type κ) → List A → Type κ
  All P [] = Unit
  All P (x ∷ xs) = P x × All P xs

  pub All-append {κ} : (P : A → Type κ) (xs ys : List A) → All P xs → All P ys → All P (xs ++ ys)
  All-append P [] ys h k = k
  All-append P (x ∷ xs) ys h k = (h.0, All-append P xs ys h.1 k)

pub All-imp {ℓ κ} :
    {A : Type ℓ} (P Q : A → Type κ) (xs : List A) → ((x : A) → P x → Q x) → All P xs → All Q xs
All-imp P Q [] f h = h
All-imp P Q (x ∷ xs) f h = (f x h.0, All-imp P Q xs f h.1)

module _ {ℓ} {A : Type ℓ} where
  abbrev pub take : ℕ → List A → List A
  take zero xs = []
  take (suc n) [] = []
  take (suc n) (x ∷ xs) = x ∷ take n xs

  abbrev pub drop : ℕ → List A → List A
  drop zero xs = xs
  drop (suc n) [] = []
  drop (suc n) (x ∷ xs) = drop n xs

  abbrev pub get_elem? : List A → ℕ → Option A
  get_elem? [] i = none
  get_elem? (x ∷ xs) zero = some x
  get_elem? (x ∷ xs) (suc i) = get_elem? xs i

-- The entries for which the test passes, in order: `for … { if test { out = append(out, x) } }`.
abbrev pub select {ℓ} : {A : Type ℓ} → (A → Bool) → List A → List A
select test [] = []
select test (x ∷ xs) = let rest = select test xs in elim (test x) [ true ↦ x ∷ rest | false ↦ rest ]

abbrev pub In : {A : Type 0} → A → List A → Type 0
In a [] = ⊥
In a (x ∷ xs) = (a ≡ x) ⊎ In a xs

pub All-members : {A : Type 0} (xs : List A) → All (λ x. In x xs) xs
All-members [] = tt
All-members (x ∷ xs) =
    (inl refl, All-imp (λ y. In y xs) (λ y. In y (x ∷ xs)) xs (λ y h. inr h) (All-members xs))

pub All-In : {A : Type 0} (P : A → Type 0) (xs : List A) (x : A) → All P xs → In x xs → P x
All-In P (y ∷ xs) x h (inl same) = subst P (sym same) h.0
All-In P (y ∷ xs) x h (inr k) = All-In P xs x h.1 k
All-In P [] x h k = absurd k

-- `for _, x := range xs { if x == a { return true } }; return false`
abbrev pub contains {ℓ} : {A : Type ℓ} ⦃c : Comparable A⦄ → A → List A → Bool
contains a [] = false
contains a (x ∷ xs) = x == a || contains a xs

pub contains_iff :
    {A : Type 0} ⦃c : Comparable A⦄ (a : A) (xs : List A) → (contains a xs ≡ true) ↔ In a xs
contains_iff a [] = (λ h. cc, λ h. absurd h)
contains_iff a (x ∷ xs) = ground (arith, ==_iff x a, contains_iff a xs)

pub In-append_iff : {A : Type 0} (a : A) (xs ys : List A) → In a (xs ++ ys) ↔ (In a xs ⊎ In a ys)
In-append_iff a [] ys = ground arith
In-append_iff a (x ∷ xs) ys = ground (arith, In-append_iff a xs ys)

pub In-select_iff :
    {A : Type 0} (test : A → Bool) (a : A) (xs : List A)
    → In a (select test xs) ↔ (In a xs × (test a ≡ true))
In-select_iff test a [] = (λ h. absurd h, λ h. h.0)
In-select_iff test a (x ∷ xs) = ground (arith, In-select_iff test a xs)

pub List-cases {ℓ} :
    {A : Type ℓ} (xs : List A) → (xs ≡ []) ⊎ ((x : A) × (rest : List A) × (xs ≡ x ∷ rest))
List-cases [] = inl refl
List-cases (x ∷ xs) = inr (x, xs, refl)

module _ {ℓ} {A : Type ℓ} ⦃c : Comparable A⦄ where
  pub contains-append :
      (a : A) (xs ys : List A) → contains a (xs ++ ys) ≡ (contains a xs || contains a ys)
  contains-append a [] ys = refl
  contains-append a (x ∷ xs) ys = ground (arith, contains-append a xs ys)

  -- No entry twice.
  abbrev pub Unique : List A → Type 0
  Unique [] = Unit
  Unique (x ∷ xs) = (contains x xs ≡ false) × Unique xs

  pub Unique-concat :
      (xs : List A) (a : A) → Unique xs → contains a xs ≡ false → Unique (xs ++ a ∷ [])
  Unique-concat [] a u h = (refl, tt)
  Unique-concat (x ∷ xs) a u h =
      ground (arith, Unique-concat xs a u.1, contains-append x xs (a ∷ []), ==_iff x a, ==_iff a x)

abbrev pub concat {ℓ} : {A : Type ℓ} → List (List A) → List A
concat [] = []
concat (xs ∷ xss) = xs ++ concat xss

pub map-append {ℓ κ} :
    {A : Type ℓ} {B : Type κ} (f : A → B) (xs ys : List A) → map f (xs ++ ys) ≡ map f xs ++ map f ys
map-append f [] ys = refl
map-append f (x ∷ xs) ys = cc (map-append f xs ys)

pub append_nil {ℓ} : {A : Type ℓ} (xs : List A) → xs ++ [] ≡ xs
append_nil [] = refl
append_nil (x ∷ xs) = cc (append_nil xs)

pub append_assoc {ℓ} : {A : Type ℓ} (xs ys zs : List A) → (xs ++ ys) ++ zs ≡ xs ++ (ys ++ zs)
append_assoc [] ys zs = refl
append_assoc (x ∷ xs) ys zs = cc (append_assoc xs ys zs)
