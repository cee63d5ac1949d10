-- ===== src/Prelude/Keys.antt =====
-- Go's `==` on comparable types: an interface with its one law, and its instances.
use Prim.Native.Nat.{ℕ, compare, Ordering}
use Prim.Native.String.{String}
use mathlib.Core.Path.{◌≡◌, refl}
use mathlib.Core.Logic.{◌↔◌}
use mathlib.Core.Bool.{Bool, true, false}
use native.Mathlib.Omega.{arith}
use text.Mathlib.Text.{◌==◌ as same_text}
use text.Mathlib.TextEquality.{eq_iff}

pub record Comparable {ℓ} (A : Type ℓ) : Type ℓ where
  pub equal : A → A → Bool
  pub equal_iff : (a b : A) → (equal a b ≡ true) ↔ (a ≡ b)

infix 50 ◌==◌
abbrev pub ◌==◌ {ℓ} : {A : Type ℓ} ⦃c : Comparable A⦄ → A → A → Bool
◌==◌ ⦃c⦄ = c.equal

abbrev pub ==_iff {ℓ} : {A : Type ℓ} ⦃c : Comparable A⦄ (a b : A) → ((a == b) ≡ true) ↔ (a ≡ b)
==_iff ⦃c⦄ = c.equal_iff

pub ==_self {ℓ} : {A : Type ℓ} ⦃c : Comparable A⦄ (a : A) → (a == a) ≡ true
==_self a = (==_iff a a).1 refl

abbrev same_number : ℕ → ℕ → Bool
same_number a b = elim (compare a b) [ Ordering.eq ↦ true | _ ↦ false ]

pub same_number_iff : (a b : ℕ) → (same_number a b ≡ true) ↔ (a ≡ b)
same_number_iff a b = ground arith

instance abbrev pub number_comparable : Comparable ℕ
number_comparable = record { equal = same_number; equal_iff = same_number_iff }

instance abbrev pub string_comparable : Comparable String
string_comparable = record { equal = same_text; equal_iff = eq_iff }

abbrev decides {ℓ} : {P : Type ℓ} → Dec P → Bool
decides (yes p) = true
decides (no p) = false

pub decides_iff {ℓ} : {P : Type ℓ} (d : Dec P) → (decides d ≡ true) ↔ P
decides_iff (yes p) = (λ _. p, λ _. refl)
decides_iff (no p) = (λ h. cc, λ q. absurd (p q))

abbrev pub comparable_of {ℓ} : {A : Type ℓ} → Discrete A → Comparable A
comparable_of dec = record {
  equal = λ a b. decides (dec a b);
  equal_iff = λ a b. decides_iff (dec a b);
}

-- A law in `↔` form decides.
decide_by {ℓ} : {P : Type ℓ} (b : Bool) → (b ≡ true) ↔ P → Dec P
decide_by true e = yes (e.0 refl)
decide_by false e = no (λ q. cc (e.1 q))

unfoldable pub String-discrete : Discrete String
unfolding decide_by
String-discrete s t = decide_by (same_text s t) (eq_iff s t)
