-- ===== src/Prelude/Maps.antt =====
-- Go maps as association lists.
use mathlib.Core.Path.{◌≡◌, refl}
use mathlib.Core.Logic.{◌↔◌, inl, inr}
use mathlib.Core.Bool.{Bool, true, false, ◌||◌}
use mathlib.Core.Option.{Option, none, some}
use mathlib.Core.List.{List, [], ◌∷◌, map}
use native.Mathlib.Omega.{arith}
use neuralgentics.Prelude.Tests.{if◌then◌else◌}
use neuralgentics.Prelude.Lists.{In, contains, select}
use neuralgentics.Prelude.Keys.{Comparable, ◌==◌, ==_iff}

module _ {ℓ} {K V : Type ℓ} where
  abbrev pub keys : List (K × V) → List K
  keys = map (λ e. e.0)

-- No key twice, as in every Go map.
abbrev pub Distinct {ℓ} : {K V : Type ℓ} ⦃c : Comparable K⦄ → List (K × V) → Type 0
Distinct [] = Unit
Distinct ((key, value) ∷ entries) = (contains key (keys entries) ≡ false) × Distinct entries

module _ {ℓ} {K V : Type ℓ} ⦃c : Comparable K⦄ where
  -- v, ok := m[k]
  unfoldable pub lookup : K → List (K × V) → Option V
  lookup key [] = none
  lookup key ((other, value) ∷ entries) = if other == key then some value else lookup key entries

  -- m[k] = v
  unfoldable pub insert : K → V → List (K × V) → List (K × V)
  insert key value [] = (key, value) ∷ []
  insert key value ((other, old) ∷ entries) =
      if other == key then (key, value) ∷ entries else (other, old) ∷ insert key value entries

  -- delete(m, k)
  unfoldable pub delete : K → List (K × V) → List (K × V)
  delete key [] = []
  delete key ((other, old) ∷ entries) =
      let rest = delete key entries in if other == key then rest else (other, old) ∷ rest

  pub lookup-insert :
      (key other : K) (value : V) (entries : List (K × V))
      → lookup other (insert key value entries)
        ≡ (if key == other then some value else lookup other entries)
  unfolding lookup insert
  lookup-insert key other value [] = refl
  lookup-insert key other value ((first, old) ∷ entries) = ground (
    arith,
    ==_iff key other,
    ==_iff first key,
    ==_iff first other,
    lookup-insert key other value entries,
  )

  pub lookup-delete :
      (key other : K) (entries : List (K × V))
      → lookup other (delete key entries) ≡ (if key == other then none else lookup other entries)
  unfolding lookup delete
  lookup-delete key other [] = ground arith
  lookup-delete key other ((first, old) ∷ entries) = ground (
    arith,
    ==_iff key other,
    ==_iff first key,
    ==_iff first other,
    lookup-delete key other entries,
  )

  pub contains-keys-insert :
      (key other : K) (value : V) (entries : List (K × V))
      → contains other (keys (insert key value entries))
        ≡ (key == other || contains other (keys entries))
  unfolding insert
  contains-keys-insert key other value [] = refl
  contains-keys-insert key other value ((first, old) ∷ entries) = ground (
    arith,
    ==_iff key other,
    ==_iff first key,
    ==_iff first other,
    contains-keys-insert key other value entries,
  )

  pub insert-Distinct :
      (key : K) (value : V) (entries : List (K × V))
      → Distinct entries
      → Distinct (insert key value entries)
  unfolding insert
  insert-Distinct key value [] d = (refl, tt)
  insert-Distinct key value ((first, old) ∷ entries) d = ground (
    arith,
    ==_iff first key,
    ==_iff key first,
    insert-Distinct key value entries,
    contains-keys-insert key first value entries,
  )

  contains-keys-delete :
      (key other : K) (entries : List (K × V))
      → contains other (keys entries) ≡ false
      → contains other (keys (delete key entries)) ≡ false
  unfolding delete
  contains-keys-delete key other [] h = refl
  contains-keys-delete key other ((first, old) ∷ entries) h =
      ground (arith, contains-keys-delete key other entries)

  pub delete-Distinct :
      (key : K) (entries : List (K × V)) → Distinct entries → Distinct (delete key entries)
  unfolding delete
  delete-Distinct key [] d = d
  delete-Distinct key ((first, old) ∷ entries) d =
      ground (arith, delete-Distinct key entries d.1, contains-keys-delete key first entries)

  pub lookup-eq-none_iff :
      (key : K) (entries : List (K × V))
      → (lookup key entries ≡ none) ↔ (contains key (keys entries) ≡ false)
  unfolding lookup
  lookup-eq-none_iff key [] = ground arith
  lookup-eq-none_iff key ((first, old) ∷ entries) = ground (arith, lookup-eq-none_iff key entries)

pub ruleset map_laws = (lookup-insert, lookup-delete)

module _ {K V : Type 0} ⦃c : Comparable K⦄ where
  In-keys :
      (key : K) (value : V) (entries : List (K × V))
      → In (key, value) entries
      → contains key (keys entries) ≡ true
  In-keys key value ((first, old) ∷ entries) (inl p) = ground (arith, ==_iff first key)
  In-keys key value ((first, old) ∷ entries) (inr h) = ground (arith, In-keys key value entries h)
  In-keys key value [] h = absurd h

  -- A `range` meets exactly the entries that a read finds.
  pub lookup-of_In :
      (key : K) (value : V) (entries : List (K × V))
      → Distinct entries
      → In (key, value) entries
      → lookup key entries ≡ some value
  unfolding lookup
  lookup-of_In key value ((first, old) ∷ entries) d (inl p) = ground (arith, ==_iff first key)
  lookup-of_In key value ((first, old) ∷ entries) d (inr h) =
      ground
        (arith, ==_iff first key, In-keys key value entries h, lookup-of_In key value entries d.1 h)
  lookup-of_In key value [] d h = absurd h

  pub In-of_lookup :
      (key : K) (value : V) (entries : List (K × V))
      → lookup key entries ≡ some value
      → In (key, value) entries
  unfolding lookup
  In-of_lookup key value ((first, old) ∷ entries) h =
      ground (arith, ==_iff first key, In-of_lookup key value entries)
  In-of_lookup key value [] h = cc

module _ {ℓ} {K V : Type ℓ} ⦃c : Comparable K⦄ (test : K × V → Bool) where
  contains-keys-select :
      (key : K) (entries : List (K × V))
      → contains key (keys entries) ≡ false
      → contains key (keys (select test entries)) ≡ false
  contains-keys-select key [] h = refl
  contains-keys-select key ((first, old) ∷ entries) h =
      ground (arith, contains-keys-select key entries)

  pub select-Distinct : (entries : List (K × V)) → Distinct entries → Distinct (select test entries)
  select-Distinct [] d = d
  select-Distinct ((first, old) ∷ entries) d =
      ground (arith, select-Distinct entries d.1, contains-keys-select first entries)
