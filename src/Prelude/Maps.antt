-- ===== src/Prelude/Maps.antt =====
-- Go's maps as association lists. The order of the list stands for an order of iteration.
use mathlib.Core.Path.{◌≡◌, refl}
use mathlib.Core.Option.{Option, none, some}
use mathlib.Core.Logic.{inl, inr}
use mathlib.Core.Bool.{true, false}
use mathlib.Core.List.{List, [], ◌∷◌}
use native.Mathlib.Omega.{arith}
use system_wrangler_backend.Prelude.Tests.{if◌then◌else◌, Bool-cases}
use system_wrangler_backend.Prelude.Eq.{Eq, ◌==◌}

abbrev pub Map {ℓ κ} : Type ℓ → Type κ → Type (ℓ ⊔ κ)
Map K V = List (K × V)

module _ {ℓ κ} {K : Type ℓ} {V : Type κ} ⦃e : Eq K⦄ where
  -- `v, ok := m[k]`
  unfoldable pub lookup : K → Map K V → Option V
  lookup k [] = none
  lookup k ((j, v) ∷ rest) = if j == k then some v else lookup k rest

  -- `m[k] = v`
  unfoldable pub insert : K → V → Map K V → Map K V
  insert k new [] = (k, new) ∷ []
  insert k new ((j, old) ∷ rest) = if j == k then (k, new) ∷ rest else (j, old) ∷ insert k new rest

  -- `delete(m, k)`
  unfoldable pub delete : K → Map K V → Map K V
  delete k [] = []
  delete k ((j, v) ∷ rest) =
      let others = delete k rest in if j == k then others else (j, v) ∷ others

  pub lookup-insert :
      (k j : K) (new : V) (m : Map K V)
      → lookup j (insert k new m) ≡ (if k == j then some new else lookup j m)
  unfolding lookup insert
  lookup-insert k j new [] = refl
  lookup-insert k j new ((i, old) ∷ rest) =
      ground (arith, lookup-insert k j new rest, e.test_iff k j, e.test_iff i k, e.test_iff i j)

  pub lookup-delete :
      (k j : K) (m : Map K V) → lookup j (delete k m) ≡ (if k == j then none else lookup j m)
  unfolding lookup delete
  lookup-delete k j [] = ground arith
  lookup-delete k j ((i, v) ∷ m) =
      ground (arith, e.test_iff k j, e.test_iff i k, e.test_iff i j, lookup-delete k j m)

  -- No key has two entries, as in every map of the program.
  abbrev pub Distinct : Map K V → Type (ℓ ⊔ κ)
  Distinct [] = Unit
  Distinct ((k, v) ∷ rest) = (lookup k rest ≡ none) × Distinct rest

  absent_after :
      (k j : K) (v : V) (rest : Map K V)
      → lookup j rest ≡ none
      → (j == k) ≡ false
      → lookup j (insert k v rest) ≡ none
  absent_after k j v rest fresh h =
      let flipped : (k == j) ≡ false = ground (arith, e.test_iff j k, e.test_iff k j, h) in
      rw (lookup-insert k j v rest, flipped) fresh

  Distinct-cons :
      (k j : K) (v old : V) (rest : Map K V)
      → lookup j rest ≡ none
      → Distinct rest
      → Distinct (insert k v rest)
      → Distinct (if j == k then (k, v) ∷ rest else (j, old) ∷ insert k v rest)
  Distinct-cons k j v old rest fresh h ih = elim (Bool-cases (j == k)) [
    | inl t ↦ let same : j ≡ k = (e.test_iff j k).0 t in rw t (rw (← same) fresh, h)
    | inr t ↦ rw t (absent_after k j v rest fresh t, ih)
  ]

  pub insert-Distinct : (k : K) (v : V) (m : Map K V) → Distinct m → Distinct (insert k v m)
  unfolding insert lookup
  insert-Distinct k v [] h = (refl, tt)
  insert-Distinct k v ((j, old) ∷ rest) (fresh, h) =
      Distinct-cons k j v old rest fresh h (insert-Distinct k v rest h)

  pub same_key :
      (k j : K) (m : Map K V) (o : Option V) → lookup k m ≡ o → (k == j) ≡ true → lookup j m ≡ o
  same_key k j m o h t = let same : k ≡ j = (e.test_iff k j).0 t in rw (← same) h

pub ruleset map_laws = (lookup-insert, lookup-delete)
