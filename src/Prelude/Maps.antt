-- ===== src/Prelude/Maps.antt =====
-- Go maps with string keys.
use mathlib.Core.Path.{◌≡◌, refl, ap}
use mathlib.Core.Logic.{inl, inr}
use mathlib.Core.Bool.{Bool}
use mathlib.Core.Option.{Option, none, some}
use mathlib.Core.List.{List, [], ◌∷◌}
use native.Mathlib.Omega.{arith}
use thesa.Prelude.Tests.{if◌then◌else◌, Bool-cases}
use thesa.Prelude.Text.{Text, text_eq, text_eq_iff}

-- A map in one of the orders in which `range` may visit it.
abbrev pub Map {ℓ} : Type ℓ → Type ℓ
Map V = List (Text × V)

module _ {ℓ} {V : Type ℓ} where
  unfoldable pub lookup : Text → Map V → Option V
  lookup k [] = none
  lookup k ((j, v) ∷ m) = if text_eq j k then some v else lookup k m

  -- m[k] = v
  unfoldable pub insert : Text → V → Map V → Map V
  insert k v [] = (k, v) ∷ []
  insert k v ((j, w) ∷ m) =
      let rest = insert k v m in if text_eq j k then (k, v) ∷ m else (j, w) ∷ rest

  pub lookup-insert :
      (k j : Text) (v : V) (m : Map V)
      → lookup j (insert k v m) ≡ (if text_eq k j then some v else lookup j m)
  unfolding lookup insert
  lookup-insert k j v [] = refl
  lookup-insert k j v ((i, w) ∷ m) =
      ground (arith, text_eq_iff k j, text_eq_iff i k, text_eq_iff i j, lookup-insert k j v m)

-- The first of two that is there.
abbrev pub or_else {ℓ} : {A : Type ℓ} → Option A → Option A → Option A
or_else none second = second
or_else (some a) second = some a

module _ {ℓ} {V : Type ℓ} where
  pub lookup-cons :
      (k j : Text) (v : V) (m : Map V)
      → lookup k ((j, v) ∷ m) ≡ (if text_eq j k then some v else lookup k m)
  unfolding lookup
  lookup-cons k j v m = refl

module _ {ℓ} {V : Type ℓ} where
  -- delete(m, k) for each key that passes a test.
  unfoldable pub delete_if : (Text → Bool) → Map V → Map V
  delete_if p [] = []
  delete_if p ((j, v) ∷ m) = let rest = delete_if p m in if p j then rest else (j, v) ∷ rest

  pub lookup-delete_if :
      (p : Text → Bool) (k : Text) (m : Map V)
      → lookup k (delete_if p m) ≡ (if p k then none else lookup k m)
  unfolding lookup delete_if
  lookup-delete_if p k [] = ground arith
  lookup-delete_if p k ((j, v) ∷ m) = elim (Bool-cases (text_eq j k)) [
    | inl same ↦
        let e : j ≡ k = (text_eq_iff j k).0 same in
        let f : p j ≡ p k = ap p e in ground (arith, lookup-delete_if p k m, f, same)
    | inr other ↦ ground (arith, lookup-delete_if p k m, other)
  ]

module _ {V : Type 0} where
  -- No key stands twice, as in every Go map.
  abbrev pub DistinctKeys : Map V → Type 0
  DistinctKeys [] = Unit
  DistinctKeys ((k, v) ∷ m) = (lookup k m ≡ none) × DistinctKeys m
