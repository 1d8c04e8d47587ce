-- ===== src/Prelude/Assoc.antt =====
-- A Go map with number keys as an association list that holds each key once.
use Prim.Native.Nat.{ℕ, suc, ◌≤◌}
use mathlib.Core.Path.{◌≡◌}
use mathlib.Core.List.{List, [], ◌∷◌}
use mathlib.Core.Option.{Option, none, some}
use native.Mathlib.Omega.{arith}
use beacon_guard.Prelude.Tests.{◌==◌, if◌then◌else◌}
use beacon_guard.Prelude.Lists.{length}

module _ {ℓ} {V : Type ℓ} where
  abbrev pub values : List (ℕ × V) → List V
  values [] = []
  values ((_, value) ∷ rest) = value ∷ values rest

  -- `m[key] = value`.
  unfoldable pub insert : ℕ → V → List (ℕ × V) → List (ℕ × V)
  insert key value [] = (key, value) ∷ []
  insert key value ((other, old) ∷ rest) =
      if other == key then (other, value) ∷ rest else (other, old) ∷ insert key value rest

  -- `value, ok := m[key]`.
  unfoldable pub lookup : ℕ → List (ℕ × V) → Option V
  lookup key [] = none
  lookup key ((other, value) ∷ rest) = if other == key then some value else lookup key rest

  pub length-insert :
      (key : ℕ) (value : V) (m : List (ℕ × V)) → length (insert key value m) ≤ suc (length m)
  unfolding insert
  length-insert key value [] = omega arith
  length-insert key value ((other, old) ∷ rest) = ground (arith, length-insert key value rest)

  pub lookup-insert :
      (key asked : ℕ) (value : V) (m : List (ℕ × V))
      → lookup asked (insert key value m) ≡ (if key == asked then some value else lookup asked m)
  unfolding insert lookup
  lookup-insert key asked value [] = ground arith
  lookup-insert key asked value ((other, old) ∷ rest) =
      ground (arith, lookup-insert key asked value rest)

  pub lookup-insert_self :
      (key : ℕ) (value : V) (m : List (ℕ × V)) → lookup key (insert key value m) ≡ some value
  lookup-insert_self key value m = ground (arith, lookup-insert key key value m)
