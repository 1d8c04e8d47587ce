-- ===== src/Prelude/Entries.antt =====
-- Predicates on all entries of a map.
use Prim.Native.Nat.{ℕ}
use mathlib.Core.Path.{◌≡◌, sym, ap, subst}
use mathlib.Core.Logic.{inl, inr}
use mathlib.Core.List.{List, [], ◌∷◌}
use mathlib.Core.Option.{some}
use beacon_guard.Prelude.Tests.{◌==◌, Bool-cases, ==_iff, or_zero}
use beacon_guard.Prelude.Assoc.{lookup, insert}

module _ {V : Type 0} (P : ℕ → V → Type 0) where
  -- Every entry of the map satisfies the predicate.
  abbrev pub AllEntries : List (ℕ × V) → Type 0
  AllEntries [] = Unit {0}
  AllEntries ((k, v) ∷ m) = P k v × AllEntries m

  pub insert-AllEntries :
      (k : ℕ) (v : V) (m : List (ℕ × V)) → P k v → AllEntries m → AllEntries (insert k v m)
  unfolding insert
  insert-AllEntries k v [] h all = (h, tt)
  insert-AllEntries k v ((j, w) ∷ m) h all = elim (Bool-cases (j == k)) [
    | inl e ↦ rw e (subst (λ i. P i v) (sym ((==_iff j k).0 e)) h, all.1)
    | inr e ↦ rw e (all.0, insert-AllEntries k v m h all.1)
  ]

  pub lookup-AllEntries :
      (k : ℕ) (v : V) (m : List (ℕ × V)) → AllEntries m → lookup k m ≡ some v → P k v
  unfolding lookup
  lookup-AllEntries k v [] all e = cc
  lookup-AllEntries k v ((j, w) ∷ m) all e = elim (Bool-cases (j == k)) [
    | inl t ↦
        let e' : some w ≡ some v = rw t at e in
        subst (λ i. P i v) ((==_iff j k).0 t) (subst (P j) (ap (or_zero w) e') all.0)
    | inr t ↦ lookup-AllEntries k v m all.1 (rw t at e)
  ]
