-- ===== src/Prelude/Sublists.antt =====
-- A list with some elements left out, the others in their order.
use mathlib.Core.List.{List, [], ◌∷◌, ◌++◌}

pub data IsSublist {ℓ} {A : Type ℓ} : List A → List A → Type ℓ where
  done : IsSublist [] []
  skip : {xs ys : List A} (y : A) → IsSublist xs ys → IsSublist xs (y ∷ ys)
  keep : {xs ys : List A} (y : A) → IsSublist xs ys → IsSublist (y ∷ xs) (y ∷ ys)

module _ {ℓ} {A : Type ℓ} where
  pub skip_last : {xs ys : List A} (a : A) → IsSublist xs ys → IsSublist xs (ys ++ a ∷ [])
  skip_last a done = skip a done
  skip_last a (skip y h) = skip y (skip_last a h)
  skip_last a (keep y h) = keep y (skip_last a h)

  pub keep_last :
      {xs ys : List A} (a : A) → IsSublist xs ys → IsSublist (xs ++ a ∷ []) (ys ++ a ∷ [])
  keep_last a done = keep a done
  keep_last a (skip y h) = skip y (keep_last a h)
  keep_last a (keep y h) = keep y (keep_last a h)
