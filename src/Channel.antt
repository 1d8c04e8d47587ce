-- ===== src/Channel.antt =====
-- Go's buffered channels as the loader uses them: `select { case c <- m: default: }` sends where the
-- buffer has room and drops the message where it is full.
pub mod Carries
use beacon_guard.Prelude.{
  ℕ, ◌≤◌, ◌<◌, ◌≡◌, List, [], ◌∷◌, ◌++◌, arith, length, length-append, ltb, if◌then◌else◌, if_cases,
  take, take_all, take-full, sym, ltb→lt, ltb-false_le,
}

module _ {ℓ} {A : Type ℓ} where
  -- Oldest first.
  unfoldable pub try_send : ℕ → A → List A → List A
  try_send cap m queue = if ltb (length queue) cap then queue ++ m ∷ [] else queue

  pub length-try_send :
      (cap : ℕ) (m : A) (queue : List A) → length queue ≤ cap → length (try_send cap m queue) ≤ cap
  unfolding try_send
  length-try_send cap m queue h =
      if_cases (λ q. length q ≤ cap) (ltb (length queue) cap) (queue ++ m ∷ []) queue
        (λ e. omega (arith, length-append queue (m ∷ []), ltb→lt _ _ e)) (λ _. h)

  pub try_send-full :
      (cap : ℕ) (m : A) (queue : List A) → cap ≤ length queue → try_send cap m queue ≡ queue
  unfolding try_send
  try_send-full cap m queue h = ground arith

  pub try_send-room :
      (cap : ℕ) (m : A) (queue : List A)
      → length queue < cap
      → try_send cap m queue ≡ queue ++ m ∷ []
  unfolding try_send
  try_send-room cap m queue h = ground arith

  -- On a buffer within its bound, a send keeps the first `cap` of the messages.
  pub try_send-take :
      (cap : ℕ) (m : A) (queue : List A)
      → length queue ≤ cap
      → try_send cap m queue ≡ take cap (queue ++ m ∷ [])
  unfolding try_send
  try_send-take cap m queue h =
      if_cases (λ q. q ≡ take cap (queue ++ m ∷ [])) (ltb (length queue) cap) _ _
        (λ e. sym (
          take_all cap (queue ++ m ∷ [])
            (omega (arith, length-append queue (m ∷ []), ltb→lt (length queue) cap e))))
        (λ e. sym (take-full cap queue m (omega (arith, ltb-false_le (length queue) cap e))))
