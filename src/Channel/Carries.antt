-- ===== src/Channel/Carries.antt =====
-- What a dropping channel hands on: the messages that were received and those that wait, against all
-- that were sent.
use mathlib.Core.Path.{subst}
use mathlib.Core.List.{append_assoc}
use beacon_guard.Prelude.{
  ℕ, ◌≤◌, ◌<◌, ◌≡◌, sym, ap, ◌∙◌, ◌⊎◌, inl, inr, List, [], ◌∷◌, ◌++◌, arith, length, length-append,
  ltb, if_cases, split_lt, IsSublist, skip_last, keep_last,
}
use beacon_guard.Channel.{try_send, try_send-room}

-- The messages that were received and those that wait, together, are those that were sent, in order,
-- some left out; none while no more were sent than the channel has room for.
pub record Carries {ℓ} {A : Type ℓ} (cap : ℕ) (sent delivered : List A) : Type ℓ where
  pub ordered : IsSublist delivered sent
  pub lossless : (delivered ≡ sent) ⊎ (cap < length sent)

module _ {ℓ} {A : Type ℓ} (cap : ℕ) (m : A) (received queue sent : List A) where
  try_send-lossless :
      received ++ queue ≡ sent
      → length queue ≤ length sent
      → (received ++ try_send cap m queue ≡ sent ++ m ∷ []) ⊎ (cap < length (sent ++ m ∷ []))
  try_send-lossless e shorter = elim (split_lt (length queue) cap) [
    | inl room ↦ inl (
        ap (◌++◌ received) (try_send-room cap m queue room)
        ∙ sym (append_assoc received queue (m ∷ []))
        ∙ ap (λ l. l ++ m ∷ []) e)
    | inr full ↦ inr (omega (arith, full, shorter, length-append sent (m ∷ [])))
  ]

  pub try_send-Carries :
      Carries cap sent (received ++ queue)
      → Carries cap (sent ++ m ∷ []) (received ++ try_send cap m queue)
  unfolding try_send
  try_send-Carries c = record {
    ordered =
        if_cases (λ q. IsSublist (received ++ q) (sent ++ m ∷ [])) (ltb (length queue) cap) _ _
          (λ _.
            subst (λ q. IsSublist q (sent ++ m ∷ [])) (append_assoc received queue (m ∷ []))
              (keep_last _ c.ordered))
          (λ _. skip_last _ c.ordered);
    lossless = elim c.lossless [
      | inl e ↦
          let counted : length queue ≤ length sent =
            omega (arith, ap length e, length-append received queue) in
          try_send-lossless e counted
      | inr h ↦ inr (omega (arith, h, length-append sent (m ∷ [])))
    ];
  }
