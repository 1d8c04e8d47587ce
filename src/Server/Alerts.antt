-- ===== src/Server/Alerts.antt =====
-- The bounded store of alerts of loader/api_server.go against the full history of alerts: trimming
-- is never seen by a client of `/api/v1/alerts`.
use mathlib.Core.Path.{subst}
use mathlib.Core.List.{append_assoc, append-nil}
use beacon_guard.Prelude.{
  ℕ, ◌+◌, ◌-◌, ◌≤◌, ◌≡◌, refl, sym, ap, ◌∙◌, ◌⊎◌, inl, inr, List, [], ◌∷◌, ◌++◌, Bytes, arith,
  length, take, drop, length-append, length-drop, take-append-drop, drop-append, ltb, ltb→lt,
  ltb-false_le, if_cases,
}
use beacon_guard.Processor.{Alert}
use beacon_guard.Server.{
  Server, max_alerts, kept_alerts, trim, add_alert, new_server, handle_alerts,
}

module _ {F : Type 0} where
  -- The stored alerts are the newest of a history: all of them, or 5000 at least; and never more
  -- than 10000.
  pub record Keeps (history stored : List (Alert F)) : Type 0 where
    pub older : List (Alert F)
    pub newest : history ≡ older ++ stored
    pub enough : (older ≡ []) ⊎ (kept_alerts ≤ length stored)
    pub bounded : length stored ≤ max_alerts

  -- The last `n` alerts of a list, or all of them.
  abbrev pub last : ℕ → List (Alert F) → List (Alert F)
  last n xs = drop (length xs - n) xs

  pub trim-Keeps :
      (history stored : List (Alert F)) (a : Alert F)
      → Keeps history stored
      → Keeps (history ++ a ∷ []) (trim (stored ++ a ∷ []))
  unfolding trim
  trim-Keeps history stored a k =
      let xs = stored ++ a ∷ [] in
      let grown : history ++ a ∷ [] ≡ k.older ++ xs =
        ap (λ h. h ++ a ∷ []) k.newest ∙ append_assoc k.older stored (a ∷ []) in
      let len : length xs ≡ length stored + 1 = omega (arith, length-append stored (a ∷ [])) in
      if_cases (Keeps (history ++ a ∷ [])) (ltb max_alerts (length xs)) _ _
        (λ over.
          let big = ltb→lt max_alerts (length xs) over in
          let cut = length xs - kept_alerts in
          let five : length (drop cut xs) ≡ kept_alerts = omega (arith, length-drop cut xs) in
          record {
            older = k.older ++ take cut xs;
            newest =
                grown
                ∙ ap (◌++◌ k.older) (sym (take-append-drop cut xs))
                ∙ sym (append_assoc k.older (take cut xs) (drop cut xs));
            enough = inr (omega arith);
            bounded = omega arith;
          })
        (λ within.
          let small = ltb-false_le max_alerts (length xs) within in
          record {
            older = k.older;
            newest = grown;
            enough = elim k.enough [ inl e ↦ inl e | inr h ↦ inr (omega arith) ];
            bounded = small;
          })

  -- `AddAlert` for each alert of a list, oldest first.
  unfoldable pub add_all : (Alert F → Bytes) → List (Alert F) → Server F → Server F
  add_all message [] s = s
  add_all message (a ∷ more) s = add_all message more (add_alert message a s)

  add_all-Keeps :
      (message : Alert F → Bytes) (more history : List (Alert F)) (s : Server F)
      → Keeps history s.alerts
      → Keeps (history ++ more) (add_all message more s).alerts
  unfolding add_all add_alert
  add_all-Keeps message [] history s k = subst (λ h. Keeps h s.alerts) (sym (append-nil history)) k
  add_all-Keeps message (a ∷ more) history s k =
      subst (λ h. Keeps h (add_all message more (add_alert message a s)).alerts)
        (append_assoc history (a ∷ []) more)
        (add_all-Keeps message more (history ++ a ∷ []) (add_alert message a s)
          (trim-Keeps history s.alerts a k))

  -- After any number of alerts, the store holds the newest of them: all, or 5000 at least, and never
  -- more than 10000.
  pub add_all_new-Keeps :
      (message : Alert F → Bytes) (history : List (Alert F))
      → Keeps history (add_all message history new_server).alerts
  unfolding new_server
  add_all_new-Keeps message history =
      add_all-Keeps message history [] (record { alerts = []; clients = [] })
        (record { older = []; newest = refl; enough = inl refl; bounded = omega arith })

  last-older :
      (n : ℕ) (older xs : List (Alert F)) → n ≤ length xs → last n (older ++ xs) ≡ last n xs
  last-older n older xs h =
      let e : length (older ++ xs) - n ≡ length older + (length xs - n) =
        omega (arith, length-append older xs) in
      ap (λ k. drop k (older ++ xs)) e ∙ drop-append older xs (length xs - n)

  pub Keeps-last :
      (n : ℕ) (history stored : List (Alert F))
      → n ≤ kept_alerts
      → Keeps history stored
      → last n stored ≡ last n history
  Keeps-last n history stored h k = elim k.enough [
    | inl e ↦ rw (k.newest, e)
    | inr m ↦ rw k.newest (sym (last-older n k.older stored (omega arith)))
  ]

  pub handle_alerts-last : (s : Server F) → handle_alerts s ≡ last 100 s.alerts
  unfolding handle_alerts
  handle_alerts-last s =
      if_cases (λ xs. xs ≡ last 100 s.alerts) (ltb (length s.alerts) 100) _ _
        (λ few.
          let e : length s.alerts - 100 ≡ 0 = omega (arith, ltb→lt (length s.alerts) 100 few) in
          ap (λ k. drop k s.alerts) (sym e))
        (λ _. refl)

  -- `/api/v1/alerts` answers with the last 100 of all alerts that were ever added, or with all of
  -- them while there are fewer, in their order: the trimming of the store is never seen.
  pub handle_alerts-add_all :
      (message : Alert F → Bytes) (history : List (Alert F))
      → handle_alerts (add_all message history new_server) ≡ last 100 history
  handle_alerts-add_all message history =
      handle_alerts-last _
      ∙ Keeps-last 100 history _ (omega arith) (add_all_new-Keeps message history)
