-- ===== src/Server/Clients.antt =====
-- The event-stream clients of loader/api_server.go: what `AddAlert` puts into their buffers.
use mathlib.Core.List.{append-nil, append_assoc}
use mathlib.Core.Option
use beacon_guard.Prelude.{
  ℕ, ◌≤◌, ◌≡◌, refl, sym, ap, ◌∙◌, List, [], ◌∷◌, ◌++◌, map, none, some, Bytes, arith, length, take,
  take_all, take-take-append, lookup, insert, lookup-insert_self, ◌==◌, if◌then◌else◌, Bool-cases,
  inl, inr,
}
use beacon_guard.Channel.{try_send, try_send-take, length-try_send}
use beacon_guard.Processor.{Alert}
use beacon_guard.Server.{
  Server, client_capacity, broadcast, remove, add_alert, subscribe, unsubscribe,
}
use beacon_guard.Server.Alerts.{add_all}

pub lookup-broadcast :
    (msg : Bytes) (clients : List (ℕ × List Bytes)) (c : ℕ)
    → lookup c (broadcast msg clients)
      ≡ Option.map (try_send client_capacity msg) (lookup c clients)
unfolding lookup broadcast
lookup-broadcast msg [] c = refl
lookup-broadcast msg ((d, queue) ∷ more) c = elim (Bool-cases (d == c)) [
  | inl e ↦ rw e
  | inr e ↦ rw e (lookup-broadcast msg more c)
]

pub lookup-remove :
    (c d : ℕ) (clients : List (ℕ × List Bytes))
    → lookup d (remove c clients) ≡ (if c == d then none else lookup d clients)
unfolding lookup remove
lookup-remove c d [] = ground arith
lookup-remove c d ((k, queue) ∷ more) = ground (arith, lookup-remove c d more)

module _ {F : Type 0} (message : Alert F → Bytes) where
  add_all-buffer :
      (alerts : List (Alert F)) (c : ℕ) (s : Server F) (queue : List Bytes)
      → length queue ≤ client_capacity
      → lookup c s.clients ≡ some queue
      → lookup c (add_all message alerts s).clients
        ≡ some (take client_capacity (queue ++ map message alerts))
  unfolding add_all add_alert
  add_all-buffer [] c s queue h e =
      e
      ∙ ap some (sym (take_all client_capacity (queue ++ []) (rw append-nil h) ∙ append-nil queue))
  add_all-buffer (a ∷ alerts) c s queue h e =
      let sent = try_send client_capacity (message a) queue in
      let first : lookup c (add_alert message a s).clients ≡ some sent =
        lookup-broadcast (message a) s.clients c
        ∙ ap (Option.map (try_send client_capacity (message a))) e in
      let cut = try_send-take client_capacity (message a) queue h in
      add_all-buffer alerts c (add_alert message a s) sent
        (length-try_send client_capacity (message a) queue h) first
      ∙ ap (λ q. some (take client_capacity (q ++ map message alerts))) cut
      ∙ ap some (
          take-take-append client_capacity (queue ++ message a ∷ []) (map message alerts)
          ∙ ap (take client_capacity) (append_assoc queue (message a ∷ []) (map message alerts)))

  -- A client that has just connected and takes nothing from its channel has in its buffer the
  -- messages of the alerts added since, in order, up to the first 100; the later ones are dropped.
  pub subscribed-buffer :
      (alerts : List (Alert F)) (c : ℕ) (s : Server F)
      → lookup c (add_all message alerts (subscribe c s)).clients
        ≡ some (take client_capacity (map message alerts))
  unfolding subscribe
  subscribed-buffer alerts c s =
      add_all-buffer alerts c (record s { clients = insert c [] s.clients }) [] (omega arith)
        (lookup-insert_self c [] s.clients)

  add_all-absent :
      (alerts : List (Alert F)) (c : ℕ) (s : Server F)
      → lookup c s.clients ≡ none
      → lookup c (add_all message alerts s).clients ≡ none
  unfolding add_all add_alert
  add_all-absent [] c s e = e
  add_all-absent (a ∷ alerts) c s e = add_all-absent alerts c (add_alert message a s) (
      lookup-broadcast (message a) s.clients c
      ∙ ap (Option.map (try_send client_capacity (message a))) e)

  -- Once the handler of a client has ended, no alert brings its channel back.
  pub unsubscribed_gone :
      (alerts : List (Alert F)) (c : ℕ) (s : Server F)
      → lookup c (add_all message alerts (unsubscribe c s)).clients ≡ none
  unfolding unsubscribe
  unsubscribed_gone alerts c s =
      add_all-absent alerts c (record s { clients = remove c s.clients })
        (ground (arith, lookup-remove c c s.clients))
