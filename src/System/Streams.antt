-- ===== src/System/Streams.antt =====
-- What a client of the event stream (loader/api_server.go, `handleSSE`) receives, while all parts of
-- the program run.
use mathlib.Core.Path.{subst}
use mathlib.Core.List.{append-nil, append_assoc}
use mathlib.Core.Option
use beacon_guard.Prelude.{
  ℕ, ◌≡◌, refl, sym, ◌∙◌, Bool, false, List, [], ◌∷◌, ◌++◌, map, take, Option, none, some, Bytes,
  lookup, insert, lookup-insert, lookup-insert_self, ◌==◌, if◌then◌else◌, Bool-cases, ==_iff, inl,
  inr, IsSublist,
}
use beacon_guard.Config.{Fields}
use beacon_guard.Float.{Float64}
use beacon_guard.Channel.{try_send}
use beacon_guard.Channel.Carries.{Carries, try_send-Carries}
use beacon_guard.Config.{Config}
use beacon_guard.Processor.{Alert}
use beacon_guard.Server.{
  Server, client_capacity, remove, add_alert, consume, new_server, subscribe, take_from,
  take_message, unsubscribe,
}
use beacon_guard.Server.Clients.{lookup-broadcast, lookup-remove}
use beacon_guard.System.{
  System, new_system, deliver, request, Step, processed, delivered, requested, connected, written,
  disconnected, Reach, here, next,
}

abbrev at_most_one : Option Bytes → List Bytes
at_most_one none = []
at_most_one (some msg) = msg ∷ []

module _ {F : Type 0} (fl : Float64 F) (found : ℕ → Bool) (message : Alert F → Bytes)
    (decode : Bytes → Option Fields) (c : ℕ) where
  -- The messages of the alerts that the server was given since a client last connected on a channel.
  abbrev pub offered_after :
      {s t : System F} → List Bytes → Step fl found message decode s t → List Bytes
  offered_after msgs (delivered s) = msgs ++ map message (take 1 s.processor.alert_chan)
  offered_after msgs (connected s k new) = if k == c then [] else msgs
  offered_after msgs _ = msgs

  abbrev pub offered : {s t : System F} → Reach fl found message decode s t → List Bytes
  offered here = []
  offered (next r step) = offered_after (offered r) step

  -- The messages that were taken from the channel since, to be written to the client.
  abbrev taken_after : {s t : System F} → List Bytes → Step fl found message decode s t → List Bytes
  taken_after msgs (written s k) =
      if k == c then msgs ++ at_most_one (take_message c s.server).0 else msgs
  taken_after msgs (connected s k new) = if k == c then [] else msgs
  taken_after msgs _ = msgs

  abbrev pub taken : {s t : System F} → Reach fl found message decode s t → List Bytes
  taken here = []
  taken (next r step) = taken_after (taken r) step

-- What holds of the buffer of a channel, if it is registered.
abbrev Flows : List Bytes → List Bytes → Option (List Bytes) → Type 0
Flows sent received none = Unit {0}
Flows sent received (some queue) = Carries client_capacity sent (received ++ queue)

sent-Flows :
    (sent received : List Bytes) (msg : Bytes) (o : Option (List Bytes))
    → Flows sent received o
    → Flows (sent ++ msg ∷ []) received (Option.map (try_send client_capacity msg) o)
sent-Flows sent received msg none f = tt
sent-Flows sent received msg (some queue) f =
    try_send-Carries client_capacity msg received queue sent f

module _ {F : Type 0} (c : ℕ) (sent received : List Bytes) where
  consumed-Flows :
      (message : Alert F → Bytes) (queue : List (Alert F)) (s : Server F)
      → Flows sent received (lookup c s.clients)
      → Flows
          (sent ++ map message (take 1 queue))
          received
          (lookup c (consume message queue s).1.clients)
  unfolding consume add_alert
  consumed-Flows message [] s f = rw append-nil f
  consumed-Flows message (a ∷ queue) s f =
      rw (lookup-broadcast (message a) s.clients c)
        (sent-Flows sent received (message a) (lookup c s.clients) f)

  taken-Flows :
      (s : Server F) (o : Option (List Bytes))
      → lookup c s.clients ≡ o
      → Flows sent received o
      → Flows sent
          (received ++ at_most_one (take_from c s o).0)
          (lookup c (take_from c s o).1.clients)
  taken-Flows s none e f = rw e tt
  taken-Flows s (some []) e f = rw (e, append-nil received) f
  taken-Flows s (some (msg ∷ rest)) e f =
      rw (lookup-insert_self c rest s.clients)
        (subst (Carries client_capacity sent) (sym (append_assoc received (msg ∷ []) rest)) f)

  take_from-other :
      (k : ℕ) (s : Server F) (o : Option (List Bytes))
      → (k == c) ≡ false
      → lookup c (take_from k s o).1.clients ≡ lookup c s.clients
  take_from-other k s none e = refl
  take_from-other k s (some []) e = refl
  take_from-other k s (some (msg ∷ rest)) e = lookup-insert k c rest s.clients ∙ rw e refl

  written-Flows :
      (k : ℕ) (s : Server F)
      → Flows sent received (lookup c s.clients)
      → Flows sent
          (if k == c then received ++ at_most_one (take_message c s).0 else received)
          (lookup c (take_message k s).1.clients)
  unfolding take_message
  written-Flows k s f = elim (Bool-cases (k == c)) [
    | inl e ↦ rw (e, (==_iff k c).0 e) (taken-Flows s (lookup c s.clients) refl f)
    | inr e ↦ rw (e, take_from-other k s (lookup k s.clients) e) f
  ]

module _ (c : ℕ) (sent received : List Bytes) where
  connected-Flows :
      (k : ℕ) (clients : List (ℕ × List Bytes))
      → Flows sent received (lookup c clients)
      → Flows
          (if k == c then [] else sent)
          (if k == c then [] else received)
          (lookup c (insert k [] clients))
  connected-Flows k clients f = rw (lookup-insert k c [] clients) (elim (Bool-cases (k == c)) [
    | inl e ↦ rw e (record { ordered = IsSublist.done; lossless = inl refl })
    | inr e ↦ rw e f
  ])

  disconnected-Flows :
      (k : ℕ) (clients : List (ℕ × List Bytes))
      → Flows sent received (lookup c clients)
      → Flows sent received (lookup c (remove k clients))
  disconnected-Flows k clients f =
      rw (lookup-remove k c clients)
        (elim (Bool-cases (k == c)) [ inl e ↦ rw e tt | inr e ↦ rw e f ])

module _ {F : Type 0} (fl : Float64 F) (found : ℕ → Bool) (message : Alert F → Bytes)
    (decode : Bytes → Option Fields) (c : ℕ) where
  Step-Flows :
      (sent received : List Bytes) {s t : System F} (step : Step fl found message decode s t)
      → Flows sent received (lookup c s.server.clients)
      → Flows
          (offered_after fl found message decode c sent step)
          (taken_after fl found message decode c received step)
          (lookup c t.server.clients)
  unfolding deliver request subscribe unsubscribe
  Step-Flows sent received (processed s i w e) f = f
  Step-Flows sent received (delivered s) f =
      consumed-Flows c sent received message s.processor.alert_chan s.server f
  Step-Flows sent received (requested s path method body) f = f
  Step-Flows sent received (connected s k new) f =
      connected-Flows c sent received k s.server.clients f
  Step-Flows sent received (written s k) f = written-Flows c sent received k s.server f
  Step-Flows sent received (disconnected s k) f =
      disconnected-Flows c sent received k s.server.clients f

  Reach-Flows :
      (config : Config) (started built : ℕ) {s : System F}
      (r : Reach fl found message decode (new_system fl found config started built) s)
      → Flows
          (offered fl found message decode c r)
          (taken fl found message decode c r)
          (lookup c s.server.clients)
  unfolding new_system new_server lookup
  Reach-Flows config started built here = tt
  Reach-Flows config started built (next r step) =
      Step-Flows _ _ step (Reach-Flows config started built r)

  -- However the goroutines take turns: what a connected client was sent and what waits in its buffer are the
  -- messages of the alerts that the server was given since it connected, in order, some left out; and
  -- all of them while there are at most 100.
  pub Reach-Carries :
      (config : Config) (started built : ℕ) {s : System F}
      (r : Reach fl found message decode (new_system fl found config started built) s)
      (queue : List Bytes)
      → lookup c s.server.clients ≡ some queue
      → Carries client_capacity
          (offered fl found message decode c r)
          (taken fl found message decode c r ++ queue)
  Reach-Carries config started built r queue e =
      subst (Flows (offered fl found message decode c r) (taken fl found message decode c r)) e
        (Reach-Flows config started built r)
