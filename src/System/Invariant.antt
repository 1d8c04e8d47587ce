-- ===== src/System/Invariant.antt =====
-- An invariant of the whole program of loader/main.go, and that its parts keep it.
use mathlib.Core.Path.{subst}
use mathlib.Core.List.{append_assoc, append-nil}
use beacon_guard.Prelude.{
  ℕ, ◌≤◌, ◌≡◌, refl, sym, ap, ◌∙◌, Bool, List, [], ◌∷◌, ◌++◌, Option, none, some, Bytes, arith,
  take, length, lookup, ◌==◌, AllEntries, insert-AllEntries, lookup-AllEntries, if_cases,
}
use beacon_guard.Config.{Config}
use beacon_guard.Event.{ok}
use beacon_guard.Float.{Float64}
use beacon_guard.Channel.{length-try_send}
use beacon_guard.Channel.Carries.{Carries}
use beacon_guard.Processor.{Alert, Processor, Input, alert_capacity, count_event, round}
use beacon_guard.Processor.Rounds.{IsSafe, done, bind-eq-ok, round_cases, process_event-IsSafe}
use beacon_guard.Processor.Monitor.{Monitor, monitor_of, watch, watch_all}
use beacon_guard.Processor.Simulation.{round-watch}
use beacon_guard.Server.{Server, take_from, client_capacity, broadcast, remove, add_alert, consume}
use beacon_guard.Server.Alerts.{Keeps, trim-Keeps}
use beacon_guard.System.{System, deliver}

-- No client's buffer holds more than 100 messages.
abbrev pub AllBuffers : List (ℕ × List Bytes) → Type 0
AllBuffers = AllEntries (λ _ queue. length queue ≤ client_capacity)

broadcast-AllBuffers :
    (msg : Bytes) (clients : List (ℕ × List Bytes))
    → AllBuffers clients
    → AllBuffers (broadcast msg clients)
unfolding broadcast
broadcast-AllBuffers msg [] h = tt
broadcast-AllBuffers msg ((c, queue) ∷ more) h =
    (length-try_send client_capacity msg queue h.0, broadcast-AllBuffers msg more h.1)

pub remove-AllBuffers :
    (c : ℕ) (clients : List (ℕ × List Bytes)) → AllBuffers clients → AllBuffers (remove c clients)
unfolding remove
remove-AllBuffers c [] h = tt
remove-AllBuffers c ((d, queue) ∷ more) h =
    if_cases AllBuffers (d == c) _ _ (λ _. remove-AllBuffers c more h.1)
      (λ _. (h.0, remove-AllBuffers c more h.1))

module _ {F : Type 0} where
  pub take_from-alerts :
      (c : ℕ) (s : Server F) (o : Option (List Bytes)) → (take_from c s o).1.alerts ≡ s.alerts
  take_from-alerts c s none = refl
  take_from-alerts c s (some []) = refl
  take_from-alerts c s (some (msg ∷ rest)) = refl

  pub take_from-AllBuffers :
      (c : ℕ) (s : Server F) (o : Option (List Bytes))
      → lookup c s.clients ≡ o
      → AllBuffers s.clients
      → AllBuffers (take_from c s o).1.clients
  take_from-AllBuffers c s none e h = h
  take_from-AllBuffers c s (some []) e h = h
  take_from-AllBuffers c s (some (msg ∷ rest)) e h =
      let whole = lookup-AllEntries _ c (msg ∷ rest) s.clients h e in
      insert-AllEntries _ c rest s.clients (omega (arith, whole)) h

  -- The system against the monitor of the same samples.
  pub record IsConsistent (fl : Float64 F) (found : ℕ → Bool) (start : Monitor F)
      (inputs : List (Config × Input)) (history : List (Alert F)) (s : System F) : Type 0 where
    pub log : List (Alert F)
    pub watched : watch_all fl found inputs start ≡ ok (monitor_of log s.processor)
    pub carries : Carries alert_capacity log (history ++ s.processor.alert_chan)
    pub keeps : Keeps history s.server.alerts
    pub safe : IsSafe s.processor
    pub buffers : AllBuffers s.server.clients

module _ {F : Type 0} (fl : Float64 F) (found : ℕ → Bool) where
  watch_all-snoc :
      (inputs : List (Config × Input)) (config : Config) (i : Input) (m v w : Monitor F)
      → watch_all fl found inputs m ≡ ok v
      → watch fl found config i i.sample v ≡ ok w
      → watch_all fl found (inputs ++ (config, i) ∷ []) m ≡ ok w
  watch_all-snoc [] config i m v w e h =
      subst (λ x. watch_all fl found ((config, i) ∷ []) x ≡ ok w) (sym (done e)) (rw h refl)
  watch_all-snoc ((c, j) ∷ more) config i m v w e h =
      let (u, q, r) = bind-eq-ok (watch fl found c j j.sample m) _ e in
      rw q (watch_all-snoc more config i u v w r h)

  round-IsSafe :
      (config : Config) (i : Input) (w w' : Processor F)
      → IsSafe w
      → round fl found config i i.sample w ≡ ok w'
      → IsSafe w'
  round-IsSafe config i w w' s =
      let counted : IsSafe (count_event w) = record { sound = s.sound; bounded = s.bounded } in
      round_cases fl found IsSafe config i i.sample w w' s counted
        (λ evt. process_event-IsSafe fl found config i _ evt counted)

  pub processed-IsConsistent :
      (start : Monitor F) (inputs : List (Config × Input)) (history : List (Alert F)) (s : System F)
      (i : Input) (w : Processor F)
      → round fl found s.config i i.sample s.processor ≡ ok w
      → IsConsistent fl found start inputs history s
      → IsConsistent fl found start
          (inputs ++ (s.config, i) ∷ [])
          history
          (record s { processor = w })
  processed-IsConsistent start inputs history s i w e c =
      let (log, m, carried) = round-watch fl found s.config i i.sample c.log s.processor w e in
      record {
        log = log;
        watched = watch_all-snoc inputs s.config i start _ _ c.watched m;
        carries = carried history c.carries;
        keeps = c.keeps;
        safe = round-IsSafe s.config i s.processor w c.safe e;
        buffers = c.buffers;
      }

module _ {F : Type 0} (fl : Float64 F) (found : ℕ → Bool) (start : Monitor F)
    (inputs : List (Config × Input)) (history : List (Alert F)) where
  after : System F → List (Alert F) × Server F → System F
  after s (queue, server) = record s {
    processor = record s.processor { alert_chan = queue };
    server = server;
  }

  consumed-IsConsistent :
      (message : Alert F → Bytes) (s : System F) (queue : List (Alert F))
      → s.processor.alert_chan ≡ queue
      → IsConsistent fl found start inputs history s
      → IsConsistent fl found start inputs
          (history ++ take 1 queue)
          (after s (consume message queue s.server))
  unfolding after consume add_alert
  consumed-IsConsistent message s [] e c =
      subst (λ h. IsConsistent fl found start inputs h (after s ([], s.server)))
        (sym (append-nil history))
        (subst (λ q. IsConsistent fl found start inputs history (after s (q, s.server))) e c)
  consumed-IsConsistent message s (a ∷ queue) e c =
      let waiting = ap length e in
      record {
        log = c.log;
        watched = c.watched;
        carries =
            subst (Carries alert_capacity c.log)
              (ap (◌++◌ history) e ∙ sym (append_assoc history (a ∷ []) queue)) c.carries;
        keeps = trim-Keeps history s.server.alerts a c.keeps;
        safe = record { sound = c.safe.sound; bounded = omega (arith, waiting, c.safe.bounded) };
        buffers = broadcast-AllBuffers (message a) s.server.clients c.buffers;
      }

  pub delivered-IsConsistent :
      (message : Alert F → Bytes) (s : System F)
      → IsConsistent fl found start inputs history s
      → IsConsistent fl found start inputs
          (history ++ take 1 s.processor.alert_chan)
          (deliver message s)
  unfolding deliver after
  delivered-IsConsistent message s = consumed-IsConsistent message s _ refl

  -- A change of the server that keeps its alerts is a change of the clients' buffers alone.
  pub with_server-IsConsistent :
      (s : System F) (server : Server F)
      → server.alerts ≡ s.server.alerts
      → AllBuffers server.clients
      → IsConsistent fl found start inputs history s
      → IsConsistent fl found start inputs history (record s { server = server })
  with_server-IsConsistent s server e h c = record {
    log = c.log;
    watched = c.watched;
    carries = c.carries;
    keeps = subst (Keeps history) (sym e) c.keeps;
    safe = c.safe;
    buffers = h;
  }
