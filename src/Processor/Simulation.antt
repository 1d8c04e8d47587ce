-- ===== src/Processor/Simulation.antt =====
-- The rounds of loader/event_processor.go do what the monitor does, whatever the alert channel holds;
-- and an alert reaches the channel in its order, if there is room.
use mathlib.Core.Path.{subst}
use mathlib.Core.List.{append-nil}
use beacon_guard.Prelude.{
  ℕ, ◌≡◌, refl, sym, ap, ◌∙◌, Bool, ◌&&◌, List, ◌++◌, Option, none, some, Bytes, length, ◌==◌,
  if_cases, Bool-cases, inl, inr,
}
use beacon_guard.Config.{Config}
use beacon_guard.Channel.Carries.{Carries, try_send-Carries}
use beacon_guard.Event.{Event, ok, ◌>>=◌}
use beacon_guard.Float.{Float64}
use beacon_guard.Engine.Types.{is_kill, Anomaly}
use beacon_guard.Engine.{analyze}
use beacon_guard.Processor.{
  Alert, Processor, Input, alert_capacity, alert_of, send_to_api, kill_process, count_kill,
  handle_anomaly, count_event, respond, process_event, process_sample, round,
}
use beacon_guard.Processor.Rounds.{done, bind-eq-ok}
use beacon_guard.Processor.Response.{targets}
use beacon_guard.Processor.Monitor.{
  event_in, monitor_of, kills, logged, sent, anomalies, watch_event, watch,
}

module _ {F : Type 0} where
  sent-Carries :
      (now : ℕ) (o : Option (Anomaly F)) (history log queue : List (Alert F))
      → Carries alert_capacity log (history ++ queue)
      → Carries alert_capacity (logged now o log) (history ++ sent now o queue)
  sent-Carries now none history log queue c = c
  sent-Carries now (some a) history log queue c =
      try_send-Carries alert_capacity (alert_of now a) history queue log c

module _ {F : Type 0} (fl : Float64 F) (found : ℕ → Bool) where
  respond-monitor :
      (config : Config) (now : ℕ) (o : Option (Anomaly F)) (log : List (Alert F)) (w : Processor F)
      → monitor_of (logged now o log) (respond config found now o w) ≡ record {
        stats = record w.stats {
          anomalies_detected = anomalies o w.stats.anomalies_detected;
          processes_killed = kills config o w.stats.processes_killed;
        };
        engine = w.engine;
        log = logged now o log;
        signals = w.signals ++ targets config found o;
      }
  unfolding respond handle_anomaly send_to_api kill_process count_kill
  respond-monitor config now none log w = rw (append-nil w.signals) refl
  respond-monitor config now (some a) log w =
      elim (Bool-cases (config.auto_kill && is_kill a.action)) [
        | inl e ↦ elim (Bool-cases (found a.pid)) [
          | inl f ↦ rw (e, f) refl
          | inr f ↦ rw (e, f, append-nil w.signals) refl
        ]
        | inr e ↦ rw (e, append-nil w.signals) refl
      ]

  pub respond-chan :
      (config : Config) (now : ℕ) (o : Option (Anomaly F)) (w : Processor F)
      → (respond config found now o w).alert_chan ≡ sent now o w.alert_chan
  unfolding respond handle_anomaly send_to_api kill_process count_kill
  respond-chan config now none w = refl
  respond-chan config now (some a) w =
      if_cases (λ (v : Processor F). v.alert_chan ≡ sent now (some a) w.alert_chan)
        (config.auto_kill && is_kill a.action) _ _
        (λ _.
          if_cases (λ (v : Processor F). v.alert_chan ≡ sent now (some a) w.alert_chan)
            (found a.pid) _ _ (λ _. refl) (λ _. refl))
        (λ _. refl)

  process_sample-event_in :
      (config : Config) (i : Input) (raw : Bytes) (w : Processor F)
      → process_sample fl found config i raw w
        ≡ (event_in raw >>= λ evt. ok (process_event fl found config i evt w))
  unfolding process_sample process_event
  process_sample-event_in config i raw w = elim (Bool-cases (length raw == 0)) [
    | inl e ↦ rw e refl
    | inr e ↦ rw e refl
  ]

  process_event-watch :
      (config : Config) (i : Input) (evt : Option Event) (log : List (Alert F)) (w : Processor F)
      → (log' : List (Alert F)) × (watch_event fl found config i evt (monitor_of log w)
          ≡ monitor_of log' (process_event fl found config i evt w))
        × ((history : List (Alert F))
            → Carries alert_capacity log (history ++ w.alert_chan)
            → Carries alert_capacity log'
                (history ++ (process_event fl found config i evt w).alert_chan))
  unfolding process_event
  process_event-watch config i none log w = (log, refl, λ _ c. c)
  process_event-watch config i (some evt) log w =
      let (a, e) = analyze fl config i.clock evt w.engine in
      (
        logged i.alerted a log,
        sym (respond-monitor config i.alerted a log (record w { engine = e })),
        λ history c.
            subst (λ q. Carries alert_capacity (logged i.alerted a log) (history ++ q))
              (sym (respond-chan config i.alerted a (record w { engine = e })))
              (sent-Carries i.alerted a history log w.alert_chan c),
      )

  pub round-watch :
      (config : Config) (i : Input) (sample : Option Bytes) (log : List (Alert F))
      (w w' : Processor F)
      → round fl found config i sample w ≡ ok w'
      → (log' : List (Alert F)) × (watch fl found config i sample (monitor_of log w)
          ≡ ok (monitor_of log' w'))
        × ((history : List (Alert F))
            → Carries alert_capacity log (history ++ w.alert_chan)
            → Carries alert_capacity log' (history ++ w'.alert_chan))
  unfolding round
  round-watch config i none log w w' e = (
    log,
    ap (λ v. ok (monitor_of log v)) (done e),
    λ history.
        subst (λ (v : Processor F). Carries alert_capacity log (history ++ v.alert_chan)) (done e),
  )
  round-watch config i (some raw) log w w' e =
      let (evt, q, r) =
        bind-eq-ok (event_in raw) _
          (sym (process_sample-event_in config i raw (count_event w)) ∙ e) in
      let (log', m, carried) = process_event-watch config i evt log (count_event w) in
      (
        log',
        rw q (ap ok (m ∙ ap (monitor_of log') (done r))),
        λ history c.
            subst (λ (v : Processor F). Carries alert_capacity log' (history ++ v.alert_chan))
              (done r) (carried history c),
      )
