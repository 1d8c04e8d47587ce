-- ===== src/Processor/Response.antt =====
-- What a sample leads to in the end (loader/event_processor.go with loader/engine.go): no panic on
-- whole samples, and the signals that are sent.
use beacon_guard.Prelude.{
  ℕ, ◌≤◌, ◌≡◌, refl, sym, ap, ◌∙◌, Bool, true, false, ◌&&◌, List, [], ◌∷◌, ◌++◌, Option, none, some,
  String, Bytes, arith, length, lookup, if◌then◌else◌, ==_false, or_zero,
}
use mathlib.Core.List.{append-nil}
use mathlib.Core.Option
use native.Mathlib.Nat.{le_trans}
use beacon_guard.Config.{Config}
use beacon_guard.Event.{Event, ok, num_at}
use beacon_guard.Event.Fields.{field, le_value}
use beacon_guard.Event.Parse.{
  required-min, required, word_in, event_of, parse_event-long, required-max,
}
use beacon_guard.Float.{Float64}
use beacon_guard.Engine.Types.{is_kill, Anomaly}
use beacon_guard.Engine.Rules.{bad_ports}
use beacon_guard.Engine.Decision.{KillAnswer, c2_port_kills}
use beacon_guard.Engine.{analyze}
use beacon_guard.Processor.{
  Processor, Input, send_to_api, kill_process, count_kill, handle_anomaly, count_event,
  count_anomaly, respond, process_event, process_sample, round, run,
}

module _ {F : Type 0} (config : Config) (found : ℕ → Bool) where
  -- The processes that an answer of the engine gets killed.
  abbrev pub targets : Option (Anomaly F) → List ℕ
  targets none = []
  targets (some a) =
      if config.auto_kill && is_kill a.action then (if found a.pid then a.pid ∷ [] else []) else []

  handle_anomaly-signals :
      (now : ℕ) (a : Anomaly F) (w : Processor F)
      → (handle_anomaly config found now a w).signals ≡ w.signals ++ targets (some a)
  unfolding handle_anomaly send_to_api kill_process count_kill
  handle_anomaly-signals now a w = ground (arith, append-nil w.signals)

-- Every sample that a run reads has at least 360 bytes, the size of the kernel's `struct event_t`.
abbrev pub AllWhole : List (Config × Input) → Type 0
AllWhole [] = Unit {0}
AllWhole ((config, i) ∷ rest) = (360 ≤ or_zero 360 (Option.map length i.sample)) × AllWhole rest

module _ {F : Type 0} (fl : Float64 F) (found : ℕ → Bool) where
  pub round-long :
      (config : Config) (i : Input) (raw : Bytes) (w : Processor F)
      → required (word_in raw 20) ≤ length raw
      → round fl found config i (some raw) w
        ≡ ok (process_event fl found config i (some (event_of raw)) (count_event w))
  unfolding round process_sample
  round-long config i raw w h = rw (
    ==_false (length raw) (le_trans (omega arith) (le_trans (required-min (word_in raw 20)) h)),
    parse_event-long raw h,
  )

  respond-signals :
      (config : Config) (now : ℕ) (o : Option (Anomaly F)) (w : Processor F)
      → (respond config found now o w).signals ≡ w.signals ++ targets config found o
  unfolding respond
  respond-signals config now none w = sym (append-nil w.signals)
  respond-signals config now (some a) w =
      handle_anomaly-signals config found now a (count_anomaly w)

  -- A round on a sample with the bytes that its type needs does not panic, and sends one SIGKILL or
  -- none: to the process of the engine's answer, if the answer is a kill, `auto_kill` is set and the
  -- process is found.
  pub round-signals :
      (config : Config) (i : Input) (raw : Bytes) (w : Processor F)
      → required (word_in raw 20) ≤ length raw
      → (w' : Processor F) × (round fl found config i (some raw) w ≡ ok w')
        × (w'.signals
            ≡ w.signals
              ++ targets config found (analyze fl config i.clock (event_of raw) w.engine).0)
  unfolding process_event
  round-signals config i raw w h =
      (_, round-long config i raw w h, respond-signals config i.alerted _ _)

  pub round_whole :
      (config : Config) (i : Input) (sample : Option Bytes) (w : Processor F)
      → 360 ≤ or_zero 360 (Option.map length sample)
      → (w' : Processor F) × (round fl found config i sample w ≡ ok w')
  unfolding round
  round_whole config i none w h = (w, refl)
  round_whole config i (some raw) w h =
      (_, round-long config i raw w (le_trans (required-max (word_in raw 20)) h))

  -- A run over whole samples never panics: it processes them all.
  pub run_whole :
      (inputs : List (Config × Input)) (w : Processor F)
      → AllWhole inputs
      → (w' : Processor F) × (run fl found inputs w ≡ ok w')
  unfolding run
  run_whole [] w h = (w, refl)
  run_whole ((config, i) ∷ rest) w h =
      let (v, e) = round_whole config i i.sample w h.0 in
      let (w', e') = run_whole rest v h.1 in (w', rw (e, run) e')

  port-event_of :
      (raw : Bytes)
      → word_in raw 20 ≡ 3
      → num_at "port" (event_of raw).payload ≡ le_value 2 (field raw 44 46)
  unfolding num_at
  port-event_of raw k = rw k

  killed_target :
      (config : Config) (evt : Event) (o : Option (Anomaly F))
      → config.auto_kill ≡ true
      → found evt.pid ≡ true
      → KillAnswer evt o
      → targets config found o ≡ evt.pid ∷ []
  killed_target config evt o auto there (a, e, k, _, own) = rw (e, auto, k, own, there)

  -- A connection sample of at least 54 bytes, of which the two that the loader takes for the port give a
  -- number of the table of command-and-control ports, gets its process killed in the same round, in
  -- enforcement mode with `auto_kill`, if the process is found.
  pub c2_sample_killed :
      (config : Config) (i : Input) (raw : Bytes) (w : Processor F) (reason : String)
      → config.learning_mode ≡ false
      → config.auto_kill ≡ true
      → found (word_in raw 0) ≡ true
      → 54 ≤ length raw
      → word_in raw 20 ≡ 3
      → lookup (le_value 2 (field raw 44 46)) bad_ports ≡ some reason
      → (w' : Processor F) × (round fl found config i (some raw) w ≡ ok w')
        × (w'.signals ≡ w.signals ++ word_in raw 0 ∷ [])
  c2_sample_killed config i raw w reason l auto there long k bad =
      let (w', e, s) = round-signals config i raw w (rw k long) in
      let answer =
        c2_port_kills fl config i.clock (event_of raw) w.engine reason l k
          (ap (λ p. lookup p bad_ports) (port-event_of raw k) ∙ bad) in
      (w', e, s ∙ ap (◌++◌ w.signals) (killed_target config (event_of raw) _ auto there answer))
