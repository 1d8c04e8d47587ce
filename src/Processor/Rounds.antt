-- ===== src/Processor/Rounds.antt =====
-- Rules for the rounds of the loop in `Start` (loader/event_processor.go), and the invariant of the
-- engine and of the alert channel.
use mathlib.Core.Path.{subst}
use beacon_guard.Prelude.{
  ℕ, ◌≤◌, ◌≡◌, refl, Bool, ◌&&◌, List, [], ◌∷◌, Option, none, some, Bytes, arith, length, ◌==◌,
  if_cases,
}
use beacon_guard.Config.{Config}
use beacon_guard.Event.{Event, Outcome, ok, panic, ◌>>=◌, parse_event}
use beacon_guard.Float.{Float64}
use beacon_guard.Channel.{length-try_send}
use beacon_guard.Engine.Types.{is_kill, Anomaly}
use beacon_guard.Engine.Sound.{AllSound, analyze-AllSound, new_engine-AllSound}
use beacon_guard.Processor.{
  Processor, Input, alert_capacity, alert_of, send_to_api, kill_process, count_kill, handle_anomaly,
  count_event, count_anomaly, respond, process_event, process_sample, round, run, new_processor,
}

pub done : {A : Type 0} {x y : A} → ok x ≡ ok y → x ≡ y
done h = cc

pub bind-eq-ok :
    {A B : Type 0} (m : Outcome A) (f : A → Outcome B) {b : B}
    → (m >>= f) ≡ ok b
    → (a : A) × (m ≡ ok a) × (f a ≡ ok b)
bind-eq-ok (ok a) f h = (a, refl, h)
bind-eq-ok panic f h = cc

module _ {F : Type 0} where
  -- What holds of the engine and of the alert channel between two rounds.
  pub record IsSafe (w : Processor F) : Type 0 where
    pub sound : AllSound w.engine
    pub bounded : length w.alert_chan ≤ alert_capacity

module _ {F : Type 0} (fl : Float64 F) (found : ℕ → Bool) where
  -- A round that does not panic keeps the state, or counts a sample and perhaps handles its event.
  module _ {ℓ} (P : Processor F → Type ℓ) (config : Config) (i : Input) (w : Processor F) where
    pub process_sample_cases :
        (raw : Bytes) (w' : Processor F)
        → P w
        → ((evt : Event)
            → parse_event raw ≡ ok (some evt)
            → P (process_event fl found config i (some evt) w))
        → process_sample fl found config i raw w ≡ ok w'
        → P w'
    unfolding process_sample process_event
    process_sample_cases raw w' idle event =
        if_cases Goal (length raw == 0) _ _ (λ _ e. subst P (done e) idle)
          (λ _. parsed (parse_event raw) refl)
      where
        Goal : Outcome (Processor F) → Type ℓ
        Goal o = o ≡ ok w' → P w'

        parsed :
            (o : Outcome (Option Event))
            → parse_event raw ≡ o
            → Goal (o >>= λ evt. ok (process_event fl found config i evt w))
        parsed panic q e = cc
        parsed (ok none) q e = subst P (done e) idle
        parsed (ok (some evt)) q e = subst P (done e) (event evt q)

  pub round_cases {ℓ} :
      (P : Processor F → Type ℓ) (config : Config) (i : Input) (sample : Option Bytes)
      (w w' : Processor F)
      → P w
      → P (count_event w)
      → ((evt : Event) → P (process_event fl found config i (some evt) (count_event w)))
      → round fl found config i sample w ≡ ok w'
      → P w'
  unfolding round
  round_cases P config i none w w' idle counted event e = subst P (done e) idle
  round_cases P config i (some raw) w w' idle counted event e =
      process_sample_cases P config i (count_event w) raw w' counted (λ evt _. event evt) e

  -- What every round keeps, every run keeps.
  pub run_induction {ℓ} :
      (P : Processor F → Type ℓ)
      → ((config : Config) (i : Input) (w : Processor F) → P w → P (count_event w))
      → ((config : Config) (i : Input) (w : Processor F) (evt : Event)
          → P w
          → P (process_event fl found config i (some evt) w))
      → (inputs : List (Config × Input)) (w w' : Processor F) → P w
      → run fl found inputs w ≡ ok w'
      → P w'
  unfolding run
  run_induction P counts events [] w w' h e = subst P (done e) h
  run_induction P counts events ((config, i) ∷ rest) w w' h e =
      let (v, q, r) = bind-eq-ok (round fl found config i i.sample w) _ e in
      let counted = counts config i w h in
      run_induction P counts events rest v w'
        (round_cases P config i i.sample w v h counted
          (λ evt. events config i (count_event w) evt counted) q)
        r

  handle_anomaly-IsSafe :
      (config : Config) (now : ℕ) (a : Anomaly F) (w : Processor F)
      → IsSafe w
      → IsSafe (handle_anomaly config found now a w)
  unfolding handle_anomaly send_to_api kill_process count_kill
  handle_anomaly-IsSafe config now a w s =
      let full = length-try_send alert_capacity (alert_of now a) w.alert_chan s.bounded in
      if_cases IsSafe (config.auto_kill && is_kill a.action) _ _
        (λ _.
          if_cases IsSafe (found a.pid) _ _ (λ _. record { sound = s.sound; bounded = full })
            (λ _. record { sound = s.sound; bounded = full }))
        (λ _. record { sound = s.sound; bounded = full })

  respond-IsSafe :
      (config : Config) (now : ℕ) (o : Option (Anomaly F)) (w : Processor F)
      → IsSafe w
      → IsSafe (respond config found now o w)
  unfolding respond
  respond-IsSafe config now none w s = s
  respond-IsSafe config now (some a) w s =
      handle_anomaly-IsSafe config now a (count_anomaly w)
        (record { sound = s.sound; bounded = s.bounded })

  pub process_event-IsSafe :
      (config : Config) (i : Input) (w : Processor F) (evt : Event)
      → IsSafe w
      → IsSafe (process_event fl found config i (some evt) w)
  unfolding process_event
  process_event-IsSafe config i w evt s = respond-IsSafe config i.alerted _ _ (record {
    sound = analyze-AllSound fl config i.clock evt w.engine s.sound;
    bounded = s.bounded;
  })

  -- From the start of the program, after any samples, read errors and changes of the configuration,
  -- as long as no sample panics: every profile satisfies its invariant, and the alert channel holds
  -- at most 1000 alerts.
  pub run-IsSafe :
      (started built : ℕ) (inputs : List (Config × Input)) (w : Processor F)
      → run fl found inputs (new_processor fl found started built) ≡ ok w
      → IsSafe w
  unfolding new_processor
  run-IsSafe started built inputs w =
      run_induction IsSafe (λ config i v s. record { sound = s.sound; bounded = s.bounded })
        process_event-IsSafe inputs _ w
        (record { sound = new_engine-AllSound fl built; bounded = omega arith })
