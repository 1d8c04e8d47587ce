-- ===== src/Processor/Scores.antt =====
-- Suspicion scores over the runs of loader/event_processor.go, and the kills that they lead to.
use mathlib.Core.Path.{subst}
use beacon_guard.Prelude.{
  ℕ, ◌+◌, ◌*◌, ◌^◌, ◌≤◌, ◌<◌, ◌≡◌, refl, ap, sym, Bool, ◌&&◌, false, List, [], ◌∷◌, Option, none,
  some, arith, length, or_zero, Bytes, ==_false, if_cases, lookup,
}
use beacon_guard.Config.{Config, Fields, unmarshal, zero_config}
use beacon_guard.Event.{Event, ok, parse_event}
use beacon_guard.Float.{Float64}
use beacon_guard.Engine.Types.{is_kill, kill, Anomaly}
use beacon_guard.Engine.{Engine, Readings, analyze, new_engine}
use beacon_guard.Engine.Scores.{score_of, analyze-score, marked-score, reached-kill}
use beacon_guard.Processor.{
  Processor, Input, send_to_api, kill_process, count_kill, handle_anomaly, respond, process_event,
  round, run, process_sample, count_event, new_processor,
}
use beacon_guard.Processor.Rounds.{done, bind-eq-ok, round_cases}

module _ {F : Type 0} where
  respond-engine :
      (config : Config) (found : ℕ → Bool) (now : ℕ) (o : Option (Anomaly F)) (w : Processor F)
      → (respond config found now o w).engine ≡ w.engine
  unfolding respond handle_anomaly send_to_api kill_process count_kill
  respond-engine config found now none w = refl
  respond-engine config found now (some a) w =
      if_cases (λ (v : Processor F). v.engine ≡ w.engine) (config.auto_kill && is_kill a.action) _ _
        (λ _.
          if_cases (λ (v : Processor F). v.engine ≡ w.engine) (found a.pid) _ _ (λ _. refl)
            (λ _. refl))
        (λ _. refl)

  -- Between two states, the score of a process has grown by at most an amount.
  abbrev pub Grown : ℕ → ℕ → Engine F → Engine F → Type 0
  Grown k n e e' = (score_of k e ≤ score_of k e') × (score_of k e' ≤ score_of k e + n)

module _ {F : Type 0} (fl : Float64 F) (found : ℕ → Bool) (k : ℕ) where
  round-score :
      (config : Config) (i : Input) (w w' : Processor F)
      → score_of k w.engine + 120 < 2 ^ 64
      → round fl found config i i.sample w ≡ ok w'
      → Grown k 120 w.engine w'.engine
  unfolding process_event
  round-score config i w w' h =
      let idle : Grown k 120 w.engine w.engine = (omega arith, omega arith) in
      round_cases fl found (λ (v : Processor F). Grown k 120 w.engine v.engine) config i i.sample w
        w' idle idle
        (λ evt.
          subst (Grown k 120 w.engine)
            (sym
              (respond-engine config found i.alerted (analyze fl config i.clock evt w.engine).0 _))
            (analyze-score fl config i.clock evt w.engine k h))

  -- Over a run, the score of each process never decreases, and grows by at most 120 a round, as long as that fits into 64 bits.
  pub run-score :
      (inputs : List (Config × Input)) (w w' : Processor F)
      → score_of k w.engine + 120 * length inputs < 2 ^ 64
      → run fl found inputs w ≡ ok w'
      → (score_of k w.engine ≤ score_of k w'.engine)
        × (score_of k w'.engine ≤ score_of k w.engine + 120 * length inputs)
  unfolding run
  run-score [] w w' h e =
      subst (λ (v : Processor F). Grown k (120 * 0) w.engine v.engine) (done e)
        (omega arith, omega arith)
  run-score ((config, i) ∷ rest) w w' h e =
      let (v, q, r) = bind-eq-ok (round fl found config i i.sample w) _ e in
      let first = round-score config i w v (omega (arith, h)) q in
      let later = run-score rest v w' (omega (arith, h, first.1)) r in
      (omega (arith, first.0, later.0), omega (arith, first.1, later.1))

module _ {F : Type 0} (fl : Float64 F) (found : ℕ → Bool) where
  -- A round over a sample that parses to a marked connection raises the score of its process by 20.
  pub marked_round :
      (config : Config) (i : Input) (raw : Bytes) (evt : Event) (w : Processor F)
      → 0 < length raw
      → parse_event raw ≡ ok (some evt)
      → evt.kind ≡ 3
      → evt.ret ≡ 1
      → score_of evt.pid w.engine + 120 < 2 ^ 64
      → (w' : Processor F) × (round fl found config i (some raw) w ≡ ok w')
        × (score_of evt.pid w.engine + 20 ≤ score_of evt.pid w'.engine)
  unfolding round process_sample process_event
  marked_round config i raw evt w long parsed kind ret h =
      let answer = (analyze fl config i.clock evt w.engine).0 in
      (
        process_event fl found config i (some evt) (count_event w),
        rw (==_false (length raw) long, parsed) refl,
        subst (λ (e : Engine F). score_of evt.pid w.engine + 20 ≤ score_of evt.pid e)
            (sym (respond-engine config found i.alerted answer _))
            (marked-score fl config i.clock evt w.engine kind ret h),
      )

module _ {F : Type 0} (fl : Float64 F) (found : ℕ → Bool) where
  -- Once the score of a process has reached a threshold, every later anomaly of the process is answered with
  -- a kill under that threshold: whatever was processed in between, within the range of positive 64-bit integers.
  pub reached_stays :
      (inputs : List (Config × Input)) (w w' : Processor F) (config : Config) (t : Readings)
      (evt : Event) (a : Anomaly F)
      → config.learning_mode ≡ false
      → config.suspicion_threshold ≤ score_of evt.pid w.engine
      → score_of evt.pid w.engine + 120 * (length inputs + 1) < 2 ^ 63
      → run fl found inputs w ≡ ok w'
      → (analyze fl config t evt w'.engine).0 ≡ some a
      → a.action ≡ kill
  reached_stays inputs w w' config t evt a l reach h e q =
      let grown = run-score fl found evt.pid inputs w w' (omega (arith, h)) e in
      reached-kill fl config t evt w'.engine a l (omega (arith, reach, grown.0))
        (omega (arith, grown.1, h)) q

  -- A configuration of which the decoder supplied neither the learning mode nor the threshold, as a POST may leave them out, answers every anomaly with a
  -- kill, in a run of less than 2 ^ 56 rounds from the start.
  pub partial_config_kills :
      (started built : ℕ) (inputs : List (Config × Input)) (w : Processor F) (f : Fields)
      (t : Readings) (evt : Event) (a : Anomaly F)
      → f.learning_mode ≡ none
      → f.suspicion_threshold ≡ none
      → length inputs < 2 ^ 56
      → run fl found inputs (new_processor fl found started built) ≡ ok w
      → (analyze fl (unmarshal zero_config f) t evt w.engine).0 ≡ some a
      → a.action ≡ kill
  unfolding new_processor new_engine lookup unmarshal
  partial_config_kills started built inputs w f t evt a l s few e q =
      let zero_threshold = ap (or_zero 0) s in
      reached_stays inputs (new_processor fl found started built) w (unmarshal zero_config f) t evt
        a (ap (or_zero false) l) (omega (arith, zero_threshold)) (omega (arith, few)) e q
