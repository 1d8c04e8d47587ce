-- ===== src/Processor/Counts.antt =====
-- The counters of the processor (loader/event_processor.go) over a run.
use mathlib.Core.Path.{subst}
use native.Mathlib.Nat.{zero-add}
use native.Mathlib.Numerals.{one-add}
use beacon_guard.Prelude.{
  ℕ, suc, ◌+◌, ◌^◌, ◌≤◌, ◌<◌, ◌≡◌, refl, Bool, ◌&&◌, List, [], ◌∷◌, Option, none, some, Bytes,
  arith, add64, length, length-append, if◌then◌else◌, if_cases, is_some,
}
use beacon_guard.Config.{Config}
use beacon_guard.Event.{ok}
use beacon_guard.Float.{Float64}
use beacon_guard.Engine.Types.{is_kill, Anomaly}
use beacon_guard.Processor.{
  Processor, Input, send_to_api, kill_process, count_kill, handle_anomaly, count_event,
  count_anomaly, respond, process_event, round, run, new_processor,
}
use beacon_guard.Processor.Rounds.{done, bind-eq-ok, process_sample_cases}

-- How many of the rounds read a sample.
abbrev pub reads : List (Config × Input) → ℕ
reads [] = 0
reads ((config, i) ∷ rest) = (if is_some i.sample then 1 else 0) + reads rest

module _ {F : Type 0} where
  -- The counters after `n` samples, `spare` of the numbers being still unused.
  pub record Counts (n : ℕ) (w : Processor F) : Type 0 where
    pub processed : w.stats.events_processed ≡ n
    pub detected : w.stats.anomalies_detected ≤ n
    pub killed : w.stats.processes_killed ≤ w.stats.anomalies_detected
    pub signalled : length w.signals ≤ w.stats.processes_killed

  -- Within a round, before the answer: one sample more than the anomalies account for.
  record Pending (n : ℕ) (w : Processor F) : Type 0 where
    processed : w.stats.events_processed ≡ suc n
    detected : w.stats.anomalies_detected ≤ n
    killed : w.stats.processes_killed ≤ w.stats.anomalies_detected
    signalled : length w.signals ≤ w.stats.processes_killed

  Pending-Counts : (n : ℕ) (w : Processor F) → Pending n w → Counts (suc n) w
  Pending-Counts n w p = record {
    processed = p.processed;
    detected = omega arith;
    killed = p.killed;
    signalled = p.signalled;
  }

  count_event-Pending :
      (n : ℕ) (w : Processor F) → suc n < 2 ^ 63 → Counts n w → Pending n (count_event w)
  unfolding add64
  count_event-Pending n w h c = record {
    processed = omega (arith, c);
    detected = c.detected;
    killed = c.killed;
    signalled = c.signalled;
  }

  handle_anomaly-Counts :
      (config : Config) (found : ℕ → Bool) (now n : ℕ) (a : Anomaly F) (w : Processor F)
      → suc n < 2 ^ 63
      → Pending n w
      → Counts (suc n) (handle_anomaly config found now a (count_anomaly w))
  unfolding handle_anomaly send_to_api kill_process count_kill add64
  handle_anomaly-Counts config found now n a w h p =
      if_cases (Counts (suc n)) (config.auto_kill && is_kill a.action) _ _
        (λ _.
          if_cases (Counts (suc n)) (found a.pid) _ _
            (λ _. record {
              processed = p.processed;
              detected = omega (arith, p);
              killed = omega (arith, p);
              signalled = omega (arith, p, length-append w.signals (a.pid ∷ []));
            })
            (λ _. record {
              processed = p.processed;
              detected = omega (arith, p);
              killed = omega (arith, p);
              signalled = omega (arith, p);
            }))
        (λ _. record {
          processed = p.processed;
          detected = omega (arith, p);
          killed = omega (arith, p);
          signalled = p.signalled;
        })

  respond-Counts :
      (config : Config) (found : ℕ → Bool) (now n : ℕ) (o : Option (Anomaly F)) (w : Processor F)
      → suc n < 2 ^ 63
      → Pending n w
      → Counts (suc n) (respond config found now o w)
  unfolding respond
  respond-Counts config found now n none w h p = Pending-Counts n w p
  respond-Counts config found now n (some a) w h p =
      handle_anomaly-Counts config found now n a w h p

module _ {F : Type 0} (fl : Float64 F) (found : ℕ → Bool) where
  round-Counts :
      (config : Config) (i : Input) (sample : Option Bytes) (n : ℕ) (w w' : Processor F)
      → suc n < 2 ^ 63
      → Counts n w
      → round fl found config i sample w ≡ ok w'
      → Counts ((if is_some sample then 1 else 0) + n) w'
  unfolding round process_event
  round-Counts config i none n w w' h c e = subst (Counts (0 + n)) (done e) (rw zero-add c)
  round-Counts config i (some raw) n w w' h c e =
      let p = count_event-Pending n w h c in
      rw one-add (
        process_sample_cases fl found (Counts (suc n)) config i (count_event w) raw w'
          (Pending-Counts n _ p)
          (λ evt _. respond-Counts config found i.alerted n _ _ h (record {
            processed = p.processed;
            detected = p.detected;
            killed = p.killed;
            signalled = p.signalled;
          }))
          e)

  run-Counts :
      (inputs : List (Config × Input)) (n : ℕ) (w w' : Processor F)
      → n + length inputs < 2 ^ 63
      → Counts n w
      → run fl found inputs w ≡ ok w'
      → Counts (n + reads inputs) w'
  unfolding run
  run-Counts [] n w w' h c e = subst (λ m. Counts m w') (omega arith) (subst (Counts n) (done e) c)
  run-Counts ((config, i) ∷ rest) n w w' h c e =
      let (v, q, r) = bind-eq-ok (round fl found config i i.sample w) _ e in
      let k : ℕ = if is_some i.sample then 1 else 0 in
      let one : k ≤ 1 =
        if_cases (λ m. m ≤ 1) (is_some i.sample) 1 0 (λ _. omega arith) (λ _. omega arith) in
      subst (λ m. Counts m w') (omega arith)
        (run-Counts rest (k + n) v w' (omega arith)
          (round-Counts config i i.sample n w v (omega arith) c q) r)

  -- In a run of less than 2 ^ 63 rounds from the start, `EventsProcessed` is the number of rounds
  -- that read a sample, and the counters are ordered: no more anomalies than samples, no more kills
  -- than anomalies, no more signals sent than kills counted.
  pub run_new-Counts :
      (started built : ℕ) (inputs : List (Config × Input)) (w : Processor F)
      → length inputs < 2 ^ 63
      → run fl found inputs (new_processor fl found started built) ≡ ok w
      → Counts (reads inputs) w
  unfolding new_processor
  run_new-Counts started built inputs w h e =
      subst (λ m. Counts m w) (zero-add (reads inputs))
        (run-Counts inputs 0 _ w (omega arith)
          (record {
            processed = refl;
            detected = omega arith;
            killed = omega arith;
            signalled = omega arith;
          })
          e)
