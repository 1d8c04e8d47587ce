-- ===== src/Engine/Stats.antt =====
-- `GetStats` of loader/engine.go against sums over the profiles.
use beacon_guard.Prelude.{
  ℕ, ◌+◌, ◌%◌, ◌^◌, ◌<◌, ◌≡◌, ◌≢◌, refl, ◌∙◌, List, [], ◌∷◌, arith, add64, length, values,
  AllEntries,
}
use beacon_guard.Config.{Config}
use beacon_guard.Engine.Types.{State, learning, baseline, anomalous, Profile}
use beacon_guard.Engine.{Engine}
use beacon_guard.Engine.Reports.{EngineStats, no_stats, count_state, tally, get_stats}
use beacon_guard.Engine.Sound.{AllSound, IsSound}

abbrev learning_weight : State → ℕ
learning_weight learning = 1
learning_weight _ = 0

abbrev baseline_weight : State → ℕ
baseline_weight baseline = 1
baseline_weight _ = 0

abbrev anomalous_weight : State → ℕ
anomalous_weight anomalous = 1
anomalous_weight _ = 0

count_state-learning :
    (st : State) (s : EngineStats)
    → s.learning_count < 2 ^ 64
    → (count_state st s).learning_count ≡ add64 s.learning_count (learning_weight st)
unfolding add64
count_state-learning learning s h = refl
count_state-learning baseline s h = omega (arith, h)
count_state-learning anomalous s h = omega (arith, h)

count_state-baseline :
    (st : State) (s : EngineStats)
    → s.baseline_count < 2 ^ 64
    → (count_state st s).baseline_count ≡ add64 s.baseline_count (baseline_weight st)
unfolding add64
count_state-baseline learning s h = omega (arith, h)
count_state-baseline baseline s h = refl
count_state-baseline anomalous s h = omega (arith, h)

count_state-anomalous :
    (st : State) (s : EngineStats)
    → s.anomalous_count < 2 ^ 64
    → (count_state st s).anomalous_count ≡ add64 s.anomalous_count (anomalous_weight st)
unfolding add64
count_state-anomalous learning s h = omega (arith, h)
count_state-anomalous baseline s h = omega (arith, h)
count_state-anomalous anomalous s h = refl

count_state-sums :
    (st : State) (s : EngineStats)
    → ((count_state st s).total_anomalies ≡ s.total_anomalies)
      × ((count_state st s).total_suspicion ≡ s.total_suspicion)
count_state-sums learning s = (refl, refl)
count_state-sums baseline s = (refl, refl)
count_state-sums anomalous s = (refl, refl)

count_state-processes :
    (st : State) (s : EngineStats) → (count_state st s).total_processes ≡ s.total_processes
count_state-processes learning s = refl
count_state-processes baseline s = refl
count_state-processes anomalous s = refl

known_weights :
    (st : State)
    → st ≢ anomalous
    → (anomalous_weight st ≡ 0) × (learning_weight st + baseline_weight st ≡ 1)
known_weights learning h = (refl, refl)
known_weights baseline h = (refl, refl)
known_weights anomalous h = absurd (h refl)

module _ {F : Type 0} where
  abbrev pub sum_by : (Profile F → ℕ) → List (Profile F) → ℕ
  sum_by weight [] = 0
  sum_by weight (p ∷ ps) = weight p + sum_by weight ps

  abbrev charged : Profile F → EngineStats → EngineStats
  charged p s = record s {
    total_anomalies = add64 s.total_anomalies (length p.anomalies);
    total_suspicion = add64 s.total_suspicion p.suspicion_score;
  }

  abbrev counted : Profile F → EngineStats → EngineStats
  counted p s = count_state p.state (charged p s)

  -- A field to which each profile adds its weight ends as the sum, as a 64-bit integer.
  tally-sum :
      (field : EngineStats → ℕ) (weight : Profile F → ℕ)
      → ((p : Profile F) (s : EngineStats)
          → field s < 2 ^ 64
          → field (counted p s) ≡ add64 (field s) (weight p))
      → (ps : List (Profile F)) (s : EngineStats) → field s < 2 ^ 64
      → field (tally ps s) ≡ (field s + sum_by weight ps) % 2 ^ 64
  unfolding tally add64
  tally-sum field weight step [] s h = omega (arith, h)
  tally-sum field weight step (p ∷ ps) s h =
      let e = step p s h in
      let small : field (counted p s) < 2 ^ 64 = omega (arith, e) in
      let rest = tally-sum field weight step ps (counted p s) small in omega (arith, rest, e)

  tally-processes :
      (ps : List (Profile F)) (s : EngineStats) → (tally ps s).total_processes ≡ s.total_processes
  unfolding tally
  tally-processes [] s = refl
  tally-processes (p ∷ ps) s =
      tally-processes ps (counted p s) ∙ count_state-processes p.state (charged p s)

  sound_weights :
      (m : List (ℕ × Profile F))
      → AllEntries IsSound m
      → (sum_by (λ p. anomalous_weight p.state) (values m) ≡ 0)
        × (sum_by (λ p. learning_weight p.state) (values m)
              + sum_by (λ p. baseline_weight p.state) (values m)
            ≡ length m)
  sound_weights [] h = (refl, refl)
  sound_weights ((k, p) ∷ m) h =
      let rest = sound_weights m h.1 in
      let own = known_weights p.state h.0.known_state in
      (omega (arith, rest.0, own.0), omega (arith, rest.1, own.1))

  -- While every profile satisfies its invariant, `GetStats` reports no anomalous process, a learning or
  -- a baseline state for each process, and as totals the sums of the profiles' anomalies and
  -- suspicion scores, as 64-bit integers.
  pub get_stats-totals :
      (config : Config) (e : Engine F)
      → AllSound e
      → length e.profiles < 2 ^ 64
      → let r = get_stats config e in
        (r.anomalous_count ≡ 0)
        × (r.learning_count + r.baseline_count ≡ r.total_processes)
        × (r.total_anomalies ≡ sum_by (λ p. length p.anomalies) (values e.profiles) % 2 ^ 64)
        × (r.total_suspicion ≡ sum_by (λ p. p.suspicion_score) (values e.profiles) % 2 ^ 64)
  unfolding get_stats
  get_stats-totals config e sound few =
      let ps = values e.profiles in
      let o = no_stats config e in
      let w = sound_weights e.profiles sound in
      let l =
        tally-sum (λ s. s.learning_count) (λ p. learning_weight p.state)
          (λ p s h. count_state-learning p.state (charged p s) h) ps o (omega arith) in
      let b =
        tally-sum (λ s. s.baseline_count) (λ p. baseline_weight p.state)
          (λ p s h. count_state-baseline p.state (charged p s) h) ps o (omega arith) in
      let a =
        tally-sum (λ s. s.anomalous_count) (λ p. anomalous_weight p.state)
          (λ p s h. count_state-anomalous p.state (charged p s) h) ps o (omega arith) in
      let n = tally-processes ps o in
      let t =
        tally-sum (λ s. s.total_anomalies) (λ p. length p.anomalies)
          (λ p s _. (count_state-sums p.state (charged p s)).0) ps o (omega arith) in
      let u =
        tally-sum (λ s. s.total_suspicion) (λ p. p.suspicion_score)
          (λ p s _. (count_state-sums p.state (charged p s)).1) ps o (omega arith) in
      (omega (arith, a, w.0), omega (arith, l, b, n, w.1), omega (arith, t), omega (arith, u))
