-- ===== src/Engine/Reports.antt =====
-- loader/engine.go: `GetProfiles` and `GetStats`.
use beacon_guard.Prelude.{ℕ, Bool, List, [], ◌∷◌, length, add64, insert, values}
use beacon_guard.Config.{Config}
use beacon_guard.Engine.Types.{State, learning, baseline, anomalous, Profile}
use beacon_guard.Engine.{Engine}

module _ {F : Type 0} where
  -- The loop of `GetProfiles` that copies the map. The copy holds the same profiles: it is read here
  -- at the moment at which it is made.
  unfoldable pub copy_profiles : List (ℕ × Profile F) → List (ℕ × Profile F)
  copy_profiles [] = []
  copy_profiles ((k, v) ∷ m) = insert k v (copy_profiles m)

  unfoldable pub get_profiles : Engine F → List (ℕ × Profile F)
  unfolding copy_profiles
  get_profiles e = copy_profiles e.profiles

-- What `GetStats` reports.
pub record EngineStats : Type 0 where
  pub total_processes : ℕ
  pub total_anomalies : ℕ
  pub total_suspicion : ℕ
  pub learning_count : ℕ
  pub baseline_count : ℕ
  pub anomalous_count : ℕ
  pub learning_mode : Bool
  pub threshold : ℕ

abbrev pub count_state : State → EngineStats → EngineStats
count_state learning s = record s { learning_count = add64 s.learning_count 1 }
count_state baseline s = record s { baseline_count = add64 s.baseline_count 1 }
count_state anomalous s = record s { anomalous_count = add64 s.anomalous_count 1 }

module _ {F : Type 0} where
  -- The loop of `GetStats` over the profiles.
  unfoldable pub tally : List (Profile F) → EngineStats → EngineStats
  tally [] s = s
  tally (p ∷ ps) s = tally ps (
      count_state p.state (record s {
        total_anomalies = add64 s.total_anomalies (length p.anomalies);
        total_suspicion = add64 s.total_suspicion p.suspicion_score;
      }))

  -- The variables before the loop.
  abbrev pub no_stats : Config → Engine F → EngineStats
  no_stats config e = record {
    total_processes = length e.profiles;
    total_anomalies = 0;
    total_suspicion = 0;
    learning_count = 0;
    baseline_count = 0;
    anomalous_count = 0;
    learning_mode = config.learning_mode;
    threshold = config.suspicion_threshold;
  }

  unfoldable pub get_stats : Config → Engine F → EngineStats
  unfolding tally
  get_stats config e = tally (values e.profiles) (no_stats config e)
