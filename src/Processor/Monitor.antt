-- ===== src/Processor/Monitor.antt =====
-- What the event processor of loader/event_processor.go promises: it counts, logs every alert that it
-- raises and sends the signals. The log has no bound, and nobody reads it.
use beacon_guard.Prelude.{
  ℕ, Bool, ◌&&◌, List, [], ◌∷◌, ◌++◌, Option, none, some, Bytes, length, add64, ◌==◌, if◌then◌else◌,
}
use beacon_guard.Config.{Config}
use beacon_guard.Channel.{try_send}
use beacon_guard.Event.{Event, Outcome, ok, ◌>>=◌, parse_event}
use beacon_guard.Float.{Float64}
use beacon_guard.Engine.Types.{is_kill, Anomaly}
use beacon_guard.Engine.{Engine, analyze, new_engine}
use beacon_guard.Processor.{Stats, Alert, Processor, Input, alert_capacity, alert_of}
use beacon_guard.Processor.Response.{targets}

pub record Monitor (F : Type 0) : Type 0 where
  pub stats : Stats
  pub engine : Engine F
  pub log : List (Alert F)
  pub signals : List ℕ

-- The event of a sample; an empty sample has none.
abbrev pub event_in : Bytes → Outcome (Option Event)
event_in raw = if length raw == 0 then ok none else parse_event raw

module _ {F : Type 0} where
  -- The part of the processor's state that the monitor has, with a log.
  abbrev pub monitor_of : List (Alert F) → Processor F → Monitor F
  monitor_of log w = record { stats = w.stats; engine = w.engine; log = log; signals = w.signals }

  abbrev pub kills : Config → Option (Anomaly F) → ℕ → ℕ
  kills config none n = n
  kills config (some a) n = if config.auto_kill && is_kill a.action then add64 n 1 else n

  abbrev pub logged : ℕ → Option (Anomaly F) → List (Alert F) → List (Alert F)
  logged now none log = log
  logged now (some a) log = log ++ alert_of now a ∷ []

  abbrev pub sent : ℕ → Option (Anomaly F) → List (Alert F) → List (Alert F)
  sent now none queue = queue
  sent now (some a) queue = try_send alert_capacity (alert_of now a) queue

  abbrev pub anomalies : Option (Anomaly F) → ℕ → ℕ
  anomalies none n = n
  anomalies (some _) n = add64 n 1

module _ {F : Type 0} (fl : Float64 F) (found : ℕ → Bool) where
  abbrev pub watch_event : Config → Input → Option Event → Monitor F → Monitor F
  watch_event config i none m = m
  watch_event config i (some evt) m =
      let (a, e) = analyze fl config i.clock evt m.engine in
      record {
        stats = record m.stats {
          anomalies_detected = anomalies a m.stats.anomalies_detected;
          processes_killed = kills config a m.stats.processes_killed;
        };
        engine = e;
        log = logged i.alerted a m.log;
        signals = m.signals ++ targets config found a;
      }

  abbrev pub watch : Config → Input → Option Bytes → Monitor F → Outcome (Monitor F)
  watch config i none m = ok m
  watch config i (some raw) m = do
    evt ← event_in raw
    ok (
        watch_event config i evt (record m {
          stats = record m.stats { events_processed = add64 m.stats.events_processed 1 };
        }))

  abbrev pub watch_all : List (Config × Input) → Monitor F → Outcome (Monitor F)
  watch_all [] m = ok m
  watch_all ((config, i) ∷ rest) m = do m' ← watch config i i.sample m; watch_all rest m'

  abbrev pub new_monitor : ℕ → ℕ → Monitor F
  new_monitor started built = record {
    stats = record {
      events_processed = 0;
      anomalies_detected = 0;
      processes_killed = 0;
      start_time = started;
    };
    engine = new_engine fl built;
    log = [];
    signals = [];
  }
