-- ===== src/Processor.antt =====
-- loader/event_processor.go: the loop that reads samples, hands events to the engine, counts, and
-- answers anomalies with an alert and, where configured, a SIGKILL. The log is not modelled.
pub mod Rounds
pub mod Counts
pub mod Response
pub mod Monitor
pub mod Simulation
pub mod Scores
use beacon_guard.Prelude.{
  ℕ, Bool, true, false, ◌&&◌, List, [], ◌∷◌, ◌++◌, Option, none, some, String, Bytes, length, add64,
  ◌==◌, if◌then◌else◌,
}
use beacon_guard.Config.{Config}
use beacon_guard.Event.{Event, Outcome, ok, panic, ◌>>=◌, parse_event}
use beacon_guard.Float.{Float64}
use beacon_guard.Engine.Types.{RuleName, Severity, Action, is_kill, Detail, Anomaly}
use beacon_guard.Engine.{Engine, Readings, analyze, new_engine}
use beacon_guard.Channel.{try_send}

pub record Stats : Type 0 where
  pub events_processed : ℕ
  pub anomalies_detected : ℕ
  pub processes_killed : ℕ
  pub start_time : ℕ

-- The map that `handleAnomaly` builds.
pub record Alert (F : Type 0) : Type 0 where
  pub timestamp : ℕ
  pub severity : Severity
  pub rule : RuleName
  pub description : String
  pub pid : ℕ
  pub comm : Bytes
  pub score : ℕ
  pub action : Action
  pub details : List (String × Detail F)

-- `make(chan map[string]interface{}, 1000)`.
abbrev pub alert_capacity : ℕ
alert_capacity = 1000

-- The state that the loop works on: its counters, the engine, the alert channel, and the pids that
-- were sent a SIGKILL, oldest first.
pub record Processor (F : Type 0) : Type 0 where
  pub stats : Stats
  pub engine : Engine F
  pub alert_chan : List (Alert F)
  pub signals : List ℕ

-- One round of the loop: what `reader.Read` gives (`none` for an error), and the clock's readings.
pub record Input : Type 0 where
  pub sample : Option Bytes
  pub clock : Readings
  pub alerted : ℕ

module _ {F : Type 0} where
  unfoldable pub alert_of : ℕ → Anomaly F → Alert F
  alert_of now a = record {
    timestamp = now;
    severity = a.severity;
    rule = a.rule;
    description = a.description;
    pid = a.pid;
    comm = a.comm;
    score = a.score;
    action = a.action;
    details = a.details;
  }

  unfoldable pub send_to_api : Alert F → Processor F → Processor F
  send_to_api alert w = record w { alert_chan = try_send alert_capacity alert w.alert_chan }

  -- `killProcess`: `found` is whether `os.FindProcess` succeeds for the pid.
  unfoldable pub kill_process : (ℕ → Bool) → ℕ → Processor F → Processor F
  kill_process found pid w = if found pid then record w { signals = w.signals ++ pid ∷ [] } else w

  unfoldable pub count_kill : Processor F → Processor F
  count_kill w = record w {
    stats = record w.stats { processes_killed = add64 w.stats.processes_killed 1 };
  }

  -- `handleAnomaly`.
  unfoldable pub handle_anomaly : Config → (ℕ → Bool) → ℕ → Anomaly F → Processor F → Processor F
  handle_anomaly config found now a w =
      let w' = send_to_api (alert_of now a) w in
      if config.auto_kill && is_kill a.action then kill_process found a.pid (count_kill w') else w'

  abbrev pub count_event : Processor F → Processor F
  count_event w = record w {
    stats = record w.stats { events_processed = add64 w.stats.events_processed 1 };
  }

  abbrev pub count_anomaly : Processor F → Processor F
  count_anomaly w = record w {
    stats = record w.stats { anomalies_detected = add64 w.stats.anomalies_detected 1 };
  }

  -- The end of a round, on the answer of the engine.
  unfoldable pub respond : Config → (ℕ → Bool) → ℕ → Option (Anomaly F) → Processor F → Processor F
  respond config found now none w = w
  respond config found now (some a) w = handle_anomaly config found now a (count_anomaly w)

module _ {F : Type 0} (fl : Float64 F) (found : ℕ → Bool) where
  unfoldable pub process_event : Config → Input → Option Event → Processor F → Processor F
  process_event config i none w = w
  process_event config i (some evt) w =
      let (a, e) = analyze fl config i.clock evt w.engine in
      respond config found i.alerted a (record w { engine = e })

  unfoldable pub process_sample : Config → Input → Bytes → Processor F → Outcome (Processor F)
  process_sample config i raw w =
      if length raw == 0 then ok w else do evt ← parse_event raw; ok (process_event config i evt w)

  -- One round of the loop in `Start`. A panic ends the program.
  unfoldable pub round : Config → Input → Option Bytes → Processor F → Outcome (Processor F)
  round config i none w = ok w
  round config i (some raw) w = process_sample config i raw (count_event w)

  -- The rounds of a run, each with the configuration of its time.
  unfoldable pub run : List (Config × Input) → Processor F → Outcome (Processor F)
  run [] w = ok w
  run ((config, i) ∷ rest) w = do w' ← round config i i.sample w; run rest w'

  -- `NewEventProcessor`, `NewEngine` and the empty channel.
  unfoldable pub new_processor : ℕ → ℕ → Processor F
  new_processor started built = record {
    stats = record {
      events_processed = 0;
      anomalies_detected = 0;
      processes_killed = 0;
      start_time = started;
    };
    engine = new_engine fl built;
    alert_chan = [];
    signals = [];
  }
