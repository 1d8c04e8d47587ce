-- ===== src/Engine.antt =====
-- loader/engine.go: `Analyze`, which follows each process and runs the rules. The profiles are a map
-- from pid to profile.
pub mod Types
pub mod Rules
pub mod Guards
pub mod Settled
pub mod Matches
pub mod Sound
pub mod Stats
pub mod Scores
pub mod Windows
pub mod Verdict
pub mod Decision
pub mod Parsed
pub mod Reports
use beacon_guard.Prelude.{
  ℕ, suc, ◌+◌, Bool, true, false, not, List, [], ◌∷◌, ◌++◌, Option, none, some, Bytes, length,
  add64, lt64, lookup, insert, values, ◌==◌, if◌then◌else◌,
}
use beacon_guard.Config.{Config}
use beacon_guard.Event.{Event, text_at?, text_at, num_at}
use beacon_guard.Float.{Float64, elapsed}
use Types.{
  State, learning, baseline, anomalous, kill, outbound, ConnectionRecord, Anomaly, Profile,
  Baseline, Rule,
}
use Rules.{rules}

pub record Engine (F : Type 0) : Type 0 where
  pub profiles : List (ℕ × Profile F)
  pub global : Baseline F

-- The readings of the clock that one call of `Analyze` takes, in the order of the source.
pub record Readings : Type 0 where
  pub created : ℕ
  pub seen : ℕ
  pub connected : ℕ
  pub since : ℕ
  pub checked : ℕ
  pub stamped : ℕ

abbrev add_name : Option Bytes → List Bytes → List Bytes
add_name none names = names
add_name (some name) names = names ++ name ∷ []

module _ {F : Type 0} where
  -- `&ProcessProfile{…}` of a pid that is met for the first time.
  abbrev pub new_profile : Event → ℕ → Profile F
  new_profile evt now = record {
    pid = evt.pid;
    comm = evt.comm;
    first_seen = now;
    last_seen = 0;
    exec_count = 0;
    file_write_count = 0;
    network_conn_count = 0;
    connections = [];
    file_writes = [];
    executables = [];
    suspicion_score = 0;
    anomalies = [];
    state = learning;
  }

  abbrev pub or_new : Event → ℕ → Option (Profile F) → Profile F
  or_new evt now none = new_profile evt now
  or_new evt now (some p) = p

  -- The cases of the `switch` on the type of the event: EXECVE, OPEN and CONNECT.
  unfoldable pub track_exec : Event → Profile F → Profile F
  track_exec evt p = record p {
    exec_count = add64 p.exec_count 1;
    executables = add_name (text_at? "filename" evt.payload) p.executables;
  }

  unfoldable pub track_open : Event → Profile F → Profile F
  track_open evt p = record p {
    file_write_count = add64 p.file_write_count 1;
    file_writes = add_name (text_at? "filename" evt.payload) p.file_writes;
  }

  unfoldable pub track_connect : Event → ℕ → Profile F → Profile F
  track_connect evt now p = record p {
    network_conn_count = add64 p.network_conn_count 1;
    suspicion_score = if evt.ret == 1 then add64 p.suspicion_score 20 else p.suspicion_score;
    connections =
        p.connections
        ++ record {
          ip = text_at "ip" evt.payload;
          port = num_at "port" evt.payload;
          timestamp = now;
          direction = outbound;
        }
          ∷ [];
  }

  unfoldable pub track : Event → ℕ → Profile F → Profile F
  track evt now p =
      if evt.kind == 1
      then track_exec evt p
      else if evt.kind == 2
      then track_open evt p
      else if evt.kind == 3
      then track_connect evt now p
      else p

  -- The profile after `LastSeen` and the `switch`.
  unfoldable pub observe : Readings → Event → Engine F → Profile F
  observe t evt e =
      track evt t.connected
        (record (or_new evt t.created (lookup evt.pid e.profiles)) { last_seen = t.seen })

  abbrev pub or_else :
      Rule F → Option (Anomaly F) → Option (Rule F × Anomaly F) → Option (Rule F × Anomaly F)
  or_else r none rest = rest
  or_else r (some a) rest = some (r, a)

  -- The first rule, in order, that matches, with its anomaly.
  unfoldable pub first_match :
      List (Rule F) → Event → Profile F → Baseline F → Option (Rule F × Anomaly F)
  first_match [] evt p bl = none
  first_match (r ∷ rs) evt p bl =
      let rest = first_match rs evt p bl in or_else r (r.matches evt p bl) rest

  abbrev pub complete : ℕ → Event → Rule F → Anomaly F → Anomaly F
  complete now evt r a = record a {
    pid = evt.pid;
    comm = evt.comm;
    timestamp = now;
    score = r.score;
  }

  -- The body of the loop at the rule that matched. The profile keeps the anomaly as it is before
  -- the escalation.
  unfoldable pub judge :
      Config → ℕ → Event → Profile F → Option (Rule F × Anomaly F) → Option (Anomaly F) × Profile F
  judge config now evt p none = (none, p)
  judge config now evt p (some (r, a)) =
      let a' = complete now evt r a in
      let p' : Profile F = record p {
        suspicion_score = add64 p.suspicion_score a'.score;
        anomalies = p.anomalies ++ a' ∷ [];
      } in
      (
        some (
            if not (lt64 p'.suspicion_score config.suspicion_threshold)
            then record a' { action = kill }
            else a'),
        p',
      )

  unfoldable pub store : Event → Engine F → Profile F → Engine F
  store evt e p = record e { profiles = insert evt.pid p e.profiles }

module _ {F : Type 0} (fl : Float64 F) where
  open fl use {lt, of_int, literal}

  -- `NewEngine`.
  unfoldable pub new_engine : ℕ → Engine F
  new_engine now = record {
    profiles = [];
    global = record {
      max_exec_per_min = literal 0 1;
      max_file_write_per_min = literal 0 1;
      max_conn_per_min = literal 0 1;
      known_parents = [];
      known_connections = [];
      typical_file_paths = [];
      build_time = now;
      sample_count = 0;
    };
  }

  -- Learning mode: only the state may change.
  unfoldable pub learn : Config → ℕ → Profile F → Profile F
  learn config now p =
      if lt (of_int config.baseline_window_sec) (elapsed fl p.first_seen now)
      then record p { state = baseline }
      else p

  -- Enforcement mode: the rules on the profile, whose state is now "baseline".
  unfoldable pub enforce :
      Config → Readings → Event → Baseline F → Profile F → Option (Anomaly F) × Profile F
  enforce config t evt bl p =
      let q = record p { state = baseline } in
      judge config t.stamped evt q (first_match (rules fl config t.checked) evt q bl)

  -- `Analyze`.
  unfoldable pub analyze : Config → Readings → Event → Engine F → Option (Anomaly F) × Engine F
  analyze config t evt e =
      let p = observe t evt e in
      let (a, q) = enforce config t evt e.global p in
      if config.learning_mode
      then (none, store evt e (learn config t.since p))
      else (a, store evt e q)
