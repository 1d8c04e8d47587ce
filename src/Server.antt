-- ===== src/Server.antt =====
-- loader/api_server.go: the store of alerts, the event-stream clients, and the handlers that only read.
-- The text of an alert is written by the parameter `message`; an answer is the value that the handler
-- encodes.
pub mod Alerts
pub mod Clients
pub mod Handlers
pub mod Routes
pub mod Json
pub mod OneLine
pub mod Message
pub mod Frames
pub mod AlertLine
pub mod Framing
use text.Mathlib.Text.{◌==◌ as str_eq}
use beacon_guard.Prelude.{
  ℕ, ◌-◌, Bool, true, false, List, [], ◌∷◌, ◌++◌, Option, none, some, String, Bytes, length, drop,
  ltb, add64, values, lookup, insert, ◌==◌, if◌then◌else◌,
}
use beacon_guard.Config.{Config, Fields, zero_config, unmarshal}
use beacon_guard.Channel.{try_send}
use beacon_guard.Engine.Types.{Severity, info, low, medium, high, critical, State, Profile}
use beacon_guard.Engine.{Engine}
use beacon_guard.Engine.Reports.{EngineStats, get_stats, get_profiles}
use beacon_guard.Processor.{Alert}

-- `clients` holds the buffer of each registered channel, by the channel's identity.
pub record Server (F : Type 0) : Type 0 where
  pub alerts : List (Alert F)
  pub clients : List (ℕ × List Bytes)

abbrev pub max_alerts : ℕ
max_alerts = 10000

abbrev pub kept_alerts : ℕ
kept_alerts = 5000

-- `make(chan string, 100)`.
abbrev pub client_capacity : ℕ
client_capacity = 100

-- The send loop of `AddAlert`: a client whose buffer is full misses the message.
unfoldable pub broadcast : Bytes → List (ℕ × List Bytes) → List (ℕ × List Bytes)
broadcast msg [] = []
broadcast msg ((c, queue) ∷ more) = (c, try_send client_capacity msg queue) ∷ broadcast msg more

-- `delete(s.clients, ch)`.
unfoldable pub remove : ℕ → List (ℕ × List Bytes) → List (ℕ × List Bytes)
remove c [] = []
remove c ((d, queue) ∷ more) =
    let rest = remove c more in if d == c then rest else (d, queue) ∷ rest

module _ {F : Type 0} where
  -- `NewAPIServer`.
  unfoldable pub new_server : Server F
  new_server = record { alerts = []; clients = [] }

  unfoldable pub trim : List (Alert F) → List (Alert F)
  trim alerts =
      if ltb max_alerts (length alerts) then drop (length alerts - kept_alerts) alerts else alerts

  -- `AddAlert`.
  unfoldable pub add_alert : (Alert F → Bytes) → Alert F → Server F → Server F
  unfolding trim
  add_alert message alert s = record s {
    alerts = trim (s.alerts ++ alert ∷ []);
    clients = broadcast (message alert) s.clients;
  }

  -- The consumer of the alert channel, `for alert := range alertChan`: one alert, if there is one.
  unfoldable pub consume : (Alert F → Bytes) → List (Alert F) → Server F → List (Alert F) × Server F
  consume message [] s = ([], s)
  consume message (alert ∷ rest) s = (rest, add_alert message alert s)

  -- `handleSSE`: the registration of a fresh channel, a message that is taken from it to be written
  -- to the client, and the deferred removal.
  unfoldable pub subscribe : ℕ → Server F → Server F
  subscribe c s = record s { clients = insert c [] s.clients }

  -- `msg := <-ch` of a client, where a message waits.
  abbrev pub take_from : ℕ → Server F → Option (List Bytes) → Option Bytes × Server F
  take_from c s none = (none, s)
  take_from c s (some []) = (none, s)
  take_from c s (some (msg ∷ rest)) = (some msg, record s { clients = insert c rest s.clients })

  unfoldable pub take_message : ℕ → Server F → Option Bytes × Server F
  take_message c s = take_from c s (lookup c s.clients)

  unfoldable pub unsubscribe : ℕ → Server F → Server F
  unsubscribe c s = record s { clients = remove c s.clients }

  -- `handleAlerts`.
  unfoldable pub handle_alerts : Server F → List (Alert F)
  handle_alerts s =
      if ltb (length s.alerts) 100 then s.alerts else drop (length s.alerts - 100) s.alerts

-- `severityCounts`.
pub record SeverityCounts : Type 0 where
  pub critical_count : ℕ
  pub high_count : ℕ
  pub medium_count : ℕ
  pub low_count : ℕ
  pub info_count : ℕ

unfoldable pub count_severity : Severity → SeverityCounts → SeverityCounts
count_severity critical n = record n { critical_count = add64 n.critical_count 1 }
count_severity high n = record n { high_count = add64 n.high_count 1 }
count_severity medium n = record n { medium_count = add64 n.medium_count 1 }
count_severity low n = record n { low_count = add64 n.low_count 1 }
count_severity info n = record n { info_count = add64 n.info_count 1 }

abbrev pub no_counts : SeverityCounts
no_counts = record {
  critical_count = 0;
  high_count = 0;
  medium_count = 0;
  low_count = 0;
  info_count = 0;
}

pub record StatsView : Type 0 where
  pub total_alerts : ℕ
  pub by_severity : SeverityCounts
  pub last_hour : ℕ
  pub total_processes : ℕ
  pub with_alerts : ℕ
  pub learning_mode : Bool

pub record ProcessView : Type 0 where
  pub pid : ℕ
  pub comm : Bytes
  pub first_seen : ℕ
  pub last_seen : ℕ
  pub exec_count : ℕ
  pub network_conn_count : ℕ
  pub file_write_count : ℕ
  pub suspicion_score : ℕ
  pub state : State
  pub anomaly_count : ℕ

module _ {F : Type 0} where
  unfoldable pub severities : List (Alert F) → SeverityCounts → SeverityCounts
  unfolding count_severity
  severities [] n = n
  severities (a ∷ alerts) n = severities alerts (count_severity a.severity n)

  unfoldable pub alerted : List (Profile F) → ℕ → ℕ
  alerted [] n = n
  alerted (p ∷ ps) n = alerted ps (if ltb 0 (length p.anomalies) then add64 n 1 else n)

  -- `handleStats`.
  unfoldable pub handle_stats : Config → Engine F → Server F → StatsView
  unfolding severities alerted
  handle_stats config e s =
      let stats = get_stats config e in
      record {
        total_alerts = length s.alerts;
        by_severity = severities s.alerts no_counts;
        last_hour = length s.alerts;
        total_processes = stats.total_processes;
        with_alerts = alerted (values (get_profiles e)) 0;
        learning_mode = stats.learning_mode;
      }

  abbrev pub view_of : Profile F → ProcessView
  view_of p = record {
    pid = p.pid;
    comm = p.comm;
    first_seen = p.first_seen;
    last_seen = p.last_seen;
    exec_count = p.exec_count;
    network_conn_count = p.network_conn_count;
    file_write_count = p.file_write_count;
    suspicion_score = p.suspicion_score;
    state = p.state;
    anomaly_count = length p.anomalies;
  }

  unfoldable pub views : List (Profile F) → List ProcessView
  views [] = []
  views (p ∷ ps) = view_of p ∷ views ps

  -- `handleProcesses`.
  unfoldable pub handle_processes : Engine F → List ProcessView
  unfolding views
  handle_processes e = views (values (get_profiles e))
