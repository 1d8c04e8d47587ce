-- ===== src/Tests/Windows.antt =====
-- Ten connections within five seconds.
use mathlib.Core.List.{reverse}
use beacon_guard.Prelude.{
  ℕ, ◌≡◌, ◌≤◌, refl, false, List, [], ◌∷◌, ◌++◌, some, length, replicate, lt64, quot64, sub64,
  rem64,
}
use beacon_guard.Float.{elapsed}
use beacon_guard.Engine.Types.{
  ConnectionRecord, outbound, Profile, Anomaly, baseline, rapid_succession_connections, high, alert,
  num, float, texts,
}
use beacon_guard.Engine.Rules.{found, addresses, recent_from, match_rapid_succession}
use beacon_guard.Engine.Windows.{AllRecent, StartsOld, rapid_window}
use beacon_guard.Tests.Samples.{whole, enforcing, connect_event, fresh_baseline}

abbrev connection : ConnectionRecord
connection = record { ip = 49 ∷ []; port = 80; timestamp = 12; direction = outbound }

abbrev busy : Profile ℕ
busy = record {
  pid = 7;
  comm = [];
  first_seen = 1;
  last_seen = 2;
  exec_count = 0;
  file_write_count = 0;
  network_conn_count = 10;
  connections = replicate 10 connection;
  file_writes = [];
  executables = [];
  suspicion_score = 0;
  anomalies = [];
  state = baseline;
}

abbrev rapid : Anomaly ℕ
rapid =
    found rapid_succession_connections high 65 "Rapid external connections" alert (
      ("count", num 10)
      ∷ ("window_sec", float 5)
      ∷ ("ips", texts (addresses busy.connections))
      ∷ [])

rapid_matches :
    match_rapid_succession whole enforcing 14 connect_event busy fresh_baseline ≡ some rapid
unfolding match_rapid_succession recent_from elapsed quot64 lt64 sub64 rem64
rapid_matches = refl

rapid_window_example :
    (newest : List ConnectionRecord) × (older : List ConnectionRecord) × (busy.connections
      ≡ reverse older ++ reverse newest)
    × AllRecent whole 14 newest
    × StartsOld whole 14 older
    × (10 ≤ length busy.connections)
    × (lt64 (length newest) (quot64 50 12) ≡ false)
    × (rapid.details
        ≡ ("count", num (length newest))
          ∷ ("window_sec", float 5)
          ∷ ("ips", texts (addresses (reverse newest)))
          ∷ [])
rapid_window_example =
    rapid_window whole enforcing 14 connect_event busy fresh_baseline rapid rapid_matches
