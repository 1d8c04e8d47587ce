-- ===== src/Tests/Samples.antt =====
-- The data of the tests: samples, configurations, and a coarse arithmetic for the float parameter.
use beacon_guard.Prelude.{
  ℕ, ◌+◌, ◌-◌, ◌*◌, ◌/◌, Bool, true, false, [], ◌∷◌, ◌++◌, some, Bytes, replicate, ltb,
}
use beacon_guard.Config.{Config, default_config}
use beacon_guard.Float.{Float64}
use beacon_guard.Event.{Event, str, num}
use beacon_guard.Engine.{Engine, Readings}
use beacon_guard.Engine.Types.{Baseline, high, alert, ptrace_attachment}
use beacon_guard.Processor.{Processor, Alert, Input}
use beacon_guard.Server.{Server}

-- Whole numbers in place of floats.
abbrev pub whole : Float64 ℕ
whole = record {
  add = ◌+◌;
  sub = ◌-◌;
  mul = ◌*◌;
  div = ◌/◌;
  lt = ltb;
  of_int = λ n. n;
  literal = λ n d. n / d;
  round = λ n. n;
}

abbrev pub enforcing : Config
enforcing = record default_config { learning_mode = false; auto_kill = true }

abbrev pub clock : Readings
clock = record { created = 10; seen = 11; connected = 12; since = 13; checked = 14; stamped = 15 }

-- A connection of process 7, "nc", to 10.0.0.1:4444, in 54 bytes.
abbrev pub connect_sample : Bytes
connect_sample =
    7 ∷ 0 ∷ 0 ∷ 0 ∷ 1 ∷ 0 ∷ 0 ∷ 0 ∷ 0 ∷ 0 ∷ 0 ∷ 0 ∷ 0 ∷ 0 ∷ 0 ∷ 0 ∷ 0 ∷ 0 ∷ 0 ∷ 0 ∷ 3 ∷ 0 ∷ 0 ∷ 0
    ∷ b'n' ∷ b'c' ∷ 0 ∷ 0 ∷ 0 ∷ 0 ∷ 0 ∷ 0 ∷ 0 ∷ 0 ∷ 0 ∷ 0 ∷ 0 ∷ 0 ∷ 0 ∷ 0 ∷ 5 ∷ 0 ∷ 0 ∷ 0 ∷ 92 ∷ 17
    ∷ 10 ∷ 0 ∷ 0 ∷ 1 ∷ 2 ∷ 0 ∷ 0 ∷ 0 ∷ []

-- The same, padded to the size of the kernel's struct.
abbrev pub padded_sample : Bytes
padded_sample = connect_sample ++ replicate 306 0

abbrev pub connect_event : Event
connect_event = record {
  pid = 7;
  ppid = 1;
  uid = 0;
  gid = 0;
  ret = 0;
  kind = 3;
  comm = b'n' ∷ b'c' ∷ [];
  payload =
      ("sock_fd", num 5)
      ∷ ("port", num 4444)
      ∷ ("ip", str (b'1' ∷ b'0' ∷ b'.' ∷ b'0' ∷ b'.' ∷ b'0' ∷ b'.' ∷ b'1' ∷ []))
      ∷ ("domain", num 2)
      ∷ [];
}

abbrev pub fresh_baseline : Baseline ℕ
fresh_baseline = record {
  max_exec_per_min = 0;
  max_file_write_per_min = 0;
  max_conn_per_min = 0;
  known_parents = [];
  known_connections = [];
  typical_file_paths = [];
  build_time = 1;
  sample_count = 0;
}

abbrev pub fresh_engine : Engine ℕ
fresh_engine = record { profiles = []; global = fresh_baseline }

abbrev pub fresh : Processor ℕ
fresh = record {
  stats = record {
    events_processed = 0;
    anomalies_detected = 0;
    processes_killed = 0;
    start_time = 0;
  };
  engine = fresh_engine;
  alert_chan = [];
  signals = [];
}

abbrev pub input : Bytes → Input
input raw = record { sample = some raw; clock = clock; alerted = 16 }

abbrev pub an_alert : ℕ → Alert ℕ
an_alert n = record {
  timestamp = n;
  severity = high;
  rule = ptrace_attachment;
  description = "Ptrace to non-child process";
  pid = n;
  comm = [];
  score = 60;
  action = alert;
  details = [];
}

abbrev pub message : Alert ℕ → Bytes
message a = a.pid ∷ []

abbrev pub fresh_server : Server ℕ
fresh_server = record { alerts = []; clients = [] }

abbrev pub everywhere : ℕ → Bool
everywhere pid = true
