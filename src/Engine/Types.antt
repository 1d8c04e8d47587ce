-- ===== src/Engine/Types.antt =====
-- loader/engine.go, the data that the engine keeps. The texts that the source takes from a fixed set
-- (rule names, severities, actions, states) are data types.
use beacon_guard.Prelude.{ℕ, Bool, true, false, List, String, Bytes, Option}
use beacon_guard.Event.{Event}

pub data Severity : Type 0 where
  info low medium high critical : Severity

pub data Action : Type 0 where
  alert block kill : Action

pub data State : Type 0 where
  learning baseline anomalous : State

pub data Direction : Type 0 where
  outbound : Direction

pub data RuleName : Type 0 where
  unexpected_binary process_running_as_root beaconing_detected reverse_shell_port : RuleName
  dns_tunneling rapid_succession_connections mass_file_deletion sensitive_file_write : RuleName
  executable_mmap ptrace_attachment : RuleName

abbrev pub is_kill : Action → Bool
is_kill kill = true
is_kill _ = false

abbrev pub is_baseline : State → Bool
is_baseline baseline = true
is_baseline _ = false

abbrev pub is_executable_mmap : RuleName → Bool
is_executable_mmap executable_mmap = true
is_executable_mmap _ = false

pub record ConnectionRecord : Type 0 where
  pub ip : Bytes
  pub port : ℕ
  pub timestamp : ℕ
  pub direction : Direction

-- The values of `Details`.
pub data Detail (F : Type 0) : Type 0 where
  str : Bytes → Detail F
  label : String → Detail F
  num : ℕ → Detail F
  float : F → Detail F
  texts : List Bytes → Detail F

pub record Anomaly (F : Type 0) : Type 0 where
  pub pid : ℕ
  pub comm : Bytes
  pub rule : RuleName
  pub severity : Severity
  pub score : ℕ
  pub description : String
  pub action : Action
  pub details : List (String × Detail F)
  pub timestamp : ℕ

pub record Profile (F : Type 0) : Type 0 where
  pub pid : ℕ
  pub comm : Bytes
  pub first_seen : ℕ
  pub last_seen : ℕ
  pub exec_count : ℕ
  pub file_write_count : ℕ
  pub network_conn_count : ℕ
  pub connections : List ConnectionRecord
  pub file_writes : List Bytes
  pub executables : List Bytes
  pub suspicion_score : ℕ
  pub anomalies : List (Anomaly F)
  pub state : State

pub record Baseline (F : Type 0) : Type 0 where
  pub max_exec_per_min : F
  pub max_file_write_per_min : F
  pub max_conn_per_min : F
  pub known_parents : List (Bytes × ℕ)
  pub known_connections : List (Bytes × ℕ)
  pub typical_file_paths : List (Bytes × ℕ)
  pub build_time : ℕ
  pub sample_count : ℕ

-- `Match` answers nil or an anomaly.
pub record Rule (F : Type 0) : Type 0 where
  pub name : RuleName
  pub severity : Severity
  pub score : ℕ
  pub description : String
  pub action : Action
  pub matches : Event → Profile F → Baseline F → Option (Anomaly F)
