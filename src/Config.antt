-- ===== src/Config.antt =====
-- loader/config.go: the configuration, its defaults, and how JSON input changes it. The JSON text
-- itself is read by the parameter `decode`; `Fields` is what an object of that text supplies.
pub mod Load
use beacon_guard.Prelude.{ℕ, Bool, true, false, List, [], ◌∷◌, Option, none, some, Bytes, or_zero}

pub record Config : Type 0 where
  pub webhook_url : Bytes
  pub syslog_endpoint : Bytes
  pub suspicion_threshold : ℕ
  pub learning_mode : Bool
  pub auto_kill : Bool
  pub api_port : ℕ
  pub monitor_pids : List ℕ
  pub monitor_users : List Bytes
  pub exclude_pids : List ℕ
  pub known_bad_ips : List Bytes
  pub known_bad_hashes : List Bytes
  pub baseline_window_sec : ℕ
  pub max_connections_per_min : ℕ
  pub max_file_writes_per_min : ℕ
  pub allowed_executables : List Bytes
  pub response_action : Bytes

-- The Go zero value of the struct: `var newConfig Config`.
abbrev pub zero_config : Config
zero_config = record {
  webhook_url = [];
  syslog_endpoint = [];
  suspicion_threshold = 0;
  learning_mode = false;
  auto_kill = false;
  api_port = 0;
  monitor_pids = [];
  monitor_users = [];
  exclude_pids = [];
  known_bad_ips = [];
  known_bad_hashes = [];
  baseline_window_sec = 0;
  max_connections_per_min = 0;
  max_file_writes_per_min = 0;
  allowed_executables = [];
  response_action = [];
}

-- The bytes of "alert".
abbrev pub alert_text : Bytes
alert_text = b'a' ∷ b'l' ∷ b'e' ∷ b'r' ∷ b't' ∷ []

abbrev pub default_config : Config
default_config = record zero_config {
  suspicion_threshold = 100;
  learning_mode = true;
  auto_kill = false;
  api_port = 9090;
  baseline_window_sec = 3600;
  max_connections_per_min = 50;
  max_file_writes_per_min = 100;
  response_action = alert_text;
}

-- A decoded JSON object: `none` for a key that the text does not have.
pub record Fields : Type 0 where
  pub webhook_url : Option Bytes
  pub syslog_endpoint : Option Bytes
  pub suspicion_threshold : Option ℕ
  pub learning_mode : Option Bool
  pub auto_kill : Option Bool
  pub api_port : Option ℕ
  pub monitor_pids : Option (List ℕ)
  pub monitor_users : Option (List Bytes)
  pub exclude_pids : Option (List ℕ)
  pub known_bad_ips : Option (List Bytes)
  pub known_bad_hashes : Option (List Bytes)
  pub baseline_window_sec : Option ℕ
  pub max_connections_per_min : Option ℕ
  pub max_file_writes_per_min : Option ℕ
  pub allowed_executables : Option (List Bytes)
  pub response_action : Option Bytes

-- Decoding into an existing struct sets the fields that the object has and leaves the others.
unfoldable pub unmarshal : Config → Fields → Config
unmarshal c f = record {
  webhook_url = or_zero c.webhook_url f.webhook_url;
  syslog_endpoint = or_zero c.syslog_endpoint f.syslog_endpoint;
  suspicion_threshold = or_zero c.suspicion_threshold f.suspicion_threshold;
  learning_mode = or_zero c.learning_mode f.learning_mode;
  auto_kill = or_zero c.auto_kill f.auto_kill;
  api_port = or_zero c.api_port f.api_port;
  monitor_pids = or_zero c.monitor_pids f.monitor_pids;
  monitor_users = or_zero c.monitor_users f.monitor_users;
  exclude_pids = or_zero c.exclude_pids f.exclude_pids;
  known_bad_ips = or_zero c.known_bad_ips f.known_bad_ips;
  known_bad_hashes = or_zero c.known_bad_hashes f.known_bad_hashes;
  baseline_window_sec = or_zero c.baseline_window_sec f.baseline_window_sec;
  max_connections_per_min = or_zero c.max_connections_per_min f.max_connections_per_min;
  max_file_writes_per_min = or_zero c.max_file_writes_per_min f.max_file_writes_per_min;
  allowed_executables = or_zero c.allowed_executables f.allowed_executables;
  response_action = or_zero c.response_action f.response_action;
}

-- What `json.NewEncoder(w).Encode(config)` writes: no tag has `omitempty`, so every key.
unfoldable pub fields_of : Config → Fields
fields_of c = record {
  webhook_url = some c.webhook_url;
  syslog_endpoint = some c.syslog_endpoint;
  suspicion_threshold = some c.suspicion_threshold;
  learning_mode = some c.learning_mode;
  auto_kill = some c.auto_kill;
  api_port = some c.api_port;
  monitor_pids = some c.monitor_pids;
  monitor_users = some c.monitor_users;
  exclude_pids = some c.exclude_pids;
  known_bad_ips = some c.known_bad_ips;
  known_bad_hashes = some c.known_bad_hashes;
  baseline_window_sec = some c.baseline_window_sec;
  max_connections_per_min = some c.max_connections_per_min;
  max_file_writes_per_min = some c.max_file_writes_per_min;
  allowed_executables = some c.allowed_executables;
  response_action = some c.response_action;
}

-- The answer of `os.ReadFile`.
pub data FileRead : Type 0 where
  missing : FileRead
  unreadable : FileRead
  contents : Bytes → FileRead

pub data LoadResult : Type 0 where
  loaded : Config → LoadResult
  read_failed : LoadResult
  bad_json : LoadResult

abbrev pub finish_load : Option Fields → LoadResult
finish_load none = bad_json
finish_load (some f) = loaded (unmarshal default_config f)

-- `loadConfig`: `decode` is the JSON decoder, `none` for a text that it refuses.
unfoldable pub load_config : (Bytes → Option Fields) → FileRead → LoadResult
load_config decode missing = loaded default_config
load_config decode unreadable = read_failed
load_config decode (contents text) = finish_load (decode text)
