-- ===== src/Config/Load.antt =====
-- What `loadConfig` and the JSON encoding of a configuration promise (loader/config.go).
use mathlib.Core.Path.{subst}
use beacon_guard.Prelude.{
  ◌≡◌, refl, sym, ap, ◌∙◌, ◌⊎◌, inl, inr, ◌↔◌, true, false, [], ◌∷◌, Option, none, some, Bytes,
  or_zero,
}
use beacon_guard.Config.{
  Config, Fields, FileRead, missing, unreadable, contents, loaded, default_config, unmarshal,
  fields_of, load_config, finish_load,
}

-- Decoding the encoding of a configuration gives it back, whatever the struct held before.
pub unmarshal-fields_of : (c d : Config) → unmarshal d (fields_of c) ≡ c
unfolding unmarshal fields_of
unmarshal-fields_of c d = refl

-- A value is the one that the text has, and the default where the text has none.
abbrev pub Chosen : {A : Type 0} → A → Option A → A → Type 0
Chosen standard given value = (given ≡ some value) ⊎ ((given ≡ none) × (value ≡ standard))

-- A configuration of the defaults, changed in the fields that the text has and in no other.
pub record Completed (f : Fields) (c : Config) : Type 0 where
  pub webhook_url : Chosen [] f.webhook_url c.webhook_url
  pub syslog_endpoint : Chosen [] f.syslog_endpoint c.syslog_endpoint
  pub suspicion_threshold : Chosen 100 f.suspicion_threshold c.suspicion_threshold
  pub learning_mode : Chosen true f.learning_mode c.learning_mode
  pub auto_kill : Chosen false f.auto_kill c.auto_kill
  pub api_port : Chosen 9090 f.api_port c.api_port
  pub monitor_pids : Chosen [] f.monitor_pids c.monitor_pids
  pub monitor_users : Chosen [] f.monitor_users c.monitor_users
  pub exclude_pids : Chosen [] f.exclude_pids c.exclude_pids
  pub known_bad_ips : Chosen [] f.known_bad_ips c.known_bad_ips
  pub known_bad_hashes : Chosen [] f.known_bad_hashes c.known_bad_hashes
  pub baseline_window_sec : Chosen 3600 f.baseline_window_sec c.baseline_window_sec
  pub max_connections_per_min : Chosen 50 f.max_connections_per_min c.max_connections_per_min
  pub max_file_writes_per_min : Chosen 100 f.max_file_writes_per_min c.max_file_writes_per_min
  pub allowed_executables : Chosen [] f.allowed_executables c.allowed_executables
  pub response_action :
      Chosen (b'a' ∷ b'l' ∷ b'e' ∷ b'r' ∷ b't' ∷ []) f.response_action c.response_action

abbrev pub no_fields : Fields
no_fields = record {
  webhook_url = none;
  syslog_endpoint = none;
  suspicion_threshold = none;
  learning_mode = none;
  auto_kill = none;
  api_port = none;
  monitor_pids = none;
  monitor_users = none;
  exclude_pids = none;
  known_bad_ips = none;
  known_bad_hashes = none;
  baseline_window_sec = none;
  max_connections_per_min = none;
  max_file_writes_per_min = none;
  allowed_executables = none;
  response_action = none;
}

-- When loading is to succeed, and with what: a missing file gives the defaults.
abbrev pub Loads : (Bytes → Option Fields) → FileRead → Config → Type 0
Loads decode missing c = Completed no_fields c
Loads decode unreadable c = ⊥
Loads decode (contents text) c = (f : Fields) × (decode text ≡ some f) × Completed f c

Chosen-or_zero :
    {A : Type 0} (standard : A) (given : Option A) → Chosen standard given (or_zero standard given)
Chosen-or_zero standard none = inr (refl, refl)
Chosen-or_zero standard (some a) = inl refl

or_zero-Chosen :
    {A : Type 0} (standard : A) (given : Option A) (value : A)
    → Chosen standard given value
    → or_zero standard given ≡ value
or_zero-Chosen standard given value (inl e) = ap (or_zero standard) e
or_zero-Chosen standard given value (inr (e, same)) = ap (or_zero standard) e ∙ sym same

unmarshal-Completed : (f : Fields) → Completed f (unmarshal default_config f)
unfolding unmarshal
unmarshal-Completed f = record {
  webhook_url = Chosen-or_zero [] f.webhook_url;
  syslog_endpoint = Chosen-or_zero [] f.syslog_endpoint;
  suspicion_threshold = Chosen-or_zero 100 f.suspicion_threshold;
  learning_mode = Chosen-or_zero true f.learning_mode;
  auto_kill = Chosen-or_zero false f.auto_kill;
  api_port = Chosen-or_zero 9090 f.api_port;
  monitor_pids = Chosen-or_zero [] f.monitor_pids;
  monitor_users = Chosen-or_zero [] f.monitor_users;
  exclude_pids = Chosen-or_zero [] f.exclude_pids;
  known_bad_ips = Chosen-or_zero [] f.known_bad_ips;
  known_bad_hashes = Chosen-or_zero [] f.known_bad_hashes;
  baseline_window_sec = Chosen-or_zero 3600 f.baseline_window_sec;
  max_connections_per_min = Chosen-or_zero 50 f.max_connections_per_min;
  max_file_writes_per_min = Chosen-or_zero 100 f.max_file_writes_per_min;
  allowed_executables = Chosen-or_zero [] f.allowed_executables;
  response_action = Chosen-or_zero (b'a' ∷ b'l' ∷ b'e' ∷ b'r' ∷ b't' ∷ []) f.response_action;
}

Completed-unmarshal : (f : Fields) (c : Config) → Completed f c → unmarshal default_config f ≡ c
unfolding unmarshal
Completed-unmarshal f c h = λ i. record {
  webhook_url = or_zero-Chosen [] f.webhook_url c.webhook_url h.webhook_url i;
  syslog_endpoint = or_zero-Chosen [] f.syslog_endpoint c.syslog_endpoint h.syslog_endpoint i;
  suspicion_threshold =
      or_zero-Chosen 100 f.suspicion_threshold c.suspicion_threshold h.suspicion_threshold i;
  learning_mode = or_zero-Chosen true f.learning_mode c.learning_mode h.learning_mode i;
  auto_kill = or_zero-Chosen false f.auto_kill c.auto_kill h.auto_kill i;
  api_port = or_zero-Chosen 9090 f.api_port c.api_port h.api_port i;
  monitor_pids = or_zero-Chosen [] f.monitor_pids c.monitor_pids h.monitor_pids i;
  monitor_users = or_zero-Chosen [] f.monitor_users c.monitor_users h.monitor_users i;
  exclude_pids = or_zero-Chosen [] f.exclude_pids c.exclude_pids h.exclude_pids i;
  known_bad_ips = or_zero-Chosen [] f.known_bad_ips c.known_bad_ips h.known_bad_ips i;
  known_bad_hashes = or_zero-Chosen [] f.known_bad_hashes c.known_bad_hashes h.known_bad_hashes i;
  baseline_window_sec =
      or_zero-Chosen 3600 f.baseline_window_sec c.baseline_window_sec h.baseline_window_sec i;
  max_connections_per_min =
      or_zero-Chosen 50 f.max_connections_per_min c.max_connections_per_min
        h.max_connections_per_min i;
  max_file_writes_per_min =
      or_zero-Chosen 100 f.max_file_writes_per_min c.max_file_writes_per_min
        h.max_file_writes_per_min i;
  allowed_executables =
      or_zero-Chosen [] f.allowed_executables c.allowed_executables h.allowed_executables i;
  response_action =
      or_zero-Chosen (b'a' ∷ b'l' ∷ b'e' ∷ b'r' ∷ b't' ∷ []) f.response_action c.response_action
        h.response_action i;
}

-- No text has no field: the defaults.
default_config-unmarshal : unmarshal default_config no_fields ≡ default_config
unfolding unmarshal
default_config-unmarshal = refl

loaded_injective : {c d : Config} → loaded c ≡ loaded d → c ≡ d
loaded_injective h = cc

decoded :
    (decode : Bytes → Option Fields) (text : Bytes) (c : Config) (o : Option Fields)
    → decode text ≡ o
    → finish_load o ≡ loaded c
    → Loads decode (contents text) c
decoded decode text c none e h = cc
decoded decode text c (some f) e h =
    (f, e, subst (Completed f) (loaded_injective h) (unmarshal-Completed f))

-- Loading succeeds exactly on a missing file and on a file whose text decodes. Each field of the result
-- is then the one that the text has, and where it has none, or the file is missing, the default: the
-- threshold 100, learning on and killing off, port 9090, a window of 3600 seconds, 50 connections and
-- 100 file writes a minute, the response "alert", and nothing in the other fields.
pub load_config_iff :
    (decode : Bytes → Option Fields) (file : FileRead) (c : Config)
    → (load_config decode file ≡ loaded c) ↔ Loads decode file c
unfolding load_config
load_config_iff decode missing c = (
  λ h.
      subst (Completed no_fields) (default_config-unmarshal ∙ loaded_injective h)
        (unmarshal-Completed no_fields),
  λ h. ap loaded (sym default_config-unmarshal ∙ Completed-unmarshal no_fields c h),
)
load_config_iff decode unreadable c = ((λ h. cc), (λ h. absurd h))
load_config_iff decode (contents text) c = (
  decoded decode text c _ refl,
  λ h. rw (h.1, load_config) (ap loaded (Completed-unmarshal h.0 c h.2)),
)
