-- ===== src/Engine/Guards.antt =====
-- What each built-in rule of loader/engine.go asks of an event and a profile, described apart from the
-- code of its `Match`, and what the rule may answer.
pub mod Tests
use mathlib.Core.List.{foldl, reverse}
use beacon_guard.Prelude.{
  ℕ, suc, ◌≤◌, ◌≡◌, refl, sym, ap, ◌∙◌, ◌≢◌, ◌⊎◌, inl, inr, Option, Bool, true, false, not, List,
  [], ◌∷◌, none, some, Bytes, arith, ◌==◌, bytes_eq, bytes_eq_sound, bytes_eq_refl, if◌then◌else◌,
  Bool-cases, if_true, if_false, lt64, neg64, quot64, length, lookup,
}
use beacon_guard.Config.{Config}
use beacon_guard.Event.{Event, text_at, num_at}
use beacon_guard.Float.{Float64, elapsed}
use beacon_guard.Engine.Types.{
  RuleName, unexpected_binary, process_running_as_root, beaconing_detected, reverse_shell_port,
  dns_tunneling, rapid_succession_connections, mass_file_deletion, sensitive_file_write,
  executable_mmap, ptrace_attachment, is_executable_mmap, State, baseline, is_baseline,
  ConnectionRecord, Anomaly, Profile, Rule,
}
use beacon_guard.Engine.Rules.{
  bad_ports, listed, intervals, intervals_from, mmap_alerted, window, recent_from,
}

-- The type of the events that a rule looks at.
abbrev pub kind_of : RuleName → ℕ
kind_of unexpected_binary = 1
kind_of process_running_as_root = 1
kind_of beaconing_detected = 3
kind_of reverse_shell_port = 3
kind_of dns_tunneling = 3
kind_of rapid_succession_connections = 3
kind_of mass_file_deletion = 2
kind_of sensitive_file_write = 2
kind_of executable_mmap = 5
kind_of ptrace_attachment = 8

-- The order in which the rules are tried.
abbrev pub rule_order : List RuleName
rule_order =
    unexpected_binary ∷ process_running_as_root ∷ beaconing_detected ∷ reverse_shell_port
    ∷ dns_tunneling ∷ rapid_succession_connections ∷ mass_file_deletion ∷ sensitive_file_write
    ∷ executable_mmap ∷ ptrace_attachment ∷ []

abbrev pub Listed : Bytes → List Bytes → Type 0
Listed name [] = ⊥
Listed name (a ∷ others) = (name ≡ a) ⊎ Listed name others

abbrev pub NoMmap : {F : Type 0} → List (Anomaly F) → Type 0
NoMmap [] = Unit {0}
NoMmap (a ∷ others) = (a.rule ≢ executable_mmap) × NoMmap others

module _ {F : Type 0} (fl : Float64 F) where
  open fl use {add, sub, mul, div, lt, of_int, literal}

  -- The seconds between neighbours.
  abbrev pub gaps : List ConnectionRecord → List F
  gaps [] = []
  gaps (c ∷ []) = []
  gaps (c ∷ d ∷ cs) = elapsed fl c.timestamp d.timestamp ∷ gaps (d ∷ cs)

  abbrev pub mean : List F → F
  mean xs = div (foldl add (literal 0 1) xs) (of_int (length xs))

  -- The mean of the squared distances from a value.
  abbrev pub spread : F → List F → F
  spread m xs =
      div (foldl (λ v x. add v (mul (sub x m) (sub x m))) (literal 0 1) xs) (of_int (length xs))

  -- More than a second apart on average, with a variance below a fifth of the mean.
  abbrev pub Regular : List F → Type 0
  Regular xs =
      (lt (literal 1 1) (mean xs) ≡ true)
      × (lt (spread (mean xs) xs) (mul (mean xs) (literal 1 5)) ≡ true)

  -- How many connections, from the newest on, are less than five seconds old.
  abbrev pub streak : ℕ → List ConnectionRecord → ℕ
  streak now [] = 0
  streak now (c ∷ older) =
      let rest = streak now older in
      if lt (elapsed fl c.timestamp now) (literal 5 1) then suc rest else 0

  module _ (config : Config) (now : ℕ) (evt : Event) (p : Profile F) where
    abbrev pub Guard : RuleName → Type 0
    Guard unexpected_binary =
        (text_at "filename" evt.payload ≢ [])
        × (p.state ≡ baseline)
        × (¬ Listed (text_at "filename" evt.payload) config.allowed_executables)
        × (lt64 1 p.exec_count ≡ true)
    Guard process_running_as_root = (evt.uid ≡ 0) × (lt64 p.exec_count 3 ≡ true)
    Guard beaconing_detected = (5 ≤ length p.connections) × Regular (gaps p.connections)
    Guard reverse_shell_port = lookup (num_at "port" evt.payload) bad_ports ≢ none
    Guard dns_tunneling = (num_at "port" evt.payload ≡ 53) × (num_at "ret" evt.payload ≡ 1)
    Guard rapid_succession_connections =
        (10 ≤ length p.connections)
        × (lt64 (streak now (reverse p.connections)) (quot64 config.max_connections_per_min 12)
            ≡ false)
    Guard mass_file_deletion = (evt.ret ≡ neg64 2) × (lt64 p.file_write_count 20 ≡ false)
    Guard sensitive_file_write = num_at "ret" evt.payload ≡ neg64 1
    Guard executable_mmap = (lt64 p.suspicion_score 50 ≡ false) × NoMmap p.anomalies
    Guard ptrace_attachment = Unit {0}

    -- The rule applies to the event.
    abbrev pub Fits : RuleName → Type 0
    Fits n = (evt.kind ≡ kind_of n) × Guard n

    abbrev pub NoneFits : List RuleName → Type 0
    NoneFits [] = Unit {0}
    NoneFits (n ∷ ns) = (¬ Fits n) × NoneFits ns

    -- A rule of the list applies, and none before it does.
    abbrev pub FirstFit : List RuleName → RuleName → Type 0
    FirstFit [] r = ⊥
    FirstFit (n ∷ ns) r = ((n ≡ r) × Fits n) ⊎ ((¬ Fits n) × FirstFit ns r)

module _ {F : Type 0} (fl : Float64 F) (config : Config) (now : ℕ) (evt : Event)
    (p : Profile F) where
  pub record Shape (r : Rule F) (a : Anomaly F) : Type 0 where
    pub named : a.rule ≡ r.name
    pub graded : a.severity ≡ r.severity
    pub scored : a.score ≡ r.score
    pub acted : a.action ≡ r.action
    pub capped : r.score ≤ 100
    pub kinded : evt.kind ≡ kind_of r.name
    pub guarded : Guard fl config now evt p r.name

  -- What a rule answers: nothing where it does not apply, and its anomaly where it does.
  abbrev pub Settled : Rule F → Option (Anomaly F) → Type 0
  Settled r none = ¬ Fits fl config now evt p r.name
  Settled r (some a) = Shape r a

  pub shaped :
      (r : Rule F) (a : Anomaly F)
      → (a.rule ≡ r.name) × (a.severity ≡ r.severity) × (a.score ≡ r.score) × (a.action ≡ r.action)
      → r.score ≤ 100
      → Fits fl config now evt p r.name
      → Shape r a
  shaped r a same capped f = record {
    named = same.0;
    graded = same.1;
    scored = same.2;
    acted = same.3;
    capped = capped;
    kinded = f.0;
    guarded = f.1;
  }
