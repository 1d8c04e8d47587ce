-- ===== src/Engine/Rules.antt =====
-- loader/engine.go, `registerBuiltinRules`: the ten rules, in order. A rule reads the configuration
-- through the engine's pointer, so it is an argument; `now` is the clock's reading inside the rule.
mod Plain
mod Timed
use mathlib.Core.List.{List, [], ◌∷◌}
use beacon_guard.Prelude.{ℕ}
use beacon_guard.Config.{Config}
use beacon_guard.Float.{Float64}
use beacon_guard.Engine.Types.{
  medium, high, critical, alert, block, kill, unexpected_binary, process_running_as_root,
  beaconing_detected, reverse_shell_port, dns_tunneling, rapid_succession_connections,
  mass_file_deletion, sensitive_file_write, executable_mmap, ptrace_attachment, Rule,
}
unfoldable pub use Plain.{
  listed, addresses, match_unexpected_binary, match_process_running_as_root,
  match_reverse_shell_port, match_dns_tunneling, match_mass_file_deletion,
  match_sensitive_file_write, mmap_alerted, match_executable_mmap, match_ptrace_attachment,
}
pub use Plain.{bad_ports, found}
unfoldable pub use Timed.{
  intervals_from, intervals, mean_of, variance_of, match_beaconing_detected, recent_from,
  match_rapid_succession,
}
pub use Timed.{window}

module _ {F : Type 0} where
  abbrev pub unexpected_binary_rule : Config → Rule F
  unexpected_binary_rule config = record {
    name = unexpected_binary;
    severity = high;
    score = 60;
    description = "Process executed a binary not seen in baseline";
    action = alert;
    matches = match_unexpected_binary config;
  }

  abbrev pub process_running_as_root_rule : Rule F
  process_running_as_root_rule = record {
    name = process_running_as_root;
    severity = medium;
    score = 40;
    description = "Process running as root when not expected";
    action = alert;
    matches = match_process_running_as_root;
  }

  abbrev pub reverse_shell_port_rule : Rule F
  reverse_shell_port_rule = record {
    name = reverse_shell_port;
    severity = critical;
    score = 100;
    description = "Connection to known reverse shell / C2 port";
    action = kill;
    matches = match_reverse_shell_port;
  }

  abbrev pub dns_tunneling_rule : Rule F
  dns_tunneling_rule = record {
    name = dns_tunneling;
    severity = high;
    score = 70;
    description = "Large DNS queries indicating DNS tunneling";
    action = alert;
    matches = match_dns_tunneling;
  }

  abbrev pub mass_file_deletion_rule : Rule F
  mass_file_deletion_rule = record {
    name = mass_file_deletion;
    severity = critical;
    score = 95;
    description = "Rapid file deletions — possible ransomware";
    action = kill;
    matches = match_mass_file_deletion;
  }

  abbrev pub sensitive_file_write_rule : Rule F
  sensitive_file_write_rule = record {
    name = sensitive_file_write;
    severity = critical;
    score = 85;
    description = "Write to sensitive system file";
    action = block;
    matches = match_sensitive_file_write;
  }

  abbrev pub executable_mmap_rule : Rule F
  executable_mmap_rule = record {
    name = executable_mmap;
    severity = medium;
    score = 30;
    description = "Sustained executable memory mapping in suspicious process";
    action = alert;
    matches = match_executable_mmap;
  }

  abbrev pub ptrace_attachment_rule : Rule F
  ptrace_attachment_rule = record {
    name = ptrace_attachment;
    severity = high;
    score = 60;
    description = "Process attached to non-child via ptrace";
    action = alert;
    matches = match_ptrace_attachment;
  }

module _ {F : Type 0} (fl : Float64 F) where
  abbrev pub beaconing_detected_rule : Rule F
  beaconing_detected_rule = record {
    name = beaconing_detected;
    severity = critical;
    score = 90;
    description = "Process connecting to external IPs at regular intervals";
    action = kill;
    matches = match_beaconing_detected fl;
  }

  abbrev pub rapid_succession_connections_rule : Config → ℕ → Rule F
  rapid_succession_connections_rule config now = record {
    name = rapid_succession_connections;
    severity = high;
    score = 65;
    description = "Rapid connections to multiple external IPs";
    action = alert;
    matches = match_rapid_succession fl config now;
  }

  -- `e.rules`, in the order in which `Analyze` tries them.
  unfoldable pub rules : Config → ℕ → List (Rule F)
  rules config now =
      unexpected_binary_rule config
      ∷ process_running_as_root_rule
      ∷ beaconing_detected_rule
      ∷ reverse_shell_port_rule
      ∷ dns_tunneling_rule
      ∷ rapid_succession_connections_rule config now
      ∷ mass_file_deletion_rule
      ∷ sensitive_file_write_rule
      ∷ executable_mmap_rule
      ∷ ptrace_attachment_rule
      ∷ []
