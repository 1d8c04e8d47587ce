-- ===== src/Engine/Rules/Plain.antt =====
-- loader/engine.go, `registerBuiltinRules`: the `Match` functions that read no clock.
use beacon_guard.Prelude.{
  ℕ, Bool, true, false, not, ◌&&◌, List, [], ◌∷◌, Option, none, some, String, Bytes, bytes_eq,
  lookup, lt64, neg64, ◌==◌, if◌then◌else◌,
}
use beacon_guard.Config.{Config}
use beacon_guard.Event.{Event, text_at, num_at}
use beacon_guard.Engine.Types.{
  Severity, medium, high, critical, Action, alert, block, kill, RuleName, unexpected_binary,
  process_running_as_root, reverse_shell_port, dns_tunneling, mass_file_deletion,
  sensitive_file_write, executable_mmap, ptrace_attachment, is_baseline, is_executable_mmap,
  ConnectionRecord, Detail, str, label, num, Anomaly, Profile, Baseline,
}

-- `for _, allowed := range list { if filename == allowed { found = true; break } }`.
unfoldable pub listed : Bytes → List Bytes → Bool
listed name [] = false
listed name (a ∷ others) = let rest = listed name others in if bytes_eq name a then true else rest

abbrev pub bad_ports : List (ℕ × String)
bad_ports =
    (4444, "Metasploit default")
    ∷ (5555, "Android ADB / C2")
    ∷ (6666, "IRC botnet")
    ∷ (6667, "IRC / C2")
    ∷ (7777, "C2 common")
    ∷ (8443, "Alternative HTTPS C2")
    ∷ (10000, "Webmin / C2")
    ∷ (31337, "Back Orifice")
    ∷ (4443, "C2 alternative HTTPS")
    ∷ []

-- The addresses that are not empty, of a stretch of connections.
unfoldable pub addresses : List ConnectionRecord → List Bytes
addresses [] = []
addresses (c ∷ cs) = let rest = addresses cs in if bytes_eq c.ip [] then rest else c.ip ∷ rest

module _ {F : Type 0} where
  -- The literal `&Anomaly{…}`: the fields that a rule leaves out are zero.
  abbrev pub found :
      RuleName → Severity → ℕ → String → Action → List (String × Detail F) → Anomaly F
  found name severity score description action details = record {
    pid = 0;
    comm = [];
    rule = name;
    severity = severity;
    score = score;
    description = description;
    action = action;
    details = details;
    timestamp = 0;
  }

  -- The loop over `bl.KnownParents` changes nothing.
  unfoldable pub match_unexpected_binary :
      Config → Event → Profile F → Baseline F → Option (Anomaly F)
  match_unexpected_binary config evt p bl =
      let filename = text_at "filename" evt.payload in
      if not (evt.kind == 1)
      then none
      else if bytes_eq filename []
      then none
      else if not (is_baseline p.state)
      then none
      else if not (listed filename config.allowed_executables) && lt64 1 p.exec_count
      then some (
          found unexpected_binary high 60 "Unexpected binary executed" alert
            (("filename", str filename) ∷ []))
      else none

  unfoldable pub match_process_running_as_root : Event → Profile F → Baseline F → Option (Anomaly F)
  match_process_running_as_root evt p bl =
      if not (evt.kind == 1)
      then none
      else if evt.uid == 0 && lt64 p.exec_count 3
      then some (
          found process_running_as_root medium 40 "Process running as root" alert
            (("comm", str evt.comm) ∷ []))
      else none

  unfoldable pub match_reverse_shell_port : Event → Profile F → Baseline F → Option (Anomaly F)
  match_reverse_shell_port evt p bl =
      let port = num_at "port" evt.payload in
      let ip = text_at "ip" evt.payload in
      if not (evt.kind == 3) then none else elim (lookup port bad_ports) [
        | none ↦ none
        | some reason ↦ some (
            found reverse_shell_port critical 100 "Connection to known C2 port" kill
              (("ip", str ip) ∷ ("port", num port) ∷ ("reason", label reason) ∷ []))
      ]

  unfoldable pub match_dns_tunneling : Event → Profile F → Baseline F → Option (Anomaly F)
  match_dns_tunneling evt p bl =
      if not (evt.kind == 3)
      then none
      else if not (num_at "port" evt.payload == 53)
      then none
      else if num_at "ret" evt.payload == 1
      then some (
          found dns_tunneling high 70 "Suspiciously large DNS query" alert
            (("pid", num evt.pid) ∷ ("comm", str evt.comm) ∷ []))
      else none

  unfoldable pub match_mass_file_deletion : Event → Profile F → Baseline F → Option (Anomaly F)
  match_mass_file_deletion evt p bl =
      if not (evt.kind == 2)
      then none
      else if not (evt.ret == neg64 2)
      then none
      else if lt64 p.file_write_count 20
      then none
      else some (
          found mass_file_deletion critical 95 "Mass file deletions detected" kill
            (("deletions", num p.file_write_count) ∷ ("comm", str evt.comm) ∷ []))

  unfoldable pub match_sensitive_file_write : Event → Profile F → Baseline F → Option (Anomaly F)
  match_sensitive_file_write evt p bl =
      if not (evt.kind == 2)
      then none
      else if num_at "ret" evt.payload == neg64 1
      then some (
          found sensitive_file_write critical 85 "Write to sensitive system path" block
            (("filename", str (text_at "filename" evt.payload)) ∷ ("comm", str evt.comm) ∷ []))
      else none

  -- `for _, a := range p.Anomalies { if a.Rule == "executable_mmap" { return nil } }`.
  unfoldable pub mmap_alerted : List (Anomaly F) → Bool
  mmap_alerted [] = false
  mmap_alerted (a ∷ others) =
      let rest = mmap_alerted others in if is_executable_mmap a.rule then true else rest

  unfoldable pub match_executable_mmap : Event → Profile F → Baseline F → Option (Anomaly F)
  match_executable_mmap evt p bl =
      if not (evt.kind == 5)
      then none
      else if lt64 p.suspicion_score 50
      then none
      else if mmap_alerted p.anomalies
      then none
      else some (
          found executable_mmap medium 30 "Suspicious process mapped executable memory" alert
            (("pid", num evt.pid) ∷ ("comm", str evt.comm) ∷ []))

  unfoldable pub match_ptrace_attachment : Event → Profile F → Baseline F → Option (Anomaly F)
  match_ptrace_attachment evt p bl =
      if not (evt.kind == 8)
      then none
      else some (
          found ptrace_attachment high 60 "Ptrace to non-child process" alert
            (("target_pid", num evt.ret) ∷ ("source_pid", num evt.pid) ∷ []))
