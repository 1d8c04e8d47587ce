-- ===== src/Tests/Streams.antt =====
-- A client of the event stream in a run of the whole program.
use beacon_guard.Prelude.{
  ℕ, ◌≡◌, refl, List, [], ◌∷◌, ◌++◌, none, some, Bytes, Option, arith, take, lt64, add64, lookup,
  insert, replicate,
}
use beacon_guard.Config.{Fields}
use beacon_guard.Event.{ok, c_str_to_string}
use beacon_guard.Event.Fields.{le_value}
use beacon_guard.Event.Parse.{event_of}
use beacon_guard.Channel.{try_send}
use beacon_guard.Channel.Carries.{Carries}
use beacon_guard.Engine.{analyze, observe, track, first_match, judge, enforce, store, new_engine}
use beacon_guard.Engine.Types.{high, alert, ptrace_attachment, num}
use beacon_guard.System.Drains.{waiting_given}
use beacon_guard.Engine.Rules.{
  rules, match_unexpected_binary, match_process_running_as_root, match_beaconing_detected,
  match_reverse_shell_port, match_dns_tunneling, match_rapid_succession, match_mass_file_deletion,
  match_sensitive_file_write, match_executable_mmap, match_ptrace_attachment,
}
use beacon_guard.Processor.{
  Alert, Processor, count_event, process_event, respond, handle_anomaly, send_to_api, alert_of,
  new_processor, kill_process, count_kill, round,
}
use beacon_guard.Processor.Response.{round-long}
use beacon_guard.Server.{
  client_capacity, new_server, subscribe, consume, add_alert, broadcast, take_message,
}
use beacon_guard.System.{
  System, new_system, deliver, Reach, here, next, processed, delivered, connected, written,
}
use beacon_guard.System.Streams.{offered, taken, Reach-Carries}
use beacon_guard.Tests.Samples.{whole, enforcing, input, everywhere}

abbrev message : Alert ℕ → Bytes
message a = a.comm

abbrev pub decode : Bytes → Option Fields
decode _ = none

-- A ptrace event of process 7, "nc".
abbrev pub trace_sample : Bytes
trace_sample =
    7
    ∷ 0
    ∷ 0
    ∷ 0
    ∷ 1
    ∷ 0
    ∷ 0
    ∷ 0
    ∷ 0
    ∷ 0
    ∷ 0
    ∷ 0
    ∷ 0
    ∷ 0
    ∷ 0
    ∷ 0
    ∷ 9
    ∷ 0
    ∷ 0
    ∷ 0
    ∷ 8
    ∷ 0
    ∷ 0
    ∷ 0
    ∷ b'n'
    ∷ b'c'
    ∷ replicate 334 0

abbrev pub began : System ℕ
began = new_system whole everywhere enforcing 0 1

abbrev pub joined : System ℕ
joined = record began { server = subscribe 1 began.server }

abbrev pub traced : Processor ℕ
traced =
    process_event whole everywhere enforcing (input trace_sample) (some (event_of trace_sample))
      (count_event (new_processor whole everywhere 0 1))

abbrev pub traced_alert : Alert ℕ
traced_alert = record {
  timestamp = 16;
  severity = high;
  rule = ptrace_attachment;
  description = "Ptrace to non-child process";
  pid = 7;
  comm = b'n' ∷ b'c' ∷ [];
  score = 60;
  action = alert;
  details = ("target_pid", num 9) ∷ ("source_pid", num 7) ∷ [];
}

pub traced_alerts : traced.alert_chan ≡ traced_alert ∷ []
unfolding process_event respond handle_anomaly send_to_api kill_process count_kill alert_of
    new_processor new_engine analyze observe track first_match judge enforce store rules
    match_unexpected_binary match_process_running_as_root match_beaconing_detected
    match_reverse_shell_port match_dns_tunneling match_rapid_succession match_mass_file_deletion
    match_sensitive_file_write match_executable_mmap match_ptrace_attachment le_value lt64 add64
    c_str_to_string lookup try_send
traced_alerts = refl

abbrev pub raised : System ℕ
raised = record joined { processor = traced }

pub unseen : lookup 1 began.server.clients ≡ none
unfolding new_system new_server lookup
unseen = refl

pub traced_lem :
    round whole everywhere joined.config (input trace_sample) (some trace_sample) joined.processor
    ≡ ok traced
unfolding new_system le_value
traced_lem =
    round-long whole everywhere enforcing (input trace_sample) trace_sample
      (new_processor whole everywhere 0 1) (omega arith)

abbrev sent : System ℕ
sent = deliver message raised

-- The client has read its message.
abbrev ended : System ℕ
ended = record sent { server = (take_message 1 sent.server).1 }

abbrev way : Reach whole everywhere message decode began ended
way =
    next
      (next
        (next (next here (connected began 1 unseen))
          (processed joined (input trace_sample) traced traced_lem))
        (delivered raised))
      (written sent 1)

drained : lookup 1 ended.server.clients ≡ some []
unfolding deliver take_message new_system new_server subscribe consume add_alert broadcast try_send
    lookup insert
drained = rw traced_alerts refl

Reach-Carries_example :
    Carries client_capacity
      (offered whole everywhere message decode 1 way)
      (taken whole everywhere message decode 1 way ++ [])
Reach-Carries_example = Reach-Carries whole everywhere message decode 1 enforcing 0 1 way [] drained

-- The client was sent the name of the process.
taken_one : taken whole everywhere message decode 1 way ≡ (b'n' ∷ b'c' ∷ []) ∷ []
unfolding deliver take_message new_system new_server subscribe consume add_alert broadcast try_send
    lookup insert
taken_one = rw traced_alerts refl

waiting_given_example :
    (rest : List (Alert ℕ)) × (take 1 traced.alert_chan ≡ traced.alert_chan ++ rest)
waiting_given_example =
    waiting_given whole everywhere message decode
      (next (next here (delivered raised)) (written sent 1)) (rw traced_alerts (omega arith))
