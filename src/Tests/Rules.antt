-- ===== src/Tests/Rules.antt =====
-- The engine on one event.
use beacon_guard.Prelude.{
  ℕ, ◌+◌, ◌%◌, ◌^◌, length, values, ◌≡◌, refl, false, [], ◌∷◌, some, arith, lookup,
}
use beacon_guard.Event.{Event, num_at}
use beacon_guard.Engine.Types.{
  ptrace_attachment, high, num, alert, baseline, Anomaly, Profile, Rule,
}
use beacon_guard.Engine.Rules.{
  found, rules, match_unexpected_binary, match_process_running_as_root, match_beaconing_detected,
  match_reverse_shell_port, match_dns_tunneling, match_rapid_succession, match_mass_file_deletion,
  match_sensitive_file_write, match_executable_mmap, match_ptrace_attachment,
}
use beacon_guard.Engine.Guards.{rule_order, Shape, FirstFit}
use beacon_guard.Engine.Matches.{rules-Shape}
use beacon_guard.Engine.Sound.{AllSound, analyze-AllSound}
use beacon_guard.Engine.Verdict.{Verdict, analyze_other, analyze-Verdict}
use beacon_guard.Engine.Decision.{KillAnswer, c2_port_kills}
use beacon_guard.Engine.Parsed.{is_dead, parsed_rules_dead}
use beacon_guard.Engine.Stats.{sum_by, get_stats-totals}
use beacon_guard.Engine.{Engine, observe, first_match, analyze}
use beacon_guard.Engine.Reports.{get_stats}
use beacon_guard.Tests.Samples.{
  whole, enforcing, clock, connect_sample, connect_event, fresh_engine, fresh_baseline,
}
use beacon_guard.Tests.Parser.{parses_connect}

-- A ptrace event of process 9.
abbrev trace_event : Event
trace_event = record connect_event { pid = 9; kind = 8; payload = [] }

abbrev fresh_profile : Profile ℕ
fresh_profile = record {
  pid = 9;
  comm = [];
  first_seen = 1;
  last_seen = 2;
  exec_count = 0;
  file_write_count = 0;
  network_conn_count = 0;
  connections = [];
  file_writes = [];
  executables = [];
  suspicion_score = 0;
  anomalies = [];
  state = baseline;
}

analyze-AllSound_example : AllSound (analyze whole enforcing clock connect_event fresh_engine).1
analyze-AllSound_example = analyze-AllSound whole enforcing clock connect_event fresh_engine tt

analyze_other_example :
    lookup 8 (analyze whole enforcing clock connect_event fresh_engine).1.profiles
    ≡ lookup 8 fresh_engine.profiles
analyze_other_example =
    analyze_other whole enforcing clock connect_event fresh_engine 8 (omega arith)

analyze-Verdict_example :
    (after : Profile ℕ) × (lookup 9
        (analyze whole enforcing clock trace_event fresh_engine).1.profiles
      ≡ some after)
    × Verdict whole enforcing trace_event clock
        (record (observe clock trace_event fresh_engine) { state = baseline })
        (analyze whole enforcing clock trace_event fresh_engine).0
        after
analyze-Verdict_example = analyze-Verdict whole enforcing clock trace_event fresh_engine refl

c2_port_kills_example :
    KillAnswer connect_event (analyze whole enforcing clock connect_event fresh_engine).0
unfolding num_at lookup
c2_port_kills_example =
    c2_port_kills whole enforcing clock connect_event fresh_engine "Metasploit default" refl refl
      refl

killing : KillAnswer connect_event (analyze whole enforcing clock connect_event fresh_engine).0
unfolding num_at lookup
killing =
    c2_port_kills whole enforcing clock connect_event fresh_engine "Metasploit default" refl refl
      refl

parsed_rules_dead_example : is_dead killing.0.rule ≡ false
parsed_rules_dead_example =
    parsed_rules_dead whole enforcing clock connect_sample connect_event fresh_engine killing.0
      (omega arith) parses_connect refl killing.1

abbrev ptrace_rule : Rule ℕ
ptrace_rule = record {
  name = ptrace_attachment;
  severity = high;
  score = 60;
  description = "Process attached to non-child via ptrace";
  action = alert;
  matches = match_ptrace_attachment;
}

abbrev ptrace_anomaly : Anomaly ℕ
ptrace_anomaly =
    found ptrace_attachment high 60 "Ptrace to non-child process" alert
      (("target_pid", num 0) ∷ ("source_pid", num 9) ∷ [])

-- Process 7 has an anomaly from before, and was first seen at 1.
abbrev known_engine : Engine ℕ
known_engine = record fresh_engine {
  profiles = (7, record fresh_profile { pid = 7; anomalies = ptrace_anomaly ∷ [] }) ∷ [];
}

ptrace_matches :
    first_match (rules whole enforcing 14) trace_event fresh_profile fresh_baseline
    ≡ some (ptrace_rule, ptrace_anomaly)
unfolding first_match rules match_unexpected_binary match_process_running_as_root
    match_beaconing_detected match_reverse_shell_port match_dns_tunneling match_rapid_succession
    match_mass_file_deletion match_sensitive_file_write match_executable_mmap
    match_ptrace_attachment
ptrace_matches = refl

rules-Shape_example :
    Shape whole enforcing 14 trace_event fresh_profile ptrace_rule ptrace_anomaly
    × FirstFit whole enforcing 14 trace_event fresh_profile rule_order ptrace_attachment
rules-Shape_example =
    rules-Shape whole enforcing 14 trace_event fresh_profile fresh_baseline ptrace_rule
      ptrace_anomaly ptrace_matches

abbrev watching : Engine ℕ
watching = record fresh_engine { profiles = (9, fresh_profile) ∷ [] }

watching-AllSound : AllSound watching
watching-AllSound = (
  record {
    owner = refl;
    known_state = λ e. cc;
    conn_counted = refl;
    charged = (0, omega arith, refl);
    mmap_once = omega arith;
    own = tt;
  },
  tt,
)

get_stats-totals_example :
    let r = get_stats enforcing watching in
    (r.anomalous_count ≡ 0)
    × (r.learning_count + r.baseline_count ≡ r.total_processes)
    × (r.total_anomalies ≡ sum_by (λ p. length p.anomalies) (values watching.profiles) % 2 ^ 64)
    × (r.total_suspicion ≡ sum_by (λ p. p.suspicion_score) (values watching.profiles) % 2 ^ 64)
get_stats-totals_example = get_stats-totals enforcing watching watching-AllSound (omega arith)
