-- ===== src/Tests/Scores.antt =====
-- Suspicion scores over runs.
use beacon_guard.Prelude.{ℕ, ◌+◌, ◌*◌, ◌≤◌, ◌≡◌, refl, [], ◌∷◌, none, arith, lookup}
use beacon_guard.Config.{Fields, fields_of, zero_config, unmarshal}
use beacon_guard.Event.{ok, num_at}
use beacon_guard.Engine.Types.{Profile, baseline, kill}
use beacon_guard.Engine.Scores.{score_of}
use beacon_guard.Engine.Decision.{KillAnswer, c2_port_kills}
use beacon_guard.Engine.{analyze}
use beacon_guard.Processor.{Processor, run, new_processor}
use beacon_guard.Processor.Response.{run_whole}
use beacon_guard.Processor.Scores.{run-score, reached_stays, partial_config_kills}
use beacon_guard.Tests.Samples.{
  whole, enforcing, clock, connect_event, fresh, fresh_engine, everywhere,
}
use beacon_guard.Tests.Runs.{inputs, inputs_whole}

-- Process 7 with a score of 150.
abbrev suspect : Profile ℕ
suspect = record {
  pid = 7;
  comm = [];
  first_seen = 1;
  last_seen = 2;
  exec_count = 0;
  file_write_count = 0;
  network_conn_count = 0;
  connections = [];
  file_writes = [];
  executables = [];
  suspicion_score = 150;
  anomalies = [];
  state = baseline;
}

abbrev suspecting : Processor ℕ
suspecting = record fresh { engine = record fresh_engine { profiles = (7, suspect) ∷ [] } }

abbrev later : (w : Processor ℕ) × (run whole everywhere inputs suspecting ≡ ok w)
later = run_whole whole everywhere inputs suspecting inputs_whole

run-score_example :
    (score_of 7 suspecting.engine ≤ score_of 7 later.0.engine)
    × (score_of 7 later.0.engine ≤ score_of 7 suspecting.engine + 120 * 3)
unfolding lookup
run-score_example = run-score whole everywhere 7 inputs suspecting later.0 (omega arith) later.1

caught : KillAnswer connect_event (analyze whole enforcing clock connect_event later.0.engine).0
unfolding num_at lookup
caught =
    c2_port_kills whole enforcing clock connect_event later.0.engine "Metasploit default" refl refl
      refl

reached_stays_example : caught.0.action ≡ kill
unfolding lookup
reached_stays_example =
    reached_stays whole everywhere inputs suspecting later.0 enforcing clock connect_event caught.0
      refl (omega arith) (omega arith) later.1 caught.1

-- What a POST supplies that leaves out the learning mode and the threshold.
abbrev partial : Fields
partial = record (fields_of enforcing) { learning_mode = none; suspicion_threshold = none }

abbrev started :
    (w : Processor ℕ) × (run whole everywhere inputs (new_processor whole everywhere 0 1) ≡ ok w)
started = run_whole whole everywhere inputs (new_processor whole everywhere 0 1) inputs_whole

answered :
    KillAnswer connect_event
      (analyze whole (unmarshal zero_config partial) clock connect_event started.0.engine).0
unfolding num_at lookup unmarshal
answered =
    c2_port_kills whole (unmarshal zero_config partial) clock connect_event started.0.engine
      "Metasploit default" refl refl refl

partial_config_kills_example : answered.0.action ≡ kill
partial_config_kills_example =
    partial_config_kills whole everywhere 0 1 inputs started.0 partial clock connect_event
      answered.0 refl refl (omega arith) started.1 answered.1
