-- ===== src/Tests/Runs.antt =====
-- Rounds and runs of the processor.
use beacon_guard.Prelude.{ℕ, ◌≡◌, refl, List, [], ◌∷◌, ◌++◌, none, some, arith, lookup}
use beacon_guard.Config.{Config, default_config}
use beacon_guard.Event.{ok}
use beacon_guard.Event.Fields.{le_value}
use beacon_guard.Event.Parse.{event_of}
use beacon_guard.Engine.{analyze}
use beacon_guard.Processor.{Processor, Input, round, run, new_processor}
use beacon_guard.Processor.Rounds.{IsSafe, run-IsSafe}
use beacon_guard.Processor.Counts.{Counts, run_new-Counts}
use beacon_guard.Processor.Response.{targets, round-signals, AllWhole, run_whole, c2_sample_killed}
use beacon_guard.Tests.Samples.{
  whole, enforcing, connect_sample, padded_sample, fresh, input, everywhere,
}

abbrev pub inputs : List (Config × Input)
inputs =
    (default_config, input padded_sample)
    ∷ (enforcing, record (input []) { sample = none })
    ∷ (enforcing, input padded_sample)
    ∷ []

pub inputs_whole : AllWhole inputs
inputs_whole = (omega arith, (omega arith, (omega arith, tt)))

run_whole_example :
    (w : Processor ℕ) × (run whole everywhere inputs (new_processor whole everywhere 0 1) ≡ ok w)
run_whole_example =
    run_whole whole everywhere inputs (new_processor whole everywhere 0 1) inputs_whole

finished :
    (w : Processor ℕ) × (run whole everywhere inputs (new_processor whole everywhere 0 1) ≡ ok w)
finished = run_whole whole everywhere inputs (new_processor whole everywhere 0 1) inputs_whole

run-IsSafe_example : IsSafe finished.0
run-IsSafe_example = run-IsSafe whole everywhere 0 1 inputs finished.0 finished.1

run_new-Counts_example : Counts 2 finished.0
run_new-Counts_example =
    run_new-Counts whole everywhere 0 1 inputs finished.0 (omega arith) finished.1

round-signals_example :
    (w : Processor ℕ) × (round whole everywhere enforcing
        (input padded_sample)
        (some padded_sample)
        fresh
      ≡ ok w)
    × (w.signals
        ≡ []
          ++ targets enforcing everywhere
              (analyze whole enforcing
                (input padded_sample).clock
                (event_of padded_sample)
                fresh.engine).0)
round-signals_example =
    round-signals whole everywhere enforcing (input padded_sample) padded_sample fresh
      (unfold le_value in omega arith)

c2_sample_killed_example :
    (w : Processor ℕ) × (round whole everywhere enforcing
        (input connect_sample)
        (some connect_sample)
        fresh
      ≡ ok w)
    × (w.signals ≡ [] ++ 7 ∷ [])
unfolding le_value lookup
c2_sample_killed_example =
    c2_sample_killed whole everywhere enforcing (input connect_sample) connect_sample fresh
      "Metasploit default" refl refl refl (omega arith) refl refl
