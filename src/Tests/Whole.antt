-- ===== src/Tests/Whole.antt =====
-- A run of the whole program.
use beacon_guard.Prelude.{
  ℕ, ◌≡◌, refl, List, [], ◌∷◌, ◌++◌, none, Bytes, Option, lookup, take, arith, IsSublist,
}
use beacon_guard.Config.{Fields}
use beacon_guard.Event.{ok}
use beacon_guard.Processor.{Alert, Processor, round}
use beacon_guard.Processor.Monitor.{monitor_of, watch_all, new_monitor}
use beacon_guard.Processor.Response.{round_whole}
use beacon_guard.Server.{new_server, subscribe, handle_alerts}
use beacon_guard.Server.Routes.{post}
use beacon_guard.Server.Alerts.{last}
use beacon_guard.System.{
  System, new_system, request, deliver, Reach, here, next, processed, delivered, requested,
  connected,
}
use beacon_guard.System.Invariant.{IsConsistent}
use beacon_guard.System.Runs.{Reach-IsConsistent, served_alerts}
use beacon_guard.Tests.Samples.{whole, enforcing, padded_sample, input, everywhere}

abbrev message : Alert ℕ → Bytes
message a = a.comm

abbrev decode : Bytes → Option Fields
decode _ = none

abbrev began : System ℕ
began = new_system whole everywhere enforcing 0 1

abbrev first :
    (w : Processor ℕ) × (round whole everywhere began.config
        (input padded_sample)
        (input padded_sample).sample
        began.processor
      ≡ ok w)
first =
    round_whole whole everywhere began.config (input padded_sample) (input padded_sample).sample
      began.processor (omega arith)

unseen : lookup 1 began.server.clients ≡ none
unfolding new_system new_server lookup
unseen = refl

abbrev joined : System ℕ
joined = record began { server = subscribe 1 began.server }

abbrev raised : System ℕ
raised = record joined { processor = first.0 }

-- A client connects, a sample is processed, its alert is delivered, and a POST is refused.
abbrev ended : System ℕ
ended = request decode "/api/v1/config" post [] (deliver message raised)

abbrev way : Reach whole everywhere message decode began ended
way =
    next
      (next
        (next (next here (connected began 1 unseen))
          (processed joined (input padded_sample) first.0 first.1))
        (delivered raised))
      (requested (deliver message raised) "/api/v1/config" post [])

Reach-IsConsistent_example :
    IsConsistent whole everywhere
      (new_monitor whole everywhere 0 1)
      ((enforcing, input padded_sample) ∷ [])
      (take 1 first.0.alert_chan)
      ended
unfolding new_system
Reach-IsConsistent_example = Reach-IsConsistent whole everywhere message decode enforcing 0 1 way

served_alerts_example :
    (handle_alerts ended.server ≡ last 100 (take 1 first.0.alert_chan))
    × (log : List (Alert ℕ)) × (watch_all whole everywhere
          ((enforcing, input padded_sample) ∷ [])
          (new_monitor whole everywhere 0 1)
        ≡ ok (monitor_of log ended.processor))
    × IsSublist (take 1 first.0.alert_chan ++ ended.processor.alert_chan) log
unfolding new_system
served_alerts_example = served_alerts whole everywhere message decode enforcing 0 1 way
