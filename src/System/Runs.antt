-- ===== src/System/Runs.antt =====
-- The runs of the program that loader/main.go starts, however its goroutines take turns.
use beacon_guard.Prelude.{
  ℕ, ◌≡◌, refl, ◌∙◌, Bool, List, [], ◌++◌, Option, Bytes, arith, insert-AllEntries, IsSublist, inl,
}
use beacon_guard.Config.{Config, Fields}
use beacon_guard.Event.{ok}
use beacon_guard.Float.{Float64}
use beacon_guard.Engine.Sound.{new_engine-AllSound}
use beacon_guard.Processor.{Alert, Input, new_processor}
use beacon_guard.Processor.Monitor.{Monitor, monitor_of, watch_all, new_monitor}
use beacon_guard.Server.{handle_alerts, new_server, subscribe, take_message, unsubscribe}
use beacon_guard.Server.Alerts.{last, handle_alerts-last, Keeps-last}
use beacon_guard.System.{
  System, new_system, request, Step, processed, delivered, requested, connected, written,
  disconnected, Reach, here, next, heard_after, heard, given_after, given,
}
use beacon_guard.System.Invariant.{
  IsConsistent, take_from-alerts, take_from-AllBuffers, remove-AllBuffers, processed-IsConsistent,
  delivered-IsConsistent, with_server-IsConsistent,
}

module _ {F : Type 0} (fl : Float64 F) (found : ℕ → Bool) (message : Alert F → Bytes)
    (decode : Bytes → Option Fields) where
  Step-IsConsistent :
      (start : Monitor F) (inputs : List (Config × Input)) (history : List (Alert F))
      {s t : System F} (step : Step fl found message decode s t)
      → IsConsistent fl found start inputs history s
      → IsConsistent fl found start
          (heard_after fl found message decode inputs step)
          (given_after fl found message decode history step)
          t
  unfolding subscribe unsubscribe take_message request
  Step-IsConsistent start inputs history (processed s i w e) c =
      processed-IsConsistent fl found start inputs history s i w e c
  Step-IsConsistent start inputs history (delivered s) c =
      delivered-IsConsistent fl found start inputs history message s c
  Step-IsConsistent start inputs history (requested s path method body) c = record {
    log = c.log;
    watched = c.watched;
    carries = c.carries;
    keeps = c.keeps;
    safe = c.safe;
    buffers = c.buffers;
  }
  Step-IsConsistent start inputs history (connected s k new) c =
      with_server-IsConsistent fl found start inputs history s _ refl
        (insert-AllEntries _ k [] _ (omega arith) c.buffers) c
  Step-IsConsistent start inputs history (written s k) c =
      with_server-IsConsistent fl found start inputs history s _ (take_from-alerts k s.server _)
        (take_from-AllBuffers k s.server _ refl c.buffers) c
  Step-IsConsistent start inputs history (disconnected s k) c =
      with_server-IsConsistent fl found start inputs history s _ refl
        (remove-AllBuffers k _ c.buffers) c

  -- However the goroutines take turns, and whatever requests and clients come: the engine, the
  -- counters and the signals are those of a processor alone on the inputs that were processed, each
  -- with the configuration of its time. The alerts that the server was given and those that wait in
  -- the channel are alerts of its log in order, and all of them while the log holds at most 1000. The
  -- server stores the newest of those it was given, every profile satisfies its invariant, the channel
  -- holds at most 1000 alerts and each client's buffer at most 100 messages.
  pub Reach-IsConsistent :
      (config : Config) (started built : ℕ) {s : System F}
      (r : Reach fl found message decode (new_system fl found config started built) s)
      → IsConsistent fl found
          (new_monitor fl found started built)
          (heard fl found message decode r)
          (given fl found message decode r)
          s
  unfolding new_system new_processor new_server
  Reach-IsConsistent config started built here = record {
    log = [];
    watched = refl;
    carries = record { ordered = IsSublist.done; lossless = inl refl };
    keeps = record { older = []; newest = refl; enough = inl refl; bounded = omega arith };
    safe = record { sound = new_engine-AllSound fl built; bounded = omega arith };
    buffers = tt;
  }
  Reach-IsConsistent config started built (next r step) =
      Step-IsConsistent _ _ _ step (Reach-IsConsistent config started built r)

  -- At any time, `/api/v1/alerts` answers with the last 100 alerts that the server was given, or with
  -- all of them while there are fewer; and these are alerts that the processor raised, in order.
  pub served_alerts :
      (config : Config) (started built : ℕ) {s : System F}
      (r : Reach fl found message decode (new_system fl found config started built) s)
      → (handle_alerts s.server ≡ last 100 (given fl found message decode r))
        × (log : List (Alert F)) × (watch_all fl found
              (heard fl found message decode r)
              (new_monitor fl found started built)
            ≡ ok (monitor_of log s.processor))
        × IsSublist (given fl found message decode r ++ s.processor.alert_chan) log
  served_alerts config started built {s} r =
      let c = Reach-IsConsistent config started built r in
      (
        handle_alerts-last s.server ∙ Keeps-last 100 _ _ (omega arith) c.keeps,
        c.log,
        c.watched,
        c.carries.ordered,
      )
