-- ===== src/System.antt =====
-- The program as loader/main.go starts it: the processor (loader/event_processor.go), the consumer of
-- alerts, the HTTP handlers and the event-stream clients (loader/api_server.go) run at the same time.
-- Each step is one pass of one of them, in any order. `AddAlert` is one step: only the consumer sends
-- to the clients, and a client that leaves meanwhile reads no more.
pub mod Invariant
pub mod Runs
pub mod Streams
pub mod Drains
pub mod Browser
use beacon_guard.Prelude.{
  ℕ, ◌≡◌, Bool, List, [], ◌∷◌, ◌++◌, take, Option, none, String, Bytes, lookup,
}
use beacon_guard.Config.{Config, Fields}
use beacon_guard.Event.{ok}
use beacon_guard.Float.{Float64}
use beacon_guard.Processor.{Alert, Processor, Input, round, new_processor}
use beacon_guard.Server.{Server, new_server, consume, subscribe, take_message, unsubscribe}
use beacon_guard.Server.Routes.{Method, serve}

-- The configuration is the one that all parts share by pointer.
pub record System (F : Type 0) : Type 0 where
  pub config : Config
  pub processor : Processor F
  pub server : Server F

module _ {F : Type 0} (fl : Float64 F) (found : ℕ → Bool) where
  -- The state when `main` starts the goroutines.
  unfoldable pub new_system : Config → ℕ → ℕ → System F
  unfolding new_server
  new_system config started built = record {
    config = config;
    processor = new_processor fl found started built;
    server = new_server;
  }

module _ {F : Type 0} where
  -- One pass of `startAlertConsumer`.
  unfoldable pub deliver : (Alert F → Bytes) → System F → System F
  deliver message s =
      let (queue, server) = consume message s.processor.alert_chan s.server in
      record s { processor = record s.processor { alert_chan = queue }; server = server }

  -- A request, whose handler may replace the configuration.
  unfoldable pub request : (Bytes → Option Fields) → String → Method → Bytes → System F → System F
  request decode path method body s = record s {
    config = (serve decode path method body s.config s.processor.engine s.server).1;
  }

module _ {F : Type 0} (fl : Float64 F) (found : ℕ → Bool) (message : Alert F → Bytes)
    (decode : Bytes → Option Fields) where
  pub data Step : System F → System F → Type 0 where
    processed :
        (s : System F) (i : Input) (w : Processor F)
        → round fl found s.config i i.sample s.processor ≡ ok w
        → Step s (record s { processor = w })
    delivered : (s : System F) → Step s (deliver message s)
    requested :
        (s : System F) (path : String) (method : Method) (body : Bytes)
        → Step s (request decode path method body s)
    connected :
        (s : System F) (c : ℕ)
        → lookup c s.server.clients ≡ none
        → Step s (record s { server = subscribe c s.server })
    written : (s : System F) (c : ℕ) → Step s (record s { server = (take_message c s.server).1 })
    disconnected : (s : System F) (c : ℕ) → Step s (record s { server = unsubscribe c s.server })

  -- The states that any number of steps can reach.
  pub data Reach (s : System F) : System F → Type 0 where
    here : Reach s s
    next : {t u : System F} → Reach s t → Step t u → Reach s u

  -- The inputs that were processed on the way, each with the configuration of its time.
  abbrev heard_after : {s t : System F} → List (Config × Input) → Step s t → List (Config × Input)
  heard_after inputs (processed s i w e) = inputs ++ (s.config, i) ∷ []
  heard_after inputs _ = inputs

  abbrev pub heard : {s t : System F} → Reach s t → List (Config × Input)
  heard here = []
  heard (next r step) = heard_after (heard r) step

  -- The alerts that the server was given on the way.
  abbrev given_after : {s t : System F} → List (Alert F) → Step s t → List (Alert F)
  given_after alerts (delivered s) = alerts ++ take 1 s.processor.alert_chan
  given_after alerts _ = alerts

  abbrev pub given : {s t : System F} → Reach s t → List (Alert F)
  given here = []
  given (next r step) = given_after (given r) step
