-- ===== src/Server/Routes.antt =====
-- loader/api_server.go: the configuration handler, the routes and the middleware. JSON text is read by
-- `decode`; an answer is the value that the handler encodes.
use text.Mathlib.Text.{◌==◌ as str_eq}
use beacon_guard.Prelude.{Bool, true, false, List, Option, none, some, String, Bytes, if◌then◌else◌}
use beacon_guard.Config.{Config, Fields, zero_config, unmarshal}
use beacon_guard.Engine.{Engine}
use beacon_guard.Processor.{Alert}
use beacon_guard.Server.{
  Server, handle_alerts, StatsView, ProcessView, handle_stats, handle_processes,
}

pub data Method : Type 0 where
  get post options other : Method

abbrev pub is_options : Method → Bool
is_options options = true
is_options _ = false

pub data Answer (F : Type 0) : Type 0 where
  health : String → String → Answer F
  stats : StatsView → Answer F
  processes : List ProcessView → Answer F
  alerts : List (Alert F) → Answer F
  settings : Config → Answer F
  updated : Answer F
  bad_request : Answer F
  nothing : Answer F  -- status 200 and no body
  not_found : Answer F

module _ {F : Type 0} (decode : Bytes → Option Fields) where
  abbrev replace : Config → Option Fields → Answer F × Config
  replace config none = (bad_request, config)
  replace config (some f) = (updated, unmarshal zero_config f)

  -- `handleConfig`: a POST decodes into a fresh struct, which replaces the shared one.
  unfoldable pub handle_config : Method → Bytes → Config → Answer F × Config
  handle_config get body config = (settings config, config)
  handle_config post body config = replace config (decode body)
  handle_config _ body config = (nothing, config)

  -- The routes of `Start`, but for the event stream.
  unfoldable pub dispatch :
      String → Method → Bytes → Config → Engine F → Server F → Answer F × Config
  dispatch path method body config e s =
      if str_eq path "/api/v1/health"
      then (health "ok" "0.1.0", config)
      else if str_eq path "/api/v1/stats"
      then (stats (handle_stats config e s), config)
      else if str_eq path "/api/v1/processes"
      then (processes (handle_processes e), config)
      else if str_eq path "/api/v1/alerts"
      then (alerts (handle_alerts s), config)
      else if str_eq path "/api/v1/config"
      then handle_config method body config
      else (not_found, config)

  -- `corsMiddleware` around the routes: a preflight request does not reach them.
  unfoldable pub serve : String → Method → Bytes → Config → Engine F → Server F → Answer F × Config
  unfolding dispatch handle_config
  serve path method body config e s =
      let reply = dispatch path method body config e s in
      if is_options method then (nothing, config) else reply
