-- ===== src/Tests/Api.antt =====
-- The store of alerts, the clients and the handlers.
use beacon_guard.Prelude.{
  ℕ, ◌≡◌, refl, List, [], ◌∷◌, map, Option, some, Bytes, arith, lookup, take,
}
use beacon_guard.Config.{Fields, default_config, fields_of, contents, loaded, load_config}
use beacon_guard.Config.Load.{Loads, load_config_iff}
use beacon_guard.Prelude.{◌↔◌}
use beacon_guard.Processor.{Alert}
use beacon_guard.Server.{client_capacity, subscribe, handle_alerts, handle_stats, new_server}
use beacon_guard.Server.Routes.{get, post, updated, settings, serve}
use beacon_guard.Server.Alerts.{Keeps, last, add_all, add_all_new-Keeps, handle_alerts-add_all}
use beacon_guard.Server.Clients.{subscribed-buffer}
use beacon_guard.Server.Handlers.{
  Effect, serve-Effect, post_then_get, handle_stats-sum, severity_sum,
}
use beacon_guard.Tests.Samples.{enforcing, fresh_engine, an_alert, message, fresh_server}

abbrev three : List (Alert ℕ)
three = an_alert 1 ∷ an_alert 2 ∷ an_alert 3 ∷ []

handle_alerts-add_all_example : handle_alerts (add_all message three new_server) ≡ last 100 three
handle_alerts-add_all_example = handle_alerts-add_all message three

add_all_new-Keeps_example : Keeps three (add_all message three new_server).alerts
add_all_new-Keeps_example = add_all_new-Keeps message three

subscribed-buffer_example :
    lookup 4 (add_all message three (subscribe 4 fresh_server)).clients
    ≡ some (take client_capacity (map message three))
subscribed-buffer_example = subscribed-buffer message three 4 fresh_server

handle_stats-sum_example :
    let v = handle_stats enforcing fresh_engine (record fresh_server { alerts = three }) in
    severity_sum v.by_severity ≡ v.total_alerts
handle_stats-sum_example =
    handle_stats-sum enforcing fresh_engine (record fresh_server { alerts = three }) (omega arith)

-- A decoder that reads the encoding of one configuration from every text.
abbrev decode : Bytes → Option Fields
decode text = some (fields_of enforcing)

serve-Effect_example :
    Effect decode "/api/v1/config" post [] default_config
      (serve decode "/api/v1/config" post [] default_config fresh_engine fresh_server).1
serve-Effect_example =
    serve-Effect decode "/api/v1/config" post [] default_config fresh_engine fresh_server

post_then_get_example :
    let (answer, config') =
      serve decode "/api/v1/config" post [] default_config fresh_engine fresh_server in
    (answer ≡ updated)
    × (config' ≡ enforcing)
    × (serve decode "/api/v1/config" get [] config' fresh_engine fresh_server
        ≡ (settings enforcing, enforcing))
post_then_get_example =
    post_then_get decode [] default_config enforcing fresh_engine fresh_server refl

load_config_iff_example :
    (load_config decode (contents []) ≡ loaded enforcing) ↔ Loads decode (contents []) enforcing
load_config_iff_example = load_config_iff decode (contents []) enforcing
