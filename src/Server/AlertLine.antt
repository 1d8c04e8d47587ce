-- ===== src/Server/AlertLine.antt =====
-- The JSON text of an alert (loader/api_server.go, `AddAlert`) as one line.
use mathlib.Core.Option
use beacon_guard.Prelude.{ℕ, List, [], ◌∷◌, map, Option, none, some, String, Bytes, or_zero, codes}
use beacon_guard.Engine.Types.{Detail, str, label, num, float, texts}
use beacon_guard.Processor.{Alert}
use beacon_guard.Server.Json.{
  quote, object, rule_text, severity_text, action_text, detail_json, add_member, details_json,
  members_of, alert_json,
}
use beacon_guard.Server.OneLine.{
  OneLine, Values, quote-OneLine, quotes-OneLines, int_text-OneLine, array-OneLine, object-OneLine,
  sorted_insert-Values,
}
use beacon_guard.Server.Message.{json_text}

-- The JSON text of an alert is on one line, where the text of a float64 is.
module _ {F : Type 0} (float_text : F → Option Bytes) (time_text : ℕ → Bytes) where
  detail_json-OneLine :
      (d : Detail F)
      → ((x : F) → OneLine (or_zero [] (float_text x)))
      → OneLine (or_zero [] (detail_json float_text time_text d))
  unfolding detail_json
  detail_json-OneLine (str s) h = quote-OneLine s
  detail_json-OneLine (label s) h = quote-OneLine (codes s)
  detail_json-OneLine (num n) h = int_text-OneLine n
  detail_json-OneLine (float x) h = h x
  detail_json-OneLine (texts ts) h = array-OneLine (map quote ts) (quotes-OneLines ts)

  add_member-Values :
      (key : Bytes) (more : Option (List (Bytes × Bytes))) (value : Option Bytes)
      → OneLine (or_zero [] value)
      → Values (or_zero [] more)
      → Values (or_zero [] (add_member float_text time_text key more value))
  unfolding add_member
  add_member-Values key more none h k = tt
  add_member-Values key none (some v) h k = tt
  add_member-Values key (some ms) (some v) h k = sorted_insert-Values (key, v) ms h k

  details_json-Values :
      (ds : List (String × Detail F))
      → ((x : F) → OneLine (or_zero [] (float_text x)))
      → Values (or_zero [] (details_json float_text time_text ds))
  unfolding details_json
  details_json-Values [] h = tt
  details_json-Values ((k, d) ∷ more) h =
      add_member-Values (codes k) (details_json float_text time_text more)
        (detail_json float_text time_text d) (detail_json-OneLine d h) (details_json-Values more h)

  members_of-Values :
      (a : Alert F) (details : List (Bytes × Bytes))
      → Values details
      → Values (members_of float_text time_text a details)
  members_of-Values a details h = (
    quote-OneLine (codes (action_text a.action)),
    (
      quote-OneLine a.comm,
      (
        quote-OneLine (codes a.description),
        (
          object-OneLine details h,
          (
            int_text-OneLine a.pid,
            (
              quote-OneLine (codes (rule_text a.rule)),
              (
                int_text-OneLine a.score,
                (
                  quote-OneLine (codes (severity_text a.severity)),
                  (quote-OneLine (time_text a.timestamp), tt),
                ),
              ),
            ),
          ),
        ),
      ),
    ),
  )

  object_of-OneLine :
      (a : Alert F) (details : Option (List (Bytes × Bytes)))
      → Values (or_zero [] details)
      → OneLine
          (or_zero [] (Option.map (λ ms. object (members_of float_text time_text a ms)) details))
  object_of-OneLine a none h = tt
  object_of-OneLine a (some ms) h =
      object-OneLine (members_of float_text time_text a ms) (members_of-Values a ms h)

  pub alert_json-OneLine :
      (a : Alert F)
      → ((x : F) → OneLine (or_zero [] (float_text x)))
      → OneLine (json_text float_text time_text a)
  unfolding alert_json
  alert_json-OneLine a h =
      object_of-OneLine a (details_json float_text time_text a.details)
        (details_json-Values a.details h)
