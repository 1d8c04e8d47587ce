-- ===== src/Server/Handlers.antt =====
-- What the HTTP handlers of loader/api_server.go answer and change.
use native.Mathlib.Nat.{zero-add}
use beacon_guard.Prelude.{
  ℕ, ◌+◌, ◌^◌, ◌<◌, ◌≡◌, refl, ◌∙◌, true, List, [], ◌∷◌, Option, some, String, Bytes, arith, length,
  add64, if_cases, Option-cases, inl, inr,
}
use text.Mathlib.Text.{◌==◌ as str_eq}
use beacon_guard.Config.{Config, Fields, fields_of, unmarshal, zero_config}
use beacon_guard.Config.Load.{unmarshal-fields_of}
use beacon_guard.Engine.{Engine}
use beacon_guard.Engine.Types.{Severity, info, low, medium, high, critical}
use beacon_guard.Processor.{Alert}
use beacon_guard.Server.{
  Server, SeverityCounts, count_severity, no_counts, severities, handle_stats,
}
use beacon_guard.Server.Routes.{
  Method, get, post, options, other, Answer, updated, settings, handle_config, dispatch, is_options,
  serve,
}

-- The sum of the five counters.
abbrev pub severity_sum : SeverityCounts → ℕ
severity_sum n = n.critical_count + n.high_count + n.medium_count + n.low_count + n.info_count

count_severity-sum :
    (v : Severity) (n : SeverityCounts)
    → severity_sum n < 2 ^ 63
    → severity_sum (count_severity v n) ≡ severity_sum n + 1
unfolding count_severity add64
count_severity-sum info n h = omega arith
count_severity-sum low n h = omega arith
count_severity-sum medium n h = omega arith
count_severity-sum high n h = omega arith
count_severity-sum critical n h = omega arith

module _ {F : Type 0} where
  severities-sum :
      (alerts : List (Alert F)) (n : SeverityCounts)
      → severity_sum n + length alerts < 2 ^ 63
      → severity_sum (severities alerts n) ≡ severity_sum n + length alerts
  unfolding severities
  severities-sum [] n h = omega arith
  severities-sum (a ∷ alerts) n h =
      let one = count_severity-sum a.severity n (omega arith) in
      omega (arith, severities-sum alerts (count_severity a.severity n) (omega arith))

  -- `/api/v1/stats` counts every stored alert under one severity: the five counts add up to the
  -- total, as long as fewer than 2 ^ 63 alerts are stored.
  pub handle_stats-sum :
      (config : Config) (e : Engine F) (s : Server F)
      → length s.alerts < 2 ^ 63
      → let v = handle_stats config e s in severity_sum v.by_severity ≡ v.total_alerts
  unfolding handle_stats
  handle_stats-sum config e s h =
      severities-sum s.alerts no_counts (omega arith) ∙ zero-add (length s.alerts)

module _ (decode : Bytes → Option Fields) where
  -- How a request may leave the configuration: as it was, or, for a POST to the configuration whose
  -- body decodes, replaced by the fields of the body over zero values.
  pub data Effect (path : String) (method : Method) (body : Bytes) (config : Config)
      : Config → Type 0 where
    keeps : Effect path method body config config
    replaces :
        (f : Fields)
        → str_eq path "/api/v1/config" ≡ true
        → method ≡ post
        → decode body ≡ some f
        → Effect path method body config (unmarshal zero_config f)

module _ {F : Type 0} (decode : Bytes → Option Fields) where
  handle_config-Effect :
      (path : String) (method : Method) (body : Bytes) (config : Config)
      → str_eq path "/api/v1/config" ≡ true
      → (e : Engine F) (s : Server F)
      → Effect decode path method body config (handle_config {F = F} decode method body config).1
  unfolding handle_config
  handle_config-Effect path get body config h e s = keeps
  handle_config-Effect path post body config h e s = elim (Option-cases (decode body)) [
    | inl bad ↦ rw bad keeps
    | inr (f, good) ↦ rw good (replaces f h refl good)
  ]
  handle_config-Effect path options body config h e s = keeps
  handle_config-Effect path other body config h e s = keeps

  dispatch-Effect :
      (path : String) (method : Method) (body : Bytes) (config : Config) (e : Engine F)
      (s : Server F)
      → Effect decode path method body config (dispatch decode path method body config e s).1
  unfolding dispatch
  dispatch-Effect path method body config e s =
      if_cases Ok (str_eq path "/api/v1/health") _ _ (λ _. keeps)
        (λ _.
          if_cases Ok (str_eq path "/api/v1/stats") _ _ (λ _. keeps)
            (λ _.
              if_cases Ok (str_eq path "/api/v1/processes") _ _ (λ _. keeps)
                (λ _.
                  if_cases Ok (str_eq path "/api/v1/alerts") _ _ (λ _. keeps)
                    (λ _.
                      if_cases Ok (str_eq path "/api/v1/config") _ _
                        (λ h. handle_config-Effect path method body config h e s) (λ _. keeps)))))
    where
      Ok : Answer F × Config → Type 0
      Ok r = Effect decode path method body config r.1

  -- A request changes the configuration only if it is a POST to `/api/v1/config` with a body that
  -- decodes; every other request, and a body that is refused, leaves it as it was.
  pub serve-Effect :
      (path : String) (method : Method) (body : Bytes) (config : Config) (e : Engine F)
      (s : Server F)
      → Effect decode path method body config (serve decode path method body config e s).1
  unfolding serve
  serve-Effect path method body config e s =
      if_cases (λ (r : Answer F × Config). Effect decode path method body config r.1)
        (is_options method) _ _ (λ _. keeps) (λ _. dispatch-Effect path method body config e s)

  -- Posting the encoding of a configuration installs exactly that configuration, and a following GET
  -- answers with it, whatever stood there before.
  pub post_then_get :
      (body : Bytes) (config wanted : Config) (e : Engine F) (s : Server F)
      → decode body ≡ some (fields_of wanted)
      → let (answer, config') = serve decode "/api/v1/config" post body config e s in
        (answer ≡ updated)
        × (config' ≡ wanted)
        × (serve decode "/api/v1/config" get [] config' e s ≡ (settings wanted, wanted))
  unfolding serve
  post_then_get body config wanted e s h =
      let same = unmarshal-fields_of wanted zero_config in rw h (refl, same, rw same)
