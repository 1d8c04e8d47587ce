-- ===== src/Engine/Rules/Timed.antt =====
-- loader/engine.go, `registerBuiltinRules`: the `Match` functions on the times of connections. `now`
-- is the clock's reading inside the rule.
use mathlib.Core.List.{foldl, reverse}
use beacon_guard.Prelude.{
  ℕ, suc, ◌-◌, not, ◌&&◌, List, [], ◌∷◌, Option, none, some, length, drop, lt64, quot64, ltb, ◌==◌,
  if◌then◌else◌,
}
use beacon_guard.Config.{Config}
use beacon_guard.Event.{Event}
use beacon_guard.Float.{Float64, elapsed}
use beacon_guard.Engine.Types.{
  high, critical, alert, kill, beaconing_detected, rapid_succession_connections, ConnectionRecord,
  num, float, texts, Anomaly, Profile, Baseline,
}
use beacon_guard.Engine.Rules.Plain.{addresses, found}

module _ {F : Type 0} (fl : Float64 F) where
  open fl use {add, sub, mul, div, lt, of_int, literal, round}

  -- `intervals`: the seconds from each connection to the next.
  unfoldable pub intervals_from : ℕ → List ConnectionRecord → List F
  intervals_from before [] = []
  intervals_from before (c ∷ cs) = elapsed fl before c.timestamp ∷ intervals_from c.timestamp cs

  unfoldable pub intervals : List ConnectionRecord → List F
  unfolding intervals_from
  intervals [] = []
  intervals (c ∷ cs) = intervals_from c.timestamp cs

  unfoldable pub mean_of : List F → F
  mean_of ivs = div (foldl add (literal 0 1) ivs) (of_int (length ivs))

  unfoldable pub variance_of : F → List F → F
  variance_of mean ivs =
      div (foldl (λ v iv. add v (mul (sub iv mean) (sub iv mean))) (literal 0 1) ivs)
        (of_int (length ivs))

  abbrev percent : F → F
  percent x = div (round (mul x (literal 100 1))) (literal 100 1)

  unfoldable pub match_beaconing_detected : Event → Profile F → Baseline F → Option (Anomaly F)
  match_beaconing_detected evt p bl =
      let ivs = intervals p.connections in
      let mean = mean_of ivs in
      let variance = variance_of mean ivs in
      if not (evt.kind == 3)
      then none
      else if ltb (length p.connections) 5
      then none
      else if ltb (length ivs) 3
      then none
      else if lt (literal 1 1) mean && lt variance (mul mean (literal 1 5))
      then some (
          found beaconing_detected critical 90 "Periodic external connections detected" kill (
            ("interval_mean", float (percent mean))
            ∷ ("interval_var", float (percent variance))
            ∷ ("connections", num (length p.connections))
            ∷ []))
      else none

  abbrev pub window : F
  window = literal 5 1

  -- The loop that counts back from the newest connection, on the reversed list; `break` at the
  -- first one outside the window.
  unfoldable pub recent_from : ℕ → List ConnectionRecord → ℕ
  recent_from now [] = 0
  recent_from now (c ∷ cs) =
      let rest = recent_from now cs in
      if lt (elapsed fl c.timestamp now) window then suc rest else 0

  unfoldable pub match_rapid_succession :
      Config → ℕ → Event → Profile F → Baseline F → Option (Anomaly F)
  match_rapid_succession config now evt p bl =
      let recent = recent_from now (reverse p.connections) in
      let ips = addresses (drop (length p.connections - recent) p.connections) in
      if not (evt.kind == 3)
      then none
      else if ltb (length p.connections) 10
      then none
      else if not (lt64 recent (quot64 config.max_connections_per_min 12))
      then some (
          found rapid_succession_connections high 65 "Rapid external connections" alert
            (("count", num recent) ∷ ("window_sec", float window) ∷ ("ips", texts ips) ∷ []))
      else none
