-- ===== src/Engine/Decision.antt =====
-- Which rule wins for a connection to a known command-and-control port (loader/engine.go, `Analyze` with the
-- `beaconing_detected` and `reverse_shell_port` rules).
use beacon_guard.Prelude.{
  ℕ, ◌≤◌, ◌≡◌, refl, inl, inr, false, List, ◌∷◌, Option, none, some, String, arith, lookup,
  Option-cases,
}
use beacon_guard.Config.{Config}
use beacon_guard.Event.{Event, num_at}
use beacon_guard.Float.{Float64}
use beacon_guard.Engine.Types.{kill, baseline, Anomaly, Profile, Baseline, Rule}
use beacon_guard.Engine.Rules.{
  bad_ports, match_unexpected_binary, match_process_running_as_root, match_beaconing_detected,
  match_reverse_shell_port, rules,
}
use beacon_guard.Engine.Verdict.{analyze-enforce}
use beacon_guard.Engine.{Engine, Readings, observe, first_match, judge, enforce, analyze}

module _ {F : Type 0} (evt : Event) (p : Profile F) (bl : Baseline F) where
  -- A first match that kills, with a score of at least 90.
  abbrev Kills : Option (Rule F × Anomaly F) → Type 0
  Kills none = ⊥
  Kills (some (r, a)) = (a.action ≡ kill) × (90 ≤ r.score)

  first_match-skip :
      (r : Rule F) (rs : List (Rule F))
      → r.matches evt p bl ≡ none
      → Kills (first_match rs evt p bl)
      → Kills (first_match (r ∷ rs) evt p bl)
  unfolding first_match
  first_match-skip r rs e later = rw e later

  first_match-Kills :
      (r : Rule F) (rs : List (Rule F))
      → ((a : Anomaly F) → r.matches evt p bl ≡ some a → a.action ≡ kill)
      → 90 ≤ r.score
      → (r.matches evt p bl ≡ none → Kills (first_match rs evt p bl))
      → Kills (first_match (r ∷ rs) evt p bl)
  unfolding first_match
  first_match-Kills r rs h score later = elim (Option-cases (r.matches evt p bl)) [
    | inl e ↦ rw e (later e)
    | inr (a, e) ↦ rw e (h a e, score)
  ]

module _ {F : Type 0} (fl : Float64 F) (config : Config) where
  rules-Kills :
      (now : ℕ) (evt : Event) (p : Profile F) (bl : Baseline F) (reason : String)
      → evt.kind ≡ 3
      → lookup (num_at "port" evt.payload) bad_ports ≡ some reason
      → Kills evt p bl (first_match (rules fl config now) evt p bl)
  unfolding rules match_unexpected_binary match_process_running_as_root match_beaconing_detected
      match_reverse_shell_port
  rules-Kills now evt p bl reason k bad = first_match-skip evt p bl _ _ (rw k) (
      first_match-skip evt p bl _ _ (rw k) (
        first_match-Kills evt p bl _ _ (λ a h. ground arith) (omega arith)
          (λ _. first_match-Kills evt p bl _ _ (λ a h. ground arith) (omega arith) (λ h. cc))))

-- An answer that kills the event's process, with a score of at least 90.
abbrev pub KillAnswer : {F : Type 0} → Event → Option (Anomaly F) → Type 0
KillAnswer {F} evt o =
    (a : Anomaly F) × (o ≡ some a) × (a.action ≡ kill) × (90 ≤ a.score) × (a.pid ≡ evt.pid)

judge-Kills :
    {F : Type 0} (config : Config) (now : ℕ) (evt : Event) (p : Profile F) (bl : Baseline F)
    (m : Option (Rule F × Anomaly F))
    → Kills evt p bl m
    → KillAnswer evt (judge config now evt p m).0
unfolding judge
judge-Kills config now evt p bl none h = absurd h
judge-Kills config now evt p bl (some (r, a)) h =
    (_, refl, ground (arith, h.0), ground (arith, h.1), ground arith)

module _ {F : Type 0} (fl : Float64 F) where
  -- In enforcement mode every connection to a port of the table of command-and-control ports is answered with a kill of its
  -- process, with a score of at least 90, whatever the profile, the configuration and the clock: no
  -- rule that stands earlier in the list can turn it into less.
  pub c2_port_kills :
      (config : Config) (t : Readings) (evt : Event) (e : Engine F) (reason : String)
      → config.learning_mode ≡ false
      → evt.kind ≡ 3
      → lookup (num_at "port" evt.payload) bad_ports ≡ some reason
      → KillAnswer evt (analyze fl config t evt e).0
  unfolding enforce
  c2_port_kills config t evt e reason l k bad =
      let q : Profile F = record (observe t evt e) { state = baseline } in
      rw (analyze-enforce fl config t evt e l) (
        judge-Kills config t.stamped evt q e.global _
          (rules-Kills fl config t.checked evt q e.global reason k bad))
