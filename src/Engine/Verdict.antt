-- ===== src/Engine/Verdict.antt =====
-- What `Analyze` (loader/engine.go) answers: nothing while it learns, a kill on a known command-and-control port, the
-- escalation by the threshold, and what it leaves alone.
use beacon_guard.Prelude.{
  ℕ, ◌≤◌, ◌≡◌, refl, ◌≢◌, Bool, true, false, not, List, [], ◌∷◌, ◌++◌, Option, none, some, arith,
  add64, lt64, lookup, lookup-insert, lookup-insert_self, if◌then◌else◌, if_cases,
}
use beacon_guard.Config.{Config}
use beacon_guard.Event.{Event}
use beacon_guard.Float.{Float64}
use beacon_guard.Engine.Types.{baseline, kill, Anomaly, Profile, Rule}
use beacon_guard.Engine.Guards.{kind_of, rule_order, Guard, NoneFits, FirstFit}
use beacon_guard.Engine.Matches.{Picked, rules-Picked}
use beacon_guard.Engine.{Engine, Readings, observe, complete, judge, store, learn, enforce, analyze}

module _ {F : Type 0} where
  store_other :
      (evt : Event) (e : Engine F) (p : Profile F) (k : ℕ)
      → k ≢ evt.pid
      → lookup k (store evt e p).profiles ≡ lookup k e.profiles
  unfolding store
  store_other evt e p k ne = ground (arith, lookup-insert evt.pid k p e.profiles)

  store_self :
      (evt : Event) (e : Engine F) (p : Profile F)
      → lookup evt.pid (store evt e p).profiles ≡ some p
  unfolding store
  store_self evt e p = lookup-insert_self evt.pid p e.profiles

  -- The threshold is reached: `SuspicionScore >= SuspicionThreshold`.
  abbrev pub reached : Config → Profile F → Bool
  reached config p = not (lt64 p.suspicion_score config.suspicion_threshold)

  -- The anomaly that leaves `Analyze`, for the one that the profile keeps.
  abbrev pub escalated : Config → Profile F → Anomaly F → Anomaly F
  escalated config p a = record a { action = if reached config p then kill else a.action }

  escalate :
      (b : Bool) (a : Anomaly F)
      → (if b then record a { action = kill } else a)
        ≡ record a { action = if b then kill else a.action }
  escalate true a = refl
  escalate false a = refl

module _ {F : Type 0} (fl : Float64 F) (config : Config) (evt : Event) (t : Readings) where
  -- What enforcement may answer, and do to the profile of the event's process: `before` is the
  -- profile as the rules see it, `after` as it is stored. Nothing is answered only where no rule applies;
  -- the kept anomaly is that of the first rule that does.
  pub data Verdict (before : Profile F) : Option (Anomaly F) → Profile F → Type 0 where
    pass : NoneFits fl config t.checked evt before rule_order → Verdict before none before
    raise :
        {after : Profile F} {answer : Anomaly F} (kept : Anomaly F)
        → (kept.pid ≡ evt.pid) × (kept.comm ≡ evt.comm) × (kept.timestamp ≡ t.stamped)
        → (kept.score ≤ 100)
          × (evt.kind ≡ kind_of kept.rule)
          × Guard fl config t.checked evt before kept.rule
          × FirstFit fl config t.checked evt before rule_order kept.rule
        → after ≡ record before {
          suspicion_score = add64 before.suspicion_score kept.score;
          anomalies = before.anomalies ++ kept ∷ [];
        }
        → answer ≡ escalated config after kept
        → Verdict before (some answer) after

  judge-Verdict :
      (p : Profile F) (m : Option (Rule F × Anomaly F))
      → Picked fl config t.checked evt p rule_order m
      → Verdict p (judge config t.stamped evt p m).0 (judge config t.stamped evt p m).1
  unfolding judge
  judge-Verdict p none picked = pass picked
  judge-Verdict p (some (r, a)) picked =
      let sh = picked.0 in
      raise (complete t.stamped evt r a) (refl, refl, refl)
        (sh.capped, rw sh.named sh.kinded, rw sh.named sh.guarded, rw sh.named picked.1) refl
        (escalate (not (lt64 (add64 p.suspicion_score r.score) config.suspicion_threshold))
          (complete t.stamped evt r a))

module _ {F : Type 0} where
  abbrev pub anomalies_of : Option (Profile F) → List (Anomaly F)
  anomalies_of none = []
  anomalies_of (some p) = p.anomalies

module _ {F : Type 0} (fl : Float64 F) where
  pub learning-stored :
      (config : Config) (t : Readings) (evt : Event) (e : Engine F)
      → config.learning_mode ≡ true
      → ((analyze fl config t evt e).0 ≡ none)
        × (lookup evt.pid (analyze fl config t evt e).1.profiles
            ≡ some (learn fl config t.since (observe t evt e)))
  unfolding analyze
  learning-stored config t evt e l =
      if_cases
        (λ (r : Option (Anomaly F) × Engine F).
          (r.0 ≡ none)
          × (lookup evt.pid r.1.profiles ≡ some (learn fl config t.since (observe t evt e))))
        config.learning_mode _ _ (λ _. (refl, store_self evt e _)) (λ h. cc (l, h))

  -- `Analyze` touches the profile of the event's pid only.
  pub analyze_other :
      (config : Config) (t : Readings) (evt : Event) (e : Engine F) (k : ℕ)
      → k ≢ evt.pid
      → lookup k (analyze fl config t evt e).1.profiles ≡ lookup k e.profiles
  unfolding analyze
  analyze_other config t evt e k ne =
      if_cases (λ (r : Option (Anomaly F) × Engine F). lookup k r.1.profiles ≡ lookup k e.profiles)
        config.learning_mode _ _ (λ _. store_other evt e _ k ne) (λ _. store_other evt e _ k ne)

  -- In enforcement mode the answer and the stored profile come from the rules.
  pub analyze-enforce :
      (config : Config) (t : Readings) (evt : Event) (e : Engine F)
      → config.learning_mode ≡ false
      → let r = enforce fl config t evt e.global (observe t evt e) in
        analyze fl config t evt e ≡ (r.0, store evt e r.1)
  unfolding analyze
  analyze-enforce config t evt e l =
      if_cases
        (λ x.
          x
          ≡ (let r = enforce fl config t evt e.global (observe t evt e) in (r.0, store evt e r.1)))
        config.learning_mode _ _ (λ h. cc (l, h)) (λ _. refl)

  -- One call in enforcement mode: either none of the ten rules applies to the event and the observed
  -- profile, the answer is nil and the observed profile is stored; or one anomaly of the event's process is
  -- kept, that of the first rule in the order that applies: its type of event, and its guard with all tests
  -- on counts, times and rates. Its score, at most 100, is added, and the answer is the kept anomaly, with
  -- the action raised to a kill where the new score has reached the threshold.
  pub analyze-Verdict :
      (config : Config) (t : Readings) (evt : Event) (e : Engine F)
      → config.learning_mode ≡ false
      → (after : Profile F) × (lookup evt.pid (analyze fl config t evt e).1.profiles ≡ some after)
        × Verdict fl config evt t
            (record (observe t evt e) { state = baseline })
            (analyze fl config t evt e).0
            after
  unfolding enforce
  analyze-Verdict config t evt e l =
      let p = observe t evt e in
      let r = enforce fl config t evt e.global p in
      let q : Profile F = record p { state = baseline } in
      rw (analyze-enforce config t evt e l) (
        r.1,
        store_self evt e r.1,
        judge-Verdict fl config evt t q _ (rules-Picked fl config t.checked evt q e.global),
      )
