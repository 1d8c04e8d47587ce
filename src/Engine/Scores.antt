-- ===== src/Engine/Scores.antt =====
-- How suspicion scores grow (loader/engine.go, `Analyze`), and when that ends in kills.
use mathlib.Core.Path.{subst}
use native.Mathlib.Decide.{ℕ_discrete}
use beacon_guard.Prelude.{
  ℕ, ◌+◌, ◌^◌, ◌≤◌, ◌<◌, ◌≡◌, refl, sym, ap, ◌∙◌, false, inl, inr, Option, none, some, arith, add64,
  lt64_small, lookup, ◌==◌, if_cases, if_true, if_false, ltb-false, true, Bool-cases,
}
use beacon_guard.Config.{Config}
use beacon_guard.Event.{Event}
use beacon_guard.Float.{Float64}
use beacon_guard.Engine.Types.{baseline, kill, Anomaly, Profile}
use beacon_guard.Engine.Sound.{track_cases}
use beacon_guard.Engine.Verdict.{
  Verdict, reached, pass, raise, learning-stored, analyze_other, analyze-Verdict,
}
use beacon_guard.Engine.{
  Engine, Readings, or_new, track_exec, track_open, track_connect, track, observe, learn, analyze,
}

module _ {F : Type 0} where
  abbrev pub suspicion : Option (Profile F) → ℕ
  suspicion none = 0
  suspicion (some p) = p.suspicion_score

  -- The suspicion score of a process, 0 for one without a profile.
  abbrev pub score_of : ℕ → Engine F → ℕ
  score_of k e = suspicion (lookup k e.profiles)

  or_new-score :
      (evt : Event) (now : ℕ) (o : Option (Profile F))
      → (or_new evt now o).suspicion_score ≡ suspicion o
  or_new-score evt now none = refl
  or_new-score evt now (some p) = refl

  track-score :
      (evt : Event) (now : ℕ) (p : Profile F)
      → p.suspicion_score + 20 < 2 ^ 64
      → (p.suspicion_score ≤ (track evt now p).suspicion_score)
        × ((track evt now p).suspicion_score ≤ p.suspicion_score + 20)
  unfolding track_exec track_open track_connect add64
  track-score evt now p h =
      track_cases
        (λ (q : Profile F).
          (p.suspicion_score ≤ q.suspicion_score) × (q.suspicion_score ≤ p.suspicion_score + 20))
        evt now p (omega arith, omega arith) (omega arith, omega arith)
        (if_cases (λ s. (p.suspicion_score ≤ s) × (s ≤ p.suspicion_score + 20)) (evt.ret == 1) _ _
          (λ _. (omega (arith, h), omega (arith, h))) (λ _. (omega arith, omega arith)))
        (omega arith, omega arith)

  observe-score :
      (t : Readings) (evt : Event) (e : Engine F)
      → score_of evt.pid e + 20 < 2 ^ 64
      → (score_of evt.pid e ≤ (observe t evt e).suspicion_score)
        × ((observe t evt e).suspicion_score ≤ score_of evt.pid e + 20)
  unfolding observe
  observe-score t evt e h =
      let q = or_new evt t.created (lookup evt.pid e.profiles) in
      let same = or_new-score evt t.created (lookup evt.pid e.profiles) in
      let grown =
        track-score evt t.connected (record q { last_seen = t.seen }) (omega (arith, same, h)) in
      (omega (arith, same, grown.0), omega (arith, same, grown.1))

  -- The kernel marks a connection by the result 1, which raises the score by 20.
  observe-marked :
      (t : Readings) (evt : Event) (e : Engine F)
      → evt.kind ≡ 3
      → evt.ret ≡ 1
      → score_of evt.pid e + 20 < 2 ^ 64
      → (observe t evt e).suspicion_score ≡ score_of evt.pid e + 20
  unfolding observe track track_connect add64
  observe-marked t evt e kind ret h =
      let same = or_new-score evt t.created (lookup evt.pid e.profiles) in
      let no_exec : (evt.kind == 1) ≡ false = ground (arith, kind) in
      let no_open : (evt.kind == 2) ≡ false = ground (arith, kind) in
      let connects : (evt.kind == 3) ≡ true = ground (arith, kind) in
      let marked : (evt.ret == 1) ≡ true = ground (arith, ret) in
      ap (λ (q : Profile F). q.suspicion_score)
        (if_false (evt.kind == 1) _ _ no_exec
          ∙ if_false (evt.kind == 2) _ _ no_open
          ∙ if_true (evt.kind == 3) _ _ connects)
      ∙ if_true (evt.ret == 1) _ _ marked
      ∙ omega (arith, same, h)

module _ {F : Type 0} (fl : Float64 F) where
  Verdict-score :
      {config : Config} {evt : Event} {t : Readings} {before after : Profile F}
      {o : Option (Anomaly F)}
      → before.suspicion_score + 100 < 2 ^ 64
      → Verdict fl config evt t before o after
      → (before.suspicion_score ≤ after.suspicion_score)
        × (after.suspicion_score ≤ before.suspicion_score + 100)
  unfolding add64
  Verdict-score h (pass none_fits) = (omega arith, omega arith)
  Verdict-score h (raise kept own facts e a) =
      let s = ap (λ (q : Profile F). q.suspicion_score) e in
      (omega (arith, s, h, facts.0), omega (arith, s, h, facts.0))

  -- The action of an anomaly that leaves `Analyze`, by the new score.
  Verdict-action :
      {config : Config} {evt : Event} {t : Readings} {before after : Profile F} {a : Anomaly F}
      → reached config after ≡ true
      → Verdict fl config evt t before (some a) after
      → a.action ≡ kill
  Verdict-action {config} {after = after} high (raise kept own facts e answer) =
      ap (λ (x : Anomaly F). x.action) answer ∙ if_true (reached config after) _ _ high

  Verdict-kill :
      {config : Config} {evt : Event} {t : Readings} {before after : Profile F} {a : Anomaly F}
      → config.suspicion_threshold ≤ before.suspicion_score
      → before.suspicion_score + 100 < 2 ^ 63
      → Verdict fl config evt t before (some a) after
      → a.action ≡ kill
  Verdict-kill {config} {after = after} reach h v =
      let grown = Verdict-score (omega (arith, h)) v in
      let s = after.suspicion_score in
      let t = config.suspicion_threshold in
      Verdict-action
        (rw
          (
            lt64_small s t (omega (arith, grown.1, h)) (omega (arith, reach, h)),
            ltb-false s t (omega (arith, reach, grown.0)),
          )
          refl)
        v

  learn-score :
      (config : Config) (now : ℕ) (p : Profile F)
      → (learn fl config now p).suspicion_score ≡ p.suspicion_score
  unfolding learn
  learn-score config now p =
      if_cases (λ (q : Profile F). q.suspicion_score ≡ p.suspicion_score) _ _ _ (λ _. refl)
        (λ _. refl)

  own-score :
      (config : Config) (t : Readings) (evt : Event) (e : Engine F)
      → score_of evt.pid e + 120 < 2 ^ 64
      → (score_of evt.pid e ≤ score_of evt.pid (analyze fl config t evt e).1)
        × (score_of evt.pid (analyze fl config t evt e).1 ≤ score_of evt.pid e + 120)
  own-score config t evt e h =
      let seen = observe-score t evt e (omega (arith, h)) in
      elim (Bool-cases config.learning_mode) [
        | inl l ↦
            let stored = ap suspicion (learning-stored fl config t evt e l).1 in
            let same = learn-score config t.since (observe t evt e) in
            (omega (arith, stored, same, seen.0), omega (arith, stored, same, seen.1))
        | inr l ↦
            let (after, q, v) = analyze-Verdict fl config t evt e l in
            let stored = ap suspicion q in
            let grown = Verdict-score (omega (arith, seen.1, h)) v in
            (omega (arith, stored, seen.0, grown.0), omega (arith, stored, seen.1, grown.1))
      ]

  -- A marked connection adds 20 at least.
  pub marked-score :
      (config : Config) (t : Readings) (evt : Event) (e : Engine F)
      → evt.kind ≡ 3
      → evt.ret ≡ 1
      → score_of evt.pid e + 120 < 2 ^ 64
      → score_of evt.pid e + 20 ≤ score_of evt.pid (analyze fl config t evt e).1
  marked-score config t evt e kind ret h =
      let seen = observe-marked t evt e kind ret (omega (arith, h)) in
      elim (Bool-cases config.learning_mode) [
        | inl l ↦
            let stored = ap suspicion (learning-stored fl config t evt e l).1 in
            omega (arith, stored, learn-score config t.since (observe t evt e), seen)
        | inr l ↦
            let (after, q, v) = analyze-Verdict fl config t evt e l in
            let grown = Verdict-score (omega (arith, seen, h)) v in
            omega (arith, ap suspicion q, seen, grown.0)
      ]

  -- One call adds between 0 and 120 to the score of each process, if that leaves it within 64 bits.
  pub analyze-score :
      (config : Config) (t : Readings) (evt : Event) (e : Engine F) (k : ℕ)
      → score_of k e + 120 < 2 ^ 64
      → (score_of k e ≤ score_of k (analyze fl config t evt e).1)
        × (score_of k (analyze fl config t evt e).1 ≤ score_of k e + 120)
  analyze-score config t evt e k h = elim (ℕ_discrete k evt.pid) [
    | yes own ↦
        subst
          (λ j.
            (score_of j e ≤ score_of j (analyze fl config t evt e).1)
            × (score_of j (analyze fl config t evt e).1 ≤ score_of j e + 120))
          (sym own) (own-score config t evt e (subst (λ j. score_of j e + 120 < 2 ^ 64) own h))
    | no other ↦
        let same = ap suspicion (analyze_other fl config t evt e k other) in
        (omega (arith, same), omega (arith, same))
  ]

  -- Once a process has reached the threshold, enforcement answers nothing or a kill for it, for scores
  -- and thresholds that are positive as 64-bit integers.
  pub reached-kill :
      (config : Config) (t : Readings) (evt : Event) (e : Engine F) (a : Anomaly F)
      → config.learning_mode ≡ false
      → config.suspicion_threshold ≤ score_of evt.pid e
      → score_of evt.pid e + 120 < 2 ^ 63
      → (analyze fl config t evt e).0 ≡ some a
      → a.action ≡ kill
  reached-kill config t evt e a l reach h q =
      let (after, _, v) = analyze-Verdict fl config t evt e l in
      let seen = observe-score t evt e (omega (arith, h)) in
      Verdict-kill (omega (arith, reach, seen.0)) (omega (arith, seen.1, h)) (
        subst (λ o. Verdict fl config evt t (record (observe t evt e) { state = baseline }) o after)
          q v)
