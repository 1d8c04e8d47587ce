-- ===== src/Engine/Sound.antt =====
-- The invariant of a process profile, and that `Analyze` (loader/engine.go) keeps it.
mod Track
use beacon_guard.Prelude.{
  AllEntries, insert-AllEntries, lookup-AllEntries, ℕ, ◌+◌, ◌*◌, ◌%◌, ◌^◌, ◌≤◌, ◌≡◌, refl, ◌≢◌, inl,
  inr, false, List, [], ◌∷◌, ◌++◌, Option, none, some, arith, add64, length, length-append, lookup,
  ◌==◌, if◌then◌else◌, Bool-cases, if_cases,
}
use beacon_guard.Config.{Config}
use beacon_guard.Event.{Event}
use beacon_guard.Float.{Float64}
use beacon_guard.Engine.Types.{
  baseline, anomalous, is_executable_mmap, Anomaly, Profile, Baseline, Rule,
}
use beacon_guard.Engine.Rules.{mmap_alerted}
use beacon_guard.Engine.Guards.{rule_order, Shape}
use beacon_guard.Engine.Guards.Tests.{Guard-once}
use beacon_guard.Engine.Matches.{Picked, rules-Picked}
use beacon_guard.Engine.{
  Engine, Readings, new_profile, or_new, track_exec, track_open, track_connect, track, observe,
  complete, judge, store, learn, enforce, analyze, new_engine, store,
}
pub use Track.{IsSound, track_cases}
use Track.{total_score, mmap_count, AllOwn, new_profile-IsSound, track-IsSound}

module _ {F : Type 0} where
  observe-IsSound :
      (t : Readings) (evt : Event) (e : Engine F)
      → AllEntries IsSound e.profiles
      → IsSound evt.pid (observe t evt e)
  unfolding observe
  observe-IsSound t evt e all =
      track-IsSound evt t.connected evt.pid _ (seen (lookup evt.pid e.profiles) refl)
    where
      seen :
          (o : Option (Profile F))
          → lookup evt.pid e.profiles ≡ o
          → IsSound evt.pid (record (or_new evt t.created o) { last_seen = t.seen })
      seen none h = record {
        owner = refl;
        known_state = λ e. cc;
        conn_counted = refl;
        charged = (0, omega arith, refl);
        mmap_once = omega arith;
        own = tt;
      }
      seen (some p) h =
          let s = lookup-AllEntries IsSound evt.pid p e.profiles all h in
          record {
            owner = s.owner;
            known_state = s.known_state;
            conn_counted = s.conn_counted;
            charged = s.charged;
            mmap_once = s.mmap_once;
            own = s.own;
          }

  total_score-snoc :
      (xs : List (Anomaly F)) (a : Anomaly F)
      → total_score (xs ++ a ∷ []) ≡ total_score xs + a.score
  total_score-snoc [] a = omega arith
  total_score-snoc (x ∷ xs) a = omega (arith, total_score-snoc xs a)

  mmap_count-snoc :
      (xs : List (Anomaly F)) (a : Anomaly F)
      → mmap_count (xs ++ a ∷ []) ≡ mmap_count xs + (if is_executable_mmap a.rule then 1 else 0)
  mmap_count-snoc [] a = omega arith
  mmap_count-snoc (x ∷ xs) a = omega (arith, mmap_count-snoc xs a)

  AllOwn-snoc :
      (k : ℕ) (xs : List (Anomaly F)) (a : Anomaly F)
      → AllOwn k xs
      → a.pid ≡ k
      → a.score ≤ 100
      → AllOwn k (xs ++ a ∷ [])
  AllOwn-snoc k [] a own h s = ((h, s), tt)
  AllOwn-snoc k (x ∷ xs) a own h s = (own.0, AllOwn-snoc k xs a own.1 h s)

  mmap_count-none : (xs : List (Anomaly F)) → mmap_alerted xs ≡ false → mmap_count xs ≡ 0
  unfolding mmap_alerted
  mmap_count-none [] h = refl
  mmap_count-none (x ∷ xs) h = ground (arith, mmap_count-none xs)

  baseline-IsSound :
      (k : ℕ) (p : Profile F) → IsSound k p → IsSound k (record p { state = baseline })
  baseline-IsSound k p s = record {
    owner = s.owner;
    known_state = λ e. cc;
    conn_counted = s.conn_counted;
    charged = s.charged;
    mmap_once = s.mmap_once;
    own = s.own;
  }

  -- Every profile of the engine satisfies the invariant of its pid.
  abbrev pub AllSound : Engine F → Type 0
  AllSound e = AllEntries IsSound e.profiles

module _ {F : Type 0} (fl : Float64 F) where
  mmap_once-complete :
      (config : Config) (checked now : ℕ) (evt : Event) (p : Profile F) (r : Rule F) (a : Anomaly F)
      → Shape fl config checked evt p r a
      → mmap_count p.anomalies ≤ 1
      → mmap_count (p.anomalies ++ complete now evt r a ∷ []) ≤ 1
  mmap_once-complete config checked now evt p r a sh once =
      rw (mmap_count-snoc p.anomalies (complete now evt r a), sh.named)
        (ground (
          arith,
          Guard-once fl config checked evt p r.name sh.guarded,
          mmap_count-none p.anomalies,
        ))

  judge-IsSound :
      (config : Config) (checked now k : ℕ) (evt : Event) (p : Profile F)
      (m : Option (Rule F × Anomaly F))
      → evt.pid ≡ k
      → IsSound k p
      → Picked fl config checked evt p rule_order m
      → IsSound k (judge config now evt p m).1
  unfolding judge add64
  judge-IsSound config checked now k evt p none own s picked = s
  judge-IsSound config checked now k evt p (some (r, a)) own s picked =
      let sh = picked.0 in
      record {
        owner = s.owner;
        known_state = s.known_state;
        conn_counted = s.conn_counted;
        charged = (
          s.charged.0,
          s.charged.1,
          omega (arith, s.charged.2, total_score-snoc p.anomalies (complete now evt r a)),
        );
        mmap_once = mmap_once-complete config checked now evt p r a sh s.mmap_once;
        own = AllOwn-snoc k p.anomalies (complete now evt r a) s.own own sh.capped;
      }

  learn-IsSound :
      (config : Config) (now k : ℕ) (p : Profile F)
      → IsSound k p
      → IsSound k (learn fl config now p)
  unfolding learn
  learn-IsSound config now k p s = if_cases (IsSound k) _ _ _ (λ _. baseline-IsSound k p s) (λ _. s)

  enforce-IsSound :
      (config : Config) (t : Readings) (k : ℕ) (evt : Event) (bl : Baseline F) (p : Profile F)
      → evt.pid ≡ k
      → IsSound k p
      → IsSound k (enforce fl config t evt bl p).1
  unfolding enforce
  enforce-IsSound config t k evt bl p own s =
      judge-IsSound config t.checked t.stamped k evt (record p { state = baseline }) _ own
        (baseline-IsSound k p s)
        (rules-Picked fl config t.checked evt (record p { state = baseline }) bl)

  pub new_engine-AllSound : (now : ℕ) → AllSound (new_engine fl now)
  unfolding new_engine
  new_engine-AllSound now = tt

  -- `Analyze` keeps the invariant of every profile: for any configuration, any readings of the clock
  -- and any event, in learning and in enforcement mode.
  pub analyze-AllSound :
      (config : Config) (t : Readings) (evt : Event) (e : Engine F)
      → AllSound e
      → AllSound (analyze fl config t evt e).1
  unfolding analyze store
  analyze-AllSound config t evt e all =
      let here = observe-IsSound t evt e all in
      if_cases (λ (r : Option (Anomaly F) × Engine F). AllSound r.1) config.learning_mode _ _
        (λ _.
          insert-AllEntries IsSound evt.pid _ e.profiles
            (learn-IsSound config t.since evt.pid _ here) all)
        (λ _.
          insert-AllEntries IsSound evt.pid _ e.profiles
            (enforce-IsSound config t evt.pid evt e.global _ refl here) all)
