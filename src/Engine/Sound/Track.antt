-- ===== src/Engine/Sound/Track.antt =====
-- The invariant of a process profile, and that the tracking in `Analyze` (loader/engine.go) keeps it.
use beacon_guard.Prelude.{
  ℕ, ◌+◌, ◌*◌, ◌%◌, ◌^◌, ◌≤◌, ◌≡◌, refl, ◌≢◌, inl, inr, List, [], ◌∷◌, arith, add64, length,
  length-append, ◌==◌, if◌then◌else◌, Bool-cases, if_cases,
}
use beacon_guard.Event.{Event}
use beacon_guard.Engine.Types.{anomalous, is_executable_mmap, Anomaly, Profile}
use beacon_guard.Engine.{new_profile, track_exec, track_open, track_connect, track}

module _ {F : Type 0} where
  -- The sum of the scores of the anomalies.
  abbrev pub total_score : List (Anomaly F) → ℕ
  total_score [] = 0
  total_score (a ∷ more) = a.score + total_score more

  -- How many anomalies are of the executable-mapping rule.
  abbrev pub mmap_count : List (Anomaly F) → ℕ
  mmap_count [] = 0
  mmap_count (a ∷ more) = (if is_executable_mmap a.rule then 1 else 0) + mmap_count more

  -- Each anomaly belongs to the process, and scores 100 at most.
  abbrev pub AllOwn : ℕ → List (Anomaly F) → Type 0
  AllOwn k [] = Unit {0}
  AllOwn k (a ∷ more) = ((a.pid ≡ k) × (a.score ≤ 100)) × AllOwn k more

  -- What holds of the profile that is stored under a pid. `charged` says that the suspicion score is
  -- the sum of the anomalies' scores plus 20 for each flagged connection, as a 64-bit integer.
  pub record IsSound (k : ℕ) (p : Profile F) : Type 0 where
    pub owner : p.pid ≡ k
    pub known_state : p.state ≢ anomalous
    pub conn_counted : p.network_conn_count ≡ length p.connections % 2 ^ 64
    pub charged :
        (flagged : ℕ) × (flagged ≤ length p.connections)
        × (p.suspicion_score ≡ (total_score p.anomalies + 20 * flagged) % 2 ^ 64)
    pub mmap_once : mmap_count p.anomalies ≤ 1
    pub own : AllOwn k p.anomalies

  pub new_profile-IsSound : (evt : Event) (now : ℕ) → IsSound evt.pid (new_profile evt now)
  new_profile-IsSound evt now = record {
    owner = refl;
    known_state = λ e. cc;
    conn_counted = refl;
    charged = (0, omega arith, refl);
    mmap_once = omega arith;
    own = tt;
  }

  -- To prove something of the profile after the `switch`, prove it of each case.
  pub track_cases {ℓ} :
      (P : Profile F → Type ℓ) (evt : Event) (now : ℕ) (p : Profile F)
      → P (track_exec evt p)
      → P (track_open evt p)
      → P (track_connect evt now p)
      → P p
      → P (track evt now p)
  unfolding track
  track_cases P evt now p e o c other =
      if_cases P (evt.kind == 1) _ _ (λ _. e)
        (λ _.
          if_cases P (evt.kind == 2) _ _ (λ _. o)
            (λ _. if_cases P (evt.kind == 3) _ _ (λ _. c) (λ _. other)))

  track_connect-charged :
      (evt : Event) (now k : ℕ) (p : Profile F)
      → IsSound k p
      → (flagged : ℕ) × (flagged ≤ length (track_connect evt now p).connections)
        × ((track_connect evt now p).suspicion_score
            ≡ (total_score p.anomalies + 20 * flagged) % 2 ^ 64)
  unfolding track_connect add64
  track_connect-charged evt now k p s = elim (Bool-cases (evt.ret == 1)) [
    | inl e ↦ rw e (
      s.charged.0 + 1,
      omega (arith, s.charged.1, length-append p.connections),
      omega (arith, s.charged.2),
    )
    | inr e ↦
        rw e (s.charged.0, omega (arith, s.charged.1, length-append p.connections), s.charged.2)
  ]

  track_connect-IsSound :
      (evt : Event) (now k : ℕ) (p : Profile F) → IsSound k p → IsSound k (track_connect evt now p)
  unfolding track_connect add64
  track_connect-IsSound evt now k p s = record {
    owner = s.owner;
    known_state = s.known_state;
    conn_counted = omega (arith, s.conn_counted, length-append p.connections);
    charged = track_connect-charged evt now k p s;
    mmap_once = s.mmap_once;
    own = s.own;
  }

  pub track-IsSound :
      (evt : Event) (now k : ℕ) (p : Profile F) → IsSound k p → IsSound k (track evt now p)
  unfolding track_exec track_open
  track-IsSound evt now k p s =
      track_cases (IsSound k) evt now p
        (record {
          owner = s.owner;
          known_state = s.known_state;
          conn_counted = s.conn_counted;
          charged = s.charged;
          mmap_once = s.mmap_once;
          own = s.own;
        })
        (record {
          owner = s.owner;
          known_state = s.known_state;
          conn_counted = s.conn_counted;
          charged = s.charged;
          mmap_once = s.mmap_once;
          own = s.own;
        })
        (track_connect-IsSound evt now k p s) s
