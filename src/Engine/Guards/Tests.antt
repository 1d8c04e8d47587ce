-- ===== src/Engine/Guards/Tests.antt =====
-- The tests of the rules of loader/engine.go against their description.
use beacon_guard.Prelude.{
  ℕ, suc, ◌≤◌, ◌≡◌, refl, sym, ap, ◌∙◌, ◌≢◌, inl, inr, true, false, not, List, [], ◌∷◌, none, some,
  Bytes, arith, ◌==◌, bytes_eq, bytes_eq_sound, true-false, bytes_eq_refl, Bool-cases, if_true,
  if_false, length,
}
use beacon_guard.Config.{Config}
use beacon_guard.Event.{Event}
use beacon_guard.Float.{Float64, elapsed}
use beacon_guard.Engine.Types.{
  RuleName, executable_mmap, is_executable_mmap, State, baseline, is_baseline, ConnectionRecord,
  Anomaly, Profile,
}
use beacon_guard.Engine.Rules.{listed, intervals, intervals_from, mmap_alerted, recent_from}
use beacon_guard.Engine.Guards.{Listed, NoMmap, gaps, streak, Guard}

pub wrong_kind : (k n : ℕ) → not (k == n) ≡ true → k ≢ n
wrong_kind k n h = ground arith

pub right_kind : (k n : ℕ) → not (k == n) ≡ false → k ≡ n
right_kind k n h = ground arith

pub listed-Listed :
    (name : Bytes) (names : List Bytes) → listed name names ≡ true → Listed name names
unfolding listed
listed-Listed name [] h = cc
listed-Listed name (a ∷ names) h = elim (Bool-cases (bytes_eq name a)) [
  | inl e ↦ inl (bytes_eq_sound name a e)
  | inr e ↦ inr (listed-Listed name names (sym (if_false _ _ _ e) ∙ h))
]

pub Listed-listed :
    (name : Bytes) (names : List Bytes) → Listed name names → listed name names ≡ true
unfolding listed
Listed-listed name [] h = absurd h
Listed-listed name (a ∷ names) (inl e) =
    if_true _ _ _ (ap (bytes_eq name) (sym e) ∙ bytes_eq_refl name)
Listed-listed name (a ∷ names) (inr h) = elim (Bool-cases (bytes_eq name a)) [
  | inl e ↦ if_true _ _ _ e
  | inr e ↦ if_false _ _ _ e ∙ Listed-listed name names h
]

pub not-listed :
    (name : Bytes) (names : List Bytes) → ¬ Listed name names → not (listed name names) ≡ true
not-listed name names h = elim (Bool-cases (listed name names)) [
  | inl e ↦ absurd (h (listed-Listed name names e))
  | inr e ↦ ap not e
]

pub some-none : {A : Type 0} (a : A) → some a ≡ none → ⊥
some-none a h = cc

pub is_baseline_sound : (s : State) → is_baseline s ≡ true → s ≡ baseline
is_baseline_sound s h = ground arith

is_executable_mmap_sound : (n : RuleName) → is_executable_mmap n ≡ true → n ≡ executable_mmap
is_executable_mmap_sound n h = ground arith

module _ {F : Type 0} where
  pub NoMmap-mmap_alerted : (xs : List (Anomaly F)) → NoMmap xs → mmap_alerted xs ≡ false
  unfolding mmap_alerted
  NoMmap-mmap_alerted [] h = refl
  NoMmap-mmap_alerted (a ∷ xs) h = elim (Bool-cases (is_executable_mmap a.rule)) [
    | inl e ↦ absurd (h.0 (is_executable_mmap_sound a.rule e))
    | inr e ↦ if_false _ _ _ e ∙ NoMmap-mmap_alerted xs h.1
  ]

  pub mmap_alerted-NoMmap : (xs : List (Anomaly F)) → mmap_alerted xs ≡ false → NoMmap xs
  unfolding mmap_alerted
  mmap_alerted-NoMmap [] h = tt
  mmap_alerted-NoMmap (a ∷ xs) h = elim (Bool-cases (is_executable_mmap a.rule)) [
    | inl e ↦ absurd (true-false (sym (if_true _ _ _ e) ∙ h))
    | inr e ↦ (
      λ q. true-false (ap is_executable_mmap (sym q) ∙ e),
      mmap_alerted-NoMmap xs (sym (if_false _ _ _ e) ∙ h),
    )
  ]

module _ {F : Type 0} (fl : Float64 F) where
  pub intervals-gaps : (cs : List ConnectionRecord) → intervals fl cs ≡ gaps fl cs
  unfolding intervals intervals_from
  intervals-gaps [] = refl
  intervals-gaps (c ∷ []) = refl
  intervals-gaps (c ∷ d ∷ cs) =
      ap (λ r. elapsed fl c.timestamp d.timestamp ∷ r) (intervals-gaps (d ∷ cs))

  length-gaps :
      (c : ConnectionRecord) (cs : List ConnectionRecord) → length (gaps fl (c ∷ cs)) ≡ length cs
  length-gaps c [] = refl
  length-gaps c (d ∷ cs) = ap suc (length-gaps d cs)

  pub length-gaps_four : (cs : List ConnectionRecord) → 5 ≤ length cs → 4 ≤ length (gaps fl cs)
  length-gaps_four [] h = absurd (omega arith)
  length-gaps_four (c ∷ cs) h = omega (arith, length-gaps c cs)

  pub recent_from-streak :
      (now : ℕ) (cs : List ConnectionRecord) → recent_from fl now cs ≡ streak fl now cs
  unfolding recent_from
  recent_from-streak now [] = refl
  recent_from-streak now (c ∷ cs) = rw (recent_from-streak now cs) refl

-- The description of the mmap rule in the words of the code.
module _ {F : Type 0} (fl : Float64 F) (config : Config) (now : ℕ) (evt : Event)
    (p : Profile F) where
  pub Guard-once :
      (n : RuleName)
      → Guard fl config now evt p n
      → is_executable_mmap n ≡ true
      → mmap_alerted p.anomalies ≡ false
  Guard-once executable_mmap g h = NoMmap-mmap_alerted p.anomalies g.1
  Guard-once _ g h = cc
