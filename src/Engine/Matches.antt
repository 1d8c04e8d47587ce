-- ===== src/Engine/Matches.antt =====
-- What the loop over the built-in rules of loader/engine.go finds: the first rule, in order, that applies.
use mathlib.Core.Path.{subst}
use beacon_guard.Prelude.{ℕ, ◌≡◌, refl, inl, inr, List, [], ◌∷◌, Option, none, some}
use beacon_guard.Config.{Config}
use beacon_guard.Event.{Event}
use beacon_guard.Float.{Float64}
use beacon_guard.Engine.Types.{RuleName, Anomaly, Profile, Baseline, Rule}
use beacon_guard.Engine.Rules.{rules}
use beacon_guard.Engine.Guards.{rule_order, NoneFits, FirstFit, Shape, Settled}
use beacon_guard.Engine.Settled.{
  match_unexpected_binary-Settled, match_process_running_as_root-Settled,
  match_beaconing_detected-Settled, match_reverse_shell_port-Settled, match_dns_tunneling-Settled,
  match_rapid_succession-Settled, match_mass_file_deletion-Settled,
  match_sensitive_file_write-Settled, match_executable_mmap-Settled,
  match_ptrace_attachment-Settled,
}
use beacon_guard.Engine.{or_else, first_match}

module _ {F : Type 0} (fl : Float64 F) (config : Config) (now : ℕ) (evt : Event)
    (p : Profile F) where
  -- What the loop finds among rules of these names: nothing where none applies, and else the first
  -- that applies, with its anomaly.
  abbrev pub Picked : List RuleName → Option (Rule F × Anomaly F) → Type 0
  Picked names none = NoneFits fl config now evt p names
  Picked names (some (r, a)) =
      Shape fl config now evt p r a × FirstFit fl config now evt p names r.name

  or_else-Picked :
      (x : Rule F) (o : Option (Anomaly F)) (rest : Option (Rule F × Anomaly F))
      (names : List RuleName)
      → Settled fl config now evt p x o
      → Picked names rest
      → Picked (x.name ∷ names) (or_else x o rest)
  or_else-Picked x none none names h later = (h, later)
  or_else-Picked x none (some (r, a)) names h later = (later.0, inr (h, later.1))
  or_else-Picked x (some a) rest names h later = (h, inl (refl, (h.kinded, h.guarded)))

  module _ (bl : Baseline F) where
    abbrev AllSettled : List (Rule F) → Type 0
    AllSettled [] = Unit {0}
    AllSettled (r ∷ rs) = Settled fl config now evt p r (r.matches evt p bl) × AllSettled rs

    abbrev names_of : List (Rule F) → List RuleName
    names_of [] = []
    names_of (r ∷ rs) = r.name ∷ names_of rs

    first_match-Picked :
        (rs : List (Rule F)) → AllSettled rs → Picked (names_of rs) (first_match rs evt p bl)
    unfolding first_match
    first_match-Picked [] h = tt
    first_match-Picked (r ∷ rs) h =
        or_else-Picked r (r.matches evt p bl) (first_match rs evt p bl) (names_of rs) h.0
          (first_match-Picked rs h.1)

    rules-AllSettled : AllSettled (rules fl config now)
    unfolding rules
    rules-AllSettled = (
      match_unexpected_binary-Settled fl config now evt p bl,
      (
        match_process_running_as_root-Settled fl config now evt p bl,
        (
          match_beaconing_detected-Settled fl config now evt p bl,
          (
            match_reverse_shell_port-Settled fl config now evt p bl,
            (
              match_dns_tunneling-Settled fl config now evt p bl,
              (
                match_rapid_succession-Settled fl config now evt p bl,
                (
                  match_mass_file_deletion-Settled fl config now evt p bl,
                  (
                    match_sensitive_file_write-Settled fl config now evt p bl,
                    (
                      match_executable_mmap-Settled fl config now evt p bl,
                      (match_ptrace_attachment-Settled fl config now evt p bl, tt),
                    ),
                  ),
                ),
              ),
            ),
          ),
        ),
      ),
    )

    -- The loop over the ten rules finds nothing exactly where no rule applies, and else the first rule
    -- that applies.
    pub rules-Picked : Picked rule_order (first_match (rules fl config now) evt p bl)
    unfolding rules
    rules-Picked = first_match-Picked (rules fl config now) rules-AllSettled

    -- Every anomaly that the built-in rules produce repeats its rule's name, severity, score and
    -- action; the score is at most 100, the event has the type that the rule looks at, the event and the
    -- profile pass the rule's guard in full, the tests on times and rates included, and no rule before it in the
    -- order applies.
    pub rules-Shape :
        (r : Rule F) (a : Anomaly F)
        → first_match (rules fl config now) evt p bl ≡ some (r, a)
        → Shape fl config now evt p r a × FirstFit fl config now evt p rule_order r.name
    rules-Shape r a e = subst (Picked rule_order) e rules-Picked
