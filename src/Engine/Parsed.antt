-- ===== src/Engine/Parsed.antt =====
-- Three rules of the engine (loader/engine.go) can never match an event of the parser
-- (loader/event_processor.go): two look up a key "ret" that no payload has, and one waits for a
-- return value of -2, which an unsigned 32-bit word does not give.
use beacon_guard.Prelude.{
  ℕ, ◌≡◌, refl, ap, Bool, true, false, Option, some, arith, Bytes, neg64, or_zero,
}
use beacon_guard.Config.{Config}
use beacon_guard.Event.{Event, ok, parse_event}
use beacon_guard.Event.Shape.{AllBytes, IsParsed, parse_event-IsParsed}
use beacon_guard.Float.{Float64}
use beacon_guard.Engine.Types.{
  RuleName, dns_tunneling, mass_file_deletion, sensitive_file_write, Anomaly, Profile,
}
use beacon_guard.Engine.Guards.{Guard}
use beacon_guard.Engine.Verdict.{Verdict, pass, raise, analyze-Verdict}
use beacon_guard.Engine.{Engine, Readings, analyze}

-- The rules for DNS tunnelling, mass deletion and sensitive files.
abbrev pub is_dead : RuleName → Bool
is_dead dns_tunneling = true
is_dead mass_file_deletion = true
is_dead sensitive_file_write = true
is_dead _ = false

module _ {F : Type 0} (fl : Float64 F) (config : Config) (raw : Bytes) (evt : Event) where
  Guard-live :
      (now : ℕ) (p : Profile F)
      → IsParsed raw evt
      → (n : RuleName) → Guard fl config now evt p n
      → is_dead n ≡ false
  unfolding neg64
  Guard-live now p h dns_tunneling g = absurd (omega (arith, h.no_ret, g.1))
  Guard-live now p h mass_file_deletion g = absurd (omega (arith, h.ret_word, g.0))
  Guard-live now p h sensitive_file_write g = absurd (omega (arith, h.no_ret, g))
  Guard-live now p h _ g = refl

  Verdict-live :
      {t : Readings} {before after : Profile F} {o : Option (Anomaly F)}
      → IsParsed raw evt
      → Verdict fl config evt t before o after
      → (a : Anomaly F) → o ≡ some a
      → is_dead a.rule ≡ false
  Verdict-live h (pass none_fits) a e = cc
  Verdict-live {t} {before} h (raise kept own fits after answer) a e =
      rw (← ap (or_zero a) e, answer) (Guard-live t.checked before h kept.rule fits.2)

module _ {F : Type 0} (fl : Float64 F) where
  -- In enforcement mode, no anomaly that `Analyze` answers for an event of the parser is of the
  -- rules for DNS tunnelling, mass file deletion or sensitive file writes, whatever the state of the
  -- engine and the configuration.
  pub parsed_rules_dead :
      (config : Config) (t : Readings) (raw : Bytes) (evt : Event) (e : Engine F) (a : Anomaly F)
      → AllBytes raw
      → parse_event raw ≡ ok (some evt)
      → config.learning_mode ≡ false
      → (analyze fl config t evt e).0 ≡ some a
      → is_dead a.rule ≡ false
  parsed_rules_dead config t raw evt e a bytes parsed l answer =
      Verdict-live fl config raw evt (parse_event-IsParsed raw evt bytes parsed)
        (analyze-Verdict fl config t evt e l).2 a answer
