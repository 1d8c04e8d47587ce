-- ===== src/Event/Shape.antt =====
-- What every event that `parseEvent` (loader/event_processor.go) returns has in common.
use mathlib.Core.Path.{subst}
use beacon_guard.Prelude.{
  ℕ, zero, suc, ◌+◌, ◌^◌, ◌≤◌, ◌<◌, ◌≡◌, refl, sym, [], ◌∷◌, Option, some, arith, length, take,
  drop, Bytes, ltb, ◌==◌, if_cases, ltb-false_le, ◌∙◌,
}
use beacon_guard.Event.{Outcome, ok, Data, Event, num_at, parse_event}
use beacon_guard.Event.Fields.{field, le_value}
use beacon_guard.Event.Parse.{
  required, word_in, data_of, event_of, parse_spec, parse_event-parse_spec,
}

-- Every element is a byte.
abbrev pub AllBytes : Bytes → Type 0
AllBytes [] = Unit {0}
AllBytes (b ∷ bs) = (b < 256) × AllBytes bs

take-AllBytes : (n : ℕ) (bs : Bytes) → AllBytes bs → AllBytes (take n bs)
take-AllBytes zero bs h = tt
take-AllBytes (suc n) [] h = tt
take-AllBytes (suc n) (b ∷ bs) h = (h.0, take-AllBytes n bs h.1)

drop-AllBytes : (n : ℕ) (bs : Bytes) → AllBytes bs → AllBytes (drop n bs)
drop-AllBytes zero bs h = h
drop-AllBytes (suc n) [] h = tt
drop-AllBytes (suc n) (b ∷ bs) h = drop-AllBytes n bs h.1

le_value-lt : (bs : Bytes) → AllBytes bs → le_value 4 bs < 2 ^ 32
unfolding le_value
le_value-lt [] h = omega arith
le_value-lt (a ∷ []) h = omega arith
le_value-lt (a ∷ b ∷ []) h = omega arith
le_value-lt (a ∷ b ∷ c ∷ []) h = omega arith
le_value-lt (a ∷ b ∷ c ∷ d ∷ r) h = omega arith

pub word_in-lt : (raw : Bytes) (i : ℕ) → AllBytes raw → word_in raw i < 2 ^ 32
word_in-lt raw i h =
    le_value-lt (field raw i (i + 4)) (take-AllBytes _ (drop i raw) (drop-AllBytes i raw h))

-- No payload has the key "ret".
num_at-ret : (kind ret : ℕ) (raw : Bytes) → num_at "ret" (data_of kind ret raw) ≡ 0
unfolding num_at
num_at-ret kind ret raw =
    if_cases Absent (kind == 1) _ _ (λ _. refl)
      (λ _.
        if_cases Absent (kind == 2) _ _ (λ _. refl)
          (λ _.
            if_cases Absent (kind == 3) _ _ (λ _. refl)
              (λ _. if_cases Absent (kind == 8) _ _ (λ _. refl) (λ _. refl))))
  where
    Absent : Data → Type 0
    Absent d = num_at "ret" d ≡ 0

-- An event that was read from a sample: its words fit 32 bits, its payload has no "ret", and it is
-- the event at the fixed offsets.
pub record IsParsed (raw : Bytes) (evt : Event) : Type 0 where
  pub whole : evt ≡ event_of raw
  pub long : required (word_in raw 20) ≤ length raw
  pub pid_word : evt.pid < 2 ^ 32
  pub uid_word : evt.uid < 2 ^ 32
  pub ret_word : evt.ret < 2 ^ 32
  pub no_ret : num_at "ret" evt.payload ≡ 0

event_of-IsParsed :
    (raw : Bytes)
    → AllBytes raw
    → required (word_in raw 20) ≤ length raw
    → IsParsed raw (event_of raw)
event_of-IsParsed raw h long = record {
  whole = refl;
  long = long;
  pid_word = word_in-lt raw 0 h;
  uid_word = word_in-lt raw 8 h;
  ret_word = word_in-lt raw 16 h;
  no_ret = num_at-ret (word_in raw 20) (word_in raw 16) raw;
}

answered : {e f : Event} → ok (some e) ≡ ok (some f) → e ≡ f
answered h = cc

parse_spec-IsParsed :
    (raw : Bytes) (evt : Event) → AllBytes raw → parse_spec raw ≡ ok (some evt) → IsParsed raw evt
unfolding parse_spec
parse_spec-IsParsed raw evt h =
    if_cases Goal (ltb (length raw) 32) _ _ (λ _ e. cc)
      (λ _.
        if_cases Goal (ltb (length raw) (required (word_in raw 20))) _ _ (λ _ e. cc)
          (λ f e.
            subst (IsParsed raw) (answered e)
              (event_of-IsParsed raw h (ltb-false_le (length raw) (required (word_in raw 20)) f))))
  where
    Goal : Outcome (Option Event) → Type 0
    Goal o = o ≡ ok (some evt) → IsParsed raw evt

-- Every event that the parser returns for a sample of bytes is the event at the fixed offsets of a
-- long enough sample; its pid, uid and return word are below 2 ^ 32, and its payload has no "ret".
pub parse_event-IsParsed :
    (raw : Bytes) (evt : Event) → AllBytes raw → parse_event raw ≡ ok (some evt) → IsParsed raw evt
parse_event-IsParsed raw evt h e =
    parse_spec-IsParsed raw evt h (sym (parse_event-parse_spec raw) ∙ e)
