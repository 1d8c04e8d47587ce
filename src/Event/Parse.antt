-- ===== src/Event/Parse.antt =====
-- `parseEvent` (loader/event_processor.go) against a closed description of the samples it accepts,
-- the ones on which it panics, and the event that it reads.
mod Members
use beacon_guard.Prelude.{
  ℕ, ◌+◌, ◌≤◌, ◌<◌, ◌≡◌, refl, ◌∙◌, [], ◌∷◌, Option, none, some, arith, length, take, drop, Bytes,
  ltb, ◌==◌, if◌then◌else◌, false, ltb→lt, ltb-false_le, ltb-false, Bool-cases, inl, inr,
}
use native.Mathlib.Decide.{dec_lt}
use native.Mathlib.Nat.{le_trans}
use beacon_guard.Event.{
  Outcome, ok, panic, ◌>>=◌, str, num, Data, Event, c_str_to_string, dotted, parse_exec, parse_open,
  parse_connect, parse_data, parse_fields, parse_event,
}
use beacon_guard.Event.Fields.{
  field, le_value, u32_at-ok, u16_at-ok, str_at-ok, byte_at-ok, u32_at-panic, str_at-panic,
}
pub use Members.{required, word_in, data_of, event_of}
use Members.{bind-panic, parse_data-ok, parse_data-panic}

parse_fields-ok :
    (raw : Bytes)
    → 40 ≤ length raw
    → required (word_in raw 20) ≤ length raw
    → parse_fields raw ≡ ok (some (event_of raw))
unfolding parse_fields
parse_fields-ok raw h k = rw (
  u32_at-ok raw 0 (omega arith),
  u32_at-ok raw 4 (omega arith),
  u32_at-ok raw 8 (omega arith),
  u32_at-ok raw 12 (omega arith),
  u32_at-ok raw 16 (omega arith),
  u32_at-ok raw 20 (omega arith),
  str_at-ok raw 24 40 (omega arith) h,
  parse_data-ok (word_in raw 20) (word_in raw 16) raw k,
)

parse_fields-panic_short : (raw : Bytes) → length raw < 40 → parse_fields raw ≡ panic
unfolding parse_fields
parse_fields-panic_short raw h = simp (str_at-panic raw 24 40 h, bind-panic)

parse_fields-panic :
    (raw : Bytes)
    → 40 ≤ length raw
    → length raw < required (word_in raw 20)
    → parse_fields raw ≡ panic
unfolding parse_fields
parse_fields-panic raw h k = rw (
  u32_at-ok raw 0 (omega arith),
  u32_at-ok raw 4 (omega arith),
  u32_at-ok raw 8 (omega arith),
  u32_at-ok raw 12 (omega arith),
  u32_at-ok raw 16 (omega arith),
  u32_at-ok raw 20 (omega arith),
  str_at-ok raw 24 40 (omega arith) h,
  parse_data-panic (word_in raw 20) (word_in raw 16) raw h k,
)

parse_fields-short :
    (raw : Bytes) → length raw < required (word_in raw 20) → parse_fields raw ≡ panic
parse_fields-short raw h = elim (dec_lt (length raw) 40) [
  | yes short ↦ parse_fields-panic_short raw short
  | no long ↦ parse_fields-panic raw (omega arith) h
]

-- What `parseEvent` does with a sample, by its length and its type word.
unfoldable pub parse_spec : Bytes → Outcome (Option Event)
parse_spec raw =
    if ltb (length raw) 32
    then ok none
    else if ltb (length raw) (required (word_in raw 20))
    then panic
    else ok (some (event_of raw))

pub required-min : (kind : ℕ) → 40 ≤ required kind
required-min kind = ground arith

-- For every sample: one of less than 32 bytes gives the nil event; one that is longer but has fewer
-- bytes than its type needs (40, 54, 300 or 360) panics; any other gives exactly the event whose
-- fields stand at the fixed offsets.
pub parse_event-parse_spec : (raw : Bytes) → parse_event raw ≡ parse_spec raw
unfolding parse_event parse_spec
parse_event-parse_spec raw = elim (Bool-cases (ltb (length raw) 32)) [
  | inl e ↦ rw e
  | inr e ↦ rw e (elim (Bool-cases (ltb (length raw) (required (word_in raw 20)))) [
    | inl f ↦ rw f (parse_fields-short raw (ltb→lt _ _ f))
    | inr f ↦
        let k : required (word_in raw 20) ≤ length raw = ltb-false_le _ _ f in
        rw f (parse_fields-ok raw (le_trans (required-min (word_in raw 20)) k) k)
  ])
]

-- A sample with the bytes that its type needs is read whole.
pub parse_event-long :
    (raw : Bytes)
    → required (word_in raw 20) ≤ length raw
    → parse_event raw ≡ ok (some (event_of raw))
unfolding parse_spec
parse_event-long raw h =
    let long : 40 ≤ length raw = le_trans (required-min (word_in raw 20)) h in
    let first : ltb (length raw) 32 ≡ false = ltb-false _ _ (omega arith) in
    let second : ltb (length raw) (required (word_in raw 20)) ≡ false = ltb-false _ _ h in
    parse_event-parse_spec raw ∙ rw (first, second)

-- 360 bytes are enough for every type.
pub required-max : (kind : ℕ) → required kind ≤ 360
required-max kind = ground arith
