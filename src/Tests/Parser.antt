-- ===== src/Tests/Parser.antt =====
-- The parser of samples at concrete bytes.
use beacon_guard.Prelude.{◌≡◌, refl, none, some, arith, replicate}
use beacon_guard.Event.{
  ok, panic, slice, u32_at, u16_at, str_at, byte_at, le16, le32, c_str_to_string, dotted,
  parse_data, parse_event,
}
use beacon_guard.Event.Parse.{parse_spec, parse_event-parse_spec}
use beacon_guard.Event.Shape.{IsParsed, parse_event-IsParsed}
use beacon_guard.Tests.Samples.{connect_sample, connect_event}

pub parses_connect : parse_event connect_sample ≡ ok (some connect_event)
unfolding parse_event u32_at u16_at str_at byte_at slice le16 le32 c_str_to_string dotted parse_data
parses_connect = refl

short_is_nil : parse_event (replicate 31 0) ≡ ok none
unfolding parse_event
short_is_nil = refl

truncated_panics : parse_event (replicate 39 0) ≡ panic
unfolding parse_event u32_at u16_at str_at byte_at slice le16 le32 c_str_to_string dotted parse_data
truncated_panics = refl

parse_event-parse_spec_example : parse_event connect_sample ≡ parse_spec connect_sample
parse_event-parse_spec_example = parse_event-parse_spec connect_sample

parse_event-IsParsed_example : IsParsed connect_sample connect_event
parse_event-IsParsed_example =
    parse_event-IsParsed connect_sample connect_event (omega arith) parses_connect
