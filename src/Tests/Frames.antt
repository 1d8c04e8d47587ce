-- ===== src/Tests/Frames.antt =====
-- The event stream of two alerts, read back.
use beacon_guard.Prelude.{ℕ, ◌≡◌, refl, [], ◌∷◌, map, Option, some, Bytes, concat, codes, digits}
use beacon_guard.Engine.Types.{critical, kill, unexpected_binary, float, str}
use beacon_guard.Processor.{Alert}
use beacon_guard.Server.Json.{
  int_text, escape, escape_ascii, wide_char, starts_three, starts_four, quote, detail_json,
  details_json, add_member, sorted_insert, alert_json,
}
use beacon_guard.Server.OneLine.{OneLine, int_text-OneLine}
use beacon_guard.Server.Message.{json_text, message_of}
use beacon_guard.Server.Frames.{read_all, new_reader}
use beacon_guard.Server.Framing.{written_text, stream_read, Plain}
use beacon_guard.Tests.Streams.{traced_alert}

abbrev pub float_text : ℕ → Option Bytes
float_text x = some (int_text x)

abbrev pub time_text : ℕ → Bytes
time_text n = digits 20 n

abbrev pub directives : Bytes → Bytes
directives bs = []

-- The name holds a line end, a quote and a byte that is no UTF-8.
abbrev named_alert : Alert ℕ
named_alert = record traced_alert {
  severity = critical;
  action = kill;
  rule = unexpected_binary;
  comm = b'a' ∷ 10 ∷ b'"' ∷ 200 ∷ [];
  details = ("binary", str (b'/' ∷ 13 ∷ [])) ∷ ("average", float 5) ∷ [];
}

pub floats-OneLine : (x : ℕ) → OneLine (int_text x)
floats-OneLine x = int_text-OneLine x

traced_json :
    alert_json float_text time_text traced_alert
    ≡ some (
        codes
          "{\"action\":\"alert\",\"comm\":\"nc\",\"description\":\"Ptrace to non-child process\",\"details\":{\"source_pid\":7,\"target_pid\":9},\"pid\":7,\"rule\":\"ptrace_attachment\",\"score\":60,\"severity\":\"high\",\"timestamp\":\"16\"}")
unfolding alert_json details_json detail_json add_member sorted_insert quote escape escape_ascii
    wide_char starts_three starts_four int_text digits
traced_json = refl

named_quoted : quote named_alert.comm ≡ codes "\"a\\n\\\"\\ufffd\""
unfolding quote escape escape_ascii wide_char starts_three starts_four
named_quoted = refl

both-Plain : Plain float_text time_text (traced_alert ∷ named_alert ∷ [])
unfolding message_of alert_json details_json detail_json add_member sorted_insert quote escape
    escape_ascii wide_char starts_three starts_four int_text digits
both-Plain = (refl, (refl, tt))

stream_read_example :
    read_all new_reader
      (concat (written_text float_text time_text directives (traced_alert ∷ named_alert ∷ [])))
    ≡ record new_reader {
      events = map (json_text float_text time_text) (traced_alert ∷ named_alert ∷ []);
    }
stream_read_example =
    stream_read float_text time_text directives (traced_alert ∷ named_alert ∷ []) floats-OneLine
      both-Plain
