-- ===== src/Server/Message.antt =====
-- The messages of the event stream (loader/api_server.go): what `AddAlert` sends for an alert, and
-- what `handleSSE` writes of it.
use beacon_guard.Prelude.{
  Bool, List, String, ℕ, [], ◌∷◌, ◌++◌, Option, Bytes, or_zero, ◌==◌, if◌then◌else◌, codes,
}
use beacon_guard.Processor.{Alert}
use beacon_guard.Server.{Server, subscribe}
use beacon_guard.Server.Json.{alert_json}

-- `data, _ := json.Marshal(alert)`: on an error there is no text.
abbrev pub json_text : {F : Type 0} → (F → Option Bytes) → (ℕ → Bytes) → Alert F → Bytes
json_text float_text time_text a = or_zero [] (alert_json float_text time_text a)

-- `fmt.Sprintf("data: %s\n\n", string(data))`.
unfoldable pub message_of : {F : Type 0} → (F → Option Bytes) → (ℕ → Bytes) → Alert F → Bytes
message_of float_text time_text a =
    codes "data: " ++ (json_text float_text time_text a ++ 10 ∷ 10 ∷ [])

-- `fmt.Fprintf(w, msg)`: the message is the format. What stands before the first `%` is copied;
-- `directives` writes the rest, with no argument for its verbs.
unfoldable pub fprintf : (Bytes → Bytes) → Bytes → Bytes
fprintf directives [] = []
fprintf directives (b ∷ bs) =
    let rest = fprintf directives bs in if b == b'%' then directives (b ∷ bs) else b ∷ rest

-- How `handleSSE` answers: with status 500, or with these headers and then the messages.
pub data StreamAnswer : Type 0 where
  not_supported : String → StreamAnswer
  streaming : List (String × String) → StreamAnswer

abbrev pub stream_headers : List (String × String)
stream_headers =
    ("Content-Type", "text/event-stream")
    ∷ ("Cache-Control", "no-cache")
    ∷ ("Connection", "keep-alive")
    ∷ []

-- `handleSSE` up to its loop; `flushes` says whether the writer is an `http.Flusher`, and `c` is the
-- fresh channel.
unfoldable pub open_stream : {F : Type 0} → Bool → ℕ → Server F → StreamAnswer × Server F
unfolding subscribe
open_stream flushes c s =
    if flushes
    then (streaming stream_headers, subscribe c s)
    else (not_supported "SSE not supported", s)
