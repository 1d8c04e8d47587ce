-- ===== src/Server/Json.antt =====
-- The JSON text of an alert, as `json.Marshal` writes it for loader/api_server.go: the keys of an
-- object in order, and in strings the escapes that also keep HTML safe.
use beacon_guard.Prelude.{
  ℕ, zero, suc, ◌+◌, ◌-◌, ◌/◌, ◌%◌, ◌^◌, Bool, true, false, ◌&&◌, ◌||◌, List, [], ◌∷◌, ◌++◌, map,
  Option, none, some, String, Bytes, get_elem?, length, or_zero, ltb, leb, ◌==◌, if◌then◌else◌,
  codes, digits,
}
use mathlib.Core.Option
use beacon_guard.Engine.Types.{
  Severity, info, low, medium, high, critical, Action, alert, block, kill, RuleName,
  unexpected_binary, process_running_as_root, beaconing_detected, reverse_shell_port, dns_tunneling,
  rapid_succession_connections, mass_file_deletion, sensitive_file_write, executable_mmap,
  ptrace_attachment, Detail, str, label, num, float, texts,
}
use beacon_guard.Processor.{Alert}

abbrev pub hex : ℕ → ℕ
hex n = if ltb n 10 then b'0' + n else 87 + n

-- `\` and a letter, or `\u00` and two digits, where JSON or HTML give the character a meaning.
unfoldable pub escape_ascii : ℕ → Bytes
escape_ascii b =
    if b == b'"' || b == b'\\'
    then b'\\' ∷ b ∷ []
    else if b == 8
    then codes "\\b"
    else if b == 9
    then codes "\\t"
    else if b == 10
    then codes "\\n"
    else if b == 12
    then codes "\\f"
    else if b == 13
    then codes "\\r"
    else if ltb b 32 || (b == b'<' || (b == b'>' || b == b'&'))
    then b'\\' ∷ b'u' ∷ b'0' ∷ b'0' ∷ hex (b / 16) ∷ hex (b % 16) ∷ []
    else b ∷ []

abbrev pub in_range : ℕ → ℕ → ℕ → Bool
in_range lo hi b = leb lo b && leb b hi

-- The first two bytes of the longer encodings of UTF-8.
unfoldable pub starts_three : ℕ → ℕ → Bool
starts_three a b =
    (a == 224 && in_range 160 191 b)
    || ((in_range 225 236 a && in_range 128 191 b)
        || ((a == 237 && in_range 128 159 b) || (in_range 238 239 a && in_range 128 191 b)))

unfoldable pub starts_four : ℕ → ℕ → Bool
starts_four a b =
    (a == 240 && in_range 144 191 b)
    || ((in_range 241 243 a && in_range 128 191 b) || (a == 244 && in_range 128 143 b))

abbrev pub at : Bytes → ℕ → ℕ
at bs i = or_zero 0 (get_elem? bs i)

-- The encoded character of two bytes or more at the start of a text; empty where there is none.
unfoldable pub wide_char : Bytes → Bytes
wide_char bs =
    if in_range 194 223 (at bs 0) && in_range 128 191 (at bs 1)
    then at bs 0 ∷ at bs 1 ∷ []
    else if starts_three (at bs 0) (at bs 1) && in_range 128 191 (at bs 2)
    then at bs 0 ∷ at bs 1 ∷ at bs 2 ∷ []
    else if starts_four (at bs 0) (at bs 1)
        && (in_range 128 191 (at bs 2) && in_range 128 191 (at bs 3))
    then at bs 0 ∷ at bs 1 ∷ at bs 2 ∷ at bs 3 ∷ []
    else []

abbrev pub is_line_separator : Bytes → Bool
is_line_separator (a ∷ b ∷ c ∷ []) = a == 226 && (b == 128 && (c == 168 || c == 169))
is_line_separator _ = false

-- What is written for a character, and how many bytes it has after its first.
abbrev pub piece : ℕ → Bytes → Bytes × ℕ
piece b [] = if ltb b 128 then (escape_ascii b, 0) else (codes "\\ufffd", 0)
piece b (c ∷ char) =
    if is_line_separator (c ∷ char)
    then (codes "\\u202" ++ hex (at (c ∷ char) 2 % 16) ∷ [], 2)
    else (c ∷ char, length char)

-- A string without its quotes; `passed` bytes at the start belong to the character before.
unfoldable pub escape : ℕ → Bytes → Bytes
unfolding escape_ascii wide_char
escape passed [] = []
escape (suc passed) (b ∷ bs) = escape passed bs
escape zero (b ∷ bs) = let (text, more) = piece b (wide_char (b ∷ bs)) in text ++ escape more bs

unfoldable pub quote : Bytes → Bytes
unfolding escape
quote s = b'"' ∷ (escape 0 s ++ b'"' ∷ [])

-- An `int`, by its 64 bits.
unfoldable pub int_text : ℕ → Bytes
unfolding digits
int_text n = if ltb n (2 ^ 63) then digits 20 n else b'-' ∷ digits 20 (2 ^ 64 - n)

abbrev pub commas : List Bytes → Bytes
commas [] = []
commas (x ∷ []) = x
commas (x ∷ y ∷ more) = x ++ b',' ∷ commas (y ∷ more)

abbrev pub member : Bytes × Bytes → Bytes
member (key, value) = quote key ++ b':' ∷ value

abbrev pub object : List (Bytes × Bytes) → Bytes
object members = b'{' ∷ (commas (map member members) ++ b'}' ∷ [])

abbrev pub array : List Bytes → Bytes
array items = b'[' ∷ (commas items ++ b']' ∷ [])

-- Keys are compared byte by byte.
abbrev pub before : Bytes → Bytes → Bool
before [] t = true
before (a ∷ s) [] = false
before (a ∷ s) (b ∷ t) = let rest = before s t in if a == b then rest else ltb a b

unfoldable pub sorted_insert : Bytes × Bytes → List (Bytes × Bytes) → List (Bytes × Bytes)
sorted_insert m [] = m ∷ []
sorted_insert (k, v) ((j, w) ∷ more) =
    let rest = sorted_insert (k, v) more in
    if before k j then (k, v) ∷ (j, w) ∷ more else (j, w) ∷ rest

abbrev pub severity_text : Severity → String
severity_text info = "info"
severity_text low = "low"
severity_text medium = "medium"
severity_text high = "high"
severity_text critical = "critical"

abbrev pub action_text : Action → String
action_text alert = "alert"
action_text block = "block"
action_text kill = "kill"

abbrev pub rule_text : RuleName → String
rule_text unexpected_binary = "unexpected_binary"
rule_text process_running_as_root = "process_running_as_root"
rule_text beaconing_detected = "beaconing_detected"
rule_text reverse_shell_port = "reverse_shell_port"
rule_text dns_tunneling = "dns_tunneling"
rule_text rapid_succession_connections = "rapid_succession_connections"
rule_text mass_file_deletion = "mass_file_deletion"
rule_text sensitive_file_write = "sensitive_file_write"
rule_text executable_mmap = "executable_mmap"
rule_text ptrace_attachment = "ptrace_attachment"

-- `float_text` writes a float64, and refuses infinities and NaN; `time_text` writes a time in RFC 3339.
module _ {F : Type 0} (float_text : F → Option Bytes) (time_text : ℕ → Bytes) where
  unfoldable pub detail_json : Detail F → Option Bytes
  unfolding quote int_text
  detail_json (str s) = some (quote s)
  detail_json (label s) = some (quote (codes s))
  detail_json (num n) = some (int_text n)
  detail_json (float x) = float_text x
  detail_json (texts ts) = some (array (map quote ts))

  unfoldable pub add_member :
      Bytes → Option (List (Bytes × Bytes)) → Option Bytes → Option (List (Bytes × Bytes))
  unfolding sorted_insert
  add_member key more none = none
  add_member key more (some value) = Option.map (sorted_insert (key, value)) more

  unfoldable pub details_json : List (String × Detail F) → Option (List (Bytes × Bytes))
  unfolding detail_json add_member
  details_json [] = some []
  details_json ((k, d) ∷ more) = add_member (codes k) (details_json more) (detail_json d)

  abbrev pub members_of : Alert F → List (Bytes × Bytes) → List (Bytes × Bytes)
  members_of a details =
      (codes "action", quote (codes (action_text a.action)))
      ∷ (codes "comm", quote a.comm)
      ∷ (codes "description", quote (codes a.description))
      ∷ (codes "details", object details)
      ∷ (codes "pid", int_text a.pid)
      ∷ (codes "rule", quote (codes (rule_text a.rule)))
      ∷ (codes "score", int_text a.score)
      ∷ (codes "severity", quote (codes (severity_text a.severity)))
      ∷ (codes "timestamp", quote (time_text a.timestamp))
      ∷ []

  -- `json.Marshal(alert)`: `none` for an error.
  unfoldable pub alert_json : Alert F → Option Bytes
  unfolding details_json
  alert_json a = Option.map (λ details. object (members_of a details)) (details_json a.details)
