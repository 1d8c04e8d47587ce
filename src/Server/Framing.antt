-- ===== src/Server/Framing.antt =====
-- The event stream that loader/api_server.go writes, read back.
use mathlib.Core.List.{append_assoc, append-nil}
use beacon_guard.Prelude.{
  ℕ, ◌≤◌, ◌≡◌, refl, sym, ap, ◌∙◌, Bool, true, false, List, [], ◌∷◌, ◌++◌, map, Option, Bytes,
  arith, or_zero, ◌==◌, if◌then◌else◌, if_false, Bool-cases, inl, inr, codes, concat,
}
use beacon_guard.Processor.{Alert}
use beacon_guard.Server.OneLine.{OneLine}
use beacon_guard.Server.AlertLine.{alert_json-OneLine}
use beacon_guard.Server.Message.{json_text, message_of, fprintf}
use beacon_guard.Server.Frames.{Reader, new_reader, read_byte, read_all}

-- A text without `%`.
abbrev pub plain : Bytes → Bool
plain [] = true
plain (b ∷ bs) = let rest = plain bs in if b == b'%' then false else rest

fprintf-plain :
    (directives : Bytes → Bytes) (bs : Bytes) → plain bs ≡ true → fprintf directives bs ≡ bs
unfolding fprintf
fprintf-plain directives [] h = refl
fprintf-plain directives (b ∷ bs) h = elim (Bool-cases (b == b'%')) [
  | inl e ↦ cc
  | inr e ↦ rw e (ap (λ r. b ∷ r) (fprintf-plain directives bs (sym (if_false _ _ _ e) ∙ h)))
]

-- A reader within a line, with the lines and the events before it.
abbrev reading : Bytes → List Bytes → List Bytes → Reader
reading line lines events = record { line = line; after_cr = false; lines = lines; events = events }

read_all-append : (r : Reader) (xs ys : Bytes) → read_all r (xs ++ ys) ≡ read_all (read_all r xs) ys
unfolding read_all
read_all-append r [] ys = refl
read_all-append r (x ∷ xs) ys = read_all-append (read_byte r x) xs ys

read_byte-reading :
    (b : ℕ) (line : Bytes) (lines events : List Bytes)
    → 32 ≤ b
    → read_byte (reading line lines events) b ≡ reading (line ++ b ∷ []) lines events
unfolding read_byte
read_byte-reading b line lines events h =
    let cr : (b == 13) ≡ false = ground arith in
    let lf : (b == 10) ≡ false = ground arith in rw (cr, lf) refl

-- A text on one line extends the line that is being read.
read_all-OneLine :
    (bs line : Bytes) (lines events : List Bytes)
    → OneLine bs
    → read_all (reading line lines events) bs ≡ reading (line ++ bs) lines events
unfolding read_all
read_all-OneLine [] line lines events h = rw append-nil refl
read_all-OneLine (b ∷ bs) line lines events h =
    ap (λ r. read_all r bs) (read_byte-reading b line lines events h.0)
    ∙ read_all-OneLine bs (line ++ b ∷ []) lines events h.1
    ∙ ap (λ l. reading l lines events) (append_assoc line (b ∷ []) bs)

read_all-none :
    (events : List Bytes) → read_all (reading [] [] events) [] ≡ reading [] [] (events ++ [])
unfolding read_all
read_all-none events = rw append-nil refl

-- A frame around a text on one line is read as one event with this text.
read_all-frame :
    (text : Bytes) (events : List Bytes)
    → OneLine text
    → read_all (reading [] [] events) (codes "data: " ++ (text ++ 10 ∷ 10 ∷ []))
      ≡ reading [] [] (events ++ text ∷ [])
unfolding read_all read_byte
read_all-frame text events h =
    read_all-append (reading (codes "data: ") [] events) text (10 ∷ 10 ∷ [])
    ∙ ap (λ r. read_all r (10 ∷ 10 ∷ [])) (read_all-OneLine text (codes "data: ") [] events h)

-- What is written for a list of alerts, one after the other.
module _ {F : Type 0} (float_text : F → Option Bytes) (time_text : ℕ → Bytes) where
  abbrev pub written_text : (Bytes → Bytes) → List (Alert F) → List Bytes
  written_text directives [] = []
  written_text directives (a ∷ more) =
      fprintf directives (message_of float_text time_text a) ∷ written_text directives more

  abbrev pub Plain : List (Alert F) → Type 0
  Plain [] = Unit {0}
  Plain (a ∷ more) = (plain (message_of float_text time_text a) ≡ true) × Plain more

  read_message :
      (a : Alert F) (events : List Bytes)
      → ((x : F) → OneLine (or_zero [] (float_text x)))
      → read_all (reading [] [] events) (message_of float_text time_text a)
        ≡ reading [] [] (events ++ json_text float_text time_text a ∷ [])
  unfolding message_of
  read_message a events h =
      read_all-frame (json_text float_text time_text a) events
        (alert_json-OneLine float_text time_text a h)

  read_written :
      (directives : Bytes → Bytes) (alerts : List (Alert F)) (events : List Bytes)
      → ((x : F) → OneLine (or_zero [] (float_text x)))
      → Plain alerts
      → read_all (reading [] [] events) (concat (written_text directives alerts))
        ≡ reading [] [] (events ++ map (json_text float_text time_text) alerts)
  read_written directives [] events h k = read_all-none events
  read_written directives (a ∷ more) events h k =
      let text = json_text float_text time_text a in
      let written = concat (written_text directives more) in
      ap (λ t. read_all (reading [] [] events) (t ++ written))
        (fprintf-plain directives (message_of float_text time_text a) k.0)
      ∙ read_all-append (reading [] [] events) (message_of float_text time_text a) written
      ∙ ap (λ r. read_all r written) (read_message a events h)
      ∙ read_written directives more (events ++ text ∷ []) h k.1
      ∙ ap (reading [] [])
          (append_assoc events (text ∷ []) (map (json_text float_text time_text) more))

  -- What `handleSSE` writes for a list of alerts, one after the other, is read back from the event
  -- stream as one event for each of them, in order, whose data is the alert's JSON text: strings
  -- that hold line ends or control characters do not break a frame. The alerts' messages have no
  -- `%`, which `fmt.Fprintf` would take as the start of a directive, and the text of a float64 has
  -- no control characters.
  pub stream_read :
      (directives : Bytes → Bytes) (alerts : List (Alert F))
      → ((x : F) → OneLine (or_zero [] (float_text x)))
      → Plain alerts
      → read_all new_reader (concat (written_text directives alerts))
        ≡ record new_reader { events = map (json_text float_text time_text) alerts }
  stream_read directives alerts h k = read_written directives alerts [] h k
