-- ===== src/Server/Frames.antt =====
-- A reader of event streams, as the frontend's browser has it: lines end at LF, CR or both, a line
-- `data: x` adds x to the event, and an empty line ends the event. It is what the writer in
-- loader/api_server.go has to satisfy.
use mathlib.Core.List.{foldl}
use beacon_guard.Prelude.{
  ℕ, Bool, true, false, List, [], ◌∷◌, ◌++◌, Option, none, some, Bytes, ◌==◌, if◌then◌else◌, codes,
}

pub record Reader : Type 0 where
  pub line : Bytes
  pub after_cr : Bool
  pub lines : List Bytes
  pub events : List Bytes

abbrev pub new_reader : Reader
new_reader = record { line = []; after_cr = false; lines = []; events = [] }

abbrev strip_space : Bytes → Bytes
strip_space [] = []
strip_space (b ∷ bs) = if b == b' ' then bs else b ∷ bs

-- The value of a line whose field is `data`.
abbrev value_of : Bytes → Option Bytes
value_of [] = some []
value_of (b ∷ bs) = if b == b':' then some (strip_space bs) else none

abbrev strip_prefix : Bytes → Bytes → Option Bytes
strip_prefix [] s = some s
strip_prefix (a ∷ p) [] = none
strip_prefix (a ∷ p) (b ∷ s) = let rest = strip_prefix p s in if a == b then rest else none

abbrev data_value : Option Bytes → Option Bytes
data_value none = none
data_value (some s) = value_of s

-- The data of an event: its lines, with LF between them.
abbrev event_text : List Bytes → Bytes
event_text [] = []
event_text (x ∷ []) = x
event_text (x ∷ y ∷ more) = x ++ 10 ∷ event_text (y ∷ more)

abbrev add_line : Option Bytes → Reader → Reader
add_line none r = r
add_line (some value) r = record r { lines = r.lines ++ value ∷ [] }

abbrev finish_event : List Bytes → Reader → Reader
finish_event [] r = r
finish_event (x ∷ more) r = record r { lines = []; events = r.events ++ event_text (x ∷ more) ∷ [] }

abbrev finish_line : Bytes → Reader → Reader
finish_line [] r = finish_event r.lines r
finish_line (b ∷ bs) r = record (add_line (data_value (strip_prefix (codes "data") (b ∷ bs))) r) {
  line = [];
}

unfoldable pub read_byte : Reader → ℕ → Reader
read_byte r b =
    if b == 13
    then record (finish_line r.line r) { after_cr = true }
    else if b == 10
    then if r.after_cr then record r { after_cr = false } else finish_line r.line r
    else record r { after_cr = false; line = r.line ++ b ∷ [] }

unfoldable pub read_all : Reader → Bytes → Reader
unfolding read_byte
read_all r bs = foldl read_byte r bs
