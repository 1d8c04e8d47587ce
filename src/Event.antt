-- ===== src/Event.antt =====
-- loader/event_processor.go, `Event`, `parseEvent` and `cStrToString`: from the bytes of a ring
-- buffer sample to an event. A slice expression or an index out of range is a Go panic, the
-- outcome `panic`. A sample's capacity is its length: the reader allocates each record anew.
pub mod Fields
pub mod Parse
pub mod Shape
pub mod Layout
pub mod Kernel
use Prim.Native.Nat.{compare}
use text.Mathlib.Text.{◌==◌ as str_eq}
use beacon_guard.Prelude.{
  ℕ, zero, ◌+◌, ◌-◌, ◌*◌, ◌/◌, ◌%◌, Bool, ◌&&◌, List, [], ◌∷◌, ◌++◌, Option, none, some, String,
  ltb, leb, ◌==◌, if◌then◌else◌, length, take, drop, get_elem?, Bytes, or_zero,
}

-- The values of `map[string]interface{}` that the parser stores.
pub data Value : Type 0 where
  str : Bytes → Value
  num : ℕ → Value

abbrev pub Data : Type 0
Data = List (String × Value)

pub record Event : Type 0 where
  pub pid : ℕ
  pub ppid : ℕ
  pub uid : ℕ
  pub gid : ℕ
  pub ret : ℕ
  pub kind : ℕ
  pub comm : Bytes
  pub payload : Data

-- `v, ok := data[key]`.
pub find : String → Data → Option Value
find k [] = none
find k ((j, v) ∷ m) = if str_eq j k then some v else find k m

abbrev as_text : Option Value → Option Bytes
as_text (some (str s)) = some s
as_text _ = none

abbrev as_num : Option Value → Option ℕ
as_num (some (num n)) = some n
as_num _ = none

-- `v, ok := data[key].(string)`; the `.(int)` form gives 0 where the assertion fails.
unfoldable pub text_at? : String → Data → Option Bytes
unfolding find
text_at? k d = as_text (find k d)

unfoldable pub text_at : String → Data → Bytes
unfolding text_at?
text_at k d = or_zero [] (text_at? k d)

unfoldable pub num_at : String → Data → ℕ
unfolding find
num_at k d = or_zero 0 (as_num (find k d))

pub data Outcome {ℓ} (A : Type ℓ) : Type ℓ where
  ok : A → Outcome A
  panic : Outcome A

infixl 5 ◌>>=◌
abbrev pub ◌>>=◌ {ℓ κ} : {A : Type ℓ} {B : Type κ} → Outcome A → (A → Outcome B) → Outcome B
panic >>= _ = panic
ok value >>= next = next value

-- `raw[a:b]`.
unfoldable pub slice : Bytes → ℕ → ℕ → Outcome Bytes
slice raw a b = if leb a b && leb b (length raw) then ok (take (b - a) (drop a raw)) else panic

-- `raw[i]`.
abbrev from_option : Option ℕ → Outcome ℕ
from_option none = panic
from_option (some b) = ok b

unfoldable pub byte_at : Bytes → ℕ → Outcome ℕ
byte_at raw i = from_option (get_elem? raw i)

-- `binary.LittleEndian.Uint16` and `Uint32`.
unfoldable pub le16 : Bytes → Outcome ℕ
le16 (a ∷ b ∷ _) = ok (a + 256 * b)
le16 _ = panic

unfoldable pub le32 : Bytes → Outcome ℕ
le32 (a ∷ b ∷ c ∷ d ∷ _) = ok (a + 256 * b + 65536 * c + 16777216 * d)
le32 _ = panic

-- `cStrToString`: the bytes before the first NUL, or all of them.
unfoldable pub c_str_to_string : Bytes → Bytes
c_str_to_string [] = []
c_str_to_string (b ∷ bs) = let rest = c_str_to_string bs in if b == 0 then [] else b ∷ rest

-- `%d` of a byte, and `fmt.Sprintf("%d.%d.%d.%d", …)`.
unfoldable pub decimal : ℕ → Bytes
decimal n =
    if ltb n 10
    then (b'0' + n) ∷ []
    else if ltb n 100
    then (b'0' + n / 10) ∷ (b'0' + n % 10) ∷ []
    else (b'0' + n / 100) ∷ (b'0' + n / 10 % 10) ∷ (b'0' + n % 10) ∷ []

unfoldable pub dotted : ℕ → ℕ → ℕ → ℕ → Bytes
unfolding decimal
dotted a b c d = decimal a ++ (b'.' ∷ (decimal b ++ (b'.' ∷ (decimal c ++ (b'.' ∷ decimal d)))))

-- `uint32` and `uint16` fields at an offset, as `int`.
unfoldable pub u32_at : Bytes → ℕ → Outcome ℕ
u32_at raw i = do bs ← slice raw i (i + 4); le32 bs

unfoldable pub u16_at : Bytes → ℕ → Outcome ℕ
u16_at raw i = do bs ← slice raw i (i + 2); le16 bs

unfoldable pub str_at : Bytes → ℕ → ℕ → Outcome Bytes
str_at raw i j = do bs ← slice raw i j; ok (c_str_to_string bs)

-- The `switch` of `parseEvent`, which fills `evt.Data`.
parse_exec : Bytes → Outcome Data
parse_exec raw = do
  filename ← str_at raw 40 296
  argv ← str_at raw 296 360
  ok (("filename", str filename) ∷ ("argv", str argv) ∷ [])

parse_open : Bytes → Outcome Data
parse_open raw = do
  filename ← str_at raw 40 296
  flags ← u32_at raw 296
  ok (("filename", str filename) ∷ ("flags", num flags) ∷ [])

parse_connect : Bytes → Outcome Data
parse_connect raw = do
  sock_fd ← u32_at raw 40
  port ← u16_at raw 44
  a ← byte_at raw 46
  b ← byte_at raw 47
  c ← byte_at raw 48
  d ← byte_at raw 49
  domain ← u32_at raw 50
  ok (
      ("sock_fd", num sock_fd)
      ∷ ("port", num port)
      ∷ ("ip", str (dotted a b c d))
      ∷ ("domain", num domain)
      ∷ [])

unfoldable pub parse_data : ℕ → ℕ → Bytes → Outcome Data
unfolding parse_exec parse_open parse_connect
parse_data kind ret raw =
    if kind == 1
    then parse_exec raw
    else if kind == 2
    then parse_open raw
    else if kind == 3
    then parse_connect raw
    else if kind == 8
    then ok (("target_pid", num ret) ∷ [])
    else ok []

parse_fields : Bytes → Outcome (Option Event)
parse_fields raw = do
  pid ← u32_at raw 0
  ppid ← u32_at raw 4
  uid ← u32_at raw 8
  gid ← u32_at raw 12
  ret ← u32_at raw 16
  kind ← u32_at raw 20
  comm ← str_at raw 24 40
  payload ← parse_data kind ret raw
  ok (
      some (record {
        pid = pid;
        ppid = ppid;
        uid = uid;
        gid = gid;
        ret = ret;
        kind = kind;
        comm = comm;
        payload = payload;
      }))

-- `parseEvent`: `none` is the nil event.
unfoldable pub parse_event : Bytes → Outcome (Option Event)
unfolding parse_fields
parse_event raw = if ltb (length raw) 32 then ok none else parse_fields raw
