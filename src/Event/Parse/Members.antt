-- ===== src/Event/Parse/Members.antt =====
-- The members of the union of a sample, as `parseEvent` (loader/event_processor.go) reads them by the type.
use beacon_guard.Prelude.{
  ℕ, ◌+◌, ◌≤◌, ◌<◌, ◌≡◌, refl, [], ◌∷◌, arith, length, take, drop, Bytes, ltb, ◌==◌, if◌then◌else◌,
  Bool-cases, inl, inr,
}
use beacon_guard.Event.{
  Outcome, ok, panic, ◌>>=◌, str, num, Data, Event, c_str_to_string, dotted, parse_exec, parse_open,
  parse_connect, parse_data,
}
use beacon_guard.Event.Fields.{
  field, le_value, u32_at-ok, u16_at-ok, str_at-ok, byte_at-ok, u32_at-panic, str_at-panic,
}

-- The number of bytes that an event of a type needs.
abbrev pub required : ℕ → ℕ
required kind = if kind == 1 then 360 else if kind == 2 then 300 else if kind == 3 then 54 else 40

abbrev pub word_in : Bytes → ℕ → ℕ
word_in raw i = le_value 4 (field raw i (i + 4))

abbrev pub byte_in : Bytes → ℕ → ℕ
byte_in raw i = le_value 1 (take 1 (drop i raw))

abbrev pub exec_data : Bytes → Data
exec_data raw =
    ("filename", str (c_str_to_string (field raw 40 296)))
    ∷ ("argv", str (c_str_to_string (field raw 296 360)))
    ∷ []

abbrev pub open_data : Bytes → Data
open_data raw =
    ("filename", str (c_str_to_string (field raw 40 296))) ∷ ("flags", num (word_in raw 296)) ∷ []

abbrev pub connect_data : Bytes → Data
connect_data raw =
    ("sock_fd", num (word_in raw 40))
    ∷ ("port", num (le_value 2 (field raw 44 46)))
    ∷ ("ip", str (dotted (byte_in raw 46) (byte_in raw 47) (byte_in raw 48) (byte_in raw 49)))
    ∷ ("domain", num (word_in raw 50))
    ∷ []

abbrev pub data_of : ℕ → ℕ → Bytes → Data
data_of kind ret raw =
    if kind == 1
    then exec_data raw
    else if kind == 2
    then open_data raw
    else if kind == 3
    then connect_data raw
    else if kind == 8
    then ("target_pid", num ret) ∷ []
    else []

-- The event that a long enough sample holds.
abbrev pub event_of : Bytes → Event
event_of raw = record {
  pid = word_in raw 0;
  ppid = word_in raw 4;
  uid = word_in raw 8;
  gid = word_in raw 12;
  ret = word_in raw 16;
  kind = word_in raw 20;
  comm = c_str_to_string (field raw 24 40);
  payload = data_of (word_in raw 20) (word_in raw 16) raw;
}

parse_exec-ok : (raw : Bytes) → 360 ≤ length raw → parse_exec raw ≡ ok (exec_data raw)
unfolding parse_exec
parse_exec-ok raw h = rw (
  str_at-ok raw 40 296 (omega arith) (omega arith),
  str_at-ok raw 296 360 (omega arith) (omega arith),
)

parse_exec-panic : (raw : Bytes) → 40 ≤ length raw → length raw < 360 → parse_exec raw ≡ panic
unfolding parse_exec
parse_exec-panic raw h k = elim (Bool-cases (ltb (length raw) 296)) [
  | inl e ↦ rw (str_at-panic raw 40 296 (ground arith))
  | inr e ↦
      rw (str_at-ok raw 40 296 (omega arith) (ground arith), str_at-panic raw 296 360 (omega arith))
]

parse_open-ok : (raw : Bytes) → 300 ≤ length raw → parse_open raw ≡ ok (open_data raw)
unfolding parse_open
parse_open-ok raw h =
    rw (str_at-ok raw 40 296 (omega arith) (omega arith), u32_at-ok raw 296 (omega arith))

parse_open-panic : (raw : Bytes) → 40 ≤ length raw → length raw < 300 → parse_open raw ≡ panic
unfolding parse_open
parse_open-panic raw h k = elim (Bool-cases (ltb (length raw) 296)) [
  | inl e ↦ rw (str_at-panic raw 40 296 (ground arith))
  | inr e ↦
      rw (str_at-ok raw 40 296 (omega arith) (ground arith), u32_at-panic raw 296 (omega arith))
]

parse_connect-ok : (raw : Bytes) → 54 ≤ length raw → parse_connect raw ≡ ok (connect_data raw)
unfolding parse_connect
parse_connect-ok raw h = rw (
  u32_at-ok raw 40 (omega arith),
  u16_at-ok raw 44 (omega arith),
  byte_at-ok raw 46 (omega arith),
  byte_at-ok raw 47 (omega arith),
  byte_at-ok raw 48 (omega arith),
  byte_at-ok raw 49 (omega arith),
  u32_at-ok raw 50 (omega arith),
)

pub bind-panic {ℓ κ} :
    {A : Type ℓ} {B : Type κ} (m : Outcome A) → ◌≡◌ {A = Outcome B} (m >>= λ _. panic) panic
bind-panic (ok a) = refl
bind-panic panic = refl

-- Whatever the reads before it do, the last one fails.
parse_connect-panic : (raw : Bytes) → length raw < 54 → parse_connect raw ≡ panic
unfolding parse_connect
parse_connect-panic raw h = simp (u32_at-panic raw 50 h, bind-panic)

pub parse_data-ok :
    (kind ret : ℕ) (raw : Bytes)
    → required kind ≤ length raw
    → parse_data kind ret raw ≡ ok (data_of kind ret raw)
unfolding parse_data
parse_data-ok kind ret raw h = elim (Bool-cases (kind == 1)) [
  | inl e ↦ rw e (parse_exec-ok raw (ground arith))
  | inr e ↦ rw e (elim (Bool-cases (kind == 2)) [
    | inl f ↦ rw f (parse_open-ok raw (ground arith))
    | inr f ↦ rw f (elim (Bool-cases (kind == 3)) [
      | inl g ↦ rw g (parse_connect-ok raw (ground arith))
      | inr g ↦ rw g (elim (Bool-cases (kind == 8)) [ inl k ↦ rw k | inr k ↦ rw k ])
    ])
  ])
]

pub parse_data-panic :
    (kind ret : ℕ) (raw : Bytes)
    → 40 ≤ length raw
    → length raw < required kind
    → parse_data kind ret raw ≡ panic
unfolding parse_data
parse_data-panic kind ret raw h k = elim (Bool-cases (kind == 1)) [
  | inl e ↦ rw e (parse_exec-panic raw h (ground arith))
  | inr e ↦ rw e (elim (Bool-cases (kind == 2)) [
    | inl f ↦ rw f (parse_open-panic raw h (ground arith))
    | inr f ↦ rw f (elim (Bool-cases (kind == 3)) [
      | inl g ↦ rw g (parse_connect-panic raw (ground arith))
      | inr g ↦ absurd (ground arith)
    ])
  ])
]
