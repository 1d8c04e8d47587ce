-- ===== src/Event/Fields.antt =====
-- The reads of `parseEvent` (loader/event_processor.go) one by one: when an offset is in range and
-- what is read there, in closed form.
use beacon_guard.Prelude.{
  ℕ, zero, suc, ◌+◌, ◌-◌, ◌*◌, ◌≤◌, ◌<◌, ◌≡◌, refl, ap, [], ◌∷◌, none, some, arith, length, take,
  drop, get_elem?, length-take, length-drop, Bytes,
}
use beacon_guard.Event.{
  ok, panic, slice, byte_at, le16, le32, u32_at, u16_at, str_at, c_str_to_string,
}

-- The bytes from `i` up to `j`.
abbrev pub field : Bytes → ℕ → ℕ → Bytes
field raw i j = take (j - i) (drop i raw)

-- The little-endian value of the first bytes of a list, where a missing byte counts as 0.
unfoldable pub le_value : ℕ → Bytes → ℕ
le_value zero bs = 0
le_value (suc n) [] = 0
le_value (suc n) (b ∷ bs) = b + 256 * le_value n bs

pub slice-ok : (raw : Bytes) (a b : ℕ) → a ≤ b → b ≤ length raw → slice raw a b ≡ ok (field raw a b)
unfolding slice
slice-ok raw a b h k = ground arith

pub slice-panic : (raw : Bytes) (a b : ℕ) → length raw < b → slice raw a b ≡ panic
unfolding slice
slice-panic raw a b h = ground arith

length-field : (raw : Bytes) (a b : ℕ) → a ≤ b → b ≤ length raw → length (field raw a b) ≡ b - a
length-field raw a b h k = omega (arith, length-take (b - a) (drop a raw), length-drop a raw)

le32-ok : (bs : Bytes) → 4 ≤ length bs → le32 bs ≡ ok (le_value 4 bs)
unfolding le32 le_value
le32-ok [] h = absurd (omega arith)
le32-ok (a ∷ []) h = absurd (omega arith)
le32-ok (a ∷ b ∷ []) h = absurd (omega arith)
le32-ok (a ∷ b ∷ c ∷ []) h = absurd (omega arith)
le32-ok (a ∷ b ∷ c ∷ d ∷ r) h = ap ok (omega arith)

le16-ok : (bs : Bytes) → 2 ≤ length bs → le16 bs ≡ ok (le_value 2 bs)
unfolding le16 le_value
le16-ok [] h = absurd (omega arith)
le16-ok (a ∷ []) h = absurd (omega arith)
le16-ok (a ∷ b ∷ r) h = ap ok (omega arith)

pub u32_at-ok :
    (raw : Bytes) (i : ℕ)
    → i + 4 ≤ length raw
    → u32_at raw i ≡ ok (le_value 4 (field raw i (i + 4)))
unfolding u32_at
u32_at-ok raw i h =
    rw (slice-ok raw i (i + 4) (omega arith) h)
      (le32-ok (field raw i (i + 4)) (omega (arith, length-field raw i (i + 4) (omega arith) h)))

pub u32_at-panic : (raw : Bytes) (i : ℕ) → length raw < i + 4 → u32_at raw i ≡ panic
unfolding u32_at
u32_at-panic raw i h = rw (slice-panic raw i (i + 4) h)

pub u16_at-ok :
    (raw : Bytes) (i : ℕ)
    → i + 2 ≤ length raw
    → u16_at raw i ≡ ok (le_value 2 (field raw i (i + 2)))
unfolding u16_at
u16_at-ok raw i h =
    rw (slice-ok raw i (i + 2) (omega arith) h)
      (le16-ok (field raw i (i + 2)) (omega (arith, length-field raw i (i + 2) (omega arith) h)))

pub u16_at-panic : (raw : Bytes) (i : ℕ) → length raw < i + 2 → u16_at raw i ≡ panic
unfolding u16_at
u16_at-panic raw i h = rw (slice-panic raw i (i + 2) h)

pub str_at-ok :
    (raw : Bytes) (i j : ℕ)
    → i ≤ j
    → j ≤ length raw
    → str_at raw i j ≡ ok (c_str_to_string (field raw i j))
unfolding str_at
str_at-ok raw i j h k = rw (slice-ok raw i j h k)

pub str_at-panic : (raw : Bytes) (i j : ℕ) → length raw < j → str_at raw i j ≡ panic
unfolding str_at
str_at-panic raw i j h = rw (slice-panic raw i j h)

get_elem?-field :
    (raw : Bytes) (i : ℕ)
    → i < length raw
    → get_elem? raw i ≡ some (le_value 1 (take 1 (drop i raw)))
unfolding le_value
get_elem?-field [] i h = absurd (omega arith)
get_elem?-field (b ∷ raw) zero h = ap some (omega arith)
get_elem?-field (b ∷ raw) (suc i) h = get_elem?-field raw i (omega arith)

pub byte_at-ok :
    (raw : Bytes) (i : ℕ) → i < length raw → byte_at raw i ≡ ok (le_value 1 (take 1 (drop i raw)))
unfolding byte_at
byte_at-ok raw i h = rw (get_elem?-field raw i h)

get_elem?-none : (raw : Bytes) (i : ℕ) → length raw ≤ i → get_elem? raw i ≡ none
get_elem?-none [] i h = refl
get_elem?-none (b ∷ raw) zero h = absurd (omega arith)
get_elem?-none (b ∷ raw) (suc i) h = get_elem?-none raw i (omega arith)

pub byte_at-panic : (raw : Bytes) (i : ℕ) → length raw ≤ i → byte_at raw i ≡ panic
unfolding byte_at
byte_at-panic raw i h = rw (get_elem?-none raw i h)
