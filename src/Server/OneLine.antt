-- ===== src/Server/OneLine.antt =====
-- Texts on one line, and the JSON text of loader/api_server.go as one.
use beacon_guard.Prelude.{
  ℕ, zero, suc, ◌-◌, ◌/◌, ◌%◌, ◌^◌, ◌≤◌, ◌≡◌, true, List, [], ◌∷◌, ◌++◌, map, Bytes, arith, length,
  ltb, if_cases, and_both, codes, digits,
}
use beacon_guard.Server.Json.{
  escape_ascii, wide_char, starts_three, starts_four, escape, quote, int_text, commas, before,
  sorted_insert, member, object, array, hex, in_range, at, piece, is_line_separator,
}

-- No control characters.
abbrev pub OneLine : Bytes → Type 0
OneLine [] = Unit {0}
OneLine (b ∷ bs) = (32 ≤ b) × OneLine bs

OneLine-append : (xs ys : Bytes) → OneLine xs → OneLine ys → OneLine (xs ++ ys)
OneLine-append [] ys h k = k
OneLine-append (x ∷ xs) ys h k = (h.0, OneLine-append xs ys h.1 k)

hex_lem : (n : ℕ) → 32 ≤ hex n
hex_lem n = ground arith

escape_ascii-OneLine : (b : ℕ) → OneLine (escape_ascii b)
unfolding escape_ascii
escape_ascii-OneLine b = ground arith

starts_three-wide : (a b : ℕ) → starts_three a b ≡ true → (128 ≤ a) × (128 ≤ b)
unfolding starts_three
starts_three-wide a b h = ground arith

starts_four-wide : (a b : ℕ) → starts_four a b ≡ true → (128 ≤ a) × (128 ≤ b)
unfolding starts_four
starts_four-wide a b h = ground arith

in_range-wide : (lo hi b : ℕ) → 128 ≤ lo → in_range lo hi b ≡ true → 128 ≤ b
in_range-wide lo hi b k h = ground arith

follows-wide : (b : ℕ) → in_range 128 191 b ≡ true → 128 ≤ b
follows-wide b h = ground arith

wide_char-OneLine : (bs : Bytes) → OneLine (wide_char bs)
unfolding wide_char
wide_char-OneLine bs =
    if_cases OneLine _ _ _
      (λ e.
        let h = and_both _ _ e in
        let a = in_range-wide 194 223 (at bs 0) (omega arith) h.0 in
        let b = follows-wide (at bs 1) h.1 in (omega arith, (omega arith, tt)))
      (λ e.
        if_cases OneLine _ _ _
          (λ e.
            let h = and_both _ _ e in
            let a = starts_three-wide (at bs 0) (at bs 1) h.0 in
            let c = follows-wide (at bs 2) h.1 in (omega arith, (omega arith, (omega arith, tt))))
          (λ e.
            if_cases OneLine _ _ _
              (λ e.
                let h = and_both _ _ e in
                let a = starts_four-wide (at bs 0) (at bs 1) h.0 in
                let k = and_both _ _ h.1 in
                let c = follows-wide (at bs 2) k.0 in
                let d = follows-wide (at bs 3) k.1 in
                (omega arith, (omega arith, (omega arith, (omega arith, tt)))))
              (λ e. tt)))

piece-OneLine : (b : ℕ) (char : Bytes) → OneLine char → OneLine (piece b char).0
piece-OneLine b [] h =
    if_cases (λ (p : Bytes × ℕ). OneLine p.0) (ltb b 128) _ _ (λ e. escape_ascii-OneLine b)
      (λ e. ground arith)
piece-OneLine b (c ∷ char) h =
    let separator = codes "\\u202" ++ hex (at (c ∷ char) 2 % 16) ∷ [] in
    if_cases (λ (p : Bytes × ℕ). OneLine p.0) (is_line_separator (c ∷ char)) (separator, 2)
      (c ∷ char, length char)
      (λ e.
        OneLine-append (codes "\\u202") (hex (at (c ∷ char) 2 % 16) ∷ []) (ground arith)
          (hex_lem (at (c ∷ char) 2 % 16), tt))
      (λ e. h)

escape-OneLine : (passed : ℕ) (bs : Bytes) → OneLine (escape passed bs)
unfolding escape
escape-OneLine passed [] = tt
escape-OneLine (suc passed) (b ∷ bs) = escape-OneLine passed bs
escape-OneLine zero (b ∷ bs) =
    OneLine-append (piece b (wide_char (b ∷ bs))).0 (escape (piece b (wide_char (b ∷ bs))).1 bs)
      (piece-OneLine b (wide_char (b ∷ bs)) (wide_char-OneLine (b ∷ bs)))
      (escape-OneLine (piece b (wide_char (b ∷ bs))).1 bs)

pub quote-OneLine : (s : Bytes) → OneLine (quote s)
unfolding quote
quote-OneLine s =
    (omega arith, OneLine-append (escape 0 s) (b'"' ∷ []) (escape-OneLine 0 s) (omega arith, tt))

digits-OneLine : (fuel n : ℕ) → OneLine (digits fuel n)
unfolding digits
digits-OneLine zero n = tt
digits-OneLine (suc fuel) n =
    if_cases OneLine (ltb n 10) _ _ (λ e. (omega arith, tt))
      (λ e.
        OneLine-append (digits fuel (n / 10)) _ (digits-OneLine fuel (n / 10)) (omega arith, tt))

pub int_text-OneLine : (n : ℕ) → OneLine (int_text n)
unfolding int_text
int_text-OneLine n =
    if_cases OneLine (ltb n (2 ^ 63)) _ _ (λ e. digits-OneLine 20 n)
      (λ e. (omega arith, digits-OneLine 20 (2 ^ 64 - n)))

-- All texts of a list are on one line each.
abbrev pub OneLines : List Bytes → Type 0
OneLines [] = Unit {0}
OneLines (x ∷ xs) = OneLine x × OneLines xs

commas-OneLine : (items : List Bytes) → OneLines items → OneLine (commas items)
commas-OneLine [] h = tt
commas-OneLine (x ∷ []) h = h.0
commas-OneLine (x ∷ y ∷ more) h =
    OneLine-append x _ h.0 (omega arith, commas-OneLine (y ∷ more) h.1)

pub array-OneLine : (items : List Bytes) → OneLines items → OneLine (array items)
array-OneLine items h =
    (omega arith, OneLine-append (commas items) _ (commas-OneLine items h) (omega arith, tt))

pub quotes-OneLines : (ts : List Bytes) → OneLines (map quote ts)
quotes-OneLines [] = tt
quotes-OneLines (t ∷ ts) = (quote-OneLine t, quotes-OneLines ts)

-- The values of an object's members are on one line each.
abbrev pub Values : List (Bytes × Bytes) → Type 0
Values [] = Unit {0}
Values (m ∷ more) = OneLine m.1 × Values more

members-OneLines : (ms : List (Bytes × Bytes)) → Values ms → OneLines (map member ms)
members-OneLines [] h = tt
members-OneLines (m ∷ ms) h =
    (OneLine-append (quote m.0) _ (quote-OneLine m.0) (omega arith, h.0), members-OneLines ms h.1)

pub object-OneLine : (ms : List (Bytes × Bytes)) → Values ms → OneLine (object ms)
object-OneLine ms h =
    let text = commas-OneLine (map member ms) (members-OneLines ms h) in
    (omega arith, OneLine-append (commas (map member ms)) _ text (omega arith, tt))

pub sorted_insert-Values :
    (m : Bytes × Bytes) (ms : List (Bytes × Bytes))
    → OneLine m.1
    → Values ms
    → Values (sorted_insert m ms)
unfolding sorted_insert
sorted_insert-Values (k, v) [] h hs = (h, tt)
sorted_insert-Values (k, v) ((j, w) ∷ more) h hs =
    if_cases Values (before k j) _ _ (λ e. (h, hs))
      (λ e. (hs.0, sorted_insert-Values (k, v) more h hs.1))
