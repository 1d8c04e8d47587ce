-- ===== src/Event/Layout.antt =====
-- The samples that the kernel programs send: `struct event_t` of bpf/common.h as bytes, with the gaps
-- that its alignment leaves on a 64-bit machine.
use beacon_guard.Prelude.{
  ◌<◌, ==_false, ℕ, zero, suc, ◌+◌, ◌/◌, ◌%◌, ◌^◌, ◌≡◌, refl, ap, ◌∙◌, [], ◌∷◌, ◌++◌, arith, length,
  take, drop, drop-append, Bytes,
}
use beacon_guard.Event.{c_str_to_string}
use beacon_guard.Event.Fields.{le_value}

-- A number as `n` bytes, the lowest first.
unfoldable pub le_bytes : ℕ → ℕ → Bytes
le_bytes zero v = []
le_bytes (suc n) v = v % 256 ∷ le_bytes n (v / 256)

-- The members before the union.
pub record Header : Type 0 where
  pub pid : ℕ
  pub ppid : ℕ
  pub uid : ℕ
  pub gid : ℕ
  pub ret : ℕ
  pub kind : ℕ
  pub comm : Bytes

unfoldable pub header_bytes : Header → Bytes → Bytes
unfolding le_bytes
header_bytes h rest =
    le_bytes 4 h.pid
    ++ (le_bytes 4 h.ppid
        ++ (le_bytes 4 h.uid
            ++ (le_bytes 4 h.gid ++ (le_bytes 4 h.ret ++ (le_bytes 4 h.kind ++ (h.comm ++ rest))))))

-- The member `net` of the union. The compiler leaves four bytes before `sa` and two before `domain`,
-- which nobody writes.
pub record Net : Type 0 where
  pub sock_fd : ℕ
  pub gap0 : ℕ
  pub gap1 : ℕ
  pub gap2 : ℕ
  pub gap3 : ℕ
  pub sa : ℕ
  pub port : ℕ
  pub ip : Bytes
  pub small_gap : Bytes
  pub domain : ℕ
  pub type_proto : ℕ

unfoldable pub net_bytes : Net → Bytes → Bytes
unfolding le_bytes
net_bytes n rest =
    le_bytes 4 n.sock_fd
    ++ n.gap0
      ∷ n.gap1
      ∷ n.gap2
      ∷ n.gap3
      ∷ (le_bytes 8 n.sa
          ++ (le_bytes 2 n.port
              ++ (n.ip
                  ++ (n.small_gap ++ (le_bytes 4 n.domain ++ (le_bytes 4 n.type_proto ++ rest))))))

-- The samples of the three types with data: the tail of the struct is `rest`.
abbrev pub exec_sample : Header → Bytes → Bytes → Bytes
exec_sample h filename argv = header_bytes (record h { kind = 1 }) (filename ++ argv)

abbrev pub file_sample : Header → Bytes → ℕ → Bytes → Bytes
file_sample h filename flags rest =
    header_bytes (record h { kind = 2 }) (filename ++ (le_bytes 4 flags ++ rest))

abbrev pub net_sample : Header → Net → Bytes → Bytes
net_sample h n rest = header_bytes (record h { kind = 3 }) (net_bytes n rest)

abbrev NoNul : Bytes → Type 0
NoNul [] = Unit {0}
NoNul (b ∷ s) = (0 < b) × NoNul s

-- A buffer of `n` bytes holds a text: the text, a NUL, and whatever was there before.
pub record IsText (n : ℕ) (buffer text : Bytes) : Type 0 where
  pub junk : Bytes
  pub shape : buffer ≡ text ++ 0 ∷ junk
  pub size : length buffer ≡ n
  pub clean : NoNul text

c_str_to_string-append :
    (text junk : Bytes) → NoNul text → c_str_to_string (text ++ 0 ∷ junk) ≡ text
unfolding c_str_to_string
c_str_to_string-append [] junk h = refl
c_str_to_string-append (b ∷ text) junk h =
    rw (==_false b h.0) (ap (λ r. b ∷ r) (c_str_to_string-append text junk h.1))

pub c_str_to_string-text :
    {n : ℕ} {buffer text : Bytes} → IsText n buffer text → c_str_to_string buffer ≡ text
c_str_to_string-text {n} {buffer} {text} t =
    ap c_str_to_string t.shape ∙ c_str_to_string-append text t.junk t.clean

-- Four bytes hold a number up to 32 bits.
pub le_value-le_bytes : (v : ℕ) → le_value 4 (le_bytes 4 v) ≡ v % 2 ^ 32
unfolding le_value le_bytes
le_value-le_bytes v = omega arith

pub take-chunk : (n : ℕ) (chunk rest : Bytes) → length chunk ≡ n → take n (chunk ++ rest) ≡ chunk
take-chunk zero [] rest h = refl
take-chunk zero (b ∷ chunk) rest h = absurd (omega arith)
take-chunk (suc n) [] rest h = absurd (omega arith)
take-chunk (suc n) (b ∷ chunk) rest h = ap (λ r. b ∷ r) (take-chunk n chunk rest (omega arith))

pub drop-chunk :
    (n k : ℕ) (chunk rest : Bytes) → length chunk ≡ n → drop (n + k) (chunk ++ rest) ≡ drop k rest
drop-chunk n k chunk rest h =
    let e : n + k ≡ length chunk + k = omega (arith, h) in
    ap (λ m. drop m (chunk ++ rest)) e ∙ drop-append chunk rest k
