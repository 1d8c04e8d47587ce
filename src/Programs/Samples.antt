-- ===== src/Programs/Samples.antt =====
-- The samples of bpf/beacon_guard.bpf.c, as loader/event_processor.go meets them.
use mathlib.Core.Option
use beacon_guard.Prelude.{
  ℕ, ◌+◌, ◌≡◌, refl, ◌∙◌, ◌++◌, Option, none, some, Bytes, arith, length, length-append, or_zero,
  if_cases, not, ltb, is_some, lookup, ◌==◌, ◌/◌, ◌%◌, ◌^◌, length-drop,
}
use beacon_guard.Event.Layout.{Header, Net, header_bytes, net_bytes, le_bytes}
use beacon_guard.Programs.{
  Invocation, on_execve, on_execve_exit, on_openat, on_clone, on_exit, on_tcp_connect, on_udp_send,
  on_mmap, on_ptrace, invoke,
}
use beacon_guard.Programs.Tables.{Maps}
use beacon_guard.Programs.Memory.{Call, pid_of, NetBody, Result}
use beacon_guard.Programs.Files.{execve, execve_exit, openat}
use beacon_guard.Programs.Network.{write_ip, to_bad_port, ntohs, tcp_connect, udp_send}
use beacon_guard.Programs.Processes.{clone, exit_group, mmap_exec, ptrace}

-- The sizes of the members, and helpers that write within the size they are given.
pub record Sized (c : Call) : Type 0 where
  pub comm : length c.comm ≡ 16
  pub within : (size address : ℕ) (old : Bytes) → length (c.user_str size address old) ≡ length old

pub record SizedNet (b : NetBody) : Type 0 where
  pub ip : length b.net.ip ≡ 40
  pub small_gap : length b.net.small_gap ≡ 2
  pub rest : length b.rest ≡ 252

abbrev pub IsSized : Invocation → Type 0
IsSized (on_execve c f a (some r)) =
    Sized c × ((length r.body.filename ≡ 256) × (length r.body.argv ≡ 64))
IsSized (on_openat c f flags (some r)) =
    Sized c × ((length r.body.filename ≡ 256) × (length r.body.rest ≡ 60))
IsSized (on_clone c (some r)) = Sized c × (length r.body ≡ 320)
IsSized (on_tcp_connect c sk fd (some r)) = Sized c × SizedNet r.body
IsSized (on_udp_send c sk size (some r)) = Sized c × SizedNet r.body
IsSized (on_mmap c prot (some r)) = Sized c × (length r.body ≡ 320)
IsSized (on_ptrace c target (some r)) = Sized c × (length r.body ≡ 320)
IsSized _ = Unit {0}

pub length-header_bytes :
    (h : Header) (rest : Bytes) → length (header_bytes h rest) ≡ 24 + length h.comm + length rest
unfolding header_bytes le_bytes
length-header_bytes h rest = omega (arith, length-append h.comm rest)

length-net_bytes :
    (n : Net) (rest : Bytes)
    → length (net_bytes n rest) ≡ 26 + length n.ip + length n.small_gap + length rest
unfolding net_bytes le_bytes
length-net_bytes n rest =
    let tail = le_bytes 4 n.domain ++ (le_bytes 4 n.type_proto ++ rest) in
    omega (arith, length-append n.ip (n.small_gap ++ tail), length-append n.small_gap tail)

length-write_ip : (daddr : ℕ) (ip : Bytes) → length ip ≡ 40 → length (write_ip daddr ip) ≡ 40
unfolding le_bytes
length-write_ip daddr ip h = omega (arith, length-drop 4 ip, h)

-- A sample is a whole struct.
abbrev pub Whole : Option Bytes → Type 0
Whole o = or_zero 360 (Option.map length o) ≡ 360

header_bytes-Whole :
    (h : Header) (body : Bytes)
    → length h.comm ≡ 16
    → length body ≡ 320
    → length (header_bytes h body) ≡ 360
header_bytes-Whole h body k b = omega (arith, length-header_bytes h body, k, b)

net_sample-Whole :
    (h : Header) (n : Net) (rest : Bytes)
    → length h.comm ≡ 16
    → length n.ip ≡ 40
    → length n.small_gap ≡ 2
    → length rest ≡ 252
    → length (header_bytes h (net_bytes n rest)) ≡ 360
net_sample-Whole h n rest k ip gap tail =
    header_bytes-Whole h (net_bytes n rest) k
      (omega (arith, length-net_bytes n rest, ip, gap, tail))

file_sample-Whole :
    (h : Header) (filename : Bytes) (flags : ℕ) (rest : Bytes)
    → length h.comm ≡ 16
    → length filename ≡ 256
    → length rest ≡ 60
    → length (header_bytes h (filename ++ (le_bytes 4 flags ++ rest))) ≡ 360
unfolding le_bytes
file_sample-Whole h filename flags rest k name tail =
    header_bytes-Whole h (filename ++ (le_bytes 4 flags ++ rest)) k
      (omega (arith, length-append filename (le_bytes 4 flags ++ rest), name, tail))

pub invoke-Whole : (i : Invocation) (m : Maps) → IsSized i → Whole (invoke i m).sample
unfolding invoke execve execve_exit openat tcp_connect udp_send mmap_exec ptrace clone exit_group
    le_bytes
invoke-Whole (on_execve c f a none) m s = refl
invoke-Whole (on_execve c f a (some r)) m s =
    let filename = c.user_str 256 f r.body.filename in
    let argv = c.user_str 64 a r.body.argv in
    header_bytes-Whole _ (filename ++ argv) s.0.comm (
      omega (
        arith,
        length-append filename argv,
        s.0.within 256 f r.body.filename,
        s.0.within 64 a r.body.argv,
        s.1.0,
        s.1.1,
      ))
invoke-Whole (on_execve_exit c) m s = refl
invoke-Whole (on_openat c f flags none) m s = refl
invoke-Whole (on_openat c f flags (some r)) m s =
    if_cases (λ (q : Result). Whole q.sample) (is_some (lookup (pid_of c) m.blocklist)) _ _
      (λ _. refl)
      (λ _.
        file_sample-Whole _ (c.user_str 256 f r.body.filename) flags r.body.rest s.0.comm
          (s.0.within 256 f r.body.filename ∙ s.1.0) s.1.1)
invoke-Whole (on_clone c none) m s = refl
invoke-Whole (on_clone c (some r)) m s = header_bytes-Whole _ r.body s.0.comm s.1
invoke-Whole (on_exit c) m s = refl
invoke-Whole (on_tcp_connect c sk fd none) m s = refl
invoke-Whole (on_tcp_connect c sk fd (some r)) m s =
    let ip = length-write_ip sk.daddr r.body.net.ip s.1.ip in
    if_cases (λ (q : Result). Whole q.sample) (to_bad_port sk) _ _
      (λ _. net_sample-Whole _ _ r.body.rest s.0.comm ip s.1.small_gap s.1.rest)
      (λ _. net_sample-Whole _ _ r.body.rest s.0.comm ip s.1.small_gap s.1.rest)
invoke-Whole (on_udp_send c sk size none) m s = refl
invoke-Whole (on_udp_send c sk size (some r)) m s =
    let ip = length-write_ip sk.daddr r.body.net.ip s.1.ip in
    if_cases (λ (q : Result). Whole q.sample) (not (ntohs sk.dport == 53)) _ _ (λ _. refl)
      (λ _.
        if_cases (λ (q : Result). Whole q.sample) (ltb 512 size) _ _
          (λ _. net_sample-Whole _ _ r.body.rest s.0.comm ip s.1.small_gap s.1.rest)
          (λ _. net_sample-Whole _ _ r.body.rest s.0.comm ip s.1.small_gap s.1.rest))
invoke-Whole (on_mmap c prot none) m s = refl
invoke-Whole (on_mmap c prot (some r)) m s =
    if_cases (λ (q : Result). Whole q.sample) (prot / 4 % 2 == 1) _ _
      (λ _. header_bytes-Whole _ r.body s.0.comm s.1) (λ _. refl)
invoke-Whole (on_ptrace c target none) m s = refl
invoke-Whole (on_ptrace c target (some r)) m s =
    if_cases (λ (q : Result). Whole q.sample) (target % 2 ^ 32 == r.header.ppid % 2 ^ 32) _ _
      (λ _. header_bytes-Whole _ r.body s.0.comm s.1)
      (λ _. header_bytes-Whole _ r.body s.0.comm s.1)
