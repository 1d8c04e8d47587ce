-- ===== src/Programs.antt =====
-- bpf/beacon_guard.bpf.c: the programs that run in the kernel, as functions on the maps that they
-- share, and their calls one after the other.
pub mod Tables
pub mod Memory
pub mod Files
pub mod Network
pub mod Processes
pub mod Suspicion
pub mod Samples
pub mod Delivery
use beacon_guard.Prelude.{
  ℕ, ◌+◌, ◌*◌, ◌/◌, ◌%◌, ◌^◌, Bool, true, false, not, ◌&&◌, ◌||◌, List, [], ◌∷◌, ◌++◌, Option, none,
  some, Bytes, drop, take, length, ltb, leb, lookup, insert, is_some, ◌==◌, if◌then◌else◌,
}
use Tables.{Maps}
use Memory.{Call, Reserved, ExecBody, FileBody, NetBody, Result}
use Files.{execve, execve_exit, openat}
use Network.{Sock, tcp_connect, udp_send}
use Processes.{clone, exit_group, mmap_exec, ptrace}

-- A call of one of the nine programs, with what it is called with.
pub data Invocation : Type 0 where
  on_execve : Call → ℕ → ℕ → Option (Reserved ExecBody) → Invocation
  on_execve_exit : Call → Invocation
  on_openat : Call → ℕ → ℕ → Option (Reserved FileBody) → Invocation
  on_clone : Call → Option (Reserved Bytes) → Invocation
  on_exit : Call → Invocation
  on_tcp_connect : Call → Sock → ℕ → Option (Reserved NetBody) → Invocation
  on_udp_send : Call → Sock → ℕ → Option (Reserved NetBody) → Invocation
  on_mmap : Call → ℕ → Option (Reserved Bytes) → Invocation
  on_ptrace : Call → ℕ → Option (Reserved Bytes) → Invocation

unfoldable pub invoke : Invocation → Maps → Result
unfolding execve execve_exit openat clone exit_group tcp_connect udp_send mmap_exec ptrace
invoke (on_execve c filename argv r) m = execve c filename argv r m
invoke (on_execve_exit c) m = execve_exit c m
invoke (on_openat c filename flags r) m = openat c filename flags r m
invoke (on_clone c r) m = clone c r m
invoke (on_exit c) m = exit_group c m
invoke (on_tcp_connect c sk fd r) m = tcp_connect c sk fd r m
invoke (on_udp_send c sk size r) m = udp_send c sk size r m
invoke (on_mmap c prot r) m = mmap_exec c prot r m
invoke (on_ptrace c target r) m = ptrace c target r m

abbrev pub add_sample : Option Bytes → List Bytes → List Bytes
add_sample none samples = samples
add_sample (some bytes) samples = bytes ∷ samples

-- The samples that a list of calls sends, and the maps after them.
unfoldable pub run_programs : List Invocation → Maps → List Bytes × Maps
unfolding invoke
run_programs [] m = ([], m)
run_programs (i ∷ rest) m =
    let result = invoke i m in
    let (samples, m') = run_programs rest result.maps in (add_sample result.sample samples, m')
