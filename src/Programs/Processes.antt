-- ===== src/Programs/Processes.antt =====
-- bpf/beacon_guard.bpf.c: the programs that follow processes, executable memory and ptrace.
use beacon_guard.Prelude.{
  ℕ, ◌+◌, ◌*◌, ◌/◌, ◌%◌, ◌^◌, Option, none, some, Bytes, ◌==◌, if◌then◌else◌,
}
use mathlib.Core.Option
use beacon_guard.Event.Layout.{Header, header_bytes}
use beacon_guard.Programs.Tables.{ProcInfo, Maps, update, delete, add_suspicion}
use beacon_guard.Programs.Memory.{Call, pid_of, tid_of, Reserved, Result, quiet, submit}

-- The bytes of `struct proc_key`.
abbrev pub proc_key : Call → ℕ
proc_key c = pid_of c + 2 ^ 32 * tid_of c

abbrev fork_sample : Call → Reserved Bytes → Bytes
fork_sample c r =
    header_bytes (record r.header { pid = pid_of c; kind = 6; ppid = tid_of c; comm = c.comm })
      r.body

unfoldable pub clone : Call → Option (Reserved Bytes) → Maps → Result
unfolding update
clone c r m =
    let info : ProcInfo = record { ppid = tid_of c; start_time = c.time; comm = c.comm } in
    record {
      returned = 0;
      sample = Option.map (fork_sample c) r;
      maps = record m { procs = update (proc_key c) info m.procs };
    }

unfoldable pub exit_group : Call → Maps → Result
unfolding delete
exit_group c m = quiet (record m { procs = delete (proc_key c) m.procs })

-- `kprobe_mmap_exec`; `prot` is the third argument of the probed function.
unfoldable pub mmap_exec : Call → ℕ → Option (Reserved Bytes) → Maps → Result
unfolding add_suspicion
mmap_exec c prot none m = quiet m
mmap_exec c prot (some r) m =
    let header : Header = record r.header { pid = pid_of c; kind = 5; comm = c.comm } in
    let m' = add_suspicion 20 (pid_of c) m in
    if prot / 4 % 2 == 1 then submit (header_bytes header r.body) m' else quiet m

-- `kprobe_ptrace`: the target is compared with the `ppid` that the reserved memory holds.
unfoldable pub ptrace : Call → ℕ → Option (Reserved Bytes) → Maps → Result
unfolding add_suspicion
ptrace c target none m = quiet m
ptrace c target (some r) m =
    let header : Header = record r.header { pid = pid_of c; kind = 8; comm = c.comm } in
    let m' = add_suspicion 50 (pid_of c) m in
    if target % 2 ^ 32 == r.header.ppid % 2 ^ 32
    then submit (header_bytes header r.body) m
    else submit (header_bytes (record header { ret = target }) r.body) m'
