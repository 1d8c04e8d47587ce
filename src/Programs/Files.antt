-- ===== src/Programs/Files.antt =====
-- bpf/beacon_guard.bpf.c: the programs that watch execve and openat.
use beacon_guard.Prelude.{
  ℕ, ◌/◌, ◌%◌, ◌^◌, Bool, Option, none, some, lookup, is_some, ◌==◌, if◌then◌else◌,
}
use beacon_guard.Event.Layout.{Header, exec_sample, file_sample}
use beacon_guard.Programs.Tables.{Maps, update, add_suspicion}
use beacon_guard.Programs.Memory.{
  Call, pid_of, tid_of, Reserved, ExecBody, FileBody, Result, quiet, submit,
}

unfoldable pub execve : Call → ℕ → ℕ → Option (Reserved ExecBody) → Maps → Result
execve c filename argv none m = quiet m
execve c filename argv (some r) m =
    let header : Header = record r.header {
      pid = pid_of c;
      ppid = tid_of c;
      uid = c.uid_gid % 2 ^ 32;
      kind = 1;
      comm = c.comm;
    } in
    submit
      (exec_sample header (c.user_str 256 filename r.body.filename)
        (c.user_str 64 argv r.body.argv))
      m

abbrev pub reset : ℕ → Maps → Option ℕ → Option ℕ → Maps
reset pid m none profile = m
reset pid m (some score) none = m
reset pid m (some score) (some profile) =
    if profile % 2 == 1 then record m { suspicion = update pid 0 m.suspicion } else m

unfoldable pub execve_exit : Call → Maps → Result
unfolding update
execve_exit c m =
    let pid = pid_of c in quiet (reset pid m (lookup pid m.suspicion) (lookup pid m.profiles))

-- `flags & MAY_WRITE`.
abbrev pub may_write : ℕ → Bool
may_write flags = flags / 2 % 2 == 1

unfoldable pub openat : Call → ℕ → ℕ → Option (Reserved FileBody) → Maps → Result
unfolding add_suspicion
openat c filename flags none m = quiet m
openat c filename flags (some r) m =
    let header : Header = record r.header { pid = pid_of c; kind = 2; comm = c.comm } in
    let path = c.user_str 256 filename r.body.filename in
    let sample = file_sample header path flags r.body.rest in
    let m' = add_suspicion 10 (pid_of c) m in
    if is_some (lookup (pid_of c) m.blocklist)
    then record { returned = 1; sample = none; maps = m }
    else submit sample (if may_write flags then m' else m)
