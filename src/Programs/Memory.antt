-- ===== src/Programs/Memory.antt =====
-- What a program of bpf/beacon_guard.bpf.c is called with, and how it ends. The ring buffer hands out
-- memory as an older sample left it. What the kernel's helpers read is an argument.
use beacon_guard.Prelude.{ℕ, ◌/◌, ◌%◌, ◌^◌, Option, none, some, Bytes}
use beacon_guard.Event.Layout.{Header, Net}
use beacon_guard.Programs.Tables.{Maps}

-- What the helpers answer in one call of a program.
pub record Call : Type 0 where
  pub pid_tgid : ℕ  -- bpf_get_current_pid_tgid
  pub uid_gid : ℕ  -- bpf_get_current_uid_gid
  pub comm : Bytes  -- bpf_get_current_comm
  pub time : ℕ  -- bpf_ktime_get_ns
  pub user_str : ℕ → ℕ → Bytes → Bytes  -- bpf_core_read_user_str, by size, address and old text

abbrev pub pid_of : Call → ℕ
pid_of c = c.pid_tgid / 2 ^ 32 % 2 ^ 32

abbrev pub tid_of : Call → ℕ
tid_of c = c.pid_tgid % 2 ^ 32

-- Reserved memory, with the union as `U`.
pub record Reserved (U : Type 0) : Type 0 where
  pub header : Header
  pub body : U

pub record ExecBody : Type 0 where
  pub filename : Bytes
  pub argv : Bytes

pub record FileBody : Type 0 where
  pub filename : Bytes
  pub flags : ℕ
  pub rest : Bytes

pub record NetBody : Type 0 where
  pub net : Net
  pub rest : Bytes

-- How a program ends: what it returns, the sample that it submits, and the maps.
pub record Result : Type 0 where
  pub returned : ℕ
  pub sample : Option Bytes
  pub maps : Maps

abbrev pub quiet : Maps → Result
quiet m = record { returned = 0; sample = none; maps = m }

abbrev pub submit : Bytes → Maps → Result
submit bytes m = record { returned = 0; sample = some bytes; maps = m }
