-- ===== src/Loader.antt =====
-- loader/main.go: the start of the program. What the eBPF library, the operating system and the path
-- functions answer is the parameter `Env`. Logging is not modelled.
pub mod Hooks
pub mod Startup
pub mod Effects
pub mod Shutdown
use beacon_guard.Prelude.{
  ℕ, Bool, true, false, not, List, [], ◌∷◌, ◌++◌, Option, none, some, String, Bytes, length, ◌==◌,
  if◌then◌else◌,
}
use text.Mathlib.Text.{◌==◌ as str_eq}
use beacon_guard.Config.{
  Config, Fields, FileRead, LoadResult, loaded, read_failed, bad_json, load_config,
}

pub data HookKind : Type 0 where
  tracepoint kprobe : HookKind

-- `attach`.
pub record Attach : Type 0 where
  pub name : String
  pub kind : HookKind
  pub category : String
  pub event : String

abbrev hook : String → HookKind → String → String → Attach
hook name kind category event = record {
  name = name;
  kind = kind;
  category = category;
  event = event;
}

-- `attachments`.
abbrev pub attachments : List Attach
attachments =
    hook "tracepoint_execve" tracepoint "syscalls" "sys_enter_execve"
    ∷ hook "tracepoint_execve_exit" tracepoint "syscalls" "sys_exit_execve"
    ∷ hook "tracepoint_openat" tracepoint "syscalls" "sys_enter_openat"
    ∷ hook "tracepoint_clone" tracepoint "syscalls" "sys_enter_clone"
    ∷ hook "tracepoint_exit" tracepoint "syscalls" "sys_exit_exit_group"
    ∷ hook "kprobe_tcp_connect" kprobe "" "tcp_v4_connect"
    ∷ hook "kprobe_udp_send" kprobe "" "udp_sendmsg"
    ∷ hook "kprobe_mmap_exec" kprobe "" "vm_mmap_pgoff"
    ∷ hook "kprobe_ptrace" kprobe "" "security_ptrace_access_check"
    ∷ []

-- `coll.Programs` and `coll.Maps`, asked by name.
pub record Collection : Type 0 where
  pub has_program : String → Bool
  pub has_map : String → Bool

pub record Env : Type 0 where
  pub executable : Option String  -- os.Executable
  pub dir : String → String  -- filepath.Dir
  pub join : String → List String → String  -- filepath.Join
  pub read_file : String → FileRead  -- os.ReadFile
  pub decode : Bytes → Option Fields  -- json.Unmarshal
  pub memlock : Bool  -- rlimit.RemoveMemlock succeeds
  pub load_spec : String → Option ℕ  -- ebpf.LoadCollectionSpec, by a handle
  pub new_collection : ℕ → Option Collection  -- ebpf.NewCollection
  pub link_tracepoint : String → String → String → Bool  -- link.Tracepoint succeeds
  pub link_kprobe : String → String → Bool  -- link.Kprobe succeeds

pub record Flags : Type 0 where
  pub config_path : String
  pub bpf_dir : String
  pub show_version : Bool

pub data Fatal : Type 0 where
  bad_config memlock_failed bad_spec bad_collection nothing_attached no_events_map : Fatal

-- How `main` gets: the version is printed, `log.Fatalf`, or the goroutines are started, with the
-- configuration and the names of the linked programs.
pub data Start : Type 0 where
  version_shown : Start
  fatal : Fatal → Start
  running : Config → List String → Start

module _ (env : Env) where
  unfoldable pub default_dir : Option String → String
  default_dir (some exe) = env.join (env.dir exe) (".." ∷ "bpf" ∷ [])
  default_dir none = "bpf"

  unfoldable pub bpf_dir : Flags → String
  unfolding default_dir
  bpf_dir flags = if str_eq flags.bpf_dir "" then default_dir env.executable else flags.bpf_dir

  unfoldable pub link_by : HookKind → Attach → Bool
  link_by tracepoint a = env.link_tracepoint a.category a.event a.name
  link_by kprobe a = env.link_kprobe a.event a.name

  unfoldable pub links : Attach → Bool
  unfolding link_by
  links a = link_by a.kind a

  -- The loop over `attachments`: a program that is missing or does not attach is skipped.
  unfoldable pub attach_all : Collection → List Attach → List String
  attach_all coll [] = []
  attach_all coll (a ∷ rest) =
      let linked = attach_all coll rest in
      if not (coll.has_program a.name) then linked else if links a then a.name ∷ linked else linked

  unfoldable pub finish_start : Config → Collection → List String → Start
  finish_start config coll linked =
      if length linked == 0
      then fatal nothing_attached
      else if coll.has_map "events"
      then running config linked
      else fatal no_events_map

  unfoldable pub with_collection : Config → Option Collection → Start
  unfolding finish_start
  with_collection config none = fatal bad_collection
  with_collection config (some coll) = finish_start config coll (attach_all coll attachments)

  unfoldable pub with_spec : Config → Option ℕ → Start
  unfolding with_collection
  with_spec config none = fatal bad_spec
  with_spec config (some spec) = with_collection config (env.new_collection spec)

  unfoldable pub with_config : Flags → LoadResult → Start
  unfolding with_spec
  with_config flags read_failed = fatal bad_config
  with_config flags bad_json = fatal bad_config
  with_config flags (loaded config) =
      if not env.memlock
      then fatal memlock_failed
      else with_spec config (env.load_spec (env.join (bpf_dir flags) ("beacon_guard.bpf.o" ∷ [])))

  -- `main`, up to the wait for a signal.
  unfoldable pub start : Flags → Start
  unfolding with_config
  start flags =
      if flags.show_version
      then version_shown
      else with_config flags (load_config env.decode (env.read_file flags.config_path))
