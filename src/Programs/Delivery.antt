-- ===== src/Programs/Delivery.antt =====
-- From the programs of bpf/beacon_guard.bpf.c through the ring buffer to the loader: what `parseEvent`
-- and the engine make of what the kernel saw.
use mathlib.Core.Path.{subst}
use beacon_guard.Prelude.{
  ℕ, ◌+◌, ◌*◌, ◌/◌, ◌%◌, ◌^◌, ◌<◌, ◌≤◌, ◌≡◌, refl, sym, Bool, true, List, [], ◌∷◌, map, Option,
  none, some, Bytes, arith, length,
}
use beacon_guard.Config.{Config}
use beacon_guard.Event.{Event, ok, str, num, dotted, parse_event}
use beacon_guard.Event.Layout.{Header, Net, net_bytes, net_sample, IsText}
use beacon_guard.Event.Kernel.{header_event, net_sample-parsed}
use beacon_guard.Float.{Float64}
use beacon_guard.Engine.Scores.{score_of}
use beacon_guard.Processor.{Processor, Input, round, run}
use beacon_guard.Processor.Response.{AllWhole, run_whole}
use beacon_guard.Processor.Scores.{marked_round}
use beacon_guard.Programs.{Invocation, invoke, run_programs, add_sample}
use beacon_guard.Programs.Tables.{Maps}
use beacon_guard.Programs.Memory.{Call, pid_of, Reserved, NetBody}
use beacon_guard.Programs.Network.{Sock, ntohs, write_ip, to_bad_port, tcp_connect}
use beacon_guard.Programs.Samples.{IsSized, Whole, invoke-Whole, length-header_bytes}

-- All calls have members of the right sizes.
abbrev pub AllSized : List Invocation → Type 0
AllSized [] = Unit {0}
AllSized (i ∷ more) = IsSized i × AllSized more

abbrev AllLong : List Bytes → Type 0
AllLong [] = Unit {0}
AllLong (raw ∷ more) = (length raw ≡ 360) × AllLong more

add_sample-AllLong :
    (o : Option Bytes) (samples : List Bytes)
    → Whole o
    → AllLong samples
    → AllLong (add_sample o samples)
add_sample-AllLong none samples h k = k
add_sample-AllLong (some raw) samples h k = (h, k)

run_programs-AllLong :
    (calls : List Invocation) (m : Maps) → AllSized calls → AllLong (run_programs calls m).0
unfolding run_programs
run_programs-AllLong [] m h = tt
run_programs-AllLong (i ∷ more) m h =
    add_sample-AllLong (invoke i m).sample _ (invoke-Whole i m h.0)
      (run_programs-AllLong more (invoke i m).maps h.1)

abbrev pub samples_of : List (Config × Input) → List (Option Bytes)
samples_of [] = []
samples_of ((config, i) ∷ more) = i.sample ∷ samples_of more

inputs-AllWhole :
    (inputs : List (Config × Input)) (samples : List Bytes)
    → samples_of inputs ≡ map some samples
    → AllLong samples
    → AllWhole inputs
inputs-AllWhole [] samples e h = tt
inputs-AllWhole ((config, i) ∷ more) [] e h = cc
inputs-AllWhole ((config, i) ∷ more) (raw ∷ samples) e h =
    let own : i.sample ≡ some raw = cc in
    let rest : samples_of more ≡ map some samples = cc in
    (rw own (omega (arith, h.0)), inputs-AllWhole more samples rest h.1)

module _ {F : Type 0} (fl : Float64 F) (found : ℕ → Bool) where
  -- The loader processes whatever the kernel programs send, without a panic: for any calls of the
  -- programs, on maps of any content, a run over inputs that carry the samples of those calls, in
  -- order, comes to its end. The struct's members have their sizes, and the helper that copies a
  -- user's string stays within the size it is given.
  pub programs_processed :
      (calls : List Invocation) (m : Maps) (inputs : List (Config × Input)) (w : Processor F)
      → AllSized calls
      → samples_of inputs ≡ map some (run_programs calls m).0
      → (w' : Processor F) × (run fl found inputs w ≡ ok w')
  programs_processed calls m inputs w h e =
      run_whole fl found inputs w
        (inputs-AllWhole inputs (run_programs calls m).0 e (run_programs-AllLong calls m h))

abbrev pub marked_header : Call → Reserved NetBody → Header
marked_header c r = record r.header { pid = pid_of c; ret = 1; kind = 3; comm = c.comm }

abbrev pub marked_net : Sock → ℕ → Reserved NetBody → Net
marked_net sk fd r = record r.body.net {
  domain = 2;
  sock_fd = fd;
  port = ntohs sk.dport;
  ip = write_ip sk.daddr r.body.net.ip;
}

abbrev pub marked_sample : Call → Sock → ℕ → Reserved NetBody → Bytes
marked_sample c sk fd r = net_sample (marked_header c r) (marked_net sk fd r) r.body.rest

-- The event that the parser makes of a connection to a bad port outside: the port, the address and the
-- domain are what an older sample left in the ring buffer.
abbrev pub marked_event : Call → ℕ → Reserved NetBody → Bytes → Event
marked_event c fd r comm =
    let n = r.body.net in
    header_event (marked_header c r) 3 comm (
      ("sock_fd", num (fd % 2 ^ 32))
      ∷ ("port", num (n.gap0 + 256 * n.gap1))
      ∷ ("ip", str (dotted n.gap2 n.gap3 (n.sa % 256) (n.sa / 256 % 256)))
      ∷ ("domain", num (n.sa / 65536 % 2 ^ 32))
      ∷ [])

tcp_connect-marked :
    (c : Call) (sk : Sock) (fd : ℕ) (r : Reserved NetBody) (m : Maps)
    → to_bad_port sk ≡ true
    → (tcp_connect c sk fd (some r) m).sample ≡ some (marked_sample c sk fd r)
unfolding tcp_connect
tcp_connect-marked c sk fd r m bad = rw bad refl

module _ {F : Type 0} (fl : Float64 F) (found : ℕ → Bool) where
  -- A connection to a bad port outside is seen end to end, whatever the reserved memory held before:
  -- the kernel program sends a sample, the loader parses it to an event of the process with the result 1, and
  -- its round raises the suspicion score of the process by 20 at least, in learning mode too. The port and
  -- the address of the event are those that an older sample left, not those of the connection. The process
  -- name is a NUL-terminated text, and the score stays within 64 bits.
  pub connect_watched :
      (c : Call) (sk : Sock) (fd : ℕ) (r : Reserved NetBody) (m : Maps) (comm : Bytes)
      (config : Config) (i : Input) (w : Processor F)
      → IsText 16 c.comm comm
      → to_bad_port sk ≡ true
      → score_of (pid_of c) w.engine + 120 < 2 ^ 64
      → (raw : Bytes) × ((tcp_connect c sk fd (some r) m).sample ≡ some raw)
        × (parse_event raw ≡ ok (some (marked_event c fd r comm)))
        × (w' : Processor F) × (round fl found config i (some raw) w ≡ ok w')
        × (score_of (pid_of c) w.engine + 20 ≤ score_of (pid_of c) w'.engine)
  connect_watched c sk fd r m comm config i w named bad h =
      let raw = marked_sample c sk fd r in
      let parsed : parse_event raw ≡ ok (some (marked_event c fd r comm)) =
        net_sample-parsed (marked_header c r) comm named (marked_net sk fd r) r.body.rest in
      let pid : pid_of c % 2 ^ 32 ≡ pid_of c = omega arith in
      let long : 0 < length raw = omega (
        arith,
        length-header_bytes (marked_header c r) (net_bytes (marked_net sk fd r) r.body.rest),
      ) in
      let (w', ran, grown) =
        marked_round fl found config i raw (marked_event c fd r comm) w long parsed refl refl
          (subst (λ k. score_of k w.engine + 120 < 2 ^ 64) (sym pid) h) in
      (
        raw,
        tcp_connect-marked c sk fd r m bad,
        parsed,
        w',
        ran,
        subst (λ k. score_of k w.engine + 20 ≤ score_of k w'.engine) pid grown,
      )
