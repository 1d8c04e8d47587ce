-- ===== src/Tests/Programs.antt =====
-- Calls of the kernel programs, from their maps to the loader.
use beacon_guard.Prelude.{
  ℕ, ◌+◌, ◌*◌, ◌^◌, ◌%◌, ◌≤◌, ◌<◌, ◌≡◌, refl, true, ap, List, [], ◌∷◌, map, none, some, Bytes,
  arith, lookup, replicate,
}
use beacon_guard.Event.{ok, str, num, dotted, parse_event}
use beacon_guard.Event.Layout.{Header, IsText}
use beacon_guard.Config.{Config}
use beacon_guard.Engine.{new_engine}
use beacon_guard.Engine.Scores.{score_of}
use beacon_guard.Processor.{Processor, Input, round, run, new_processor}
use beacon_guard.Programs.{Invocation, on_openat, on_tcp_connect, on_ptrace, on_mmap, run_programs}
use beacon_guard.Programs.Tables.{no_maps}
use beacon_guard.Programs.Memory.{Call, Reserved, FileBody, NetBody}
use beacon_guard.Programs.Network.{
  Sock, is_internal_ip, is_known_bad_port, to_bad_port, tcp_connect,
}
use beacon_guard.Programs.Suspicion.{score_in, share, shares, run_new-score}
use beacon_guard.Programs.Samples.{Sized, SizedNet}
use beacon_guard.Programs.Delivery.{
  AllSized, samples_of, programs_processed, marked_event, connect_watched,
}
use beacon_guard.Tests.Samples.{whole, enforcing, input, everywhere}

-- Thread 301 of process 300, "sh".
abbrev shell_call : Call
shell_call = record {
  pid_tgid = 300 * 2 ^ 32 + 301;
  uid_gid = 0;
  comm = b's' ∷ b'h' ∷ 0 ∷ replicate 13 0;
  time = 5;
  user_str = λ size address old. old;
}

-- Memory that a sample of process 9 has left.
abbrev old_header : Header
old_header = record {
  pid = 9;
  ppid = 4;
  uid = 0;
  gid = 0;
  ret = 7;
  kind = 8;
  comm = replicate 16 65;
}

abbrev old_net : NetBody
old_net = record {
  net = record {
    sock_fd = 0;
    gap0 = 92;
    gap1 = 17;
    gap2 = 1;
    gap3 = 2;
    sa = 0;
    port = 0;
    ip = replicate 40 0;
    small_gap = 0 ∷ 0 ∷ [];
    domain = 0;
    type_proto = 0;
  };
  rest = replicate 252 0;
}

abbrev old_file : FileBody
old_file = record { filename = replicate 256 0; flags = 0; rest = replicate 60 0 }

-- 203.0.113.7:31337, as the network writes it.
abbrev outside : Sock
outside = record { dport = 27002; daddr = 203 + 256 * (113 * 256) + 2 ^ 24 * 7 }

abbrev net_memory : Reserved NetBody
net_memory = record { header = old_header; body = old_net }

abbrev union_memory : Reserved Bytes
union_memory = record { header = old_header; body = replicate 320 0 }

abbrev some_calls : List Invocation
some_calls =
    on_openat shell_call 0 2 (some (record { header = old_header; body = old_file }))
    ∷ on_tcp_connect shell_call outside 3 (some net_memory)
    ∷ on_mmap shell_call 5 (some union_memory)
    ∷ on_ptrace shell_call 4 (some union_memory)
    ∷ on_ptrace shell_call 5 (some union_memory)
    ∷ on_ptrace shell_call 5 none
    ∷ []

run_new-score_example :
    score_in 300 (run_programs some_calls no_maps).1.suspicion ≡ shares 300 some_calls % 2 ^ 32
run_new-score_example = run_new-score 300 some_calls (omega arith)

-- 10 for the file, 60 for the connection, 20 for the memory, 50 for the second ptrace: the target of the
-- first is the old parent, and the last gets no memory.
shares_lem : shares 300 some_calls ≡ 140
unfolding shares share is_internal_ip is_known_bad_port
shares_lem = refl

call-Sized : Sized shell_call
call-Sized = record { comm = refl; within = λ size address old. refl }

net-Sized : SizedNet old_net
net-Sized = record { ip = refl; small_gap = refl; rest = refl }

some-AllSized : AllSized some_calls
some-AllSized = (
  (call-Sized, (refl, refl)),
  (
    (call-Sized, net-Sized),
    ((call-Sized, refl), ((call-Sized, refl), ((call-Sized, refl), (tt, tt)))),
  ),
)

abbrev fed : List Bytes → List (Config × Input)
fed [] = []
fed (raw ∷ more) = (enforcing, input raw) ∷ fed more

samples_of-fed : (samples : List Bytes) → samples_of (fed samples) ≡ map some samples
samples_of-fed [] = refl
samples_of-fed (raw ∷ more) = ap (λ r. some raw ∷ r) (samples_of-fed more)

programs_processed_example :
    (w' : Processor ℕ) × (run whole everywhere
        (fed (run_programs some_calls no_maps).0)
        (new_processor whole everywhere 0 1)
      ≡ ok w')
programs_processed_example =
    programs_processed whole everywhere some_calls no_maps (fed (run_programs some_calls no_maps).0)
      (new_processor whole everywhere 0 1) some-AllSized
      (samples_of-fed (run_programs some_calls no_maps).0)

shell-IsText : IsText 16 shell_call.comm (b's' ∷ b'h' ∷ [])
shell-IsText = record {
  junk = replicate 13 0;
  shape = refl;
  size = refl;
  clean = (omega arith, (omega arith, tt));
}

outside_bad : to_bad_port outside ≡ true
unfolding is_internal_ip is_known_bad_port
outside_bad = refl

new_score : score_of 300 (new_processor whole everywhere 0 1).engine + 120 < 2 ^ 64
unfolding new_processor new_engine lookup
new_score = omega arith

connect_watched_example :
    (raw : Bytes) × ((tcp_connect shell_call outside 3 (some net_memory) no_maps).sample ≡ some raw)
    × (parse_event raw ≡ ok (some (marked_event shell_call 3 net_memory (b's' ∷ b'h' ∷ []))))
    × (w' : Processor ℕ) × (round whole everywhere enforcing
          (input [])
          (some raw)
          (new_processor whole everywhere 0 1)
        ≡ ok w')
    × (score_of 300 (new_processor whole everywhere 0 1).engine + 20 ≤ score_of 300 w'.engine)
connect_watched_example =
    connect_watched whole everywhere shell_call outside 3 net_memory no_maps (b's' ∷ b'h' ∷ [])
      enforcing (input []) (new_processor whole everywhere 0 1) shell-IsText outside_bad new_score

-- The connection to port 31337 is reported as one to port 4444, by what lay in the memory.
reported_port :
    (marked_event shell_call 3 net_memory (b's' ∷ b'h' ∷ [])).payload
    ≡ ("sock_fd", num 3)
      ∷ ("port", num 4444)
      ∷ ("ip", str (dotted 1 2 0 0))
      ∷ ("domain", num 0)
      ∷ []
reported_port = refl
