-- ===== src/Tests/Kernel.antt =====
-- Samples that the kernel programs send.
use beacon_guard.Prelude.{◌≡◌, refl, [], ◌∷◌, ◌++◌, some, arith, replicate, Bytes}
use beacon_guard.Event.{ok, str, num, dotted, parse_event}
use beacon_guard.Event.Layout.{Header, Net, exec_sample, file_sample, net_sample, IsText}
use beacon_guard.Event.Kernel.{
  header_event, exec_sample-parsed, file_sample-parsed, net_sample-parsed,
}

abbrev shell : Bytes
shell = b's' ∷ b'h' ∷ []

abbrev comm_buffer : Bytes
comm_buffer = shell ++ 0 ∷ replicate 13 0

-- A buffer with bytes of an older sample behind the text.
abbrev path_buffer : Bytes
path_buffer = shell ++ 0 ∷ replicate 253 7

abbrev args_buffer : Bytes
args_buffer = 0 ∷ replicate 63 0

comm-IsText : IsText 16 comm_buffer shell
comm-IsText = record {
  junk = replicate 13 0;
  shape = refl;
  size = refl;
  clean = (omega arith, (omega arith, tt));
}

path-IsText : IsText 256 path_buffer shell
path-IsText = record {
  junk = replicate 253 7;
  shape = refl;
  size = refl;
  clean = (omega arith, (omega arith, tt));
}

args-IsText : IsText 64 args_buffer []
args-IsText = record { junk = replicate 63 0; shape = refl; size = refl; clean = tt }

abbrev header : Header
header = record { pid = 300; ppid = 1; uid = 0; gid = 0; ret = 0; kind = 1; comm = comm_buffer }

-- A connection to 10.0.0.1:4444, over a gap of zeros.
abbrev to_c2 : Net
to_c2 = record {
  sock_fd = 5;
  gap0 = 0;
  gap1 = 0;
  gap2 = 0;
  gap3 = 0;
  sa = 0;
  port = 4444;
  ip = 10 ∷ 0 ∷ 0 ∷ 1 ∷ replicate 36 0;
  small_gap = 0 ∷ 0 ∷ [];
  domain = 2;
  type_proto = 0;
}

exec_sample-parsed_example :
    parse_event (exec_sample header path_buffer args_buffer)
    ≡ ok (some (header_event header 1 shell (("filename", str shell) ∷ ("argv", str []) ∷ [])))
exec_sample-parsed_example =
    exec_sample-parsed header shell comm-IsText path_buffer shell args_buffer [] path-IsText
      args-IsText

file_sample-parsed_example :
    parse_event (file_sample header path_buffer 577 (replicate 60 0))
    ≡ ok (some (header_event header 2 shell (("filename", str shell) ∷ ("flags", num 577) ∷ [])))
file_sample-parsed_example =
    file_sample-parsed header shell comm-IsText path_buffer shell 577 (replicate 60 0) path-IsText

net_sample-parsed_example :
    parse_event (net_sample header to_c2 (replicate 252 0))
    ≡ ok (
        some (
          header_event header 3 shell (
            ("sock_fd", num 5)
            ∷ ("port", num 0)
            ∷ ("ip", str (dotted 0 0 0 0))
            ∷ ("domain", num 0)
            ∷ [])))
net_sample-parsed_example = net_sample-parsed header shell comm-IsText to_c2 (replicate 252 0)
