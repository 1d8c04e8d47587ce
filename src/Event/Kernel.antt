-- ===== src/Event/Kernel.antt =====
-- What `parseEvent` (loader/event_processor.go) makes of the samples that the kernel programs send.
use beacon_guard.Prelude.{
  ℕ, ◌+◌, ◌*◌, ◌/◌, ◌%◌, ◌^◌, ◌≡◌, ap, ◌∙◌, [], ◌∷◌, ◌++◌, some, arith, take, drop, length-append,
  take_all, Bytes,
}
use beacon_guard.Event.{Event, ok, str, num, Data, parse_event, c_str_to_string, dotted}
use beacon_guard.Event.Fields.{le_value}
use beacon_guard.Event.Parse.{parse_event-long}
use beacon_guard.Event.Layout.{
  Header, Net, le_bytes, header_bytes, net_bytes, exec_sample, file_sample, net_sample, IsText,
  c_str_to_string-text, le_value-le_bytes, take-chunk, drop-chunk,
}

-- An event with the header's numbers, each as 32 bits.
abbrev pub header_event : Header → ℕ → Bytes → Data → Event
header_event h kind comm payload = record {
  pid = h.pid % 2 ^ 32;
  ppid = h.ppid % 2 ^ 32;
  uid = h.uid % 2 ^ 32;
  gid = h.gid % 2 ^ 32;
  ret = h.ret % 2 ^ 32;
  kind = kind;
  comm = comm;
  payload = payload;
}

module _ (h : Header) (comm : Bytes) (named : IsText 16 h.comm comm) where
  comm-read : (rest : Bytes) → c_str_to_string (take 16 (h.comm ++ rest)) ≡ comm
  comm-read rest =
      ap c_str_to_string (take-chunk 16 h.comm rest named.size) ∙ c_str_to_string-text named

  filename-read :
      (buffer filename rest : Bytes)
      → IsText 256 buffer filename
      → c_str_to_string (take 256 (drop 16 (h.comm ++ (buffer ++ rest)))) ≡ filename
  filename-read buffer filename rest t =
      ap (λ bs. c_str_to_string (take 256 bs)) (drop-chunk 16 0 h.comm (buffer ++ rest) named.size)
      ∙ ap c_str_to_string (take-chunk 256 buffer rest t.size)
      ∙ c_str_to_string-text t

  drop-filename :
      (buffer filename rest : Bytes)
      → IsText 256 buffer filename
      → drop 272 (h.comm ++ (buffer ++ rest)) ≡ rest
  drop-filename buffer filename rest t =
      drop-chunk 16 256 h.comm (buffer ++ rest) named.size ∙ drop-chunk 256 0 buffer rest t.size

  -- An EXECVE sample of the kernel is parsed to the texts that its buffers hold, and to its numbers.
  pub exec_sample-parsed :
      (buffer filename args argv : Bytes)
      → IsText 256 buffer filename
      → IsText 64 args argv
      → parse_event (exec_sample h buffer args)
        ≡ ok (some (header_event h 1 comm (("filename", str filename) ∷ ("argv", str argv) ∷ [])))
  unfolding header_bytes le_bytes le_value
  exec_sample-parsed buffer filename args argv f a =
      parse_event-long (exec_sample h buffer args) (
        omega (
          arith,
          length-append h.comm (buffer ++ args),
          length-append buffer args,
          named.size,
          f.size,
          a.size,
        ))
      ∙ λ i. ok (
          some (record {
            pid = le_value-le_bytes h.pid i;
            ppid = le_value-le_bytes h.ppid i;
            uid = le_value-le_bytes h.uid i;
            gid = le_value-le_bytes h.gid i;
            ret = le_value-le_bytes h.ret i;
            kind = 1;
            comm = comm-read (buffer ++ args) i;
            payload =
                ("filename", str (filename-read buffer filename args f i))
                ∷ (
                  "argv",
                  str (
                      (ap (λ bs. c_str_to_string (take 64 bs))
                            (drop-filename buffer filename args f)
                          ∙ ap c_str_to_string (take_all 64 args (omega (arith, a.size)))
                          ∙ c_str_to_string-text a)
                        i),
                )
                ∷ [];
          }))

  -- An OPEN sample is parsed to its file name and flags.
  pub file_sample-parsed :
      (buffer filename : Bytes) (flags : ℕ) (rest : Bytes)
      → IsText 256 buffer filename
      → parse_event (file_sample h buffer flags rest)
        ≡ ok (
            some (
              header_event h 2 comm
                (("filename", str filename) ∷ ("flags", num (flags % 2 ^ 32)) ∷ [])))
  unfolding header_bytes le_bytes le_value
  file_sample-parsed buffer filename flags rest f =
      let tail = le_bytes 4 flags ++ rest in
      parse_event-long (file_sample h buffer flags rest) (
        omega (
          arith,
          length-append h.comm (buffer ++ tail),
          length-append buffer tail,
          named.size,
          f.size,
        ))
      ∙ λ i. ok (
          some (record {
            pid = le_value-le_bytes h.pid i;
            ppid = le_value-le_bytes h.ppid i;
            uid = le_value-le_bytes h.uid i;
            gid = le_value-le_bytes h.gid i;
            ret = le_value-le_bytes h.ret i;
            kind = 2;
            comm = comm-read (buffer ++ tail) i;
            payload =
                ("filename", str (filename-read buffer filename tail f i))
                ∷ (
                  "flags",
                  num (
                      (ap (λ bs. le_value 4 (take 4 bs)) (drop-filename buffer filename tail f)
                          ∙ le_value-le_bytes flags)
                        i),
                )
                ∷ [];
          }))

  drop-comm : (k : ℕ) (rest : Bytes) → drop (16 + k) (h.comm ++ rest) ≡ drop k rest
  drop-comm k rest = drop-chunk 16 k h.comm rest named.size

  -- A CONNECT sample is parsed to its socket, but to a port from the first two bytes of the gap before
  -- `sa`, an address from the other two and the first two bytes of `sa`, and a domain from the
  -- next four bytes of `sa`: the port, the address and the domain of the kernel are not read.
  pub net_sample-parsed :
      (n : Net) (rest : Bytes)
      → parse_event (net_sample h n rest)
        ≡ ok (
            some (
              header_event h 3 comm (
                ("sock_fd", num (n.sock_fd % 2 ^ 32))
                ∷ ("port", num (n.gap0 + 256 * n.gap1))
                ∷ ("ip", str (dotted n.gap2 n.gap3 (n.sa % 256) (n.sa / 256 % 256)))
                ∷ ("domain", num (n.sa / 65536 % 2 ^ 32))
                ∷ [])))
  unfolding header_bytes net_bytes le_bytes le_value
  net_sample-parsed n rest =
      let tail = net_bytes n rest in
      let port : n.gap0 + 256 * (n.gap1 + 256 * 0) ≡ n.gap0 + 256 * n.gap1 = omega arith in
      let one : (b : ℕ) → b + 256 * 0 ≡ b = λ b. omega arith in
      let domain : le_value 4 (le_bytes 4 (n.sa / 256 / 256)) ≡ n.sa / 65536 % 2 ^ 32 =
        omega arith in
      parse_event-long (net_sample h n rest) (omega (arith, length-append h.comm tail, named.size))
      ∙ λ i. ok (
          some (record {
            pid = le_value-le_bytes h.pid i;
            ppid = le_value-le_bytes h.ppid i;
            uid = le_value-le_bytes h.uid i;
            gid = le_value-le_bytes h.gid i;
            ret = le_value-le_bytes h.ret i;
            kind = 3;
            comm = comm-read tail i;
            payload =
                (
                  "sock_fd",
                  num (
                      (ap (λ bs. le_value 4 (take 4 bs)) (drop-comm 0 tail)
                          ∙ le_value-le_bytes n.sock_fd)
                        i),
                )
                ∷ ("port", num ((ap (λ bs. le_value 2 (take 2 bs)) (drop-comm 4 tail) ∙ port) i))
                ∷ (
                  "ip",
                  str (
                      dotted ((ap (λ bs. le_value 1 (take 1 bs)) (drop-comm 6 tail) ∙ one n.gap2) i)
                        ((ap (λ bs. le_value 1 (take 1 bs)) (drop-comm 7 tail) ∙ one n.gap3) i)
                        ((ap (λ bs. le_value 1 (take 1 bs)) (drop-comm 8 tail) ∙ one (n.sa % 256))
                          i)
                        ((ap (λ bs. le_value 1 (take 1 bs)) (drop-comm 9 tail)
                            ∙ one (n.sa / 256 % 256))
                          i)),
                )
                ∷ (
                  "domain",
                  num ((ap (λ bs. le_value 4 (take 4 bs)) (drop-comm 10 tail) ∙ domain) i),
                )
                ∷ [];
          }))
