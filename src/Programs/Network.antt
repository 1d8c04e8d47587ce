-- ===== src/Programs/Network.antt =====
-- bpf/beacon_guard.bpf.c: the programs that watch TCP connections and DNS messages.
use beacon_guard.Prelude.{
  ℕ, ◌+◌, ◌*◌, ◌/◌, ◌%◌, ◌^◌, Bool, false, not, ◌&&◌, ◌||◌, List, [], ◌∷◌, ◌++◌, Option, none, some,
  Bytes, drop, ltb, leb, ◌==◌, if◌then◌else◌,
}
use beacon_guard.Event.Layout.{Header, Net, le_bytes, net_sample}
use beacon_guard.Programs.Tables.{Maps, add_suspicion}
use beacon_guard.Programs.Memory.{Call, pid_of, Reserved, NetBody, Result, quiet, submit}

-- The 32 bits of an address, its first byte the lowest.
unfoldable pub is_internal_ip : ℕ → Bool
is_internal_ip ip =
    let b1 = ip % 256 in
    let b2 = ip / 256 % 256 in
    b1 == 10
    || ((b1 == 172 && (leb 16 b2 && leb b2 31))
        || ((b1 == 192 && b2 == 168) || (b1 == 127 || (b1 == 169 && b2 == 254))))

abbrev pub known_bad_ports : List ℕ
known_bad_ports = 4444 ∷ 5555 ∷ 6666 ∷ 6667 ∷ 6668 ∷ 6669 ∷ 7777 ∷ 8443 ∷ 10000 ∷ 31337 ∷ 4443 ∷ []

abbrev one_of : ℕ → List ℕ → Bool
one_of n [] = false
one_of n (m ∷ more) = n == m || one_of n more

unfoldable pub is_known_bad_port : ℕ → Bool
is_known_bad_port port = one_of port known_bad_ports

-- `bpf_ntohs`.
abbrev pub ntohs : ℕ → ℕ
ntohs v = v % 256 * 256 + v / 256 % 256

-- The members `skc_dport` and `skc_daddr` of a socket, as the machine reads them.
pub record Sock : Type 0 where
  pub dport : ℕ
  pub daddr : ℕ

abbrev pub to_bad_port : Sock → Bool
to_bad_port sk = not (is_internal_ip (sk.daddr % 2 ^ 32)) && is_known_bad_port (ntohs sk.dport)

-- `bpf_core_read(&evt->net.ip, 4, &daddr)`.
abbrev pub write_ip : ℕ → Bytes → Bytes
write_ip daddr ip = le_bytes 4 daddr ++ drop 4 ip

unfoldable pub tcp_connect : Call → Sock → ℕ → Option (Reserved NetBody) → Maps → Result
unfolding add_suspicion le_bytes
tcp_connect c sk fd none m = quiet m
tcp_connect c sk fd (some r) m =
    let header : Header = record r.header { pid = pid_of c; kind = 3; comm = c.comm } in
    let net : Net = record r.body.net {
      domain = 2;
      sock_fd = fd;
      port = ntohs sk.dport;
      ip = write_ip sk.daddr r.body.net.ip;
    } in
    let m' = add_suspicion 60 (pid_of c) m in
    if to_bad_port sk
    then submit (net_sample (record header { ret = 1 }) net r.body.rest) m'
    else submit (net_sample header net r.body.rest) m

-- `kprobe_udp_send`, with the length of the message.
unfoldable pub udp_send : Call → Sock → ℕ → Option (Reserved NetBody) → Maps → Result
unfolding add_suspicion le_bytes
udp_send c sk size none m = quiet m
udp_send c sk size (some r) m =
    let header : Header = record r.header { pid = pid_of c; kind = 3; comm = c.comm } in
    let net : Net = record r.body.net {
      port = 53;
      domain = 2;
      ip = write_ip sk.daddr r.body.net.ip;
    } in
    let m' = add_suspicion 30 (pid_of c) m in
    if not (ntohs sk.dport == 53)
    then quiet m
    else if ltb 512 size
    then submit (net_sample (record header { ret = 1 }) net r.body.rest) m'
    else submit (net_sample header net r.body.rest) m
