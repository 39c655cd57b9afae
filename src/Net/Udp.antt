-- ===== src/Net/Udp.antt =====
-- kernel/src/net/udp.rs and net/udp: datagram.rs, the queue of a socket, sock.rs, the calls of its
-- user, rx.rs, what a received packet does. All run under the lock of the network. The interface that
-- config.rs chooses for an address and the address of an interface are arguments.
pub mod Slots
pub mod Queue
pub mod Refine
pub mod First
pub mod Deliver
use onyx_kernel.Prelude.{
  ℕ, zero, suc, ◌+◌, ◌-◌, ◌*◌, ◌/◌, ◌%◌, ◌^◌, min, Bool, true, false, not, ◌&&◌, ◌||◌, Option, none,
  some, List, [], ◌∷◌, ◌++◌, length, get_or, set, take, drop, replicate, ltb, leb, ◌==◌,
  if◌then◌else◌,
}
use onyx_kernel.Core.Errno.{KResult, ok, err, inval, io, no_ent, busy, perm}
use onyx_kernel.Net.Checksum.{pseudo_checksum}
use onyx_kernel.Net.Tcp.{write_ring}
use onyx_kernel.Net.Tcp.Sock.{read_ring}

abbrev pub queue_bytes : ℕ
queue_bytes = 2048

abbrev pub queue_messages : ℕ
queue_messages = 8

pub record Peer : Type 0 where
  pub ip : List ℕ
  pub port : ℕ
  pub iface : ℕ

abbrev pub empty_peer : Peer
empty_peer = record { ip = replicate 4 0; port = 0; iface = 0 }

pub record DatagramQueue : Type 0 where
  pub bytes : List ℕ
  pub head : ℕ
  pub used : ℕ
  pub lengths : List ℕ
  pub peers : List Peer
  pub first : ℕ
  pub messages : ℕ

abbrev pub empty_queue : DatagramQueue
empty_queue = record {
  bytes = replicate queue_bytes 0;
  head = 0;
  used = 0;
  lengths = replicate queue_messages 0;
  peers = replicate queue_messages empty_peer;
  first = 0;
  messages = 0;
}

-- The ring of the bytes is as long as that of a TCP connection, and the copying loops are the same.
unfoldable pub push : List ℕ → Peer → DatagramQueue → Bool × DatagramQueue
push payload peer q =
    let slot = (q.first + q.messages) % queue_messages in
    if ltb (queue_bytes - q.used) (length payload) || (q.messages == queue_messages)
    then (false, q)
    else (
      true,
      record q {
        bytes = write_ring (q.bytes) ((q.head + q.used) % queue_bytes) 0 payload;
        used = q.used + length payload;
        lengths = set (q.lengths) slot (length payload);
        peers = set (q.peers) slot peer;
        messages = q.messages + 1;
      },
    )

-- The bytes stored in a target of `room` bytes, with the peer.
unfoldable pub pop : ℕ → DatagramQueue → Option (List ℕ × Peer) × DatagramQueue
pop room q =
    let len = get_or q.lengths q.first 0 in
    if q.messages == 0 then (none, q) else (
      some (read_ring (min len room) 0 q.head q.bytes, get_or q.peers q.first empty_peer),
      record q {
        head = (q.head + len) % queue_bytes;
        used = q.used - len;
        first = (q.first + 1) % queue_messages;
        messages = q.messages - 1;
      },
    )

abbrev pub max_udp_socks : ℕ
max_udp_socks = 8

abbrev pub udp_hlen : ℕ
udp_hlen = 8

-- `usize::MAX`, of a socket that listens on all interfaces.
abbrev pub any_iface : ℕ
any_iface = 2 ^ 64 - 1

pub record UdpSocket : Type 0 where
  pub owner_pid : ℕ
  pub iface : ℕ
  pub local_port : ℕ
  pub remote_ip : List ℕ
  pub remote_port : ℕ
  pub bound : Bool
  pub connected : Bool
  pub datagrams : DatagramQueue

-- `UDP_SOCKS`
abbrev pub Socks : Type 0
Socks = List (Option UdpSocket)

-- `UDP_SOCKS` and `NEXT_UDP_PORT`
pub record Udp : Type 0 where
  pub socks : Socks
  pub next_port : ℕ

abbrev pub sock_at : Socks → ℕ → Option UdpSocket
sock_at socks i = get_or socks i none

-- `alloc_udp_sock` from the index `i` on.
abbrev pub alloc_udp_sock : ℕ → Socks → Option ℕ
alloc_udp_sock i [] = none
alloc_udp_sock i (none ∷ socks) = some i
alloc_udp_sock i (some s ∷ socks) = alloc_udp_sock (i + 1) socks

abbrev pub next_udp_port : Udp → ℕ × Udp
next_udp_port u = (u.next_port, record u { next_port = (u.next_port + 1) % 2 ^ 16 })

abbrev pub port_bound : ℕ → Socks → Bool
port_bound port [] = false
port_bound port (none ∷ socks) = port_bound port socks
port_bound port (some s ∷ socks) = (s.bound && (s.local_port == port)) || port_bound port socks

-- A socket that is bound on an interface and not connected.
abbrev pub bound_socket : ℕ → ℕ → UdpSocket
bound_socket port dev = record {
  owner_pid = 0;
  iface = dev;
  local_port = port;
  remote_ip = replicate 4 0;
  remote_port = 0;
  bound = true;
  connected = false;
  datagrams = empty_queue;
}

abbrev pub connected_socket : ℕ → ℕ → List ℕ → ℕ → Bool → UdpSocket
connected_socket port dev ip rport is_bound = record {
  owner_pid = 0;
  iface = dev;
  local_port = port;
  remote_ip = ip;
  remote_port = rport;
  bound = is_bound;
  connected = true;
  datagrams = empty_queue;
}

-- `active` is the interface of the device in use.
unfoldable pub udp_bind : ℕ → ℕ → Udp → KResult ℕ × Udp
udp_bind active port u =
    if port_bound port u.socks then (err busy, u) else elim (alloc_udp_sock 0 u.socks) [
      | none ↦ (err busy, u)
      | some i ↦ (ok i, record u { socks = set (u.socks) i (some (bound_socket port active)) })
    ]

abbrev pub on_any_iface : Option UdpSocket → Option UdpSocket
on_any_iface none = none
on_any_iface (some s) = some (record s { iface = any_iface })

abbrev pub mark_any : KResult ℕ × Udp → KResult ℕ × Udp
mark_any (ok i, u) =
    (ok i, record u { socks = set (u.socks) i (on_any_iface (sock_at (u.socks) i)) })
mark_any (err e, u) = (err e, u)

unfoldable pub udp_bind_any : ℕ → ℕ → Udp → KResult ℕ × Udp
udp_bind_any active port u = mark_any (udp_bind active port u)

unfoldable pub udp_bind_connect : (List ℕ → Option ℕ) → List ℕ → ℕ → Udp → KResult ℕ × Udp
udp_bind_connect route ip rport u =
    let (port, v) = next_udp_port u in
    elim (alloc_udp_sock 0 u.socks) [
      | none ↦ (err busy, u)
      | some i ↦ elim (route ip) [
        | none ↦ (err io, u)
        | some dev ↦ (
          ok i,
          record v { socks = set (u.socks) i (some (connected_socket port dev ip rport true)) },
        )
      ]
    ]

-- `u16::to_be_bytes`
abbrev pub be_bytes_16 : ℕ → List ℕ
be_bytes_16 x = x / 256 ∷ x % 256 ∷ []

-- The ports and the length of a segment, and the segment with a checksum in its field.
abbrev pub udp_head : ℕ → ℕ → ℕ → List ℕ
udp_head local remote len = be_bytes_16 local ++ (be_bytes_16 remote ++ be_bytes_16 (len % 2 ^ 16))

abbrev pub udp_segment : ℕ → ℕ → ℕ → List ℕ → List ℕ
udp_segment local remote sum bytes =
    udp_head local remote (udp_hlen + length bytes) ++ (be_bytes_16 sum ++ bytes)

unfoldable pub udp_sum : List ℕ → List ℕ → ℕ → ℕ → List ℕ → ℕ
udp_sum src dst local remote bytes =
    let sum = pseudo_checksum src dst 17 (udp_segment local remote 0 bytes) in
    if sum == 0 then 2 ^ 16 - 1 else sum

-- The segment handed to `ip::send_packet`, with the interface and the address that it goes to.
pub record Datagram : Type 0 where
  pub dev : ℕ
  pub dst : List ℕ
  pub segment : List ℕ

unfoldable pub send_endpoint :
    (List ℕ → Option ℕ) → (ℕ → List ℕ) → ℕ → List ℕ → ℕ → Bool → List ℕ → KResult Datagram
send_endpoint route ip_of local ip remote is_connected bytes =
    if not is_connected || ltb 1472 (length bytes) then err inval else elim (route ip) [
      | none ↦ err io
      | some d ↦ ok (record {
        dev = d;
        dst = ip;
        segment = udp_segment local remote (udp_sum (ip_of d) ip local remote bytes) bytes;
      })
    ]

unfoldable pub udp_sendto :
    (List ℕ → Option ℕ) → (ℕ → List ℕ) → List ℕ → ℕ → List ℕ → Udp → KResult Datagram × Udp
udp_sendto route ip_of ip rport bytes u =
    let (port, v) = next_udp_port u in
    elim (alloc_udp_sock 0 u.socks) [
      | none ↦ (err busy, u)
      | some i ↦ elim (route ip) [
        | none ↦ (err io, v)
        | some dev ↦ (
          send_endpoint route ip_of port ip rport true bytes,
          record v { socks = set (u.socks) i none },
        )
      ]
    ]

unfoldable pub udp_send_bound :
    (List ℕ → Option ℕ) → (ℕ → List ℕ) → ℕ → List ℕ → Udp → KResult Datagram
udp_send_bound route ip_of id bytes u =
    if leb max_udp_socks id then err inval else elim (sock_at u.socks id) [
      | none ↦ err inval
      | some s ↦ send_endpoint route ip_of s.local_port s.remote_ip s.remote_port s.connected bytes
    ]

unfoldable pub udp_send_from :
    (List ℕ → Option ℕ) → (ℕ → List ℕ) → ℕ → Peer → List ℕ → Udp → KResult Datagram
udp_send_from route ip_of id peer bytes u = elim (sock_at u.socks id) [
  | none ↦ err inval
  | some s ↦ send_endpoint route ip_of s.local_port peer.ip peer.port true bytes
]

abbrev pub or_no_ent : Option (List ℕ × Peer) → KResult (List ℕ × Peer)
or_no_ent none = err no_ent
or_no_ent (some m) = ok m

unfoldable pub udp_recv_from : ℕ → ℕ → Udp → KResult (List ℕ × Peer) × Udp
udp_recv_from id room u =
    if leb max_udp_socks id then (err inval, u) else elim (sock_at u.socks id) [
      | none ↦ (err inval, u)
      | some s ↦
          (let (got, q) = pop room s.datagrams in
            (
              or_no_ent got,
              record u { socks = set (u.socks) id (some (record s { datagrams = q })) },
            ))
    ]

abbrev pub udp_close : ℕ → Udp → Udp
udp_close id u = if leb max_udp_socks id then u else record u { socks = set (u.socks) id none }

unfoldable pub clear_interface : ℕ → Socks → Socks
clear_interface index [] = []
clear_interface index (none ∷ socks) = none ∷ clear_interface index socks
clear_interface index (some s ∷ socks) =
    (if s.iface == index then none else some s) ∷ clear_interface index socks

-- The last loop of `close_process` in ownership.rs.
unfoldable pub release_socks : ℕ → Socks → Socks
release_socks pid [] = []
release_socks pid (none ∷ socks) = none ∷ release_socks pid socks
release_socks pid (some s ∷ socks) =
    (if s.owner_pid == pid then none else some s) ∷ release_socks pid socks

-- `udp` of ownership.rs
abbrev pub udp_access : ℕ → ℕ → Socks → KResult (Unit {0})
udp_access id pid socks = elim (sock_at socks id) [
  | none ↦ err inval
  | some s ↦ if s.owner_pid == pid then ok tt else err perm
]

-- Bytes compared one by one, as `==` on arrays of four does.
abbrev pub same_bytes : List ℕ → List ℕ → Bool
same_bytes [] [] = true
same_bytes [] (b ∷ bs) = false
same_bytes (a ∷ as_) [] = false
same_bytes (a ∷ as_) (b ∷ bs) = (a == b) && same_bytes as_ bs

abbrev pub matches : ℕ → List ℕ → ℕ → ℕ → UdpSocket → Bool
matches active src sport dport s =
    s.bound
    && (s.local_port == dport)
    && ((s.iface == active) || (s.iface == any_iface))
    && (not s.connected || (same_bytes s.remote_ip src && (s.remote_port == sport)))

-- The loop of `handle_udp`: the first socket that matches takes the payload, if it has room.
unfoldable pub deliver : ℕ → List ℕ → ℕ → ℕ → List ℕ → Socks → Socks
deliver active src sport dport payload [] = []
deliver active src sport dport payload (none ∷ socks) =
    none ∷ deliver active src sport dport payload socks
deliver active src sport dport payload (some s ∷ socks) =
    let rest = deliver active src sport dport payload socks in
    let peer : Peer = record { ip = src; port = sport; iface = active % 256 } in
    if matches active src sport dport s
    then some (record s { datagrams = (push payload peer (s.datagrams)).1 }) ∷ socks
    else some s ∷ rest

abbrev pub be_16 : List ℕ → ℕ → ℕ
be_16 bytes i = 256 * get_or bytes i 0 + get_or bytes (i + 1) 0

-- `bytes[i .. i + n]`
abbrev pub slice : ℕ → ℕ → List ℕ → List ℕ
slice i n bytes = take n (drop i bytes)

unfoldable pub handle_udp : ℕ → List ℕ → ℕ → Socks → Socks
handle_udp active frame ip_start socks =
    let header_len = 4 * (get_or frame ip_start 0 % 16) in
    let offset = ip_start + header_len in
    let len = be_16 frame (offset + 4) in
    let src = slice (ip_start + 12) 4 frame in
    let dst = slice (ip_start + 16) 4 frame in
    if ltb (length frame) (ip_start + 20)
    then socks
    else if ltb header_len 20 || ltb (length frame) (offset + udp_hlen)
    then socks
    else if ltb len udp_hlen || ltb (length frame) (offset + len)
    then socks
    else if not (be_16 frame (offset + 6) == 0)
        && not (pseudo_checksum src dst 17 (slice offset len frame) == 0)
    then socks
    else deliver active src (be_16 frame offset) (be_16 frame (offset + 2))
        (slice (offset + udp_hlen) (len - udp_hlen) frame) socks
