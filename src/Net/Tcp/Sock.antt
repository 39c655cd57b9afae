-- ===== src/Net/Tcp/Sock.antt =====
-- kernel/src/net/tcp/sock.rs, and sweep_timewait of conn.rs: the calls of a connection's user. What is
-- handed to `send_tcp_seg` is a result.
pub mod Stream
use onyx_kernel.Prelude.{
  ℕ, zero, suc, ◌+◌, ◌-◌, ◌*◌, ◌/◌, ◌%◌, ◌^◌, min, Bool, true, false, not, ◌&&◌, ◌||◌, Option, none,
  some, List, [], ◌∷◌, ◌++◌, length, get_elem?, get_or, set, take, drop, map, ltb, leb, ◌==◌,
  if◌then◌else◌,
}
use onyx_kernel.Core.Errno.{KResult, ok, err, inval, io, no_ent}
use onyx_kernel.Net.Tcp.{TcpConn, buf_size, add_seq}

-- `read_received` into a buffer of `room` bytes: what it stores there, whether the peer is told of
-- the new window, and the connection.
pub read_ring : ℕ → ℕ → ℕ → List ℕ → List ℕ
read_ring zero i head buf = []
read_ring (suc n) i head buf = get_or buf ((head + i) % buf_size) 0 ∷ read_ring n (i + 1) head buf

unfoldable pub read_received : TcpConn → ℕ → KResult (List ℕ × Bool) × TcpConn
read_received c room =
    let n = min room c.recv_len in
    if c.state == 6
    then (err io, c)
    else if c.recv_len == 0
    then ((if c.peer_fin then ok ([], false) else err no_ent), c)
    else (
      ok (read_ring n 0 c.recv_head c.recv_buf, ltb 0 n && not c.peer_fin),
      record c { recv_head = (c.recv_head + n) % buf_size; recv_len = c.recv_len - n },
    )

-- A segment handed to `send_tcp_seg`, with the connection whose numbers it carries.
pub record Segment : Type 0 where
  pub conn : TcpConn
  pub flags : ℕ
  pub payload : List ℕ

-- `CONNS`
abbrev pub Conns : Type 0
Conns = List (Option TcpConn)

abbrev pub conn_at : Conns → ℕ → Option TcpConn
conn_at conns cid = get_or conns cid none

-- The bytes of a call of `tcp_send` that are taken.
abbrev pub send_room : TcpConn → ℕ → ℕ
send_room c len = min (min (min len (buf_size - c.send_len)) 536) (c.peer_window - c.send_len)

-- What `tcp_send_inner` does to a connection in state 2 or 7.
unfoldable pub send_bytes : TcpConn → List ℕ → ℕ → TcpConn
send_bytes c bytes now =
    let n = send_room c (length bytes) in
    let first = ltb 0 n && (c.send_len == 0) in
    record c {
      send_buf = take c.send_len c.send_buf ++ (take n bytes ++ drop (c.send_len + n) c.send_buf);
      send_len = c.send_len + n;
      snd_nxt = add_seq c.snd_nxt (n % 2 ^ 32);
      last_tx_us = if first then now else c.last_tx_us;
      retries = if first then 0 else c.retries;
    }

-- The result, the connections and what is sent.
unfoldable pub tcp_send_inner : Conns → ℕ → List ℕ → ℕ → KResult ℕ × Conns × List Segment
tcp_send_inner conns cid bytes now = elim (conn_at conns cid) [
  | none ↦ (err inval, conns, [])
  | some c ↦
      if not (c.state == 2) && not (c.state == 7)
      then (err io, conns, [])
      else let n = send_room c (length bytes) in
        let after = send_bytes c bytes now in
        let sent = record after { snd_nxt = c.snd_nxt } in
        (
          ok n,
          set conns cid (some after),
          (if ltb 0 n
              then record { conn = sent; flags = 0x18; payload = take n bytes } ∷ []
              else []),
        )
]

unfoldable pub tcp_recv_inner : Conns → ℕ → ℕ → KResult (List ℕ) × Conns × List Segment
tcp_recv_inner conns cid room = elim (conn_at conns cid) [
  | none ↦ (err inval, conns, [])
  | some c ↦
      let (result, after) = read_received c room in
      elim result [
        | err e ↦ (err e, conns, [])
        | ok got ↦ (
          ok got.0,
          set conns cid (some after),
          (if got.1 then record { conn = after; flags = 0x10; payload = [] } ∷ [] else []),
        )
      ]
]

-- The connection after a close by its user in state 2 or 7, whose FIN takes a sequence number.
abbrev pub closing : TcpConn → ℕ → TcpConn
closing c now = record c {
  recv_len = 0;
  state = 3;
  snd_nxt = add_seq c.snd_nxt 1;
  last_tx_us = now;
  retries = 0;
}

abbrev pub max_conns : ℕ
max_conns = 8

unfoldable pub tcp_close : Conns → ℕ → ℕ → Conns × List Segment
tcp_close conns cid now = if leb max_conns cid then (conns, []) else elim (conn_at conns cid) [
  | none ↦ (conns, [])
  | some c ↦
      if (c.state == 2) || (c.state == 7)
      then (
        set conns cid (some (closing c now)),
        record { conn = c; flags = 0x11; payload = [] } ∷ [],
      )
      else (set conns cid none, [])
]

-- The loop of `sweep_timewait`.
unfoldable pub sweep_timewait : ℕ → Conns → Conns
sweep_timewait now [] = []
sweep_timewait now (none ∷ conns) = none ∷ sweep_timewait now conns
sweep_timewait now (some c ∷ conns) =
    let expired =
      ((c.state == 4) && (c.recv_len == 0) || (c.state == 5) || (c.state == 6))
      && leb c.tw_deadline_us now
      && not (c.tw_deadline_us == 0) in
    (if expired then none else some c) ∷ sweep_timewait now conns
