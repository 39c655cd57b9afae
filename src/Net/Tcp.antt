-- ===== src/Net/Tcp.antt =====
-- kernel/src/net/tcp: connections of TCP. conn.rs has the connection, state.rs what a segment does
-- to it, sock.rs the calls of its user, retry.rs the retransmissions. All run under the lock of the
-- network. Sequence numbers are u32 values that wrap; times are in microseconds.
pub mod Ring
pub mod Invariant
pub mod Transition
pub mod Receive
pub mod Sock
pub mod Retry
pub mod Listen
use onyx_kernel.Prelude.{
  ℕ, zero, suc, ◌+◌, ◌-◌, ◌*◌, ◌/◌, ◌%◌, ◌^◌, min, Bool, true, false, not, ◌&&◌, ◌||◌, Option, none,
  some, List, [], ◌∷◌, ◌++◌, length, get_elem?, get_or, set, take, drop, map, ltb, leb, ◌==◌,
  if◌then◌else◌,
}
use onyx_kernel.Core.Errno.{KResult, ok, err, inval, io, no_ent}

abbrev pub buf_size : ℕ
buf_size = 2048

abbrev pub timewait_us : ℕ
timewait_us = 5000000

-- `usize::MAX`, of a connection that belongs to no listener.
abbrev pub no_listener : ℕ
no_listener = 2 ^ 64 - 1

-- The states are those of the source: 1 after a SYN of ours, 5 after a peer's, 2 established, 7
-- after the peer's FIN, 3 after a FIN of ours, 4 closed on both sides or nearly, 6 failed.
pub record TcpConn : Type 0 where
  pub owner_pid : ℕ
  pub iface : ℕ
  pub listener : ℕ
  pub last_tx_us : ℕ
  pub retries : ℕ
  pub peer_window : ℕ
  pub state : ℕ
  pub src_port : ℕ
  pub dst_ip : List ℕ
  pub dst_port : ℕ
  pub snd_una : ℕ
  pub snd_nxt : ℕ
  pub rcv_nxt : ℕ
  pub send_buf : List ℕ
  pub send_len : ℕ
  pub recv_buf : List ℕ
  pub recv_len : ℕ
  pub recv_head : ℕ
  pub peer_fin : Bool
  pub tw_deadline_us : ℕ

abbrev pub add_seq : ℕ → ℕ → ℕ
add_seq a b = (a + b) % 2 ^ 32

abbrev pub sub_seq : ℕ → ℕ → ℕ
sub_seq a b = (a + 2 ^ 32 - b) % 2 ^ 32

-- `flags & FIN != 0`, `flags & SYN != 0` and `flags & ACK != 0`
abbrev pub has_fin : ℕ → Bool
has_fin flags = flags % 2 == 1

abbrev pub has_syn : ℕ → Bool
has_syn flags = flags / 2 % 2 == 1

abbrev pub has_ack : ℕ → Bool
has_ack flags = flags / 16 % 2 == 1

abbrev pub seg_none : ℕ
seg_none = 0

abbrev pub seg_ack : ℕ
seg_ack = 1

-- The first `n` bytes of the send buffer are dropped, and the others of its contents move to the front.
abbrev pub drop_sent : TcpConn → ℕ → ℕ → TcpConn
drop_sent c n ack = record c {
  send_buf = take (c.send_len - n) (drop n c.send_buf) ++ drop (c.send_len - n) c.send_buf;
  send_len = c.send_len - n;
  snd_una = ack;
  retries = 0;
}

unfoldable pub drain_acked : TcpConn → ℕ → TcpConn
drain_acked c ack =
    let outstanding = sub_seq c.snd_nxt c.snd_una in
    let acked = sub_seq ack c.snd_una in
    let fin_ack = (c.state == 3) && (ack == c.snd_nxt) && (acked == c.send_len + 1) in
    if (acked == 0) || ltb outstanding acked
    then c
    else if ltb c.send_len acked && not fin_ack
    then c
    else drop_sent c (min acked c.send_len) ack

-- The loop that copies a payload into the ring from `start` on, at the index `j`.
pub write_ring : List ℕ → ℕ → ℕ → List ℕ → List ℕ
write_ring buf start j [] = buf
write_ring buf start j (b ∷ payload) =
    write_ring (set buf ((start + j) % buf_size) b) start (j + 1) payload

-- The part of a payload that fits goes into the ring.
unfoldable pub accept_payload : TcpConn → List ℕ → TcpConn
accept_payload c payload =
    let n = min (length payload) (buf_size - c.recv_len) in
    record c {
      recv_buf = write_ring c.recv_buf ((c.recv_head + c.recv_len) % buf_size) 0 (take n payload);
      recv_len = c.recv_len + n;
      rcv_nxt = add_seq c.rcv_nxt (n % 2 ^ 32);
    }

abbrev pub is_empty : List ℕ → Bool
is_empty [] = true
is_empty (b ∷ payload) = false

-- The peer's FIN, which is the byte behind what has been received.
abbrev pub accept_fin : TcpConn → ℕ → TcpConn
accept_fin c now = record c {
  rcv_nxt = add_seq c.rcv_nxt 1;
  peer_fin = true;
  state = if c.state == 2 then 7 else c.state;
  tw_deadline_us = if c.state == 4 then now + timewait_us else c.tw_deadline_us;
}

-- The arm of `tcp_transition` for the states 2, 4 and 7: the connection and the two commands.
unfoldable pub data_arm : TcpConn → ℕ → ℕ → ℕ → List ℕ → ℕ → TcpConn × ℕ × ℕ
data_arm c seq ack flags payload now =
    let c1 = drain_acked c ack in
    let c2 =
      if (seq == c1.rcv_nxt) && not (is_empty payload) then accept_payload c1 payload else c1 in
    let fin = has_fin flags && (add_seq seq (length payload % 2 ^ 32) == c2.rcv_nxt) in
    (
      (if fin then accept_fin c2 now else c2),
      (if is_empty payload then seg_none else seg_ack),
      (if fin then seg_ack else seg_none),
    )

-- The call of itself that the source makes in state 5 is one at state 2, so it takes the arm above.
unfoldable pub tcp_transition : TcpConn → ℕ → ℕ → ℕ → List ℕ → ℕ → TcpConn × ℕ × ℕ
tcp_transition c seq ack flags payload now =
    let drained = drain_acked c ack in
    if (c.state == 1) && (has_syn flags && has_ack flags) && (ack == c.snd_nxt)
    then (
      record c { state = 2; snd_nxt = ack; snd_una = ack; rcv_nxt = add_seq seq 1 },
      seg_ack,
      seg_none,
    )
    else if (c.state == 5) && has_ack flags && (ack == c.snd_nxt) && (seq == c.rcv_nxt)
    then data_arm (record c { state = 2; snd_una = ack; tw_deadline_us = 0 }) seq ack flags payload
        now
    else if (c.state == 2) || (c.state == 4) || (c.state == 7)
    then data_arm c seq ack flags payload now
    else if (c.state == 3) && has_ack flags
    then (
      (if ack == drained.snd_nxt
          then record drained { state = 4; tw_deadline_us = now + timewait_us }
          else drained),
      seg_none,
      seg_none,
    )
    else (c, seg_none, seg_none)
