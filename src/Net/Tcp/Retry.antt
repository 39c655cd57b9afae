-- ===== src/Net/Tcp/Retry.antt =====
-- kernel/src/net/tcp/retry.rs: retransmissions. `tick` runs under the lock, and its flag `RUNNING`
-- is down.
pub mod Bound
pub mod Loss
use onyx_kernel.Prelude.{
  ℕ, zero, suc, ◌+◌, ◌-◌, ◌*◌, ◌/◌, ◌%◌, ◌^◌, min, Bool, true, false, not, ◌&&◌, ◌||◌, Option, none,
  some, List, [], ◌∷◌, ◌++◌, length, get_elem?, get_or, set, take, drop, map, ltb, leb, ◌==◌,
  if◌then◌else◌,
}
use onyx_kernel.Net.Tcp.{TcpConn, sub_seq}
use onyx_kernel.Net.Tcp.Sock.{Segment, Conns}

abbrev pub retry_us : ℕ
retry_us = 1000000

abbrev pub max_retries : ℕ
max_retries = 5

pub record Plan : Type 0 where
  pub flags : ℕ
  pub sequence : ℕ
  pub len : ℕ

-- The segment that a connection waits to have acknowledged.
abbrev pub plan_action : TcpConn → Option Plan
plan_action c =
    let unsent = some (record { flags = 0x18; sequence = c.snd_una; len = min c.send_len 536 }) in
    if c.state == 1
    then some (record { flags = 0x02; sequence = c.snd_una; len = 0 })
    else if c.state == 5
    then some (record { flags = 0x12; sequence = c.snd_una; len = 0 })
    else if ((c.state == 2) || (c.state == 7)) && ltb 0 c.send_len
    then unsent
    else if (c.state == 3) && ltb 0 c.send_len
    then unsent
    else if c.state == 3
    then some (record { flags = 0x11; sequence = sub_seq c.snd_nxt 1; len = 0 })
    else none

unfoldable pub plan : TcpConn → ℕ → Option Plan × TcpConn
plan c now = elim (plan_action c) [
  | none ↦ (none, c)
  | some action ↦
      if ltb ((now + 2 ^ 64 - c.last_tx_us) % 2 ^ 64) retry_us
      then (none, c)
      else if leb max_retries c.retries
      then (none, record c { state = 6; tw_deadline_us = now + 5000000 })
      else (some action, record c { retries = c.retries + 1; last_tx_us = now })
]

-- The connection in the table, which takes the sequence number of the action, and the segment that
-- the second loop of `tick` sends.
abbrev pub retried : List ℕ → Option Plan × TcpConn → TcpConn × List Segment
retried buf (none, c) = (c, [])
retried buf (some a, c) =
    let sent = record c { snd_nxt = a.sequence } in
    (sent, record { conn = sent; flags = a.flags; payload = take a.len buf } ∷ [])

-- The first loop of `tick` at one connection.
unfoldable pub tick_conn : TcpConn → ℕ → TcpConn × List Segment
tick_conn c now = retried c.send_buf (plan c now)

unfoldable pub tick : Conns → ℕ → Conns × List Segment
tick [] now = ([], [])
tick (none ∷ conns) now = let (rest, sent) = tick conns now in (none ∷ rest, sent)
tick (some c ∷ conns) now =
    let (after, first) = tick_conn c now in
    let (rest, sent) = tick conns now in (some after ∷ rest, first ++ sent)
