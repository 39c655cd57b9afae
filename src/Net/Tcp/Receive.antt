-- ===== src/Net/Tcp/Receive.antt =====
-- Net/Tcp: the bytes that a segment adds to what is received.
use onyx_kernel.Prelude.{ℕ, ◌≡◌, List, arith}
use onyx_kernel.Net.Tcp.{TcpConn, drain_acked}
use onyx_kernel.Net.Tcp.Ring.{ring_bytes}

-- The bytes that are received and not read.
abbrev pub received : TcpConn → List ℕ
received c = ring_bytes c.recv_len 0 c.recv_head c.recv_buf

-- What an acknowledgement does not touch.
abbrev SameReceive : TcpConn → TcpConn → Type 0
SameReceive c d =
    (d.recv_buf ≡ c.recv_buf)
    × (d.recv_len ≡ c.recv_len)
    × (d.recv_head ≡ c.recv_head)
    × (d.rcv_nxt ≡ c.rcv_nxt)
    × (d.state ≡ c.state)

pub drain_acked-receive : (c : TcpConn) (ack : ℕ) → SameReceive c (drain_acked c ack)
unfolding drain_acked
drain_acked-receive c ack = (ground arith, ground arith, ground arith, ground arith, ground arith)
