-- ===== src/Tests/Net.antt =====
-- The properties of the network stack at concrete inputs.
use onyx_kernel.Prelude.{some, none, replicate, ◌≢◌}
use onyx_kernel.Net.Tcp.Listen.{Listener, Sockets, accept}
use onyx_kernel.Net.Tcp.Listen.Queue.{Holds, Accepts, accept_lem}
use onyx_kernel.Prelude.{
  ℕ, ◌≤◌, ◌≡◌, ◌≢◌, inl, refl, false, [], ◌∷◌, replicate, length-replicate, arith,
}
use onyx_kernel.Net.Checksum.{pseudo_checksum}
use onyx_kernel.Net.Checksum.Verify.{with_field, pseudo_checksum-pseudo_checksum}
use onyx_kernel.Net.Tcp.{TcpConn, no_listener, drain_acked, tcp_transition}
use onyx_kernel.Net.Tcp.Invariant.{IsConn}
use onyx_kernel.Net.Tcp.Transition.{tcp_transition-IsConn}
use onyx_kernel.Net.Tcp.Retry.{tick_conn}
use onyx_kernel.Net.Tcp.Retry.Bound.{resent, resent_le}
use onyx_kernel.Net.Tcp.Retry.Loss.{drain_acked-tick_conn}

-- A UDP header from port 1 to port 2 with one byte of data, behind which the checksum is.
pseudo_checksum-pseudo_checksum_example :
    pseudo_checksum (10 ∷ 0 ∷ 2 ∷ 15 ∷ []) (10 ∷ 0 ∷ 2 ∷ 2 ∷ []) 17 (
      with_field
        (0 ∷ 1 ∷ 0 ∷ 2 ∷ 0 ∷ 9 ∷ [])
        (pseudo_checksum
          (10 ∷ 0 ∷ 2 ∷ 15 ∷ [])
          (10 ∷ 0 ∷ 2 ∷ 2 ∷ [])
          17
          (with_field (0 ∷ 1 ∷ 0 ∷ 2 ∷ 0 ∷ 9 ∷ []) 0 (65 ∷ [])))
        (65 ∷ []))
    ≡ 0
pseudo_checksum-pseudo_checksum_example =
    pseudo_checksum-pseudo_checksum (10 ∷ 0 ∷ 2 ∷ 15 ∷ []) (10 ∷ 0 ∷ 2 ∷ 2 ∷ []) 17
      (0 ∷ 1 ∷ 0 ∷ 2 ∷ 0 ∷ 9 ∷ []) (65 ∷ [])
      (omega arith, (omega arith, (omega arith, (omega arith, tt))))
      (omega arith, (omega arith, (omega arith, (omega arith, tt)))) (omega arith)
      (record {
        even = refl;
        before_bytes = (
          omega arith,
          (omega arith, (omega arith, (omega arith, (omega arith, (omega arith, tt))))),
        );
        after_bytes = (omega arith, tt);
        short = omega arith;
      })

-- Two bytes are sent and not acknowledged, and one is received and not read.
abbrev open_conn : TcpConn
open_conn = record {
  owner_pid = 4;
  iface = 0;
  listener = no_listener;
  last_tx_us = 0;
  retries = 0;
  peer_window = 2048;
  state = 2;
  src_port = 40000;
  dst_ip = 10 ∷ 0 ∷ 2 ∷ 2 ∷ [];
  dst_port = 80;
  snd_una = 100;
  snd_nxt = 102;
  rcv_nxt = 500;
  send_buf = 1 ∷ 2 ∷ replicate 2046 0;
  send_len = 2;
  recv_buf = 9 ∷ replicate 2047 0;
  recv_len = 1;
  recv_head = 0;
  peer_fin = false;
  tw_deadline_us = 0;
}

open_conn-IsConn : IsConn open_conn
open_conn-IsConn = record {
  send_cells = omega (arith, length-replicate {A = ℕ} 2046 0);
  recv_cells = omega (arith, length-replicate {A = ℕ} 2047 0);
  send_fits = omega arith;
  recv_fits = omega arith;
  una = omega arith;
  nxt = omega arith;
  outstanding = λ n. refl;
  handshake = (λ e. absurd (omega (arith, e)), λ e. absurd (omega (arith, e)));
}

tcp_transition-IsConn_example : IsConn (tcp_transition open_conn 500 101 0x10 (7 ∷ []) 0).0
tcp_transition-IsConn_example =
    tcp_transition-IsConn open_conn 500 101 0x10 (7 ∷ []) 0 (omega arith) open_conn-IsConn

resent_le_example : resent (1000000 ∷ 2000000 ∷ []) open_conn ≤ 5
resent_le_example = resent_le (1000000 ∷ 2000000 ∷ []) open_conn

drain_acked-tick_conn_example :
    drain_acked (tick_conn open_conn 1000000).0 102 ≡ (tick_conn open_conn 1000000).0
drain_acked-tick_conn_example =
    drain_acked-tick_conn open_conn 1000000 102 (inl refl) (omega arith) refl

abbrev a_listener : Listener
a_listener = record { owner_pid = 41; port = 80; queue = 1 ∷ 0 ∷ 0 ∷ 0 ∷ []; first = 0; len = 1 }

abbrev a_table : Sockets
a_table = record {
  listeners = some a_listener ∷ replicate 7 none;
  conns =
      none
      ∷ some (record open_conn { listener = 0; owner_pid = 41 })
      ∷ some (record open_conn { owner_pid = 42 })
      ∷ [];
}

a_table-Holds : Holds a_table 0 (1 ∷ [])
a_table-Holds = record {
  listener = a_listener;
  here = refl;
  valid = record { slots = refl; first_lt = omega arith; len_le = omega arith };
  queued = refl;
}

accept_lem_example : Accepts a_table 0 (1 ∷ []) (accept 0 a_table)
accept_lem_example = accept_lem 0 a_table (1 ∷ []) a_table-Holds
