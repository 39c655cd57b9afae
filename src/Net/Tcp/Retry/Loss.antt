-- ===== src/Net/Tcp/Retry/Loss.antt =====
-- Net/Tcp/Retry: what a retransmission leaves in the table of connections.
use onyx_kernel.Prelude.{
  ℕ, ◌+◌, ◌-◌, ◌%◌, ◌^◌, ◌<◌, ◌≡◌, refl, sym, ap, subst, Bool, true, false, not, ◌&&◌, ◌||◌, some,
  min, ltb, leb, ◌==◌, arith, ◌⊎◌,
}
use onyx_kernel.Net.Tcp.{TcpConn, sub_seq, drain_acked}
use onyx_kernel.Net.Tcp.Retry.{plan, retry_us, max_retries, retried, tick_conn}

-- The retransmission is due, and the connection has tries left.
abbrev pub is_due : TcpConn → ℕ → Bool
is_due c now =
    not (ltb ((now + 2 ^ 64 - c.last_tx_us) % 2 ^ 64) retry_us) && ltb c.retries max_retries

plan_data :
    (c : TcpConn) (now : ℕ)
    → (c.state ≡ 2) ⊎ (c.state ≡ 7)
    → 0 < c.send_len
    → is_due c now ≡ true
    → plan c now ≡ (
      some (record { flags = 0x18; sequence = c.snd_una; len = min c.send_len 536 }),
      record c { retries = c.retries + 1; last_tx_us = now },
    )
unfolding plan
plan_data c now st p due =
    let not_1 : (c.state == 1) ≡ false = ground (arith, st) in
    let not_5 : (c.state == 5) ≡ false = ground (arith, st) in
    let has_data : (((c.state == 2) || (c.state == 7)) && ltb 0 c.send_len) ≡ true =
      ground (arith, st, p) in
    let on_time : ltb ((now + 2 ^ 64 - c.last_tx_us) % 2 ^ 64) retry_us ≡ false =
      ground (arith, due) in
    let try_left : leb max_retries c.retries ≡ false = ground (arith, due) in
    rw (not_1, plan) (rw (not_5, plan) (rw (has_data, plan) (rw on_time (rw try_left refl))))

tick_conn_data :
    (c : TcpConn) (now : ℕ)
    → (c.state ≡ 2) ⊎ (c.state ≡ 7)
    → 0 < c.send_len
    → is_due c now ≡ true
    → (tick_conn c now).0
      ≡ record c { retries = c.retries + 1; last_tx_us = now; snd_nxt = c.snd_una }
unfolding tick_conn
tick_conn_data c now st p due = ap (λ r. (retried c.send_buf r).0) (plan_data c now st p due)

-- Once unacknowledged bytes have been sent again, an established connection ignores every
-- acknowledgement, so that those bytes stay in its buffer.
pub drain_acked-tick_conn :
    (c : TcpConn) (now ack : ℕ)
    → (c.state ≡ 2) ⊎ (c.state ≡ 7)
    → 0 < c.send_len
    → is_due c now ≡ true
    → drain_acked (tick_conn c now).0 ack ≡ (tick_conn c now).0
unfolding drain_acked
drain_acked-tick_conn c now ack st p due =
    subst (λ d. drain_acked d ack ≡ d) (sym (tick_conn_data c now st p due))
      (let ignored : ((sub_seq ack c.snd_una == 0)
              || ltb (sub_seq c.snd_una c.snd_una) (sub_seq ack c.snd_una))
            ≡ true =
          ground arith in
        rw ignored refl)
