-- ===== src/Net/Tcp/Retry/Bound.antt =====
-- Net/Tcp/Retry: how often a connection sends again.
use onyx_kernel.Prelude.{ℕ, ◌+◌, ◌-◌, ◌≤◌, List, [], ◌∷◌, length, arith}
use onyx_kernel.Net.Tcp.{TcpConn}
use onyx_kernel.Net.Tcp.Retry.{plan, max_retries, tick_conn}

-- The segments that a connection sends again at the given times, when nothing arrives for it.
abbrev pub resent : List ℕ → TcpConn → ℕ
resent [] c = 0
resent (now ∷ times) c = length (tick_conn c now).1 + resent times (tick_conn c now).0

plan-retries :
    (c : TcpConn) (now : ℕ)
    → length (tick_conn c now).1 + (max_retries - (tick_conn c now).0.retries)
      ≤ max_retries - c.retries
unfolding tick_conn plan
plan-retries c now = ground arith

-- Without an answer a connection sends again no more often than it has tries left, however long it
-- waits.
pub resent_le : (times : List ℕ) (c : TcpConn) → resent times c ≤ max_retries - c.retries
resent_le [] c = omega arith
resent_le (now ∷ times) c = omega (arith, plan-retries c now, resent_le times (tick_conn c now).0)
