-- ===== src/Net/Tcp/Listen/Exit.antt =====
-- Net/Tcp/Listen: what is left of a process in the tables when it has ended.
use onyx_kernel.Prelude.{ℕ, ◌≡◌, ◌≢◌, Option, none, some, set, map, if◌then◌else◌, ◌⊎◌}
use onyx_kernel.Net.Tcp.{TcpConn}
use onyx_kernel.Net.Tcp.Listen.{
  Listener, Sockets, listener_at, owner, is_owner, close, without_listener,
}

-- The tables without the listener at `i`.
abbrev closed : ℕ → Sockets → Sockets
closed i s = record {
  listeners = set (s.listeners) i none;
  conns = map (without_listener i) (s.conns);
}

abbrev round : ℕ → ℕ → Sockets → Sockets
round pid i s = if is_owner pid (owner i s) then (close i s).1 else s

-- The connection comes from no listener of the process.
abbrev pub IsApart : ℕ → TcpConn → Sockets → Type 0
IsApart pid c s =
    (i : ℕ) (l : Listener) → listener_at s.listeners i ≡ some l → l.owner_pid ≡ pid → c.listener ≢ i

-- What the end of a process makes of a connection: one that comes from a listener of the process is freed;
-- of the others, one of another process is kept, one of the process that is closing is kept without an
-- owner, and any other one of the process is freed.
abbrev pub Ended : ℕ → TcpConn → Option ℕ → Option TcpConn → Type 0
Ended pid c from slot =
    ((from ≡ some pid) × (slot ≡ none))
    ⊎ ((from ≢ some pid) × (c.owner_pid ≢ pid) × (slot ≡ some c))
    ⊎ ((from ≢ some pid)
        × (c.owner_pid ≡ pid)
        × ((c.state ≡ 3) ⊎ (c.state ≡ 4))
        × (slot ≡ some (record c { owner_pid = 0 })))
    ⊎ ((from ≢ some pid) × (c.owner_pid ≡ pid) × (c.state ≢ 3) × (c.state ≢ 4) × (slot ≡ none))
