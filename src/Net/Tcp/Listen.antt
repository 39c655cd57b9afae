-- ===== src/Net/Tcp/Listen.antt =====
-- kernel/src/net/tcp/listen.rs, listeners and the connections that wait in them, and what
-- net/ownership.rs does to them: which process may use them, and the end of a process.
pub mod Queue
pub mod Exit
use onyx_kernel.Prelude.{
  ℕ, zero, suc, ◌+◌, ◌-◌, ◌%◌, Bool, true, false, not, ◌&&◌, ◌||◌, Option, none, some, List, [],
  ◌∷◌, get_or, set, map, replicate, ltb, leb, ◌==◌, if◌then◌else◌,
}
use onyx_kernel.Core.Errno.{KResult, ok, err, inval, no_ent, busy, perm}
use onyx_kernel.Net.Tcp.{TcpConn, no_listener}
use onyx_kernel.Net.Tcp.Sock.{Conns, conn_at}

abbrev pub listeners_max : ℕ
listeners_max = 8

abbrev pub backlog : ℕ
backlog = 4

pub record Listener : Type 0 where
  pub owner_pid : ℕ
  pub port : ℕ
  pub queue : List ℕ
  pub first : ℕ
  pub len : ℕ

-- `LISTENERS` and `CONNS`
pub record Sockets : Type 0 where
  pub listeners : List (Option Listener)
  pub conns : Conns

abbrev pub listener_at : List (Option Listener) → ℕ → Option Listener
listener_at ls i = get_or ls i none

abbrev pub port_taken : ℕ → List (Option Listener) → Bool
port_taken port [] = false
port_taken port (none ∷ ls) = port_taken port ls
port_taken port (some l ∷ ls) = (l.port == port) || port_taken port ls

-- `position(Option::is_none)` from the index `i` on.
abbrev pub free_slot : ℕ → List (Option Listener) → Option ℕ
free_slot i [] = none
free_slot i (none ∷ ls) = some i
free_slot i (some l ∷ ls) = free_slot (i + 1) ls

abbrev pub new_listener : ℕ → Listener
new_listener p = record { owner_pid = 0; port = p; queue = replicate backlog 0; first = 0; len = 0 }

unfoldable pub listen : ℕ → Sockets → KResult ℕ × Sockets
listen port s =
    if port == 0
    then (err inval, s)
    else if port_taken port s.listeners
    then (err busy, s)
    else elim (free_slot 0 s.listeners) [
      | none ↦ (err busy, s)
      | some i ↦ (ok i, record s { listeners = set (s.listeners) i (some (new_listener port)) })
    ]

-- A connection of the listener that is established, or closed by its peer only.
abbrev pub acceptable : ℕ → TcpConn → Bool
acceptable i c = (c.listener == i) && ((c.state == 2) || (c.state == 7))

abbrev pub advanced : Listener → Listener
advanced l = record l { first = (l.first + 1) % backlog; len = l.len - 1 }

-- The connection at the front of the queue goes to the caller, if it is still one of the listener's.
abbrev pub hand_out : ℕ → ℕ → Conns → KResult ℕ × Conns
hand_out i cid conns = elim (conn_at conns cid) [
  | none ↦ (err no_ent, conns)
  | some c ↦
      if acceptable i c
      then (ok cid, set conns cid (some (record c { listener = no_listener })))
      else (err no_ent, conns)
]

unfoldable pub accept : ℕ → Sockets → KResult ℕ × Sockets
accept i s = elim (listener_at s.listeners i) [
  | none ↦ (err inval, s)
  | some l ↦
      if ltb 0 l.len
      then (let (result, after) = hand_out i (get_or l.queue l.first 0) s.conns in
          (result, record { listeners = set (s.listeners) i (some (advanced l)); conns = after }))
      else (err no_ent, s)
]

abbrev pub without_listener : ℕ → Option TcpConn → Option TcpConn
without_listener i none = none
without_listener i (some c) = if c.listener == i then none else some c

unfoldable pub close : ℕ → Sockets → KResult (Unit {0}) × Sockets
close i s =
    let closed : Sockets = record {
      listeners = set (s.listeners) i none;
      conns = map (without_listener i) s.conns;
    } in
    if leb listeners_max i
    then (err inval, s)
    else elim (listener_at s.listeners i) [ none ↦ (err inval, s) | some l ↦ (ok tt, closed) ]

abbrev pub pushed : ℕ → Listener → Listener
pushed cid l = record l { queue = set (l.queue) ((l.first + l.len) % backlog) cid; len = l.len + 1 }

-- A handshake that has come to its end puts the connection into the queue, or drops it.
unfoldable pub established : ℕ → ℕ → Sockets → Sockets
established cid parent s =
    let dropped = record s { conns = set (s.conns) cid none } in
    elim (listener_at s.listeners parent) [
      | none ↦ dropped
      | some l ↦
          if ltb l.len backlog
          then record s { listeners = set (s.listeners) parent (some (pushed cid l)) }
          else dropped
    ]

abbrev pub set_owner : ℕ → ℕ → Sockets → Sockets
set_owner i pid s = elim (listener_at s.listeners i) [
  | none ↦ s
  | some l ↦ record s { listeners = set (s.listeners) i (some (record l { owner_pid = pid })) }
]

abbrev pub owner_of : Option Listener → Option ℕ
owner_of none = none
owner_of (some l) = some l.owner_pid

abbrev pub owner : ℕ → Sockets → Option ℕ
owner i s = owner_of (listener_at s.listeners i)

abbrev pub is_owner : ℕ → Option ℕ → Bool
is_owner pid none = false
is_owner pid (some o) = o == pid

-- The first loop of `close_process`, over `n` listeners from `i` on.
unfoldable pub close_listeners : ℕ → ℕ → ℕ → Sockets → Sockets
close_listeners pid zero i s = s
close_listeners pid (suc n) i s =
    close_listeners pid n (i + 1) (if is_owner pid (owner i s) then (close i s).1 else s)

-- The second loop: a connection of the process is freed, or kept without an owner while it closes.
abbrev pub without_owner : ℕ → Option TcpConn → Option TcpConn
without_owner pid none = none
without_owner pid (some c) =
    if c.owner_pid == pid
    then (if (c.state == 3) || (c.state == 4) then some (record c { owner_pid = 0 }) else none)
    else some c

-- The third loop of the source, over the sockets of UDP, is not modelled.
unfoldable pub close_process : ℕ → Sockets → Sockets
close_process pid s =
    let t = close_listeners pid listeners_max 0 s in
    record t { conns = map (without_owner pid) (t.conns) }

-- `tcp` and `listener` of ownership.rs
abbrev pub tcp_access : ℕ → ℕ → Sockets → KResult (Unit {0})
tcp_access id pid s = elim (conn_at s.conns id) [
  | none ↦ err inval
  | some c ↦ if c.owner_pid == pid then ok tt else err perm
]

abbrev pub listener_access : ℕ → ℕ → Sockets → KResult (Unit {0})
listener_access id pid s = elim (owner id s) [
  | none ↦ err inval
  | some o ↦ if o == pid then ok tt else err perm
]
