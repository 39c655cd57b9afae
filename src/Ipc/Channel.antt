-- ===== src/Ipc/Channel.antt =====
-- kernel/src/ipc/channel/types.rs and ringbuf/access.rs: a channel and who may use it.
use onyx_kernel.Prelude.{ℕ, Bool, false, ◌||◌, Option, none, List, [], ◌∷◌, replicate, take, ◌==◌}

abbrev pub chan_max : ℕ
chan_max = 32

abbrev pub chan_buf_size : ℕ
chan_buf_size = 4096

abbrev pub chan_name_max : ℕ
chan_name_max = 32

abbrev pub chan_max_clients : ℕ
chan_max_clients = 4

-- `struct Channel` but its lock: every operation is one step of the model while it holds the lock.
-- A wait list is the address of its first process.
pub record Channel : Type 0 where
  pub buf : List ℕ
  pub head : ℕ
  pub tail : ℕ
  pub owner_pid : ℕ
  pub clients : List ℕ
  pub num_clients : ℕ
  pub name : List ℕ
  pub name_len : ℕ
  pub used : Bool
  pub closed : Bool
  pub send_wait : Option ℕ
  pub recv_wait : Option ℕ

-- `Channel::zeroed`
unfoldable pub zeroed : Channel
zeroed = record {
  buf = replicate chan_buf_size 0;
  head = 0;
  tail = 0;
  owner_pid = 0;
  clients = replicate chan_max_clients 0;
  num_clients = 0;
  name = replicate chan_name_max 0;
  name_len = 0;
  used = false;
  closed = false;
  send_wait = none;
  recv_wait = none;
}

-- The search among `clients[..num_clients]`.
abbrev pub contains : List ℕ → ℕ → Bool
contains [] pid = false
contains (c ∷ cs) pid = c == pid || contains cs pid

unfoldable pub pid_allowed : Channel → ℕ → Bool
pid_allowed ch pid = pid == ch.owner_pid || contains (take ch.num_clients ch.clients) pid
