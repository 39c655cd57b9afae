-- ===== src/Ipc/Transfer.antt =====
-- kernel/src/ipc/channel/ringbuf/send.rs and recv.rs: the two transfers. The channel's lock is held
-- from the first check to the last change, so a transfer is one step; the scheduler, which runs after
-- the lock is released, is reported by flags and not run.
pub mod Refine
pub mod Wakeup
use onyx_kernel.Prelude.{
  ℕ, zero, suc, Bool, true, false, not, ◌||◌, Option, none, some, List, length, get_elem?, set, ltb,
  leb, ◌==◌, if◌then◌else◌,
}
use onyx_kernel.Core.Errno.{KResult, ok, err, inval, pipe, perm, busy}
use onyx_kernel.Core.Ringbuf.{ring_used, ring_free, ring_write, ring_read}
use onyx_kernel.Proc.State.{Procs}
use onyx_kernel.Ipc.Channel.{Channel, pid_allowed, chan_max, chan_buf_size}
use onyx_kernel.Ipc.Wait.{wait_enqueue, wait_wake_all}

-- Who calls: the process's address and pid, and whether it gave its trap frame, so that it may sleep.
pub record Caller : Type 0 where
  pub proc : ℕ
  pub pid : ℕ
  pub may_sleep : Bool

-- What a transfer leaves: its result, the caller's buffer, the channel, the processes, and whether
-- it asked for a reschedule and whether it gave up the processor.
pub record Outcome : Type 0 where
  pub result : KResult ℕ
  pub buffer : List ℕ
  pub channel : Channel
  pub procs : Procs
  pub resched : Bool
  pub yielded : Bool

abbrev stop : Channel → Procs → List ℕ → KResult ℕ → Outcome
stop ch ps b r = record {
  result = r;
  buffer = b;
  channel = ch;
  procs = ps;
  resched = false;
  yielded = false;
}

abbrev is_some : Option ℕ → Bool
is_some none = false
is_some (some p) = true

-- Waking the list `head`, if there is one; `fuel` bounds the rounds of the wake.
abbrev wake_if : ℕ → Procs → Option ℕ → Procs × Option ℕ
wake_if fuel ps head = if is_some head then wait_wake_all fuel ps head else (ps, head)

-- `send` from the point where the channel is locked.
unfoldable pub send_on : ℕ → Caller → Procs → Channel → List ℕ → Outcome
send_on fuel c ps ch src =
    let (ps_asleep, list) = wait_enqueue ps ch.send_wait c.proc in
    let (buf', tail', written) = ring_write ch.buf ch.head ch.tail src in
    let (ps_awake, list') = wake_if fuel ps ch.recv_wait in
    if not ch.used || ch.closed
    then stop ch ps src (err pipe)
    else if not (pid_allowed ch c.pid)
    then stop ch ps src (err perm)
    else if ltb (ring_free chan_buf_size ch.head ch.tail) (length src)
    then if c.may_sleep
      then record {
        result = err busy;
        buffer = src;
        channel = record ch { send_wait = list };
        procs = ps_asleep;
        resched = true;
        yielded = true;
      }
      else stop ch ps src (err busy)
    else record {
      result = ok written;
      buffer = src;
      channel = record ch { buf = buf'; tail = tail'; recv_wait = list' };
      procs = ps_awake;
      resched = is_some ch.recv_wait;
      yielded = false;
    }

-- `recv` from the point where the channel is locked.
unfoldable pub recv_on : ℕ → Caller → Procs → Channel → List ℕ → Outcome
recv_on fuel c ps ch dst =
    let (ps_asleep, list) = wait_enqueue ps ch.recv_wait c.proc in
    let (dst', head', read) = ring_read ch.buf ch.head ch.tail dst in
    let (ps_awake, list') = wake_if fuel ps ch.send_wait in
    if not ch.used || ch.closed
    then stop ch ps dst (err pipe)
    else if not (pid_allowed ch c.pid)
    then stop ch ps dst (err perm)
    else if ring_used ch.head ch.tail == 0
    then if c.may_sleep
      then record {
        result = ok 0;
        buffer = dst;
        channel = record ch { recv_wait = list };
        procs = ps_asleep;
        resched = true;
        yielded = true;
      }
      else stop ch ps dst (ok 0)
    else record {
      result = ok read;
      buffer = dst';
      channel = record ch { head = head'; send_wait = list' };
      procs = ps_awake;
      resched = is_some ch.send_wait;
      yielded = false;
    }

-- The result, the caller's buffer, the table of channels and the processes.
abbrev pub Transferred : Type 0
Transferred = KResult ℕ × List ℕ × List Channel × Procs

-- The table has `chan_max` channels, so the second guard only repeats the first.
abbrev on_channel :
    (ℕ → Caller → Procs → Channel → List ℕ → Outcome)
    → ℕ
    → Caller
    → Procs
    → List Channel
    → ℕ
    → List ℕ
    → Transferred
on_channel op fuel c ps t id b =
    if leb chan_max id then (err inval, b, t, ps) else elim (get_elem? t id) [
      | none ↦ (err inval, b, t, ps)
      | some ch ↦ let o = op fuel c ps ch b in (o.result, o.buffer, set t id o.channel, o.procs)
    ]

unfoldable pub send : ℕ → Caller → Procs → List Channel → ℕ → List ℕ → Transferred
send = on_channel send_on

unfoldable pub recv : ℕ → Caller → Procs → List Channel → ℕ → List ℕ → Transferred
recv = on_channel recv_on
