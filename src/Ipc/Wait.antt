-- ===== src/Ipc/Wait.antt =====
-- kernel/src/ipc/channel/ringbuf/wait.rs: the sleep and wake lists of a channel, threaded through
-- the field `wait_next` of the waiting processes.
pub mod Wake
pub mod Unlink
use onyx_kernel.Prelude.{
  ℕ, zero, suc, ◌≡◌, ◌≢◌, Bool, true, false, Option, none, some, List, [], ◌∷◌, map, ◌==◌,
  if◌then◌else◌,
}
use onyx_kernel.Proc.State.{ProcState, Procs, ready, waiting, assign}
use onyx_kernel.Ipc.Channel.{Channel}

-- The process `p`, the current one, goes to sleep at the front of the list.
unfoldable pub wait_enqueue : Procs → Option ℕ → ℕ → Procs × Option ℕ
wait_enqueue ps head p =
    (record { state = assign ps.state p waiting; wait_next = assign ps.wait_next p head }, some p)

-- The body of the loop of `wait_wake_all` at the process `cur`.
abbrev pub wake_one : Procs → ℕ → Procs
wake_one ps cur = record {
  state = assign ps.state cur ready;
  wait_next = assign ps.wait_next cur none;
}

-- The loop, on fuel; `next` is read before the body clears it.
pub wake_loop : ℕ → Option ℕ → Procs → Procs
wake_loop zero cur ps = ps
wake_loop (suc fuel) none ps = ps
wake_loop (suc fuel) (some cur) ps = wake_loop fuel (ps.wait_next cur) (wake_one ps cur)

-- The list is empty afterwards.
unfoldable pub wait_wake_all : ℕ → Procs → Option ℕ → Procs × Option ℕ
unfolding wake_loop
wait_wake_all fuel ps head = (wake_loop fuel head ps, none)

-- The loop of `disconnect_waiter` over one list: the process `p` is taken out. The state of the loop
-- is `cur`, `prev`, the head of the list and the processes' fields.
pub unlink_loop : ℕ → ℕ → Option ℕ → Option ℕ → Option ℕ → Procs → Procs × Option ℕ
unlink_loop zero p cur prev head ps = (ps, head)
unlink_loop (suc fuel) p none prev head ps = (ps, head)
unlink_loop (suc fuel) p (some cur) prev head ps =
    unlink_loop fuel p (ps.wait_next cur) (if cur == p then prev else some cur)
      (if cur == p then elim prev [ none ↦ ps.wait_next cur | some q ↦ head ] else head)
      (if cur == p
        then elim prev [
          | none ↦ ps
          | some q ↦ record ps { wait_next = assign ps.wait_next q (ps.wait_next cur) }
        ]
        else ps)

unfoldable pub unlink : ℕ → ℕ → Procs → Option ℕ → Procs × Option ℕ
unfolding unlink_loop
unlink fuel p ps head = unlink_loop fuel p head none head ps

-- `disconnect_waiter`: `p` is taken out of both lists of every channel.
unfoldable pub disconnect_waiter : ℕ → ℕ → Procs → List Channel → Procs × List Channel
unfolding unlink
disconnect_waiter fuel p ps [] = (ps, [])
disconnect_waiter fuel p ps (ch ∷ chs) =
    let (ps1, recv) = unlink fuel p ps ch.recv_wait in
    let (ps2, send) = unlink fuel p ps1 ch.send_wait in
    let (ps3, rest) = disconnect_waiter fuel p ps2 chs in
    (ps3, record ch { recv_wait = recv; send_wait = send } ∷ rest)

-- The processes `ps` of the list that starts at `head`, in order.
abbrev pub WaitList : Procs → Option ℕ → List ℕ → Type 0
WaitList ps head [] = head ≡ none
WaitList ps head (p ∷ rest) = (head ≡ some p) × WaitList ps (ps.wait_next p) rest

-- `p` does not stand in the list.
abbrev pub NotIn : ℕ → List ℕ → Type 0
NotIn p [] = Unit
NotIn p (q ∷ rest) = (p ≢ q) × NotIn p rest

abbrev pub Distinct : List ℕ → Type 0
Distinct [] = Unit
Distinct (p ∷ rest) = NotIn p rest × Distinct rest
