-- ===== src/Ipc/Transfer/Wakeup.antt =====
-- Sleeping and waking in the transfers of a channel.
use onyx_kernel.Prelude.{
  ℕ, ◌≤◌, ◌≡◌, ◌≢◌, refl, sym, ap, ◌∙◌, subst, true, not, Option, none, some, List, [], ◌∷◌, length,
  arith, All, ◌==◌,
}
use onyx_kernel.Core.Errno.{ok, err, busy}
use onyx_kernel.Core.Ringbuf.{ring_used}
use onyx_kernel.Proc.State.{Procs, ready, waiting, assign_self}
use onyx_kernel.Ipc.Channel.{Channel}
use onyx_kernel.Ipc.Wait.{wait_enqueue, WaitList, NotIn, Distinct}
use onyx_kernel.Ipc.Wait.Wake.{wait_enqueue-WaitList, wait_wake_all_lem}
use mathlib.Core.Path.{subst₂}
use onyx_kernel.Ipc.Transfer.{Caller, wake_if, is_some, send_on, recv_on}

-- The processes of the list `l` run again, and stand in no list.
abbrev pub Awake : Procs → List ℕ → Type 0
Awake ps l = All (λ p. (ps.state p ≡ ready) × (ps.wait_next p ≡ none)) l

wake_if_lem :
    (fuel : ℕ) (ps : Procs) (head : Option ℕ) (l : List ℕ)
    → WaitList ps head l
    → Distinct l
    → length l ≤ fuel
    → ((wake_if fuel ps head).1 ≡ none)
      × Awake (wake_if fuel ps head).0 l
      × (is_some head ≡ not (length l == 0))
wake_if_lem fuel ps none [] w d f = (refl, tt, refl)
wake_if_lem fuel ps none (p ∷ l) w d f = absurd (cc)
wake_if_lem fuel ps (some q) [] w d f = absurd (cc)
wake_if_lem fuel ps (some q) (p ∷ l) w d f =
    let woken = wait_wake_all_lem fuel ps (some q) (p ∷ l) w d f in (woken.0, woken.1, ground arith)

send_ok :
    (fuel : ℕ) (c : Caller) (ps : Procs) (ch : Channel) (src : List ℕ) {n : ℕ}
    → (send_on fuel c ps ch src).result ≡ ok n
    → let o = send_on fuel c ps ch src in
      (o.procs ≡ (wake_if fuel ps ch.recv_wait).0)
      × (o.channel.recv_wait ≡ (wake_if fuel ps ch.recv_wait).1)
      × (o.resched ≡ is_some ch.recv_wait)
unfolding send_on
send_ok fuel c ps ch src h = ground arith

recv_ok :
    (fuel : ℕ) (c : Caller) (ps : Procs) (ch : Channel) (dst : List ℕ) {n : ℕ}
    → ring_used ch.head ch.tail ≢ 0
    → (recv_on fuel c ps ch dst).result ≡ ok n
    → let o = recv_on fuel c ps ch dst in
      (o.procs ≡ (wake_if fuel ps ch.send_wait).0)
      × (o.channel.send_wait ≡ (wake_if fuel ps ch.send_wait).1)
      × (o.resched ≡ is_some ch.send_wait)
unfolding recv_on
recv_ok fuel c ps ch dst u h = ground arith

-- A `send` that succeeds wakes every process that sleeps in the channel's receive list, empties the
-- list, and asks for a reschedule exactly if a process slept there.
pub send_wakes :
    (fuel : ℕ) (c : Caller) (ps : Procs) (ch : Channel) (src l : List ℕ) {n : ℕ}
    → WaitList ps ch.recv_wait l
    → Distinct l
    → length l ≤ fuel
    → (send_on fuel c ps ch src).result ≡ ok n
    → let o = send_on fuel c ps ch src in
      (o.channel.recv_wait ≡ none) × Awake o.procs l × (o.resched ≡ not (length l == 0))
send_wakes fuel c ps ch src l w d f r =
    let e = send_ok fuel c ps ch src r in
    let k = wake_if_lem fuel ps ch.recv_wait l w d f in
    (e.1 ∙ k.0, subst (λ q. Awake q l) (sym e.0) k.1, e.2 ∙ k.2)

-- A `recv` that succeeds on a channel with bytes in it does so for the send list.
pub recv_wakes :
    (fuel : ℕ) (c : Caller) (ps : Procs) (ch : Channel) (dst l : List ℕ) {n : ℕ}
    → WaitList ps ch.send_wait l
    → Distinct l
    → length l ≤ fuel
    → ring_used ch.head ch.tail ≢ 0
    → (recv_on fuel c ps ch dst).result ≡ ok n
    → let o = recv_on fuel c ps ch dst in
      (o.channel.send_wait ≡ none) × Awake o.procs l × (o.resched ≡ not (length l == 0))
recv_wakes fuel c ps ch dst l w d f u r =
    let e = recv_ok fuel c ps ch dst u r in
    let k = wake_if_lem fuel ps ch.send_wait l w d f in
    (e.1 ∙ k.0, subst (λ q. Awake q l) (sym e.0) k.1, e.2 ∙ k.2)

send_yield :
    (fuel : ℕ) (c : Caller) (ps : Procs) (ch : Channel) (src : List ℕ)
    → (send_on fuel c ps ch src).yielded ≡ true
    → let o = send_on fuel c ps ch src in
      (o.result ≡ err busy)
      × (o.procs ≡ (wait_enqueue ps ch.send_wait c.proc).0)
      × (o.channel ≡ record ch { send_wait = (wait_enqueue ps ch.send_wait c.proc).1 })
unfolding send_on
send_yield fuel c ps ch src h = ground arith

-- A `send` that gives up the processor fails with `Busy`, has put the caller, waiting, in front of
-- the channel's send list, and has changed nothing else of the channel.
pub send_sleeps :
    (fuel : ℕ) (c : Caller) (ps : Procs) (ch : Channel) (src l : List ℕ)
    → WaitList ps ch.send_wait l
    → NotIn c.proc l
    → (send_on fuel c ps ch src).yielded ≡ true
    → let o = send_on fuel c ps ch src in
      (o.result ≡ err busy)
      × (o.procs.state c.proc ≡ waiting)
      × WaitList o.procs o.channel.send_wait (c.proc ∷ l)
      × (record (o.channel) { send_wait = ch.send_wait } ≡ ch)
send_sleeps fuel c ps ch src l w n h =
    let e = send_yield fuel c ps ch src h in
    let asleep = wait_enqueue-WaitList ps ch.send_wait c.proc l n w in
    (
      e.0,
      ap (λ q. q.state c.proc) e.1 ∙ unfold wait_enqueue in assign_self ps.state c.proc waiting,
      subst₂ (λ q k. WaitList q k (c.proc ∷ l)) (sym e.1) (sym (ap (λ k. k.send_wait) e.2)) asleep,
      ap (λ k. let r : Channel = record k { send_wait = ch.send_wait } in r) e.2,
    )
