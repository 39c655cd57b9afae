-- ===== src/Tests/Ipc.antt =====
-- The properties of the channels at concrete inputs.
use onyx_kernel.Prelude.{
  ℕ, ◌≡◌, refl, true, Option, none, some, List, [], ◌∷◌, replicate, ◌++◌, ◌-◌, ◌||◌, length,
  if◌then◌else◌, ◌==◌, arith, All,
}
use onyx_kernel.Core.Errno.{KResult, ok}
use onyx_kernel.Core.Ringbuf.{ring_used, ring_free, ring_write, ring_read}
use onyx_kernel.Proc.State.{Procs, ready, running, waiting}
use onyx_kernel.Ipc.Channel.{Channel, zeroed, pid_allowed, chan_buf_size}
use onyx_kernel.Ipc.Wait.{WaitList, Distinct, wait_wake_all}
use onyx_kernel.Ipc.Wait.Wake.{wait_wake_all_lem}
use onyx_kernel.Ipc.Transfer.{Caller, send_on, recv_on}
use onyx_kernel.Ipc.Transfer.Refine.{
  HasRing, pending, queue_send, queue_recv, send_on_refines, recv_on_refines,
}
use onyx_kernel.Ipc.Registry.Clients.{HasClients}
use onyx_kernel.Ipc.Registry.Names.{IsUnique}
use onyx_kernel.Ipc.Registry.Unique.{
  named_call, close_call, apply_all, boot_table, reachable-IsUnique,
}

-- The processes 8 and 9 wait, in this order.
abbrev two_asleep : Procs
two_asleep = record {
  state = λ p. if p == 8 || p == 9 then waiting else running;
  wait_next = λ p. if p == 8 then some 9 else none;
}

two_asleep-WaitList : WaitList two_asleep (some 8) (8 ∷ 9 ∷ [])
two_asleep-WaitList = (refl, (refl, refl))

eight_nine-Distinct : Distinct (8 ∷ 9 ∷ [])
eight_nine-Distinct = ((λ e. absurd (omega (arith, e)), tt), (tt, tt))

-- A channel of the process 1 with the bytes of `buf` and three wait lists.
abbrev channel : ℕ → List ℕ → Option ℕ → Option ℕ → Channel
channel n text sleepers readers = record zeroed {
  buf = text ++ replicate (chan_buf_size - length text) 0;
  tail = n;
  owner_pid = 1;
  used = true;
  send_wait = sleepers;
  recv_wait = readers;
}

abbrev caller : Caller
caller = record { proc = 7; pid = 1; may_sleep = true }

idle-HasRing : HasRing (channel 2 (5 ∷ 6 ∷ []) none none)
unfolding ring_used zeroed
idle-HasRing = record {
  cells = refl;
  head_lt = omega arith;
  tail_lt = omega arith;
  fits = omega arith;
}

send_on_refines_example :
    let o = send_on 2 caller two_asleep (channel 2 (5 ∷ 6 ∷ []) none none) (7 ∷ 8 ∷ []) in
    (◌≡◌ {A = KResult ℕ × List ℕ} (o.result, pending o.channel) (ok 2, 5 ∷ 6 ∷ 7 ∷ 8 ∷ []))
    × HasRing o.channel
unfolding send_on queue_send ring_used ring_free ring_write zeroed pid_allowed
send_on_refines_example =
    send_on_refines 2 caller two_asleep (channel 2 (5 ∷ 6 ∷ []) none none) (7 ∷ 8 ∷ []) idle-HasRing

recv_on_refines_example :
    let o = recv_on 2 caller two_asleep (channel 2 (5 ∷ 6 ∷ []) none none) (0 ∷ []) in
    (◌≡◌ {A = KResult ℕ × List ℕ × List ℕ}
      (o.result, o.buffer, pending o.channel)
      (ok 1, 5 ∷ [], 6 ∷ []))
    × HasRing o.channel
unfolding recv_on queue_recv ring_used ring_read zeroed pid_allowed
recv_on_refines_example =
    recv_on_refines 2 caller two_asleep (channel 2 (5 ∷ 6 ∷ []) none none) (0 ∷ []) idle-HasRing
      (omega arith)

wait_wake_all_lem_example :
    let (qs, head') = wait_wake_all 2 two_asleep (some 8) in
    (head' ≡ none) × All (λ p. (qs.state p ≡ ready) × (qs.wait_next p ≡ none)) (8 ∷ 9 ∷ [])
wait_wake_all_lem_example =
    wait_wake_all_lem 2 two_asleep (some 8) (8 ∷ 9 ∷ []) two_asleep-WaitList eight_nine-Distinct
      (omega arith)

-- A channel of the process 1 with the clients 3 and 4.
abbrev served : Channel
served = record zeroed { owner_pid = 1; used = true; clients = 3 ∷ 4 ∷ 0 ∷ 0 ∷ []; num_clients = 2 }

served-HasClients : HasClients served
served-HasClients = record { slots = refl; in_use = omega arith }

reachable-IsUnique_example :
    IsUnique
      (apply_all boot_table (named_call (65 ∷ []) 1 ∷ named_call (65 ∷ []) 2 ∷ close_call 0 ∷ []))
reachable-IsUnique_example =
    reachable-IsUnique (named_call (65 ∷ []) 1 ∷ named_call (65 ∷ []) 2 ∷ close_call 0 ∷ [])
