-- ===== src/Proc/Runqueue.antt =====
-- kernel/src/proc/scheduler/runqueue.rs and sched/steal.rs: the ready queue of each hart, threaded
-- through the field `next` of the processes. Each function runs under the lock of the queue it is
-- given, and a process is named by its address.
pub mod Chain
pub mod Refine
pub mod Fifo
pub mod Remove
pub mod Steal
use onyx_kernel.Prelude.{
  ℕ, zero, suc, ◌+◌, ◌-◌, ◌%◌, ◌^◌, Bool, true, false, not, ◌&&◌, Option, none, some, ltb, ◌==◌,
  if◌then◌else◌,
}
use onyx_kernel.Prelude.Int.{ℤ, pos, negsuc}
use onyx_kernel.Proc.State.{assign}

abbrev pub max_harts : ℕ
max_harts = 8

pub record RunQueue : Type 0 where
  pub head : Option ℕ
  pub tail : Option ℕ
  pub nr_ready : ℕ

-- `G_RQ`, with the fields of every `Proc` that the queues use.
pub record Queues : Type 0 where
  pub next : ℕ → Option ℕ
  pub on_rq : ℕ → Bool
  pub affinity : ℕ → ℤ
  pub rq : ℕ → RunQueue

abbrev pub empty_queue : RunQueue
empty_queue = record { head = none; tail = none; nr_ready = 0 }

-- `init`. The array has `max_harts` queues, and every function indexes below that.
abbrev pub init_queues : Queues → Queues
init_queues s = record s { rq = λ hart. empty_queue }

-- The pointers with `p` behind the tail.
abbrev pub next_linked : (ℕ → Option ℕ) → Option ℕ → ℕ → ℕ → Option ℕ
next_linked next none p = assign next p none
next_linked next (some t) p = assign (assign next p none) t (some p)

-- The queue with `p` behind its tail.
abbrev pub linked : RunQueue → ℕ → RunQueue
linked q p = record {
  head = elim q.tail [ none ↦ some p | some t ↦ q.head ];
  tail = some p;
  nr_ready = (q.nr_ready + 1) % 2 ^ 64;
}

unfoldable pub enqueue : ℕ → ℕ → Queues → Queues
enqueue hart p s = if s.on_rq p then s else record s {
  on_rq = assign s.on_rq p true;
  next = next_linked s.next (s.rq hart).tail p;
  rq = assign s.rq hart (linked (s.rq hart) p);
}

-- The hart to which `p` is pinned, or else `hart`.
abbrev pub target_hart : ℕ → ℤ → ℕ
target_hart hart (pos n) = if ltb n max_harts then n else hart
target_hart hart (negsuc n) = hart

unfoldable pub enqueue_affine : ℕ → ℕ → Queues → Queues
unfolding enqueue
enqueue_affine hart p s = enqueue (target_hart hart (s.affinity p)) p s

-- `nr_ready -= 1` on a usize. The source panics at 0; the counter here wraps.
abbrev pub one_less : ℕ → ℕ
one_less n = (n + (2 ^ 64 - 1)) % 2 ^ 64

unfoldable pub dequeue : ℕ → Queues → Option ℕ × Queues
dequeue hart s = elim (s.rq hart).head [
  | none ↦ (none, s)
  | some p ↦ (
    some p,
    record s {
      next = assign s.next p none;
      on_rq = assign s.on_rq p false;
      rq = assign s.rq hart (record {
        head = s.next p;
        tail = elim (s.next p) [ none ↦ none | some q ↦ (s.rq hart).tail ];
        nr_ready = one_less (s.rq hart).nr_ready;
      });
    },
  )
]

-- The tail of the queue is `p`.
abbrev pub is_tail : Option ℕ → ℕ → Bool
is_tail none p = false
is_tail (some t) p = t == p

-- The pointers with `p` passed over by `prev`, where there is one.
abbrev pub next_without : (ℕ → Option ℕ) → Option ℕ → ℕ → ℕ → Option ℕ
next_without next none p = assign next p none
next_without next (some q) p = assign (assign next q (next p)) p none

-- The queue without `p`, which stood behind `prev`.
abbrev pub queue_without : RunQueue → (ℕ → Option ℕ) → Option ℕ → ℕ → RunQueue
queue_without q next prev p = record {
  head = elim prev [ none ↦ next p | some r ↦ q.head ];
  tail = if is_tail q.tail p then prev else q.tail;
  nr_ready = one_less q.nr_ready;
}

-- The body of the loop of `remove` where the loop has come to `p`, behind `prev`.
abbrev pub take_out : ℕ → ℕ → Option ℕ → Queues → Queues
take_out hart p prev s = record s {
  next = next_without s.next prev p;
  on_rq = assign s.on_rq p false;
  rq = assign s.rq hart (queue_without (s.rq hart) s.next prev p);
}

-- The loop of `remove`, on fuel, at `cur` behind `prev`.
pub remove_loop : ℕ → ℕ → ℕ → Option ℕ → Option ℕ → Queues → Bool × Queues
remove_loop zero hart p prev cur s = (false, s)
remove_loop (suc fuel) hart p prev none s = (false, s)
remove_loop (suc fuel) hart p prev (some c) s =
    let rest = remove_loop fuel hart p (some c) (s.next c) s in
    if c == p then (true, take_out hart p prev s) else rest

unfoldable pub remove : ℕ → ℕ → ℕ → Queues → Bool × Queues
unfolding remove_loop
remove fuel hart p s =
    if not (s.on_rq p) then (false, s) else remove_loop fuel hart p none (s.rq hart).head s

-- `p` is pinned to a hart other than `hart`.
abbrev pub pinned_away : ℕ → ℤ → Bool
pinned_away hart (pos n) = not (n == hart)
pinned_away hart (negsuc n) = false

-- The process that the victim gave, or its way back to the victim.
abbrev pub keep_or_return : ℕ → ℕ → Option ℕ → Queues → Option ℕ × Queues
keep_or_return hart victim none t = (none, t)
keep_or_return hart victim (some p) t =
    if pinned_away hart (t.affinity p) then (none, enqueue victim p t) else (some p, t)

-- One round of `steal`, at the queue `victim`. `free` tells of each queue whether `try_lock` takes
-- its lock.
unfoldable pub steal_one : ℕ → (ℕ → Bool) → ℕ → Queues → Option ℕ × Queues
unfolding enqueue dequeue
steal_one hart free victim s =
    let (got, t) = dequeue victim s in
    if victim == hart
    then (none, s)
    else if not (free victim)
    then (none, s)
    else keep_or_return hart victim got t

-- The loop of `steal` with `n` victims left, at the offset `i`.
pub steal_loop : ℕ → ℕ → (ℕ → Bool) → ℕ → Queues → Option ℕ × Queues
unfolding steal_one
steal_loop zero hart free i s = (none, s)
steal_loop (suc n) hart free i s =
    let (got, t) = steal_one hart free ((hart + i) % max_harts) s in
    let rest = steal_loop n hart free (i + 1) t in elim got [ none ↦ rest | some p ↦ (some p, t) ]

unfoldable pub steal : ℕ → (ℕ → Bool) → Queues → Option ℕ × Queues
unfolding steal_loop
steal hart free s = steal_loop (max_harts - 1) hart free 1 s
