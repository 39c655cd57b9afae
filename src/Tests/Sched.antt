-- ===== src/Tests/Sched.antt =====
-- The properties of the run queues at concrete inputs.
use onyx_kernel.Prelude.{ℕ, ◌≡◌, refl, true, false, none, some, List, [], ◌∷◌, arith}
use onyx_kernel.Prelude.Int.{negsuc}
use onyx_kernel.Proc.State.{assign}
use onyx_kernel.Proc.Runqueue.{Queues, empty_queue, init_queues, enqueue, dequeue, remove, steal}
use onyx_kernel.Proc.Runqueue.Refine.{Holds, init_queues-Holds, enqueue-Holds}
use onyx_kernel.Proc.Runqueue.Fifo.{dequeues, dequeue-dequeues}
use onyx_kernel.Proc.Runqueue.Remove.{remove_lem}
use onyx_kernel.Proc.Runqueue.Steal.{Stolen, steal_lem}

abbrev idle : Queues
idle = init_queues (record {
  next = λ p. none;
  on_rq = λ p. false;
  affinity = λ p. negsuc 0;
  rq = λ hart. empty_queue;
})

-- The processes 5 and 6 wait for the hart 0.
abbrev two_queued : Queues
two_queued = enqueue 0 6 (enqueue 0 5 idle)

abbrev two_lists : ℕ → List ℕ
two_lists = assign (assign (λ hart. []) 0 (5 ∷ [])) 0 (5 ∷ 6 ∷ [])

five-Holds : Holds (enqueue 0 5 idle) (assign (λ hart. []) 0 (5 ∷ []))
five-Holds = enqueue-Holds idle (λ hart. []) (init_queues-Holds idle (λ p. refl)) 0 5 refl

two_queued-Holds : Holds two_queued two_lists
unfolding enqueue
two_queued-Holds =
    enqueue-Holds (enqueue 0 5 idle) (assign (λ hart. []) 0 (5 ∷ [])) five-Holds 0 6 refl

dequeue-dequeues_example : (dequeue 0 (dequeues 2 0 (enqueue 0 7 two_queued))).0 ≡ some 7
unfolding enqueue
dequeue-dequeues_example = dequeue-dequeues two_queued two_lists 0 7 2 two_queued-Holds refl

remove_lem_example :
    ((remove 3 0 5 two_queued).0 ≡ true)
    × Holds (remove 3 0 5 two_queued).1 (assign two_lists 0 (6 ∷ []))
remove_lem_example = remove_lem 3 two_queued two_lists 0 5 two_queued-Holds (omega arith)

steal_lem_example :
    Stolen 1 two_queued two_lists
      (steal 1 (λ hart. true) two_queued).0
      (steal 1 (λ hart. true) two_queued).1
steal_lem_example = steal_lem 1 (λ hart. true) two_queued two_lists two_queued-Holds
