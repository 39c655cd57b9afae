-- ===== src/Ipc/Wait/Wake.antt =====
-- What waking does to the processes of a list.
use onyx_kernel.Prelude.{
  ℕ, zero, suc, ◌≤◌, ◌≡◌, ◌≢◌, refl, sym, subst, ◌∙◌, Option, none, some, List, [], ◌∷◌, length,
  arith, All,
}
use onyx_kernel.Proc.State.{Procs, ready, waiting, assign, assign_self, assign_ne}
use onyx_kernel.Ipc.Wait.{
  wait_enqueue, wake_one, wake_loop, wait_wake_all, WaitList, NotIn, Distinct,
}

-- A change at a process outside the list leaves the list as it is.
pub WaitList-frame :
    (ps qs : Procs) (head : Option ℕ) (p : ℕ) (rest : List ℕ)
    → NotIn p rest
    → ((q : ℕ) → q ≢ p → qs.wait_next q ≡ ps.wait_next q)
    → WaitList ps head rest
    → WaitList qs head rest
WaitList-frame ps qs head p [] n same w = w
WaitList-frame ps qs head p (q ∷ rest) n same w = (
  w.0,
  subst (λ h. WaitList qs h rest) (sym (same q (λ e. n.0 (sym e))))
      (WaitList-frame ps qs (ps.wait_next q) p rest n.1 same w.1),
)

-- The process that goes to sleep is in front of those that slept before.
pub wait_enqueue-WaitList :
    (ps : Procs) (head : Option ℕ) (p : ℕ) (rest : List ℕ)
    → NotIn p rest
    → WaitList ps head rest
    → WaitList (wait_enqueue ps head p).0 (wait_enqueue ps head p).1 (p ∷ rest)
unfolding wait_enqueue
wait_enqueue-WaitList ps head p rest n w = (
  refl,
  WaitList-frame ps (wait_enqueue ps head p).0 _ p rest n (assign_ne ps.wait_next p head) w_head,
)
  where
    w_head : WaitList ps (assign ps.wait_next p head p) rest
    w_head = subst (λ h. WaitList ps h rest) (sym (assign_self ps.wait_next p head)) w

-- What one round of waking leaves of the list behind the first process.
after_one :
    (ps : Procs) (p : ℕ) (rest : List ℕ)
    → NotIn p rest
    → WaitList ps (ps.wait_next p) rest
    → WaitList (wake_one ps p) (ps.wait_next p) rest
after_one ps p rest n w =
    WaitList-frame ps (wake_one ps p) (ps.wait_next p) p rest n (assign_ne ps.wait_next p none) w

-- A wake leaves the processes outside the list alone.
pub wake_loop_frame :
    (fuel : ℕ) (ps : Procs) (head : Option ℕ) (l : List ℕ) (q : ℕ)
    → WaitList ps head l
    → Distinct l
    → NotIn q l
    → ((wake_loop fuel head ps).state q ≡ ps.state q)
      × ((wake_loop fuel head ps).wait_next q ≡ ps.wait_next q)
unfolding wake_loop
wake_loop_frame zero ps head l q w d n = (refl, refl)
wake_loop_frame (suc fuel) ps none l q w d n = (refl, refl)
wake_loop_frame (suc fuel) ps (some c) [] q w d n = absurd (cc)
wake_loop_frame (suc fuel) ps (some c) (p ∷ l) q w d n =
    let e : c ≡ p = cc in
    rw e (
      ground (
        arith,
        wake_loop_frame fuel (wake_one ps p) (ps.wait_next p) l q (after_one ps p l d.0 w.1) d.1
            n.1,
        n.0,
      ))

wake_loop_ready :
    (fuel : ℕ) (ps : Procs) (head : Option ℕ) (l : List ℕ)
    → WaitList ps head l
    → Distinct l
    → length l ≤ fuel
    → All
        (λ p.
          ((wake_loop fuel head ps).state p ≡ ready)
          × ((wake_loop fuel head ps).wait_next p ≡ none))
        l
unfolding wake_loop
wake_loop_ready fuel ps head [] w d f = tt
wake_loop_ready zero ps head (p ∷ l) w d f = absurd (omega arith)
wake_loop_ready (suc fuel) ps head (p ∷ l) w d f =
    let next = after_one ps p l d.0 w.1 in
    let kept = wake_loop_frame fuel (wake_one ps p) (ps.wait_next p) l p next d.1 d.0 in
    subst
      (λ h.
        All
          (λ r.
            ((wake_loop (suc fuel) h ps).state r ≡ ready)
            × ((wake_loop (suc fuel) h ps).wait_next r ≡ none))
          (p ∷ l))
      (sym w.0)
      (
        (kept.0 ∙ assign_self ps.state p ready, kept.1 ∙ assign_self ps.wait_next p none),
        wake_loop_ready fuel (wake_one ps p) (ps.wait_next p) l next d.1 (omega arith),
      )

-- With a round of fuel for each process of the list the wake ends at the end of the list: each of
-- its processes is ready and stands in no list, and the channel's list is empty.
pub wait_wake_all_lem :
    (fuel : ℕ) (ps : Procs) (head : Option ℕ) (l : List ℕ)
    → WaitList ps head l
    → Distinct l
    → length l ≤ fuel
    → let (qs, head') = wait_wake_all fuel ps head in
      (head' ≡ none) × All (λ p. (qs.state p ≡ ready) × (qs.wait_next p ≡ none)) l
unfolding wait_wake_all
wait_wake_all_lem fuel ps head l w d f = (refl, wake_loop_ready fuel ps head l w d f)

-- A process that goes to sleep while it is still in front of the list (a signal woke it, which does
-- not unlink it) cuts off the processes behind it: no wake of the channel changes their state.
pub wait_enqueue_twice_loses :
    (fuel : ℕ) (ps : Procs) (p q : ℕ)
    → q ≢ p
    → let (qs, head) = wait_enqueue ps (some p) p in
      (wait_wake_all fuel qs head).0.state q ≡ ps.state q
unfolding wait_enqueue wait_wake_all
wait_enqueue_twice_loses zero ps p q n = assign_ne ps.state p waiting q n
wait_enqueue_twice_loses (suc zero) ps p q n = ground arith
wait_enqueue_twice_loses (suc (suc zero)) ps p q n = ground arith
wait_enqueue_twice_loses (suc (suc (suc fuel))) ps p q n = ground arith
