-- ===== src/Proc/Runqueue/Fifo.antt =====
-- Proc/Runqueue: the order in which processes leave a queue.
use onyx_kernel.Prelude.{
  ℕ, zero, suc, ◌≡◌, refl, sym, ap, subst, ◌∙◌, true, false, List, [], ◌∷◌, ◌++◌, get_elem?,
  get_elem?-drop_nil, get_elem?-drop_cons, drop, drop_nil, List-cases, inl, inr,
}
use onyx_kernel.Proc.State.{assign, assign_self}
use onyx_kernel.Proc.Runqueue.{Queues, enqueue, enqueue_affine, dequeue, target_hart}
use onyx_kernel.Proc.Runqueue.Refine.{Holds, enqueue-Holds, dequeue_empty, dequeue-Holds}

queued_already : (s : Queues) (hart p : ℕ) → s.on_rq p ≡ true → enqueue hart p s ≡ s
unfolding enqueue
queued_already s hart p e = rw e refl

-- A process that is in a queue already stays where it is; any other goes behind the last process of
-- the hart to which it is pinned, or else of the caller's.
pub enqueue_affine_lem :
    (s : Queues) (lists : ℕ → List ℕ) (hart p : ℕ)
    → Holds s lists
    → let target = target_hart hart (s.affinity p) in
      (s.on_rq p ≡ true → enqueue_affine hart p s ≡ s)
      × (s.on_rq p ≡ false
          → Holds (enqueue_affine hart p s) (assign lists target (lists target ++ p ∷ [])))
unfolding enqueue_affine
enqueue_affine_lem s lists hart p v =
    let target = target_hart hart (s.affinity p) in
    (queued_already s target p, enqueue-Holds s lists v target p)

-- `n` processes taken from the queue of `hart`.
abbrev pub dequeues : ℕ → ℕ → Queues → Queues
dequeues zero hart s = s
dequeues (suc n) hart s = dequeues n hart (dequeue hart s).1

dequeues-Holds :
    (n hart : ℕ) (s : Queues) (lists : ℕ → List ℕ)
    → Holds s lists
    → (after : ℕ → List ℕ) × Holds (dequeues n hart s) after × (after hart ≡ drop n (lists hart))
dequeues-Holds zero hart s lists v = (lists, v, refl)
dequeues-Holds (suc n) hart s lists v =
    let t = (dequeue hart s).1 in
    elim (List-cases (lists hart)) [
      | inl e ↦
          let same : t ≡ s = ap (λ d. d.1) (dequeue_empty s lists v hart e) in
          let (after, w, at) = dequeues-Holds n hart s lists v in
          (
            after,
            subst (λ t. Holds (dequeues n hart t) after) (sym same) w,
            at ∙ ap (drop n) e ∙ drop_nil n ∙ sym (ap (drop (suc n)) e),
          )
      | inr (x, l, e) ↦
          let d = dequeue-Holds s lists v hart x l e in
          let (after, w, at) = dequeues-Holds n hart t (assign lists hart l) d.1 in
          (after, w, at ∙ ap (drop n) (assign_self lists hart l) ∙ sym (ap (drop (suc n)) e))
    ]

-- The `n`th process to leave the queue of a hart after `p` is enqueued there is the `n`th of the
-- list with `p` at its end; past the end there is none.
pub dequeue-dequeues :
    (s : Queues) (lists : ℕ → List ℕ) (hart p n : ℕ)
    → Holds s lists
    → s.on_rq p ≡ false
    → (dequeue hart (dequeues n hart (enqueue hart p s))).0 ≡ get_elem? (lists hart ++ p ∷ []) n
dequeue-dequeues s lists hart p n v e =
    let l = lists hart ++ p ∷ [] in
    let t = dequeues n hart (enqueue hart p s) in
    let (after, w, at) =
      dequeues-Holds n hart (enqueue hart p s) (assign lists hart l)
        (enqueue-Holds s lists v hart p e) in
    let left : after hart ≡ drop n l = at ∙ ap (drop n) (assign_self lists hart l) in
    elim (List-cases (drop n l)) [
      | inl f ↦
          ap (λ d. d.0) (dequeue_empty t after w hart (left ∙ f)) ∙ sym (get_elem?-drop_nil n l f)
      | inr (x, k, f) ↦
          (dequeue-Holds t after w hart x k (left ∙ f)).0 ∙ sym (get_elem?-drop_cons n l x k f)
    ]
