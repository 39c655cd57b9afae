-- ===== src/Proc/Runqueue/Steal.antt =====
-- Proc/Runqueue: what a hart without work takes from the queues of the others.
use onyx_kernel.Prelude.{
  ℕ, zero, suc, ◌+◌, ◌%◌, ◌≡◌, ◌≢◌, refl, sym, subst, ◌∙◌, Bool, true, false, not, ◌&&◌, Option,
  none, some, List, [], ◌∷◌, ◌++◌, ◌==◌, arith, Bool-cases, inl, inr, ◌-◌, Option-cases, List-cases,
}
use onyx_kernel.Prelude.Int.{ℤ}
use onyx_kernel.Proc.State.{assign}
use onyx_kernel.Proc.Runqueue.{
  Queues, enqueue, dequeue, max_harts, pinned_away, keep_or_return, steal_one, steal_loop, steal,
}
use onyx_kernel.Proc.Runqueue.Chain.{mem, mem-append}
use onyx_kernel.Proc.Runqueue.Refine.{is_at, Holds, dequeue_empty, dequeue-Holds, enqueue-Holds}

-- A stolen process is not pinned to another hart than the thief, and stood in another hart's list.
abbrev pub Fits : ℕ → (ℕ → ℤ) → (ℕ → List ℕ) → Option ℕ → Type 0
Fits hart affinity lists none = Unit
Fits hart affinity lists (some p) =
    (pinned_away hart (affinity p) ≡ false) × (h : ℕ) × (h ≢ hart) × (mem p (lists h) ≡ true)

-- The queues after an attempt of `hart` to steal: they hold the same processes in every list but
-- for the one that is stolen, and the thief's own list is as it was.
pub record Stolen (hart : ℕ) (s : Queues) (lists : ℕ → List ℕ) (got : Option ℕ) (t : Queues)
    : Type 0 where
  pub after : ℕ → List ℕ
  pub holds : Holds t after
  pub own : after hart ≡ lists hart
  pub rest : (h p : ℕ) → mem p (after h) ≡ (mem p (lists h) && not (is_at got p))
  pub fits : Fits hart s.affinity lists got
  pub affinity : t.affinity ≡ s.affinity

dequeue-affinity : (hart : ℕ) (s : Queues) → (dequeue hart s).1.affinity ≡ s.affinity
unfolding dequeue
dequeue-affinity hart s = elim (Option-cases (s.rq hart).head) [
  | inl e ↦ rw (e, dequeue) refl
  | inr (p, e) ↦ rw (e, dequeue) refl
]

dequeue-on_rq :
    (hart : ℕ) (s : Queues) (x : ℕ)
    → (dequeue hart s).0 ≡ some x
    → (dequeue hart s).1.on_rq x ≡ false
unfolding dequeue
dequeue-on_rq hart s x h = ground (arith, h)

enqueue-affinity : (hart p : ℕ) (s : Queues) → (enqueue hart p s).affinity ≡ s.affinity
unfolding enqueue
enqueue-affinity hart p s = ground arith

nothing-Stolen :
    (hart : ℕ) (s : Queues) (lists : ℕ → List ℕ) → Holds s lists → Stolen hart s lists none s
nothing-Stolen hart s lists v = record {
  after = lists;
  holds = v;
  own = refl;
  rest = λ h p. ground arith;
  fits = tt;
  affinity = refl;
}

module _ (hart : ℕ) (free : ℕ → Bool) (victim : ℕ) (s : Queues) (lists : ℕ → List ℕ)
    (v : Holds s lists) where
  -- The victim's first process `x` goes behind the others.
  put_back :
      (x : ℕ) (l : List ℕ)
      → victim ≢ hart
      → lists victim ≡ x ∷ l
      → Stolen hart s lists none (enqueue victim x (dequeue victim s).1)
  put_back x l n e =
      let t = (dequeue victim s).1 in
      let d = dequeue-Holds s lists v victim x l e in
      let taken = assign lists victim l in
      record {
        after = assign taken victim (taken victim ++ x ∷ []);
        holds = enqueue-Holds t taken d.1 victim x (dequeue-on_rq victim s x d.0);
        own = ground (arith, n);
        rest = λ h p. ground (arith, mem-append p l (x ∷ []), e);
        fits = tt;
        affinity = enqueue-affinity victim x t ∙ dequeue-affinity victim s;
      }

  taken_away :
      (x : ℕ) (l : List ℕ)
      → victim ≢ hart
      → lists victim ≡ x ∷ l
      → pinned_away hart (s.affinity x) ≡ false
      → Stolen hart s lists (some x) (dequeue victim s).1
  taken_away x l n e pin =
      let d = dequeue-Holds s lists v victim x l e in
      record {
        after = assign lists victim l;
        holds = d.1;
        own = ground (arith, n);
        rest = λ h p. ground (
          arith,
          e,
          d.1.places h x,
          d.1.flags x,
          dequeue-on_rq victim s x d.0,
          v.places h x,
          v.places victim x,
        );
        fits = (pin, victim, n, ground (arith, e));
        affinity = dequeue-affinity victim s;
      }

  at_victim :
      victim ≢ hart
      → Stolen hart s lists
          (keep_or_return hart victim (dequeue victim s).0 (dequeue victim s).1).0
          (keep_or_return hart victim (dequeue victim s).0 (dequeue victim s).1).1
  at_victim n = elim (List-cases (lists victim)) [
    | inl e ↦
        subst
          (λ d.
            Stolen hart s lists (keep_or_return hart victim d.0 d.1).0
              (keep_or_return hart victim d.0 d.1).1)
          (sym (dequeue_empty s lists v victim e)) (nothing-Stolen hart s lists v)
    | inr (x, l, e) ↦
        let d = dequeue-Holds s lists v victim x l e in
        elim (Bool-cases (pinned_away hart (s.affinity x))) [
          | inl pin ↦ rw (d.0, dequeue-affinity victim s, pin) (put_back x l n e)
          | inr pin ↦ rw (d.0, dequeue-affinity victim s, pin) (taken_away x l n e pin)
        ]
  ]

  steal_one-Stolen :
      Stolen hart s lists (steal_one hart free victim s).0 (steal_one hart free victim s).1
  unfolding steal_one
  steal_one-Stolen =
      let idle = nothing-Stolen hart s lists v in
      elim (Bool-cases (victim == hart)) [
        | inl e ↦ rw (e, steal_one) idle
        | inr n ↦
            let apart : victim ≢ hart = λ e. absurd (ground (arith, n, e)) in
            elim (Bool-cases (free victim)) [
              | inr shut ↦ rw (n, steal_one) (rw shut idle)
              | inl locked ↦ rw (n, steal_one) (rw locked (at_victim apart))
            ]
      ]

Fits-back :
    (hart : ℕ) (affinity later : ℕ → ℤ) (lists after : ℕ → List ℕ) (got : Option ℕ)
    → later ≡ affinity
    → ((h p : ℕ) → mem p (after h) ≡ (mem p (lists h) && true))
    → Fits hart later after got
    → Fits hart affinity lists got
Fits-back hart affinity later lists after none e rest f = tt
Fits-back hart affinity later lists after (some p) e rest f =
    (subst (λ a. pinned_away hart (a p) ≡ false) e f.0, f.1, f.2, ground (arith, rest f.1 p, f.3))

-- The rounds keep what an attempt to steal keeps.
two_rounds :
    (hart : ℕ) (s : Queues) (lists : ℕ → List ℕ) (t : Queues) (got : Option ℕ) (u : Queues)
    → (v : Stolen hart s lists none t) → Stolen hart t v.after got u
    → Stolen hart s lists got u
two_rounds hart s lists t got u v w = record {
  after = w.after;
  holds = w.holds;
  own = w.own ∙ v.own;
  rest = λ h p. ground (arith, w.rest h p, v.rest h p);
  fits = Fits-back hart s.affinity t.affinity lists v.after got v.affinity v.rest w.fits;
  affinity = w.affinity ∙ v.affinity;
}

steal_loop-Stolen :
    (n hart : ℕ) (free : ℕ → Bool) (i : ℕ) (s : Queues) (lists : ℕ → List ℕ)
    → Holds s lists
    → Stolen hart s lists (steal_loop n hart free i s).0 (steal_loop n hart free i s).1
unfolding steal_loop
steal_loop-Stolen zero hart free i s lists v = nothing-Stolen hart s lists v
steal_loop-Stolen (suc n) hart free i s lists v =
    let victim = (hart + i) % max_harts in
    let one = steal_one-Stolen hart free victim s lists v in
    elim (Option-cases (steal_one hart free victim s).0) [
      | inl e ↦
          let first = subst (λ g. Stolen hart s lists g (steal_one hart free victim s).1) e one in
          rw (e, steal_loop)
            (two_rounds hart s lists (steal_one hart free victim s).1
              (steal_loop n hart free (i + 1) (steal_one hart free victim s).1).0
              (steal_loop n hart free (i + 1) (steal_one hart free victim s).1).1 first
              (steal_loop-Stolen n hart free (i + 1) (steal_one hart free victim s).1 first.after
                first.holds))
      | inr (p, e) ↦
          let last = subst (λ g. Stolen hart s lists g (steal_one hart free victim s).1) e one in
          rw (e, steal_loop) last
    ]

-- Stealing takes at most one process, which is not pinned to another hart and stood in another
-- hart's queue; every other process is still in the queue that it was in, at whatever place, and the
-- thief's own queue keeps its order. This is so whichever locks are taken.
pub steal_lem :
    (hart : ℕ) (free : ℕ → Bool) (s : Queues) (lists : ℕ → List ℕ)
    → Holds s lists
    → Stolen hart s lists (steal hart free s).0 (steal hart free s).1
unfolding steal
steal_lem hart free s lists v = steal_loop-Stolen (max_harts - 1) hart free 1 s lists v
