-- ===== src/Proc/Runqueue/Refine.antt =====
-- Proc/Runqueue: the queues of the harts as lists of processes.
use onyx_kernel.Prelude.{
  ℕ, ◌%◌, ◌^◌, ◌≡◌, ◌≢◌, refl, sym, ap, subst, ◌∙◌, ℕ_discrete, Bool, true, false, Option, none,
  some, List, [], ◌∷◌, ◌++◌, length, length-append, ◌==◌, arith,
}
use onyx_kernel.Proc.State.{assign, assign_self, assign_ne}
use onyx_kernel.Proc.Runqueue.{
  RunQueue, Queues, init_queues, next_linked, linked, one_less, enqueue, dequeue,
}
use onyx_kernel.Proc.Runqueue.Chain.{
  mem, Distinct, last_of, last?, Chain, mem-ne, mem-append, mem-last, Chain-frame, Chain-snoc,
}

-- The queue `q` holds the processes of the list, in order, each once.
pub record IsQueue (next : ℕ → Option ℕ) (q : RunQueue) (l : List ℕ) : Type 0 where
  pub chain : Chain next q.head l
  pub tail : q.tail ≡ last? l
  pub count : q.nr_ready ≡ length l % 2 ^ 64
  pub distinct : Distinct l

abbrev pub is_at : Option ℕ → ℕ → Bool
is_at none h = false
is_at (some k) h = k == h

abbrev pub is_some : Option ℕ → Bool
is_some none = false
is_some (some k) = true

-- Every hart's queue holds its list. A process has at most one home, the hart in whose list it
-- stands, and `on_rq` tells which processes have one.
pub record Holds (s : Queues) (lists : ℕ → List ℕ) : Type 0 where
  pub queue : (hart : ℕ) → IsQueue s.next (s.rq hart) (lists hart)
  pub home : ℕ → Option ℕ
  pub places : (h p : ℕ) → mem p (lists h) ≡ is_at (home p) h
  pub flags : (p : ℕ) → s.on_rq p ≡ is_some (home p)

-- The same change at one index of two functions.
pub assign_both {ℓ κ μ} :
    {A : Type ℓ} {B : Type κ} (P : ℕ → A → B → Type μ) (f : ℕ → A) (g : ℕ → B) (k : ℕ) (a : A)
    (b : B)
    → P k a b
    → ((h : ℕ) → h ≢ k → P h (f h) (g h))
    → (h : ℕ) → P h (assign f k a h) (assign g k b h)
assign_both P f g k a b here there h = elim (ℕ_discrete h k) [
  | yes e ↦ let same : (h == k) ≡ true = ground (arith, e) in rw (same, e) here
  | no n ↦ let other : (h == k) ≡ false = ground (arith, n) in rw other (there h n)
]

pub IsQueue-frame :
    (next next' : ℕ → Option ℕ) (q : RunQueue) (l : List ℕ)
    → ((p : ℕ) → mem p l ≡ true → next' p ≡ next p)
    → IsQueue next q l
    → IsQueue next' q l
IsQueue-frame next next' q l same v = record {
  chain = Chain-frame next next' q.head l same v.chain;
  tail = v.tail;
  count = v.count;
  distinct = v.distinct;
}

pub init_queues-Holds :
    (s : Queues) → ((p : ℕ) → s.on_rq p ≡ false) → Holds (init_queues s) (λ hart. [])
init_queues-Holds s none_queued = record {
  queue = λ hart. record { chain = refl; tail = refl; count = refl; distinct = tt };
  home = λ p. none;
  places = λ h p. refl;
  flags = none_queued;
}

last_of-snoc : (x : ℕ) (l : List ℕ) (p : ℕ) → last_of x (l ++ p ∷ []) ≡ p
last_of-snoc x [] p = refl
last_of-snoc x (y ∷ l) p = last_of-snoc y l p

Distinct-snoc : (l : List ℕ) (p : ℕ) → Distinct l → mem p l ≡ false → Distinct (l ++ p ∷ [])
Distinct-snoc [] p d out = (refl, tt)
Distinct-snoc (x ∷ l) p d out =
    (ground (arith, mem-append x l (p ∷ []), d.0, out), Distinct-snoc l p d.1 (ground (arith, out)))

linked-IsQueue :
    (next : ℕ → Option ℕ) (q : RunQueue) (l : List ℕ) (p : ℕ)
    → mem p l ≡ false
    → IsQueue next q l
    → IsQueue (next_linked next q.tail p) (linked q p) (l ++ p ∷ [])
linked-IsQueue next q [] p out v = rw v.tail (record {
  chain = (refl, assign_self next p none);
  tail = refl;
  count = omega (arith, v.count);
  distinct = (refl, tt);
})
linked-IsQueue next q (x ∷ l) p out v =
    let t = last_of x l in
    let apart : p ≢ t = λ e. mem-ne p t (x ∷ l) out (mem-last x l) (sym e) in
    rw v.tail (record {
      chain =
          Chain-snoc next (assign (assign next p none) t (some p)) q.head x l p v.distinct
            (λ r m n.
              assign_ne (assign next p none) t (some p) r n
              ∙ assign_ne next p none r (mem-ne p r (x ∷ l) out m))
            (assign_self (assign next p none) t (some p))
            (assign_ne (assign next p none) t (some p) p apart ∙ assign_self next p none) v.chain;
      tail = ap some (sym (last_of-snoc x l p));
      count = omega (arith, v.count, length-append (x ∷ l) (p ∷ []));
      distinct = Distinct-snoc (x ∷ l) p v.distinct out;
    })

-- Linking `p` changes only the pointers of `p` and of the tail.
next_linked-other :
    (next : ℕ → Option ℕ) (q : RunQueue) (l : List ℕ) (p r : ℕ)
    → IsQueue next q l
    → r ≢ p
    → mem r l ≡ false
    → next_linked next q.tail p r ≡ next r
next_linked-other next q [] p r v n out = rw v.tail (assign_ne next p none r n)
next_linked-other next q (x ∷ l) p r v n out =
    let t = last_of x l in
    let apart : r ≢ t = λ e. mem-ne r t (x ∷ l) out (mem-last x l) (sym e) in
    rw v.tail (assign_ne (assign next p none) t (some p) r apart ∙ assign_ne next p none r n)

module _ (s : Queues) (lists : ℕ → List ℕ) (v : Holds s lists) where
  -- A process that stands in no queue.
  pub not_queued : (h p : ℕ) → s.on_rq p ≡ false → mem p (lists h) ≡ false
  not_queued h p e = ground (arith, v.places h p, v.flags p, e)

  pub not_other : (h k p : ℕ) → h ≢ k → mem p (lists h) ≡ true → mem p (lists k) ≡ false
  not_other h k p n m = ground (arith, v.places h p, v.places k p, n, m)

  pub is_queued : (h p : ℕ) → mem p (lists h) ≡ true → s.on_rq p ≡ true
  is_queued h p m = ground (arith, v.places h p, v.flags p, m)

  pub enqueue-Holds :
      (hart p : ℕ)
      → s.on_rq p ≡ false
      → Holds (enqueue hart p s) (assign lists hart (lists hart ++ p ∷ []))
  unfolding enqueue
  enqueue-Holds hart p e =
      let new = lists hart ++ p ∷ [] in
      let next' = next_linked s.next (s.rq hart).tail p in
      rw e (record {
        queue =
            assign_both (λ h q l. IsQueue next' q l) s.rq lists hart (linked (s.rq hart) p) new
              (linked-IsQueue s.next (s.rq hart) (lists hart) p (not_queued hart p e)
                (v.queue hart))
              (λ h n.
                IsQueue-frame s.next next' (s.rq h) (lists h)
                  (λ r m.
                    next_linked-other s.next (s.rq hart) (lists hart) p r (v.queue hart)
                      (mem-ne p r (lists h) (not_queued h p e) m) (not_other h hart r n m))
                  (v.queue h));
        home = assign v.home p (some hart);
        places =
            λ h r. ground (arith, v.places h r, v.flags p, e, mem-append r (lists hart) (p ∷ []));
        flags = λ r. ground (arith, v.flags r);
      })

-- The queue without its first process `x`.
abbrev popped : (ℕ → Option ℕ) → RunQueue → ℕ → RunQueue
popped next q x = record {
  head = next x;
  tail = elim (next x) [ none ↦ none | some r ↦ q.tail ];
  nr_ready = one_less q.nr_ready;
}

pub assign_away :
    (next : ℕ → Option ℕ) (x : ℕ) (l : List ℕ)
    → mem x l ≡ false
    → (r : ℕ) → mem r l ≡ true
    → assign next x none r ≡ next r
assign_away next x l out r m = assign_ne next x none r (mem-ne x r l out m)

popped-IsQueue :
    (next : ℕ → Option ℕ) (q : RunQueue) (x : ℕ) (l : List ℕ)
    → IsQueue next q (x ∷ l)
    → IsQueue (assign next x none) (popped next q x) l
popped-IsQueue next q x [] v = record {
  chain = v.chain.1;
  tail = rw v.chain.1 refl;
  count = omega (arith, v.count);
  distinct = tt;
}
popped-IsQueue next q x (y ∷ l) v = record {
  chain =
      Chain-frame next (assign next x none) (next x) (y ∷ l)
        (assign_away next x (y ∷ l) v.distinct.0) v.chain.1;
  tail = rw v.chain.1.0 v.tail;
  count = omega (arith, v.count);
  distinct = v.distinct.1;
}

module _ (s : Queues) (lists : ℕ → List ℕ) (v : Holds s lists) (hart : ℕ) where
  pub dequeue_empty : lists hart ≡ [] → dequeue hart s ≡ (none, s)
  unfolding dequeue
  dequeue_empty e =
      let none_first : (s.rq hart).head ≡ none =
        subst (λ l. Chain s.next (s.rq hart).head l) e (v.queue hart).chain in
      rw (none_first, dequeue) refl

  pub dequeue-Holds :
      (x : ℕ) (l : List ℕ)
      → lists hart ≡ x ∷ l
      → ((dequeue hart s).0 ≡ some x) × Holds (dequeue hart s).1 (assign lists hart l)
  unfolding dequeue
  dequeue-Holds x l e =
      let q = subst (λ l. IsQueue s.next (s.rq hart) l) e (v.queue hart) in
      let here : mem x (lists hart) ≡ true = ground (arith, e) in
      let next' = assign s.next x none in
      rw (q.chain.0, dequeue)
        (
          refl,
          record {
            queue =
                assign_both (λ h q l. IsQueue next' q l) s.rq lists hart
                  (popped s.next (s.rq hart) x) l (popped-IsQueue s.next (s.rq hart) x l q)
                  (λ h n.
                    IsQueue-frame s.next next' (s.rq h) (lists h)
                      (assign_away s.next x (lists h)
                        (not_other s lists v hart h x (λ e. n (sym e)) here))
                      (v.queue h));
            home = assign v.home x none;
            places = λ h r.
                ground (arith, v.places h r, v.places hart x, v.places hart r, e, q.distinct.0);
            flags = λ r. ground (arith, v.flags r);
          },
        )
