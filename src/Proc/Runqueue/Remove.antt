-- ===== src/Proc/Runqueue/Remove.antt =====
-- Proc/Runqueue: what `remove` does to the queue of a hart.
use onyx_kernel.Prelude.{
  ℕ, zero, suc, ◌<◌, ◌≡◌, ◌≢◌, refl, sym, ap, subst, ◌∙◌, true, false, Option, none, some, List, [],
  ◌∷◌, ◌++◌, append-nil, length, length-append, ◌==◌, if◌then◌else◌, arith, Bool-cases, inl, inr,
}
use onyx_kernel.Proc.State.{assign, assign_self, assign_ne}
use onyx_kernel.Proc.Runqueue.{
  RunQueue, Queues, next_without, queue_without, take_out, remove_loop, remove,
}
use onyx_kernel.Proc.Runqueue.Chain.{
  mem, Distinct, last_of, last?, Chain, mem-head, mem-ne, mem-append, mem-right, mem-last,
  Chain-frame, Chain-cut,
}
use onyx_kernel.Proc.Runqueue.Refine.{
  is_at, IsQueue, Holds, assign_both, IsQueue-frame, assign_away, not_other, is_queued,
}

-- The list without the process.
abbrev pub erase : ℕ → List ℕ → List ℕ
erase p [] = []
erase p (x ∷ l) = if x == p then l else x ∷ erase p l

-- The list is `before`, the process, and `after`.
record Split (p : ℕ) (l : List ℕ) : Type 0 where
  before : List ℕ
  after : List ℕ
  whole : l ≡ before ++ p ∷ after
  first : mem p before ≡ false
  erased : erase p l ≡ before ++ after

mem-Split : (p : ℕ) (l : List ℕ) → mem p l ≡ true → Split p l
mem-Split p [] m = absurd (cc)
mem-Split p (x ∷ l) m = elim (Bool-cases (x == p)) [
  | inl e ↦ record {
    before = [];
    after = l;
    whole = ap (λ y. y ∷ l) (ground (arith, e));
    first = refl;
    erased = rw e refl;
  }
  | inr n ↦
      let rest = mem-Split p l (ground (arith, m, n)) in
      record {
        before = x ∷ rest.before;
        after = rest.after;
        whole = ap (λ k. x ∷ k) rest.whole;
        first = rw n rest.first;
        erased = rw n (ap (λ k. x ∷ k) rest.erased);
      }
]

erase_absent : (p : ℕ) (l : List ℕ) → mem p l ≡ false → erase p l ≡ l
erase_absent p [] m = refl
erase_absent p (x ∷ l) m = ground (arith, erase_absent p l, m)

-- The process before the place that the loop has come to.
abbrev last_or : Option ℕ → List ℕ → Option ℕ
last_or prev [] = prev
last_or prev (x ∷ l) = last_or (some x) l

last_or-some : (x : ℕ) (l : List ℕ) → last_or (some x) l ≡ some (last_of x l)
last_or-some x [] = refl
last_or-some x (y ∷ l) = last_or-some y l

last_or-none : (l : List ℕ) → last_or none l ≡ last? l
last_or-none [] = refl
last_or-none (x ∷ l) = last_or-some x l

remove_loop_found :
    (fuel hart p : ℕ) (prev cur : Option ℕ) (s : Queues) (before after : List ℕ)
    → Chain s.next cur (before ++ p ∷ after)
    → mem p before ≡ false
    → length before < fuel
    → remove_loop fuel hart p prev cur s ≡ (true, take_out hart p (last_or prev before) s)
unfolding remove_loop
remove_loop_found zero hart p prev cur s before after c out f = absurd (omega arith)
remove_loop_found (suc fuel) hart p prev cur s [] after c out f =
    let same : (p == p) ≡ true = ground arith in rw (c.0, remove_loop) (rw same refl)
remove_loop_found (suc fuel) hart p prev cur s (x ∷ before) after c out f =
    let other : (x == p) ≡ false = ground (arith, out) in
    rw (c.0, remove_loop)
      (rw other (
        remove_loop_found fuel hart p (some x) (s.next x) s before after c.1 (ground (arith, out))
          (omega arith)))

remove_loop_absent :
    (fuel hart p : ℕ) (prev cur : Option ℕ) (s : Queues) (l : List ℕ)
    → Chain s.next cur l
    → mem p l ≡ false
    → remove_loop fuel hart p prev cur s ≡ (false, s)
unfolding remove_loop
remove_loop_absent zero hart p prev cur s l c out = refl
remove_loop_absent (suc fuel) hart p prev cur s [] c out = rw (c, remove_loop) refl
remove_loop_absent (suc fuel) hart p prev cur s (x ∷ l) c out =
    let other : (x == p) ≡ false = ground (arith, out) in
    rw (c.0, remove_loop)
      (rw other (remove_loop_absent fuel hart p (some x) (s.next x) s l c.1 (ground (arith, out))))

Distinct-cut :
    (pre : List ℕ) (p : ℕ) (r : List ℕ)
    → Distinct (pre ++ p ∷ r)
    → (mem p pre ≡ false) × (mem p r ≡ false) × Distinct (pre ++ r)
Distinct-cut [] p r d = (refl, d.0, d.1)
Distinct-cut (x ∷ pre) p r d =
    let rest = Distinct-cut pre p r d.1 in
    (
      ground (arith, mem-append x pre (p ∷ r), d.0, rest.0),
      rest.1,
      (ground (arith, mem-append x pre (p ∷ r), mem-append x pre r, d.0), rest.2),
    )

last_of-append : (x : ℕ) (l : List ℕ) (y : ℕ) (r : List ℕ) → last_of x (l ++ y ∷ r) ≡ last_of y r
last_of-append x [] y r = refl
last_of-append x (z ∷ l) y r = last_of-append z l y r

last?-append : (l : List ℕ) (y : ℕ) (r : List ℕ) → last? (l ++ y ∷ r) ≡ some (last_of y r)
last?-append [] y r = refl
last?-append (x ∷ l) y r = ap some (last_of-append x l y r)

tail_without :
    (q : RunQueue) (next : ℕ → Option ℕ) (pre : List ℕ) (p : ℕ) (r : List ℕ)
    → q.tail ≡ last? (pre ++ p ∷ r)
    → mem p r ≡ false
    → (queue_without q next (last? pre) p).tail ≡ last? (pre ++ r)
tail_without q next pre p [] e out =
    let last : q.tail ≡ some p = e ∙ last?-append pre p [] in
    let same : (p == p) ≡ true = ground arith in rw last (rw same (ap last? (sym (append-nil pre))))
tail_without q next pre p (y ∷ r) e out =
    let last : q.tail ≡ some (last_of y r) = e ∙ last?-append pre p (y ∷ r) in
    let apart = mem-ne p (last_of y r) (y ∷ r) out (mem-last y r) in
    let other : (last_of y r == p) ≡ false = ground (arith, apart) in
    rw last (rw other (sym (last?-append pre y r)))

next_without-Chain :
    (next : ℕ → Option ℕ) (q : RunQueue) (pre : List ℕ) (p : ℕ) (r : List ℕ)
    → Distinct (pre ++ p ∷ r)
    → Chain next q.head (pre ++ p ∷ r)
    → Chain (next_without next (last? pre) p) (queue_without q next (last? pre) p).head (pre ++ r)
next_without-Chain next q [] p r d c =
    Chain-frame next (assign next p none) (next p) r (assign_away next p r d.0) c.1
next_without-Chain next q (x ∷ l) p r d c =
    let cut = Distinct-cut (x ∷ l) p r d in
    let t = last_of x l in
    let out : mem p ((x ∷ l) ++ r) ≡ false = ground (arith, mem-append p (x ∷ l) r, cut.0, cut.1) in
    let apart = mem-ne p t (x ∷ l) cut.0 (mem-last x l) in
    Chain-cut next (next_without next (some t) p) q.head x l p r d
      (λ k m n.
        assign_ne (assign next t (next p)) p none k (mem-ne p k ((x ∷ l) ++ r) out m)
        ∙ assign_ne next t (next p) k n)
      (assign_ne (assign next t (next p)) p none t apart ∙ assign_self next t (next p)) c

without-IsQueue :
    (next : ℕ → Option ℕ) (q : RunQueue) (pre : List ℕ) (p : ℕ) (r : List ℕ)
    → IsQueue next q (pre ++ p ∷ r)
    → IsQueue (next_without next (last? pre) p) (queue_without q next (last? pre) p) (pre ++ r)
without-IsQueue next q pre p r v =
    let cut = Distinct-cut pre p r v.distinct in
    record {
      chain = next_without-Chain next q pre p r v.distinct v.chain;
      tail = tail_without q next pre p r v.tail cut.1;
      count = omega (arith, v.count, length-append pre (p ∷ r), length-append pre r);
      distinct = cut.2;
    }

-- Only the pointers of `p` and of the process before it change.
next_without-other :
    (next : ℕ → Option ℕ) (pre : List ℕ) (p k : ℕ)
    → k ≢ p
    → mem k pre ≡ false
    → next_without next (last? pre) p k ≡ next k
next_without-other next [] p k n out = assign_ne next p none k n
next_without-other next (x ∷ l) p k n out =
    assign_ne (assign next (last_of x l) (next p)) p none k n
    ∙ assign_ne next (last_of x l) (next p) k
        (λ e. mem-ne k (last_of x l) (x ∷ l) out (mem-last x l) (sym e))

module _ (lists : ℕ → List ℕ) (hart : ℕ) (l : List ℕ) (e : l ≡ lists hart) where
  same_list : (h : ℕ) → lists h ≡ assign lists hart l h
  same_list h = ground (arith, e)

Holds-same :
    (s : Queues) (lists : ℕ → List ℕ) (hart : ℕ) (l : List ℕ)
    → l ≡ lists hart
    → Holds s lists
    → Holds s (assign lists hart l)
Holds-same s lists hart l e v = record {
  queue = λ h. subst (λ k. IsQueue s.next (s.rq h) k) (same_list lists hart l e h) (v.queue h);
  home = v.home;
  places = λ h r. ground (arith, v.places h r, e);
  flags = v.flags;
}

module _ (s : Queues) (lists : ℕ → List ℕ) (v : Holds s lists) (hart p : ℕ) where
  take_out-Holds :
      (pre r : List ℕ)
      → lists hart ≡ pre ++ p ∷ r
      → Holds (take_out hart p (last? pre) s) (assign lists hart (pre ++ r))
  take_out-Holds pre r e =
      let q = subst (λ l. IsQueue s.next (s.rq hart) l) e (v.queue hart) in
      let cut = Distinct-cut pre p r q.distinct in
      let here : mem p (lists hart) ≡ true = rw e (mem-right p pre (p ∷ r) (mem-head p r)) in
      let next' = next_without s.next (last? pre) p in
      record {
        queue =
            assign_both (λ h q l. IsQueue next' q l) s.rq lists hart
              (queue_without (s.rq hart) s.next (last? pre) p) (pre ++ r)
              (without-IsQueue s.next (s.rq hart) pre p r q)
              (λ h n.
                IsQueue-frame s.next next' (s.rq h) (lists h)
                  (λ k m.
                    next_without-other s.next pre p k
                      (mem-ne p k (lists h) (not_other s lists v hart h p (λ e. n (sym e)) here) m)
                      (ground (
                        arith,
                        mem-append k pre (p ∷ r),
                        subst (λ l. mem k l ≡ false) e (not_other s lists v h hart k n m),
                      )))
                  (v.queue h));
        home = assign v.home p none;
        places = λ h k. ground (
          arith,
          v.places h k,
          subst (λ l. mem k l ≡ is_at (v.home k) hart) e (v.places hart k),
          mem-append k pre r,
          mem-append k pre (p ∷ r),
          cut.0,
          cut.1,
          v.places hart p,
          here,
        );
        flags = λ k. ground (arith, v.flags k);
      }

-- With fuel for the length of the queue of `hart`, `remove` tells whether `p` stood in that queue,
-- and takes it out; the other processes and queues keep their order.
pub remove_lem :
    (fuel : ℕ) (s : Queues) (lists : ℕ → List ℕ) (hart p : ℕ)
    → Holds s lists
    → length (lists hart) < fuel
    → ((remove fuel hart p s).0 ≡ mem p (lists hart))
      × Holds (remove fuel hart p s).1 (assign lists hart (erase p (lists hart)))
unfolding remove
remove_lem fuel s lists hart p v f = elim (Bool-cases (mem p (lists hart))) [
  | inl m ↦
      let parts = mem-Split p (lists hart) m in
      let flag = is_queued s lists v hart p m in
      let c = subst (λ l. Chain s.next (s.rq hart).head l) parts.whole (v.queue hart).chain in
      let enough : length parts.before < fuel =
        omega (arith, f, ap length parts.whole, length-append parts.before (p ∷ parts.after)) in
      let found =
        remove_loop_found fuel hart p none (s.rq hart).head s parts.before parts.after c parts.first
          enough in
      rw (flag, m, parts.erased)
        (rw (found, last_or-none parts.before)
          (refl, take_out-Holds s lists v hart p parts.before parts.after parts.whole))
  | inr n ↦
      let same = Holds-same s lists hart (erase p (lists hart)) (erase_absent p (lists hart) n) v in
      let absent =
        remove_loop_absent fuel hart p none (s.rq hart).head s (lists hart) (v.queue hart).chain
          n in
      elim (Bool-cases (s.on_rq p)) [
        | inl q ↦ rw (q, n) (rw absent (refl, same))
        | inr q ↦ rw (q, n) (refl, same)
      ]
]
