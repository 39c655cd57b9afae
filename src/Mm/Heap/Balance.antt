-- ===== src/Mm/Heap/Balance.antt =====
-- Mm/Heap: memory taken and given back, on the blocks of the heap.
use onyx_kernel.Prelude.{
  ℕ, suc, ◌+◌, ◌-◌, ◌%◌, ◌≤◌, ◌<◌, ◌≡◌, refl, sym, ap, ◌∙◌, subst, Bool, true, false, not, ◌||◌,
  none, List, [], ◌∷◌, ◌++◌, ltb, ◌==◌, arith, ◌⊎◌, Option, some, Bool-cases, inl, inr,
}
use onyx_kernel.Core.Errno.{err, no_mem}
use onyx_kernel.Proc.State.{assign_self}
use onyx_kernel.Mm.Heap.{
  hdr_size, heap_size, max_blocks, round_up, Block, Heap, init, add_used, sub_used, with_used,
  list_alloc, list_free,
}
use onyx_kernel.Mm.Heap.Tiles.{Tile, span, IsTiled}
use onyx_kernel.Mm.Heap.Fit.{first_fit, fit_loop-Fitted}
use onyx_kernel.Mm.Heap.Join.{released}
use onyx_kernel.Mm.Heap.Release.{given_back, given_back-IsTiled}
use onyx_kernel.Mm.Heap.Sound.{
  IsSound, first_fit-IsSound, span-Found, span-append, span_aligned, size_behind, length-bound,
}
use onyx_kernel.Mm.Heap.Restore.{released-IsSound, span-released}

-- The heap at `base` consists of these blocks.
pub record IsHeap (base : ℕ) (ts : List Tile) (h : Heap) : Type 0 where
  pub tiled : IsTiled h.block none h.free_list base ts
  pub whole : span ts ≡ heap_size
  pub sound : IsSound false ts

-- At first there is one free block.
pub init-IsHeap :
    (base : ℕ) (block : ℕ → Block)
    → IsHeap base ((heap_size - hdr_size, true) ∷ []) (init base block)
init-IsHeap base block = record {
  tiled = (
    refl,
    here ∙ ap (λ (d : Block). record first { next = d.next }) (sym here),
    ap (λ (d : Block). d.next) here,
  );
  whole = refl;
  sound = (refl, refl, omega arith, tt);
}
  where
    first : Block
    first = record { size = heap_size - hdr_size; free = true; next = none; prev = none }

    here : (init base block).block base ≡ first
    here = assign_self block base first

-- Memory of a size that is not 0 is taken first fit: the answer and the blocks left are those of `first_fit`, and `used` grows by
-- the size asked for, rounded up to a multiple of 16.
pub list_alloc_lem :
    (size base : ℕ) (ts : List Tile) (h : Heap)
    → 0 < size
    → IsHeap base ts h
    → ((list_alloc size h).0 ≡ (first_fit (round_up size) base ts).0)
      × IsHeap base (first_fit (round_up size) base ts).1 (list_alloc size h).1
      × (((list_alloc size h).0 ≡ err no_mem)
          ⊎ ((list_alloc size h).1.used ≡ add_used h.used (round_up size)))
unfolding list_alloc
list_alloc_lem size base ts h pos v =
    let needed = round_up size in
    let r =
      fit_loop-Fitted (suc max_blocks) needed h none h.free_list base ts (length-bound ts v.whole)
        v.tiled in
    (
      r.answer,
      record {
        tiled =
            subst
              (λ c. IsTiled (list_alloc size h).1.block none c base (first_fit needed base ts).1)
              (sym r.head) r.tiled;
        whole = span-Found needed base ts ∙ v.whole;
        sound = first_fit-IsSound false needed base ts (omega arith) (omega (arith, pos)) v.sound;
      },
      r.counted,
    )

sound_size :
    (p : Bool) (pre : List Tile) (s : ℕ) (f : Bool) (post : List Tile)
    → IsSound p (pre ++ ((s, f) ∷ post))
    → 0 < s
sound_size p [] s f post v = v.2
sound_size p ((s0, f0) ∷ pre) s f post v = sound_size f0 pre s f post v.3

-- No guard stands in the way of a pointer to memory that was given out.
list_free-given_back :
    (p : ℕ) (h : Heap)
    → hdr_size ≤ p
    → p % 16 ≡ 0
    → 0 < (h.block (p - hdr_size)).size
    → (h.block (p - hdr_size)).size ≤ heap_size
    → list_free p h
      ≡ with_used
          (sub_used h.used (h.block (p - hdr_size)).size)
          (given_back (p - hdr_size) h.block)
          h
unfolding list_free
list_free-given_back p h e al large small =
    let size = (h.block (p - hdr_size)).size in
    let g1 : (ltb p hdr_size || not (p % 16 == 0)) ≡ false = ground (arith, e, al) in
    let g2 : ((size == 0) || ltb heap_size size) ≡ false = ground (arith, large, small) in
    rw (g1, g2) refl

-- A block of `s` bytes is given back to the heap `h`, which then has the blocks `ts`.
abbrev pub IsFreed : ℕ → List Tile → ℕ → Heap → Option Heap → Type 0
IsFreed base ts s h o =
    ((h.used < s) × (o ≡ none))
    ⊎ ((g : Heap) × (o ≡ some g) × IsHeap base ts g × (g.used + s ≡ h.used))

counted_down :
    (s : ℕ) (block : ℕ → Block) (h : Heap)
    → ((h.used < s) × (with_used (sub_used h.used s) block h ≡ none))
      ⊎ ((s ≤ h.used)
          × (with_used (sub_used h.used s) block h
              ≡ some (record h { used = h.used - s; block = block })))
counted_down s block h = elim (Bool-cases (ltb h.used s)) [
  | inl e ↦ inl (ground (arith, e), rw e refl)
  | inr e ↦ inr (ground (arith, e), rw e refl)
]

-- Where the heap starts at a multiple of 16, the block behind `pre` is given back: it is joined with the
-- neighbours that are free, and `used` is lower by its size; where `used` is below that, the code panics.
pub list_free_lem :
    (base s : ℕ) (f : Bool) (pre post : List Tile) (h : Heap)
    → base % 16 ≡ 0
    → IsHeap base (pre ++ ((s, f) ∷ post)) h
    → IsFreed base (released pre s post) s h (list_free (base + span pre + hdr_size) h)
list_free_lem base s f pre post h al v =
    let p = base + span pre + hdr_size in
    let a = p - hdr_size in
    let here : a ≡ base + span pre = omega arith in
    let size = size_behind h.block none h.free_list base a s f pre post here v.tiled in
    let sum = sym (span-append pre ((s, f) ∷ post)) ∙ v.whole in
    let aligned : p % 16 ≡ 0 =
      let e = span_aligned false pre ((s, f) ∷ post) v.sound in omega (arith, e, al) in
    let large : 0 < (h.block a).size =
      subst (λ k. 0 < k) (sym size) (sound_size false pre s f post v.sound) in
    let small : (h.block a).size ≤ heap_size = omega (arith, size, sum) in
    let run =
      list_free-given_back p h (omega arith) aligned large small
      ∙ ap (λ k. with_used (sub_used h.used k) (given_back a h.block) h) size in
    elim (counted_down s (given_back a h.block) h) [
      | inl (less, e) ↦ inl (less, run ∙ e)
      | inr (le, e) ↦ inr (
        record h { used = h.used - s; block = given_back a h.block },
        run ∙ e,
        record {
          tiled = given_back-IsTiled h.block h.free_list base a s f pre post here v.tiled;
          whole = span-released pre s f post ∙ v.whole;
          sound = released-IsSound pre s f post v.sound;
        },
        omega (arith, le),
      )
    ]
