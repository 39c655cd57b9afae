-- ===== src/Mm/Heap/Realloc.antt =====
-- Mm/Heap: realloc.rs, an allocation that grows. The memory is that of the allocator of pages.
use onyx_kernel.Prelude.{
  ℕ, ◌+◌, ◌-◌, ◌≤◌, ◌<◌, ◌≡◌, ◌≢◌, ◌^◌, refl, ap, ap₂, ◌∙◌, min, true, false, ◌&&◌, Option, none,
  some, get_or, ltb, leb, ◌==◌, if◌then◌else◌, arith, Bool-cases, inl, inr, ◌⊎◌,
}
use onyx_kernel.Core.Errno.{KResult, ok, err, inval}
use onyx_kernel.Mm.Slab.{Slabs, slab_sizes, slab_magic, class_idx, in_class, slab_alloc}
use onyx_kernel.Mm.Slab.Return.{page_of}
use onyx_kernel.Mm.Slab.InUse.{in_use}
use onyx_kernel.Mm.Heap.{hdr_size, Heap, alloc_behind, kmalloc, kfree}
use onyx_kernel.Mm.Heap.Pools.{slab_ops}
use onyx_kernel.Mm.Heap.Memory.{freed_size, kfree_memory}

unfoldable pub alloc_size : ℕ → Heap → Slabs → ℕ
alloc_size p h s =
    let hdr = s.header (page_of p) in
    if p == 0
    then 0
    else if hdr.magic == slab_magic
    then (if ltb (hdr.size_idx) 3 then get_or slab_sizes (hdr.size_idx) 0 else 0)
    else (h.block (p - hdr_size)).size

-- `copy_nonoverlapping(from, to, n)`
abbrev pub copied : ℕ → ℕ → ℕ → (ℕ → ℕ) → ℕ → ℕ
copied from to n memory a =
    if leb to a && ltb a (to + n) then memory (from + (a - to)) else memory a

abbrev pub with_memory : (ℕ → ℕ) → Slabs → Slabs
with_memory memory s = let pmm = s.pmm in record s { pmm = record pmm { memory = memory } }

-- The answer behind a call of kfree, which may panic.
abbrev pub answered : ℕ → Option (Heap × Slabs) → Option (KResult ℕ × Heap × Slabs)
answered n none = none
answered n (some (h, s)) = some (ok n, h, s)

-- What follows the call of kmalloc.
abbrev pub moved : ℕ → ℕ → KResult ℕ × Heap × Slabs → Option (KResult ℕ × Heap × Slabs)
moved p n (err e, h, s) = some (err e, h, s)
moved p n (ok new, h, s) =
    answered new (kfree slab_ops p h (with_memory (copied p new n s.pmm.memory) s))

unfoldable pub krealloc : ℕ → ℕ → Heap → Slabs → Option (KResult ℕ × Heap × Slabs)
krealloc p new_size h s =
    let old_size = alloc_size p h s in
    if p == 0
    then some (kmalloc slab_ops new_size h s)
    else if new_size == 0
    then answered 0 (kfree slab_ops p h s)
    else if old_size == 0
    then some (err inval, h, s)
    else if leb new_size old_size
    then some (ok p, h, s)
    else moved p (min old_size new_size) (kmalloc slab_ops new_size h s)

-- More than a pool can give comes from the list of blocks.
kmalloc_large : (size : ℕ) (h : Heap) (s : Slabs) → 1024 < size → (kmalloc slab_ops size h s).2 ≡ s
unfolding kmalloc
kmalloc_large size h s p =
    let a : leb size 64 ≡ false = ground (arith, p) in
    let b : leb size 256 ≡ false = ground (arith, p) in
    let c : leb size 1024 ≡ false = ground (arith, p) in
    let none_fits : class_idx size ≡ none = rw (a, b, c) refl in
    let from_list : slab_alloc size s ≡ (none, s) =
      unfold slab_alloc in ap (λ k. in_class k s) none_fits in
    let nonzero : (size == 0) ≡ false = ground (arith, p) in
    elim (Bool-cases (ltb (2 ^ 63 - 1 - 16) size)) [
      | inl e ↦ rw (nonzero, e) refl
      | inr e ↦
          rw (nonzero, e)
            (ap (λ (o : Option (ℕ × ℕ) × Slabs). (alloc_behind slab_ops size o h).2) from_list)
    ]

-- Where an allocation grows to more than a pool can give, and the new memory lies below the old if that is
-- an object of a pool, the new memory starts with what the old one held; but the code panics where `used` is
-- then below the size of what it gives back.
pub krealloc_lem :
    (p new q i : ℕ) (h : Heap) (s : Slabs)
    → p ≢ 0
    → 1024 < new
    → alloc_size p h s < new
    → i < alloc_size p h s
    → (kmalloc slab_ops new h s).0 ≡ ok q
    → (q + alloc_size p h s ≤ p) ⊎ (in_use p s ≡ false)
    → let g = (kmalloc slab_ops new h s).1 in
      ((g.used < freed_size p g s) × (krealloc p new h s ≡ none))
      ⊎ ((g' : Heap) × (t : Slabs) × (krealloc p new h s ≡ some (ok q, g', t))
          × (t.pmm.memory (q + i) ≡ s.pmm.memory (p + i)))
unfolding krealloc
krealloc_lem p new q i h s nonnull large grows inside got apart =
    let old = alloc_size p h s in
    let r = kmalloc slab_ops new h s in
    let n = min old new in
    let filled = with_memory (copied p q n s.pmm.memory) s in
    let g1 : (p == 0) ≡ false = ground (arith, nonnull) in
    let g2 : (new == 0) ≡ false = ground (arith, large) in
    let g3 : (old == 0) ≡ false = ground (arith, inside) in
    let g4 : leb new old ≡ false = ground (arith, grows) in
    let made : r ≡ (ok q, r.1, s) =
      ap₂ (λ (o : KResult ℕ) (t : Slabs). (o, r.1, t)) got (kmalloc_large new h s large) in
    let all : krealloc p new h s ≡ answered q (kfree slab_ops p r.1 filled) =
      rw (g1, g2, g3, g4) (ap (moved p n) made) in
    let below : (q + i < p) ⊎ (in_use p filled ≡ false) = elim apart [
      | inl e ↦ inl (omega (arith, e, inside))
      | inr e ↦ inr e
    ] in
    let t1 : leb q (q + i) ≡ true = ground arith in
    let t2 : ltb (q + i) (q + n) ≡ true = ground (arith, inside, grows) in
    let there : p + (q + i - q) ≡ p + i = omega arith in
    elim (kfree_memory p (q + i) r.1 filled below) [
      | inl (less, o) ↦ inl (less, all ∙ ap (answered q) o)
      | inr (g', t, o, m) ↦
          inr (g', t, all ∙ ap (answered q) o, m ∙ rw (t1, t2) (ap s.pmm.memory there))
    ]
