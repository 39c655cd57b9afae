-- ===== src/Mm/Heap/Pools.antt =====
-- Mm/Heap: kmalloc and kfree over the pools of small objects.
use onyx_kernel.Prelude.{
  ℕ, ◌+◌, ◌-◌, ◌^◌, ◌<◌, ◌≡◌, ◌≢◌, refl, sym, ap, ◌∙◌, false, Option, some, List, ltb, ◌==◌, arith,
}
use onyx_kernel.Core.Errno.{KResult, ok}
use onyx_kernel.Mm.Slab.{Slabs, slab_alloc, slab_free}
use onyx_kernel.Mm.Slab.Grant.{IsSlabs}
use onyx_kernel.Mm.Slab.InUse.{in_use}
use onyx_kernel.Mm.Slab.Objects.{slab_free-slab_alloc, slab_alloc_object}
use onyx_kernel.Mm.Heap.{
  Heap, SlabOps, add_used, sub_used, with_used, beside, alloc_behind, free_behind, kmalloc, kfree,
}

-- The pools of the page allocator.
abbrev pub slab_ops : SlabOps
slab_ops = record { Slab = Slabs; slab_alloc = slab_alloc; slab_free = slab_free }

-- No object lies at the null pointer.
null-in_use : (s : Slabs) → in_use 0 s ≡ false
null-in_use s = refl

used_back : (u n : ℕ) → u + n < 2 ^ 64 → sub_used (add_used u n) n ≡ some u
used_back u n p =
    let sum : add_used u n ≡ u + n = omega (arith, p) in
    let enough : ltb (u + n) n ≡ false = ground arith in
    let rest : u + n - n ≡ u = omega arith in ap (λ k. sub_used k n) sum ∙ rw enough (ap some rest)

-- Where a pool has an object for the size, which is not 0, kmalloc gives it out, and kfree of it does not
-- panic and leaves the list of blocks and the count of used bytes, which has room for the object below 2 ^ 64,
-- as they were.
pub kfree-kmalloc :
    (size p n : ℕ) (h : Heap) (s : Slabs) (pages : ℕ → List ℕ)
    → 0 < size
    → h.used + n < 2 ^ 64
    → IsSlabs s pages
    → (slab_alloc size s).0 ≡ some (p, n)
    → let r = kmalloc slab_ops size h s in
      (r.0 ≡ ok p) × (kfree slab_ops p r.1 r.2 ≡ some (h, (slab_free p r.2).1))
unfolding kmalloc kfree
kfree-kmalloc size p n h s pages pos small v got =
    let after = (slab_alloc size s).1 in
    let (large, back) = slab_free-slab_alloc size p n s pages v got in
    let (used, bound) = slab_alloc_object size p n s pages v got in
    let g1 : (size == 0) ≡ false = ground (arith, pos) in
    let g2 : ltb (2 ^ 63 - 1 - 16) size ≡ false = ground (arith, large, bound) in
    let taken : Heap = record h { used = add_used (h.used) n } in
    let got_it : kmalloc slab_ops size h s ≡ (ok p, taken, after) =
      rw (g1, g2) (ap (λ (o : Option (ℕ × ℕ)). alloc_behind slab_ops size (o, after) h) got) in
    let nonnull : p ≢ 0 = λ e.
      let clash = sym used ∙ ap (λ k. in_use k after) e ∙ null-in_use after in
      ground (arith, clash) in
    let g3 : (p == 0) ≡ false = ground (arith, nonnull) in
    let left = (slab_free p after).1 in
    let gave_it : kfree slab_ops p taken after ≡ some (h, left) =
      rw g3 (ap (λ (o : Option ℕ). free_behind slab_ops p (o, left) taken) back)
      ∙ ap (λ k. beside slab_ops left (with_used k taken.block taken)) (used_back h.used n small) in
    (
      ap (λ (r : KResult ℕ × Heap × Slabs). r.0) got_it,
      ap (λ (r : KResult ℕ × Heap × Slabs). kfree slab_ops p r.1 r.2) got_it
          ∙ gave_it
          ∙ ap (λ (r : KResult ℕ × Heap × Slabs). some (h, (slab_free p r.2).1)) (sym got_it),
    )
