-- ===== src/Tests/Slab.antt =====
-- The properties of the pools of small objects at concrete inputs.
use onyx_kernel.Prelude.{
  ℕ, zero, suc, ◌≤◌, ◌≡◌, ◌≢◌, refl, true, false, Option, none, some, List, [], ◌∷◌, arith,
}
use onyx_kernel.Core.Errno.{ok}
use onyx_kernel.Mm.Pmm.{Pmm, bm_get, test_bit}
use onyx_kernel.Mm.Slab.{Slabs, take_slot, new_header, slot_loop, page_loop, slab_alloc, slab_free}
use onyx_kernel.Mm.Slab.Grant.{IsSlabs}
use onyx_kernel.Mm.Slab.Found.{IsPages}
use onyx_kernel.Mm.Slab.Return.{slab_free-slab_free}
use onyx_kernel.Mm.Slab.InUse.{in_use}
use onyx_kernel.Mm.Slab.Objects.{slab_free-slab_alloc, slab_alloc-in_use}
use onyx_kernel.Mm.Heap.{Heap, kmalloc, kfree}
use onyx_kernel.Mm.Heap.Pools.{slab_ops, kfree-kmalloc}

-- Ten pages, the first taken for objects of 256 bytes, one of which is in use.
abbrev pmm : Pmm
pmm = record { base = 8192; total_pages = 10; free_pages = 9; bitmap = 1 ∷ 0 ∷ []; memory = λ a. 7 }

abbrev heads : ℕ → Option ℕ
heads zero = none
heads (suc zero) = some 8192
heads (suc (suc c)) = none

abbrev pages : ℕ → List ℕ
pages zero = []
pages (suc zero) = 8192 ∷ []
pages (suc (suc c)) = []

abbrev slabs : Slabs
slabs = record { pmm = pmm; heads = heads; header = λ a. take_slot 0 (new_header 1 none) }

slabs-IsPages : (c : ℕ) → IsPages slabs.header c (heads c) (pages c)
slabs-IsPages zero = refl
slabs-IsPages (suc zero) = (
  refl,
  record { nonnull = omega arith; aligned = refl; magic = refl; size_idx = refl; capacity = refl },
  refl,
)
slabs-IsPages (suc (suc c)) = refl

slabs-IsSlabs : IsSlabs slabs pages
slabs-IsSlabs = record {
  pmm = record {
    bytes = (omega arith, (omega arith, tt));
    room = omega arith;
    aligned = omega arith;
  };
  based = omega arith;
  lists = slabs-IsPages;
}

second_object : (slab_alloc 200 slabs).0 ≡ some (8480, 256)
unfolding slab_alloc page_loop slot_loop
second_object = refl

first_taken : bm_get slabs.pmm 0 ≡ true
unfolding bm_get test_bit
first_taken = refl

slab_free-slab_alloc_example :
    (200 ≤ 256) × ((slab_free 8480 (slab_alloc 200 slabs).1).0 ≡ some 256)
slab_free-slab_alloc_example =
    slab_free-slab_alloc 200 8480 256 slabs pages slabs-IsSlabs second_object

slab_alloc-in_use_example :
    (in_use 8480 (slab_alloc 200 slabs).1 ≡ true)
    × (◌≢◌ {A = ℕ} 8224 8480)
    × (in_use 8224 (slab_alloc 200 slabs).1 ≡ true)
slab_alloc-in_use_example =
    slab_alloc-in_use 200 8480 256 8224 slabs pages slabs-IsSlabs second_object refl first_taken

given_back_once : (slab_free 8224 slabs).0 ≡ some 256
unfolding slab_free
given_back_once = refl

slab_free-slab_free_example :
    slab_free 8224 (slab_free 8224 slabs).1 ≡ (none, (slab_free 8224 slabs).1)
slab_free-slab_free_example = slab_free-slab_free 8224 256 slabs given_back_once

abbrev heap : Heap
heap = record {
  used = 4096;
  free_list = none;
  block = λ a. record { size = 0; free = false; next = none; prev = none };
}

kfree-kmalloc_example :
    ((kmalloc slab_ops 200 heap slabs).0 ≡ ok 8480)
    × (kfree slab_ops 8480 (kmalloc slab_ops 200 heap slabs).1 (kmalloc slab_ops 200 heap slabs).2
        ≡ some (heap, (slab_free 8480 (kmalloc slab_ops 200 heap slabs).2).1))
kfree-kmalloc_example =
    kfree-kmalloc 200 8480 256 heap slabs pages (omega arith) (omega arith) slabs-IsSlabs
      second_object
