-- ===== src/Tests/Heap.antt =====
-- The properties of the kernel heap at concrete inputs.
use onyx_kernel.Prelude.{
  ℕ, ◌-◌, ◌≡◌, ◌⊎◌, inl, ◌%◌, refl, true, false, List, [], ◌∷◌, none, some, ◌<◌, arith,
}
use onyx_kernel.Core.Errno.{ok, err, no_mem}
use onyx_kernel.Mm.Heap.{
  Block, Heap, heap_size, hdr_size, init, list_alloc, list_free, fit_loop, kmalloc,
}
use onyx_kernel.Mm.Heap.Tiles.{Tile}
use onyx_kernel.Mm.Slab.{Slabs, take_slot, new_header, slab_alloc}
use onyx_kernel.Mm.Heap.Pools.{slab_ops}
use onyx_kernel.Mm.Heap.Memory.{freed_size}
use onyx_kernel.Mm.Heap.Realloc.{alloc_size, krealloc, krealloc_lem}
use onyx_kernel.Mm.Heap.Balance.{IsHeap, IsFreed, init-IsHeap, list_alloc_lem, list_free_lem}

abbrev empty_blocks : ℕ → Block
empty_blocks a = record { size = 0; free = false; next = none; prev = none }

abbrev fresh : Heap
fresh = init 4096 empty_blocks

abbrev fresh_tiles : List Tile
fresh_tiles = (heap_size - hdr_size, true) ∷ []

abbrev cut_tiles : List Tile
cut_tiles = (112, false) ∷ (heap_size - 176, true) ∷ []

list_alloc_lem_example :
    ((list_alloc 100 fresh).0 ≡ ok 4128)
    × IsHeap 4096 cut_tiles (list_alloc 100 fresh).1
    × (((list_alloc 100 fresh).0 ≡ err no_mem) ⊎ ((list_alloc 100 fresh).1.used ≡ 112))
list_alloc_lem_example =
    list_alloc_lem 100 4096 fresh_tiles fresh (omega arith) (init-IsHeap 4096 empty_blocks)

list_free_lem_example :
    IsFreed 4096 fresh_tiles 112 (list_alloc 100 fresh).1 (list_free 4128 (list_alloc 100 fresh).1)
list_free_lem_example =
    list_free_lem 4096 112 false [] ((heap_size - 176, true) ∷ []) (list_alloc 100 fresh).1 refl
      (list_alloc_lem 100 4096 fresh_tiles fresh (omega arith) (init-IsHeap 4096 empty_blocks)).1

-- Nearly all of the fresh heap in one block, which is given out whole: giving it back panics.
panics : list_free 4128 (list_alloc 4194240 fresh).1 ≡ none
unfolding list_alloc list_free fit_loop
panics = refl

-- The fresh heap, and one page behind it with an object of 256 bytes.
abbrev slabs : Slabs
slabs = record {
  pmm = record {
    base = 4202496;
    total_pages = 8;
    free_pages = 7;
    bitmap = 1 ∷ [];
    memory = λ a. a % 256;
  };
  heads = λ c. none;
  header = λ a. take_slot 0 (new_header 1 none);
}

grown : (kmalloc slab_ops 2000 fresh slabs).0 ≡ ok 4128
unfolding kmalloc slab_alloc list_alloc fit_loop
grown = refl

object_size : alloc_size 4202528 fresh slabs ≡ 256
unfolding alloc_size
object_size = refl

krealloc_lem_example :
    let g = (kmalloc slab_ops 2000 fresh slabs).1 in
    ((g.used < freed_size 4202528 g slabs) × (krealloc 4202528 2000 fresh slabs ≡ none))
    ⊎ ((g' : Heap) × (t : Slabs) × (krealloc 4202528 2000 fresh slabs ≡ some (ok 4128, g', t))
        × (t.pmm.memory 4228 ≡ 132))
krealloc_lem_example =
    krealloc_lem 4202528 2000 4128 100 fresh slabs (λ e. omega (arith, e)) (omega arith)
      (omega (arith, object_size)) (omega (arith, object_size)) grown
      (inl (omega (arith, object_size)))
