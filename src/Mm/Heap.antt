-- ===== src/Mm/Heap.antt =====
-- kernel/src/mm/heap: mod.rs, the list of blocks, and alloc.rs, taking and giving back memory. The lock
-- is held for the whole of each operation. The header of a block is named by its address; pointers and
-- sizes have 64 bits. The pools of small objects of mm/pmm/slab.rs come through an interface.
pub mod Tiles
pub mod Fit
pub mod Join
pub mod Release
pub mod Sound
pub mod Restore
pub mod Balance
pub mod Cycle
pub mod Pools
pub mod Memory
pub mod Realloc
use onyx_kernel.Prelude.{
  ℕ, zero, suc, ◌+◌, ◌-◌, ◌*◌, ◌/◌, ◌%◌, ◌^◌, Bool, true, false, not, ◌&&◌, ◌||◌, Option, none,
  some, ltb, leb, ◌==◌, if◌then◌else◌,
}
use onyx_kernel.Core.Errno.{KResult, ok, err, inval, no_mem}
use onyx_kernel.Proc.State.{assign}

abbrev pub heap_size : ℕ
heap_size = 4 * 1024 * 1024

abbrev pub min_block : ℕ
min_block = 16

-- `Block::hdr_size`
abbrev pub hdr_size : ℕ
hdr_size = 32

pub record Block : Type 0 where
  pub size : ℕ
  pub free : Bool
  pub next : Option ℕ
  pub prev : Option ℕ

-- `G_HEAP`, and the headers.
pub record Heap : Type 0 where
  pub used : ℕ
  pub free_list : Option ℕ
  pub block : ℕ → Block

-- `(*p).prev = v` and the like, where the pointer may be null.
abbrev pub set_prev : (ℕ → Block) → Option ℕ → Option ℕ → ℕ → Block
set_prev block none v = block
set_prev block (some p) v = assign block p (record (block p) { prev = v })

-- `init` at the address of the end of the kernel.
abbrev pub init : ℕ → (ℕ → Block) → Heap
init base block = record {
  used = 0;
  free_list = some base;
  block =
      assign block base
        (record { size = heap_size - hdr_size; free = true; next = none; prev = none });
}

-- The source panics where the sum passes 2 ^ 64.
abbrev pub add_used : ℕ → ℕ → ℕ
add_used used n = (used + n) % 2 ^ 64

-- The source panics where the difference is below 0: that is `none`, here and in what calls it.
abbrev pub sub_used : ℕ → ℕ → Option ℕ
sub_used used n = if ltb used n then none else some (used - n)

-- The rest of the block at `a` behind `needed` bytes becomes a block of its own.
abbrev pub split_block : ℕ → ℕ → (ℕ → Block) → ℕ → Block
split_block a needed block =
    let b = block a in
    let new_addr = a + hdr_size + needed in
    let new_blk : Block = record {
      size = b.size - needed - hdr_size;
      free = true;
      next = b.next;
      prev = some a;
    } in
    assign (set_prev (assign block new_addr new_blk) b.next (some new_addr)) a
      (record b { next = some new_addr; size = needed; free = false })

abbrev pub whole_block : ℕ → (ℕ → Block) → ℕ → Block
whole_block a block = assign block a (record (block a) { free = false })

-- The block at `a` is given out.
abbrev pub take_block : ℕ → ℕ → Heap → Heap
take_block a needed h = record {
  used = add_used h.used needed;
  free_list = h.free_list;
  block =
      if leb (needed + hdr_size + min_block + hdr_size) (h.block a).size
      then split_block a needed h.block
      else whole_block a h.block;
}

abbrev pub fits : ℕ → Block → Bool
fits needed b = b.free && leb (needed + hdr_size) b.size

-- The walk over the list, on fuel.
unfoldable pub fit_loop : ℕ → Option ℕ → ℕ → Heap → KResult ℕ × Heap
fit_loop zero cur needed h = (err no_mem, h)
fit_loop (suc n) none needed h = (err no_mem, h)
fit_loop (suc n) (some a) needed h =
    let rest = fit_loop n (h.block a).next needed h in
    if fits needed (h.block a) then (ok (a + hdr_size), take_block a needed h) else rest

abbrev pub max_blocks : ℕ
max_blocks = heap_size / hdr_size

-- `(size + 15) & !15`
abbrev pub round_up : ℕ → ℕ
round_up size = size + 15 - (size + 15) % 16

-- The part of `kmalloc_locked` behind the pools.
unfoldable pub list_alloc : ℕ → Heap → KResult ℕ × Heap
list_alloc size h = fit_loop (suc max_blocks) h.free_list (round_up size) h

abbrev pub free_at : (ℕ → Block) → Option ℕ → Bool
free_at block none = false
free_at block (some p) = (block p).free

-- The block at `a` takes in the one that `next` points to, if there is one.
abbrev pub join_next : ℕ → Option ℕ → (ℕ → Block) → ℕ → Block
join_next a none block = block
join_next a (some n) block =
    let joined : Block = record (block a) {
      size = (block a).size + (hdr_size + (block n).size);
      next = (block n).next;
    } in
    set_prev (assign block a joined) (block n).next (some a)

-- What the coalescing does at the block `a`, with its neighbours if they are free.
abbrev pub merge_next : ℕ → (ℕ → Block) → ℕ → Block
merge_next a block =
    if free_at block (block a).next then join_next a (block a).next block else block

abbrev pub merge_prev : ℕ → Option ℕ → (ℕ → Block) → ℕ → Block
merge_prev a none block = block
merge_prev a (some p) block = if (block p).free then join_next p (some a) block else block

-- What is left once `used` was counted down.
abbrev pub with_used : Option ℕ → (ℕ → Block) → Heap → Option Heap
with_used none block h = none
with_used (some u) block h = some (record h { used = u; block = block })

-- The part of `kfree_locked` behind the pools.
unfoldable pub list_free : ℕ → Heap → Option Heap
list_free p h =
    let a = p - hdr_size in
    let freed = assign h.block a (record (h.block a) { free = true }) in
    let joined = merge_next a freed in
    if ltb p hdr_size || not (p % 16 == 0)
    then some h
    else if ((h.block a).size == 0) || ltb heap_size (h.block a).size
    then some h
    else with_used (sub_used h.used (h.block a).size) (merge_prev a (joined a).prev joined) h

-- The pools of small objects: the object and its size, or the size of what is given back.
pub record SlabOps : Type 1 where
  pub Slab : Type 0
  pub slab_alloc : ℕ → Slab → Option (ℕ × ℕ) × Slab
  pub slab_free : ℕ → Slab → Option ℕ × Slab

module _ (ops : SlabOps) where
  open ops use {Slab, slab_alloc, slab_free}

  abbrev pub alloc_behind : ℕ → Option (ℕ × ℕ) × Slab → Heap → KResult ℕ × Heap × Slab
  alloc_behind size (some (p, n), s) h = (ok p, record h { used = add_used (h.used) n }, s)
  alloc_behind size (none, s) h = let (r, g) = list_alloc size h in (r, g, s)

  unfoldable pub kmalloc : ℕ → Heap → Slab → KResult ℕ × Heap × Slab
  kmalloc size h s =
      if size == 0
      then (err inval, h, s)
      else if ltb (2 ^ 63 - 1 - 16) size
      then (err no_mem, h, s)
      else alloc_behind size (slab_alloc size s) h

  abbrev pub beside : Slab → Option Heap → Option (Heap × Slab)
  beside s none = none
  beside s (some h) = some (h, s)

  abbrev pub free_behind : ℕ → Option ℕ × Slab → Heap → Option (Heap × Slab)
  free_behind p (some n, s) h = beside s (with_used (sub_used h.used n) h.block h)
  free_behind p (none, s) h = beside s (list_free p h)

  unfoldable pub kfree : ℕ → Heap → Slab → Option (Heap × Slab)
  kfree p h s = if p == 0 then some (h, s) else free_behind p (slab_free p s) h
