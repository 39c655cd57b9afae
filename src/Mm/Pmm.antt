-- ===== src/Mm/Pmm.antt =====
-- kernel/src/mm/pmm: the physical page allocator over a bitmap (bitmap.rs, and the state and
-- `is_managed` of mod.rs). The global lock is held for the whole of each public operation, so an
-- operation is one step. The memory behind the pages is part of the state, since pages are zeroed.
pub mod Bits
pub mod Alloc
pub mod Run
pub mod Init
use Prim.Native.Nat.{bit_and, bit_or}
use onyx_kernel.Prelude.{
  ℕ, zero, suc, ◌+◌, ◌-◌, ◌*◌, ◌/◌, ◌%◌, ◌^◌, Bool, true, false, not, ◌&&◌, ◌||◌, List, get_or, set,
  ltb, leb, ◌==◌, if◌then◌else◌,
}
use onyx_kernel.Core.Errno.{KResult, ok, err, inval, no_mem}

abbrev pub page_size : ℕ
page_size = 4096

abbrev pub usize_mod : ℕ
usize_mod = 2 ^ 64

-- `struct Pmm` but the slab lists, with the bytes of the bitmap and of the memory.
pub record Pmm : Type 0 where
  pub base : ℕ
  pub total_pages : ℕ
  pub free_pages : ℕ
  pub bitmap : List ℕ
  pub memory : ℕ → ℕ

-- `byte & (1 << k) != 0`, `byte | (1 << k)` and `byte & !(1 << k)` on a u8, for `k < 8`.
unfoldable pub test_bit : ℕ → ℕ → Bool
test_bit byte k = not (bit_and byte (2 ^ k) == 0)

unfoldable pub set_bit : ℕ → ℕ → ℕ
set_bit byte k = bit_or byte (2 ^ k)

unfoldable pub clear_bit : ℕ → ℕ → ℕ
clear_bit byte k = bit_and byte (255 - 2 ^ k)

unfoldable pub bm_get : Pmm → ℕ → Bool
unfolding test_bit
bm_get p bit = test_bit (get_or p.bitmap (bit / 8) 0) (bit % 8)

-- The counter is a usize. The source panics where it would pass an end; the counter here wraps.
unfoldable pub bm_set : Pmm → ℕ → Pmm
unfolding set_bit
bm_set p bit = record p {
  bitmap = set p.bitmap (bit / 8) (set_bit (get_or p.bitmap (bit / 8) 0) (bit % 8));
  free_pages = (p.free_pages + usize_mod - 1) % usize_mod;
}

unfoldable pub bm_clr : Pmm → ℕ → Pmm
unfolding clear_bit
bm_clr p bit = record p {
  bitmap = set p.bitmap (bit / 8) (clear_bit (get_or p.bitmap (bit / 8) 0) (bit % 8));
  free_pages = (p.free_pages + 1) % usize_mod;
}

-- Both on addresses of managed pages, which are below 2 ^ 64.
abbrev pub pa_to_idx : Pmm → ℕ → ℕ
pa_to_idx p pa = (pa - p.base) / page_size

abbrev pub idx_to_pa : Pmm → ℕ → ℕ
idx_to_pa p idx = p.base + idx * page_size

-- `ptr::write_bytes(pa, 0, n)`
abbrev pub write_zeros : (ℕ → ℕ) → ℕ → ℕ → ℕ → ℕ
write_zeros mem pa n a = if leb pa a && ltb a (pa + n) then 0 else mem a

abbrev pub clear_pages : Pmm → ℕ → ℕ → Pmm
clear_pages p pa n = record p { memory = write_zeros p.memory pa (n * page_size) }

-- The loop of `alloc_unlocked` at `i`, with `n` rounds left.
pub alloc_loop : ℕ → ℕ → Pmm → KResult ℕ × Pmm
alloc_loop zero i p = (err no_mem, p)
alloc_loop (suc n) i p =
    let rest = alloc_loop n (i + 1) p in
    if bm_get p i then rest else (ok (idx_to_pa p i), clear_pages (bm_set p i) (idx_to_pa p i) 1)

unfoldable pub alloc : Pmm → KResult ℕ × Pmm
unfolding alloc_loop
alloc p = alloc_loop p.total_pages 0 p

-- `for k in start..start + n { bm_set(k) }`
pub set_run : ℕ → ℕ → Pmm → Pmm
set_run zero k p = p
set_run (suc n) k p = set_run n (k + 1) (bm_set p k)

-- The loop of `alloc_n_unlocked` at `i`, with `rounds` left: the last `run` bits before `i`, from
-- `start` on, are clear.
pub alloc_n_loop : ℕ → ℕ → ℕ → ℕ → ℕ → Pmm → KResult ℕ × Pmm
unfolding set_run
alloc_n_loop zero n i run start p = (err no_mem, p)
alloc_n_loop (suc rounds) n i run start p =
    let clear = not (bm_get p i) in
    let run' = if clear then run + 1 else 0 in
    let start' = if clear && run == 0 then i else start in
    let rest = alloc_n_loop rounds n (i + 1) run' start' p in
    if clear && run' == n
    then (ok (idx_to_pa p start'), clear_pages (set_run n start' p) (idx_to_pa p start') n)
    else rest

unfoldable pub alloc_n : Pmm → ℕ → KResult ℕ × Pmm
unfolding alloc_n_loop
alloc_n p n = if n == 0 then (err inval, p) else alloc_n_loop p.total_pages n 0 0 0 p

-- A page address has its low 12 bits clear.
unfoldable pub free : Pmm → ℕ → Pmm
free p pa =
    if not (pa % page_size == 0) || ltb pa p.base
    then p
    else if ltb (pa_to_idx p pa) p.total_pages && bm_get p (pa_to_idx p pa)
    then bm_clr p (pa_to_idx p pa)
    else p

unfoldable pub is_managed : Pmm → ℕ → Bool
is_managed p pa =
    if not (pa % page_size == 0)
    then false
    else leb p.base pa && ltb pa (p.base + p.total_pages * page_size)
