-- ===== src/Mm/Pmm/Init.antt =====
-- Mm/Pmm: the start of the page allocator, `init` of mod.rs. The end of the kernel's image is an argument.
use onyx_kernel.Prelude.Passes
use onyx_kernel.Prelude.{ℕ, ◌+◌, ◌-◌, ◌*◌, ◌/◌, ◌%◌, max, replicate}
use onyx_kernel.Mm.Pmm.{Pmm, page_size, usize_mod}

abbrev pub kernel_heap_reserve : ℕ
kernel_heap_reserve = 4 * 1024 * 1024

-- The page boundary at `n` or behind it.
abbrev pub page_up : ℕ → ℕ
page_up n = let m = (n + page_size - 1) % usize_mod in m - m % page_size

abbrev pub div_ceil : ℕ → ℕ → ℕ
div_ceil n d = (n + (d - 1)) / d

unfoldable pub init : ℕ → ℕ → ℕ → (ℕ → ℕ) → Pmm
init kernel_end dram_base dram_size memory =
    let managed_base = page_up (max ((kernel_end + kernel_heap_reserve) % usize_mod) dram_base) in
    let managed_end = (dram_base + dram_size) % usize_mod in
    let pages = (managed_end - managed_base) / page_size in
    let bitmap_bytes = div_ceil pages 8 in
    let bitmap_pages = div_ceil bitmap_bytes page_size in
    record {
      base = managed_base + bitmap_pages * page_size;
      total_pages = pages - bitmap_pages;
      free_pages = pages - bitmap_pages;
      bitmap = replicate bitmap_bytes 0;
      memory = memory;
    }
