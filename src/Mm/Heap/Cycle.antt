-- ===== src/Mm/Heap/Cycle.antt =====
-- Mm/Heap: memory taken and given back again.
use onyx_kernel.Prelude.{ℕ, ◌+◌, ◌-◌, ◌≤◌, ◌<◌, ◌≡◌, List, ◌⊎◌, Option, none, some}
use onyx_kernel.Core.Errno.{KResult, ok, err}
use onyx_kernel.Mm.Heap.{hdr_size, min_block, Heap}
use onyx_kernel.Mm.Heap.Tiles.{Tile}
use onyx_kernel.Mm.Heap.Balance.{IsHeap}

-- The block that was found was given out whole.
abbrev pub IsWhole : ℕ → ℕ → Type 0
IsWhole needed s = (needed + hdr_size ≤ s) × (s < needed + hdr_size + min_block + hdr_size)

-- What the two calls do to a heap of the blocks `ts`, of which `used` bytes were counted.
abbrev pub IsAgain : ℕ → List Tile → ℕ → ℕ → Option Heap → Type 0
IsAgain base ts needed used o =
    ((s : ℕ) × IsWhole needed s × (used + needed < s) × (o ≡ none))
    ⊎ ((g : Heap) × (o ≡ some g)
        × IsHeap base ts g
        × ((g.used ≡ used) ⊎ ((s : ℕ) × IsWhole needed s × (g.used + (s - needed) ≡ used))))

abbrev value_of : KResult ℕ → ℕ
value_of (ok n) = n
value_of (err e) = 0
