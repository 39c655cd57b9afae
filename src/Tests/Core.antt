-- ===== src/Tests/Core.antt =====
-- The properties of onyx_core at concrete inputs.
use onyx_kernel.Prelude.{ℕ, ◌-◌, ◌^◌, ◌<◌, ◌≡◌, List, [], ◌∷◌, get_or, arith}
use native.Mathlib.Nat.{dvd-mul_left}
use onyx_kernel.Core.Ringbuf.{u32_mod, ring_used, ring_write}
use onyx_kernel.Core.Ringbuf.Refine.{IsRing, ring_write_overwrites}

-- Four cells with two bytes, the counters about to wrap round.
abbrev four_cells : List ℕ
four_cells = 3 ∷ 4 ∷ 1 ∷ 2 ∷ []

four_cells-IsRing : IsRing four_cells (u32_mod - 2) 0
unfolding ring_used
four_cells-IsRing = record {
  divides = dvd-mul_left 4 (2 ^ 30);
  small = omega arith;
  head_lt = omega arith;
  tail_lt = omega arith;
  fits = omega arith;
}

-- Three cells, where 2 ^ 32 leaves the remainder 1.
ring_write_overwrites_example :
    (ring_used (u32_mod - 1) 0 < 3)
    × ((ring_write (1 ∷ 2 ∷ 3 ∷ []) (u32_mod - 1) 0 (9 ∷ [])).2 ≡ 1)
    × (get_or (ring_write (1 ∷ 2 ∷ 3 ∷ []) (u32_mod - 1) 0 (9 ∷ [])).0 0 0 ≡ 9)
ring_write_overwrites_example =
    ring_write_overwrites (1 ∷ 2 ∷ 3 ∷ []) 9 (omega arith) (omega arith) (omega arith)
