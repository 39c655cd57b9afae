-- ===== src/Core/Ringbuf/Slots.antt =====
-- Arithmetic of the wrapping counters: where the capacity divides 2 ^ 32, positions less than the
-- capacity apart stand at different indices of the buffer.
use Prim.Native.Nat.{◌∣◌}
use native.Mathlib.Nat.{mod-add-mod, mod-eq_of_lt, mod-eq-sub-mod, mod-mod_of_dvd}
use onyx_kernel.Prelude.{ℕ, ◌+◌, ◌-◌, ◌%◌, ◌<◌, ◌≡◌, ◌≢◌, arith, dec_lt, ap, sym, ◌∙◌}
use onyx_kernel.Core.Ringbuf.{u32_mod, wrapping_add}

-- Positions less than the capacity apart stand at different indices.
pub slot_ne : (cells h k : ℕ) → 0 < k → k < cells → (h + k) % cells ≢ h % cells
slot_ne cells h k p q e = elim (dec_lt (h % cells + k) cells) [
  | yes lt ↦ omega (arith, e, sum, mod-eq_of_lt lt)
  | no ge ↦ omega (
    arith,
    e,
    sum,
    mod-eq-sub-mod {n = h % cells + k} {m = cells} (omega arith),
    mod-eq_of_lt {n = h % cells + k - cells} {m = cells} (omega arith),
  )
]
  where
    sum : (h % cells + k) % cells ≡ (h + k) % cells
    sum = mod-add-mod h cells k

module _ (cells : ℕ) (d : cells ∣ u32_mod) where
  pub wrap-mod : (a : ℕ) → a % u32_mod % cells ≡ a % cells
  wrap-mod a = mod-mod_of_dvd cells a d

  -- The index of `tail` differs from those of the bytes that the ring holds.
  pub tail_slot_ne :
      (h n k : ℕ) → k < n → n < cells → wrapping_add h k % cells ≢ wrapping_add h n % cells
  tail_slot_ne h n k p q e = slot_ne cells (h + k) (n - k) (omega arith) (omega arith) same
    where
      far : (h + k + (n - k)) % cells ≡ (h + n) % cells
      far = ap (λ t. t % cells) (omega arith)

      same : (h + k + (n - k)) % cells ≡ (h + k) % cells
      same = far ∙ sym (wrap-mod (h + n)) ∙ sym e ∙ wrap-mod (h + k)
