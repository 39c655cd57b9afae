-- ===== src/Core/Ringbuf.antt =====
-- core/src/ringbuf.rs: the byte ring that the IPC channels and the pseudo terminals share. Counters
-- are u32 values that wrap; the capacity is the length of the buffer.
pub mod Slots
pub mod Window
pub mod Refine
use onyx_kernel.Prelude.{ℕ, zero, suc, ◌+◌, ◌-◌, ◌%◌, ◌^◌, min, List, [], ◌∷◌, length, set, get_or}

abbrev pub u32_mod : ℕ
u32_mod = 2 ^ 32

-- `wrapping_add` and `wrapping_sub` of u32
abbrev pub wrapping_add : ℕ → ℕ → ℕ
wrapping_add a b = (a + b) % u32_mod

abbrev pub wrapping_sub : ℕ → ℕ → ℕ
wrapping_sub a b = (a + u32_mod - b) % u32_mod

unfoldable pub ring_used : ℕ → ℕ → ℕ
ring_used head tail = wrapping_sub tail head

-- `capacity as u32 - used`. The source panics where `used` is larger than the capacity; the subtraction
-- here wraps.
unfoldable pub ring_free : ℕ → ℕ → ℕ → ℕ
unfolding ring_used
ring_free capacity head tail = wrapping_sub (capacity % u32_mod) (ring_used head tail)

-- The loop of `ring_write`, with `n` rounds left and `src` from index `written` on: the buffer,
-- `tail` and `written` when it ends. `n` is at most the length of `src`.
pub write_loop : ℕ → List ℕ → ℕ → ℕ → List ℕ → List ℕ × ℕ × ℕ
write_loop zero buf tail written src = (buf, tail, written)
write_loop (suc n) buf tail written [] = (buf, tail, written)
write_loop (suc n) buf tail written (x ∷ src) =
    write_loop n (set buf (tail % length buf) x) (wrapping_add tail 1) (written + 1) src

-- The new buffer, the new `tail`, and the number of bytes written.
unfoldable pub ring_write : List ℕ → ℕ → ℕ → List ℕ → List ℕ × ℕ × ℕ
unfolding ring_free write_loop
ring_write buf head tail src =
    write_loop (min (length src % u32_mod) (ring_free (length buf) head tail)) buf tail 0 src

-- The loop of `ring_read`: `dst`, `head` and `read` when it ends.
pub read_loop : ℕ → List ℕ → ℕ → ℕ → List ℕ → List ℕ × ℕ × ℕ
read_loop zero buf head read dst = (dst, head, read)
read_loop (suc n) buf head read dst =
    read_loop n buf (wrapping_add head 1) (read + 1)
      (set dst read (get_or buf (head % length buf) 0))

-- The new `dst`, the new `head`, and the number of bytes read.
unfoldable pub ring_read : List ℕ → ℕ → ℕ → List ℕ → List ℕ × ℕ × ℕ
unfolding ring_used read_loop
ring_read buf head tail dst =
    read_loop (min (length dst % u32_mod) (ring_used head tail)) buf head 0 dst
