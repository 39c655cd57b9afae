-- ===== src/Core/Ringbuf/Refine.antt =====
-- The rings of core/src/ringbuf.rs, for capacities that divide 2 ^ 32 and for others.
use Prim.Native.Nat.{◌∣◌}
use native.Mathlib.Nat.{mod-lt, div-add-mod}
use onyx_kernel.Prelude.{
  ℕ, ◌+◌, ◌-◌, ◌%◌, ◌≤◌, ◌<◌, ◌≡◌, ◌≢◌, refl, sym, ap, ap₂, ◌∙◌, List, [], ◌∷◌, ◌++◌, arith, length,
  min, take, drop, triple, subst, get_or, set, get_or-set_self,
}
use onyx_kernel.Core.Ringbuf.{
  u32_mod, wrapping_add, ring_used, ring_free, write_loop, read_loop, ring_write, ring_read,
}
use onyx_kernel.Core.Ringbuf.Window.{
  window, length-window, take-window, drop-window, Wrote, write_loop-Wrote, read_loop_lem,
}

-- The counters are u32 values, at most the capacity apart, and the capacity is a
-- proper divisor of 2 ^ 32.
pub record IsRing (buf : List ℕ) (head tail : ℕ) : Type 0 where
  pub divides : length buf ∣ u32_mod
  pub small : length buf < u32_mod
  pub head_lt : head < u32_mod
  pub tail_lt : tail < u32_mod
  pub fits : ring_used head tail ≤ length buf

-- The bytes in the ring, oldest first.
abbrev pub contents : List ℕ → ℕ → ℕ → List ℕ
contents buf head tail = window buf (length buf) head (ring_used head tail)

pub length-contents :
    (buf : List ℕ) (head tail : ℕ) → length (contents buf head tail) ≡ ring_used head tail
length-contents buf head tail = length-window buf (length buf) head (ring_used head tail)

-- `ring_free` does not wrap: it is the capacity less what is used.
pub ring_free_lem :
    (buf : List ℕ) (head tail : ℕ)
    → IsRing buf head tail
    → ring_free (length buf) head tail ≡ length buf - ring_used head tail
unfolding ring_free
ring_free_lem buf head tail v = omega (arith, v.fits, v.small)

-- `ring_write` takes as many bytes as fit, appends exactly those in order, and keeps the invariant.
pub ring_write_lem :
    (buf : List ℕ) (head tail : ℕ) (src : List ℕ)
    → IsRing buf head tail
    → let (buf', tail', n) = ring_write buf head tail src in
      (n ≡ min (length src % u32_mod) (length buf - ring_used head tail))
      × (contents buf' head tail' ≡ contents buf head tail ++ take n src)
      × (length buf' ≡ length buf)
      × IsRing buf' head tail'
unfolding ring_write
ring_write_lem buf head tail src v = (
  omega (arith, w.count, free),
  ap₂ (λ c u. window (ring_write buf head tail src).0 c head u) w.kept after
      ∙ w.bytes
      ∙ ap (λ k. contents buf head tail ++ take k src) (omega (arith, w.count)),
  w.kept,
  record {
    divides = subst (λ c. c ∣ u32_mod) (sym w.kept) v.divides;
    small = rw w.kept v.small;
    head_lt = v.head_lt;
    tail_lt = omega (arith, w.end);
    fits = omega (arith, after, w.kept, free);
  },
)
  where
    free : ring_free (length buf) head tail ≡ length buf - ring_used head tail
    free = ring_free_lem buf head tail v

    n : ℕ
    n = min (length src % u32_mod) (ring_free (length buf) head tail)

    w : Wrote buf (length buf) head (ring_used head tail) tail 0 n src (write_loop n buf tail 0 src)
    w =
        write_loop-Wrote n buf (length buf) head (ring_used head tail) tail 0 src refl v.divides
          v.head_lt (omega (arith, v.head_lt, v.tail_lt)) (omega (arith, free, v.fits))
          (omega arith)

    after : ring_used head (write_loop n buf tail 0 src).1 ≡ ring_used head tail + n
    after = omega (arith, w.end, free, v.fits, v.small, v.head_lt, v.tail_lt)

-- `ring_read` copies out as many of the oldest bytes as `dst` takes, in order, over the front of
-- `dst`, drops exactly those from the ring, and keeps the invariant.
pub ring_read_lem :
    (buf : List ℕ) (head tail : ℕ) (dst : List ℕ)
    → IsRing buf head tail
    → let (dst', head', n) = ring_read buf head tail dst in
      (n ≡ min (length dst % u32_mod) (ring_used head tail))
      × (dst' ≡ take n (contents buf head tail) ++ drop n dst)
      × (contents buf head' tail ≡ drop n (contents buf head tail))
      × IsRing buf head' tail
unfolding ring_read
ring_read_lem buf head tail dst v = rw run (
  refl,
  ap (λ b. b ++ drop n dst) (sym (take-window buf (length buf) head n _ (omega arith))),
  ap (window buf (length buf) (wrapping_add head n)) after
      ∙ sym (drop-window buf (length buf) head n _ v.head_lt (omega arith)),
  record {
    divides = v.divides;
    small = v.small;
    head_lt = omega arith;
    tail_lt = v.tail_lt;
    fits = omega (arith, after, v.fits);
  },
)
  where
    n : ℕ
    n = min (length dst % u32_mod) (ring_used head tail)

    run :
        read_loop n buf head 0 dst
        ≡ (window buf (length buf) head n ++ drop n dst, wrapping_add head n, n)
    run = read_loop_lem n buf head [] dst v.head_lt (omega arith) ∙ triple refl refl (omega arith)

    after : ring_used (wrapping_add head n) tail ≡ ring_used head tail - n
    after = omega (arith, v.head_lt, v.tail_lt)

-- Without the divisibility the ring loses data: where 2 ^ 32 is no multiple of the capacity, a ring
-- that holds `2 ^ 32 % cap` bytes and whose oldest byte stands at the last multiple of the capacity
-- is not full, and writing a byte to it overwrites that oldest byte.
pub ring_write_overwrites :
    (buf : List ℕ) (x : ℕ)
    → 0 < length buf
    → length buf < u32_mod
    → u32_mod % length buf ≢ 0
    → let head = u32_mod - u32_mod % length buf in
      (ring_used head 0 < length buf)
      × ((ring_write buf head 0 (x ∷ [])).2 ≡ 1)
      × (get_or (ring_write buf head 0 (x ∷ [])).0 (head % length buf) 0 ≡ x)
unfolding ring_write
ring_write_overwrites buf x p s r = (
  omega (arith, used, left),
  ap (λ k. (write_loop k buf 0 0 (x ∷ [])).2) one,
  ap₂ (λ k j. get_or (write_loop k buf 0 0 (x ∷ [])).0 j 0) one slot
      ∙ ap₂ (λ i j. get_or (set buf i x) j 0) (omega arith) (omega arith)
      ∙ get_or-set_self buf 0 x 0 p,
)
  where
    left : u32_mod % length buf < length buf
    left = mod-lt u32_mod p

    used : ring_used (u32_mod - u32_mod % length buf) 0 ≡ u32_mod % length buf
    used = omega (arith, left)

    one : min 1 (ring_free (length buf) (u32_mod - u32_mod % length buf) 0) ≡ 1
    one = omega (arith, used, left)

    slot : (u32_mod - u32_mod % length buf) % length buf ≡ 0 % length buf
    slot = grind (arith, div-add-mod u32_mod (length buf))
