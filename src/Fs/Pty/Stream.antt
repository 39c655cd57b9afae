-- ===== src/Fs/Pty/Stream.antt =====
-- The transfers of kernel/src/fs/pty against two bounded queues, one for each direction.
use native.Mathlib.Nat.{dvd-mul_left}
use onyx_kernel.Prelude.{
  ◌^◌, ℕ, ◌-◌, ◌≤◌, ◌<◌, ◌≡◌, sym, ap, ap₂, ◌∙◌, Bool, true, false, List, [], ◌∷◌, ◌++◌, append-nil,
  arith, length, min, take, drop, length-take, take_of_length-le, drop_of_length-le, if◌then◌else◌,
}
use onyx_kernel.Core.Errno.{KResult, ok, err, pipe}
use onyx_kernel.Core.Ringbuf.{u32_mod, ring_used, ring_free}
use onyx_kernel.Core.Ringbuf.Refine.{
  IsRing, contents, length-contents, ring_free_lem, ring_write_lem, ring_read_lem,
}
use onyx_kernel.Fs.Pty.{PtyRing, Pty, pty_buf_cap, used_ring, pop, push, pair_read, pair_write}

-- The counters are u32 values at most the capacity apart.
pub record IsPtyRing (r : PtyRing) : Type 0 where
  pub cells : length r.buf ≡ pty_buf_cap
  pub head_lt : r.head < u32_mod
  pub tail_lt : r.tail < u32_mod
  pub fits : ring_used r.head r.tail ≤ pty_buf_cap

-- The capacity is a divisor of 2 ^ 32, so the laws of the byte ring apply.
as-IsRing : (r : PtyRing) → IsPtyRing r → IsRing r.buf r.head r.tail
as-IsRing r v = record {
  divides = rw v.cells (dvd-mul_left pty_buf_cap (2 ^ 23));
  small = omega (arith, v.cells);
  head_lt = v.head_lt;
  tail_lt = v.tail_lt;
  fits = omega (arith, v.cells, v.fits);
}

of_ring : (r : PtyRing) → IsRing r.buf r.head r.tail → length r.buf ≡ pty_buf_cap → IsPtyRing r
of_ring r v c = record {
  cells = c;
  head_lt = v.head_lt;
  tail_lt = v.tail_lt;
  fits = omega (arith, c, v.fits);
}

abbrev pub bytes : PtyRing → List ℕ
bytes r = contents r.buf r.head r.tail

-- What a direction promises of a write: as many bytes as fit are appended, in order.
abbrev pub queue_write : List ℕ → List ℕ → ℕ × List ℕ
queue_write q src = let n = min (length src) (pty_buf_cap - length q) in (n, q ++ take n src)

-- And of a read: as many of the oldest bytes as `dst` takes are moved to its front.
abbrev pub queue_read : List ℕ → List ℕ → ℕ × List ℕ × List ℕ
queue_read q dst = let n = min (length dst) (length q) in (n, take n q ++ drop n dst, drop n q)

free_bytes :
    (r : PtyRing)
    → IsPtyRing r
    → ring_free pty_buf_cap r.head r.tail ≡ pty_buf_cap - length (bytes r)
free_bytes r v =
    ap (λ c. ring_free c r.head r.tail) (sym v.cells)
    ∙ ring_free_lem r.buf r.head r.tail (as-IsRing r v)
    ∙ omega (arith, v.cells, length-contents r.buf r.head r.tail)

push_lem :
    (r : PtyRing) (src : List ℕ)
    → IsPtyRing r
    → let (r', n) = push r (take (min (length src) (ring_free pty_buf_cap r.head r.tail)) src) in
      (n ≡ (queue_write (bytes r) src).0)
      × (bytes r' ≡ (queue_write (bytes r) src).1)
      × IsPtyRing r'
unfolding push
push_lem r src v =
    let w = ring_write_lem r.buf r.head r.tail sent (as-IsRing r v) in
    (
      count,
      w.1
          ∙ ap (λ t. bytes r ++ t)
              (take_of_length-le _ sent (omega (arith, count, len)) ∙ ap (λ k. take k src) fit),
      of_ring _ w.3 (w.2 ∙ v.cells),
    )
  where
    m : ℕ
    m = min (length src) (ring_free pty_buf_cap r.head r.tail)

    sent : List ℕ
    sent = take m src

    fit : m ≡ min (length src) (pty_buf_cap - length (bytes r))
    fit = ap (min (length src)) (free_bytes r v)

    len : length sent ≡ min (length src) (pty_buf_cap - length (bytes r))
    len = length-take m src ∙ omega (arith, fit)

    count : (push r sent).1 ≡ min (length src) (pty_buf_cap - length (bytes r))
    count = omega (
      arith,
      (ring_write_lem r.buf r.head r.tail sent (as-IsRing r v)).0,
      len,
      v.cells,
      length-contents r.buf r.head r.tail,
    )

pop_lem :
    (r : PtyRing) (dst : List ℕ)
    → IsPtyRing r
    → let (dst', r', n) = pop r (take (min (length dst) (used_ring r)) dst) in
      let (n', out, rest) = queue_read (bytes r) dst in
      (n ≡ n')
      × (dst' ++ drop (min (length dst) (used_ring r)) dst ≡ out)
      × (bytes r' ≡ rest)
      × IsPtyRing r'
unfolding pop used_ring
pop_lem r dst v =
    let w = ring_read_lem r.buf r.head r.tail room (as-IsRing r v) in
    (
      count,
      ap₂ ◌++◌
          (w.1
            ∙ ap₂ (λ j t. take j (bytes r) ++ t) count
                (drop_of_length-le _ room (omega (arith, count, len)))
            ∙ append-nil _)
          (ap (λ k. drop k dst) fit),
      w.2 ∙ ap (λ k. drop k (bytes r)) count,
      of_ring _ w.3 v.cells,
    )
  where
    m : ℕ
    m = min (length dst) (used_ring r)

    room : List ℕ
    room = take m dst

    fit : m ≡ min (length dst) (length (bytes r))
    fit = omega (arith, length-contents r.buf r.head r.tail)

    len : length room ≡ min (length dst) (length (bytes r))
    len = length-take m dst ∙ omega (arith, fit)

    count : (pop r room).2 ≡ min (length dst) (length (bytes r))
    count = omega (
      arith,
      (ring_read_lem r.buf r.head r.tail room (as-IsRing r v)).0,
      len,
      v.cells,
      v.fits,
      length-contents r.buf r.head r.tail,
    )

pub record IsPty (p : Pty) : Type 0 where
  pub m2s : IsPtyRing p.m2s
  pub s2m : IsPtyRing p.s2m

-- What a pair is to its users: whether it is in use, and the bytes under way in each direction.
pub record Duplex : Type 0 where
  pub live : Bool
  pub to_slave : List ℕ
  pub to_master : List ℕ

abbrev pub view : Pty → Duplex
view p = record { live = p.used; to_slave = bytes p.m2s; to_master = bytes p.s2m }

-- A read on one side takes the oldest bytes sent from the other; on a freed pair it fails.
pub duplex_read : Duplex → Bool → List ℕ → KResult ℕ × List ℕ × Duplex
duplex_read d from_master dst =
    let (n, out, rest) = queue_read (if from_master then d.to_master else d.to_slave) dst in
    if d.live
    then (
      ok n,
      out,
      if from_master then record d { to_master = rest } else record d { to_slave = rest },
    )
    else (err pipe, dst, d)

-- A write on one side appends as much as fits to what the other will read.
pub duplex_write : Duplex → Bool → List ℕ → KResult ℕ × Duplex
duplex_write d by_master src =
    let (n, q) = queue_write (if by_master then d.to_slave else d.to_master) src in
    if d.live
    then (ok n, if by_master then record d { to_slave = q } else record d { to_master = q })
    else (err pipe, d)

queue_read_empty : (q dst : List ℕ) → length q ≡ 0 → queue_read q dst ≡ (0, dst, q)
queue_read_empty [] dst h =
    ap (λ (n : ℕ). let r : ℕ × List ℕ × List ℕ = (n, take n [] ++ drop n dst, drop n []) in r)
      (omega arith)
queue_read_empty (x ∷ q) dst h = absurd (omega arith)

pub pair_read_refines :
    (p : Pty) (from_master : Bool) (dst : List ℕ)
    → IsPty p
    → let (r, dst', p') = pair_read p from_master dst in
      ((r, dst', view p') ≡ duplex_read (view p) from_master dst) × IsPty p'
unfolding pair_read duplex_read
pair_read_refines p true dst v = ground (
  arith,
  pop_lem p.s2m dst v.s2m,
  length-contents p.s2m.buf p.s2m.head p.s2m.tail,
  queue_read_empty (bytes p.s2m) dst,
)
pair_read_refines p false dst v = ground (
  arith,
  pop_lem p.m2s dst v.m2s,
  length-contents p.m2s.buf p.m2s.head p.m2s.tail,
  queue_read_empty (bytes p.m2s) dst,
)

pub pair_write_refines :
    (p : Pty) (by_master : Bool) (src : List ℕ)
    → IsPty p
    → let (r, p') = pair_write p by_master src in
      ((r, view p') ≡ duplex_write (view p) by_master src) × IsPty p'
unfolding pair_write duplex_write
pair_write_refines p true src v =
    ground (arith, push_lem p.m2s src v.m2s, free_bytes p.m2s v.m2s, append-nil (bytes p.m2s))
pair_write_refines p false src v =
    ground (arith, push_lem p.s2m src v.s2m, free_bytes p.s2m v.s2m, append-nil (bytes p.s2m))
