-- ===== src/Ipc/Transfer/Refine.antt =====
-- The transfers of a channel against a bounded message queue.
use native.Mathlib.Nat.{dvd-mul_left}
use onyx_kernel.Prelude.{
  ℕ, ◌-◌, ◌^◌, ◌≤◌, ◌<◌, ◌≡◌, sym, ap, ◌∙◌, Bool, not, ◌&&◌, List, [], ◌∷◌, ◌++◌, arith, length,
  min, take, drop, ltb, if◌then◌else◌, take_of_length-le,
}
use onyx_kernel.Core.Errno.{KResult, ok, err, pipe, perm, busy}
use onyx_kernel.Core.Ringbuf.{u32_mod, ring_used, ring_free, ring_write, ring_read}
use onyx_kernel.Core.Ringbuf.Refine.{
  IsRing, contents, length-contents, ring_free_lem, ring_write_lem, ring_read_lem,
}
use onyx_kernel.Proc.State.{Procs}
use onyx_kernel.Ipc.Channel.{Channel, pid_allowed, chan_buf_size}
use onyx_kernel.Ipc.Transfer.{Caller, send_on, recv_on}

-- The ring of a channel: `chan_buf_size` bytes, and u32 counters at most that far apart.
pub record HasRing (ch : Channel) : Type 0 where
  pub cells : length ch.buf ≡ chan_buf_size
  pub head_lt : ch.head < u32_mod
  pub tail_lt : ch.tail < u32_mod
  pub fits : ring_used ch.head ch.tail ≤ chan_buf_size

as-IsRing : (ch : Channel) → HasRing ch → IsRing ch.buf ch.head ch.tail
as-IsRing ch v = record {
  divides = rw v.cells (dvd-mul_left chan_buf_size (2 ^ 20));
  small = omega (arith, v.cells);
  head_lt = v.head_lt;
  tail_lt = v.tail_lt;
  fits = omega (arith, v.cells, v.fits);
}

-- The bytes sent and not yet received.
abbrev pub pending : Channel → List ℕ
pending ch = contents ch.buf ch.head ch.tail

abbrev pub is_live : Channel → Bool
is_live ch = ch.used && not ch.closed

-- What a channel promises of `send`: all of the message or nothing.
unfoldable pub queue_send : Bool → Bool → List ℕ → List ℕ → KResult ℕ × List ℕ
queue_send live allowed q src =
    if not live
    then (err pipe, q)
    else if not allowed
    then (err perm, q)
    else if ltb (chan_buf_size - length q) (length src)
    then (err busy, q)
    else (ok (length src), q ++ src)

-- And of `recv`: as many of the oldest bytes as fit, over the front of `dst`.
unfoldable pub queue_recv : Bool → Bool → List ℕ → List ℕ → KResult ℕ × List ℕ × List ℕ
queue_recv live allowed q dst =
    let n = min (length dst) (length q) in
    if not live
    then (err pipe, dst, q)
    else if not allowed
    then (err perm, dst, q)
    else (ok n, take n q ++ drop n dst, drop n q)

free_lem :
    (ch : Channel)
    → HasRing ch
    → ring_free chan_buf_size ch.head ch.tail ≡ chan_buf_size - length (pending ch)
free_lem ch v =
    ap (λ c. ring_free c ch.head ch.tail) (sym v.cells)
    ∙ ring_free_lem ch.buf ch.head ch.tail (as-IsRing ch v)
    ∙ omega (arith, v.cells, length-contents ch.buf ch.head ch.tail)

-- A message that fits is written whole.
write_whole :
    (ch : Channel) (src : List ℕ)
    → HasRing ch
    → length src ≤ chan_buf_size - length (pending ch)
    → let (buf', tail', n) = ring_write ch.buf ch.head ch.tail src in
      (n ≡ length src)
      × (contents buf' ch.head tail' ≡ pending ch ++ src)
      × HasRing (record ch { buf = buf'; tail = tail' })
write_whole ch src v h =
    let w = ring_write_lem ch.buf ch.head ch.tail src (as-IsRing ch v) in
    let n : (ring_write ch.buf ch.head ch.tail src).2 ≡ length src = omega (
      arith,
      (ring_write_lem ch.buf ch.head ch.tail src (as-IsRing ch v)).0,
      v.cells,
      length-contents ch.buf ch.head ch.tail,
      h,
    ) in
    (
      n,
      w.1 ∙ ap (λ t. pending ch ++ t) (take_of_length-le _ src (omega (arith, n))),
      record {
        cells = w.2 ∙ v.cells;
        head_lt = v.head_lt;
        tail_lt = w.3.tail_lt;
        fits = omega (arith, w.3.fits, w.2, v.cells);
      },
    )

read_lem :
    (ch : Channel) (dst : List ℕ)
    → HasRing ch
    → length dst < u32_mod
    → let (dst', head', n) = ring_read ch.buf ch.head ch.tail dst in
      (n ≡ min (length dst) (length (pending ch)))
      × (dst' ≡ take n (pending ch) ++ drop n dst)
      × (contents ch.buf head' ch.tail ≡ drop n (pending ch))
      × HasRing (record ch { head = head' })
read_lem ch dst v h =
    let w = ring_read_lem ch.buf ch.head ch.tail dst (as-IsRing ch v) in
    (
      omega (
        arith,
        (ring_read_lem ch.buf ch.head ch.tail dst (as-IsRing ch v)).0,
        length-contents ch.buf ch.head ch.tail,
      ),
      w.1,
      w.2,
      record {
        cells = v.cells;
        head_lt = w.3.head_lt;
        tail_lt = v.tail_lt;
        fits = omega (arith, w.3.fits, v.cells);
      },
    )

-- From an empty queue nothing is read.
recv_empty :
    (q dst : List ℕ)
    → length q ≡ 0
    → let n = min (length dst) (length q) in
      (n ≡ 0) × (take n q ++ drop n dst ≡ dst) × (drop n q ≡ q)
recv_empty [] dst h = (
  omega arith,
  ap (λ (n : ℕ). take n [] ++ drop n dst) (min-zero dst),
  ap (λ (n : ℕ). drop {A = ℕ} n []) (min-zero dst),
)
  where
    min-zero : (d : List ℕ) → min (length d) 0 ≡ 0
    min-zero d = omega arith
recv_empty (x ∷ q) dst h = absurd (omega arith)

-- `send` returns what the queue returns, and leaves the channel holding its queue. The message's
-- length is a u32 value.
pub send_on_refines :
    (fuel : ℕ) (c : Caller) (ps : Procs) (ch : Channel) (src : List ℕ)
    → HasRing ch
    → let o = send_on fuel c ps ch src in
      ((o.result, pending o.channel)
        ≡ queue_send (is_live ch) (pid_allowed ch c.pid) (pending ch) src)
      × HasRing o.channel
unfolding send_on queue_send
send_on_refines fuel c ps ch src v = ground (arith, free_lem ch v, write_whole ch src v)

-- `recv` returns what the queue returns, fills the caller's buffer as it does, and leaves the channel
-- holding its queue.
pub recv_on_refines :
    (fuel : ℕ) (c : Caller) (ps : Procs) (ch : Channel) (dst : List ℕ)
    → HasRing ch
    → length dst < u32_mod
    → let o = recv_on fuel c ps ch dst in
      ((o.result, o.buffer, pending o.channel)
        ≡ queue_recv (is_live ch) (pid_allowed ch c.pid) (pending ch) dst)
      × HasRing o.channel
unfolding recv_on queue_recv
recv_on_refines fuel c ps ch dst v h = ground (
  arith,
  read_lem ch dst v h,
  length-contents ch.buf ch.head ch.tail,
  recv_empty (pending ch) dst,
)
