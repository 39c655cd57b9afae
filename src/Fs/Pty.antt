-- ===== src/Fs/Pty.antt =====
-- kernel/src/fs/pty: the table of pseudo terminal pairs (mod.rs), one direction of a pair (ring.rs)
-- and the one-pass transfers (stream.rs). A pair's lock is held for the whole of each operation, so
-- an operation is one step on the table.
pub mod Stream
pub mod Table
use onyx_kernel.Prelude.{
  ℕ, zero, suc, ◌+◌, ◌≡◌, Bool, true, false, Option, none, some, List, [], ◌∷◌, length, get_elem?,
  set, get_or, replicate, ltb, leb, ◌==◌, if◌then◌else◌, min, take, drop, ◌++◌, ◌||◌,
}
use onyx_kernel.Core.Errno.{Errno, KResult, ok, err, inval, pipe, again}
use onyx_kernel.Core.Ringbuf.{u32_mod, ring_used, ring_free, ring_write, ring_read}

abbrev pub pty_max : ℕ
pty_max = 4

abbrev pub pty_buf_cap : ℕ
pty_buf_cap = 512

pub record PtyRing : Type 0 where
  pub buf : List ℕ
  pub head : ℕ
  pub tail : ℕ

pub record PtyWinsize : Type 0 where
  pub rows : ℕ
  pub cols : ℕ
  pub xpixel : ℕ
  pub ypixel : ℕ

pub record Pty : Type 0 where
  pub used : Bool
  pub m2s : PtyRing
  pub s2m : PtyRing
  pub ws : PtyWinsize

-- `PtyRing::new`
abbrev pub new_ring : PtyRing
new_ring = record { buf = replicate pty_buf_cap 0; head = 0; tail = 0 }

abbrev pub default_80x24 : PtyWinsize
default_80x24 = record { rows = 24; cols = 80; xpixel = 0; ypixel = 0 }

-- `Pty::new`
abbrev pub new_pty : Pty
new_pty = record { used = false; m2s = new_ring; s2m = new_ring; ws = default_80x24 }

unfoldable pub used_ring : PtyRing → ℕ
unfolding ring_used
used_ring r = ring_used r.head r.tail

-- The new `dst`, the ring, and the number of bytes read.
unfoldable pub pop : PtyRing → List ℕ → List ℕ × PtyRing × ℕ
pop r dst =
    let (dst', head', n) = ring_read r.buf r.head r.tail dst in (dst', record r { head = head' }, n)

unfoldable pub push : PtyRing → List ℕ → PtyRing × ℕ
push r src =
    let (buf', tail', n) = ring_write r.buf r.head r.tail src in
    (record r { buf = buf'; tail = tail' }, n)

-- `alloc`: the first pair that is not in use, claimed and reset, and its index.
pub alloc_from : ℕ → List Pty → KResult ℕ × List Pty
alloc_from i [] = (err again, [])
alloc_from i (p ∷ ptys) =
    let (r, rest) = alloc_from (suc i) ptys in
    if p.used
    then (r, p ∷ rest)
    else (ok i, record p { used = true; m2s = new_ring; s2m = new_ring; ws = default_80x24 } ∷ ptys)

unfoldable pub alloc : List Pty → KResult ℕ × List Pty
unfolding alloc_from
alloc ptys = alloc_from 0 ptys

-- An operation on the pair `idx` of the table; the table has `pty_max` pairs.
abbrev pub update : List Pty → ℕ → (Pty → Pty) → List Pty
update [] i f = []
update (p ∷ ptys) zero f = f p ∷ ptys
update (p ∷ ptys) (suc i) f = p ∷ update ptys i f

unfoldable pub free : List Pty → ℕ → List Pty
free ptys idx = if ltb idx pty_max then update ptys idx (λ p. record p { used = false }) else ptys

unfoldable pub is_used : List Pty → ℕ → Bool
is_used ptys idx =
    if leb pty_max idx then false else elim (get_elem? ptys idx) [ some p ↦ p.used | none ↦ false ]

-- The two transfers on a pair that is known to be in range.
abbrev in_ring : Bool → Pty → PtyRing
in_ring from_master p = if from_master then p.s2m else p.m2s

abbrev set_in : Bool → Pty → PtyRing → Pty
set_in from_master p r = if from_master then record p { s2m = r } else record p { m2s = r }

unfoldable pub pair_read : Pty → Bool → List ℕ → KResult ℕ × List ℕ × Pty
unfolding used_ring pop
pair_read p from_master dst =
    let r = in_ring from_master p in
    let (got, r', n) = pop r (take (min (length dst) (used_ring r)) dst) in
    if p.used
    then if used_ring r == 0
      then (ok 0, dst, p)
      else (ok n, got ++ drop (min (length dst) (used_ring r)) dst, set_in from_master p r')
    else (err pipe, dst, p)

-- `to_master` chooses m2s, which the slave reads.
unfoldable pub pair_write : Pty → Bool → List ℕ → KResult ℕ × Pty
unfolding push
pair_write p to_master src =
    let r = in_ring (if to_master then false else true) p in
    let free_bytes = ring_free pty_buf_cap r.head r.tail in
    let (r', n) = push r (take (min (length src) free_bytes) src) in
    if p.used
    then if free_bytes == 0 || length src == 0
      then (ok 0, p)
      else (ok n, set_in (if to_master then false else true) p r')
    else (err pipe, p)

-- `buf` and `len` are the list `dst`; the result is its new content.
unfoldable pub side_read : List Pty → ℕ → Bool → List ℕ → KResult ℕ × List ℕ × List Pty
side_read ptys idx from_master dst =
    if leb pty_max idx then (err inval, dst, ptys) else elim (get_elem? ptys idx) [
      | none ↦ (err inval, dst, ptys)
      | some p ↦ let (r, dst', p') = pair_read p from_master dst in (r, dst', set ptys idx p')
    ]

unfoldable pub side_write : List Pty → ℕ → Bool → List ℕ → KResult ℕ × List Pty
side_write ptys idx to_master src =
    if leb pty_max idx then (err inval, ptys) else elim (get_elem? ptys idx) [
      | none ↦ (err inval, ptys)
      | some p ↦ let (r, p') = pair_write p to_master src in (r, set ptys idx p')
    ]

pair_poll : Pty → Bool → Bool × Bool
unfolding used_ring
pair_poll p master =
    let in_side = in_ring master p in
    let out_side = in_ring (if master then false else true) p in
    if p.used
    then (ltb 0 (used_ring in_side), ltb 0 (ring_free pty_buf_cap out_side.head out_side.tail))
    else (false, false)

unfoldable pub side_poll : List Pty → ℕ → Bool → Bool × Bool
unfolding pair_poll
side_poll ptys idx master =
    if leb pty_max idx
    then (false, false)
    else elim (get_elem? ptys idx) [ some p ↦ pair_poll p master | none ↦ (false, false) ]
