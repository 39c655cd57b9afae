-- ===== src/Fs/Pty/Table.antt =====
-- The table of pseudo terminals of kernel/src/fs/pty, and a table of bounded two-way queues.
use onyx_kernel.Prelude.{
  ℕ, zero, suc, ◌≡◌, refl, ap, ◌∙◌, Bool, true, false, Option-cases, inl, inr, none, some, List, [],
  ◌∷◌, map, arith, length, set, length-set, get_elem?_lt, get_elem?-none, get_elem?, All,
  All-get_elem?, All-set, get_elem?-map-none, get_elem?-map-some, map-set, if◌then◌else◌,
}
use onyx_kernel.Core.Errno.{KResult, ok, err, inval, again}
use onyx_kernel.Core.Ringbuf.{ring_used}
use onyx_kernel.Fs.Pty.{
  Pty, pty_max, pair_read, pair_write, side_read, side_write, free, alloc, alloc_from, update,
  new_ring,
}
use onyx_kernel.Fs.Pty.Stream.{
  Duplex, IsPty, IsPtyRing, view, duplex_read, duplex_write, pair_read_refines, pair_write_refines,
}

-- What a process, or the kernel on its behalf, asks of the table.
pub data Op : Type 0 where
  open_pair : Op
  close_master : ℕ → Op
  read_side : ℕ → Bool → List ℕ → Op
  write_side : ℕ → Bool → List ℕ → Op

-- One call: its result, the content of the caller's buffer after it, and the table.
pub call : List Pty → Op → KResult ℕ × List ℕ × List Pty
unfolding alloc free side_read side_write
call t open_pair = let (r, t') = alloc t in (r, [], t')
call t (close_master i) = (ok 0, [], free t i)
call t (read_side i m dst) = side_read t i m dst
call t (write_side i m src) = let (r, t') = side_write t i m src in (r, src, t')

pub run : List Pty → List Op → List (KResult ℕ × List ℕ)
run t [] = []
run t (op ∷ ops) = let (r, b, t') = call t op in (r, b) ∷ run t' ops

-- The same calls on the abstract table.
duplex_open : ℕ → List Duplex → KResult ℕ × List Duplex
duplex_open i [] = (err again, [])
duplex_open i (d ∷ ds) =
    let (r, rest) = duplex_open (suc i) ds in
    if d.live
    then (r, d ∷ rest)
    else (ok i, record { live = true; to_slave = []; to_master = [] } ∷ ds)

pub duplex_call : List Duplex → Op → KResult ℕ × List ℕ × List Duplex
unfolding duplex_open
duplex_call t open_pair = let (r, t') = duplex_open 0 t in (r, [], t')
duplex_call t (close_master i) = elim (get_elem? t i) [
  | none ↦ (ok 0, [], t)
  | some d ↦ (ok 0, [], set t i (record d { live = false }))
]
duplex_call t (read_side i m dst) = elim (get_elem? t i) [
  | none ↦ (err inval, dst, t)
  | some d ↦ let (r, b, d') = duplex_read d m dst in (r, b, set t i d')
]
duplex_call t (write_side i m src) = elim (get_elem? t i) [
  | none ↦ (err inval, src, t)
  | some d ↦ let (r, d') = duplex_write d m src in (r, src, set t i d')
]

pub duplex_run : List Duplex → List Op → List (KResult ℕ × List ℕ)
duplex_run t [] = []
duplex_run t (op ∷ ops) = let (r, b, t') = duplex_call t op in (r, b) ∷ duplex_run t' ops

-- A table of `pty_max` pairs, each with sound rings.
pub record IsTable (t : List Pty) : Type 0 where
  pub size : length t ≡ pty_max
  pub pairs : All IsPty t

abbrev pub abstract : List Pty → List Duplex
abstract = map view

update-set :
    (t : List Pty) (i : ℕ) (f : Pty → Pty) {p : Pty}
    → get_elem? t i ≡ some p
    → update t i f ≡ set t i (f p)
update-set [] i f h = absurd (cc)
update-set (q ∷ t) zero f h = ap (λ u. u ∷ t) (ap f (cc))
update-set (q ∷ t) (suc i) f h = ap (λ u. q ∷ u) (update-set t i f h)

-- Putting a pair with sound rings back into the table.
put : (t : List Pty) (i : ℕ) (p : Pty) → IsTable t → IsPty p → IsTable (set t i p)
put t i p v h = record { size = length-set t i p ∙ v.size; pairs = All-set IsPty t i v.pairs h }

new_ring-IsPtyRing : IsPtyRing new_ring
unfolding ring_used
new_ring-IsPtyRing = omega arith

alloc_refines :
    (i : ℕ) (t : List Pty)
    → All IsPty t
    → let (r, t') = alloc_from i t in
      ((r, abstract t') ≡ duplex_open i (abstract t)) × (length t' ≡ length t) × All IsPty t'
unfolding alloc_from duplex_open ring_used
alloc_refines i [] v = (refl, refl, tt)
alloc_refines i (p ∷ t) v = ground (arith, alloc_refines (suc i) t v.1, new_ring-IsPtyRing)

-- Every call on a sound table returns what the abstract table returns, and leaves a sound table
-- that stands for the abstract one.
pub call_refines :
    (t : List Pty) (op : Op)
    → IsTable t
    → let (r, b, t') = call t op in ((r, b, abstract t') ≡ duplex_call (abstract t) op) × IsTable t'
unfolding call duplex_call
call_refines t open_pair v = ground (arith, alloc_refines 0 t v.pairs)
call_refines t (close_master i) v = elim (Option-cases (get_elem? t i)) [
  | inl e ↦ ground (arith, get_elem?-map-none view t i e, get_elem?-none t i e)
  | inr (p, e) ↦ ground (
    arith,
    get_elem?-map-some view t i e,
    get_elem?_lt t i e,
    update-set t i (λ q. record q { used = false }) e,
    map-set view t i (record p { used = false }),
    put t i (record p { used = false }) v
        (record {
          m2s = (All-get_elem? IsPty t i v.pairs e).m2s;
          s2m = (All-get_elem? IsPty t i v.pairs e).s2m;
        }),
  )
]
call_refines t (read_side i m dst) v = elim (Option-cases (get_elem? t i)) [
  | inl e ↦ ground (arith, get_elem?-map-none view t i e)
  | inr (p, e) ↦ ground (
    arith,
    get_elem?-map-some view t i e,
    get_elem?_lt t i e,
    pair_read_refines p m dst (All-get_elem? IsPty t i v.pairs e),
    map-set view t i (pair_read p m dst).2,
    put t i (pair_read p m dst).2 v
        (pair_read_refines p m dst (All-get_elem? IsPty t i v.pairs e)).1,
  )
]
call_refines t (write_side i m src) v = elim (Option-cases (get_elem? t i)) [
  | inl e ↦ ground (arith, get_elem?-map-none view t i e)
  | inr (p, e) ↦ ground (
    arith,
    get_elem?-map-some view t i e,
    get_elem?_lt t i e,
    pair_write_refines p m src (All-get_elem? IsPty t i v.pairs e),
    map-set view t i (pair_write p m src).1,
    put t i (pair_write p m src).1 v
        (pair_write_refines p m src (All-get_elem? IsPty t i v.pairs e)).1,
  )
]

-- No sequence of opens, closes, reads and writes on any of the pairs tells the table of a
-- booted kernel, or any other sound table, from a table of bounded two-way queues.
pub run_refines :
    (t : List Pty) (ops : List Op) → IsTable t → run t ops ≡ duplex_run (abstract t) ops
unfolding run duplex_run
run_refines t [] v = refl
run_refines t (op ∷ ops) v =
    let c = call_refines t op v in rw (run_refines (call t op).2 ops c.1, ← c.0)
