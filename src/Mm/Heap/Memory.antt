-- ===== src/Mm/Heap/Memory.antt =====
-- Mm/Heap: what giving back does to the memory.
use onyx_kernel.Prelude.{
  ℕ, zero, suc, ◌+◌, ◌-◌, ◌*◌, ◌/◌, ◌%◌, ◌≤◌, ◌<◌, ◌≡◌, refl, sym, ap, ◌∙◌, Bool, true, false, not,
  ◌&&◌, ◌||◌, get_or, if◌then◌else◌, Option, none, some, ltb, leb, ◌==◌, arith, Bool-cases, inl,
  inr, ◌⊎◌,
}
use onyx_kernel.Mm.Pmm.{Pmm, page_size, write_zeros}
use onyx_kernel.Mm.Pmm
use onyx_kernel.Mm.Slab.{
  Slabs, slab_sizes, slab_magic, size_of_slab_header, set_next, unlink_loop, free_slot_of,
  release_slot, slab_free,
}
use onyx_kernel.Mm.Slab.Return.{page_of, slot_of, slab_free_refused, slab_free_done}
use onyx_kernel.Mm.Slab.Found.{obj_size}
use onyx_kernel.Mm.Slab.InUse.{in_use}
use onyx_kernel.Proc.State.{assign}
use onyx_kernel.Mm.Heap.{
  hdr_size, heap_size, Block, Heap, sub_used, with_used, merge_next, merge_prev, list_free, beside,
  free_behind, kfree,
}
use onyx_kernel.Mm.Heap.Pools.{slab_ops}

-- Unlinking a page leaves the memory alone.
unlink_loop_memory :
    (n class page : ℕ) (prev cur : Option ℕ) (s : Slabs)
    → (unlink_loop n class page prev cur s).pmm.memory ≡ s.pmm.memory
unfolding unlink_loop
unlink_loop_memory zero class page prev cur s = refl
unlink_loop_memory (suc n) class page prev none s = refl
unlink_loop_memory (suc n) class page prev (some a) s = elim (Bool-cases (a == page)) [
  | inl e ↦ rw e (set_next_memory class prev (s.header a).next s)
  | inr e ↦ rw e (unlink_loop_memory n class page (some a) (s.header a).next s)
]
  where
    set_next_memory :
        (class : ℕ) (prev next : Option ℕ) (s : Slabs)
        → (set_next class prev next s).pmm.memory ≡ s.pmm.memory
    set_next_memory class none next s = refl
    set_next_memory class (some p) next s = refl

free_memory : (p : Pmm) (pa : ℕ) → (Pmm.free p pa).memory ≡ p.memory
unfolding Pmm.free Pmm.bm_clr
free_memory p pa = ground arith

-- Giving back an object fills its slot with zeros and leaves the rest of the memory alone.
release_slot_memory :
    (class page slot size : ℕ) (s : Slabs)
    → (release_slot class page slot size s).pmm.memory
      ≡ write_zeros (s.pmm.memory) (page + size_of_slab_header + slot * size) size
release_slot_memory class page slot size s =
    let t = free_slot_of page slot size s in
    elim (Bool-cases ((t.header page).free_count == (t.header page).capacity)) [
      | inl e ↦ rw e (
          free_memory (unlink_loop (t.pmm.total_pages + 1) class page none (t.heads class) t).pmm
            page
          ∙ unlink_loop_memory (t.pmm.total_pages + 1) class page none (t.heads class) t)
      | inr e ↦ rw e refl
    ]

all_parts :
    (a b c d e f g : Bool)
    → (a && b && c && d && e && f && g) ≡ true
    → (c ≡ true) × (d ≡ true) × (e ≡ true)
all_parts a b c d e f g h = ground (arith, h)

whole_slots :
    (ptr page c : ℕ)
    → c < 3
    → page + size_of_slab_header ≤ ptr
    → (ptr - page - size_of_slab_header) % obj_size c ≡ 0
    → page + size_of_slab_header + (ptr - page - size_of_slab_header) / obj_size c * obj_size c
      ≡ ptr
whole_slots ptr page zero p q r = omega (arith, q, r)
whole_slots ptr page (suc zero) p q r = omega (arith, q, r)
whole_slots ptr page (suc (suc zero)) p q r = omega (arith, q, r)
whole_slots ptr page (suc (suc (suc c))) p q r = absurd (omega (arith, p))

-- An object lies where its pointer says.
object_start :
    (ptr : ℕ) (s : Slabs)
    → in_use ptr s ≡ true
    → page_of ptr
        + size_of_slab_header
        + slot_of ptr (s.header (page_of ptr)) * obj_size (s.header (page_of ptr)).size_idx
      ≡ ptr
object_start ptr s u =
    let page = page_of ptr in
    let hdr = s.header page in
    let offset = ptr - page - size_of_slab_header in
    let size = obj_size hdr.size_idx in
    let (c, d, e) =
      all_parts (not (page == 0)) (hdr.magic == slab_magic) (ltb hdr.size_idx 3)
        (leb (page + size_of_slab_header) ptr) (offset % size == 0)
        (ltb (offset / size) hdr.capacity) (not (hdr.free_bits (offset / size))) u in
    let class : hdr.size_idx < 3 = below_of hdr.size_idx c in
    let behind : page + size_of_slab_header ≤ ptr = above_of (page + size_of_slab_header) ptr d in
    let rest : offset % size ≡ 0 = zero_of (offset % size) e in
    whole_slots ptr page hdr.size_idx class behind rest
  where
    below_of : (n : ℕ) → ltb n 3 ≡ true → n < 3
    below_of n e = ground (arith, e)

    above_of : (m n : ℕ) → leb m n ≡ true → m ≤ n
    above_of m n e = ground (arith, e)

    zero_of : (n : ℕ) → (n == 0) ≡ true → n ≡ 0
    zero_of n e = ground (arith, e)

-- Giving back leaves alone what lies below the pointer, and everything where it is none to a small object.
slab_free_memory :
    (p a : ℕ) (s : Slabs)
    → (a < p) ⊎ (in_use p s ≡ false)
    → (slab_free p s).1.pmm.memory a ≡ s.pmm.memory a
slab_free_memory p a s where_a = elim (Bool-cases (in_use p s)) [
  | inr f ↦ ap (λ (k : Option ℕ × Slabs). k.1.pmm.memory a) (slab_free_refused p s f)
  | inl t ↦
      let page = page_of p in
      let hdr = s.header page in
      let size = obj_size hdr.size_idx in
      let low : a < p = elim where_a [
        | inl q ↦ q
        | inr f ↦ let clash = sym t ∙ f in absurd (ground (arith, clash))
      ] in
      let start = object_start p s t in
      let outside : leb (page + size_of_slab_header + slot_of p hdr * size) a ≡ false =
        ap (λ k. leb k a) start ∙ ground (arith, low) in
      ap (λ (k : Option ℕ × Slabs). k.1.pmm.memory a) (slab_free_done p s t)
      ∙ ap (λ (k : ℕ → ℕ). k a) (release_slot_memory hdr.size_idx page (slot_of p hdr) size s)
      ∙ rw outside refl
]

-- What giving back subtracts from `used`.
abbrev pub freed_size : ℕ → Heap → Slabs → ℕ
freed_size p h s =
    if in_use p s
    then get_or slab_sizes ((s.header (page_of p)).size_idx) 0
    else (h.block (p - hdr_size)).size

with_used_cases :
    (n : ℕ) (block : ℕ → Block) (h : Heap)
    → ((h.used < n) × (with_used (sub_used h.used n) block h ≡ none))
      ⊎ ((g : Heap) × (with_used (sub_used h.used n) block h ≡ some g))
with_used_cases n block h = elim (Bool-cases (ltb h.used n)) [
  | inl e ↦ inl (ground (arith, e), rw e refl)
  | inr e ↦ inr (record h { used = h.used - n; block = block }, rw e refl)
]

list_free_cases :
    (p : ℕ) (h : Heap)
    → ((h.used < (h.block (p - hdr_size)).size) × (list_free p h ≡ none))
      ⊎ ((g : Heap) × (list_free p h ≡ some g))
unfolding list_free
list_free_cases p h =
    let a = p - hdr_size in
    let joined = merge_next a (assign h.block a (record (h.block a) { free = true })) in
    elim (Bool-cases (ltb p hdr_size || not (p % 16 == 0))) [
      | inl e ↦ inr (h, rw e refl)
      | inr e ↦ elim (Bool-cases (((h.block a).size == 0) || ltb heap_size (h.block a).size)) [
        | inl f ↦ inr (h, rw (e, f) refl)
        | inr f ↦ elim (with_used_cases (h.block a).size (merge_prev a (joined a).prev joined) h) [
          | inl (less, o) ↦ inl (less, rw (e, f) o)
          | inr (g, o) ↦ inr (g, rw (e, f) o)
        ]
      ]
    ]

-- Giving back panics where `used` is too small, and only there, and does to the pools what `slab_free` does.
free_behind_cases :
    (p : ℕ) (h : Heap) (s : Slabs)
    → ((h.used < freed_size p h s) × (free_behind slab_ops p (slab_free p s) h ≡ none))
      ⊎ ((g : Heap) × (free_behind slab_ops p (slab_free p s) h ≡ some (g, (slab_free p s).1)))
free_behind_cases p h s =
    let size = get_or slab_sizes ((s.header (page_of p)).size_idx) 0 in
    let listed = (h.block (p - hdr_size)).size in
    elim (Bool-cases (in_use p s)) [
      | inl e ↦
          let shape : slab_free p s ≡ (some size, (slab_free p s).1) =
            slab_free_done p s e
            ∙ ap (λ (k : Option ℕ × Slabs). (some size, k.1)) (sym (slab_free_done p s e)) in
          let run = ap (λ k. free_behind slab_ops p k h) shape in
          let amount : freed_size p h s ≡ size = ap (λ b. if b then size else listed) e in
          elim (with_used_cases size h.block h) [
            | inl (less, o) ↦
                inl (omega (arith, less, amount), run ∙ ap (beside slab_ops (slab_free p s).1) o)
            | inr (g, o) ↦ inr (g, run ∙ ap (beside slab_ops (slab_free p s).1) o)
          ]
      | inr e ↦
          let shape : slab_free p s ≡ (none, (slab_free p s).1) =
            slab_free_refused p s e
            ∙ ap (λ (k : Option ℕ × Slabs). (none, k.1)) (sym (slab_free_refused p s e)) in
          let run = ap (λ k. free_behind slab_ops p k h) shape in
          let amount : freed_size p h s ≡ listed = ap (λ b. if b then size else listed) e in
          elim (list_free_cases p h) [
            | inl (less, o) ↦
                inl (omega (arith, less, amount), run ∙ ap (beside slab_ops (slab_free p s).1) o)
            | inr (g, o) ↦ inr (g, run ∙ ap (beside slab_ops (slab_free p s).1) o)
          ]
    ]

pub kfree_memory :
    (p a : ℕ) (h : Heap) (s : Slabs)
    → (a < p) ⊎ (in_use p s ≡ false)
    → ((h.used < freed_size p h s) × (kfree slab_ops p h s ≡ none))
      ⊎ ((g : Heap) × (t : Slabs) × (kfree slab_ops p h s ≡ some (g, t))
          × (t.pmm.memory a ≡ s.pmm.memory a))
unfolding kfree
kfree_memory p a h s v = elim (Bool-cases (p == 0)) [
  | inl e ↦ inr (h, s, rw e refl, refl)
  | inr e ↦ elim (free_behind_cases p h s) [
    | inl (less, o) ↦ inl (less, rw e o)
    | inr (g, o) ↦ inr (g, (slab_free p s).1, rw e o, slab_free_memory p a s v)
  ]
]
