-- ===== src/Mm/Slab/Return.antt =====
-- Mm/Slab: giving back an object.
use onyx_kernel.Prelude.{
  ℕ, zero, suc, ◌+◌, ◌-◌, ◌/◌, ◌%◌, ◌≡◌, refl, sym, ap, ◌∙◌, subst, Bool, true, false, not, ◌&&◌,
  Option, none, some, get_or, ltb, leb, ◌==◌, arith, Bool-cases, inl, inr, ℕ_discrete,
}
use onyx_kernel.Proc.State.{assign, assign_self, assign_ne}
use onyx_kernel.Mm.Pmm.{page_size}
use onyx_kernel.Mm.Slab.{
  Slabs, SlabHeader, slab_magic, slab_sizes, size_of_slab_header, with_slot, set_next, unlink_loop,
  free_slot_of, release_slot, is_object, slab_free,
}

-- All of a header but its link.
abbrev pub Same : SlabHeader → SlabHeader → Type 0
Same a b = a ≡ record b { next = a.next }

set_next-Same :
    (class : ℕ) (prev next : Option ℕ) (s : Slabs) (b : ℕ)
    → Same ((set_next class prev next s).header b) (s.header b)
set_next-Same class none next s b = refl
set_next-Same class (some p) next s b = elim (ℕ_discrete b p) [
  | yes e ↦
      let linked : SlabHeader = record (s.header p) { next = next } in
      let here : assign s.header p linked b ≡ linked =
        ap (assign s.header p linked) e ∙ assign_self s.header p linked in
      let back : s.header b ≡ s.header p = ap s.header e in
      here
      ∙ ap (λ (k : SlabHeader). record (s.header p) { next = k.next }) (sym here)
      ∙ ap (λ (k : SlabHeader). record k { next = (assign s.header p linked b).next }) (sym back)
  | no n ↦
      let linked : SlabHeader = record (s.header p) { next = next } in
      let here : assign s.header p linked b ≡ s.header b = assign_ne s.header p linked b n in
      here ∙ ap (λ (k : SlabHeader). record (s.header b) { next = k.next }) (sym here)
]

unlink_loop-Same :
    (n class page : ℕ) (prev cur : Option ℕ) (s : Slabs) (b : ℕ)
    → Same ((unlink_loop n class page prev cur s).header b) (s.header b)
unfolding unlink_loop
unlink_loop-Same zero class page prev cur s b = refl
unlink_loop-Same (suc n) class page prev none s b = refl
unlink_loop-Same (suc n) class page prev (some a) s b = elim (Bool-cases (a == page)) [
  | inl e ↦ rw e (set_next-Same class prev (s.header a).next s b)
  | inr e ↦ rw e (unlink_loop-Same n class page (some a) (s.header a).next s b)
]

-- The allocator of pages leaves the headers alone.
release_slot-Same :
    (class page slot obj_size : ℕ) (s : Slabs) (b : ℕ)
    → Same
        ((release_slot class page slot obj_size s).header b)
        ((free_slot_of page slot obj_size s).header b)
release_slot-Same class page slot obj_size s b =
    let t = free_slot_of page slot obj_size s in
    elim (Bool-cases ((t.header page).free_count == (t.header page).capacity)) [
      | inl e ↦ rw e (unlink_loop-Same (t.pmm.total_pages + 1) class page none (t.heads class) t b)
      | inr e ↦ rw e refl
    ]

nothing_and : (a : Bool) → (a && false) ≡ false
nothing_and true = refl
nothing_and false = refl

abbrev pub page_of : ℕ → ℕ
page_of ptr = ptr - ptr % page_size

-- The slot of a pointer by the header of its page.
abbrev pub slot_of : ℕ → SlabHeader → ℕ
slot_of ptr hdr = (ptr - page_of ptr - size_of_slab_header) / get_or slab_sizes (hdr.size_idx) 0

abbrev pub released : ℕ → Slabs → Slabs
released ptr s =
    let hdr = s.header (page_of ptr) in
    release_slot (hdr.size_idx) (page_of ptr) (slot_of ptr hdr) (get_or slab_sizes (hdr.size_idx) 0)
      s

pub slab_free_refused :
    (ptr : ℕ) (s : Slabs)
    → is_object ptr (page_of ptr) (s.header (page_of ptr)) ≡ false
    → slab_free ptr s ≡ (none, s)
unfolding slab_free
slab_free_refused ptr s e = rw e refl

pub slab_free_done :
    (ptr : ℕ) (s : Slabs)
    → is_object ptr (page_of ptr) (s.header (page_of ptr)) ≡ true
    → slab_free ptr s
      ≡ (some (get_or slab_sizes ((s.header (page_of ptr)).size_idx) 0), released ptr s)
unfolding slab_free
slab_free_done ptr s e = rw e refl

-- The slot of the pointer is free.
pub slot-free :
    (ptr : ℕ) (hdr : SlabHeader)
    → hdr.free_bits (slot_of ptr hdr) ≡ true
    → is_object ptr (page_of ptr) hdr ≡ false
slot-free ptr hdr e =
    let page = page_of ptr in
    let obj_size = get_or slab_sizes (hdr.size_idx) 0 in
    let offset = ptr - page - size_of_slab_header in
    rw e (
      nothing_and (
        not (page == 0)
        && (hdr.magic == slab_magic)
        && ltb (hdr.size_idx) 3
        && leb (page + size_of_slab_header) ptr
        && (offset % obj_size == 0)
        && ltb (offset / obj_size) (hdr.capacity)))

released-free :
    (ptr : ℕ) (s : Slabs)
    → is_object ptr (page_of ptr) ((released ptr s).header (page_of ptr)) ≡ false
released-free ptr s =
    let page = page_of ptr in
    let hdr = s.header page in
    let slot = slot_of ptr hdr in
    let obj_size = get_or slab_sizes (hdr.size_idx) 0 in
    let freed : SlabHeader = record hdr {
      free_bits = with_slot (hdr.free_bits) slot;
      free_count = hdr.free_count + 1;
    } in
    let set : with_slot (hdr.free_bits) slot slot ≡ true = ground arith in
    let after = (released ptr s).header page in
    let same : after ≡ record freed { next = after.next } =
      release_slot-Same (hdr.size_idx) page slot obj_size s page
      ∙ ap (λ (k : SlabHeader). record k { next = after.next }) (assign_self s.header page freed) in
    ap (is_object ptr page) same ∙ slot-free ptr (record freed { next = after.next }) set

-- A second release of the same pointer is refused, and changes nothing.
pub slab_free-slab_free :
    (ptr n : ℕ) (s : Slabs)
    → (slab_free ptr s).0 ≡ some n
    → slab_free ptr (slab_free ptr s).1 ≡ (none, (slab_free ptr s).1)
slab_free-slab_free ptr n s h =
    elim (Bool-cases (is_object ptr (page_of ptr) (s.header (page_of ptr)))) [
      | inl e ↦
          subst (λ (r : Option ℕ × Slabs). slab_free ptr r.1 ≡ (none, r.1))
            (sym (slab_free_done ptr s e))
            (slab_free_refused ptr (released ptr s) (released-free ptr s))
      | inr e ↦
          let refused : none ≡ some n =
            sym (ap (λ (r : Option ℕ × Slabs). r.0) (slab_free_refused ptr s e)) ∙ h in
          absurd (cc refused)
    ]
