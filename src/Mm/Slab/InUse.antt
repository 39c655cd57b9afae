-- ===== src/Mm/Slab/InUse.antt =====
-- Mm/Slab: which objects are in use.
use onyx_kernel.Prelude.{
  ℕ, ◌+◌, ◌-◌, ◌*◌, ◌/◌, ◌%◌, ◌≤◌, ◌<◌, ◌≡◌, ◌≢◌, refl, sym, ap, ◌∙◌, subst, Bool, true, false,
  Option, some, List, ltb, leb, ◌==◌, arith, Bool-cases, inl, inr,
}
use onyx_kernel.Core.Errno.{ok}
use onyx_kernel.Proc.State.{assign, assign_self, assign_ne}
use onyx_kernel.Mm.Pmm.{Pmm, page_size, bm_get, pa_to_idx, idx_to_pa}
use onyx_kernel.Mm.Pmm
use onyx_kernel.Mm.Pmm.Alloc.{alloc_lem}
use onyx_kernel.Mm.Slab.{
  Slabs, SlabHeader, slab_magic, size_of_slab_header, capacity_of, take_slot, is_object, slab_free,
}
use onyx_kernel.Mm.Slab.Grant.{IsSlabs}
use onyx_kernel.Mm.Slab.Return.{slot-free, page_of, slot_of, slab_free_done}
use onyx_kernel.Mm.Slab.Found.{obj_size, IsSlabPage, object_place}

-- Whether the pointer is one to an object that has been taken and not been given back.
abbrev pub in_use : ℕ → Slabs → Bool
in_use ptr s = is_object ptr (page_of ptr) (s.header (page_of ptr))

is_object_lem :
    (ptr page slot : ℕ) (hdr : SlabHeader)
    → 0 < page
    → hdr.magic ≡ slab_magic
    → hdr.size_idx < 3
    → page + size_of_slab_header ≤ ptr
    → (ptr - page - size_of_slab_header) % obj_size hdr.size_idx ≡ 0
    → (ptr - page - size_of_slab_header) / obj_size hdr.size_idx ≡ slot
    → slot < hdr.capacity
    → hdr.free_bits slot ≡ false
    → is_object ptr page hdr ≡ true
is_object_lem ptr page slot hdr a b c d e f g h =
    let offset = ptr - page - size_of_slab_header in
    let b1 : (page == 0) ≡ false = ground (arith, a) in
    let b2 : (hdr.magic == slab_magic) ≡ true = ground (arith, b) in
    let b3 : ltb hdr.size_idx 3 ≡ true = ground (arith, c) in
    let b4 : leb (page + size_of_slab_header) ptr ≡ true = ground (arith, d) in
    let b5 : (offset % obj_size hdr.size_idx == 0) ≡ true = ap (λ k. k == 0) e in
    let b6 : ltb (offset / obj_size hdr.size_idx) hdr.capacity ≡ true =
      ap (λ k. ltb k hdr.capacity) f ∙ ground (arith, g) in
    let b7 : hdr.free_bits (offset / obj_size hdr.size_idx) ≡ false = ap hdr.free_bits f ∙ h in
    rw (b1, b2, b3, b4, b5, b6, b7) refl

-- The object in the slot of a page is in use once the slot is not free, and its size is the class's.
pub slot-in_use :
    (c a slot : ℕ) (s : Slabs)
    → c < 3
    → slot < capacity_of (obj_size c)
    → IsSlabPage s.header c a
    → (s.header a).free_bits slot ≡ false
    → (in_use (a + size_of_slab_header + slot * obj_size c) s ≡ true)
      × ((slab_free (a + size_of_slab_header + slot * obj_size c) s).0 ≡ some (obj_size c))
slot-in_use c a slot s p r v bit =
    let ptr = a + size_of_slab_header + slot * obj_size c in
    let hdr = s.header a in
    let (page, rest, quotient) = object_place c a slot p v.aligned r in
    let offset = ptr - a - size_of_slab_header in
    let same = sym v.size_idx in
    let object =
      is_object_lem ptr a slot hdr v.nonnull v.magic (subst (λ k. k < 3) same p) (omega arith)
        (subst (λ k. offset % obj_size k ≡ 0) same rest)
        (subst (λ k. offset / obj_size k ≡ slot) same quotient)
        (subst (λ k. slot < k) (sym v.capacity) r) bit in
    let used : in_use ptr s ≡ true =
      subst (λ k. is_object ptr k (s.header k) ≡ true) (sym page) object in
    (
      used,
      ap (λ (k : Option ℕ × Slabs). k.0) (slab_free_done ptr s used)
          ∙ ap (λ k. some (obj_size (s.header k).size_idx)) page
          ∙ ap (λ k. some (obj_size k)) v.size_idx,
    )

-- A header in place of another one of the class.
pub put_header-IsSlabPage :
    (header : ℕ → SlabHeader) (c a : ℕ) (hdr : SlabHeader)
    → 0 < a
    → a % page_size ≡ 0
    → hdr.magic ≡ slab_magic
    → hdr.size_idx ≡ c
    → hdr.capacity ≡ capacity_of (obj_size c)
    → IsSlabPage (assign header a hdr) c a
put_header-IsSlabPage header c a hdr p q m i n =
    let here = assign_self header a hdr in
    record {
      nonnull = p;
      aligned = q;
      magic = ap (λ (k : SlabHeader). k.magic) here ∙ m;
      size_idx = ap (λ (k : SlabHeader). k.size_idx) here ∙ i;
      capacity = ap (λ (k : SlabHeader). k.capacity) here ∙ n;
    }

page_aligned :
    (base idx page : ℕ)
    → base + idx * page_size ≡ page
    → base % page_size ≡ 0
    → page % page_size ≡ 0
page_aligned base idx page p a = omega (arith, p, a)

-- The page that is taken is one of the allocator's, and was free.
pub new_page :
    (s : Slabs) (pages : ℕ → List ℕ) (page : ℕ)
    → IsSlabs s pages
    → (Pmm.alloc s.pmm).0 ≡ ok page
    → (0 < page) × (page % page_size ≡ 0) × (bm_get s.pmm (pa_to_idx s.pmm page) ≡ false)
new_page s pages page v e =
    let found = alloc_lem s.pmm 0 0 0 {pa = page} v.pmm (omega arith) e in
    let place : idx_to_pa s.pmm (pa_to_idx s.pmm page) ≡ page = found.1 in
    let based = v.based in
    let aligned : s.pmm.base % page_size ≡ 0 = (v.pmm).aligned in
    (
      omega (arith, place, based),
      page_aligned s.pmm.base (pa_to_idx s.pmm page) page place aligned,
      found.2,
    )

-- Objects on other pages.
pub other_page :
    (q page ptr : ℕ) (hdr : SlabHeader) (s after : Slabs)
    → after.header ≡ assign s.header page hdr
    → page_of q ≢ page
    → page_of ptr ≡ page
    → in_use q s ≡ true
    → (q ≢ ptr) × (in_use q after ≡ true)
other_page q page ptr hdr s after e n p u =
    let same : after.header (page_of q) ≡ s.header (page_of q) =
      ap (λ (k : ℕ → SlabHeader). k (page_of q)) e ∙ assign_ne s.header page hdr (page_of q) n in
    ((λ k. n (ap page_of k ∙ p)), ap (is_object q (page_of q)) same ∙ u)

-- Another slot of the page.
pub same_page :
    (q page ptr slot : ℕ) (s after : Slabs)
    → after.header ≡ assign s.header page (take_slot slot (s.header page))
    → page_of q ≡ page
    → slot_of ptr (s.header page) ≡ slot
    → (s.header page).free_bits slot ≡ true
    → in_use q s ≡ true
    → (q ≢ ptr) × (in_use q after ≡ true)
same_page q page ptr slot s after e p o bit u =
    let hdr = s.header page in
    let taken = take_slot slot hdr in
    let used : is_object q (page_of q) hdr ≡ true =
      ap (λ k. is_object q (page_of q) (s.header k)) (sym p) ∙ u in
    let clear : hdr.free_bits (slot_of q hdr) ≡ false =
      elim (Bool-cases (hdr.free_bits (slot_of q hdr))) [
        | inl t ↦ let clash = sym used ∙ slot-free q hdr t in absurd (ground (arith, clash))
        | inr f ↦ f
      ] in
    let apart : slot_of q hdr ≢ slot =
      λ k. let clash = sym clear ∙ ap hdr.free_bits k ∙ bit in ground (arith, clash) in
    let flag : (slot_of q hdr == slot) ≡ false = ground (arith, apart) in
    let still : is_object q (page_of q) taken ≡ true = rw flag used in
    let here : after.header (page_of q) ≡ taken =
      ap (λ (k : ℕ → SlabHeader). k (page_of q)) e
      ∙ ap (assign s.header page taken) p
      ∙ assign_self s.header page taken in
    ((λ k. apart (ap (λ x. slot_of x hdr) k ∙ o)), ap (is_object q (page_of q)) here ∙ still)
