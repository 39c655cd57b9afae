-- ===== src/Mm/Slab/Found.antt =====
-- Mm/Slab: the pages of a class, and the slot that the walk over them finds.
use onyx_kernel.Prelude.{
  ℕ, zero, suc, ◌+◌, ◌-◌, ◌*◌, ◌/◌, ◌%◌, ◌≤◌, ◌<◌, ◌≡◌, refl, sym, ap, ◌∙◌, subst, Bool, true,
  Option, none, some, List, [], ◌∷◌, get_or, ltb, leb, arith, Bool-cases, Option-cases, inl, inr,
}
use mathlib.Core.Option.{some-injective}
use onyx_kernel.Mm.Pmm.{page_size}
use onyx_kernel.Mm.Slab.{
  SlabHeader, slab_sizes, slab_magic, size_of_slab_header, class_idx, capacity_of, slot_loop,
  free_slot, slot_or, page_loop,
}
use onyx_kernel.Mm.Slab.Return.{page_of}

-- The size of the objects of a class.
abbrev pub obj_size : ℕ → ℕ
obj_size class = get_or slab_sizes class 0

-- The page at `a` holds objects of the class.
pub record IsSlabPage (header : ℕ → SlabHeader) (class a : ℕ) : Type 0 where
  pub nonnull : 0 < a
  pub aligned : a % page_size ≡ 0
  pub magic : (header a).magic ≡ slab_magic
  pub size_idx : (header a).size_idx ≡ class
  pub capacity : (header a).capacity ≡ capacity_of (obj_size class)

-- The list from `cur` is these pages, all of the class.
abbrev pub IsPages : (ℕ → SlabHeader) → ℕ → Option ℕ → List ℕ → Type 0
IsPages header class cur [] = cur ≡ none
IsPages header class cur (a ∷ pages) =
    (cur ≡ some a) × IsSlabPage header class a × IsPages header class (header a).next pages

pub class_idx_lem : (size c : ℕ) → class_idx size ≡ some c → (c < 3) × (size ≤ obj_size c)
class_idx_lem size c e = elim (Bool-cases (leb size 64)) [
  | inl t ↦ class_is 0 (sym (rw t refl) ∙ e) (omega arith) (ground (arith, t))
  | inr f ↦ elim (Bool-cases (leb size 256)) [
    | inl t ↦ class_is 1 (sym (rw (f, t) refl) ∙ e) (omega arith) (ground (arith, t))
    | inr g ↦ elim (Bool-cases (leb size 1024)) [
      | inl t ↦ class_is 2 (sym (rw (f, g, t) refl) ∙ e) (omega arith) (ground (arith, t))
      | inr i ↦ let nothing : none ≡ some c = sym (rw (f, g, i) refl) ∙ e in absurd (cc nothing)
    ]
  ]
]
  where
    class_is : (d : ℕ) → some d ≡ some c → d < 3 → size ≤ obj_size d → (c < 3) × (size ≤ obj_size c)
    class_is d e p q = subst (λ k. (k < 3) × (size ≤ obj_size k)) (some-injective d c e) (p, q)

-- Where an object of a page lies.
pub object_place :
    (c a slot : ℕ)
    → c < 3
    → a % page_size ≡ 0
    → slot < capacity_of (obj_size c)
    → let ptr = a + size_of_slab_header + slot * obj_size c in
      (page_of ptr ≡ a)
      × ((ptr - a - size_of_slab_header) % obj_size c ≡ 0)
      × ((ptr - a - size_of_slab_header) / obj_size c ≡ slot)
object_place zero a slot p q r = (omega (arith, q, r), omega arith, omega arith)
object_place (suc zero) a slot p q r = (omega (arith, q, r), omega arith, omega arith)
object_place (suc (suc zero)) a slot p q r = (omega (arith, q, r), omega arith, omega arith)
object_place (suc (suc (suc c))) a slot p q r = absurd (omega (arith, p))

pub slot_loop_lem :
    (n slot k : ℕ) (bits : ℕ → Bool)
    → slot_loop n slot bits ≡ some k
    → (bits k ≡ true) × (slot ≤ k) × (k < slot + n)
unfolding slot_loop
slot_loop_lem zero slot k bits e = absurd (cc e)
slot_loop_lem (suc n) slot k bits e = elim (Bool-cases (bits slot)) [
  | inl t ↦
      let found : some slot ≡ some k = sym (rw t refl) ∙ e in
      let here : slot ≡ k = ground (arith, found) in
      (ap bits (sym here) ∙ t, omega (arith, here), omega (arith, here))
  | inr f ↦
      let later : slot_loop n (slot + 1) bits ≡ some k = sym (rw f refl) ∙ e in
      let (bit, low, high) = slot_loop_lem n (slot + 1) k bits later in
      (bit, omega (arith, low), omega (arith, high))
]

free_slot_lem :
    (hdr : SlabHeader) (k : ℕ)
    → free_slot hdr ≡ some k
    → (hdr.free_bits k ≡ true) × (0 ≤ k) × (k < hdr.capacity)
free_slot_lem hdr k e = elim (Bool-cases (ltb 0 hdr.free_count)) [
  | inl t ↦
      let (bit, low, high) = slot_loop_lem hdr.capacity 0 k hdr.free_bits (sym (rw t refl) ∙ e) in
      (bit, low, omega (arith, high))
  | inr f ↦ let nothing : none ≡ some k = sym (rw f refl) ∙ e in absurd (cc nothing)
]

-- What the walk over the pages finds.
pub page_loop_lem :
    (n c : ℕ) (cur : Option ℕ) (header : ℕ → SlabHeader) (pages : List ℕ) (a slot : ℕ)
    → IsPages header c cur pages
    → page_loop n cur header ≡ some (a, slot)
    → IsSlabPage header c a × ((header a).free_bits slot ≡ true) × (slot < capacity_of (obj_size c))
unfolding page_loop
page_loop_lem zero c cur header pages a slot v e = absurd (cc e)
page_loop_lem (suc n) c cur header [] a slot v e =
    let nothing : none ≡ some (a, slot) =
      subst (λ k. page_loop (suc n) k header ≡ some (a, slot)) v e in
    absurd (cc nothing)
page_loop_lem (suc n) c cur header (b ∷ pages) a slot v e =
    let here = subst (λ k. page_loop (suc n) k header ≡ some (a, slot)) v.0 e in
    let rest = page_loop n (header b).next header in
    elim (Option-cases (free_slot (header b))) [
      | inl full ↦
          page_loop_lem n c (header b).next header pages a slot v.2
            (sym (ap (λ o. slot_or b o rest) full) ∙ here)
      | inr (k, found) ↦
          let both : some (b, k) ≡ some (a, slot) = sym (ap (λ o. slot_or b o rest) found) ∙ here in
          let pair = some-injective (b, k) (a, slot) both in
          let (bit, low, high) = free_slot_lem (header b) k found in
          let room : k < capacity_of (obj_size c) = subst (λ m. k < m) (v.1).capacity high in
          subst
            (λ (p : ℕ × ℕ).
              IsSlabPage header c p.0
              × ((header p.0).free_bits p.1 ≡ true)
              × (p.1 < capacity_of (obj_size c)))
            pair (v.1, bit, room)
    ]
