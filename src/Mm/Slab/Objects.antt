-- ===== src/Mm/Slab/Objects.antt =====
-- Mm/Slab: taking an object, and the objects that are in use.
use onyx_kernel.Prelude.{
  ℕ, zero, suc, ◌+◌, ◌-◌, ◌*◌, ◌/◌, ◌≤◌, ◌<◌, ◌≡◌, ◌≢◌, refl, sym, ap, ap₂, ◌∙◌, subst, true, false,
  Option, some, List, arith, inl, inr, ℕ_discrete,
}
use mathlib.Core.Option.{some-injective}
use onyx_kernel.Proc.State.{assign, assign_self}
use onyx_kernel.Mm.Pmm.{Pmm, page_size, bm_get, pa_to_idx, idx_to_pa}
use onyx_kernel.Mm.Pmm
use onyx_kernel.Mm.Slab.{
  Slabs, SlabHeader, size_of_slab_header, capacity_of, take_slot, new_header, slab_alloc, slab_free,
}
use onyx_kernel.Mm.Slab.Grant.{IsSlabs, OnOld, OnNew, slab_alloc_lem}
use onyx_kernel.Mm.Slab.Return.{page_of, slot_of}
use onyx_kernel.Mm.Slab.InUse.{
  in_use, slot-in_use, put_header-IsSlabPage, new_page, other_page, same_page,
}
use onyx_kernel.Mm.Slab.Found.{obj_size, object_place}

-- What is taken, and how it stands to the objects that are in use.
record Granted (size : ℕ) (s : Slabs) : Type 0 where
  ptr : ℕ
  len : ℕ
  after : Slabs
  result : slab_alloc size s ≡ (some (ptr, len), after)
  large : size ≤ len
  small : len ≤ 1024
  object : (in_use ptr after ≡ true) × ((slab_free ptr after).0 ≡ some len)
  fresh :
      (q : ℕ)
      → in_use q s ≡ true
      → bm_get s.pmm (pa_to_idx s.pmm (page_of q)) ≡ true
      → (q ≢ ptr) × (in_use q after ≡ true)

obj_size_le : (c : ℕ) → c < 3 → obj_size c ≤ 1024
obj_size_le zero p = omega arith
obj_size_le (suc zero) p = omega arith
obj_size_le (suc (suc zero)) p = omega arith
obj_size_le (suc (suc (suc c))) p = absurd (omega (arith, p))

granted_old : (size : ℕ) (s : Slabs) → OnOld size s → Granted size s
granted_old size s v =
    let ptr = v.page + size_of_slab_header + v.slot * obj_size v.class in
    let hdr = s.header v.page in
    let taken = take_slot v.slot hdr in
    let after : Slabs = record s { header = assign (s.header) v.page taken } in
    let good = v.valid in
    let page =
      put_header-IsSlabPage s.header v.class v.page taken good.nonnull good.aligned good.magic
        good.size_idx good.capacity in
    let bit : (after.header v.page).free_bits v.slot ≡ false =
      ap (λ (k : SlabHeader). k.free_bits v.slot) (assign_self s.header v.page taken)
      ∙ ground arith in
    let place = object_place v.class v.page v.slot v.below good.aligned v.room in
    let slot : slot_of ptr hdr ≡ v.slot =
      ap₂ (λ a c. (ptr - a - size_of_slab_header) / obj_size c) place.0 good.size_idx ∙ place.2 in
    record {
      ptr = ptr;
      len = obj_size v.class;
      after = after;
      result = v.result;
      large = v.large;
      small = obj_size_le v.class v.below;
      object = slot-in_use v.class v.page v.slot after v.below v.room page bit;
      fresh = λ q u t. elim (ℕ_discrete (page_of q) v.page) [
        | yes e ↦ same_page q v.page ptr v.slot s after refl e slot v.bit u
        | no n ↦ other_page q v.page ptr taken s after refl n place.0 u
      ];
    }

granted_new :
    (size : ℕ) (s : Slabs) (pages : ℕ → List ℕ) → IsSlabs s pages → OnNew size s → Granted size s
granted_new size s pages w v =
    let ptr = v.page + size_of_slab_header in
    let hdr = take_slot 0 (new_header v.class (s.heads v.class)) in
    let after : Slabs = record {
      pmm = (Pmm.alloc s.pmm).1;
      heads = assign s.heads v.class (some v.page);
      header = assign s.header v.page hdr;
    } in
    let (nonnull, aligned, free) = new_page s pages v.page w v.taken in
    let page = put_header-IsSlabPage s.header v.class v.page hdr nonnull aligned refl refl refl in
    let bit : (after.header v.page).free_bits 0 ≡ false =
      ap (λ (k : SlabHeader). k.free_bits 0) (assign_self s.header v.page hdr) in
    let room : 0 < capacity_of (obj_size v.class) = capacity_pos v.class v.below in
    let first : v.page + size_of_slab_header + 0 * obj_size v.class ≡ ptr = omega arith in
    let place = object_place v.class v.page 0 v.below aligned room in
    record {
      ptr = ptr;
      len = obj_size v.class;
      after = after;
      result = v.result;
      large = v.large;
      small = obj_size_le v.class v.below;
      object =
          subst (λ k. (in_use k after ≡ true) × ((slab_free k after).0 ≡ some (obj_size v.class)))
            first (slot-in_use v.class v.page 0 after v.below room page bit);
      fresh = λ q u t.
          let apart : page_of q ≢ v.page = λ e.
            let clash = sym t ∙ ap (λ k. bm_get s.pmm (pa_to_idx s.pmm k)) e ∙ free in
            ground (arith, clash) in
          other_page q v.page ptr hdr s after refl apart (ap page_of (sym first) ∙ place.0) u;
    }
  where
    capacity_pos : (c : ℕ) → c < 3 → 0 < capacity_of (obj_size c)
    capacity_pos zero p = omega arith
    capacity_pos (suc zero) p = omega arith
    capacity_pos (suc (suc zero)) p = omega arith
    capacity_pos (suc (suc (suc c))) p = absurd (omega (arith, p))

granted :
    (size : ℕ) (s : Slabs) (pages : ℕ → List ℕ) (o : ℕ × ℕ)
    → IsSlabs s pages
    → (slab_alloc size s).0 ≡ some o
    → (g : Granted size s) × ((g.ptr, g.len) ≡ o)
granted size s pages o v got =
    let answer : (g : Granted size s) → (g.ptr, g.len) ≡ o = λ g.
      some-injective (g.ptr, g.len) o
        (sym (ap (λ (k : Option (ℕ × ℕ) × Slabs). k.0) g.result) ∙ got) in
    elim (slab_alloc_lem size s pages o v got) [
      | inl old ↦ let g = granted_old size s old in (g, answer g)
      | inr new ↦ let g = granted_new size s pages v new in (g, answer g)
    ]

-- An object that is taken is in use, and has at most 1024 bytes.
pub slab_alloc_object :
    (size ptr n : ℕ) (s : Slabs) (pages : ℕ → List ℕ)
    → IsSlabs s pages
    → (slab_alloc size s).0 ≡ some (ptr, n)
    → (in_use ptr (slab_alloc size s).1 ≡ true) × (n ≤ 1024)
slab_alloc_object size ptr n s pages v got =
    let (g, e) = granted size s pages (ptr, n) v got in
    let here : g.ptr ≡ ptr = ap (λ (k : ℕ × ℕ). k.0) e in
    let size_of : g.len ≡ n = ap (λ (k : ℕ × ℕ). k.1) e in
    let after : g.after ≡ (slab_alloc size s).1 =
      sym (ap (λ (k : Option (ℕ × ℕ) × Slabs). k.1) g.result) in
    (sym (ap₂ (λ p k. in_use p k) here after) ∙ (g.object).0, subst (λ k. k ≤ 1024) size_of g.small)

-- An object that is taken has room for the size asked for, and giving it back reports the size that taking
-- it did.
pub slab_free-slab_alloc :
    (size ptr n : ℕ) (s : Slabs) (pages : ℕ → List ℕ)
    → IsSlabs s pages
    → (slab_alloc size s).0 ≡ some (ptr, n)
    → (size ≤ n) × ((slab_free ptr (slab_alloc size s).1).0 ≡ some n)
slab_free-slab_alloc size ptr n s pages v got =
    let (g, e) = granted size s pages (ptr, n) v got in
    let size_of : g.len ≡ n = ap (λ (k : ℕ × ℕ). k.1) e in
    let here : g.ptr ≡ ptr = ap (λ (k : ℕ × ℕ). k.0) e in
    let after : g.after ≡ (slab_alloc size s).1 =
      sym (ap (λ (k : Option (ℕ × ℕ) × Slabs). k.1) g.result) in
    let large = g.large in
    (
      omega (arith, large, size_of),
      sym (ap₂ (λ p t. (slab_free p t).0) here after) ∙ (g.object).1 ∙ ap (λ k. some k) size_of,
    )

-- Where the lists hold pages of their classes, an object that is taken is in use, and an object that was in
-- use before, on a page that is taken, is another one and stays in use.
pub slab_alloc-in_use :
    (size ptr n q : ℕ) (s : Slabs) (pages : ℕ → List ℕ)
    → IsSlabs s pages
    → (slab_alloc size s).0 ≡ some (ptr, n)
    → in_use q s ≡ true
    → bm_get s.pmm (pa_to_idx s.pmm (page_of q)) ≡ true
    → (in_use ptr (slab_alloc size s).1 ≡ true)
      × (q ≢ ptr)
      × (in_use q (slab_alloc size s).1 ≡ true)
slab_alloc-in_use size ptr n q s pages v got u t =
    let (g, e) = granted size s pages (ptr, n) v got in
    let here : g.ptr ≡ ptr = ap (λ (k : ℕ × ℕ). k.0) e in
    let after : g.after ≡ (slab_alloc size s).1 =
      sym (ap (λ (k : Option (ℕ × ℕ) × Slabs). k.1) g.result) in
    let (apart, still) = g.fresh q u t in
    (
      sym (ap₂ (λ p k. in_use p k) here after) ∙ (g.object).0,
      (λ k. apart (k ∙ sym here)),
      ap (in_use q) (sym after) ∙ still,
    )
