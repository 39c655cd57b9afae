-- ===== src/Mm/Slab/Grant.antt =====
-- Mm/Slab: what taking an object does.
use onyx_kernel.Prelude.{
  ℕ, zero, suc, ◌+◌, ◌-◌, ◌*◌, ◌≤◌, ◌<◌, ◌≡◌, refl, sym, ap, ◌∙◌, true, false, Option, none, some,
  List, ltb, arith, Option-cases, inl, inr, ◌⊎◌,
}
use onyx_kernel.Core.Errno.{KResult, ok, err}
use onyx_kernel.Proc.State.{assign}
use onyx_kernel.Mm.Pmm.{Pmm, page_size, bm_get, pa_to_idx, idx_to_pa}
use onyx_kernel.Mm.Pmm
use onyx_kernel.Mm.Pmm.Bits.{IsPmm}
use onyx_kernel.Mm.Slab.{
  Slabs, size_of_slab_header, class_idx, capacity_of, page_loop, take_slot, new_header, on_new_page,
  on_page, in_class, slab_alloc,
}
use onyx_kernel.Mm.Slab.Found.{obj_size, IsSlabPage, IsPages, class_idx_lem, page_loop_lem}

-- The list of each class consists of pages of the class.
pub record IsSlabs (s : Slabs) (pages : ℕ → List ℕ) : Type 0 where
  pub pmm : IsPmm s.pmm
  pub based : 0 < s.pmm.base
  pub lists : (c : ℕ) → IsPages s.header c (s.heads c) (pages c)

-- The slot was free on a page of the class.
pub record OnOld (size : ℕ) (s : Slabs) : Type 0 where
  pub class : ℕ
  pub page : ℕ
  pub slot : ℕ
  pub below : class < 3
  pub large : size ≤ obj_size class
  pub valid : IsSlabPage s.header class page
  pub bit : (s.header page).free_bits slot ≡ true
  pub room : slot < capacity_of (obj_size class)
  pub result : slab_alloc size s ≡ (
    some (page + size_of_slab_header + slot * obj_size class, obj_size class),
    record s { header = assign (s.header) page (take_slot slot (s.header page)) },
  )

-- The page was taken for the object.
pub record OnNew (size : ℕ) (s : Slabs) : Type 0 where
  pub class : ℕ
  pub page : ℕ
  pub below : class < 3
  pub large : size ≤ obj_size class
  pub taken : (Pmm.alloc s.pmm).0 ≡ ok page
  pub result : slab_alloc size s ≡ (
    some (page + size_of_slab_header, obj_size class),
    record {
      pmm = (Pmm.alloc s.pmm).1;
      heads = assign s.heads class (some page);
      header = assign s.header page (take_slot 0 (new_header class (s.heads class)));
    },
  )

obj_size_small : (c : ℕ) → c < 3 → ltb (page_size - size_of_slab_header) (obj_size c) ≡ false
obj_size_small zero p = refl
obj_size_small (suc zero) p = refl
obj_size_small (suc (suc zero)) p = refl
obj_size_small (suc (suc (suc c))) p = absurd (omega (arith, p))

on_new_page_lem :
    (class : ℕ) (r : KResult ℕ × Pmm) (s : Slabs) (o : ℕ × ℕ)
    → (on_new_page class r s).0 ≡ some o
    → (page : ℕ) × (r ≡ (ok page, r.1))
on_new_page_lem class (ok pa, pmm) s o e = (pa, refl)
on_new_page_lem class (err x, pmm) s o e = absurd (cc e)

pub slab_alloc_lem :
    (size : ℕ) (s : Slabs) (pages : ℕ → List ℕ) (o : ℕ × ℕ)
    → IsSlabs s pages
    → (slab_alloc size s).0 ≡ some o
    → OnOld size s ⊎ OnNew size s
unfolding slab_alloc
slab_alloc_lem size s pages o v got = elim (Option-cases (class_idx size)) [
  | inl e ↦
      let nothing : none ≡ some o = sym (ap (λ k. (in_class k s).0) e) ∙ got in absurd (cc nothing)
  | inr (c, e) ↦
      let (below, large) = class_idx_lem size c e in
      let walk = page_loop (s.pmm.total_pages + 1) (s.heads c) s.header in
      let small = obj_size_small c below in
      let inside : slab_alloc size s ≡ on_page c walk s =
        ap (λ k. in_class k s) e ∙ rw small refl in
      elim (Option-cases walk) [
        | inr ((a, slot), found) ↦
            let (valid, bit, room) =
              page_loop_lem (s.pmm.total_pages + 1) c (s.heads c) s.header (pages c) a slot
                (v.lists c) found in
            inl (record {
              class = c;
              page = a;
              slot = slot;
              below = below;
              large = large;
              valid = valid;
              bit = bit;
              room = room;
              result = inside ∙ ap (λ k. on_page c k s) found;
            })
        | inl full ↦
            let onto : slab_alloc size s ≡ on_new_page c (Pmm.alloc s.pmm) s =
              inside ∙ ap (λ k. on_page c k s) full in
            let (page, fresh) =
              on_new_page_lem c (Pmm.alloc s.pmm) s o
                (sym (ap (λ (k : Option (ℕ × ℕ) × Slabs). k.0) onto) ∙ got) in
            inr (record {
              class = c;
              page = page;
              below = below;
              large = large;
              taken = ap (λ (k : KResult ℕ × Pmm). k.0) fresh;
              result = onto ∙ ap (λ k. on_new_page c k s) fresh;
            })
      ]
]
