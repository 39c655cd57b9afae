-- ===== src/Mm/Pmm/Alloc.antt =====
-- Allocating one page, and giving it back.
use onyx_kernel.Prelude.{
  ℕ, zero, suc, ◌+◌, ◌*◌, ◌%◌, ◌≤◌, ◌<◌, ◌≡◌, refl, sym, ap, ◌∙◌, true, false, not, ◌&&◌, ◌||◌, leb,
  ltb, if◌then◌else◌, Bool-cases, ℕ_discrete, inl, inr, ◌==◌, arith,
}
use onyx_kernel.Core.Errno.{Errno, KResult, ok, err}
use onyx_kernel.Mm.Pmm.{
  Pmm, page_size, bm_get, bm_set, bm_clr, pa_to_idx, idx_to_pa, clear_pages, alloc_loop, alloc,
  free,
}
use onyx_kernel.Mm.Pmm.Bits.{IsPmm, bm_get-bm_set, bm_get-bm_clr, bm_set-IsPmm}

-- The page `i` was free, and has been taken and cleared.
abbrev IsTaken : Pmm → ℕ → KResult ℕ × Pmm → ℕ → Type 0
IsTaken p n out i =
    (i < n)
    × (bm_get p i ≡ false)
    × (out ≡ (ok (idx_to_pa p i), clear_pages (bm_set p i) (idx_to_pa p i) 1))

-- From the page `i` on, with all pages before it taken, and `n` rounds left.
alloc_loop_lem :
    (n i : ℕ) (p : Pmm) {pa : ℕ}
    → (alloc_loop n i p).0 ≡ ok pa
    → (k : ℕ) × IsTaken p (i + n) (alloc_loop n i p) k
unfolding alloc_loop
alloc_loop_lem zero i p h = absurd (cc)
alloc_loop_lem (suc n) i p {pa} h = elim (Bool-cases (bm_get p i)) [
  | inl e ↦
      let next : (alloc_loop n (i + 1) p).0 ≡ ok pa = ground (arith, e, h) in
      let (k, t) = alloc_loop_lem n (i + 1) p next in (k, (omega (arith, t.0), t.1, rw e t.2))
  | inr e ↦ (i, (omega arith, e, rw e refl))
]

alloc_loop_err :
    (n i : ℕ) (p : Pmm) {e : Errno} (j : ℕ)
    → (alloc_loop n i p).0 ≡ err e
    → i ≤ j
    → j < i + n
    → bm_get p j ≡ true
unfolding alloc_loop
alloc_loop_err zero i p j h a b = absurd (omega arith)
alloc_loop_err (suc n) i p {e} j h a b = elim (Bool-cases (bm_get p i)) [
  | inl t ↦ elim (ℕ_discrete i j) [
    | yes here ↦ ap (bm_get p) (sym here) ∙ t
    | no other ↦
        alloc_loop_err n (i + 1) p {e = e} j (ground (arith, t, h)) (omega (arith, a, other))
          (omega (arith, b))
  ]
  | inr f ↦ absurd (ground (arith, f, h))
]

-- `alloc` fails only where every page is taken.
pub alloc_full :
    (p : Pmm) {e : Errno} (j : ℕ) → (alloc p).0 ≡ err e → j < p.total_pages → bm_get p j ≡ true
unfolding alloc
alloc_full p {e} j h b = alloc_loop_err p.total_pages 0 p {e = e} j h (omega arith) (omega arith)

-- The page `k` has been taken, at the address `pa`.
alloc_page :
    (p : Pmm) {pa : ℕ}
    → (alloc p).0 ≡ ok pa
    → (k : ℕ) × (k < p.total_pages)
      × (pa ≡ idx_to_pa p k)
      × (pa_to_idx p pa ≡ k)
      × (bm_get p k ≡ false)
      × ((alloc p).1 ≡ clear_pages (bm_set p k) pa 1)
unfolding alloc
alloc_page p {pa} h =
    let (k, t) = alloc_loop_lem p.total_pages 0 p h in
    let address : pa ≡ idx_to_pa p k = ground (arith, t.2, h) in
    (
      k,
      omega (arith, t.0),
      address,
      omega (arith, address),
      t.1,
      ap (λ o. o.1) t.2 ∙ ap (λ a. clear_pages (bm_set p k) a 1) (sym address),
    )

cleared :
    (p : Pmm) (pa offset : ℕ) → offset < page_size → (clear_pages p pa 1).memory (pa + offset) ≡ 0
cleared p pa offset o = ground (arith, o)

outside :
    (p : Pmm) (k pa a : ℕ)
    → (clear_pages (bm_set p k) pa 1).memory a
      ≡ (if leb pa a && ltb a (pa + page_size) then 0 else p.memory a)
unfolding bm_set
outside p k pa a = refl

get_after :
    (p : Pmm) (k j pa : ℕ)
    → IsPmm p
    → k < p.total_pages
    → bm_get (clear_pages (bm_set p k) pa 1) j ≡ (k == j || bm_get p j)
get_after p k j pa v h = unfold bm_get in bm_get-bm_set p k j v h

-- The page that `alloc` returns was free, is taken afterwards and filled with zeros; every other page
-- is free or taken as before, and the memory outside the page is as it was.
pub alloc_lem :
    (p : Pmm) (j offset a : ℕ) {pa : ℕ}
    → IsPmm p
    → offset < page_size
    → (alloc p).0 ≡ ok pa
    → let q = (alloc p).1 in
      let idx = pa_to_idx p pa in
      (idx < p.total_pages)
      × (idx_to_pa p idx ≡ pa)
      × (bm_get p idx ≡ false)
      × (bm_get q j ≡ (idx == j || bm_get p j))
      × (q.memory (pa + offset) ≡ 0)
      × (q.memory a ≡ (if leb pa a && ltb a (pa + page_size) then 0 else p.memory a))
alloc_lem p j offset a {pa} v o h =
    let (k, below, address, index, clear, after) = alloc_page p h in
    (
      omega (arith, index, below),
      omega (arith, address),
      ap (bm_get p) index ∙ clear,
      ap (λ q. bm_get q j) after
          ∙ get_after p k j pa v below
          ∙ ap (λ i. i == j || bm_get p j) (sym index),
      ap (λ q. q.memory (pa + offset)) after ∙ cleared (bm_set p k) pa offset o,
      ap (λ q. q.memory a) after ∙ outside p k pa a,
    )

free_taken :
    (q : Pmm) (pa k : ℕ)
    → pa ≡ q.base + k * page_size
    → q.base % page_size ≡ 0
    → k < q.total_pages
    → bm_get q k ≡ true
    → free q pa ≡ bm_clr q k
unfolding free
free_taken q pa k address aligned below taken =
    let index : pa_to_idx q pa ≡ k = omega (arith, address) in
    let whole : pa % page_size ≡ 0 = omega (arith, address, aligned) in
    ground (arith, index, whole, below, taken, address)

-- The state after taking the page `k`.
taken-IsPmm : (p : Pmm) (k pa : ℕ) → IsPmm p → IsPmm (clear_pages (bm_set p k) pa 1)
taken-IsPmm p k pa v =
    let w = bm_set-IsPmm p k v in record { bytes = w.bytes; room = w.room; aligned = w.aligned }

taken_place :
    (p : Pmm) (k pa : ℕ)
    → let q = clear_pages (bm_set p k) pa 1 in (q.base ≡ p.base) × (q.total_pages ≡ p.total_pages)
unfolding bm_set
taken_place p k pa = (refl, refl)

restored :
    (p : Pmm) (k j : ℕ) → bm_get p k ≡ false → (not (k == j) && (k == j || bm_get p j)) ≡ bm_get p j
restored p k j h = elim (ℕ_discrete k j) [
  | yes e ↦ let clear : bm_get p j ≡ false = ap (bm_get p) (sym e) ∙ h in ground (arith, e, clear)
  | no n ↦ ground (arith, n)
]

-- Giving the page back restores the set of the pages taken.
pub free-alloc :
    (p : Pmm) (j : ℕ) {pa : ℕ}
    → IsPmm p
    → (alloc p).0 ≡ ok pa
    → bm_get (free (alloc p).1 pa) j ≡ bm_get p j
free-alloc p j {pa} v h =
    let (k, below, address, index, clear, after) = alloc_page p h in
    let q = clear_pages (bm_set p k) pa 1 in
    let sound = taken-IsPmm p k pa v in
    let place = taken_place p k pa in
    let inside : k < q.total_pages = omega (arith, below, place.1) in
    let taken : bm_get q k ≡ true = get_after p k k pa v below ∙ ground arith in
    ap (λ r. bm_get (free r pa) j) after
    ∙ ap (λ r. bm_get r j)
        (free_taken q pa k (omega (arith, address, place.0)) sound.aligned inside taken)
    ∙ bm_get-bm_clr q k j sound inside
    ∙ ap (λ b. not (k == j) && b) (get_after p k j pa v below)
    ∙ restored p k j clear
