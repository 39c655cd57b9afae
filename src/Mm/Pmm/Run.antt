-- ===== src/Mm/Pmm/Run.antt =====
-- Allocating several pages that follow each other.
use onyx_kernel.Prelude.{
  ℕ, zero, suc, ◌+◌, ◌*◌, ◌≤◌, ◌<◌, ◌≡◌, ◌⊎◌, refl, sym, ap, ◌∙◌, false, ◌&&◌, ◌||◌, Bool-cases,
  ℕ_discrete, inl, inr, ltb, leb, ◌==◌, if◌then◌else◌, arith,
}
use onyx_kernel.Core.Errno.{KResult, ok}
use onyx_kernel.Mm.Pmm.{
  Pmm, page_size, bm_get, bm_set, pa_to_idx, idx_to_pa, clear_pages, set_run, alloc_n_loop, alloc_n,
}
use onyx_kernel.Mm.Pmm.Bits.{IsPmm, bm_get-bm_set, bm_set-IsPmm}

-- The `run` pages from `start` on are free.
abbrev IsClear : Pmm → ℕ → ℕ → Type 0
IsClear p start run = (k : ℕ) → start ≤ k → k < start + run → bm_get p k ≡ false

-- One more free page behind the run, or the first of a run.
longer :
    (p : Pmm) (i run start : ℕ)
    → IsClear p start run
    → (run ≡ 0) ⊎ (start + run ≡ i)
    → bm_get p i ≡ false
    → let start' = if run == 0 then i else start in
      IsClear p start' (run + 1) × (start' + (run + 1) ≡ i + 1)
longer p i run start c w f = elim w [
  | inl z ↦
      let first : (if run == 0 then i else start) ≡ i = ground (arith, z) in
      ((λ k a b. ap (bm_get p) (omega (arith, first, a, b, z)) ∙ f), omega (arith, first, z))
  | inr e ↦ elim (ℕ_discrete run 0) [
    | yes z ↦
        let first : (if run == 0 then i else start) ≡ i = ground (arith, z) in
        ((λ k a b. ap (bm_get p) (omega (arith, first, a, b, z)) ∙ f), omega (arith, first, z))
    | no n ↦
        let same : (if run == 0 then i else start) ≡ start = ground (arith, n) in
        (
          (λ k a b. elim (ℕ_discrete k i) [
            | yes here ↦ ap (bm_get p) here ∙ f
            | no other ↦ c k (omega (arith, same, a)) (omega (arith, same, b, e, other))
          ]),
          omega (arith, same, e),
        )
  ]
]

-- The `n` pages from `s` on were free, and have been taken and cleared.
abbrev IsRun : Pmm → ℕ → ℕ → KResult ℕ × Pmm → ℕ → Type 0
IsRun p n bound out s =
    (s + n ≤ bound)
    × IsClear p s n
    × (out ≡ (ok (idx_to_pa p s), clear_pages (set_run n s p) (idx_to_pa p s) n))

alloc_n_loop_lem :
    (rounds n i run start : ℕ) (p : Pmm) {pa : ℕ}
    → IsClear p start run
    → (run ≡ 0) ⊎ (start + run ≡ i)
    → (alloc_n_loop rounds n i run start p).0 ≡ ok pa
    → (s : ℕ) × IsRun p n (i + rounds) (alloc_n_loop rounds n i run start p) s
unfolding alloc_n_loop
alloc_n_loop_lem zero n i run start p c w h = absurd (cc)
alloc_n_loop_lem (suc rounds) n i run start p {pa} c w h = elim (Bool-cases (bm_get p i)) [
  | inl t ↦
      let next : (alloc_n_loop rounds n (i + 1) 0 start p).0 ≡ ok pa = ground (arith, t, h) in
      let (s, r) =
        alloc_n_loop_lem rounds n (i + 1) 0 start p (λ k a b. absurd (omega (arith, a, b)))
          (inl refl) next in
      (s, (omega (arith, r.0), r.1, ground (arith, t, r.2)))
  | inr f ↦
      let start' = if run == 0 then i else start in
      let grown = longer p i run start c w f in
      elim (ℕ_discrete (run + 1) n) [
        | yes e ↦ (
          start',
          (
            omega (arith, grown.1, e),
            (λ k a b. grown.0 k a (omega (arith, b, e))),
            ground (arith, f, e),
          ),
        )
        | no d ↦
            let next : (alloc_n_loop rounds n (i + 1) (run + 1) start' p).0 ≡ ok pa =
              ground (arith, f, d, h) in
            let (s, r) =
              alloc_n_loop_lem rounds n (i + 1) (run + 1) start' p grown.0 (inr grown.1) next in
            (s, (omega (arith, r.0), r.1, ground (arith, f, d, r.2)))
      ]
]

bm_get-set_run :
    (n s : ℕ) (p : Pmm) (j : ℕ)
    → IsPmm p
    → s + n ≤ p.total_pages
    → bm_get (set_run n s p) j ≡ (leb s j && ltb j (s + n) || bm_get p j)
unfolding set_run
bm_get-set_run zero s p j v h = ground arith
bm_get-set_run (suc n) s p j v h =
    let total : (bm_set p s).total_pages ≡ p.total_pages = unfold bm_set in refl in
    let rest =
      bm_get-set_run n (s + 1) (bm_set p s) j (bm_set-IsPmm p s v) (omega (arith, h, total)) in
    ground (arith, rest, bm_get-bm_set p s j v (omega (arith, h)))

get_cleared : (p : Pmm) (pa n j : ℕ) → bm_get (clear_pages p pa n) j ≡ bm_get p j
unfolding bm_get
get_cleared p pa n j = refl

cleared :
    (p : Pmm) (pa n offset : ℕ)
    → offset < n * page_size
    → (clear_pages p pa n).memory (pa + offset) ≡ 0
cleared p pa n offset o = ground (arith, o)

alloc_n-IsRun :
    (p : Pmm) (n : ℕ) {pa : ℕ}
    → (alloc_n p n).0 ≡ ok pa
    → (s : ℕ) × IsRun p n p.total_pages (alloc_n p n) s
unfolding alloc_n
alloc_n-IsRun p n {pa} h = elim (ℕ_discrete n 0) [
  | yes z ↦ absurd (ground (arith, z, h))
  | no m ↦
      let body : alloc_n p n ≡ alloc_n_loop p.total_pages n 0 0 0 p = ground (arith, m) in
      let (s, r) =
        alloc_n_loop_lem p.total_pages n 0 0 0 p {pa = pa} (λ k a b. absurd (omega (arith, b)))
          (inl refl) (ground (arith, m, h)) in
      (s, (omega (arith, r.0), r.1, body ∙ r.2))
]

-- The pages that `alloc_n` returns follow each other, were all free, are taken afterwards and filled
-- with zeros, and no other page has changed its state.
pub alloc_n_lem :
    (p : Pmm) (n k j offset : ℕ) {pa : ℕ}
    → IsPmm p
    → k < n
    → offset < n * page_size
    → (alloc_n p n).0 ≡ ok pa
    → let q = (alloc_n p n).1 in
      let idx = pa_to_idx p pa in
      (idx + n ≤ p.total_pages)
      × (idx_to_pa p idx ≡ pa)
      × (bm_get p (idx + k) ≡ false)
      × (bm_get q j ≡ (leb idx j && ltb j (idx + n) || bm_get p j))
      × (q.memory (pa + offset) ≡ 0)
alloc_n_lem p n k j offset {pa} v l o h =
    let (s, r) = alloc_n-IsRun p n h in
    let address : pa ≡ idx_to_pa p s = ground (arith, r.2, h) in
    let index : pa_to_idx p pa ≡ s = omega (arith, address) in
    let after : (alloc_n p n).1 ≡ clear_pages (set_run n s p) pa n =
      ap (λ t. t.1) r.2 ∙ ap (λ a. clear_pages (set_run n s p) a n) (sym address) in
    (
      omega (arith, index, r.0),
      omega (arith, address),
      ap (λ t. bm_get p (t + k)) index ∙ r.1 (s + k) (omega arith) (omega (arith, l)),
      ap (λ t. bm_get t j) after
          ∙ get_cleared (set_run n s p) pa n j
          ∙ bm_get-set_run n s p j v r.0
          ∙ ap (λ t. leb t j && ltb j (t + n) || bm_get p j) (sym index),
      ap (λ t. t.memory (pa + offset)) after ∙ cleared (set_run n s p) pa n offset o,
    )
