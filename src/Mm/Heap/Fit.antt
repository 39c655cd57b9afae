-- ===== src/Mm/Heap/Fit.antt =====
-- Mm/Heap: taking memory is first fit over the blocks.
use onyx_kernel.Prelude.{
  ℕ, zero, suc, ◌+◌, ◌-◌, ◌≤◌, ◌<◌, ◌≡◌, ◌≢◌, refl, sym, ap, ◌∙◌, subst, Bool, true, false, ◌&&◌,
  Option, some, List, [], ◌∷◌, ◌++◌, length, leb, if◌then◌else◌, arith, Bool-cases, inl, inr, ◌⊎◌,
}
use onyx_kernel.Core.Errno.{KResult, ok, err, no_mem}
use onyx_kernel.Proc.State.{assign, assign_self, assign_ne}
use onyx_kernel.Mm.Heap.{
  hdr_size, min_block, Block, Heap, set_prev, add_used, split_block, whole_block, take_block, fits,
  fit_loop,
}
use onyx_kernel.Mm.Heap.Tiles.{
  Tile, IsTiled, IsTiled-frame, IsTiled-set_prev, set_prev_below, first_tile,
}

abbrev pub fits_tile : ℕ → Tile → Bool
fits_tile needed (s, f) = f && leb (needed + hdr_size) s

-- The tile given out, and the free rest of it, if that is worth a block.
abbrev pub cut_tile : ℕ → ℕ → List Tile
cut_tile needed s =
    if leb (needed + hdr_size + min_block + hdr_size) s
    then (needed, false) ∷ (s - needed - hdr_size, true) ∷ []
    else (s, false) ∷ []

-- First fit: the address behind the header, and the blocks.
abbrev pub first_fit : ℕ → ℕ → List Tile → KResult ℕ × List Tile
first_fit needed at [] = (err no_mem, [])
first_fit needed at ((s, f) ∷ ts) =
    let (r, us) = first_fit needed (at + hdr_size + s) ts in
    if fits_tile needed (s, f)
    then (ok (at + hdr_size), cut_tile needed s ++ ts)
    else (r, (s, f) ∷ us)

split_block-IsTiled :
    (block : ℕ → Block) (prev cur : Option ℕ) (at s needed : ℕ) (f : Bool) (ts : List Tile)
    → needed + hdr_size + min_block + hdr_size ≤ s
    → IsTiled block prev cur at ((s, f) ∷ ts)
    → IsTiled
        (split_block at needed block)
        prev
        cur
        at
        ((needed, false) ∷ (s - needed - hdr_size, true) ∷ ts)
split_block-IsTiled block prev cur at s needed f ts h v =
    let b = block at in
    let new = at + hdr_size + needed in
    let behind = at + hdr_size + s in
    let nb : Block = record {
      size = b.size - needed - hdr_size;
      free = true;
      next = b.next;
      prev = some at;
    } in
    let ob : Block = record b { next = some new; size = needed; free = false } in
    let block1 = assign block new nb in
    let block2 = set_prev block1 b.next (some new) in
    let block3 = split_block at needed block in
    let tiles1 : IsTiled block1 (some at) b.next behind ts =
      IsTiled-frame block block1 (some at) b.next behind ts
        (λ c p. assign_ne block new nb c (λ e. omega (arith, e, p, h))) v.2 in
    let tiles2 : IsTiled block2 (some new) b.next behind ts =
      IsTiled-set_prev block1 (some at) (some new) b.next behind ts tiles1 in
    let tiles3 : IsTiled block3 (some new) b.next behind ts =
      IsTiled-frame block2 block3 (some new) b.next behind ts
        (λ c p. assign_ne block2 at ob c (λ e. omega (arith, e, p))) tiles2 in
    let here : block3 at ≡ ob = assign_self block2 at ob in
    let there : block3 new ≡ nb =
      assign_ne block2 at ob new (λ e. omega (arith, e))
      ∙ set_prev_below block block1 (some at) (some new) b.next behind ts new v.2 (omega (arith, h))
      ∙ assign_self block new nb in
    let size : b.size ≡ s = ap (λ (d : Block). d.size) v.1 in
    let back : b.prev ≡ prev = ap (λ (d : Block). d.prev) v.1 in
    let far : behind ≡ new + hdr_size + (s - needed - hdr_size) = omega (arith, h) in
    (
      v.0,
      here
          ∙ ap (λ k. record { size = needed; free = false; next = some new; prev = k }) back
          ∙ ap (λ (d : Block). record { size = needed; free = false; next = d.next; prev = prev })
              (sym here),
      (
        ap (λ (d : Block). d.next) here,
        there
            ∙ ap
                (λ k. record {
                  size = k - needed - hdr_size;
                  free = true;
                  next = b.next;
                  prev = some at;
                })
                size
            ∙ ap
                (λ (d : Block). record {
                  size = s - needed - hdr_size;
                  free = true;
                  next = d.next;
                  prev = some at;
                })
                (sym there),
        subst (λ a. IsTiled block3 (some new) (block3 new).next a ts) far
            (subst (λ (d : Block). IsTiled block3 (some new) d.next behind ts) (sym there) tiles3),
      ),
    )

whole_block-IsTiled :
    (block : ℕ → Block) (prev cur : Option ℕ) (at s : ℕ) (f : Bool) (ts : List Tile)
    → IsTiled block prev cur at ((s, f) ∷ ts)
    → IsTiled (whole_block at block) prev cur at ((s, false) ∷ ts)
whole_block-IsTiled block prev cur at s f ts v =
    let b : Block = record (block at) { free = false } in
    let here : whole_block at block at ≡ b = assign_self block at b in
    (
      v.0,
      here
          ∙ ap (λ (d : Block). record d { free = false }) v.1
          ∙ ap (λ (d : Block). record { size = s; free = false; next = d.next; prev = prev })
              (sym here),
      subst (λ (d : Block). IsTiled (whole_block at block) (some at) d.next (at + hdr_size + s) ts)
          (sym here)
          (IsTiled-frame block (whole_block at block) (some at) (block at).next (at + hdr_size + s)
            ts (λ c p. assign_ne block at b c (λ e. omega (arith, e, p))) v.2),
    )

take_block-IsTiled :
    (needed : ℕ) (h : Heap) (prev cur : Option ℕ) (at s : ℕ) (f : Bool) (ts : List Tile)
    → IsTiled h.block prev cur at ((s, f) ∷ ts)
    → IsTiled (take_block at needed h).block prev cur at (cut_tile needed s ++ ts)
take_block-IsTiled needed h prev cur at s f ts v =
    let size : (h.block at).size ≡ s = ap (λ (d : Block). d.size) v.1 in
    let total = needed + hdr_size + min_block + hdr_size in
    elim (Bool-cases (leb total s)) [
      | inl e ↦
          let large : leb total (h.block at).size ≡ true = ap (leb total) size ∙ e in
          rw (large, e)
            (split_block-IsTiled h.block prev cur at s needed f ts (ground (arith, e)) v)
      | inr e ↦
          let small : leb total (h.block at).size ≡ false = ap (leb total) size ∙ e in
          rw (small, e) (whole_block-IsTiled h.block prev cur at s f ts v)
    ]

-- What a walk does is confined to the blocks from where it starts.
take_block_below :
    (needed : ℕ) (h : Heap) (prev cur : Option ℕ) (at s : ℕ) (f : Bool) (ts : List Tile) (b : ℕ)
    → IsTiled h.block prev cur at ((s, f) ∷ ts)
    → b < at
    → (take_block at needed h).block b ≡ h.block b
take_block_below needed h prev cur at s f ts b v p =
    let old = h.block at in
    let new = at + hdr_size + needed in
    let apart : b ≢ at = λ e. omega (arith, e, p) in
    let nb : Block = record {
      size = old.size - needed - hdr_size;
      free = true;
      next = old.next;
      prev = some at;
    } in
    let block1 = assign h.block new nb in
    elim (Bool-cases (leb (needed + hdr_size + min_block + hdr_size) old.size)) [
      | inl e ↦ rw e (
          assign_ne (set_prev block1 old.next (some new)) at
            (record old { next = some new; size = needed; free = false }) b apart
          ∙ set_prev_below h.block block1 (some at) (some new) old.next (at + hdr_size + s) ts b v.2
              (omega (arith, p))
          ∙ assign_ne h.block new nb b (λ g. omega (arith, g, p)))
      | inr e ↦ rw e (assign_ne h.block at (record old { free = false }) b apart)
    ]

-- What a walk leaves: the answer and the blocks of first fit, with `used` more by what is asked for.
pub record Fitted (h : Heap) (needed : ℕ) (prev cur : Option ℕ) (at : ℕ) (ts : List Tile)
    (r : KResult ℕ × Heap) : Type 0 where
  pub answer : r.0 ≡ (first_fit needed at ts).0
  pub tiled : IsTiled r.1.block prev cur at (first_fit needed at ts).1
  pub below : (b : ℕ) → b < at → r.1.block b ≡ h.block b
  pub head : r.1.free_list ≡ h.free_list
  pub counted : (r.0 ≡ err no_mem) ⊎ (r.1.used ≡ add_used h.used needed)

pub fit_loop-Fitted :
    (n needed : ℕ) (h : Heap) (prev cur : Option ℕ) (at : ℕ) (ts : List Tile)
    → length ts < n
    → IsTiled h.block prev cur at ts
    → Fitted h needed prev cur at ts (fit_loop n cur needed h)
unfolding fit_loop
fit_loop-Fitted zero needed h prev cur at ts p v = absurd (omega (arith, p))
fit_loop-Fitted (suc n) needed h prev cur at [] p v =
    subst (λ c. Fitted h needed prev cur at [] (fit_loop (suc n) c needed h)) (sym v)
      (record { answer = refl; tiled = v; below = λ b q. refl; head = refl; counted = inl refl })
fit_loop-Fitted (suc n) needed h prev cur at ((s, f) ∷ ts) p v =
    let ih =
      fit_loop-Fitted n needed h (some at) (h.block at).next (at + hdr_size + s) ts
        (omega (arith, p)) v.2 in
    let rest = fit_loop n (h.block at).next needed h in
    let same : fits needed (h.block at) ≡ fits_tile needed (s, f) = ap (fits needed) v.1 in
    subst (λ c. Fitted h needed prev cur at ((s, f) ∷ ts) (fit_loop (suc n) c needed h)) (sym v.0)
      (elim (Bool-cases (fits_tile needed (s, f))) [
        | inl e ↦
            let found : fits needed (h.block at) ≡ true = same ∙ e in
            rw found (record {
              answer = rw e refl;
              tiled = rw e (take_block-IsTiled needed h prev cur at s f ts v);
              below = λ b q. take_block_below needed h prev cur at s f ts b v q;
              head = refl;
              counted = inr refl;
            })
        | inr e ↦
            let passed : fits needed (h.block at) ≡ false = same ∙ e in
            let here = ih.below at (omega arith) in
            rw passed (record {
              answer = ih.answer ∙ rw e refl;
              tiled = rw e (
                v.0,
                first_tile h.block rest.1.block prev at s f here v.1,
                subst
                    (λ (d : Block).
                      IsTiled rest.1.block (some at) d.next (at + hdr_size + s)
                        (first_fit needed (at + hdr_size + s) ts).1)
                    (sym here) ih.tiled,
              );
              below = λ b q. ih.below b (omega (arith, q));
              head = ih.head;
              counted = ih.counted;
            })
      ])
