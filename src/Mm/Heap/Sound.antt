-- ===== src/Mm/Heap/Sound.antt =====
-- Mm/Heap: sizes, alignment and neighbours, and how taking and giving back changes the blocks.
use onyx_kernel.Prelude.{
  ℕ, suc, ◌+◌, ◌*◌, ◌%◌, ◌≤◌, ◌<◌, ◌≡◌, refl, sym, ap, ◌∙◌, subst, Bool, true, false, ◌&&◌, Option,
  some, List, [], ◌∷◌, ◌++◌, length, leb, arith, Bool-cases, inl, inr, ◌⊎◌,
}
use onyx_kernel.Core.Errno.{ok, err, no_mem}
use onyx_kernel.Mm.Heap.{hdr_size, heap_size, min_block, max_blocks, Block}
use onyx_kernel.Mm.Heap.Tiles.{Tile, span, IsTiled}
use onyx_kernel.Mm.Heap.Fit.{first_fit, fits_tile, cut_tile}

-- Sizes are multiples of 16 and not 0, and no two neighbours are free; `p` is whether the block in front is.
abbrev pub IsSound : Bool → List Tile → Type 0
IsSound p [] = Unit
IsSound p ((s, f) ∷ ts) = (p && f ≡ false) × (s % 16 ≡ 0) × (0 < s) × IsSound f ts

pub length-bound : (ts : List Tile) → span ts ≡ heap_size → length ts < suc max_blocks
length-bound ts e = omega (arith, e, length_span ts)
  where
    length_span : (us : List Tile) → hdr_size * length us ≤ span us
    length_span [] = omega arith
    length_span ((s, f) ∷ us) = let ih = length_span us in omega (arith, ih)

pub span-append : (ts us : List Tile) → span (ts ++ us) ≡ span ts + span us
span-append [] us = omega arith
span-append ((s, f) ∷ ts) us = let ih = span-append ts us in omega (arith, ih)

pub span_aligned : (p : Bool) (pre ts : List Tile) → IsSound p (pre ++ ts) → span pre % 16 ≡ 0
span_aligned p [] ts v = refl
span_aligned p ((s, f) ∷ pre) ts v =
    let ih = span_aligned f pre ts v.3 in let e = v.1 in omega (arith, ih, e)

-- The size in the header of a block behind others.
pub size_behind :
    (block : ℕ → Block) (prev cur : Option ℕ) (at a s : ℕ) (f : Bool) (pre post : List Tile)
    → a ≡ at + span pre
    → IsTiled block prev cur at (pre ++ ((s, f) ∷ post))
    → (block a).size ≡ s
size_behind block prev cur at a s f [] post e v =
    let here : a ≡ at = omega (arith, e) in
    ap (λ k. (block k).size) here ∙ ap (λ (d : Block). d.size) v.1
size_behind block prev cur at a s f ((s0, f0) ∷ pre) post e v =
    size_behind block (some at) (block at).next (at + hdr_size + s0) a s f pre post
      (omega (arith, e)) v.2

-- A block is found, and given out.
pub record Found (needed at : ℕ) (ts : List Tile) : Type 0 where
  pub pre : List Tile
  pub size : ℕ
  pub post : List Tile
  pub tiles : ts ≡ pre ++ ((size, true) ∷ post)
  pub room : needed + hdr_size ≤ size
  pub result :
      first_fit needed at ts
      ≡ (ok (at + span pre + hdr_size), pre ++ (cut_tile needed size ++ post))

pub first_fit-Found :
    (needed at : ℕ) (ts : List Tile)
    → (first_fit needed at ts ≡ (err no_mem, ts)) ⊎ Found needed at ts
first_fit-Found needed at [] = inl refl
first_fit-Found needed at ((s, f) ∷ ts) = elim (Bool-cases (fits_tile needed (s, f))) [
  | inl e ↦ inr (
      let (flag, room) = fit_parts s f e in
      record {
        pre = [];
        size = s;
        post = ts;
        tiles = ap (λ k. (s, k) ∷ ts) flag;
        room = room;
        result = rw e (ap (λ k. (ok k, cut_tile needed s ++ ts)) (omega arith));
      })
  | inr e ↦ elim (first_fit-Found needed (at + hdr_size + s) ts) [
    | inl same ↦ inl (rw e (ap (λ k. (k.0, (s, f) ∷ k.1)) same))
    | inr found ↦
        let far : at + hdr_size + s + span found.pre + hdr_size
            ≡ at + (hdr_size + s + span found.pre) + hdr_size =
          omega arith in
        inr (record {
          pre = (s, f) ∷ found.pre;
          size = found.size;
          post = found.post;
          tiles = ap (λ k. (s, f) ∷ k) found.tiles;
          room = found.room;
          result = rw e (
              ap (λ k. (k.0, (s, f) ∷ k.1)) found.result
              ∙ ap (λ k. (ok k, (s, f) ∷ (found.pre ++ (cut_tile needed found.size ++ found.post))))
                  far);
        })
  ]
]
  where
    fit_parts :
        (s : ℕ) (f : Bool) → fits_tile needed (s, f) ≡ true → (f ≡ true) × (needed + hdr_size ≤ s)
    fit_parts s true e = (refl, ground (arith, e))
    fit_parts s false e = ground (arith, e)

span-cut_tile :
    (needed s : ℕ) (post : List Tile) → span (cut_tile needed s ++ post) ≡ hdr_size + s + span post
span-cut_tile needed s post = elim (Bool-cases (leb (needed + hdr_size + min_block + hdr_size) s)) [
  | inl e ↦
      rw e (
        let p : needed + hdr_size + min_block + hdr_size ≤ s = ground (arith, e) in
        omega (arith, p))
  | inr e ↦ rw e refl
]

pub span-Found : (needed at : ℕ) (ts : List Tile) → span (first_fit needed at ts).1 ≡ span ts
span-Found needed at ts = elim (first_fit-Found needed at ts) [
  | inl same ↦ ap (λ k. span k.1) same
  | inr f ↦
      ap (λ k. span k.1) f.result
      ∙ span-append f.pre (cut_tile needed f.size ++ f.post)
      ∙ ap (λ k. span f.pre + k) (span-cut_tile needed f.size f.post)
      ∙ sym (span-append f.pre ((f.size, true) ∷ f.post))
      ∙ ap span (sym f.tiles)
]

-- Behind a block that is given out.
loose : (p : Bool) (ts : List Tile) → IsSound p ts → IsSound false ts
loose p [] v = tt
loose p ((s, f) ∷ ts) v = (refl, v.1, v.2, v.3)

nothing_free : (p : Bool) → p && false ≡ false
nothing_free true = refl
nothing_free false = refl

cut_tile-IsSound :
    (p : Bool) (needed s : ℕ) (post : List Tile)
    → needed % 16 ≡ 0
    → 0 < needed
    → IsSound p ((s, true) ∷ post)
    → IsSound p (cut_tile needed s ++ post)
cut_tile-IsSound p needed s post a b v =
    let none_free : p && false ≡ false = nothing_free p in
    elim (Bool-cases (leb (needed + hdr_size + min_block + hdr_size) s)) [
      | inl e ↦ rw e (
          let room : needed + hdr_size + min_block + hdr_size ≤ s = ground (arith, e) in
          let al : s % 16 ≡ 0 = v.1 in
          (none_free, a, b, (refl, omega (arith, al, a, room), omega (arith, room), v.3)))
      | inr e ↦ rw e (none_free, v.1, v.2, loose true post v.3)
    ]

pub append-IsSound :
    (p : Bool) (pre ts us : List Tile)
    → ((q : Bool) → IsSound q ts → IsSound q us)
    → IsSound p (pre ++ ts)
    → IsSound p (pre ++ us)
append-IsSound p [] ts us h v = h p v
append-IsSound p ((s, f) ∷ pre) ts us h v = (v.0, v.1, v.2, append-IsSound f pre ts us h v.3)

pub first_fit-IsSound :
    (p : Bool) (needed at : ℕ) (ts : List Tile)
    → needed % 16 ≡ 0
    → 0 < needed
    → IsSound p ts
    → IsSound p (first_fit needed at ts).1
first_fit-IsSound p needed at ts a b v = elim (first_fit-Found needed at ts) [
  | inl same ↦ subst (λ k. IsSound p k.1) (sym same) v
  | inr f ↦
      subst (λ k. IsSound p k.1) (sym f.result)
        (append-IsSound p f.pre ((f.size, true) ∷ f.post) (cut_tile needed f.size ++ f.post)
          (λ q. cut_tile-IsSound q needed f.size f.post a b) (subst (IsSound p) f.tiles v))
]
