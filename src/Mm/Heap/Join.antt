-- ===== src/Mm/Heap/Join.antt =====
-- Mm/Heap: a block joined with its neighbours that are free.
use onyx_kernel.Prelude.{
  ℕ, ◌+◌, ◌<◌, ◌≡◌, refl, sym, ap, ap₂, ◌∙◌, subst, Bool, true, false, Option, some, List, [], ◌∷◌,
  if◌then◌else◌, arith,
}
use onyx_kernel.Proc.State.{assign, assign_self, assign_ne}
use onyx_kernel.Mm.Heap.{hdr_size, Block, set_prev, free_at, join_next, merge_next, merge_prev}
use onyx_kernel.Mm.Heap.Tiles.{Tile, IsTiled, IsTiled-frame, IsTiled-set_prev, set_prev_below}

-- A free block of `s` bytes in front of the others, joined with the first of them if that is free.
abbrev pub join_behind : ℕ → List Tile → List Tile
join_behind s [] = (s, true) ∷ []
join_behind s ((s', f') ∷ ts) =
    if f' then (s + (hdr_size + s'), true) ∷ ts else (s, true) ∷ (s', f') ∷ ts

-- A block in front of one that is free, joined with it if it is free itself.
abbrev pub join_front : Tile → List Tile → List Tile
join_front (s, f) [] = (s, f) ∷ []
join_front (s, f) ((s', f') ∷ ts) =
    if f then (s + (hdr_size + s'), f) ∷ ts else (s, f) ∷ (s', f') ∷ ts

-- The blocks where the one of `s` bytes between `pre` and `post` is given back.
abbrev pub released : List Tile → ℕ → List Tile → List Tile
released [] s post = join_behind s post
released (t ∷ []) s post = join_front t (join_behind s post)
released (t ∷ t' ∷ pre) s post = t ∷ released (t' ∷ pre) s post

-- The block at `at` marked free.
abbrev pub freed : ℕ → (ℕ → Block) → ℕ → Block
freed at block = assign block at (record (block at) { free = true })

pub freed-IsTiled :
    (block : ℕ → Block) (prev cur : Option ℕ) (at s : ℕ) (f : Bool) (ts : List Tile)
    → IsTiled block prev cur at ((s, f) ∷ ts)
    → IsTiled (freed at block) prev cur at ((s, true) ∷ ts)
freed-IsTiled block prev cur at s f ts v =
    let b : Block = record (block at) { free = true } in
    let here : freed at block at ≡ b = assign_self block at b in
    (
      v.0,
      here
          ∙ ap (λ (d : Block). record d { free = true }) v.1
          ∙ ap (λ (d : Block). record { size = s; free = true; next = d.next; prev = prev })
              (sym here),
      subst (λ (d : Block). IsTiled (freed at block) (some at) d.next (at + hdr_size + s) ts)
          (sym here)
          (IsTiled-frame block (freed at block) (some at) (block at).next (at + hdr_size + s) ts
            (λ c p. assign_ne block at b c (λ e. omega (arith, e, p))) v.2),
    )

-- Two blocks become one.
join_next-IsTiled :
    (block : ℕ → Block) (prev cur : Option ℕ) (at s s' : ℕ) (f f' : Bool) (ts : List Tile)
    → IsTiled block prev cur at ((s, f) ∷ (s', f') ∷ ts)
    → IsTiled
        (join_next at (some (at + hdr_size + s)) block)
        prev
        cur
        at
        ((s + (hdr_size + s'), f) ∷ ts)
join_next-IsTiled block prev cur at s s' f f' ts v =
    let n = at + hdr_size + s in
    let behind = n + hdr_size + s' in
    let jb : Block = record (block at) {
      size = (block at).size + (hdr_size + (block n).size);
      next = (block n).next;
    } in
    let block1 = assign block at jb in
    let block2 = set_prev block1 (block n).next (some at) in
    let tiles1 : IsTiled block1 (some n) (block n).next behind ts =
      IsTiled-frame block block1 (some n) (block n).next behind ts
        (λ c p. assign_ne block at jb c (λ e. omega (arith, e, p))) v.2.2 in
    let tiles2 : IsTiled block2 (some at) (block n).next behind ts =
      IsTiled-set_prev block1 (some n) (some at) (block n).next behind ts tiles1 in
    let here : block2 at ≡ jb =
      set_prev_below block block1 (some n) (some at) (block n).next behind ts at v.2.2 (omega arith)
      ∙ assign_self block at jb in
    let size : (block at).size + (hdr_size + (block n).size) ≡ s + (hdr_size + s') =
      ap₂ (λ a b. a + (hdr_size + b)) (ap (λ (d : Block). d.size) v.1)
        (ap (λ (d : Block). d.size) v.2.1) in
    let far : behind ≡ at + hdr_size + (s + (hdr_size + s')) = omega arith in
    (
      v.0,
      here
          ∙ ap
              (λ (d : Block). record d {
                size = (block at).size + (hdr_size + (block n).size);
                next = (block n).next;
              })
              v.1
          ∙ ap (λ k. record { size = k; free = f; next = (block n).next; prev = prev }) size
          ∙ ap
              (λ (d : Block). record {
                size = s + (hdr_size + s');
                free = f;
                next = d.next;
                prev = prev;
              })
              (sym here),
      subst (λ a. IsTiled block2 (some at) (block2 at).next a ts) far
          (subst (λ (d : Block). IsTiled block2 (some at) d.next behind ts) (sym here) tiles2),
    )

join_next_below :
    (block : ℕ → Block) (prev cur : Option ℕ) (at s s' : ℕ) (f f' : Bool) (ts : List Tile) (b : ℕ)
    → IsTiled block prev cur at ((s, f) ∷ (s', f') ∷ ts)
    → b < at
    → join_next at (some (at + hdr_size + s)) block b ≡ block b
join_next_below block prev cur at s s' f f' ts b v p =
    let n = at + hdr_size + s in
    let jb : Block = record (block at) {
      size = (block at).size + (hdr_size + (block n).size);
      next = (block n).next;
    } in
    set_prev_below block (assign block at jb) (some n) (some at) (block n).next (n + hdr_size + s')
      ts b v.2.2 (omega (arith, p))
    ∙ assign_ne block at jb b (λ e. omega (arith, e, p))

-- What the joining with the next block leaves.
pub record Joined (block : ℕ → Block) (prev cur : Option ℕ) (at s : ℕ) (ts : List Tile)
    : Type 0 where
  pub tiled : IsTiled (merge_next at block) prev cur at (join_behind s ts)
  pub below : (b : ℕ) → b < at → merge_next at block b ≡ block b

pub merge_next-Joined :
    (block : ℕ → Block) (prev cur : Option ℕ) (at s : ℕ) (ts : List Tile)
    → IsTiled block prev cur at ((s, true) ∷ ts)
    → Joined block prev cur at s ts
merge_next-Joined block prev cur at s [] v =
    let alone : merge_next at block ≡ block =
      ap (λ c. if free_at block c then join_next at c block else block) v.2 in
    record {
      tiled = subst (λ k. IsTiled k prev cur at ((s, true) ∷ [])) (sym alone) v;
      below = λ b p. ap (λ (k : ℕ → Block). k b) alone;
    }
merge_next-Joined block prev cur at s ((s', true) ∷ ts) v =
    let n = at + hdr_size + s in
    let flag : (block n).free ≡ true = ap (λ (d : Block). d.free) v.2.1 in
    let joined : merge_next at block ≡ join_next at (some n) block =
      ap (λ c. if free_at block c then join_next at c block else block) v.2.0
      ∙ ap (λ t. if t then join_next at (some n) block else block) flag in
    record {
      tiled =
          subst (λ k. IsTiled k prev cur at ((s + (hdr_size + s'), true) ∷ ts)) (sym joined)
            (join_next-IsTiled block prev cur at s s' true true ts v);
      below = λ b p.
          ap (λ (k : ℕ → Block). k b) joined
          ∙ join_next_below block prev cur at s s' true true ts b v p;
    }
merge_next-Joined block prev cur at s ((s', false) ∷ ts) v =
    let n = at + hdr_size + s in
    let flag : (block n).free ≡ false = ap (λ (d : Block). d.free) v.2.1 in
    let apart : merge_next at block ≡ block =
      ap (λ c. if free_at block c then join_next at c block else block) v.2.0
      ∙ ap (λ t. if t then join_next at (some n) block else block) flag in
    record {
      tiled = subst (λ k. IsTiled k prev cur at ((s, true) ∷ (s', false) ∷ ts)) (sym apart) v;
      below = λ b p. ap (λ (k : ℕ → Block). k b) apart;
    }

-- The first of the blocks that the joining with the next one leaves.
pub join_behind-head :
    (s : ℕ) (ts : List Tile) → (s' : ℕ) × (us : List Tile) × (join_behind s ts ≡ (s', true) ∷ us)
join_behind-head s [] = (s, [], refl)
join_behind-head s ((s', true) ∷ ts) = (s + (hdr_size + s'), ts, refl)
join_behind-head s ((s', false) ∷ ts) = (s, (s', false) ∷ ts, refl)

-- The joining with the block in front.
pub record Merged (block : ℕ → Block) (prev cur : Option ℕ) (at n : ℕ) (us : List Tile)
    : Type 0 where
  pub tiled : IsTiled (merge_prev n (block n).prev block) prev cur at us
  pub below : (b : ℕ) → b < at → merge_prev n (block n).prev block b ≡ block b

pub merge_prev-Merged :
    (block : ℕ → Block) (prev cur : Option ℕ) (at s0 s : ℕ) (f0 f : Bool) (us : List Tile)
    → IsTiled block prev cur at ((s0, f0) ∷ (s, f) ∷ us)
    → Merged block prev cur at (at + hdr_size + s0) (join_front (s0, f0) ((s, f) ∷ us))
merge_prev-Merged block prev cur at s0 s true f us v =
    let n = at + hdr_size + s0 in
    let flag : (block at).free ≡ true = ap (λ (d : Block). d.free) v.1 in
    let joined : merge_prev n (block n).prev block ≡ join_next at (some n) block =
      ap (λ (d : Block). merge_prev n d.prev block) v.2.1
      ∙ ap (λ t. if t then join_next at (some n) block else block) flag in
    record {
      tiled =
          subst (λ k. IsTiled k prev cur at ((s0 + (hdr_size + s), true) ∷ us)) (sym joined)
            (join_next-IsTiled block prev cur at s0 s true f us v);
      below = λ b p.
          ap (λ (k : ℕ → Block). k b) joined
          ∙ join_next_below block prev cur at s0 s true f us b v p;
    }
merge_prev-Merged block prev cur at s0 s false f us v =
    let n = at + hdr_size + s0 in
    let flag : (block at).free ≡ false = ap (λ (d : Block). d.free) v.1 in
    let apart : merge_prev n (block n).prev block ≡ block =
      ap (λ (d : Block). merge_prev n d.prev block) v.2.1
      ∙ ap (λ t. if t then join_next at (some n) block else block) flag in
    record {
      tiled = subst (λ k. IsTiled k prev cur at ((s0, false) ∷ (s, f) ∷ us)) (sym apart) v;
      below = λ b p. ap (λ (k : ℕ → Block). k b) apart;
    }
