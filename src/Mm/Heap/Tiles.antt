-- ===== src/Mm/Heap/Tiles.antt =====
-- Mm/Heap: the blocks of the heap as a list of sizes, laid side by side.
use onyx_kernel.Prelude.{
  ℕ, ◌+◌, ◌≤◌, ◌<◌, ◌≡◌, refl, sym, ap, ◌∙◌, subst, Bool, Option, none, some, List, [], ◌∷◌, arith,
}
use onyx_kernel.Proc.State.{assign, assign_self, assign_ne}
use onyx_kernel.Mm.Heap.{hdr_size, Block, set_prev}

-- A block: its size, and whether it is free.
abbrev pub Tile : Type 0
Tile = ℕ × Bool

-- The bytes of the blocks with their headers.
abbrev pub span : List Tile → ℕ
span [] = 0
span ((s, f) ∷ ts) = hdr_size + s + span ts

-- The list from `cur` is these blocks, side by side from the address `at` on, each with a pointer back.
abbrev pub IsTiled : (ℕ → Block) → Option ℕ → Option ℕ → ℕ → List Tile → Type 0
IsTiled block prev cur at [] = cur ≡ none
IsTiled block prev cur at ((s, f) ∷ ts) =
    (cur ≡ some at)
    × (block at ≡ record { size = s; free = f; next = (block at).next; prev = prev })
    × IsTiled block (some at) (block at).next (at + hdr_size + s) ts

-- The first header, seen through headers that agree on it.
pub first_tile :
    (block block' : ℕ → Block) (prev : Option ℕ) (at s : ℕ) (f : Bool)
    → block' at ≡ block at
    → block at ≡ record { size = s; free = f; next = (block at).next; prev = prev }
    → block' at ≡ record { size = s; free = f; next = (block' at).next; prev = prev }
first_tile block block' prev at s f same v =
    same
    ∙ v
    ∙ ap (λ (b : Block). record { size = s; free = f; next = b.next; prev = prev }) (sym same)

-- Headers that agree from `at` on.
pub IsTiled-frame :
    (block block' : ℕ → Block) (prev cur : Option ℕ) (at : ℕ) (ts : List Tile)
    → ((b : ℕ) → at ≤ b → block' b ≡ block b)
    → IsTiled block prev cur at ts
    → IsTiled block' prev cur at ts
IsTiled-frame block block' prev cur at [] same v = v
IsTiled-frame block block' prev cur at ((s, f) ∷ ts) same v =
    let here = same at (omega arith) in
    (
      v.0,
      first_tile block block' prev at s f here v.1,
      subst (λ (b : Block). IsTiled block' (some at) b.next (at + hdr_size + s) ts) (sym here)
          (IsTiled-frame block block' (some at) (block at).next (at + hdr_size + s) ts
            (λ b p. same b (omega (arith, p))) v.2),
    )

-- The same blocks with another pointer back from the first.
pub IsTiled-set_prev :
    (block : ℕ → Block) (prev prev' cur : Option ℕ) (at : ℕ) (ts : List Tile)
    → IsTiled block prev cur at ts
    → IsTiled (set_prev block cur prev') prev' cur at ts
IsTiled-set_prev block prev prev' cur at [] v = v
IsTiled-set_prev block prev prev' cur at ((s, f) ∷ ts) v =
    let b = record (block at) { prev = prev' } in
    let block' = assign block at b in
    let here : block' at ≡ b = assign_self block at b in
    let tail =
      IsTiled-frame block block' (some at) (block at).next (at + hdr_size + s) ts
        (λ c p. assign_ne block at b c (λ e. omega (arith, e, p))) v.2 in
    subst (λ c. IsTiled (set_prev block c prev') prev' c at ((s, f) ∷ ts)) (sym v.0)
      (
        refl,
        here
            ∙ ap
                (λ (d : Block). record {
                  size = d.size;
                  free = d.free;
                  next = (block at).next;
                  prev = prev';
                })
                v.1
            ∙ ap (λ (d : Block). record { size = s; free = f; next = d.next; prev = prev' })
                (sym here),
        subst (λ (d : Block). IsTiled block' (some at) d.next (at + hdr_size + s) ts) (sym here)
            tail,
      )

-- A pointer back is set at the address where the blocks start, or nowhere.
pub set_prev_below :
    (block block' : ℕ → Block) (prev v cur : Option ℕ) (at : ℕ) (ts : List Tile) (b : ℕ)
    → IsTiled block prev cur at ts
    → b < at
    → set_prev block' cur v b ≡ block' b
set_prev_below block block' prev v cur at [] b t h = ap (λ c. set_prev block' c v b) t
set_prev_below block block' prev v cur at ((s, f) ∷ ts) b t h =
    ap (λ c. set_prev block' c v b) t.0
    ∙ assign_ne block' at (record (block' at) { prev = v }) b (λ e. omega (arith, e, h))
