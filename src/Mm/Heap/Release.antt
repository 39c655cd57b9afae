-- ===== src/Mm/Heap/Release.antt =====
-- Mm/Heap: giving back memory joins the block with its neighbours that are free.
use onyx_kernel.Prelude.{
  ℕ, ◌+◌, ◌<◌, ◌≡◌, sym, ap, ◌∙◌, subst, Bool, true, Option, none, some, List, [], ◌∷◌, ◌++◌, arith,
}
use onyx_kernel.Proc.State.{assign_ne}
use onyx_kernel.Mm.Heap.{hdr_size, Block, merge_next, merge_prev}
use onyx_kernel.Mm.Heap.Tiles.{Tile, span, IsTiled, first_tile}
use onyx_kernel.Mm.Heap.Join.{
  join_behind, join_behind-head, join_front, released, freed, freed-IsTiled, merge_next-Joined,
  merge_prev-Merged,
}

-- The headers where the block at `a` is given back.
abbrev pub given_back : ℕ → (ℕ → Block) → ℕ → Block
given_back a block =
    let joined = merge_next a (freed a block) in merge_prev a (joined a).prev joined

pub record IsReleased (block : ℕ → Block) (prev cur : Option ℕ) (at a : ℕ) (us : List Tile)
    : Type 0 where
  pub tiled : IsTiled (given_back a block) prev cur at us
  pub below : (b : ℕ) → b < at → given_back a block b ≡ block b

second-IsReleased :
    (block : ℕ → Block) (prev cur : Option ℕ) (at a s0 s : ℕ) (f0 f : Bool) (post : List Tile)
    → a ≡ at + hdr_size + s0
    → IsTiled block prev cur at ((s0, f0) ∷ (s, f) ∷ post)
    → IsReleased block prev cur at a (join_front (s0, f0) (join_behind s post))
second-IsReleased block prev cur at a s0 s f0 f post e v =
    let n = at + hdr_size + s0 in
    let block1 = freed n block in
    let block2 = merge_next n block1 in
    let fb : Block = record (block n) { free = true } in
    let j =
      merge_next-Joined block1 (some at) (block at).next n s post
        (freed-IsTiled block (some at) (block at).next n s f post v.2) in
    let first : block2 at ≡ block at =
      j.below at (omega arith) ∙ assign_ne block n fb at (λ g. omega (arith, g)) in
    let tiles : IsTiled block2 prev cur at ((s0, f0) ∷ join_behind s post) = (
      v.0,
      first_tile block block2 prev at s0 f0 first v.1,
      subst (λ (d : Block). IsTiled block2 (some at) d.next n (join_behind s post)) (sym first)
          j.tiled,
    ) in
    let (s', us, head) = join_behind-head s post in
    let m =
      merge_prev-Merged block2 prev cur at s0 s' f0 true us
        (subst (λ k. IsTiled block2 prev cur at ((s0, f0) ∷ k)) head tiles) in
    subst (λ k. IsReleased block prev cur at k (join_front (s0, f0) (join_behind s post))) (sym e)
      (record {
        tiled =
            subst (λ k. IsTiled (given_back n block) prev cur at (join_front (s0, f0) k)) (sym head)
              m.tiled;
        below = λ b p.
            m.below b p
            ∙ j.below b (omega (arith, p))
            ∙ assign_ne block n fb b (λ g. omega (arith, g, p));
      })

pub given_back-IsReleased :
    (block : ℕ → Block) (prev cur : Option ℕ) (at a s : ℕ) (f : Bool) (t : Tile)
    (pre post : List Tile)
    → a ≡ at + span (t ∷ pre)
    → IsTiled block prev cur at ((t ∷ pre) ++ ((s, f) ∷ post))
    → IsReleased block prev cur at a (released (t ∷ pre) s post)
given_back-IsReleased block prev cur at a s f (s0, f0) [] post e v =
    second-IsReleased block prev cur at a s0 s f0 f post (omega (arith, e)) v
given_back-IsReleased block prev cur at a s f (s0, f0) (t ∷ pre) post e v =
    let ih =
      given_back-IsReleased block (some at) (block at).next (at + hdr_size + s0) a s f t pre post
        (omega (arith, e)) v.2 in
    let here = ih.below at (omega arith) in
    record {
      tiled = (
        v.0,
        first_tile block (given_back a block) prev at s0 f0 here v.1,
        subst
            (λ (d : Block).
              IsTiled (given_back a block) (some at) d.next (at + hdr_size + s0)
                (released (t ∷ pre) s post))
            (sym here) ih.tiled,
      );
      below = λ b p. ih.below b (omega (arith, p));
    }

-- The first of all blocks has none in front.
first-IsTiled :
    (block : ℕ → Block) (cur : Option ℕ) (at s : ℕ) (f : Bool) (post : List Tile)
    → IsTiled block none cur at ((s, f) ∷ post)
    → IsTiled (given_back at block) none cur at (join_behind s post)
first-IsTiled block cur at s f post v =
    let j =
      merge_next-Joined (freed at block) none cur at s post
        (freed-IsTiled block none cur at s f post v) in
    let (s', us, head) = join_behind-head s post in
    let tiles = subst (IsTiled (merge_next at (freed at block)) none cur at) head j.tiled in
    let alone : given_back at block ≡ merge_next at (freed at block) =
      ap (λ (d : Block). merge_prev at d.prev (merge_next at (freed at block))) tiles.1 in
    subst (λ k. IsTiled k none cur at (join_behind s post)) (sym alone) j.tiled

pub given_back-IsTiled :
    (block : ℕ → Block) (cur : Option ℕ) (base a s : ℕ) (f : Bool) (pre post : List Tile)
    → a ≡ base + span pre
    → IsTiled block none cur base (pre ++ ((s, f) ∷ post))
    → IsTiled (given_back a block) none cur base (released pre s post)
given_back-IsTiled block cur base a s f [] post e v =
    let here : base ≡ a = omega (arith, e) in
    subst (λ k. IsTiled (given_back k block) none cur base (join_behind s post)) here
      (first-IsTiled block cur base s f post v)
given_back-IsTiled block cur base a s f (t ∷ pre) post e v =
    (given_back-IsReleased block none cur base a s f t pre post e v).tiled
