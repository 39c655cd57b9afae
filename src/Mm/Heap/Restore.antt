-- ===== src/Mm/Heap/Restore.antt =====
-- Mm/Heap: blocks that are joined again.
use onyx_kernel.Prelude.{
  ℕ, ◌+◌, ◌%◌, ◌<◌, ◌≡◌, refl, sym, ap, ◌∙◌, subst, Bool, true, false, ◌&&◌, List, [], ◌∷◌, ◌++◌,
  arith,
}
use onyx_kernel.Mm.Heap.{hdr_size}
use onyx_kernel.Mm.Heap.Tiles.{Tile, span}
use onyx_kernel.Mm.Heap.Join.{join_behind, join_behind-head, join_front, released}
use onyx_kernel.Mm.Heap.Sound.{IsSound}

-- What is given back.
join_behind-IsSound :
    (s : ℕ) (post : List Tile) (f : Bool)
    → s % 16 ≡ 0
    → 0 < s
    → IsSound f post
    → IsSound false (join_behind s post)
join_behind-IsSound s [] f a b v = (refl, a, b, tt)
join_behind-IsSound s ((s', true) ∷ post) f a b v =
    let a' : s' % 16 ≡ 0 = v.1 in (refl, omega (arith, a, a'), omega (arith, b), v.3)
join_behind-IsSound s ((s', false) ∷ post) f a b v = (refl, a, b, (refl, v.1, v.2, v.3))

-- The block in front of one that is free.
join_front-IsSound :
    (p : Bool) (s0 s : ℕ) (f0 : Bool) (us : List Tile)
    → p && f0 ≡ false
    → s0 % 16 ≡ 0
    → 0 < s0
    → IsSound false ((s, true) ∷ us)
    → IsSound p (join_front (s0, f0) ((s, true) ∷ us))
join_front-IsSound p s0 s true us e a b v =
    let a' : s % 16 ≡ 0 = v.1 in (e, omega (arith, a, a'), omega (arith, b), v.3)
join_front-IsSound p s0 s false us e a b v = (e, a, b, v)

-- The first of all blocks has none in front of it.
released_front-IsSound :
    (p : Bool) (t : Tile) (pre : List Tile) (s : ℕ) (f : Bool) (post : List Tile)
    → IsSound p ((t ∷ pre) ++ ((s, f) ∷ post))
    → IsSound p (released (t ∷ pre) s post)
released_front-IsSound p (s0, f0) [] s f post v =
    let (s', us, head) = join_behind-head s post in
    let behind =
      subst (IsSound false) head (join_behind-IsSound s post f (v.3).1 (v.3).2 (v.3).3) in
    subst (λ k. IsSound p (join_front (s0, f0) k)) (sym head)
      (join_front-IsSound p s0 s' f0 us v.0 v.1 v.2 behind)
released_front-IsSound p (s0, f0) (t ∷ pre) s f post v =
    (v.0, v.1, v.2, released_front-IsSound f0 t pre s f post v.3)

pub released-IsSound :
    (pre : List Tile) (s : ℕ) (f : Bool) (post : List Tile)
    → IsSound false (pre ++ ((s, f) ∷ post))
    → IsSound false (released pre s post)
released-IsSound [] s f post v = join_behind-IsSound s post f v.1 v.2 v.3
released-IsSound (t ∷ pre) s f post v = released_front-IsSound false t pre s f post v

span-join_behind : (s : ℕ) (post : List Tile) → span (join_behind s post) ≡ hdr_size + s + span post
span-join_behind s [] = refl
span-join_behind s ((s', true) ∷ post) = omega arith
span-join_behind s ((s', false) ∷ post) = refl

span-join_front :
    (s0 : ℕ) (f0 : Bool) (us : List Tile) → span (join_front (s0, f0) us) ≡ hdr_size + s0 + span us
span-join_front s0 f0 [] = refl
span-join_front s0 true ((s, f) ∷ us) = omega arith
span-join_front s0 false ((s, f) ∷ us) = refl

pub span-released :
    (pre : List Tile) (s : ℕ) (f : Bool) (post : List Tile)
    → span (released pre s post) ≡ span (pre ++ ((s, f) ∷ post))
span-released [] s f post = span-join_behind s post
span-released ((s0, f0) ∷ []) s f post =
    span-join_front s0 f0 (join_behind s post)
    ∙ ap (λ k. hdr_size + s0 + k) (span-join_behind s post)
span-released ((s0, f0) ∷ t ∷ pre) s f post =
    ap (λ k. hdr_size + s0 + k) (span-released (t ∷ pre) s f post)

-- Where the rest that was cut off is joined again, the blocks are as before.
pub released_again :
    (p : Bool) (pre : List Tile) (k s : ℕ) (rest post : List Tile)
    → join_behind k rest ≡ (s, true) ∷ post
    → IsSound p (pre ++ ((s, true) ∷ post))
    → released pre k rest ≡ pre ++ ((s, true) ∷ post)
released_again p [] k s rest post e v = e
released_again p ((s0, true) ∷ []) k s rest post e v =
    let clash = (v.3).0 in absurd (ground (arith, clash))
released_again p ((s0, false) ∷ []) k s rest post e v = ap (join_front (s0, false)) e
released_again p ((s0, f0) ∷ t ∷ pre) k s rest post e v =
    ap (λ us. (s0, f0) ∷ us) (released_again f0 (t ∷ pre) k s rest post e v.3)
