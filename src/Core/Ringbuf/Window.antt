-- ===== src/Core/Ringbuf/Window.antt =====
-- The bytes that a ring holds, oldest first, and what a write and a read do to them.
use Prim.Native.Nat.{◌∣◌}
use onyx_kernel.Prelude.{
  ℕ, zero, suc, ◌+◌, ◌-◌, ◌%◌, ◌≤◌, ◌<◌, ◌≡◌, ◌≢◌, refl, sym, ap, ap₂, ◌∙◌, List, [], ◌∷◌, ◌++◌,
  append_assoc, append-nil, triple, arith, length, set, get_or, take, drop, length-append,
  length-set, get_or-set_self, get_or-set_ne, set-append,
}
use onyx_kernel.Core.Ringbuf.{u32_mod, wrapping_add, write_loop, read_loop}
use onyx_kernel.Core.Ringbuf.Slots.{tail_slot_ne}

-- The `n` bytes from the position `head` on.
abbrev pub window : List ℕ → ℕ → ℕ → ℕ → List ℕ
window buf cells head zero = []
window buf cells head (suc n) =
    get_or buf (head % cells) 0 ∷ window buf cells (wrapping_add head 1) n

pub length-window : (buf : List ℕ) (cells head n : ℕ) → length (window buf cells head n) ≡ n
length-window buf cells head zero = refl
length-window buf cells head (suc n) = ap suc (length-window buf cells (wrapping_add head 1) n)

pub take-window :
    (buf : List ℕ) (cells head n u : ℕ)
    → n ≤ u
    → take n (window buf cells head u) ≡ window buf cells head n
take-window buf cells head zero u h = refl
take-window buf cells head (suc n) zero h = absurd (omega arith)
take-window buf cells head (suc n) (suc u) h =
    ap (λ w. get_or buf (head % cells) 0 ∷ w)
      (take-window buf cells (wrapping_add head 1) n u (omega arith))

pub drop-window :
    (buf : List ℕ) (cells head n u : ℕ)
    → head < u32_mod
    → n ≤ u
    → drop n (window buf cells head u) ≡ window buf cells (wrapping_add head n) (u - n)
drop-window buf cells head zero u l h = ap₂ (window buf cells) (omega arith) (omega arith)
drop-window buf cells head (suc n) zero l h = absurd (omega arith)
drop-window buf cells head (suc n) (suc u) l h =
    drop-window buf cells (wrapping_add head 1) n u (omega arith) (omega arith)
    ∙ ap₂ (window buf cells) (omega arith) (omega arith)

-- A byte written just past a window extends it.
window-set :
    (buf : List ℕ) (cells x n h i : ℕ)
    → cells ≡ length buf
    → cells ∣ u32_mod
    → h < u32_mod
    → n < cells
    → i ≡ wrapping_add h n % cells
    → window (set buf i x) cells h (suc n) ≡ window buf cells h n ++ (x ∷ [])
window-set buf cells x zero h i s d l p e =
    ap (λ y. y ∷ [])
      (ap (λ j. get_or (set buf i x) j 0) same ∙ get_or-set_self buf i x 0 (rw s at in_range))
  where
    same : h % cells ≡ i
    same = ap (λ t. t % cells) (omega arith) ∙ sym e

    in_range : i < cells
    in_range = rw e (omega arith)
window-set buf cells x (suc n) h i s d l p e =
    ap₂ ◌∷◌ (get_or-set_ne buf x 0 apart)
      (window-set buf cells x n (wrapping_add h 1) i s d (omega arith) (omega arith) (e ∙ shift))
  where
    apart : i ≢ h % cells
    apart q =
        tail_slot_ne cells d h (suc n) 0 (omega arith) p
          (ap (λ t. t % cells) (omega arith) ∙ sym q ∙ e)

    shift : wrapping_add h (suc n) % cells ≡ wrapping_add (wrapping_add h 1) n % cells
    shift = ap (λ t. t % cells) (omega arith)

-- What `write_loop` has done when it ends, started at `u` positions after `head`.
pub record Wrote (buf : List ℕ) (cells head u tail written n : ℕ) (src : List ℕ)
    (out : List ℕ × ℕ × ℕ) : Type 0 where
  pub kept : length out.0 ≡ cells
  pub bytes : window out.0 cells head (u + n) ≡ window buf cells head u ++ take n src
  pub end : out.1 ≡ wrapping_add tail n
  pub count : out.2 ≡ written + n

pub write_loop-Wrote :
    (n : ℕ) (buf : List ℕ) (cells head u tail written : ℕ) (src : List ℕ)
    → cells ≡ length buf
    → cells ∣ u32_mod
    → head < u32_mod
    → tail ≡ wrapping_add head u
    → u + n ≤ cells
    → n ≤ length src
    → Wrote buf cells head u tail written n src (write_loop n buf tail written src)
unfolding write_loop
write_loop-Wrote zero buf cells head u tail written src s d l t p q = record {
  kept = sym s;
  bytes = ap (window buf cells head) (omega arith) ∙ sym (append-nil (window buf cells head u));
  end = omega arith;
  count = omega arith;
}
write_loop-Wrote (suc n) buf cells head u tail written [] s d l t p q = absurd (omega arith)
write_loop-Wrote (suc n) buf cells head u tail written (x ∷ src) s d l t p q =
    let i = tail % length buf in
    let rest =
      write_loop-Wrote n (set buf i x) cells head (suc u) (wrapping_add tail 1) (written + 1) src
        (s ∙ sym (length-set buf i x)) d l (omega arith) (omega arith) (omega arith) in
    let here : window (set buf i x) cells head (suc u) ≡ window buf cells head u ++ (x ∷ []) =
      window-set buf cells x u head i s d l (omega arith) (ap₂ ◌%◌ t (sym s)) in
    record {
      kept = rest.kept;
      bytes =
          ap (window _ cells head) (omega arith)
          ∙ rest.bytes
          ∙ ap (λ w. w ++ take n src) here
          ∙ append_assoc (window buf cells head u) (x ∷ []) (take n src);
      end = omega (arith, rest.end);
      count = omega (arith, rest.count);
    }

-- `read_loop` copies the `n` oldest bytes over `rest`, which stands after `done` in `dst`.
pub read_loop_lem :
    (n : ℕ) (buf : List ℕ) (head : ℕ) (done rest : List ℕ)
    → head < u32_mod
    → n ≤ length rest
    → read_loop n buf head (length done) (done ++ rest) ≡ (
      done ++ (window buf (length buf) head n ++ drop n rest),
      wrapping_add head n,
      length done + n,
    )
unfolding read_loop
read_loop_lem zero buf head done rest l q = triple refl (omega arith) (omega arith)
read_loop_lem (suc n) buf head done [] l q = absurd (omega arith)
read_loop_lem (suc n) buf head done (y ∷ rest) l q =
    let x = get_or buf (head % length buf) 0 in
    let one : List ℕ = x ∷ [] in
    let after = window buf (length buf) (wrapping_add head 1) n ++ drop n rest in
    let count : length (done ++ one) ≡ length done + 1 =
      omega (arith, length-append {0} done one) in
    ap₂ (read_loop n buf (wrapping_add head 1)) (sym count)
      (set-append done rest y x ∙ sym (append_assoc done one rest))
    ∙ read_loop_lem n buf (wrapping_add head 1) (done ++ one) rest (omega arith) (omega arith)
    ∙ triple (append_assoc done one after) (omega arith) (omega (arith, count))
