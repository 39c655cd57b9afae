-- ===== src/Fs/OnyxFs/Compress/Encode.antt =====
-- The code without the bound on its size.
use onyx_kernel.Prelude.{
  ℕ, zero, suc, ◌-◌, ◌≤◌, ◌<◌, ◌≡◌, refl, Bool, true, List, [], ◌∷◌, ◌++◌, length, length-append,
  take, drop, replicate, arith,
}
use onyx_kernel.Fs.OnyxFs.Compress.{count_run, literal, packet, compress_loop}

pub count_run-le : (c n : ℕ) (s : List ℕ) → (count_run c n s ≤ n) × (count_run c n s ≤ length s)
unfolding count_run
count_run-le c zero s = omega arith
count_run-le c (suc n) [] = omega arith
count_run-le c (suc n) (x ∷ s) = ground (arith, count_run-le c n s)

pub take-count_run :
    (c n : ℕ) (s : List ℕ) → take (count_run c n s) s ≡ replicate (count_run c n s) c
unfolding count_run
take-count_run c zero s = refl
take-count_run c (suc n) [] = refl
take-count_run c (suc n) (x ∷ s) = ground (arith, take-count_run c n s)

pub literal-le : (n : ℕ) (s : List ℕ) → (literal n s ≤ n) × (literal n s ≤ length s)
unfolding literal
literal-le zero s = omega arith
literal-le (suc n) [] = omega arith
literal-le (suc n) (b ∷ s) = ground (arith, literal-le n s)

-- A packet is for a byte at least, and for no more than there are.
pub packet-bounds :
    (c : ℕ) (s : List ℕ) → let (p, len) = packet c s in (0 < len) × (len ≤ suc (length s))
unfolding packet
packet-bounds c s = ground (arith, count_run-le c 127 s, literal-le 128 (c ∷ s))

pub packet-size : (c : ℕ) (s : List ℕ) → 0 < length (packet c s).0
unfolding packet
packet-size c s = ground arith

unfoldable pub encode : ℕ → List ℕ → List ℕ
encode zero src = []
encode (suc fuel) [] = []
encode (suc fuel) (c ∷ s) = (packet c s).0 ++ encode fuel (drop (packet c s).1 (c ∷ s))

pub compress_loop-encode :
    (fuel : ℕ) (src : List ℕ) (room : ℕ)
    → length (encode fuel src) ≤ room
    → ◌≡◌ {A = List ℕ × Bool} (compress_loop fuel src room) (encode fuel src, true)
unfolding compress_loop encode
compress_loop-encode zero src room h = refl
compress_loop-encode (suc fuel) [] room h = refl
compress_loop-encode (suc fuel) (c ∷ s) room h = ground (
  arith,
  h,
  length-append (packet c s).0 (encode fuel (drop (packet c s).1 (c ∷ s))),
  compress_loop-encode fuel (drop (packet c s).1 (c ∷ s)) (room - length (packet c s).0),
)
