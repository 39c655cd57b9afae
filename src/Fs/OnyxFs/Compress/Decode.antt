-- ===== src/Fs/OnyxFs/Compress/Decode.antt =====
-- What the decoder makes of one packet.
use onyx_kernel.Prelude.{
  ℕ, suc, ◌+◌, ◌-◌, ◌%◌, ◌≤◌, ◌<◌, ◌≡◌, Bool, List, ◌∷◌, ◌++◌, length, length-append, take,
  replicate, max, leb, arith, length-take, take-append_self, drop-append_self, Bool-cases, inl, inr,
}
use onyx_kernel.Fs.OnyxFs.Compress.{count_run, literal, packet, decompress_loop}
use onyx_kernel.Fs.OnyxFs.Compress.Encode.{count_run-le, take-count_run, literal-le}

-- The decoder goes on behind a packet that stood for `bytes`.
abbrev after : List ℕ → List ℕ × Bool → List ℕ × Bool
after bytes rest = (bytes ++ rest.0, rest.1)

decode_run :
    (fuel n c : ℕ) (w : List ℕ) (room : ℕ)
    → n < 128
    → n < room
    → decompress_loop (suc fuel) ((128 + n) ∷ c ∷ w) room
      ≡ after (replicate (suc n) c) (decompress_loop fuel w (room - suc n))
unfolding decompress_loop
decode_run fuel n c w room h r =
    let count : (128 + n) % 128 + 1 ≡ suc n = omega arith in ground (arith, count)

decode_literal :
    (fuel : ℕ) (bytes w : List ℕ) (room : ℕ)
    → 0 < length bytes
    → length bytes ≤ 128
    → length bytes ≤ room
    → decompress_loop (suc fuel) ((length bytes - 1) ∷ (bytes ++ w)) room
      ≡ after bytes (decompress_loop fuel w (room - length bytes))
unfolding decompress_loop
decode_literal fuel bytes w room p h r =
    let count : length bytes - 1 + 1 ≡ length bytes = omega arith in
    ground (arith, count, length-append bytes w, take-append_self bytes w, drop-append_self bytes w)

pub decode-packet :
    (fuel c : ℕ) (s w : List ℕ) (room : ℕ)
    → (packet c s).1 ≤ room
    → decompress_loop (suc fuel) ((packet c s).0 ++ w) room
      ≡ after (take (packet c s).1 (c ∷ s)) (decompress_loop fuel w (room - (packet c s).1))
unfolding packet
decode-packet fuel c s w room h = elim (Bool-cases (leb 3 (1 + count_run c 127 s))) [
  | inl e ↦ ground (
    arith,
    decode_run fuel (count_run c 127 s) c w room,
    count_run-le c 127 s,
    take-count_run c 127 s,
  )
  | inr e ↦ ground (
    arith,
    decode_literal fuel (take (max 1 (literal 128 (c ∷ s))) (c ∷ s)) w room,
    literal-le 128 (c ∷ s),
    length-take (max 1 (literal 128 (c ∷ s))) (c ∷ s),
  )
]
