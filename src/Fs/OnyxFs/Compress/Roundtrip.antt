-- ===== src/Fs/OnyxFs/Compress/Roundtrip.antt =====
-- Compressing and decompressing.
use onyx_kernel.Prelude.{
  ℕ, zero, suc, ◌+◌, ◌-◌, ◌/◌, ◌≤◌, ◌≡◌, refl, ap, ◌∙◌, Bool, true, List, [], ◌∷◌, ◌++◌, length,
  length-append, take, drop, take-append-drop, take-append_self, arith, length-drop,
}
use onyx_kernel.Fs.OnyxFs.Compress.{packet, rle_compress, rle_decompress, decompress_loop}
use onyx_kernel.Fs.OnyxFs.Compress.Encode.{encode, compress_loop-encode, packet-bounds, packet-size}
use onyx_kernel.Fs.OnyxFs.Compress.Decode.{decode-packet}
use onyx_kernel.Fs.OnyxFs.Compress.Bound.{length-encode}

decompress_loop_nil :
    (rounds room : ℕ) → ◌≡◌ {A = List ℕ × Bool} (decompress_loop rounds [] room) ([], true)
unfolding decompress_loop
decompress_loop_nil zero room = refl
decompress_loop_nil (suc rounds) room = refl

encode_nil : (fuel : ℕ) → encode fuel [] ≡ []
unfolding encode
encode_nil zero = refl
encode_nil (suc fuel) = refl

decompress_loop-encode :
    (rounds fuel : ℕ) (s : List ℕ) (room : ℕ)
    → length s ≤ fuel
    → length (encode fuel s) ≤ rounds
    → length s ≤ room
    → ◌≡◌ {A = List ℕ × Bool} (decompress_loop rounds (encode fuel s) room) (s, true)
unfolding encode
decompress_loop-encode rounds fuel [] room h r f =
    rw (encode_nil fuel) (decompress_loop_nil rounds room)
decompress_loop-encode rounds zero (c ∷ s) room h r f = absurd (omega arith)
decompress_loop-encode zero (suc fuel) (c ∷ s) room h r f = absurd (
    omega (
      arith,
      packet-size c s,
      length-append (packet c s).0 (encode fuel (drop (packet c s).1 (c ∷ s))),
    ))
decompress_loop-encode (suc rounds) (suc fuel) (c ∷ s) room h r f =
    let rest = drop (packet c s).1 (c ∷ s) in
    let bounds = packet-bounds c s in
    let left = length-drop (packet c s).1 (c ∷ s) in
    let size = length-append (packet c s).0 (encode fuel rest) in
    let more =
      decompress_loop-encode rounds fuel rest (room - (packet c s).1) (omega (arith, left, bounds))
        (omega (arith, size, packet-size c s)) (omega (arith, left, bounds)) in
    decode-packet rounds c s (encode fuel rest) room (omega (arith, bounds))
    ∙ rw more (ap (λ t. (t, true)) (take-append-drop (packet c s).1 (c ∷ s)))

-- With room for the input, one byte more, and one for every 128 bytes, compression succeeds; and
-- what it has written is decompressed to the input, into any buffer that the input fits.
pub rle_decompress-rle_compress :
    (src dst back : List ℕ)
    → length src + length src / 128 + 1 ≤ length dst
    → length src ≤ length back
    → let (dst', size) = rle_compress src dst in
      (size ≤ length src + length src / 128 + 1)
      × (◌≡◌ {A = List ℕ × ℕ}
          (rle_decompress (take size dst') back)
          (src ++ drop (length src) back, length src))
unfolding rle_compress rle_decompress
rle_decompress-rle_compress src dst back h r =
    let code = encode (length src) src in
    let size = length-encode src in
    let done = compress_loop-encode (length src) src (length dst) (omega (arith, size)) in
    rw (done, take-append_self code (drop (length code) dst))
      (
        size,
        rw
            (decompress_loop-encode (length code) (length src) src (length back) (omega arith)
              (omega arith) r)
            refl,
      )
