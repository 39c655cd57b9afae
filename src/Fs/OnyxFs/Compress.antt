-- ===== src/Fs/OnyxFs/Compress.antt =====
-- kernel/src/fs/onyxfs/compress.rs: the run-length code of the snapshots. On a byte, `tag & 0x80 != 0`
-- is `128 ≤ tag`, `tag & 0x7F` is `tag % 128`, and `0x80 | n` is `128 + n` for `n < 128`. A loop
-- returns the bytes that it has written to `dst` from `out` on, and whether it ended without an
-- overflow; `room` is `dst.len() - out`.
pub mod Encode
pub mod Decode
pub mod Bound
pub mod Roundtrip
use onyx_kernel.Prelude.{
  ℕ, zero, suc, ◌+◌, ◌-◌, ◌%◌, Bool, true, false, ◌||◌, List, [], ◌∷◌, ◌++◌, length, take, drop,
  replicate, get_or, max, ltb, leb, ◌==◌, if◌then◌else◌,
}

-- How many of the first `limit` bytes equal `cur`, up to the first that does not.
unfoldable pub count_run : ℕ → ℕ → List ℕ → ℕ
count_run cur zero s = 0
count_run cur (suc limit) [] = 0
count_run cur (suc limit) (x ∷ s) =
    let rest = count_run cur limit s in if x == cur then suc rest else 0

-- The loop that collects literal bytes, up to a run of three.
unfoldable pub literal : ℕ → List ℕ → ℕ
literal zero s = 0
literal (suc limit) [] = 0
literal (suc limit) (b ∷ s) =
    let rest = literal limit s in if leb 3 (count_run b 3 (b ∷ s)) then 0 else suc rest

-- The packet for the bytes `cur ∷ rest`, and how many of them it is for.
unfoldable pub packet : ℕ → List ℕ → List ℕ × ℕ
packet cur rest =
    let run = 1 + count_run cur 127 rest in
    let len = max 1 (literal 128 (cur ∷ rest)) in
    if leb 3 run
    then ((128 + (run - 1)) ∷ cur ∷ [], run)
    else ((len - 1) ∷ take len (cur ∷ rest), len)

pub compress_loop : ℕ → List ℕ → ℕ → List ℕ × Bool
unfolding packet
compress_loop zero src room = ([], true)
compress_loop (suc fuel) [] room = ([], true)
compress_loop (suc fuel) (cur ∷ rest) room =
    let (p, len) = packet cur rest in
    let (w, fine) = compress_loop fuel (drop len (cur ∷ rest)) (room - length p) in
    if ltb room (length p) then ([], false) else (p ++ w, fine)

-- The new content of `dst`, and the size. Each round consumes a byte of `src` at least.
unfoldable pub rle_compress : List ℕ → List ℕ → List ℕ × ℕ
unfolding compress_loop
rle_compress src dst =
    let (w, fine) = compress_loop (length src) src (length dst) in
    (w ++ drop (length w) dst, if fine then length w else 0)

pub decompress_loop : ℕ → List ℕ → ℕ → List ℕ × Bool
decompress_loop zero src room = ([], true)
decompress_loop (suc fuel) [] room = ([], true)
decompress_loop (suc fuel) (tag ∷ src) room =
    let count = tag % 128 + 1 in
    let (w, fine) = decompress_loop fuel (drop 1 src) (room - count) in
    let (w', fine') = decompress_loop fuel (drop (tag + 1) src) (room - (tag + 1)) in
    if room == 0
    then ([], true)
    else if leb 128 tag
    then if length src == 0 || ltb room count
      then ([], false)
      else (replicate count (get_or src 0 0) ++ w, fine)
    else if ltb (length src) (tag + 1) || ltb room (tag + 1)
    then ([], false)
    else (take (tag + 1) src ++ w', fine')

unfoldable pub rle_decompress : List ℕ → List ℕ → List ℕ × ℕ
unfolding decompress_loop
rle_decompress src dst =
    let (w, fine) = decompress_loop (length src) src (length dst) in
    (w ++ drop (length w) dst, if fine then length w else 0)
