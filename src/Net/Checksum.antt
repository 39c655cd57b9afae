-- ===== src/Net/Checksum.antt =====
-- kernel/src/net/checksum.rs, and the checksum of net/tcp/conn.rs. Sums are u32 values.
pub mod Sum
pub mod Verify
use onyx_kernel.Prelude.{
  ℕ, zero, suc, ◌+◌, ◌-◌, ◌*◌, ◌/◌, ◌%◌, ◌^◌, Bool, ◌&&◌, List, [], ◌∷◌, length, get_or, leb, ◌==◌,
  if◌then◌else◌,
}

-- `wrapping_add`
abbrev pub add_u32 : ℕ → ℕ → ℕ
add_u32 x y = (x + y) % 2 ^ 32

-- The loop of `raw_sum`, and the odd byte behind it.
unfoldable pub raw_sum : List ℕ → ℕ → ℕ
raw_sum [] sum = sum
raw_sum (b ∷ []) sum = add_u32 sum (256 * b)
raw_sum (b ∷ c ∷ bytes) sum = raw_sum bytes (add_u32 sum (256 * b + c))

-- The loop of `fold`, on fuel.
unfoldable pub fold_loop : ℕ → ℕ → ℕ
fold_loop zero sum = sum
fold_loop (suc fuel) sum =
    let rest = fold_loop fuel (sum % 2 ^ 16 + sum / 2 ^ 16) in
    if sum / 2 ^ 16 == 0 then sum else rest

-- The complement of the folded sum, a u16.
unfoldable pub fold : ℕ → ℕ
fold sum = 2 ^ 16 - 1 - fold_loop 3 sum % 2 ^ 16

unfoldable pub checksum : List ℕ → ℕ
checksum bytes = fold (raw_sum bytes 0)

-- The two words of an IPv4 address, added to the sum.
abbrev pub add_ip : ℕ → List ℕ → ℕ
add_ip sum ip =
    add_u32 (add_u32 sum (256 * get_or ip 0 0 + get_or ip 1 0))
      (256 * get_or ip 2 0 + get_or ip 3 0)

-- The sum of the pseudo header.
abbrev pub pseudo_sum : List ℕ → List ℕ → ℕ → ℕ → ℕ
pseudo_sum src_ip dst_ip proto len =
    add_u32 (add_u32 (add_ip (add_ip 0 src_ip) dst_ip) proto) (len % 2 ^ 32)

unfoldable pub pseudo_checksum : List ℕ → List ℕ → ℕ → List ℕ → ℕ
pseudo_checksum src_ip dst_ip proto segment =
    fold (add_u32 (pseudo_sum src_ip dst_ip proto (length segment)) (raw_sum segment 0))

-- The loop of `tcp_checksum` at the index `i`, with `n` rounds left. A byte past the end is 0.
unfoldable pub tcp_sum : ℕ → ℕ → List ℕ → ℕ → ℕ
tcp_sum zero i segment sum = sum
tcp_sum (suc n) i segment sum =
    tcp_sum n (i + 2) segment (add_u32 sum (256 * get_or segment i 0 + get_or segment (i + 1) 0))

unfoldable pub tcp_checksum : List ℕ → List ℕ → List ℕ → ℕ
tcp_checksum src_ip dst_ip segment =
    let pad = if length segment % 2 == 0 then 0 else 1 in
    fold
      (tcp_sum ((length segment + pad) / 2) 0 segment (pseudo_sum src_ip dst_ip 6 (length segment)))

abbrev pub tcp_hlen : ℕ
tcp_hlen = 20

unfoldable pub tcp_checksum_ok : List ℕ → List ℕ → List ℕ → Bool
tcp_checksum_ok src_ip dst_ip segment =
    leb tcp_hlen (length segment) && (tcp_checksum src_ip dst_ip segment == 0)
