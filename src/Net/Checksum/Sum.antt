-- ===== src/Net/Checksum/Sum.antt =====
-- Net/Checksum: sums of 16-bit words, and the two loops that build them.
use onyx_kernel.Prelude.{
  ℕ, zero, suc, ◌+◌, ◌-◌, ◌*◌, ◌/◌, ◌%◌, ◌^◌, ◌<◌, ◌≡◌, refl, ap, List, [], ◌∷◌, length, get_or,
  drop, drop_of_length-le, ◌==◌, if◌then◌else◌, arith,
}
use onyx_kernel.Net.Checksum.{
  add_u32, raw_sum, fold_loop, fold, pseudo_sum, pseudo_checksum, tcp_sum, tcp_checksum,
}

-- The words of the data, as an unbounded sum.
abbrev pub word_sum : List ℕ → ℕ
word_sum [] = 0
word_sum (b ∷ []) = 256 * b
word_sum (b ∷ c ∷ bytes) = 256 * b + c + word_sum bytes

pub raw_sum_lem :
    (bytes : List ℕ) (sum : ℕ) → sum < 2 ^ 32 → raw_sum bytes sum ≡ (sum + word_sum bytes) % 2 ^ 32
unfolding raw_sum
raw_sum_lem [] sum h = omega (arith, h)
raw_sum_lem (b ∷ []) sum h = refl
raw_sum_lem (b ∷ c ∷ bytes) sum h =
    omega (arith, raw_sum_lem bytes (add_u32 sum (256 * b + c)) (omega arith))

-- The folded sum is the sum modulo 2 ^ 16 - 1, below 2 ^ 16, and not zero for a sum that is not.
pub fold_loop_lem :
    (s : ℕ)
    → s < 2 ^ 32
    → (fold_loop 3 s < 2 ^ 16) × (fold_loop 3 s % 65535 ≡ s % 65535) × (0 < s → 0 < fold_loop 3 s)
unfolding fold_loop
fold_loop_lem s h = (ground arith, ground arith, λ p. ground (arith, p))

word_step :
    (i : ℕ) (segment : List ℕ)
    → i < length segment
    → word_sum (drop i segment)
      ≡ 256 * get_or segment i 0 + get_or segment (i + 1) 0 + word_sum (drop (i + 2) segment)
word_step i [] h = absurd (omega arith)
word_step zero (b ∷ []) h = omega arith
word_step zero (b ∷ c ∷ segment) h = refl
word_step (suc i) (b ∷ segment) h =
    let one : suc i + 1 ≡ suc (i + 1) = omega arith in
    let two : suc i + 2 ≡ suc (i + 2) = omega arith in
    rw (one, two) (word_step i segment (omega arith))

-- The index loop reads the words of what is left.
tcp_sum_lem :
    (n i : ℕ) (segment : List ℕ) (sum : ℕ)
    → (length segment - i + 1) / 2 ≡ n
    → sum < 2 ^ 32
    → tcp_sum n i segment sum ≡ (sum + word_sum (drop i segment)) % 2 ^ 32
unfolding tcp_sum
tcp_sum_lem zero i segment sum e h =
    let past : drop i segment ≡ [] = drop_of_length-le i segment (omega (arith, e)) in
    rw past (omega (arith, h))
tcp_sum_lem (suc n) i segment sum e h = omega (
  arith,
  word_step i segment (omega (arith, e)),
  tcp_sum_lem n (i + 2) segment (add_u32 sum (256 * get_or segment i 0 + get_or segment (i + 1) 0))
      (omega (arith, e)) (omega arith),
)

-- The checksum of TCP is the transport checksum for protocol 6.
pub tcp_checksum_lem :
    (src_ip dst_ip segment : List ℕ)
    → tcp_checksum src_ip dst_ip segment ≡ pseudo_checksum src_ip dst_ip 6 segment
unfolding tcp_checksum pseudo_checksum
tcp_checksum_lem src_ip dst_ip segment =
    let n = length segment in
    let rounds : (n - 0 + 1) / 2 ≡ (n + (if n % 2 == 0 then 0 else 1)) / 2 = ground arith in
    let head = pseudo_sum src_ip dst_ip 6 n in
    let sums : tcp_sum ((n + (if n % 2 == 0 then 0 else 1)) / 2) 0 segment head
        ≡ add_u32 head (raw_sum segment 0) =
      omega (
        arith,
        tcp_sum_lem ((n + (if n % 2 == 0 then 0 else 1)) / 2) 0 segment head rounds (omega arith),
        raw_sum_lem segment 0 (omega arith),
      ) in
    ap fold sums
