-- ===== src/Core/Crypto/Sha256.antt =====
-- core/src/crypto/sha256.rs. Words are u32 values, and a word's operations wrap at 2 ^ 32.
pub mod Stream
pub mod Digest
use Prim.Native.Nat.{bit_and, bit_or, bit_xor}
use onyx_kernel.Prelude.{
  ℕ, zero, suc, ◌+◌, ◌-◌, ◌*◌, ◌/◌, ◌%◌, ◌^◌, Bool, List, [], ◌∷◌, ◌++◌, length, get_or, set, take,
  drop, replicate, ◌==◌, if◌then◌else◌,
}

abbrev pub word_mod : ℕ
word_mod = 2 ^ 32

k_table : List ℕ
k_table =
    0x428a2f98 ∷ 0x71374491 ∷ 0xb5c0fbcf ∷ 0xe9b5dba5 ∷ 0x3956c25b ∷ 0x59f111f1 ∷ 0x923f82a4
    ∷ 0xab1c5ed5 ∷ 0xd807aa98 ∷ 0x12835b01 ∷ 0x243185be ∷ 0x550c7dc3 ∷ 0x72be5d74 ∷ 0x80deb1fe
    ∷ 0x9bdc06a7 ∷ 0xc19bf174 ∷ 0xe49b69c1 ∷ 0xefbe4786 ∷ 0x0fc19dc6 ∷ 0x240ca1cc ∷ 0x2de92c6f
    ∷ 0x4a7484aa ∷ 0x5cb0a9dc ∷ 0x76f988da ∷ 0x983e5152 ∷ 0xa831c66d ∷ 0xb00327c8 ∷ 0xbf597fc7
    ∷ 0xc6e00bf3 ∷ 0xd5a79147 ∷ 0x06ca6351 ∷ 0x14292967 ∷ 0x27b70a85 ∷ 0x2e1b2138 ∷ 0x4d2c6dfc
    ∷ 0x53380d13 ∷ 0x650a7354 ∷ 0x766a0abb ∷ 0x81c2c92e ∷ 0x92722c85 ∷ 0xa2bfe8a1 ∷ 0xa81a664b
    ∷ 0xc24b8b70 ∷ 0xc76c51a3 ∷ 0xd192e819 ∷ 0xd6990624 ∷ 0xf40e3585 ∷ 0x106aa070 ∷ 0x19a4c116
    ∷ 0x1e376c08 ∷ 0x2748774c ∷ 0x34b0bcb5 ∷ 0x391c0cb3 ∷ 0x4ed8aa4a ∷ 0x5b9cca4f ∷ 0x682e6ff3
    ∷ 0x748f82ee ∷ 0x78a5636f ∷ 0x84c87814 ∷ 0x8cc70208 ∷ 0x90befffa ∷ 0xa4506ceb ∷ 0xbef9a3f7
    ∷ 0xc67178f2 ∷ []

-- `wrapping_add`
add_word : ℕ → ℕ → ℕ
add_word x y = (x + y) % word_mod

-- For `0 < n < 32`, as in every call.
rotr : ℕ → ℕ → ℕ
rotr x n = bit_or (x / 2 ^ n) (x * 2 ^ (32 - n) % word_mod)

not_word : ℕ → ℕ
not_word x = word_mod - 1 - x

ch : ℕ → ℕ → ℕ → ℕ
unfolding not_word
ch x y z = bit_xor (bit_and x y) (bit_and (not_word x) z)

maj : ℕ → ℕ → ℕ → ℕ
maj x y z = bit_xor (bit_xor (bit_and x y) (bit_and x z)) (bit_and y z)

-- The source's `SIG0` and `SIG1`.
big_sigma0 : ℕ → ℕ
unfolding rotr
big_sigma0 x = bit_xor (bit_xor (rotr x 2) (rotr x 13)) (rotr x 22)

big_sigma1 : ℕ → ℕ
unfolding rotr
big_sigma1 x = bit_xor (bit_xor (rotr x 6) (rotr x 11)) (rotr x 25)

sigma0 : ℕ → ℕ
unfolding rotr
sigma0 x = bit_xor (bit_xor (rotr x 7) (rotr x 18)) (x / 2 ^ 3)

sigma1 : ℕ → ℕ
unfolding rotr
sigma1 x = bit_xor (bit_xor (rotr x 17) (rotr x 19)) (x / 2 ^ 10)

-- The eight words `a` to `h`.
pub record Words : Type 0 where
  pub a : ℕ
  pub b : ℕ
  pub c : ℕ
  pub d : ℕ
  pub e : ℕ
  pub f : ℕ
  pub g : ℕ
  pub h : ℕ

-- `u32::from_be_bytes` at the index `i`.
be_word : List ℕ → ℕ → ℕ
be_word block i =
    2 ^ 24 * get_or block i 0
    + 2 ^ 16 * get_or block (i + 1) 0
    + 2 ^ 8 * get_or block (i + 2) 0
    + get_or block (i + 3) 0

-- The two loops that fill `w`, at `t`, with `n` rounds left. `w` holds the words before `t`.
load_words : ℕ → ℕ → List ℕ → List ℕ → List ℕ
unfolding be_word
load_words zero t block w = w
load_words (suc n) t block w = load_words n (t + 1) block (w ++ be_word block (t * 4) ∷ [])

extend_words : ℕ → ℕ → List ℕ → List ℕ
unfolding sigma0 sigma1 add_word
extend_words zero t w = w
extend_words (suc n) t w =
    let s0 = sigma0 (get_or w (t - 15) 0) in
    let s1 = sigma1 (get_or w (t - 2) 0) in
    extend_words n (t + 1)
      (w ++ add_word (add_word (add_word s1 (get_or w (t - 7) 0)) s0) (get_or w (t - 16) 0) ∷ [])

-- The loop over the rounds, at `t`.
rounds : ℕ → ℕ → List ℕ → Words → Words
unfolding ch maj big_sigma0 big_sigma1 add_word k_table
rounds zero t w s = s
rounds (suc n) t w s =
    let t1 =
      add_word
        (add_word (add_word (add_word s.h (big_sigma1 s.e)) (ch s.e s.f s.g)) (get_or k_table t 0))
        (get_or w t 0) in
    let t2 = add_word (big_sigma0 s.a) (maj s.a s.b s.c) in
    rounds n (t + 1) w (record {
      a = add_word t1 t2;
      b = s.a;
      c = s.b;
      d = s.c;
      e = add_word s.d t1;
      f = s.e;
      g = s.f;
      h = s.g;
    })

unfoldable pub sha256_compress : Words → List ℕ → Words
unfolding load_words extend_words rounds add_word
sha256_compress s block =
    let r = rounds 64 0 (extend_words 48 16 (load_words 16 0 block [])) s in
    record {
      a = add_word s.a r.a;
      b = add_word s.b r.b;
      c = add_word s.c r.c;
      d = add_word s.d r.d;
      e = add_word s.e r.e;
      f = add_word s.f r.f;
      g = add_word s.g r.g;
      h = add_word s.h r.h;
    }

pub record Sha256State : Type 0 where
  pub state : Words
  pub buf : List ℕ
  pub buf_len : ℕ
  pub total_len : ℕ

abbrev pub initial_words : Words
initial_words = record {
  a = 0x6a09e667;
  b = 0xbb67ae85;
  c = 0x3c6ef372;
  d = 0xa54ff53a;
  e = 0x510e527f;
  f = 0x9b05688c;
  g = 0x1f83d9ab;
  h = 0x5be0cd19;
}

unfoldable pub sha256_init : Sha256State
sha256_init = record { state = initial_words; buf = replicate 64 0; buf_len = 0; total_len = 0 }

-- One byte into the buffer.
abbrev pub put_byte : Sha256State → ℕ → Sha256State
put_byte s byte = record s { buf = set s.buf s.buf_len byte; buf_len = s.buf_len + 1 }

-- A full buffer is compressed.
unfoldable pub flush : Sha256State → Sha256State
flush s =
    if s.buf_len == 64 then record s { state = sha256_compress s.state s.buf; buf_len = 0 } else s

unfoldable pub sha256_update : Sha256State → List ℕ → Sha256State
unfolding flush
sha256_update s [] = s
sha256_update s (byte ∷ bytes) =
    let t = put_byte s byte in
    sha256_update (flush (record t { total_len = (s.total_len + 1) % 2 ^ 64 })) bytes

-- The loop of the padding, on fuel: it runs 63 rounds at most.
pub pad_loop : ℕ → Sha256State → Sha256State
unfolding flush
pad_loop zero s = s
pad_loop (suc fuel) s =
    let rest = pad_loop fuel (put_byte (flush s) 0) in if s.buf_len % 64 == 56 then s else rest

-- `u64::to_be_bytes` and `u32::to_be_bytes`
abbrev pub be_bytes : ℕ → ℕ → List ℕ
be_bytes zero x = []
be_bytes (suc n) x = x / 256 ^ n % 256 ∷ be_bytes n x

abbrev pub digest : Words → List ℕ
digest s =
    be_bytes 4 s.a
    ++ (be_bytes 4 s.b
        ++ (be_bytes 4 s.c
            ++ (be_bytes 4 s.d
                ++ (be_bytes 4 s.e ++ (be_bytes 4 s.f ++ (be_bytes 4 s.g ++ be_bytes 4 s.h))))))

unfoldable pub sha256_final : Sha256State → List ℕ
unfolding pad_loop
sha256_final s =
    let bit_len = s.total_len * 8 % 2 ^ 64 in
    let t = pad_loop 64 (put_byte s 0x80) in
    digest (sha256_compress t.state (take 56 t.buf ++ be_bytes 8 bit_len))

unfoldable pub sha256 : List ℕ → List ℕ
unfolding sha256_init sha256_update sha256_final
sha256 bytes = sha256_final (sha256_update sha256_init bytes)
