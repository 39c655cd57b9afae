-- ===== src/Core/Crypto/Sha256/Stream.antt =====
-- The buffer of the hash, and the blocks that have gone through it.
use onyx_kernel.Prelude.{
  ℕ, zero, suc, ◌+◌, ◌*◌, ◌%◌, ◌^◌, ◌≤◌, ◌<◌, ◌≡◌, ◌≢◌, refl, sym, ap, ap₂, ◌∙◌, subst, true, false,
  ◌==◌, ℕ_discrete, List, [], ◌∷◌, ◌++◌, append_assoc, append-nil, length, length-append,
  length-drop, length-set, set, take, drop, replicate, take-set-suc, take_of_length-le,
  drop_of_length-le, take-append_le, drop-append_le, drop-drop, arith,
}
use onyx_kernel.Core.Crypto.Sha256.{
  Words, Sha256State, initial_words, sha256_init, put_byte, flush, sha256_compress, sha256_update,
  pad_loop,
}

-- The first `n` blocks of 64 bytes of a message, one after the other.
unfoldable pub hash_blocks : ℕ → Words → List ℕ → Words
hash_blocks zero s m = s
hash_blocks (suc n) s m = hash_blocks n (sha256_compress s (take 64 m)) (drop 64 m)

pub hash_blocks-append :
    (n : ℕ) (s : Words) (m x : List ℕ)
    → 64 * n ≤ length m
    → hash_blocks n s (m ++ x) ≡ hash_blocks n s m
unfolding hash_blocks
hash_blocks-append zero s m x h = refl
hash_blocks-append (suc n) s m x h =
    rw (take-append_le 64 m x (omega arith), drop-append_le 64 m x (omega arith))
      (hash_blocks-append n (sha256_compress s (take 64 m)) (drop 64 m) x
        (omega (arith, length-drop 64 m)))

next_block : (n : ℕ) → 64 + 64 * n ≡ 64 * suc n
next_block n = omega arith

pub hash_blocks-suc :
    (n : ℕ) (s : Words) (m : List ℕ)
    → hash_blocks (suc n) s m ≡ sha256_compress (hash_blocks n s m) (take 64 (drop (64 * n) m))
unfolding hash_blocks
hash_blocks-suc zero s m = refl
hash_blocks-suc (suc n) s m =
    hash_blocks-suc n (sha256_compress s (take 64 m)) (drop 64 m)
    ∙ ap
        (λ t.
          sha256_compress (hash_blocks n (sha256_compress s (take 64 m)) (drop 64 m)) (take 64 t))
        (drop-drop (64 * n) 64 m ∙ ap (λ k. drop k m) (next_block n))

add-one : (n : ℕ) → n + 1 ≡ suc n
add-one n = omega arith

-- The state `s` has read the message `m`: full blocks are hashed, and the rest is in the buffer.
pub record HasRead (s : Sha256State) (m : List ℕ) : Type 0 where
  pub blocks : ℕ
  pub count : length m ≡ 64 * blocks + s.buf_len
  pub room : length s.buf ≡ 64
  pub filled : s.buf_len ≤ 64
  pub hashed : s.state ≡ hash_blocks blocks initial_words m
  pub pending : take s.buf_len s.buf ≡ drop (64 * blocks) m

pub sha256_init-HasRead : HasRead sha256_init []
unfolding sha256_init hash_blocks
sha256_init-HasRead = record {
  blocks = 0;
  count = refl;
  room = refl;
  filled = omega arith;
  hashed = refl;
  pending = refl;
}

pub put_byte-HasRead :
    (s : Sha256State) (m : List ℕ) (byte : ℕ)
    → HasRead s m
    → s.buf_len < 64
    → HasRead (put_byte s byte) (m ++ byte ∷ [])
put_byte-HasRead s m byte v h = record {
  blocks = v.blocks;
  count = omega (arith, v.count, length-append m (byte ∷ []));
  room = length-set s.buf s.buf_len byte ∙ v.room;
  filled = omega arith;
  hashed =
      v.hashed
      ∙ sym (hash_blocks-append v.blocks initial_words m (byte ∷ []) (omega (arith, v.count)));
  pending =
      ap (λ k. take k (set s.buf s.buf_len byte)) (add-one s.buf_len)
      ∙ take-set-suc s.buf_len s.buf byte (omega (arith, v.room))
      ∙ ap (λ t. t ++ byte ∷ []) v.pending
      ∙ sym (drop-append_le (64 * v.blocks) m (byte ∷ []) (omega (arith, v.count)));
}

abbrev compressed : Sha256State → Sha256State
compressed s = record s { state = sha256_compress s.state s.buf; buf_len = 0 }

compressed-HasRead :
    (s : Sha256State) (m : List ℕ) → HasRead s m → s.buf_len ≡ 64 → HasRead (compressed s) m
compressed-HasRead s m v e =
    let rest : length (drop (64 * v.blocks) m) ≡ 64 =
      omega (arith, length-drop (64 * v.blocks) m, v.count, e) in
    let block : s.buf ≡ drop (64 * v.blocks) m =
      sym (take_of_length-le 64 s.buf (omega (arith, v.room)))
      ∙ ap (λ k. take k s.buf) (sym e)
      ∙ v.pending in
    record {
      blocks = suc v.blocks;
      count = omega (arith, v.count, e);
      room = v.room;
      filled = omega arith;
      hashed =
          ap₂ sha256_compress v.hashed
            (block ∙ sym (take_of_length-le 64 (drop (64 * v.blocks) m) (omega (arith, rest))))
          ∙ sym (hash_blocks-suc v.blocks initial_words m);
      pending = sym (drop_of_length-le (64 * suc v.blocks) m (omega (arith, v.count, e)));
    }

flush_full : (s : Sha256State) → s.buf_len ≡ 64 → flush s ≡ compressed s
unfolding flush
flush_full s e = ground (arith, e)

flush_partial : (s : Sha256State) → s.buf_len ≢ 64 → flush s ≡ s
unfolding flush
flush_partial s n = ground (arith, n)

flush-buf_len : (s : Sha256State) → s.buf_len ≤ 64 → (flush s).buf_len ≡ s.buf_len % 64
unfolding flush
flush-buf_len s h = ground (arith, h)

-- What a state has read, with room for a byte and the length `total`.
abbrev pub IsReady : Sha256State → List ℕ → ℕ → Type 0
IsReady s m total = HasRead s m × (s.buf_len < 64) × (s.total_len ≡ total)

pub flush-IsReady : (s : Sha256State) (m : List ℕ) → HasRead s m → IsReady (flush s) m s.total_len
flush-IsReady s m v = elim (ℕ_discrete s.buf_len 64) [
  | yes e ↦
      subst (λ t. IsReady t m s.total_len) (sym (flush_full s e))
        (compressed-HasRead s m v e, omega arith, refl)
  | no n ↦
      subst (λ t. IsReady t m s.total_len) (sym (flush_partial s n))
        (v, omega (arith, v.filled, n), refl)
]

pub sha256_init-IsReady : IsReady sha256_init [] 0
unfolding sha256_init
sha256_init-IsReady = (sha256_init-HasRead, omega arith, refl)

-- The length is counted modulo 2 ^ 64.
pub sha256_update-IsReady :
    (s : Sha256State) (m bytes : List ℕ)
    → IsReady s m (length m % 2 ^ 64)
    → IsReady (sha256_update s bytes) (m ++ bytes) (length (m ++ bytes) % 2 ^ 64)
unfolding sha256_update
sha256_update-IsReady s m [] v = rw (append-nil m) v
sha256_update-IsReady s m (byte ∷ bytes) v =
    let t = put_byte s byte in
    let u : Sha256State = record t { total_len = (s.total_len + 1) % 2 ^ 64 } in
    let m' = m ++ byte ∷ [] in
    let w = put_byte-HasRead s m byte v.0 v.1 in
    let read : HasRead u m' = record {
      blocks = w.blocks;
      count = w.count;
      room = w.room;
      filled = w.filled;
      hashed = w.hashed;
      pending = w.pending;
    } in
    let total : u.total_len ≡ length m' % 2 ^ 64 =
      omega (arith, v.2, length-append m (byte ∷ [])) in
    let next = flush-IsReady u m' read in
    subst (λ l. IsReady (sha256_update (flush u) bytes) l (length l % 2 ^ 64))
      (append_assoc m (byte ∷ []) bytes)
      (sha256_update-IsReady (flush u) m' bytes (next.0, next.1, next.2 ∙ total))

not_there : (n pads : ℕ) → (n + suc pads) % 64 ≡ 56 → suc pads < 64 → (n % 64 == 56) ≡ false
not_there n pads e z =
    let differ : n % 64 ≢ 56 = λ h. absurd (omega (arith, e, z, h)) in ground (arith, differ)

-- The padding writes `pads` zero bytes, up to the last eight bytes of a block.
pub pad_loop-HasRead :
    (fuel pads : ℕ) (s : Sha256State) (m : List ℕ)
    → HasRead s m
    → 0 < s.buf_len
    → (s.buf_len + pads) % 64 ≡ 56
    → pads < 64
    → pads < fuel
    → HasRead (pad_loop fuel s) (m ++ replicate pads 0)
      × ((pad_loop fuel s).buf_len ≡ 56)
      × ((pad_loop fuel s).total_len ≡ s.total_len)
unfolding pad_loop
pad_loop-HasRead zero pads s m v p e z f = absurd (omega arith)
pad_loop-HasRead (suc fuel) zero s m v p e z f =
    let stop : (s.buf_len % 64 == 56) ≡ true = ground (arith, e) in
    rw (stop, append-nil m) (v, omega (arith, e, p, v.filled), refl)
pad_loop-HasRead (suc fuel) (suc pads) s m v p e z f =
    let more : (s.buf_len % 64 == 56) ≡ false = not_there s.buf_len pads e z in
    let ready = flush-IsReady s m v in
    let len = flush-buf_len s v.filled in
    let t = put_byte (flush s) 0 in
    let next =
      pad_loop-HasRead fuel pads t (m ++ 0 ∷ []) (put_byte-HasRead (flush s) m 0 ready.0 ready.1)
        (omega arith) (omega (arith, e, len)) (omega arith) (omega arith) in
    rw more (
      subst (λ l. HasRead (pad_loop fuel t) l) (append_assoc m (0 ∷ []) (replicate pads 0)) next.0,
      next.1,
      next.2 ∙ ready.2,
    )
