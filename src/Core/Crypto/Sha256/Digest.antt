-- ===== src/Core/Crypto/Sha256/Digest.antt =====
-- The hash of a whole message, against the padding of FIPS 180-4 and the blocks of the padded message.
use onyx_kernel.Prelude.{
  ℕ, zero, suc, ◌-◌, ◌*◌, ◌/◌, ◌%◌, ◌^◌, ◌≤◌, ◌≡◌, refl, sym, ap, ap₂, ◌∙◌, subst, List, [], ◌∷◌,
  ◌++◌, append_assoc, length, length-append, length-replicate, length-drop, take, drop, replicate,
  take_of_length-le, drop-append_le, arith,
}
use onyx_kernel.Core.Crypto.Sha256.{
  Sha256State, initial_words, sha256_init, put_byte, sha256_compress, sha256_update, pad_loop,
  sha256_final, sha256, be_bytes, digest,
}
use onyx_kernel.Core.Crypto.Sha256.Stream.{
  hash_blocks, hash_blocks-suc, hash_blocks-append, HasRead, IsReady, sha256_init-IsReady,
  put_byte-HasRead, sha256_update-IsReady, pad_loop-HasRead,
}

-- The zero bytes of the padding of a message of `n` bytes.
abbrev pub pad_zeros : ℕ → ℕ
pad_zeros n = (119 - n % 64) % 64

-- A one bit, zeros, and the length in bits modulo 2 ^ 64.
abbrev pub pad : List ℕ → List ℕ
pad m = (m ++ 0x80 ∷ replicate (pad_zeros (length m)) 0) ++ be_bytes 8 (length m * 8 % 2 ^ 64)

length-be_bytes : (n x : ℕ) → length (be_bytes n x) ≡ n
length-be_bytes zero x = refl
length-be_bytes (suc n) x = ap suc (length-be_bytes n x)

pub length-pad : (m : List ℕ) → length (pad m) % 64 ≡ 0
length-pad m = omega (
  arith,
  length-append (m ++ 0x80 ∷ replicate (pad_zeros (length m)) 0)
      (be_bytes 8 (length m * 8 % 2 ^ 64)),
  length-append m (0x80 ∷ replicate (pad_zeros (length m)) 0),
  length-replicate {A = ℕ} (pad_zeros (length m)) 0,
  length-be_bytes 8 (length m * 8 % 2 ^ 64),
)

-- The last block: 56 bytes of the buffer and eight more.
last_block :
    (t : Sha256State) (m tail : List ℕ)
    → HasRead t m
    → t.buf_len ≡ 56
    → length tail ≡ 8
    → sha256_compress t.state (take 56 t.buf ++ tail)
      ≡ hash_blocks (length (m ++ tail) / 64) initial_words (m ++ tail)
last_block t m tail v e l =
    let n = v.blocks in
    let before : 64 * n ≤ length m = omega (arith, v.count) in
    let blocks : length (m ++ tail) / 64 ≡ suc n =
      omega (arith, length-append m tail, v.count, e, l) in
    let rest : take 56 t.buf ++ tail ≡ drop (64 * n) (m ++ tail) =
      ap (λ k. take k t.buf ++ tail) (sym e)
      ∙ ap (λ p. p ++ tail) v.pending
      ∙ sym (drop-append_le (64 * n) m tail before) in
    let short : length (drop (64 * n) (m ++ tail)) ≤ 64 =
      omega (arith, length-drop (64 * n) (m ++ tail), length-append m tail, v.count, e, l) in
    rw blocks (
      ap₂ sha256_compress (v.hashed ∙ sym (hash_blocks-append n initial_words m tail before))
        (rest ∙ sym (take_of_length-le 64 (drop (64 * n) (m ++ tail)) short))
      ∙ sym (hash_blocks-suc n initial_words (m ++ tail)))

-- The streamed hash is the hash of the padded message, block by block; the padded message has a
-- whole number of blocks.
pub sha256_lem :
    (m : List ℕ)
    → (sha256 m ≡ digest (hash_blocks (length (pad m) / 64) initial_words (pad m)))
      × (length (pad m) % 64 ≡ 0)
unfolding sha256 sha256_final
sha256_lem m =
    let s = sha256_update sha256_init m in
    let ready : IsReady s m (length m % 2 ^ 64) =
      sha256_update-IsReady sha256_init [] m sha256_init-IsReady in
    let marked = put_byte s 0x80 in
    let read = put_byte-HasRead s m 0x80 ready.0 ready.1 in
    let padded =
      pad_loop-HasRead 64 (pad_zeros (length m)) marked (m ++ 0x80 ∷ []) read (omega arith)
        (omega (arith, ready.0.count)) (omega arith) (omega arith) in
    let body = m ++ 0x80 ∷ replicate (pad_zeros (length m)) 0 in
    let t = pad_loop 64 marked in
    let whole : HasRead t body =
      subst (λ l. HasRead t l) (append_assoc m (0x80 ∷ []) (replicate (pad_zeros (length m)) 0))
        padded.0 in
    let bits : s.total_len * 8 % 2 ^ 64 ≡ length m * 8 % 2 ^ 64 = omega (arith, ready.2) in
    (
      ap (λ b. digest (sha256_compress t.state (take 56 t.buf ++ be_bytes 8 b))) bits
          ∙ ap digest (last_block t body (be_bytes 8 (length m * 8 % 2 ^ 64)) whole padded.1 refl),
      length-pad m,
    )
