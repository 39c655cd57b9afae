-- ===== src/Core/Crypto/Kdf/Bytes.antt =====
-- Core/Crypto/Kdf: digests as byte lists, and the comparison of byte lists.
use Prim.Native.Nat.{bit_or, bit_xor}
use onyx_kernel.Prelude.Passes
use onyx_kernel.Prelude.{
  IsByte, ℕ, zero, suc, ◌*◌, ◌%◌, ◌^◌, ◌<◌, ◌≡◌, ◌↔◌, refl, ap₂, subst, List, [], ◌∷◌, ◌++◌, length,
  take, All, Bool, true, ◌&&◌, not, ltb, ◌==◌, if◌then◌else◌, arith,
}
use onyx_kernel.Core.Crypto.Sha256.{
  Words, be_bytes, digest, sha256, sha256_init, sha256_update, sha256_final, sha256_compress,
  pad_loop, put_byte,
}
use onyx_kernel.Core.Crypto.Kdf.{
  kdf_rounds, kdf_iters, hash_password, legacy_hash_password, diff_loop, const_time_eq,
}

-- What `|` and `^` are to zero and equality, on bytes.
abbrev mask_law : ℕ → ℕ → Bool
mask_law x y =
    ltb (bit_or x y) 256
    && ltb (bit_xor x y) 256
    && (if bit_or x y == 0 then (x == 0) && (y == 0) else not ((x == 0) && (y == 0)))
    && (if bit_xor x y == 0 then x == y else not (x == y))

mask_table : Passes.passes (λ x. Passes.passes (λ y. mask_law x y) 256) 256 ≡ true
unfolding Passes.passes
mask_table = refl

module _ (x y : ℕ) (hx : x < 256) (hy : y < 256) where
  mask_true : mask_law x y ≡ true
  mask_true =
      Passes.passes-at (λ y. mask_law x y) hy
        (Passes.passes-at (λ x. Passes.passes (λ y. mask_law x y) 256) hx mask_table)

  or-IsByte : IsByte (bit_or x y)
  or-IsByte = ground (arith, mask_true)

  xor-IsByte : IsByte (bit_xor x y)
  xor-IsByte = ground (arith, mask_true)

  or_zero : bit_or x y ≡ 0 → (x ≡ 0) × (y ≡ 0)
  or_zero e = ground (arith, mask_true, e)

  xor_zero : bit_xor x y ≡ 0 → x ≡ y
  xor_zero e = ground (arith, mask_true, e)

xor_self : (x : ℕ) → x < 256 → bit_xor x x ≡ 0
xor_self x h = ground (arith, mask_true x x h h)

or_same : bit_or 0 0 ≡ 0
or_same = refl

diff_loop-zero :
    (r : ℕ) (a b : List ℕ)
    → IsByte r
    → All IsByte a
    → All IsByte b
    → length a ≡ length b
    → diff_loop r a b ≡ 0
    → (r ≡ 0) × (a ≡ b)
unfolding diff_loop
diff_loop-zero r [] [] hr ha hb l e = (e, refl)
diff_loop-zero r [] (y ∷ b) hr ha hb l e = absurd (omega (arith, l))
diff_loop-zero r (x ∷ a) [] hr ha hb l e = absurd (omega (arith, l))
diff_loop-zero r (x ∷ a) (y ∷ b) hr ha hb l e =
    let seen = bit_xor x y in
    let seen_byte = xor-IsByte x y ha.0 hb.0 in
    let rest =
      diff_loop-zero (bit_or r seen) a b (or-IsByte r seen hr seen_byte) ha.1 hb.1
        (omega (arith, l)) e in
    let clear = or_zero r seen hr seen_byte rest.0 in
    (clear.0, ap₂ (λ z zs. z ∷ zs) (xor_zero x y ha.0 hb.0 clear.1) rest.1)

diff_loop_self : (a : List ℕ) → All IsByte a → diff_loop 0 a a ≡ 0
unfolding diff_loop
diff_loop_self [] h = refl
diff_loop_self (x ∷ a) h = rw (xor_self x h.0, or_same) (diff_loop_self a h.1)

accepted : (a b : List ℕ) → const_time_eq a b ≡ true → (length a ≡ length b) × (diff_loop 0 a b ≡ 0)
unfolding const_time_eq
accepted a b run = (ground arith, ground arith)

-- On lists of bytes, the comparison without early exit is equality.
pub const_time_eq_iff :
    (a b : List ℕ) → All IsByte a → All IsByte b → (const_time_eq a b ≡ true) ↔ (a ≡ b)
unfolding const_time_eq
const_time_eq_iff a b ha hb = (
  (λ run.
      let parts = accepted a b run in (diff_loop-zero 0 a b (omega arith) ha hb parts.0 parts.1).1),
  (λ e. subst (λ t. const_time_eq a t ≡ true) e (ground (arith, diff_loop_self a ha))),
)

-- Digests are 32 bytes.
abbrev pub IsDigest : List ℕ → Type 0
IsDigest s = (length s ≡ 32) × All IsByte s

be_bytes-All : (n x : ℕ) → All IsByte (be_bytes n x)
be_bytes-All zero x = tt
be_bytes-All (suc n) x = (omega arith, be_bytes-All n x)

pub All-append : (s t : List ℕ) → All IsByte s → All IsByte t → All IsByte (s ++ t)
All-append [] t h k = k
All-append (b ∷ s) t h k = (h.0, All-append s t h.1 k)

word : (x : ℕ) (t : List ℕ) → All IsByte t → All IsByte (be_bytes 4 x ++ t)
word x t h = All-append (be_bytes 4 x) t (be_bytes-All 4 x) h

digest-IsDigest : (w : Words) → IsDigest (digest w)
digest-IsDigest w =
    let gh = be_bytes 4 w.g ++ be_bytes 4 w.h in
    let fh = be_bytes 4 w.f ++ gh in
    let eh = be_bytes 4 w.e ++ fh in
    let dh = be_bytes 4 w.d ++ eh in
    let ch = be_bytes 4 w.c ++ dh in
    let bh = be_bytes 4 w.b ++ ch in
    (
      refl,
      word w.a bh (
          word w.b ch (
            word w.c dh (
              word w.d eh
                (word w.e fh (word w.f gh (word w.g (be_bytes 4 w.h) (be_bytes-All 4 w.h))))))),
    )

sha256-IsDigest : (m : List ℕ) → IsDigest (sha256 m)
unfolding sha256 sha256_final
sha256-IsDigest m =
    let s = sha256_update sha256_init m in
    let t = pad_loop 64 (put_byte s 0x80) in
    digest-IsDigest
      (sha256_compress t.state (take 56 t.buf ++ be_bytes 8 (s.total_len * 8 % 2 ^ 64)))

kdf_rounds-IsDigest : (n : ℕ) (salt h : List ℕ) → IsDigest h → IsDigest (kdf_rounds n salt h)
unfolding kdf_rounds
kdf_rounds-IsDigest zero salt h v = v
kdf_rounds-IsDigest (suc n) salt h v =
    kdf_rounds-IsDigest n salt (sha256 (h ++ salt)) (sha256-IsDigest (h ++ salt))

pub legacy_hash_password-IsDigest :
    (password salt : List ℕ) → IsDigest (legacy_hash_password password salt)
unfolding legacy_hash_password
legacy_hash_password-IsDigest password salt = sha256-IsDigest (take 72 (take 72 password ++ salt))

pub hash_password-IsDigest : (password salt : List ℕ) → IsDigest (hash_password password salt)
unfolding hash_password
hash_password-IsDigest password salt =
    kdf_rounds-IsDigest kdf_iters salt (sha256 password) (sha256-IsDigest password)
