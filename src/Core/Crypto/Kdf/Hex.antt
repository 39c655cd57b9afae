-- ===== src/Core/Crypto/Kdf/Hex.antt =====
-- Core/Crypto/Kdf: the hexadecimal digits of a list of bytes.
use onyx_kernel.Prelude.Passes
use onyx_kernel.Prelude.{
  IsByte, ℕ, suc, ◌+◌, ◌*◌, ◌/◌, ◌%◌, ◌<◌, ◌≡◌, refl, ap₂, List, [], ◌∷◌, ◌++◌, length, All, Bool,
  true, false, ◌&&◌, not, some, get_or, ◌==◌, arith,
}
use onyx_kernel.Core.Crypto.Kdf.{
  hex_chars, hex_pairs, hex_val, decode_pairs, is_ascii_hexdigit, all_hex, position,
}

-- What the digit `n` is.
abbrev digit_law : ℕ → Bool
digit_law n =
    let c = get_or hex_chars n 0 in (hex_val c == n) && is_ascii_hexdigit c && not (c == b'$')

digit_table : Passes.passes digit_law 16 ≡ true
unfolding Passes.passes hex_val
digit_table = refl

split_3 : (a b c : Bool) → (a && b && not c) ≡ true → (a ≡ true) × (b ≡ true) × (c ≡ false)
split_3 true true false h = (refl, refl, refl)
split_3 true true true h = absurd (cc)
split_3 true false c h = absurd (cc)
split_3 false b c h = absurd (cc)

digit_laws :
    (n : ℕ)
    → n < 16
    → (hex_val (get_or hex_chars n 0) ≡ n)
      × (is_ascii_hexdigit (get_or hex_chars n 0) ≡ true)
      × ((get_or hex_chars n 0 == b'$') ≡ false)
digit_laws n h =
    let law : digit_law n ≡ true = Passes.passes-at digit_law h digit_table in
    let c = get_or hex_chars n 0 in
    let read = split_3 (hex_val c == n) (is_ascii_hexdigit c) (c == b'$') law in
    (ground (arith, read.0), read.1, read.2)

module _ (b : ℕ) (h : b < 256) where
  byte_val : 16 * hex_val (get_or hex_chars (b / 16) 0) + hex_val (get_or hex_chars (b % 16) 0) ≡ b
  byte_val =
      omega (arith, (digit_laws (b / 16) (omega arith)).0, (digit_laws (b % 16) (omega arith)).0)

pub length-hex_pairs : (bytes : List ℕ) → length (hex_pairs bytes) ≡ 2 * length bytes
unfolding hex_pairs
length-hex_pairs [] = refl
length-hex_pairs (b ∷ bytes) = omega (arith, length-hex_pairs bytes)

pub decode_pairs-hex_pairs :
    (bytes rest : List ℕ)
    → All IsByte bytes
    → decode_pairs (length bytes) (hex_pairs bytes ++ rest) ≡ bytes
unfolding decode_pairs hex_pairs
decode_pairs-hex_pairs [] rest h = refl
decode_pairs-hex_pairs (b ∷ bytes) rest h =
    ap₂ (λ x xs. x ∷ xs) (byte_val b h.0) (decode_pairs-hex_pairs bytes rest h.1)

both : {p q : Bool} (c : Bool) → (p ≡ true → q ≡ true) → (c && p) ≡ true → (c && q) ≡ true
both true f h = f h
both false f h = absurd (cc)

pub all_hex-append : (s t : List ℕ) → all_hex s ≡ true → all_hex t ≡ true → all_hex (s ++ t) ≡ true
all_hex-append [] t h k = k
all_hex-append (c ∷ s) t h k = both (is_ascii_hexdigit c) (λ e. all_hex-append s t e k) h

pub all_hex-hex_pairs : (bytes : List ℕ) → All IsByte bytes → all_hex (hex_pairs bytes) ≡ true
unfolding hex_pairs
all_hex-hex_pairs [] h = refl
all_hex-hex_pairs (b ∷ bytes) h =
    rw
      (
        (digit_laws (b / 16) (omega arith)).1,
        (digit_laws (b % 16) (omega (arith))).1,
        all_hex-hex_pairs bytes h.1,
      )
      refl

pub position-hex_pairs :
    (bytes rest : List ℕ)
    → All IsByte bytes
    → position b'$' (hex_pairs bytes ++ b'$' ∷ rest) ≡ some (2 * length bytes)
unfolding hex_pairs
position-hex_pairs [] rest h = refl
position-hex_pairs (b ∷ bytes) rest h =
    let double : suc (suc (2 * length bytes)) ≡ 2 * suc (length bytes) = omega arith in
    rw
      (
        (digit_laws (b / 16) (omega arith)).2,
        (digit_laws (b % 16) (omega (arith))).2,
        position-hex_pairs bytes rest h.1,
        double,
      )
      refl
