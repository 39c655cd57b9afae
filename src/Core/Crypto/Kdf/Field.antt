-- ===== src/Core/Crypto/Kdf/Field.antt =====
-- Core/Crypto/Kdf: a formatted field, parsed again and compared with a password.
use onyx_kernel.Prelude.{
  IsByte, ℕ, ◌+◌, ◌*◌, ◌/◌, ◌≤◌, ◌≡◌, ◌≢◌, ◌↔◌, Bool, refl, sym, ap, ap₂, ◌∙◌, subst, List, [], ◌∷◌,
  ◌++◌, append_assoc, append-nil, length, length-append, All, true, false, some, min, take, drop,
  take_of_length-le, take-append_self, drop-append_self, replicate, ltb, leb, arith,
}
use onyx_kernel.Core.Crypto.Kdf.{
  hex_pairs, decode_pairs, bytes_to_hex, hex_decode_8, all_hex, position, slice_64, ShadowField,
  parse_shadow_field, format_shadow_field, hash_password, legacy_hash_password, const_time_eq,
  classify_password, HashScheme,
}
use onyx_kernel.Core.Crypto.Kdf.Hex.{
  length-hex_pairs, decode_pairs-hex_pairs, all_hex-append, all_hex-hex_pairs, position-hex_pairs,
}
use onyx_kernel.Core.Crypto.Kdf.Bytes.{
  IsDigest, const_time_eq_iff, hash_password-IsDigest, legacy_hash_password-IsDigest,
}

-- A salt is eight bytes.
abbrev pub IsSalt : List ℕ → Type 0
IsSalt s = (length s ≡ 8) × All IsByte s

-- The text of a field, with `tail` behind it.
abbrev field_text : List ℕ → List ℕ → List ℕ → List ℕ
field_text salt_hex hash_hex tail = b'$' ∷ b'5' ∷ b'$' ∷ (salt_hex ++ b'$' ∷ (hash_hex ++ tail))

take_exactly {ℓ} : {A : Type ℓ} (n : ℕ) (xs ys : List A) → length xs ≡ n → take n (xs ++ ys) ≡ xs
take_exactly n xs ys e = subst (λ k. take k (xs ++ ys) ≡ xs) e (take-append_self xs ys)

drop_exactly {ℓ} : {A : Type ℓ} (n : ℕ) (xs ys : List A) → length xs ≡ n → drop n (xs ++ ys) ≡ ys
drop_exactly n xs ys e = subst (λ k. drop k (xs ++ ys) ≡ ys) e (drop-append_self xs ys)

module _ (s h tail : List ℕ) (ls : length s ≡ 16) (lh : length h ≡ 64) where
  rest_length : length (s ++ b'$' ∷ (h ++ tail)) ≡ 81 + length tail
  rest_length = omega (arith, length-append s (b'$' ∷ (h ++ tail)), length-append h tail, ls, lh)

  skip_salt : drop 17 (s ++ b'$' ∷ (h ++ tail)) ≡ h ++ tail
  skip_salt =
      ap (drop 17) (sym (append_assoc s (b'$' ∷ []) (h ++ tail)))
      ∙ drop_exactly 17 (s ++ b'$' ∷ []) (h ++ tail)
          (omega (arith, length-append s (b'$' ∷ []), ls))

  slice_hash : slice_64 (s ++ b'$' ∷ (h ++ tail)) 17 ≡ some h
  slice_hash =
      let long : leb 81 (length (s ++ b'$' ∷ (h ++ tail))) ≡ true = ground (arith, rest_length) in
      rw (long, skip_salt, take_exactly 64 h tail lh) refl

  long_enough : ltb (length (field_text s h tail)) 84 ≡ false
  long_enough = ground (arith, rest_length)

  parse_text :
      position b'$' (s ++ b'$' ∷ (h ++ tail)) ≡ some 16
      → all_hex s ≡ true
      → all_hex h ≡ true
      → parse_shadow_field (field_text s h tail)
        ≡ some (record { salt = hex_decode_8 s; hash = decode_pairs 32 h })
  unfolding parse_shadow_field
  parse_text e hs hh =
      rw
        (
          long_enough,
          e,
          slice_hash,
          take_exactly 16 s (b'$' ∷ (h ++ tail)) ls,
          all_hex-append s h hs hh,
        )
        refl

hex_salt : (salt : List ℕ) → IsSalt salt → take 16 (bytes_to_hex salt) ≡ hex_pairs salt
unfolding bytes_to_hex
hex_salt salt v =
    let size : min (length salt) 32 ≡ 8 = omega (arith, v.0) in
    rw (size, take_of_length-le 8 salt (omega (arith, v.0)))
      (take_exactly 16 (hex_pairs salt) (replicate 48 0)
        (omega (arith, length-hex_pairs salt, v.0)))

hex_hash : (hash : List ℕ) → IsDigest hash → bytes_to_hex hash ≡ hex_pairs hash
unfolding bytes_to_hex
hex_hash hash v =
    let size : min (length hash) 32 ≡ 32 = omega (arith, v.0) in
    rw (size, take_of_length-le 32 hash (omega (arith, v.0))) (append-nil (hex_pairs hash))

decode_exactly :
    (n : ℕ) (bytes : List ℕ)
    → (length bytes ≡ n) × All IsByte bytes
    → decode_pairs n (hex_pairs bytes) ≡ bytes
decode_exactly n bytes v =
    subst (λ k. decode_pairs k (hex_pairs bytes) ≡ bytes) v.0
      (ap (decode_pairs (length bytes)) (sym (append-nil (hex_pairs bytes)))
        ∙ decode_pairs-hex_pairs bytes [] v.1)

decode_salt : (salt : List ℕ) → IsSalt salt → hex_decode_8 (hex_pairs salt) ≡ salt
unfolding hex_decode_8
decode_salt salt v =
    let size : min (length (hex_pairs salt) / 2) 8 ≡ 8 =
      omega (arith, length-hex_pairs salt, v.0) in
    rw size (append-nil (decode_pairs 8 (hex_pairs salt)) ∙ decode_exactly 8 salt v)

format_text :
    (salt hash buf : List ℕ)
    → IsSalt salt
    → IsDigest hash
    → 84 ≤ length buf
    → format_shadow_field salt hash buf
      ≡ (field_text (hex_pairs salt) (hex_pairs hash) (drop 84 buf), 84)
unfolding format_shadow_field
format_text salt hash buf vs vh room =
    let fits : ltb (length buf) 84 ≡ false = ground (arith, room) in
    rw
      (
        fits,
        hex_salt salt vs,
        hex_hash hash vh,
        append_assoc (hex_pairs salt) (b'$' ∷ hex_pairs hash) (drop 84 buf),
      )
      refl

-- A field written into a buffer of at least 84 bytes takes 84 of them, and parsing the buffer gives
-- the salt and the hash again, whatever lies behind the field.
pub parse_shadow_field-format_shadow_field :
    (salt hash buf : List ℕ)
    → IsSalt salt
    → IsDigest hash
    → 84 ≤ length buf
    → ((format_shadow_field salt hash buf).1 ≡ 84)
      × (parse_shadow_field (format_shadow_field salt hash buf).0
          ≡ some (record { salt = salt; hash = hash }))
parse_shadow_field-format_shadow_field salt hash buf vs vh room =
    let e = format_text salt hash buf vs vh room in
    let found : position b'$' (hex_pairs salt ++ b'$' ∷ (hex_pairs hash ++ drop 84 buf)) ≡ some 16 =
      position-hex_pairs salt (hex_pairs hash ++ drop 84 buf) vs.1 ∙ ap (λ n. some (2 * n)) vs.0 in
    (
      ap (λ p. p.1) e,
      ap (λ p. parse_shadow_field p.0) e
          ∙ parse_text (hex_pairs salt) (hex_pairs hash) (drop 84 buf)
              (omega (arith, length-hex_pairs salt, vs.0))
              (omega (arith, length-hex_pairs hash, vh.0)) found (all_hex-hex_pairs salt vs.1)
              (all_hex-hex_pairs hash vh.1)
          ∙ ap₂ (λ a b. some (record { salt = a; hash = b })) (decode_salt salt vs)
              (decode_exactly 32 hash vh),
    )

-- What a candidate is classified as, by its two hashes.
classify_cases :
    (password : List ℕ) (field : ShadowField)
    → ((classify_password password field ≡ HashScheme.iterated)
        ↔ (const_time_eq (hash_password password field.salt) field.hash ≡ true))
      × ((classify_password password field ≡ HashScheme.legacy) ↔ (
          (const_time_eq (hash_password password field.salt) field.hash ≡ false)
          × (const_time_eq (legacy_hash_password password field.salt) field.hash ≡ true)))
unfolding classify_password
classify_cases password field = ground arith

not_equal : (a b : List ℕ) (t : Bool) → (t ≡ true) ↔ (a ≡ b) → (t ≡ false) ↔ (a ≢ b)
not_equal a b true v = (λ e. absurd (ground (arith, e)), λ n. absurd (n (v.0 refl)))
not_equal a b false v = (λ e k. let clash = v.1 k in ground (arith, clash), λ n. refl)

-- For the field that is written for a password, which parses, a candidate is accepted under the iterated
-- scheme exactly if its iterated hash with the salt is that of the password, and under the legacy scheme
-- exactly if its iterated hash is another one and its legacy hash is the iterated hash of the password.
pub classify_password-format_shadow_field :
    (password candidate salt buf : List ℕ)
    → IsSalt salt
    → 84 ≤ length buf
    → let stored = hash_password password salt in
      (field : ShadowField) × (parse_shadow_field (format_shadow_field salt stored buf).0
        ≡ some field)
      × ((classify_password candidate field ≡ HashScheme.iterated)
          ↔ (hash_password candidate salt ≡ stored))
      × ((classify_password candidate field ≡ HashScheme.legacy) ↔ (
          (hash_password candidate salt ≢ stored) × (legacy_hash_password candidate salt ≡ stored)))
classify_password-format_shadow_field password candidate salt buf vs room =
    let stored = hash_password-IsDigest password salt in
    let own = hash_password-IsDigest candidate salt in
    let old = legacy_hash_password-IsDigest candidate salt in
    let field : ShadowField = record { salt = salt; hash = hash_password password salt } in
    let (by_scheme, by_legacy) = classify_cases candidate field in
    let by_bytes =
      const_time_eq_iff (hash_password candidate salt) (hash_password password salt) own.1
        stored.1 in
    let by_old =
      const_time_eq_iff (legacy_hash_password candidate salt) (hash_password password salt) old.1
        stored.1 in
    let differ =
      not_equal (hash_password candidate salt) (hash_password password salt)
        (const_time_eq (hash_password candidate salt) (hash_password password salt)) by_bytes in
    (
      field,
      (parse_shadow_field-format_shadow_field salt (hash_password password salt) buf vs stored
          room).1,
      (λ e. by_bytes.0 (by_scheme.0 e), λ e. by_scheme.1 (by_bytes.1 e)),
      (
        λ e. let (n, t) = by_legacy.0 e in (differ.0 n, by_old.0 t),
        λ e. by_legacy.1 (differ.1 e.0, by_old.1 e.1),
      ),
    )
