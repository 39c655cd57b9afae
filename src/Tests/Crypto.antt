-- ===== src/Tests/Crypto.antt =====
-- The properties of the hashes and the password fields at concrete inputs.
use onyx_kernel.Prelude.{
  IsByte, ℕ, zero, suc, ◌%◌, ◌<◌, ◌≡◌, ◌≢◌, ◌↔◌, refl, List, [], ◌∷◌, some, replicate, length,
  length-replicate, All, arith,
}
use onyx_kernel.Core.Crypto.Sha256.{sha256, digest, initial_words}
use onyx_kernel.Core.Crypto.Sha256.Stream.{hash_blocks}
use onyx_kernel.Core.Crypto.Sha256.Digest.{pad, sha256_lem}
use onyx_kernel.Core.Crypto.Kdf.{
  ShadowField, HashScheme, hash_password, parse_shadow_field, format_shadow_field,
  classify_password, legacy_hash_password,
}
use onyx_kernel.Core.Crypto.Kdf.Field.{IsSalt, classify_password-format_shadow_field}

abbrev abc : List ℕ
abc = 97 ∷ 98 ∷ 99 ∷ []

sha256_lem_example :
    (sha256 abc ≡ digest (hash_blocks 1 initial_words (pad abc))) × (length (pad abc) % 64 ≡ 0)
sha256_lem_example = sha256_lem abc

abbrev salt_8 : List ℕ
salt_8 = replicate 8 1

abbrev hash_32 : List ℕ
hash_32 = replicate 32 171

replicate-All : (n b : ℕ) → b < 256 → All IsByte (replicate n b)
replicate-All zero b h = tt
replicate-All (suc n) b h = (h, replicate-All n b h)

salt_8-IsSalt : IsSalt salt_8
salt_8-IsSalt = (refl, replicate-All 8 1 (omega arith))

classify_password-format_shadow_field_example :
    (field : ShadowField) × (parse_shadow_field
        (format_shadow_field salt_8 (hash_password abc salt_8) (replicate 84 0)).0
      ≡ some field)
    × ((classify_password (98 ∷ []) field ≡ HashScheme.iterated)
        ↔ (hash_password (98 ∷ []) salt_8 ≡ hash_password abc salt_8))
    × ((classify_password (98 ∷ []) field ≡ HashScheme.legacy) ↔ (
        (hash_password (98 ∷ []) salt_8 ≢ hash_password abc salt_8)
        × (legacy_hash_password (98 ∷ []) salt_8 ≡ hash_password abc salt_8)))
classify_password-format_shadow_field_example =
    classify_password-format_shadow_field abc (98 ∷ []) salt_8 (replicate 84 0) salt_8-IsSalt
      (omega (arith, length-replicate {A = ℕ} 84 0))
