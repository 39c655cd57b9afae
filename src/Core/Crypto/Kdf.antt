-- ===== src/Core/Crypto/Kdf.antt =====
-- core/src/crypto/kdf.rs: how passwords are hashed, and the field of the shadow file that stores a
-- hash. Of values below 16, `(a << 4) | b` is `16 * a + b`.
pub mod Bytes
pub mod Hex
pub mod Field
use Prim.Native.Nat.{bit_or, bit_xor}
use onyx_kernel.Prelude.{
  ℕ, zero, suc, ◌+◌, ◌-◌, ◌*◌, ◌/◌, ◌%◌, ◌^◌, min, Bool, true, false, not, ◌&&◌, ◌||◌, Option, none,
  some, List, [], ◌∷◌, ◌++◌, length, get_or, take, drop, replicate, ltb, leb, ◌==◌, if◌then◌else◌,
}
use onyx_kernel.Core.Crypto.Sha256.{sha256}

abbrev pub kdf_iters : ℕ
kdf_iters = 10000

abbrev pub salt_len : ℕ
salt_len = 8

-- The rounds of `hash_password`: the buffer is the hash so far, with the salt behind it.
pub kdf_rounds : ℕ → List ℕ → List ℕ → List ℕ
kdf_rounds zero salt h = h
kdf_rounds (suc n) salt h = kdf_rounds n salt (sha256 (h ++ salt))

unfoldable pub hash_password : List ℕ → List ℕ → List ℕ
hash_password password salt = kdf_rounds kdf_iters salt (sha256 password)

-- The first 72 bytes of the password and the salt.
unfoldable pub legacy_hash_password : List ℕ → List ℕ → List ℕ
legacy_hash_password password salt = sha256 (take 72 (take 72 password ++ salt))

abbrev hex_chars : List ℕ
hex_chars =
    b'0' ∷ b'1' ∷ b'2' ∷ b'3' ∷ b'4' ∷ b'5' ∷ b'6' ∷ b'7' ∷ b'8' ∷ b'9' ∷ b'a' ∷ b'b' ∷ b'c' ∷ b'd'
    ∷ b'e' ∷ b'f' ∷ []

pub hex_pairs : List ℕ → List ℕ
hex_pairs [] = []
hex_pairs (b ∷ bytes) = get_or hex_chars (b / 16) 0 ∷ get_or hex_chars (b % 16) 0 ∷ hex_pairs bytes

-- 64 characters, with zeros behind those that are written.
unfoldable pub bytes_to_hex : List ℕ → List ℕ
unfolding hex_pairs
bytes_to_hex bytes =
    let n = min (length bytes) 32 in hex_pairs (take n bytes) ++ replicate (64 - 2 * n) 0

unfoldable pub hex_val : ℕ → ℕ
hex_val c =
    if leb b'0' c && leb c b'9'
    then c - b'0'
    else if leb b'a' c && leb c b'f'
    then c - b'a' + 10
    else 0

pub decode_pairs : ℕ → List ℕ → List ℕ
unfolding hex_val
decode_pairs zero hex = []
decode_pairs (suc n) hex =
    (16 * hex_val (get_or hex 0 0) + hex_val (get_or hex 1 0)) ∷ decode_pairs n (drop 2 hex)

unfoldable pub hex_decode_8 : List ℕ → List ℕ
unfolding decode_pairs
hex_decode_8 hex =
    let n = min (length hex / 2) salt_len in decode_pairs n hex ++ replicate (salt_len - n) 0

pub diff_loop : ℕ → List ℕ → List ℕ → ℕ
diff_loop r [] b = r
diff_loop r (x ∷ a) [] = r
diff_loop r (x ∷ a) (y ∷ b) = diff_loop (bit_or r (bit_xor x y)) a b

unfoldable pub const_time_eq : List ℕ → List ℕ → Bool
unfolding diff_loop
const_time_eq a b = if not (length a == length b) then false else diff_loop 0 a b == 0

pub record ShadowField : Type 0 where
  pub salt : List ℕ
  pub hash : List ℕ

-- `u8::is_ascii_hexdigit`
abbrev pub is_ascii_hexdigit : ℕ → Bool
is_ascii_hexdigit c =
    leb b'0' c && leb c b'9' || leb b'a' c && leb c b'f' || leb b'A' c && leb c b'F'

abbrev pub all_hex : List ℕ → Bool
all_hex [] = true
all_hex (c ∷ s) = is_ascii_hexdigit c && all_hex s

-- `position(|&b| b == c)`
abbrev pub position : ℕ → List ℕ → Option ℕ
position c [] = none
position c (x ∷ s) =
    if x == c then some 0 else elim (position c s) [ none ↦ none | some i ↦ some (suc i) ]

-- `rest.get(start..start + 64)`
abbrev slice_64 : List ℕ → ℕ → Option (List ℕ)
slice_64 s start = if leb (start + 64) (length s) then some (take 64 (drop start s)) else none

unfoldable pub parse_shadow_field : List ℕ → Option ShadowField
unfolding decode_pairs hex_decode_8
parse_shadow_field s =
    let rest = drop 3 s in
    if ltb (length s) 84
      || not (get_or s 0 0 == b'$')
      || not (get_or s 1 0 == b'5')
      || not (get_or s 2 0 == b'$')
    then none
    else elim (position b'$' rest) [
      | none ↦ none
      | some salt_end ↦ if not (salt_end == 16) then none else elim (slice_64 rest (salt_end + 1)) [
        | none ↦ none
        | some hash_hex ↦
            if all_hex (take salt_end rest ++ hash_hex)
            then some (record {
              salt = hex_decode_8 (take salt_end rest);
              hash = decode_pairs 32 hash_hex;
            })
            else none
      ]
    ]

-- The new buffer and the number of bytes written.
unfoldable pub format_shadow_field : List ℕ → List ℕ → List ℕ → List ℕ × ℕ
unfolding bytes_to_hex
format_shadow_field salt hash buf = if ltb (length buf) 84 then (buf, 0) else (
  (b'$' ∷ b'5' ∷ b'$' ∷ (take 16 (bytes_to_hex salt) ++ b'$' ∷ bytes_to_hex hash)) ++ drop 84 buf,
  84,
)

pub data HashScheme : Type 0 where
  iterated legacy unknown : HashScheme

unfoldable pub classify_password : List ℕ → ShadowField → HashScheme
classify_password password field =
    if const_time_eq (hash_password password field.salt) field.hash
    then iterated
    else if const_time_eq (legacy_hash_password password field.salt) field.hash
    then legacy
    else unknown
