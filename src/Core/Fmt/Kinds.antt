-- ===== src/Core/Fmt/Kinds.antt =====
-- Core/Fmt: what each conversion is to write.
use onyx_kernel.Prelude.{
  ℕ, ◌≡◌, refl, true, false, ◌||◌, Option, none, some, List, [], ◌∷◌, ◌==◌, if◌then◌else◌, arith,
}
use onyx_kernel.Core.Fmt.{
  Arg, str, c_str, char, i64, u64, i_size, u_size, write_c_str, write_dec, write_hex_or_dec,
  wrapped, FmtSpec, write_char, is_digit, convert, takes_arg, first_arg, other_args,
}

-- What a conversion asks for.
pub data Kind : Type 0 where
  percent text byte signed unsigned hex pointer : Kind
  other : ℕ → Kind

-- The letter of a conversion: % s c d u x p.
abbrev pub letter : Kind → ℕ
letter percent = 37
letter text = 115
letter byte = 99
letter signed = 100
letter unsigned = 117
letter hex = 120
letter pointer = 112
letter (other c) = c

-- Any other letter but `l` and `z`, which stand for a size, and the digits.
abbrev pub IsKind : Kind → Type 0
IsKind (other c) =
    (((c == 37) || (c == 115) || (c == 99) || (c == 100) || (c == 117) || (c == 120) || (c == 112))
      ≡ false)
    × (is_digit c ≡ false)
    × ((c == 108 || c == 122) ≡ false)
IsKind k = Unit

-- What a conversion writes for its argument: nothing where there is none, or one of another type.
abbrev pub shown : Kind → FmtSpec → Option Arg → List ℕ
shown percent spec arg = 37 ∷ []
shown text spec (some (str s)) = s
shown text spec (some (c_str s)) = write_c_str s
shown byte spec (some (char c)) = write_char c
shown signed spec (some (i64 v)) = write_dec v spec
shown signed spec (some (i_size v)) = write_dec v spec
shown signed spec (some (u64 n)) = write_dec (wrapped n) spec
shown signed spec (some (u_size n)) = write_dec (wrapped n) spec
shown unsigned spec (some (u64 n)) = write_hex_or_dec n spec false
shown unsigned spec (some (u_size n)) = write_hex_or_dec n spec false
shown hex spec (some (u64 n)) = write_hex_or_dec n spec true
shown hex spec (some (u_size n)) = write_hex_or_dec n spec true
shown pointer spec (some (u64 n)) =
    48 ∷ 120 ∷ write_hex_or_dec n (record { width = 16; zero_pad = true }) true
shown pointer spec (some (u_size n)) =
    48 ∷ 120 ∷ write_hex_or_dec n (record { width = 16; zero_pad = true }) true
shown pointer spec arg = 48 ∷ 120 ∷ []
shown (other c) spec arg = 37 ∷ write_char c
shown k spec arg = []

abbrev pub head : List Arg → Option Arg
head [] = none
head (a ∷ rest) = some a

abbrev pub tail : List Arg → List Arg
tail [] = []
tail (a ∷ rest) = rest

-- The arguments behind a conversion: all but the percent sign and the unknown letters take one.
abbrev pub behind : Kind → List Arg → List Arg
behind percent args = args
behind text args = tail args
behind byte args = tail args
behind signed args = tail args
behind unsigned args = tail args
behind hex args = tail args
behind pointer args = tail args
behind (other c) args = args

pub letter_end :
    (k : Kind)
    → IsKind k
    → (is_digit (letter k) ≡ false) × ((letter k == 108 || letter k == 122) ≡ false)
letter_end percent v = (refl, refl)
letter_end text v = (refl, refl)
letter_end byte v = (refl, refl)
letter_end signed v = (refl, refl)
letter_end unsigned v = (refl, refl)
letter_end hex v = (refl, refl)
letter_end pointer v = (refl, refl)
letter_end (other c) v = (v.1, v.2)

pub takes_arg-behind :
    (k : Kind) (args : List Arg)
    → IsKind k
    → (if takes_arg (letter k) then other_args args else args) ≡ behind k args
takes_arg-behind percent args v = refl
takes_arg-behind text [] v = refl
takes_arg-behind text (a ∷ args) v = refl
takes_arg-behind byte [] v = refl
takes_arg-behind byte (a ∷ args) v = refl
takes_arg-behind signed [] v = refl
takes_arg-behind signed (a ∷ args) v = refl
takes_arg-behind unsigned [] v = refl
takes_arg-behind unsigned (a ∷ args) v = refl
takes_arg-behind hex [] v = refl
takes_arg-behind hex (a ∷ args) v = refl
takes_arg-behind pointer [] v = refl
takes_arg-behind pointer (a ∷ args) v = refl
takes_arg-behind (other c) args v = let e = v.0 in ground (arith, e)

pub convert-shown :
    (k : Kind) (spec : FmtSpec) (args : List Arg)
    → IsKind k
    → convert (letter k) spec (first_arg args) ≡ shown k spec (head args)
unfolding convert
convert-shown percent spec [] v = refl
convert-shown percent spec (a ∷ args) v = refl
convert-shown text spec [] v = refl
convert-shown text spec (str s ∷ args) v = refl
convert-shown text spec (c_str s ∷ args) v = refl
convert-shown text spec (char c ∷ args) v = refl
convert-shown text spec (i64 n ∷ args) v = refl
convert-shown text spec (u64 n ∷ args) v = refl
convert-shown text spec (i_size n ∷ args) v = refl
convert-shown text spec (u_size n ∷ args) v = refl
convert-shown byte spec [] v = refl
convert-shown byte spec (str s ∷ args) v = refl
convert-shown byte spec (c_str s ∷ args) v = refl
convert-shown byte spec (char c ∷ args) v = refl
convert-shown byte spec (i64 n ∷ args) v = refl
convert-shown byte spec (u64 n ∷ args) v = refl
convert-shown byte spec (i_size n ∷ args) v = refl
convert-shown byte spec (u_size n ∷ args) v = refl
convert-shown signed spec [] v = refl
convert-shown signed spec (str s ∷ args) v = refl
convert-shown signed spec (c_str s ∷ args) v = refl
convert-shown signed spec (char c ∷ args) v = refl
convert-shown signed spec (i64 n ∷ args) v = refl
convert-shown signed spec (u64 n ∷ args) v = refl
convert-shown signed spec (i_size n ∷ args) v = refl
convert-shown signed spec (u_size n ∷ args) v = refl
convert-shown unsigned spec [] v = refl
convert-shown unsigned spec (str s ∷ args) v = refl
convert-shown unsigned spec (c_str s ∷ args) v = refl
convert-shown unsigned spec (char c ∷ args) v = refl
convert-shown unsigned spec (i64 n ∷ args) v = refl
convert-shown unsigned spec (u64 n ∷ args) v = refl
convert-shown unsigned spec (i_size n ∷ args) v = refl
convert-shown unsigned spec (u_size n ∷ args) v = refl
convert-shown hex spec [] v = refl
convert-shown hex spec (str s ∷ args) v = refl
convert-shown hex spec (c_str s ∷ args) v = refl
convert-shown hex spec (char c ∷ args) v = refl
convert-shown hex spec (i64 n ∷ args) v = refl
convert-shown hex spec (u64 n ∷ args) v = refl
convert-shown hex spec (i_size n ∷ args) v = refl
convert-shown hex spec (u_size n ∷ args) v = refl
convert-shown pointer spec [] v = refl
convert-shown pointer spec (str s ∷ args) v = refl
convert-shown pointer spec (c_str s ∷ args) v = refl
convert-shown pointer spec (char c ∷ args) v = refl
convert-shown pointer spec (i64 n ∷ args) v = refl
convert-shown pointer spec (u64 n ∷ args) v = refl
convert-shown pointer spec (i_size n ∷ args) v = refl
convert-shown pointer spec (u_size n ∷ args) v = refl
convert-shown (other c) spec args v = let e = v.0 in ground (arith, e)
