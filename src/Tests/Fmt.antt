-- ===== src/Tests/Fmt.antt =====
-- The properties of formatted output at concrete inputs.
use onyx_kernel.Prelude.{◌≡◌, refl, true, false, List, [], ◌∷◌, arith}
use onyx_kernel.Prelude.Int.{negsuc}
use onyx_kernel.Core.Fmt.{
  Arg, i64, u64, parse_num, write_hex_or_dec, write_dec, vformat, convert, dec_loop, hex_loop,
}
use onyx_kernel.Core.Fmt.Kinds.{signed, hex}
use onyx_kernel.Core.Fmt.Num.{parse_num-write_hex_or_dec}
use onyx_kernel.Core.Fmt.Pieces.{Piece, lit, conversion, vformat-template}

parse_num-write_hex_or_dec_example :
    parse_num (write_hex_or_dec 18446744073709551615 (record { width = 22; zero_pad = true }) false)
    ≡ (18446744073709551615, 22)
unfolding write_hex_or_dec dec_loop
parse_num-write_hex_or_dec_example =
    parse_num-write_hex_or_dec 18446744073709551615 22 (omega arith)

-- "n=%05d %lx"
abbrev pieces : List Piece
pieces =
    lit 110 ∷ lit 61 ∷ conversion true 5 [] signed ∷ lit 32 ∷ conversion false 0 (108 ∷ []) hex ∷ []

abbrev two_args : List Arg
two_args = i64 (negsuc 41) ∷ u64 255 ∷ []

vformat-template_example :
    vformat (110 ∷ 61 ∷ 37 ∷ 48 ∷ 53 ∷ 100 ∷ 32 ∷ 37 ∷ 108 ∷ 120 ∷ []) two_args
    ≡ 110 ∷ 61 ∷ 45 ∷ 48 ∷ 48 ∷ 52 ∷ 50 ∷ 32 ∷ 102 ∷ 102 ∷ []
unfolding convert write_dec write_hex_or_dec dec_loop hex_loop
vformat-template_example =
    vformat-template pieces two_args
      (refl, (refl, ((omega arith, tt, tt), (refl, ((omega arith, (refl, tt), tt), tt)))))
