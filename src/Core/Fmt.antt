-- ===== src/Core/Fmt.antt =====
-- core/src/fmt: writer.rs, the engine of formatted output, and format_num.rs, numbers as text. A text is
-- its bytes; what a function here gives is what the source writes.
pub mod Num
pub mod Kinds
pub mod Pieces
use onyx_kernel.Prelude.{
  ℕ, zero, suc, ◌+◌, ◌-◌, ◌*◌, ◌/◌, ◌%◌, ◌^◌, min, Bool, true, false, not, ◌&&◌, ◌||◌, Option, none,
  some, List, [], ◌∷◌, ◌++◌, length, drop, ltb, leb, ◌==◌, if◌then◌else◌,
}
use onyx_kernel.Prelude.Int.{ℤ, pos, negsuc}

-- A pointer to a C string has the bytes from it on.
pub data Arg : Type 0 where
  str : List ℕ → Arg
  c_str : List ℕ → Arg
  char : ℕ → Arg
  i64 : ℤ → Arg
  u64 : ℕ → Arg
  i_size : ℤ → Arg
  u_size : ℕ → Arg

pub record FmtSpec : Type 0 where
  pub width : ℕ
  pub zero_pad : Bool

-- `write_char`: a byte that is no ASCII character is written as a question mark.
abbrev pub write_char : ℕ → List ℕ
write_char c = (if ltb c 128 then c else 63) ∷ []

abbrev pub write_chars : List ℕ → List ℕ
write_chars [] = []
write_chars (c ∷ cs) = write_char c ++ write_chars cs

-- `for _ in 0..n { write_char(c) }`
abbrev pub write_pad : ℕ → ℕ → List ℕ
write_pad zero c = []
write_pad (suc n) c = write_char c ++ write_pad n c

-- The walk over a C string.
abbrev pub write_c_str : List ℕ → List ℕ
write_c_str [] = []
write_c_str (c ∷ cs) = let rest = write_c_str cs in if c == 0 then [] else write_char c ++ rest

-- The digits in the buffer, the last one that was put there first, on fuel.
unfoldable pub dec_loop : ℕ → ℕ → List ℕ → List ℕ
dec_loop zero n buf = buf
dec_loop (suc k) n buf =
    let rest = dec_loop k (n / 10) ((48 + n % 10) ∷ buf) in if n == 0 then buf else rest

-- A byte of `HEX`.
abbrev pub hex_digit : ℕ → ℕ
hex_digit d = if ltb d 10 then 48 + d else 87 + d

unfoldable pub hex_loop : ℕ → ℕ → List ℕ → List ℕ
hex_loop zero n buf = buf
hex_loop (suc k) n buf =
    let rest = hex_loop k (n / 16) (hex_digit (n % 16) ∷ buf) in if n == 0 then buf else rest

-- The buffer has 20 bytes.
abbrev pub dec_digits : ℕ → List ℕ
dec_digits n = if n == 0 then 48 ∷ [] else dec_loop 20 n []

abbrev pub hex_digits : ℕ → List ℕ
hex_digits n = if n == 0 then 48 ∷ [] else hex_loop 20 n []

abbrev pub magnitude : ℤ → Bool × ℕ
magnitude (pos n) = (false, n)
magnitude (negsuc n) = (true, n + 1)

unfoldable pub write_dec : ℤ → FmtSpec → List ℕ
write_dec v spec =
    let (neg, n) = magnitude v in
    let digits = dec_digits n in
    let pad = spec.width - (length digits + (if neg then 1 else 0)) in
    let sign = if neg then write_char 45 else [] in
    (if spec.zero_pad then sign ++ write_pad pad 48 else write_pad pad 32 ++ sign)
    ++ write_chars digits

unfoldable pub write_hex_or_dec : ℕ → FmtSpec → Bool → List ℕ
write_hex_or_dec v spec hex =
    let digits = if hex then hex_digits v else dec_digits v in
    write_pad (spec.width - length digits) (if spec.zero_pad then 48 else 32) ++ write_chars digits

abbrev pub is_digit : ℕ → Bool
is_digit c = leb 48 c && leb c 57

-- A usize that saturates.
abbrev pub saturated : ℕ → ℕ
saturated n = min n (2 ^ 64 - 1)

unfoldable pub num_loop : ℕ → ℕ → List ℕ → ℕ × ℕ
num_loop v i [] = (v, i)
num_loop v i (c ∷ cs) =
    let rest = num_loop (saturated (saturated (v * 10) + (c - 48))) (i + 1) cs in
    if is_digit c then rest else (v, i)

abbrev pub parse_num : List ℕ → ℕ × ℕ
parse_num buf = num_loop 0 0 buf

-- `u64 as i64`
abbrev pub wrapped : ℕ → ℤ
wrapped n = if ltb n (2 ^ 63) then pos n else negsuc (2 ^ 64 - 1 - n)

abbrev pub write_text : Option Arg → List ℕ
write_text (some (str s)) = s
write_text (some (c_str s)) = write_c_str s
write_text other = []

abbrev pub write_byte : Option Arg → List ℕ
write_byte (some (char c)) = write_char c
write_byte other = []

abbrev pub write_signed : Option Arg → FmtSpec → List ℕ
write_signed (some (i64 v)) spec = write_dec v spec
write_signed (some (u64 v)) spec = write_dec (wrapped v) spec
write_signed (some (u_size v)) spec = write_dec (wrapped v) spec
write_signed (some (i_size v)) spec = write_dec v spec
write_signed other spec = []

abbrev pub write_unsigned : Option Arg → FmtSpec → Bool → List ℕ
write_unsigned (some (u64 v)) spec hex = write_hex_or_dec v spec hex
write_unsigned (some (u_size v)) spec hex = write_hex_or_dec v spec hex
write_unsigned other spec hex = []

abbrev pub first_arg : List Arg → Option Arg
first_arg [] = none
first_arg (a ∷ others) = some a

abbrev pub other_args : List Arg → List Arg
other_args [] = []
other_args (a ∷ others) = others

-- The letters of conversions: % s c d u x p.
abbrev pub takes_arg : ℕ → Bool
takes_arg c = c == 115 || c == 99 || c == 100 || c == 117 || c == 120 || c == 112

-- The `match conv`.
unfoldable pub convert : ℕ → FmtSpec → Option Arg → List ℕ
convert c spec arg =
    if c == 37
    then write_char 37
    else if c == 115
    then write_text arg
    else if c == 99
    then write_byte arg
    else if c == 100
    then write_signed arg spec
    else if c == 117
    then write_unsigned arg spec false
    else if c == 120
    then write_unsigned arg spec true
    else if c == 112
    then 48 ∷ 120 ∷ write_unsigned arg (record { width = 16; zero_pad = true }) true
    else write_char 37 ++ write_char c

-- `l` and `z` are passed over.
abbrev pub skip_size : List ℕ → List ℕ
skip_size [] = []
skip_size (c ∷ cs) = let rest = skip_size cs in if c == 108 || c == 122 then rest else c ∷ cs

abbrev pub is_zero_flag : List ℕ → Bool
is_zero_flag [] = false
is_zero_flag (c ∷ cs) = c == 48

-- A conversion, from the byte behind the percent sign on.
abbrev pub directive : List ℕ → FmtSpec × List ℕ
directive cs =
    let zero_pad = is_zero_flag cs in
    let digits = if zero_pad then drop 1 cs else cs in
    let (width, consumed) = parse_num digits in
    (record { width = width; zero_pad = zero_pad }, skip_size (drop consumed digits))

-- One round of the loop: what is written, and the bytes of `fmt` and the arguments that are left. The loop
-- ends where no byte is left.
pub record Round : Type 0 where
  pub written : List ℕ
  pub bytes : List ℕ
  pub args : List Arg

abbrev pub converted : FmtSpec → List ℕ → List Arg → Round
converted spec [] args = record { written = []; bytes = []; args = args }
converted spec (c ∷ cs) args = record {
  written = convert c spec (first_arg args);
  bytes = cs;
  args = if takes_arg c then other_args args else args;
}

abbrev pub after_percent : List ℕ → List Arg → Round
after_percent [] args = record { written = 37 ∷ []; bytes = []; args = args }
after_percent (c ∷ cs) args = let d = directive (c ∷ cs) in converted d.0 d.1 args

abbrev pub one_round : ℕ → List ℕ → List Arg → Round
one_round c cs args =
    if c == 37
    then after_percent cs args
    else record { written = write_char c; bytes = cs; args = args }

-- The loop, on fuel.
unfoldable pub vformat_loop : ℕ → List ℕ → List Arg → List ℕ
vformat_loop zero cs args = []
vformat_loop (suc n) [] args = []
vformat_loop (suc n) (c ∷ cs) args =
    let r = one_round c cs args in r.written ++ vformat_loop n r.bytes r.args

unfoldable pub vformat : List ℕ → List Arg → List ℕ
vformat fmt args = vformat_loop (length fmt) fmt args
