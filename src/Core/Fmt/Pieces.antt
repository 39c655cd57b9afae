-- ===== src/Core/Fmt/Pieces.antt =====
-- Core/Fmt: a template taken as its pieces.
use onyx_kernel.Prelude.{
  ℕ, zero, suc, ◌^◌, ◌≤◌, ◌<◌, ◌≡◌, refl, sym, ap, ap₂, ◌∙◌, subst, Bool, true, false, ◌||◌, List,
  [], ◌∷◌, ◌++◌, length, drop, drop-append_self, length-append, ◌==◌, if◌then◌else◌, arith,
  Bool-cases, inl, inr,
}
use onyx_kernel.Core.Fmt.{
  Arg, FmtSpec, Round, write_char, dec_digits, dec_loop, is_digit, num_loop, parse_num,
  is_zero_flag, skip_size, directive, converted, after_percent, vformat_loop, vformat,
}
use onyx_kernel.Core.Fmt.Num.{
  IsEnd, num_loop-dec_digits, num_loop-IsEnd, dec_loop-append, is_zero_flag-dec_loop,
}
use onyx_kernel.Core.Fmt.Kinds.{
  Kind, letter, IsKind, shown, head, behind, letter_end, takes_arg-behind, convert-shown,
}

-- A byte that stands for itself, or a conversion: a flag for zeros, a width (0 is not written), and the
-- letters for the size.
pub data Piece : Type 0 where
  lit : ℕ → Piece
  conversion : Bool → ℕ → List ℕ → Kind → Piece

abbrev pub IsSizes : List ℕ → Type 0
IsSizes [] = Unit
IsSizes (c ∷ cs) = ((c == 108 || c == 122) ≡ true) × IsSizes cs

abbrev pub IsPiece : Piece → Type 0
IsPiece (lit c) = (c == 37) ≡ false
IsPiece (conversion zero_pad width sizes k) = (width < 2 ^ 64) × IsSizes sizes × IsKind k

abbrev pub ArePieces : List Piece → Type 0
ArePieces [] = Unit
ArePieces (p ∷ ps) = IsPiece p × ArePieces ps

abbrev pub width_text : ℕ → List ℕ
width_text w = if w == 0 then [] else dec_digits w

abbrev pub flag_text : Bool → List ℕ
flag_text zero_pad = if zero_pad then 48 ∷ [] else []

-- The template of the pieces.
abbrev pub template : List Piece → List ℕ
template [] = []
template (lit c ∷ ps) = c ∷ template ps
template (conversion zero_pad width sizes k ∷ ps) =
    37 ∷ (flag_text zero_pad ++ (width_text width ++ (sizes ++ (letter k ∷ template ps))))

-- What the pieces stand for, one after the other.
abbrev pub rendered : List Piece → List Arg → List ℕ
rendered [] args = []
rendered (lit c ∷ ps) args = write_char c ++ rendered ps args
rendered (conversion zero_pad width sizes k ∷ ps) args =
    shown k (record { width = width; zero_pad = zero_pad }) (head args)
    ++ rendered ps (behind k args)

skip_size_lem :
    (sizes : List ℕ) (c : ℕ) (cs : List ℕ)
    → IsSizes sizes
    → (c == 108 || c == 122) ≡ false
    → skip_size (sizes ++ (c ∷ cs)) ≡ c ∷ cs
skip_size_lem [] c cs v e = rw e refl
skip_size_lem (s ∷ sizes) c cs v e = let size = v.0 in rw size (skip_size_lem sizes c cs v.1 e)

size_digit : (c : ℕ) → (c == 108 || c == 122) ≡ true → is_digit c ≡ false
size_digit c e = ground (arith, e)

-- The width ends with the letters behind it.
sizes-IsEnd :
    (sizes : List ℕ) (c : ℕ) (cs : List ℕ)
    → IsSizes sizes
    → is_digit c ≡ false
    → IsEnd (sizes ++ (c ∷ cs))
sizes-IsEnd [] c cs v e = e
sizes-IsEnd (s ∷ sizes) c cs v e = size_digit s v.0

IsEnd-is_zero_flag : (cs : List ℕ) → IsEnd cs → is_zero_flag cs ≡ false
IsEnd-is_zero_flag [] e = refl
IsEnd-is_zero_flag (c ∷ cs) e = ground (arith, e)

parse_num-width_text :
    (w : ℕ) (rest : List ℕ)
    → w < 2 ^ 64
    → IsEnd rest
    → parse_num (width_text w ++ rest) ≡ (w, length (width_text w))
parse_num-width_text w rest p e = elim (Bool-cases (w == 0)) [
  | inl z ↦
      let nothing : 0 ≡ w = ground (arith, z) in
      rw z (num_loop-IsEnd 0 0 rest e ∙ ap (λ k. (k, 0)) nothing)
  | inr z ↦
      let digits : dec_digits w ≡ dec_loop 20 w [] = rw z refl in
      rw z (
        subst (λ ds. parse_num (ds ++ rest) ≡ (w, length ds)) digits
          (num_loop-dec_digits w 0 rest p e ∙ ap (λ k. (w, k)) (omega arith)))
]

-- Without the flag the width does not start with a zero.
width_text_flag :
    (w : ℕ) (rest : List ℕ) → w < 2 ^ 64 → IsEnd rest → is_zero_flag (width_text w ++ rest) ≡ false
width_text_flag w rest p e = elim (Bool-cases (w == 0)) [
  | inl z ↦ rw z (IsEnd-is_zero_flag rest e)
  | inr z ↦ rw z (
      ap is_zero_flag (sym (dec_loop-append 20 w [] rest))
      ∙ is_zero_flag-dec_loop 20 w rest (ground (arith, z)) (omega (arith, p)))
]

-- What stands behind the flag.
width_directive :
    (zero_pad : Bool) (width : ℕ) (sizes : List ℕ) (c : ℕ) (cs digits : List ℕ)
    → (width < 2 ^ 64) × IsSizes sizes × (is_digit c ≡ false) × ((c == 108 || c == 122) ≡ false)
    → digits ≡ width_text width ++ (sizes ++ (c ∷ cs))
    → ◌≡◌ {A = FmtSpec × List ℕ}
        (
          record { width = (parse_num digits).0; zero_pad = zero_pad },
          skip_size (drop (parse_num digits).1 digits),
        )
        (record { width = width; zero_pad = zero_pad }, c ∷ cs)
width_directive zero_pad width sizes c cs digits v e =
    let tail = sizes ++ (c ∷ cs) in
    let read : parse_num digits ≡ (width, length (width_text width)) =
      ap parse_num e ∙ parse_num-width_text width tail v.0 (sizes-IsEnd sizes c cs v.1 v.2) in
    let left : skip_size (drop (parse_num digits).1 digits) ≡ c ∷ cs =
      ap₂ (λ (k : ℕ × ℕ) ds. skip_size (drop k.1 ds)) read e
      ∙ ap skip_size (drop-append_self (width_text width) tail)
      ∙ skip_size_lem sizes c cs v.1 v.3 in
    let made : ℕ × ℕ → List ℕ → FmtSpec × List ℕ =
      λ k ds. (record { width = k.0; zero_pad = zero_pad }, ds) in
    ap₂ made read left

directive_lem :
    (zero_pad : Bool) (width : ℕ) (sizes : List ℕ) (c : ℕ) (cs : List ℕ)
    → (width < 2 ^ 64) × IsSizes sizes × (is_digit c ≡ false) × ((c == 108 || c == 122) ≡ false)
    → ◌≡◌ {A = FmtSpec × List ℕ}
        (directive (flag_text zero_pad ++ (width_text width ++ (sizes ++ (c ∷ cs)))))
        (record { width = width; zero_pad = zero_pad }, c ∷ cs)
directive_lem true width sizes c cs v =
    width_directive true width sizes c cs (width_text width ++ (sizes ++ (c ∷ cs))) v refl
directive_lem false width sizes c cs v =
    let digits = width_text width ++ (sizes ++ (c ∷ cs)) in
    rw (width_text_flag width (sizes ++ (c ∷ cs)) v.0 (sizes-IsEnd sizes c cs v.1 v.2))
      (width_directive false width sizes c cs digits v refl)

after_percent_lem :
    (cs : List ℕ) (args : List Arg) (spec : FmtSpec) (c : ℕ) (rest : List ℕ)
    → ◌≡◌ {A = FmtSpec × List ℕ} (directive cs) (spec, c ∷ rest)
    → after_percent cs args ≡ converted spec (c ∷ rest) args
unfolding num_loop
after_percent_lem [] args spec c rest e =
    let lengths : 0 ≡ length (c ∷ rest) = ap (λ (k : FmtSpec × List ℕ). length k.1) e in
    absurd (omega (arith, lengths))
after_percent_lem (d ∷ cs) args spec c rest e =
    ap (λ (k : FmtSpec × List ℕ). converted k.0 k.1 args) e

length_conversion : (a b s cs : List ℕ) → length cs ≤ length (a ++ (b ++ (s ++ cs)))
length_conversion a b s cs =
    let l1 = length-append a (b ++ (s ++ cs)) in
    let l2 = length-append b (s ++ cs) in let l3 = length-append s cs in omega (arith, l1, l2, l3)

-- The loop over the template of the pieces, with enough fuel.
vformat_loop-template :
    (n : ℕ) (ps : List Piece) (args : List Arg)
    → length (template ps) ≤ n
    → ArePieces ps
    → vformat_loop n (template ps) args ≡ rendered ps args
unfolding vformat_loop
vformat_loop-template zero [] args p v = refl
vformat_loop-template (suc n) [] args p v = refl
vformat_loop-template zero (lit c ∷ ps) args p v = absurd (omega (arith, p))
vformat_loop-template zero (conversion z w sizes k ∷ ps) args p v = absurd (omega (arith, p))
vformat_loop-template (suc n) (lit c ∷ ps) args p v =
    let plain = v.0 in
    rw plain (ap (λ k. write_char c ++ k) (vformat_loop-template n ps args (omega (arith, p)) v.1))
vformat_loop-template (suc n) (conversion z w sizes k ∷ ps) args p v =
    let c = letter k in
    let text = flag_text z ++ (width_text w ++ (sizes ++ (c ∷ template ps))) in
    let spec : FmtSpec = record { width = w; zero_pad = z } in
    let (width, size, kind) = v.0 in
    let (digit, no_size) = letter_end k kind in
    let round =
      after_percent_lem text args spec c (template ps)
        (directive_lem z w sizes c (template ps) (width, size, digit, no_size)) in
    let shorter = length_conversion (flag_text z) (width_text w) sizes (c ∷ template ps) in
    let later = behind k args in
    ap (λ (r : Round). r.written ++ vformat_loop n r.bytes r.args) round
    ∙ ap₂ (λ (out : List ℕ) rest. out ++ vformat_loop n (template ps) rest)
        (convert-shown k spec args kind) (takes_arg-behind k args kind)
    ∙ ap (λ out. shown k spec (head args) ++ out)
        (vformat_loop-template n ps later (omega (arith, p, shorter)) v.1)

-- A template is written as its pieces, one after the other, each conversion with the next argument, where
-- no literal is a percent sign, the widths are below 2 ^ 64, and an unknown letter is no digit, `l` or `z`.
pub vformat-template :
    (ps : List Piece) (args : List Arg)
    → ArePieces ps
    → vformat (template ps) args ≡ rendered ps args
unfolding vformat
vformat-template ps args v = vformat_loop-template (length (template ps)) ps args (omega arith) v
