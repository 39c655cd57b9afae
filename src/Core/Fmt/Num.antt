-- ===== src/Core/Fmt/Num.antt =====
-- Core/Fmt: the digits of numbers, and reading them.
use onyx_kernel.Prelude.{
  ℕ, zero, suc, ◌+◌, ◌-◌, ◌*◌, ◌/◌, ◌%◌, ◌^◌, ◌≤◌, ◌<◌, ◌≡◌, refl, sym, ap, ap₂, ◌∙◌, min, true,
  false, List, [], ◌∷◌, ◌++◌, length, length-append, append-nil, ltb, ◌==◌, if◌then◌else◌, arith,
  Bool-cases, inl, inr,
}
use onyx_kernel.Core.Fmt.{
  write_chars, write_pad, dec_loop, dec_digits, write_hex_or_dec, is_digit, num_loop, parse_num,
  is_zero_flag,
}

abbrev pub ten_to : ℕ → ℕ
ten_to zero = 1
ten_to (suc k) = 10 * ten_to k

-- The number of digits.
abbrev pub count : ℕ → ℕ → ℕ
count zero n = 0
count (suc k) n = let rest = count k (n / 10) in if n == 0 then 0 else rest + 1

abbrev pub IsDigits : List ℕ → Type 0
IsDigits [] = Unit
IsDigits (c ∷ cs) = (48 ≤ c) × (c ≤ 57) × IsDigits cs

-- The digits go in front of what is in the buffer.
pub dec_loop-append :
    (k n : ℕ) (buf rest : List ℕ) → dec_loop k n (buf ++ rest) ≡ dec_loop k n buf ++ rest
unfolding dec_loop
dec_loop-append zero n buf rest = refl
dec_loop-append (suc k) n buf rest =
    let ih = dec_loop-append k (n / 10) ((48 + n % 10) ∷ buf) rest in
    elim (Bool-cases (n == 0)) [ inl e ↦ rw e refl | inr e ↦ rw e ih ]

pub length-dec_loop : (k n : ℕ) (buf : List ℕ) → length (dec_loop k n buf) ≡ count k n + length buf
unfolding dec_loop
length-dec_loop zero n buf = omega arith
length-dec_loop (suc k) n buf =
    let ih = length-dec_loop k (n / 10) ((48 + n % 10) ∷ buf) in
    elim (Bool-cases (n == 0)) [ inl e ↦ rw e (omega arith) | inr e ↦ rw e (omega (arith, ih)) ]

pub dec_loop-IsDigits : (k n : ℕ) (buf : List ℕ) → IsDigits buf → IsDigits (dec_loop k n buf)
unfolding dec_loop
dec_loop-IsDigits zero n buf v = v
dec_loop-IsDigits (suc k) n buf v =
    let ih = dec_loop-IsDigits k (n / 10) ((48 + n % 10) ∷ buf) (omega arith, omega arith, v) in
    elim (Bool-cases (n == 0)) [ inl e ↦ rw e v | inr e ↦ rw e ih ]

-- One digit read.
num_loop_digit :
    (m d i : ℕ) (cs : List ℕ)
    → d < 10
    → m * 10 + d < 2 ^ 64
    → num_loop m i ((48 + d) ∷ cs) ≡ num_loop (m * 10 + d) (i + 1) cs
unfolding num_loop
num_loop_digit m d i cs p q =
    let digit : is_digit (48 + d) ≡ true = ground (arith, p) in
    let value : min (min (m * 10) (2 ^ 64 - 1) + (48 + d - 48)) (2 ^ 64 - 1) ≡ m * 10 + d =
      omega (arith, q) in
    rw digit (ap (λ v. num_loop v (i + 1) cs) value)

-- Reading the digits of `n` gives `n` in front of the rest.
pub num_loop-dec_loop :
    (k n i : ℕ) (buf : List ℕ)
    → n < ten_to k
    → n < 2 ^ 64
    → num_loop 0 i (dec_loop k n buf) ≡ num_loop n (i + count k n) buf
unfolding dec_loop
num_loop-dec_loop zero n i buf p q = ap₂ (λ v j. num_loop v j buf) (omega (arith, p)) (omega arith)
num_loop-dec_loop (suc k) n i buf p q =
    let ih =
      num_loop-dec_loop k (n / 10) i ((48 + n % 10) ∷ buf) (omega (arith, p)) (omega (arith, q)) in
    let step =
      num_loop_digit (n / 10) (n % 10) (i + count k (n / 10)) buf (omega arith)
        (omega (arith, q)) in
    let value : n / 10 * 10 + n % 10 ≡ n = omega arith in
    let far : i + count k (n / 10) + 1 ≡ i + (count k (n / 10) + 1) = omega arith in
    elim (Bool-cases (n == 0)) [
      | inl e ↦ rw e (ap₂ (λ v j. num_loop v j buf) (ground (arith, e)) (omega arith))
      | inr e ↦ rw e (ih ∙ step ∙ ap₂ (λ v j. num_loop v j buf) value far)
    ]

pub dec_loop_zero : (k : ℕ) (buf : List ℕ) → dec_loop k 0 buf ≡ buf
unfolding dec_loop
dec_loop_zero zero buf = refl
dec_loop_zero (suc k) buf = refl

-- The first digit is not 0.
pub is_zero_flag-dec_loop :
    (k n : ℕ) (buf : List ℕ) → 0 < n → n < ten_to k → is_zero_flag (dec_loop k n buf) ≡ false
unfolding dec_loop
is_zero_flag-dec_loop zero n buf p q = absurd (omega (arith, p, q))
is_zero_flag-dec_loop (suc k) n buf p q =
    let more : (n == 0) ≡ false = ground (arith, p) in
    elim (Bool-cases (n / 10 == 0)) [
      | inl e ↦
          let last : n / 10 ≡ 0 = ground (arith, e) in
          let first : dec_loop k (n / 10) ((48 + n % 10) ∷ buf) ≡ (48 + n % 10) ∷ buf =
            ap (λ m. dec_loop k m ((48 + n % 10) ∷ buf)) last
            ∙ dec_loop_zero k ((48 + n % 10) ∷ buf) in
          let nonzero : (48 + n % 10 == 48) ≡ false = ground (arith, p, last) in
          rw more (ap is_zero_flag first ∙ nonzero)
      | inr e ↦ rw more (
          is_zero_flag-dec_loop k (n / 10) ((48 + n % 10) ∷ buf) (ground (arith, e))
            (omega (arith, q)))
    ]

pub dec_digits-IsDigits : (n : ℕ) → IsDigits (dec_digits n)
dec_digits-IsDigits n = elim (Bool-cases (n == 0)) [
  | inl e ↦ rw e (omega arith, omega arith, tt)
  | inr e ↦ rw e (dec_loop-IsDigits 20 n [] tt)
]

-- Digits are ASCII characters.
pub write_chars_digits : (cs : List ℕ) → IsDigits cs → write_chars cs ≡ cs
write_chars_digits [] v = refl
write_chars_digits (c ∷ cs) v =
    let low : ltb c 128 ≡ true = let p : c ≤ 57 = v.1 in ground (arith, p) in
    rw low (ap (λ k. c ∷ k) (write_chars_digits cs v.2))

-- A text that does not go on with a digit.
abbrev pub IsEnd : List ℕ → Type 0
IsEnd [] = Unit
IsEnd (c ∷ cs) = is_digit c ≡ false

pub num_loop-IsEnd : (v i : ℕ) (cs : List ℕ) → IsEnd cs → num_loop v i cs ≡ (v, i)
unfolding num_loop
num_loop-IsEnd v i [] e = refl
num_loop-IsEnd v i (c ∷ cs) e = rw e refl

-- Reading a number, with zeros in front, up to where its digits end.
pub num_loop-dec_digits :
    (n i : ℕ) (rest : List ℕ)
    → n < 2 ^ 64
    → IsEnd rest
    → num_loop 0 i (dec_digits n ++ rest) ≡ (n, i + length (dec_digits n))
num_loop-dec_digits n i rest p e = elim (Bool-cases (n == 0)) [
  | inl z ↦
      let none_read : num_loop 0 i ((48 + 0) ∷ rest) ≡ num_loop (0 * 10 + 0) (i + 1) rest =
        num_loop_digit 0 0 i rest (omega arith) (omega arith) in
      let nothing : 0 ≡ n = ground (arith, z) in
      rw z (none_read ∙ num_loop-IsEnd 0 (i + 1) rest e ∙ ap (λ k. (k, i + 1)) nothing)
  | inr z ↦
      let size : count 20 n ≡ length (dec_loop 20 n []) =
        let l = length-dec_loop 20 n [] in omega (arith, l) in
      rw z (
        ap (num_loop 0 i) (sym (dec_loop-append 20 n [] rest))
        ∙ num_loop-dec_loop 20 n i rest (omega (arith, p)) p
        ∙ num_loop-IsEnd n (i + count 20 n) rest e
        ∙ ap (λ k. (n, i + k)) size)
]

pub num_loop-write_pad :
    (w i : ℕ) (cs : List ℕ) → num_loop 0 i (write_pad w 48 ++ cs) ≡ num_loop 0 (i + w) cs
num_loop-write_pad zero i cs = ap (λ j. num_loop 0 j cs) (omega arith)
num_loop-write_pad (suc w) i cs =
    num_loop_digit 0 0 i (write_pad w 48 ++ cs) (omega arith) (omega arith)
    ∙ num_loop-write_pad w (i + 1) cs
    ∙ ap (λ j. num_loop 0 j cs) (omega arith)

pub length-write_pad : (w c : ℕ) → length (write_pad w c) ≡ w
length-write_pad zero c = refl
length-write_pad (suc w) c = let ih = length-write_pad w c in omega (arith, ih)

-- A number below 2 ^ 64 that is written in decimal with zeros in front, in any width, is read back, and
-- nothing of the text is left over.
pub parse_num-write_hex_or_dec :
    (v w : ℕ)
    → v < 2 ^ 64
    → parse_num (write_hex_or_dec v (record { width = w; zero_pad = true }) false)
      ≡ (v, length (write_hex_or_dec v (record { width = w; zero_pad = true }) false))
unfolding write_hex_or_dec
parse_num-write_hex_or_dec v w p =
    let digits = dec_digits v in
    let pad = w - length digits in
    let all = append-nil digits in
    let plain = write_chars_digits digits (dec_digits-IsDigits v) in
    let whole = length-append (write_pad pad 48) (write_chars digits) in
    let lead = length-write_pad pad 48 in
    let same = ap length plain in
    ap (λ k. parse_num (write_pad pad 48 ++ k)) (plain ∙ sym all)
    ∙ num_loop-write_pad pad 0 (digits ++ [])
    ∙ num_loop-dec_digits v (0 + pad) [] p tt
    ∙ ap (λ k. (v, k)) (omega (arith, whole, lead, same))
