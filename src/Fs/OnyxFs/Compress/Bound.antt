-- ===== src/Fs/OnyxFs/Compress/Bound.antt =====
-- The size of the code.
use onyx_kernel.Prelude.{
  ℕ, zero, suc, ◌+◌, ◌/◌, ◌≤◌, ◌<◌, ◌≡◌, refl, sym, ap, ◌∙◌, Bool, true, false, ◌||◌, List, [], ◌∷◌,
  length, length-append, drop, max, leb, ◌==◌, if◌then◌else◌, arith, length-take, length-drop,
  Bool-cases, inl, inr, dec_lt,
}
use onyx_kernel.Fs.OnyxFs.Compress.{count_run, literal, packet}
use onyx_kernel.Fs.OnyxFs.Compress.Encode.{count_run-le, literal-le, encode}

-- A list starts with three equal bytes.
abbrev run_here : List ℕ → Bool
run_here [] = false
run_here (b ∷ s) = leb 3 (count_run b 3 (b ∷ s))

-- Where the literals end before 128 bytes, and before the list ends, a run follows.
literal_stops :
    (n : ℕ) (s : List ℕ)
    → literal n s < n
    → literal n s < length s
    → run_here (drop (literal n s) s) ≡ true
unfolding literal
literal_stops zero s h l = absurd (omega arith)
literal_stops (suc n) [] h l = absurd (omega arith)
literal_stops (suc n) (b ∷ s) h l = ground (arith, literal_stops n s)

-- A run of three is seen whatever the limit.
two_equal : (c n : ℕ) (s : List ℕ) → leb 2 (count_run c (suc (suc n)) s) ≡ leb 2 (count_run c 2 s)
unfolding count_run
two_equal c n [] = refl
two_equal c n (x ∷ []) = ground arith
two_equal c n (x ∷ y ∷ s) = ground arith

count_run_self : (c n : ℕ) (s : List ℕ) → count_run c (suc n) (c ∷ s) ≡ suc (count_run c n s)
unfolding count_run
count_run_self c n s = ground arith

run_starts : (c : ℕ) (s : List ℕ) → run_here (c ∷ s) ≡ leb 3 (1 + count_run c 127 s)
run_starts c s = ground (arith, two_equal c 125 s, count_run_self c 2 s)

-- One byte more than the list and its 128th part, unless a run comes first.
abbrev limit : List ℕ → ℕ
limit s = length s + length s / 128 + (if run_here s || length s == 0 then 0 else 1)

-- A run saves a byte, and literals cost one byte for 128 of them, or stop before a run or the end.
packet_run :
    (c : ℕ) (s : List ℕ)
    → run_here (c ∷ s) ≡ true
    → (length (packet c s).0 ≡ 2) × (3 ≤ (packet c s).1) × ((packet c s).1 ≤ suc (length s))
unfolding packet
packet_run c s h = ground (arith, run_starts c s, count_run-le c 127 s)

packet_literal :
    (c : ℕ) (s : List ℕ)
    → run_here (c ∷ s) ≡ false
    → let (p, len) = packet c s in
      (length p ≡ suc len)
      × (0 < len)
      × (len ≤ suc (length s))
      × ((len == 128 || run_here (drop len (c ∷ s)) || len == suc (length s)) ≡ true)
unfolding packet
packet_literal c s h =
    let stops : literal 128 (c ∷ s) < 128
        → literal 128 (c ∷ s) < suc (length s)
        → run_here (drop (literal 128 (c ∷ s)) (c ∷ s)) ≡ true =
      literal_stops 128 (c ∷ s) in
    elim (dec_lt 0 (literal 128 (c ∷ s))) [
      | yes p ↦
          let len : max 1 (literal 128 (c ∷ s)) ≡ literal 128 (c ∷ s) = omega (arith, p) in
          ground (
            arith,
            run_starts c s,
            literal-le 128 (c ∷ s),
            length-take (literal 128 (c ∷ s)) (c ∷ s),
            len,
            stops,
          )
      | no q ↦
          let none_here : literal 128 (c ∷ s) ≡ 0 = omega (arith, q) in
          let here : run_here (drop (literal 128 (c ∷ s)) (c ∷ s)) ≡ true =
            stops (omega (arith, none_here)) (omega (arith, none_here)) in
          let start : run_here (c ∷ s) ≡ true =
            sym (ap (λ k. run_here (drop k (c ∷ s))) none_here) ∙ here in
          absurd (cc (h, start))
    ]

length-encode-limit : (fuel : ℕ) (s : List ℕ) → length s ≤ fuel → length (encode fuel s) ≤ limit s
unfolding encode
length-encode-limit zero [] h = omega arith
length-encode-limit zero (c ∷ s) h = absurd (omega arith)
length-encode-limit (suc fuel) [] h = omega arith
length-encode-limit (suc fuel) (c ∷ s) h =
    let rest = drop (packet c s).1 (c ∷ s) in
    let size = length-append (packet c s).0 (encode fuel rest) in
    let left = length-drop (packet c s).1 (c ∷ s) in
    elim (Bool-cases (run_here (c ∷ s))) [
      | inl e ↦
          let (two, long, most) = packet_run c s e in
          let bound = length-encode-limit fuel rest (omega (arith, left)) in
          ground (arith, size, left, two, long, most, bound, e)
      | inr e ↦
          let (one, some_here, most, why) = packet_literal c s e in
          let bound = length-encode-limit fuel rest (omega (arith, left, some_here)) in
          ground (arith, size, left, one, most, why, bound, e)
    ]

-- The size of the code.
pub length-encode : (s : List ℕ) → length (encode (length s) s) ≤ length s + length s / 128 + 1
length-encode s = ground (arith, length-encode-limit (length s) s (omega arith))
