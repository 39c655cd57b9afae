-- ===== src/Net/Checksum/Verify.antt =====
-- Net/Checksum: a checksum in its field, checked by the receiver.
use onyx_kernel.Prelude.{
  IsByte, ℕ, ℕ_discrete, ◌+◌, ◌-◌, ◌*◌, ◌/◌, ◌%◌, ◌^◌, ◌≤◌, ◌<◌, ◌≡◌, refl, sym, ap, ◌∙◌, List, [],
  ◌∷◌, ◌++◌, length, length-append, All, All-get_or, get_or, arith,
}
use onyx_kernel.Net.Checksum.{
  add_u32, raw_sum, fold_loop, fold, checksum, pseudo_sum, pseudo_checksum,
}
use onyx_kernel.Net.Checksum.Sum.{word_sum, raw_sum_lem, fold_loop_lem}

-- A segment with a 16-bit field behind an even number of bytes.
abbrev pub with_field : List ℕ → ℕ → List ℕ → List ℕ
with_field before field after = before ++ field / 256 ∷ field % 256 ∷ after

length-with_field :
    (before : List ℕ) (field : ℕ) (after : List ℕ)
    → length (with_field before field after) ≡ length before + 2 + length after
length-with_field before field after =
    omega (arith, length-append before (field / 256 ∷ field % 256 ∷ after))

word_sum-append :
    (before rest : List ℕ)
    → length before % 2 ≡ 0
    → word_sum (before ++ rest) ≡ word_sum before + word_sum rest
word_sum-append [] rest h = omega arith
word_sum-append (b ∷ []) rest h = absurd (omega (arith, h))
word_sum-append (b ∷ c ∷ before) rest h =
    omega (arith, word_sum-append before rest (omega (arith, h)))

word_sum-with_field :
    (before : List ℕ) (field : ℕ) (after : List ℕ)
    → length before % 2 ≡ 0
    → word_sum (with_field before field after) ≡ word_sum before + field + word_sum after
word_sum-with_field before field after h =
    omega (arith, word_sum-append before (field / 256 ∷ field % 256 ∷ after) h)

word_sum-bound :
    (bytes : List ℕ) → All IsByte bytes → 2 * word_sum bytes ≤ 65535 * (length bytes + 1)
word_sum-bound [] h = omega arith
word_sum-bound (b ∷ []) h = omega (arith, h.0)
word_sum-bound (b ∷ c ∷ bytes) h = omega (arith, h.0, h.1.0, word_sum-bound bytes h.1.1)

fold_loop_zero : 2 ^ 16 - 1 - fold_loop 3 0 % 2 ^ 16 ≡ 65535
unfolding fold_loop
fold_loop_zero = refl

fold_lem :
    (s : ℕ)
    → s < 2 ^ 32
    → ((s + fold s) % 65535 ≡ 0)
      × (fold s ≤ 65535)
      × (0 < s → s % 65535 ≡ 0 → fold s ≡ 0)
      × (s ≡ 0 → fold s ≡ 65535)
unfolding fold
fold_lem s h =
    let one = fold_loop_lem s h in
    (
      omega (arith, one.0, one.1),
      omega arith,
      (λ p z. omega (arith, one.0, one.1, one.2 p, z)),
      (λ z. rw z fold_loop_zero),
    )

-- The fold of a sum with its own folded complement added is 0.
fold-fold : (s : ℕ) → s + 65535 < 2 ^ 32 → fold (s + fold s) ≡ 0
fold-fold s h =
    let one = fold_lem s (omega (arith, h)) in
    (fold_lem (s + fold s) (omega (arith, h, one.1))).2
      (elim (ℕ_discrete s 0) [ yes e ↦ omega (arith, one.3 e) | no n ↦ omega (arith, n) ]) one.0

-- The sum of a segment with the checksum in its field, over a head sum `h` of other words.
fold-with_field :
    (h : ℕ) (before after : List ℕ)
    → length before % 2 ≡ 0
    → h + word_sum before + word_sum after + 65535 < 2 ^ 32
    → fold (
        (h
          + word_sum (
              with_field before (fold ((h + word_sum (with_field before 0 after)) % 2 ^ 32)) after))
        % 2 ^ 32)
      ≡ 0
fold-with_field h before after even room =
    let s = h + word_sum before + word_sum after in
    let empty : (h + word_sum (with_field before 0 after)) % 2 ^ 32 ≡ s =
      omega (arith, word_sum-with_field before 0 after even, room) in
    let c = fold s in
    let small = (fold_lem s (omega (arith, room))).1 in
    let filled : (h + word_sum (with_field before c after)) % 2 ^ 32 ≡ s + c =
      omega (arith, word_sum-with_field before c after even, room, small) in
    rw empty (rw filled (fold-fold s room))

checksum_eq : (bytes : List ℕ) → checksum bytes ≡ fold ((0 + word_sum bytes) % 2 ^ 32)
unfolding checksum
checksum_eq bytes = ap fold (raw_sum_lem bytes 0 (omega arith))

pseudo_eq :
    (src dst : List ℕ) (proto : ℕ) (segment : List ℕ)
    → pseudo_checksum src dst proto segment
      ≡ fold ((pseudo_sum src dst proto (length segment) + word_sum segment) % 2 ^ 32)
unfolding pseudo_checksum
pseudo_eq src dst proto segment =
    let sums : add_u32 (pseudo_sum src dst proto (length segment)) (raw_sum segment 0)
        ≡ (pseudo_sum src dst proto (length segment) + word_sum segment) % 2 ^ 32 =
      omega (arith, raw_sum_lem segment 0 (omega arith)) in
    ap fold sums

-- The bytes before and after the field of a segment that fits an IPv4 packet.
pub record IsSegment (before after : List ℕ) : Type 0 where
  pub even : length before % 2 ≡ 0
  pub before_bytes : All IsByte before
  pub after_bytes : All IsByte after
  pub short : length before + length after < 2 ^ 16

sum_room :
    (before after : List ℕ)
    → IsSegment before after
    → word_sum before + word_sum after + 2 ^ 20 < 2 ^ 32
sum_room before after v =
    omega (arith, word_sum-bound before v.before_bytes, word_sum-bound after v.after_bytes, v.short)

-- A packet is valid when the checksum taken over its empty field stands in the field.
pub checksum-checksum :
    (before after : List ℕ)
    → IsSegment before after
    → checksum (with_field before (checksum (with_field before 0 after)) after) ≡ 0
checksum-checksum before after v = rw (checksum_eq (with_field before 0 after)) (
    checksum_eq
      (with_field before (fold ((0 + word_sum (with_field before 0 after)) % 2 ^ 32)) after)
    ∙ fold-with_field 0 before after v.even (omega (arith, sum_room before after v)))

address_byte : (ip : List ℕ) (i : ℕ) → All IsByte ip → get_or ip i 0 < 256
address_byte ip i h = All-get_or IsByte ip i {d = 0} h (omega arith)

pseudo_small :
    (src dst : List ℕ) (proto len : ℕ)
    → All IsByte src
    → All IsByte dst
    → proto < 256
    → len < 2 ^ 17
    → pseudo_sum src dst proto len < 2 ^ 19
pseudo_small src dst proto len vs vd hp hl = omega (
  arith,
  hp,
  hl,
  address_byte src 0 vs,
  address_byte src 1 vs,
  address_byte src 2 vs,
  address_byte src 3 vs,
  address_byte dst 0 vd,
  address_byte dst 1 vd,
  address_byte dst 2 vd,
  address_byte dst 3 vd,
)

pseudo_head :
    (src dst : List ℕ) (proto : ℕ) (before after : List ℕ) (c : ℕ)
    → pseudo_checksum src dst proto (with_field before c after)
      ≡ fold (
          (pseudo_sum src dst proto (length before + 2 + length after)
            + word_sum (with_field before c after))
          % 2 ^ 32)
pseudo_head src dst proto before after c =
    pseudo_eq src dst proto (with_field before c after)
    ∙ ap (λ k. fold ((pseudo_sum src dst proto k + word_sum (with_field before c after)) % 2 ^ 32))
        (length-with_field before c after)

-- A segment is valid when the transport checksum taken over its empty field stands in the field.
pub pseudo_checksum-pseudo_checksum :
    (src dst : List ℕ) (proto : ℕ) (before after : List ℕ)
    → All IsByte src
    → All IsByte dst
    → proto < 256
    → IsSegment before after
    → pseudo_checksum src dst proto
        (with_field before (pseudo_checksum src dst proto (with_field before 0 after)) after)
      ≡ 0
pseudo_checksum-pseudo_checksum src dst proto before after vs vd hp v =
    let n = length before + 2 + length after in
    let h = pseudo_sum src dst proto n in
    let small : h < 2 ^ 19 = pseudo_small src dst proto n vs vd hp (omega (arith, v.short)) in
    let head = pseudo_head src dst proto before after in
    rw (head 0) (
      head (fold ((h + word_sum (with_field before 0 after)) % 2 ^ 32))
      ∙ fold-with_field h before after v.even (omega (arith, small, sum_room before after v)))

-- So is one that has 65535 in the field, where that checksum is 0.
pub pseudo_checksum_ones :
    (src dst : List ℕ) (proto : ℕ) (before after : List ℕ)
    → All IsByte src
    → All IsByte dst
    → proto < 256
    → IsSegment before after
    → pseudo_checksum src dst proto (with_field before 0 after) ≡ 0
    → pseudo_checksum src dst proto (with_field before 65535 after) ≡ 0
pseudo_checksum_ones src dst proto before after vs vd hp v e =
    let n = length before + 2 + length after in
    let h = pseudo_sum src dst proto n in
    let small : h < 2 ^ 19 = pseudo_small src dst proto n vs vd hp (omega (arith, v.short)) in
    let s = h + word_sum before + word_sum after in
    let room = sum_room before after v in
    let head = pseudo_head src dst proto before after in
    let bare : (h + word_sum (with_field before 0 after)) % 2 ^ 32 ≡ s =
      omega (arith, word_sum-with_field before 0 after v.even, room, small) in
    let full : (h + word_sum (with_field before 65535 after)) % 2 ^ 32 ≡ s + 65535 =
      omega (arith, word_sum-with_field before 65535 after v.even, room, small) in
    let zero_fold : fold s ≡ 0 = ap fold (sym bare) ∙ sym (head 0) ∙ e in
    let one = fold_lem s (omega (arith, room, small)) in
    let multiple : (s + 65535) % 65535 ≡ 0 = omega (arith, one.0, zero_fold) in
    head 65535
    ∙ ap fold full
    ∙ (fold_lem (s + 65535) (omega (arith, room, small))).2 (omega arith) multiple

pub pseudo_checksum_lt :
    (src dst : List ℕ) (proto : ℕ) (segment : List ℕ)
    → pseudo_checksum src dst proto segment < 2 ^ 16
unfolding pseudo_checksum fold
pseudo_checksum_lt src dst proto segment = omega arith
