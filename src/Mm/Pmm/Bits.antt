-- ===== src/Mm/Pmm/Bits.antt =====
-- The bitmap of the page allocator as a set of page indices.
use onyx_kernel.Prelude.Passes
use onyx_kernel.Prelude.{
  ℕ, ◌*◌, ◌/◌, ◌%◌, ◌≤◌, ◌<◌, ◌≡◌, refl, sym, ap, ◌∙◌, List, length, get_or, set, All, All-set,
  All-get_or, length-set, get_or-set_self, get_or-set_ne, ℕ_discrete, Bool, true, false, not, ◌&&◌,
  ◌||◌, ltb, ◌==◌, arith,
}
use onyx_kernel.Mm.Pmm.{Pmm, page_size, test_bit, set_bit, clear_bit, bm_get, bm_set, bm_clr}

abbrev same : Bool → Bool → Bool
same true b = b
same false b = not b

same-eq : (a b : Bool) → same a b ≡ true → a ≡ b
same-eq true b h = sym h
same-eq false b h = ground arith

-- What setting and clearing the bit `k` do to the bit `j` of a byte.
abbrev byte_law : ℕ → ℕ → ℕ → Bool
byte_law b k j =
    same (test_bit (set_bit b k) j) (k == j || test_bit b j)
    && same (test_bit (clear_bit b k) j) (not (k == j) && test_bit b j)
    && ltb (set_bit b k) 256
    && ltb (clear_bit b k) 256

byte_table :
    Passes.passes (λ b. Passes.passes (λ k. Passes.passes (λ j. byte_law b k j) 8) 8) 256 ≡ true
unfolding Passes.passes test_bit set_bit clear_bit
byte_table = refl

-- A bitmap of bytes with a bit for every page, over an aligned base.
pub record IsPmm (p : Pmm) : Type 0 where
  pub bytes : All (λ b. b < 256) p.bitmap
  pub room : p.total_pages ≤ 8 * length p.bitmap
  pub aligned : p.base % page_size ≡ 0

byte_laws :
    (b k j : ℕ)
    → b < 256
    → k < 8
    → j < 8
    → (test_bit (set_bit b k) j ≡ (k == j || test_bit b j))
      × (test_bit (clear_bit b k) j ≡ (not (k == j) && test_bit b j))
      × (set_bit b k < 256)
      × (clear_bit b k < 256)
byte_laws b k j hb hk hj =
    let rows =
      Passes.passes-at (λ b. Passes.passes (λ k. Passes.passes (λ j. byte_law b k j) 8) 8) hb
        byte_table in
    let row = Passes.passes-at (λ k. Passes.passes (λ j. byte_law b k j) 8) hk rows in
    let law : byte_law b k j ≡ true = Passes.passes-at (λ j. byte_law b k j) hj row in
    ground (
      arith,
      law,
      same-eq (test_bit (set_bit b k) j) (k == j || test_bit b j),
      same-eq (test_bit (clear_bit b k) j) (not (k == j) && test_bit b j),
    )

get_or_byte : (bs : List ℕ) (i : ℕ) → All (λ b. b < 256) bs → get_or bs i 0 < 256
get_or_byte bs i h = All-get_or (λ b. b < 256) bs i {d = 0} h (omega arith)

pub bm_get-bm_set :
    (p : Pmm) (i j : ℕ)
    → IsPmm p
    → i < p.total_pages
    → bm_get (bm_set p i) j ≡ (i == j || bm_get p j)
unfolding bm_get bm_set
bm_get-bm_set p i j v h =
    let b = get_or p.bitmap (i / 8) 0 in
    let laws =
      byte_laws b (i % 8) (j % 8) (get_or_byte p.bitmap (i / 8) v.bytes) (omega arith)
        (omega arith) in
    elim (ℕ_discrete (i / 8) (j / 8)) [
      | yes e ↦
          let bit : (i % 8 == j % 8) ≡ (i == j) = ground (arith, e) in
          let here : get_or (set p.bitmap (i / 8) (set_bit b (i % 8))) (j / 8) 0
              ≡ set_bit b (i % 8) =
            ap (λ q. get_or (set p.bitmap (i / 8) (set_bit b (i % 8))) q 0) (sym e)
            ∙ get_or-set_self p.bitmap (i / 8) (set_bit b (i % 8)) 0 (omega (arith, h, v.room)) in
          rw here (laws.0 ∙ rw (bit, e) refl)
      | no n ↦
          let there = get_or-set_ne p.bitmap (set_bit b (i % 8)) 0 n in
          let differ : (i == j) ≡ false = ground (arith, n) in rw (there, differ) refl
    ]

pub bm_get-bm_clr :
    (p : Pmm) (i j : ℕ)
    → IsPmm p
    → i < p.total_pages
    → bm_get (bm_clr p i) j ≡ (not (i == j) && bm_get p j)
unfolding bm_get bm_clr
bm_get-bm_clr p i j v h =
    let b = get_or p.bitmap (i / 8) 0 in
    let laws =
      byte_laws b (i % 8) (j % 8) (get_or_byte p.bitmap (i / 8) v.bytes) (omega arith)
        (omega arith) in
    elim (ℕ_discrete (i / 8) (j / 8)) [
      | yes e ↦
          let bit : (i % 8 == j % 8) ≡ (i == j) = ground (arith, e) in
          let here : get_or (set p.bitmap (i / 8) (clear_bit b (i % 8))) (j / 8) 0
              ≡ clear_bit b (i % 8) =
            ap (λ q. get_or (set p.bitmap (i / 8) (clear_bit b (i % 8))) q 0) (sym e)
            ∙ get_or-set_self p.bitmap (i / 8) (clear_bit b (i % 8)) 0 (omega (arith, h, v.room)) in
          rw here (laws.1 ∙ rw (bit, e) refl)
      | no n ↦
          let there = get_or-set_ne p.bitmap (clear_bit b (i % 8)) 0 n in
          let differ : (i == j) ≡ false = ground (arith, n) in rw (there, differ) refl
    ]

pub bm_set-IsPmm : (p : Pmm) (i : ℕ) → IsPmm p → IsPmm (bm_set p i)
unfolding bm_set
bm_set-IsPmm p i v = record {
  bytes =
      All-set (λ b. b < 256) p.bitmap (i / 8) v.bytes
        (byte_laws (get_or p.bitmap (i / 8) 0) (i % 8) 0 (get_or_byte p.bitmap (i / 8) v.bytes)
          (omega arith) (omega arith)).2;
  room =
      omega
        (arith, v.room, length-set p.bitmap (i / 8) (set_bit (get_or p.bitmap (i / 8) 0) (i % 8)));
  aligned = v.aligned;
}
