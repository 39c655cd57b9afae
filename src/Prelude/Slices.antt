-- ===== src/Prelude/Slices.antt =====
-- Prefixes and suffixes of lists.
use Prim.Native.Nat.{ℕ, zero, suc, ◌+◌, ◌-◌, ◌≤◌, ◌<◌, min}
use mathlib.Core.Path.{◌≡◌, refl, sym, ap, ◌∙◌}
use mathlib.Core.Logic.{◌⊎◌, inl, inr}
use mathlib.Core.Option.{none, some}
use mathlib.Core.List.{List, [], ◌∷◌, ◌++◌}
use native.Mathlib.Omega.{arith}
use onyx_kernel.Prelude.Lists.{length, get_elem?, set, take, drop}

module _ {ℓ} {A : Type ℓ} where
  pub take_nil : (n : ℕ) → take {A = A} n [] ≡ []
  take_nil zero = refl
  take_nil (suc n) = refl

  pub take-set-suc :
      (n : ℕ) (xs : List A) (v : A)
      → n < length xs
      → take (suc n) (set xs n v) ≡ take n xs ++ v ∷ []
  take-set-suc n [] v h = absurd (omega arith)
  take-set-suc zero (x ∷ xs) v h = refl
  take-set-suc (suc n) (x ∷ xs) v h = ap (λ t. x ∷ t) (take-set-suc n xs v (omega arith))

  pub take-append_le : (n : ℕ) (xs ys : List A) → n ≤ length xs → take n (xs ++ ys) ≡ take n xs
  take-append_le zero xs ys h = refl
  take-append_le (suc n) [] ys h = absurd (omega arith)
  take-append_le (suc n) (x ∷ xs) ys h = ap (λ t. x ∷ t) (take-append_le n xs ys (omega arith))

  pub drop-append_le :
      (n : ℕ) (xs ys : List A) → n ≤ length xs → drop n (xs ++ ys) ≡ drop n xs ++ ys
  drop-append_le zero xs ys h = refl
  drop-append_le (suc n) [] ys h = absurd (omega arith)
  drop-append_le (suc n) (x ∷ xs) ys h = drop-append_le n xs ys (omega arith)

  pub drop-take : (n m : ℕ) (xs : List A) → drop n (take m xs) ≡ take (m - n) (drop n xs)
  drop-take zero m xs = ap (λ k. take k xs) (omega arith)
  drop-take (suc n) zero xs =
      let none_left : 0 ≡ 0 - suc n = omega arith in ap (λ k. take k (drop (suc n) xs)) none_left
  drop-take (suc n) (suc m) [] = sym (take_nil (suc m - suc n))
  drop-take (suc n) (suc m) (x ∷ xs) = drop-take n m xs ∙ ap (λ k. take k (drop n xs)) (omega arith)

  pub take-take : (m n : ℕ) (xs : List A) → take m (take n xs) ≡ take (min n m) xs
  take-take zero n xs = let none_left : 0 ≡ min n 0 = omega arith in ap (λ k. take k xs) none_left
  take-take (suc m) zero xs =
      let none_left : 0 ≡ min 0 (suc m) = omega arith in ap (λ k. take k xs) none_left
  take-take (suc m) (suc n) [] = sym (take_nil (min (suc n) (suc m)))
  take-take (suc m) (suc n) (x ∷ xs) =
      let one : suc (min n m) ≡ min (suc n) (suc m) = omega arith in
      ap (λ k. x ∷ k) (take-take m n xs) ∙ ap (λ k. take k (x ∷ xs)) one

  pub drop_nil : (n : ℕ) → drop {A = A} n [] ≡ []
  drop_nil zero = refl
  drop_nil (suc n) = refl

  pub drop-drop : (n k : ℕ) (xs : List A) → drop n (drop k xs) ≡ drop (k + n) xs
  drop-drop n zero xs = ap (λ t. drop t xs) (omega arith)
  drop-drop n (suc k) [] = drop_nil n ∙ sym (drop_nil (suc k + n))
  drop-drop n (suc k) (x ∷ xs) =
      let order : suc (k + n) ≡ suc k + n = omega arith in
      drop-drop n k xs ∙ ap (λ t. drop t (x ∷ xs)) order

-- To split on a computed list and keep the equation.
pub List-cases {ℓ} : {A : Type ℓ} (l : List A) → (l ≡ []) ⊎ ((x : A) × (k : List A) × (l ≡ x ∷ k))
List-cases [] = inl refl
List-cases (x ∷ l) = inr (x, l, refl)

module _ {ℓ} {A : Type ℓ} where
  pub get_elem?-drop_nil : (n : ℕ) (l : List A) → drop n l ≡ [] → get_elem? l n ≡ none
  get_elem?-drop_nil n [] e = refl
  get_elem?-drop_nil zero (x ∷ l) e = absurd (cc)
  get_elem?-drop_nil (suc n) (x ∷ l) e = get_elem?-drop_nil n l e

  pub get_elem?-drop_cons :
      (n : ℕ) (l : List A) (x : A) (k : List A) → drop n l ≡ x ∷ k → get_elem? l n ≡ some x
  get_elem?-drop_cons n [] x k e = absurd (ground (arith, drop_nil {A = A} n, e))
  get_elem?-drop_cons zero (y ∷ l) x k e = cc
  get_elem?-drop_cons (suc n) (y ∷ l) x k e = get_elem?-drop_cons n l x k e
