-- ===== src/Proc/Runqueue/Chain.antt =====
-- Proc/Runqueue: lists of processes threaded through pointers.
use onyx_kernel.Prelude.{
  ℕ, ◌≡◌, ◌≢◌, refl, sym, subst, Bool, true, false, ◌||◌, Option, none, some, List, [], ◌∷◌, ◌++◌,
  ◌==◌, arith,
}

abbrev pub mem : ℕ → List ℕ → Bool
mem p [] = false
mem p (q ∷ l) = (q == p) || mem p l

abbrev pub Distinct : List ℕ → Type 0
Distinct [] = Unit
Distinct (p ∷ l) = (mem p l ≡ false) × Distinct l

-- The last process of a queue that starts with `p`, or of any queue.
abbrev pub last_of : ℕ → List ℕ → ℕ
last_of p [] = p
last_of p (q ∷ l) = last_of q l

abbrev pub last? : List ℕ → Option ℕ
last? [] = none
last? (p ∷ l) = some (last_of p l)

-- The pointers `next` lead from `head` through the processes of the list to null.
abbrev pub Chain : (ℕ → Option ℕ) → Option ℕ → List ℕ → Type 0
Chain next head [] = head ≡ none
Chain next head (p ∷ l) = (head ≡ some p) × Chain next (next p) l

pub mem-head : (p : ℕ) (l : List ℕ) → mem p (p ∷ l) ≡ true
mem-head p l = ground arith

pub mem-tail : (p q : ℕ) (l : List ℕ) → mem p l ≡ true → mem p (q ∷ l) ≡ true
mem-tail p q l h = ground (arith, h)

pub mem-ne : (p q : ℕ) (l : List ℕ) → mem p l ≡ false → mem q l ≡ true → q ≢ p
mem-ne p q l h k e = absurd (cc)

pub mem-append : (p : ℕ) (xs ys : List ℕ) → mem p (xs ++ ys) ≡ (mem p xs || mem p ys)
mem-append p [] ys = refl
mem-append p (x ∷ xs) ys = ground (arith, mem-append p xs ys)

pub mem-left : (p : ℕ) (xs ys : List ℕ) → mem p xs ≡ true → mem p (xs ++ ys) ≡ true
mem-left p xs ys h = ground (arith, mem-append p xs ys, h)

pub mem-right : (p : ℕ) (xs ys : List ℕ) → mem p ys ≡ true → mem p (xs ++ ys) ≡ true
mem-right p xs ys h = ground (arith, mem-append p xs ys, h)

pub mem-last : (p : ℕ) (l : List ℕ) → mem (last_of p l) (p ∷ l) ≡ true
mem-last p [] = mem-head p []
mem-last p (q ∷ l) = mem-tail (last_of q l) p (q ∷ l) (mem-last q l)

-- Pointers that agree on the processes of a list.
pub Chain-frame :
    (next next' : ℕ → Option ℕ) (head : Option ℕ) (l : List ℕ)
    → ((q : ℕ) → mem q l ≡ true → next' q ≡ next q)
    → Chain next head l
    → Chain next' head l
Chain-frame next next' head [] same c = c
Chain-frame next next' head (p ∷ l) same c = (
  c.0,
  subst (λ h. Chain next' h l) (sym (same p (mem-head p l)))
      (Chain-frame next next' (next p) l (λ q m. same q (mem-tail q p l m)) c.1),
)

-- A process linked behind the last one.
pub Chain-snoc :
    (next next' : ℕ → Option ℕ) (head : Option ℕ) (x : ℕ) (l : List ℕ) (p : ℕ)
    → Distinct (x ∷ l)
    → ((q : ℕ) → mem q (x ∷ l) ≡ true → q ≢ last_of x l → next' q ≡ next q)
    → next' (last_of x l) ≡ some p
    → next' p ≡ none
    → Chain next head (x ∷ l)
    → Chain next' head ((x ∷ l) ++ p ∷ [])
Chain-snoc next next' head x [] p d same et ep c = (c.0, (et, ep))
Chain-snoc next next' head x (y ∷ l) p d same et ep c =
    let differ : x ≢ last_of y l =
      λ e. absurd (mem-ne x (last_of y l) (y ∷ l) d.0 (mem-last y l) (sym e)) in
    (
      c.0,
      subst (λ h. Chain next' h ((y ∷ l) ++ p ∷ [])) (sym (same x (mem-head x (y ∷ l)) differ))
          (Chain-snoc next next' (next x) y l p d.1 (λ q m n. same q (mem-tail q x (y ∷ l) m) n) et
            ep c.1),
    )

-- The process `p` behind `q` passed over.
pub Chain-cut :
    (next next' : ℕ → Option ℕ) (head : Option ℕ) (x : ℕ) (l : List ℕ) (p : ℕ) (r : List ℕ)
    → Distinct ((x ∷ l) ++ p ∷ r)
    → ((q : ℕ) → mem q ((x ∷ l) ++ r) ≡ true → q ≢ last_of x l → next' q ≡ next q)
    → next' (last_of x l) ≡ next p
    → Chain next head ((x ∷ l) ++ p ∷ r)
    → Chain next' head ((x ∷ l) ++ r)
Chain-cut next next' head x [] p r d same et c = (
  c.0,
  subst (λ h. Chain next' h r) (sym et)
      (Chain-frame next next' (next p) r
        (λ q m. same q (mem-tail q x r m) (mem-ne x q r (ground (arith, d.0)) m)) c.1.1),
)
Chain-cut next next' head x (y ∷ l) p r d same et c =
    let differ : x ≢ last_of y l = λ e. absurd (
      mem-ne x (last_of y l) ((y ∷ l) ++ p ∷ r) d.0
        (mem-left (last_of y l) (y ∷ l) (p ∷ r) (mem-last y l)) (sym e)) in
    (
      c.0,
      subst (λ h. Chain next' h ((y ∷ l) ++ r)) (sym (same x (mem-head x ((y ∷ l) ++ r)) differ))
          (Chain-cut next next' (next x) y l p r d.1
            (λ q m n. same q (mem-tail q x ((y ∷ l) ++ r) m) n) et c.1),
    )
