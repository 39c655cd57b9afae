-- ===== src/Net/Udp/Slots.antt =====
-- Net/Udp: the slots of a queue's messages, a ring of eight.
use onyx_kernel.Prelude.{
  ℕ, zero, suc, ◌+◌, ◌-◌, ◌%◌, ◌<◌, ◌≡◌, ◌≢◌, refl, sym, ap, ap₂, ◌∙◌, List, [], ◌∷◌, ◌++◌, length,
  get_or, get_or-set_self, get_or-set_ne, set, arith,
}
use onyx_kernel.Net.Udp.{queue_messages}

module _ {ℓ} {A : Type ℓ} (d : A) where
  -- The `n` entries from `first` on.
  abbrev pub slots_from : ℕ → ℕ → List A → List A
  slots_from zero first xs = []
  slots_from (suc n) first xs = get_or xs (first % queue_messages) d ∷ slots_from n (first + 1) xs

  pub length-slots_from : (n first : ℕ) (xs : List A) → length (slots_from n first xs) ≡ n
  length-slots_from zero first xs = refl
  length-slots_from (suc n) first xs = ap suc (length-slots_from n (first + 1) xs)

  pub slots_from-set :
      (n first at : ℕ) (v : A) (xs : List A)
      → length xs ≡ queue_messages
      → at ≡ (first + n) % queue_messages
      → n < queue_messages
      → slots_from (suc n) first (set xs at v) ≡ slots_from n first xs ++ v ∷ []
  slots_from-set zero first at v xs l e h =
      let here : first % queue_messages ≡ at = omega (arith, e) in
      rw here (ap (λ b. b ∷ []) (get_or-set_self xs at v d (omega (arith, l, e))))
  slots_from-set (suc n) first at v xs l e h =
      let apart : at ≢ first % queue_messages = λ f. omega (arith, e, f, h) in
      ap₂ (λ b bs. b ∷ bs) (get_or-set_ne xs v d apart)
        (slots_from-set n (first + 1) at v xs l (omega (arith, e)) (omega (arith, h)))

  pub slots_from-mod :
      (n first : ℕ) (xs : List A) → slots_from n (first % queue_messages) xs ≡ slots_from n first xs
  slots_from-mod zero first xs = refl
  slots_from-mod (suc n) first xs =
      let front : first % queue_messages % queue_messages ≡ first % queue_messages = omega arith in
      let behind : slots_from n (first % queue_messages + 1) xs ≡ slots_from n (first + 1) xs =
        sym (slots_from-mod n (first % queue_messages + 1) xs)
        ∙ ap (λ k. slots_from n k xs) (omega arith)
        ∙ slots_from-mod n (first + 1) xs in
      ap₂ (λ k bs. get_or xs k d ∷ bs) front behind

  -- The oldest entry, and the others behind it.
  pub slots_from-first :
      (n first : ℕ) (xs : List A)
      → first < queue_messages
      → 0 < n
      → slots_from n first xs
        ≡ get_or xs first d ∷ slots_from (n - 1) ((first + 1) % queue_messages) xs
  slots_from-first n first xs l h =
      let one : n ≡ suc (n - 1) = omega (arith, h) in
      let front : first % queue_messages ≡ first = omega (arith, l) in
      ap (λ k. slots_from k first xs) one
      ∙ ap₂ (λ k bs. get_or xs k d ∷ bs) front (sym (slots_from-mod (n - 1) (first + 1) xs))
