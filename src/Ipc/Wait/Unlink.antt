-- ===== src/Ipc/Wait/Unlink.antt =====
-- What `disconnect_waiter` does to one wait list.
use onyx_kernel.Prelude.{
  ℕ, zero, suc, ◌<◌, ◌≡◌, refl, sym, subst, ◌∙◌, Option, none, some, List, [], ◌∷◌, ◌++◌,
  append_assoc, length, arith, Bool-cases, inl, inr, ◌==◌, if◌then◌else◌,
}
use onyx_kernel.Proc.State.{Procs, assign, assign_self, assign_ne}
use onyx_kernel.Ipc.Wait.{unlink_loop, unlink, WaitList, NotIn, Distinct}
use onyx_kernel.Ipc.Wait.Wake.{WaitList-frame}

abbrev remove : ℕ → List ℕ → List ℕ
remove p [] = []
remove p (q ∷ l) = if q == p then remove p l else q ∷ remove p l

-- The chain behind a prefix.
tail_of :
    (ps : Procs) (head : Option ℕ) (pre : List ℕ) (q : ℕ) (l : List ℕ)
    → WaitList ps head (pre ++ (q ∷ l))
    → WaitList ps (ps.wait_next q) l
tail_of ps head [] q l w = w.1
tail_of ps head (r ∷ pre) q l w = tail_of ps (ps.wait_next r) pre q l w.1

NotIn-tail : (p : ℕ) (pre l : List ℕ) → NotIn p (pre ++ l) → NotIn p l
NotIn-tail p [] l n = n
NotIn-tail p (r ∷ pre) l n = NotIn-tail p pre l n.1

Distinct-tail : (pre l : List ℕ) → Distinct (pre ++ l) → Distinct l
Distinct-tail [] l d = d
Distinct-tail (r ∷ pre) l d = Distinct-tail pre l d.1

-- Dropping a process from the middle keeps the others distinct.
NotIn-drop :
    (x : ℕ) (pre : List ℕ) (p : ℕ) (l : List ℕ) → NotIn x (pre ++ (p ∷ l)) → NotIn x (pre ++ l)
NotIn-drop x [] p l n = n.1
NotIn-drop x (r ∷ pre) p l n = (n.0, NotIn-drop x pre p l n.1)

Distinct-drop :
    (pre : List ℕ) (p : ℕ) (l : List ℕ) → Distinct (pre ++ (p ∷ l)) → Distinct (pre ++ l)
Distinct-drop [] p l d = d.1
Distinct-drop (r ∷ pre) p l d = (NotIn-drop r pre p l d.0, Distinct-drop pre p l d.1)

-- The assignment that the loop makes at `q`, which stands before `p`.
bypass :
    (ps : Procs) (head : Option ℕ) (pre : List ℕ) (q p : ℕ) (l : List ℕ)
    → WaitList ps head (pre ++ (q ∷ p ∷ l))
    → Distinct (pre ++ (q ∷ p ∷ l))
    → WaitList
        (record ps { wait_next = assign ps.wait_next q (ps.wait_next p) })
        head
        (pre ++ (q ∷ l))
bypass ps head [] q p l w d = (
  w.0,
  subst (λ h. WaitList (record ps { wait_next = assign ps.wait_next q (ps.wait_next p) }) h l)
      (sym (assign_self ps.wait_next q (ps.wait_next p)))
      (WaitList-frame ps (record ps { wait_next = assign ps.wait_next q (ps.wait_next p) })
        (ps.wait_next p) q l d.0.1 (assign_ne ps.wait_next q (ps.wait_next p)) w.1.1),
)
bypass ps head (r ∷ pre) q p l w d = (
  w.0,
  subst
      (λ h.
        WaitList (record ps { wait_next = assign ps.wait_next q (ps.wait_next p) }) h
          (pre ++ (q ∷ l)))
      (sym (assign_ne ps.wait_next q (ps.wait_next p) r (NotIn-tail r pre (q ∷ p ∷ l) d.0).0))
      (bypass ps (ps.wait_next r) pre q p l w.1 d.1),
)

-- The loop ends with the list `l`, and has changed no state.
abbrev Kept : ℕ → ℕ → Procs → Option ℕ → Option ℕ → Option ℕ → List ℕ → Type 0
Kept fuel p ps cur prev head l =
    WaitList (unlink_loop fuel p cur prev head ps).0 (unlink_loop fuel p cur prev head ps).1 l
    × ((unlink_loop fuel p cur prev head ps).0.state ≡ ps.state)

-- The loop with a process `q` kept before `cur`.
unlink_after :
    (fuel p : ℕ) (ps : Procs) (cur head : Option ℕ) (pre : List ℕ) (q : ℕ) (l : List ℕ)
    → cur ≡ ps.wait_next q
    → WaitList ps head (pre ++ (q ∷ l))
    → Distinct (pre ++ (q ∷ l))
    → length l < fuel
    → Kept fuel p ps cur (some q) head (pre ++ (q ∷ remove p l))
unfolding unlink_loop
unlink_after zero p ps cur head pre q l e w d f = absurd (omega arith)
unlink_after (suc fuel) p ps cur head pre q [] e w d f =
    subst (λ c. Kept (suc fuel) p ps c (some q) head (pre ++ (q ∷ [])))
      (sym (e ∙ tail_of ps head pre q [] w)) (w, refl)
unlink_after (suc fuel) p ps cur head pre q (c ∷ l) e w d f =
    let link = tail_of ps head pre q (c ∷ l) w in
    subst (λ x. Kept (suc fuel) p ps x (some q) head (pre ++ (q ∷ remove p (c ∷ l))))
      (sym (e ∙ link.0))
      (elim (Bool-cases (c == p)) [
        | inl same ↦
            rw (same, unlink_loop)
              (unlink_after fuel p
                (record ps { wait_next = assign ps.wait_next q (ps.wait_next c) }) (ps.wait_next c)
                head pre q l (sym (assign_self ps.wait_next q (ps.wait_next c)))
                (bypass ps head pre q c l w d)
                (rw (← append_assoc pre (q ∷ []) l)
                  (Distinct-drop (pre ++ (q ∷ [])) c l (rw append_assoc d)))
                (omega arith))
        | inr other ↦
            rw (other, unlink_loop)
              (subst (λ k. Kept fuel p ps (ps.wait_next c) (some c) head k)
                (append_assoc pre (q ∷ []) (c ∷ remove p l))
                (unlink_after fuel p ps (ps.wait_next c) head (pre ++ (q ∷ [])) c l refl
                  (rw append_assoc w) (rw append_assoc d) (omega arith)))
      ])

-- The loop with no process kept yet.
unlink_front :
    (fuel p : ℕ) (ps : Procs) (head : Option ℕ) (l : List ℕ)
    → WaitList ps head l
    → Distinct l
    → length l < fuel
    → Kept fuel p ps head none head (remove p l)
unfolding unlink_loop
unlink_front zero p ps head l w d f = absurd (omega arith)
unlink_front (suc fuel) p ps head [] w d f =
    subst (λ h. Kept (suc fuel) p ps h none h []) (sym w) (refl, refl)
unlink_front (suc fuel) p ps head (c ∷ l) w d f =
    subst (λ h. Kept (suc fuel) p ps h none h (remove p (c ∷ l))) (sym w.0)
      (elim (Bool-cases (c == p)) [
        | inl same ↦
            rw (same, unlink_loop) (unlink_front fuel p ps (ps.wait_next c) l w.1 d.1 (omega arith))
        | inr other ↦
            rw (other, unlink_loop)
              (unlink_after fuel p ps (ps.wait_next c) (some c) [] c l refl (refl, w.1) d
                (omega arith))
      ])

-- Unlinking `p` takes it out of the list, keeps the order of the others, and changes no state.
pub unlink_lem :
    (fuel p : ℕ) (ps : Procs) (head : Option ℕ) (l : List ℕ)
    → WaitList ps head l
    → Distinct l
    → length l < fuel
    → let (qs, head') = unlink fuel p ps head in
      WaitList qs head' (remove p l) × (qs.state ≡ ps.state)
unfolding unlink
unlink_lem fuel p ps head l w d f = unlink_front fuel p ps head l w d f
