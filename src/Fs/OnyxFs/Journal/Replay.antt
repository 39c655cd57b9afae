-- ===== src/Fs/OnyxFs/Journal/Replay.antt =====
-- Fs/OnyxFs/Journal: the replay of the slots, whether or not it comes to its end.
use onyx_kernel.Prelude.{
  ℕ, ℕ_discrete, suc, ◌+◌, ◌≤◌, ◌<◌, ◌≡◌, refl, sym, ap, subst, ◌∙◌, true, false, none, some, List,
  [], ◌∷◌, ◌++◌, length, take, drop, All, ◌==◌, if◌then◌else◌, arith, inl, inr, ◌⊎◌,
}
use onyx_kernel.Core.Errno.{ok, err, io}
use onyx_kernel.Proc.State.{assign_ne}
use onyx_kernel.Fs.OnyxFs.Journal.{
  Log, Run, and_then, redo_block, replay_loop, journal_replay_entry,
}
use onyx_kernel.Fs.OnyxFs.Journal.Redo.{Slot, redo}
use onyx_kernel.Fs.OnyxFs.Journal.Record.{Slots, Slots-frame}
use onyx_kernel.Fs.OnyxFs.Journal.Clear.{wrote, write_block_lem}

-- The target of a slot lies outside the slots from `at` on and their marker.
abbrev pub IsAway : ℕ → ℕ → Slot → Type 0
IsAway at n none = Unit
IsAway at n (some (c, new)) = (c < at) ⊎ (at + n < c)

-- What the replay of the slots has done: all of them, or the first few.
pub record Replayed (l : Log) (slots : List Slot) (r : Run) : Type 0 where
  pub start : r.1.journal_start ≡ l.journal_start
  pub size : r.1.journal_size ≡ l.journal_size
  pub result :
      ((r.0 ≡ ok tt) × ((b : ℕ) → r.1.disk.blocks b ≡ redo slots b (l.disk.blocks b)))
      ⊎ ((r.0 ≡ err io)
          × (m : ℕ) × ((b : ℕ) → r.1.disk.blocks b ≡ redo (take m slots) b (l.disk.blocks b)))
  pub spent : l.disk.writes_left ≤ r.1.disk.writes_left + length slots
  pub enough : length slots ≤ l.disk.writes_left → r.0 ≡ ok tt

replay_round :
    (n j : ℕ) (l : Log)
    → replay_loop (suc n) j l
      ≡ and_then
          (redo_block (journal_replay_entry (l.disk.blocks (l.journal_start + j))) l)
          (λ m. replay_loop n (j + 1) m)
unfolding replay_loop
replay_round n j l = refl

replay_none : (j : ℕ) (l : Log) → replay_loop 0 j l ≡ (ok tt, l)
unfolding replay_loop
replay_none j l = refl

-- The data laid over a block, read back.
wrote-redo :
    (c : ℕ) (new : List ℕ) (l : Log) (b : ℕ)
    → (wrote c (new ++ drop (length new) (l.disk.blocks c)) l).disk.blocks b
      ≡ (if c == b then new ++ drop (length new) (l.disk.blocks b) else l.disk.blocks b)
wrote-redo c new l b = elim (ℕ_discrete b c) [
  | yes e ↦
      let same : (c == b) ≡ true = ground (arith, e) in
      let here : (b == c) ≡ true = ground (arith, e) in
      rw (same, here) (ap (λ k. new ++ drop (length new) (l.disk.blocks k)) (sym e))
  | no n ↦
      let other : (c == b) ≡ false = ground (arith, n) in
      let there : (b == c) ≡ false = ground (arith, n) in rw (other, there) refl
]

empty-Replayed :
    (l : Log) (slots : List Slot) (r : Run) → Replayed l slots r → Replayed l (none ∷ slots) r
empty-Replayed l slots r v = record {
  start = v.start;
  size = v.size;
  result = elim v.result [ inl e ↦ inl e | inr (e, m, f) ↦ inr (e, suc m, f) ];
  spent = omega (arith, v.spent);
  enough = λ p. v.enough (omega (arith, p));
}

first-Replayed :
    (c : ℕ) (new : List ℕ) (l : Log) (slots : List Slot) (r : Run)
    → 0 < l.disk.writes_left
    → Replayed (wrote c (new ++ drop (length new) (l.disk.blocks c)) l) slots r
    → Replayed l (some (c, new) ∷ slots) r
first-Replayed c new l slots r p v = record {
  start = v.start;
  size = v.size;
  result = elim v.result [
    | inl (e, f) ↦ inl (e, λ b. f b ∙ ap (redo slots b) (wrote-redo c new l b))
    | inr (e, m, f) ↦ inr (e, suc m, λ b. f b ∙ ap (redo (take m slots) b) (wrote-redo c new l b))
  ];
  spent = omega (arith, v.spent, p);
  enough = λ q. v.enough (omega (arith, q));
}

stopped-Replayed :
    (l : Log) (s : Slot) (slots : List Slot)
    → l.disk.writes_left ≡ 0
    → Replayed l (s ∷ slots) (err io, l)
stopped-Replayed l s slots e = record {
  start = refl;
  size = refl;
  result = inr (refl, 0, λ b. refl);
  spent = omega arith;
  enough = λ p. absurd (omega (arith, p, e));
}

pub replay_loop-Replayed :
    (slots : List Slot) (j n : ℕ) (l : Log)
    → Slots l.disk.blocks (l.journal_start + j) slots
    → j + length slots ≤ n
    → All (IsAway l.journal_start n) slots
    → Replayed l slots (replay_loop (length slots) j l)
replay_loop-Replayed [] j n l v h a = subst (Replayed l []) (sym (replay_none j l)) (record {
  start = refl;
  size = refl;
  result = inl (refl, λ b. refl);
  spent = omega arith;
  enough = λ p. refl;
})
replay_loop-Replayed (none ∷ slots) j n l v h a =
    let next : Log → Run = λ m. replay_loop (length slots) (j + 1) m in
    let behind : l.journal_start + j + 1 ≡ l.journal_start + (j + 1) = omega arith in
    subst (Replayed l (none ∷ slots))
      (sym (replay_round (length slots) j l ∙ ap (λ s. and_then (redo_block s l) next) v.0.1))
      (empty-Replayed l slots (replay_loop (length slots) (j + 1) l) (
        replay_loop-Replayed slots (j + 1) n l (subst (λ k. Slots l.disk.blocks k slots) behind v.1)
          (omega (arith, h)) a.1))
replay_loop-Replayed (some (c, new) ∷ slots) j n l v h a =
    let next : Log → Run = λ m. replay_loop (length slots) (j + 1) m in
    let bytes = new ++ drop (length new) (l.disk.blocks c) in
    let round = replay_round (length slots) j l ∙ ap (λ s. and_then (redo_block s l) next) v.0.1 in
    let behind : l.journal_start + j + 1 ≡ l.journal_start + (j + 1) = omega arith in
    elim (write_block_lem c bytes l) [
      | inl f ↦
          subst (Replayed l (some (c, new) ∷ slots)) (sym (round ∙ ap (λ w. and_then w next) f.0))
            (stopped-Replayed l (some (c, new)) slots f.1)
      | inr f ↦
          let m = wrote c bytes l in
          let kept : Slots m.disk.blocks (l.journal_start + (j + 1)) slots =
            subst (λ k. Slots m.disk.blocks k slots) behind
              (Slots-frame l.disk.blocks m.disk.blocks (l.journal_start + j + 1) slots
                (λ b p q. assign_ne l.disk.blocks c bytes b (λ e. absurd (elim a.0 [
                  | inl k ↦ omega (arith, e, k, p, q, h)
                  | inr k ↦ omega (arith, e, k, p, q, h)
                ])))
                v.1) in
          subst (Replayed l (some (c, new) ∷ slots)) (sym (round ∙ ap (λ w. and_then w next) f.0)) (
            first-Replayed c new l slots (replay_loop (length slots) (j + 1) m) f.1
              (replay_loop-Replayed slots (j + 1) n m kept (omega (arith, h)) a.1))
    ]
