-- ===== src/Fs/OnyxFs/Journal/Clear.antt =====
-- Fs/OnyxFs/Journal: the zeroing of the slots, whether or not it comes to its end.
use onyx_kernel.Prelude.{
  ℕ, zero, suc, ◌+◌, ◌-◌, ◌<◌, ◌≡◌, ◌≢◌, refl, sym, ap, subst, ◌∙◌, none, List, [], ◌∷◌, length,
  drop, ◌==◌, arith, Bool-cases, inl, inr, ◌⊎◌,
}
use onyx_kernel.Core.Errno.{ok, err, io}
use onyx_kernel.Proc.State.{assign, assign_self, assign_ne}
use onyx_kernel.Fs.OnyxFs.Journal.{Log, Run, write_block, and_then, zero_block, zero_loop}
use onyx_kernel.Fs.OnyxFs.Journal.Redo.{Slot, redo}
use onyx_kernel.Fs.OnyxFs.Journal.Record.{IsEntry, Slots, Slots-frame, zero_block-IsEntry}

-- The block `b` written.
abbrev pub wrote : ℕ → List ℕ → Log → Log
wrote b bytes l = record l {
  disk = record { blocks = assign l.disk.blocks b bytes; writes_left = l.disk.writes_left - 1 };
}

pub write_block_lem :
    (b : ℕ) (bytes : List ℕ) (l : Log)
    → ((write_block b bytes l ≡ (err io, l)) × (l.disk.writes_left ≡ 0))
      ⊎ ((write_block b bytes l ≡ (ok tt, wrote b bytes l)) × (0 < l.disk.writes_left))
unfolding write_block
write_block_lem b bytes l = elim (Bool-cases (l.disk.writes_left == 0)) [
  | inl e ↦ inl (rw e refl, ground (arith, e))
  | inr e ↦ inr (rw e refl, ground (arith, e))
]

-- The first `z` slots emptied.
abbrev pub clear : ℕ → List Slot → List Slot
clear zero slots = slots
clear (suc z) [] = []
clear (suc z) (s ∷ slots) = none ∷ clear z slots

pub length-clear : (z : ℕ) (slots : List Slot) → length (clear z slots) ≡ length slots
length-clear zero slots = refl
length-clear (suc z) [] = refl
length-clear (suc z) (s ∷ slots) = ap suc (length-clear z slots)

pub redo-clear :
    (z : ℕ) (slots : List Slot) (b : ℕ) (bytes : List ℕ)
    → redo (clear z slots) b bytes ≡ redo (drop z slots) b bytes
redo-clear zero slots b bytes = refl
redo-clear (suc z) [] b bytes = refl
redo-clear (suc z) (s ∷ slots) b bytes = redo-clear z slots b bytes

-- What the zeroing of the slots from `at` on, with the marker behind them, has done.
pub record Zeroed (l : Log) (at : ℕ) (slots : List Slot) (r : Run) : Type 0 where
  pub outside : (b : ℕ) → (b < at) ⊎ (at + length slots < b) → r.1.disk.blocks b ≡ l.disk.blocks b
  pub start : r.1.journal_start ≡ l.journal_start
  pub size : r.1.journal_size ≡ l.journal_size
  pub result : (r.0 ≡ ok tt) ⊎ ((r.0 ≡ err io) × (z : ℕ) × Slots r.1.disk.blocks at (clear z slots))
  pub enough : length slots < l.disk.writes_left → r.0 ≡ ok tt

-- A write that fails.
stopped-Zeroed :
    (l : Log) (at : ℕ) (slots : List Slot)
    → Slots l.disk.blocks at slots
    → l.disk.writes_left ≡ 0
    → Zeroed l at slots (err io, l)
stopped-Zeroed l at slots v e = record {
  outside = λ b p. refl;
  start = refl;
  size = refl;
  result = inr (refl, 0, v);
  enough = λ p. absurd (omega (arith, p, e));
}

-- The round of the zeroing at the slot `j`.
zero_round :
    (n j : ℕ) (l : Log)
    → zero_loop (suc n) j l
      ≡ and_then (write_block (l.journal_start + j) zero_block l) (λ m. zero_loop n (j + 1) m)
unfolding zero_loop
zero_round n j l = refl

zero_none : (j : ℕ) (l : Log) → zero_loop 0 j l ≡ (ok tt, l)
unfolding zero_loop
zero_none j l = refl

-- The zeroing behind a first slot that is written.
first-Zeroed :
    (l : Log) (j : ℕ) (s : Slot) (slots : List Slot) (r : Run)
    → 0 < l.disk.writes_left
    → Zeroed (wrote (l.journal_start + j) zero_block l) (l.journal_start + (j + 1)) slots r
    → Zeroed l (l.journal_start + j) (s ∷ slots) r
first-Zeroed l j s slots r p v = record {
  outside = λ b q.
      let apart : b ≢ l.journal_start + j =
        λ e. absurd (elim q [ inl h ↦ omega (arith, e, h) | inr h ↦ omega (arith, e, h) ]) in
      v.outside b (elim q [ inl h ↦ inl (omega (arith, h)) | inr h ↦ inr (omega (arith, h)) ])
      ∙ assign_ne l.disk.blocks (l.journal_start + j) zero_block b apart;
  start = v.start;
  size = v.size;
  result = elim v.result [
    | inl e ↦ inl e
    | inr (e, z, w) ↦
        let next : l.journal_start + (j + 1) ≡ l.journal_start + j + 1 = omega arith in
        let first : r.1.disk.blocks (l.journal_start + j) ≡ zero_block =
          v.outside (l.journal_start + j) (inl (omega arith))
          ∙ assign_self l.disk.blocks (l.journal_start + j) zero_block in
        inr (
          e,
          suc z,
          (
            subst (λ k. IsEntry k none) (sym first) zero_block-IsEntry,
            subst (λ a. Slots r.1.disk.blocks a (clear z slots)) next w,
          ),
        )
  ];
  enough = λ q. v.enough (omega (arith, q));
}

pub zero_loop-Zeroed :
    (slots : List Slot) (j : ℕ) (l : Log)
    → Slots l.disk.blocks (l.journal_start + j) slots
    → Zeroed l (l.journal_start + j) slots (zero_loop (suc (length slots)) j l)
zero_loop-Zeroed [] j l v =
    let at = l.journal_start + j in
    let next : Log → Run = λ m. zero_loop 0 (j + 1) m in
    elim (write_block_lem at zero_block l) [
      | inl f ↦
          subst (Zeroed l at []) (sym (zero_round 0 j l ∙ ap (λ w. and_then w next) f.0))
            (stopped-Zeroed l at [] v f.1)
      | inr f ↦
          subst (Zeroed l at [])
            (sym (
              zero_round 0 j l
              ∙ ap (λ w. and_then w next) f.0
              ∙ zero_none (j + 1) (wrote at zero_block l)))
            (record {
              outside = λ b q. assign_ne l.disk.blocks at zero_block b (λ e.
                  absurd (elim q [ inl h ↦ omega (arith, e, h) | inr h ↦ omega (arith, e, h) ]));
              start = refl;
              size = refl;
              result = inl refl;
              enough = λ p. refl;
            })
    ]
zero_loop-Zeroed (s ∷ slots) j l v =
    let at = l.journal_start + j in
    let next : Log → Run = λ m. zero_loop (suc (length slots)) (j + 1) m in
    elim (write_block_lem at zero_block l) [
      | inl f ↦
          subst (Zeroed l at (s ∷ slots))
            (sym (zero_round (suc (length slots)) j l ∙ ap (λ w. and_then w next) f.0))
            (stopped-Zeroed l at (s ∷ slots) v f.1)
      | inr f ↦
          let m = wrote at zero_block l in
          let behind : l.journal_start + j + 1 ≡ l.journal_start + (j + 1) = omega arith in
          let kept : Slots m.disk.blocks (l.journal_start + (j + 1)) slots =
            subst (λ a. Slots m.disk.blocks a slots) behind
              (Slots-frame l.disk.blocks m.disk.blocks (at + 1) slots
                (λ b p q. assign_ne l.disk.blocks at zero_block b (λ e. omega (arith, e, p)))
                v.1) in
          subst (Zeroed l at (s ∷ slots))
            (sym (zero_round (suc (length slots)) j l ∙ ap (λ w. and_then w next) f.0))
            (first-Zeroed l j s slots (zero_loop (suc (length slots)) (j + 1) m) f.1
              (zero_loop-Zeroed slots (j + 1) m kept))
    ]
