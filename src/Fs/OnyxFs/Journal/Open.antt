-- ===== src/Fs/OnyxFs/Journal/Open.antt =====
-- Fs/OnyxFs/Journal: a transaction that is logged and not committed.
use onyx_kernel.Prelude.{
  ℕ, zero, suc, ◌+◌, ◌^◌, ◌≤◌, ◌<◌, ◌≡◌, refl, sym, ap, subst, ◌∙◌, false, none, some, List, [],
  ◌∷◌, ◌++◌, length, length-append, take, leb, arith, inl, inr,
}
use onyx_kernel.Core.Errno.{ok}
use onyx_kernel.Proc.State.{assign_self, assign_ne}
use onyx_kernel.Fs.OnyxFs.Journal.{
  Log, onyfs_block_size, journal_data_size, and_then, set_head, no_journal, block_entry,
  commit_entry, zero_block, scan_loop, journal_scan_step, journal_entry_type, journal_log,
  JournalScanStep,
}
use onyx_kernel.Fs.OnyxFs.Journal.Redo.{Slot}
use onyx_kernel.Fs.OnyxFs.Journal.Record.{
  IsEntry, Slots, zero_block-IsEntry, commit_entry_lem, block_entry-IsEntry,
}
use onyx_kernel.Fs.OnyxFs.Journal.Clear.{wrote, write_block_lem}

-- The blocks from `at` on are the slots.
abbrev pub Entries : (ℕ → List ℕ) → ℕ → List Slot → Type 0
Entries blocks at [] = Unit
Entries blocks at (s ∷ slots) = IsEntry (blocks at) s × Entries blocks (at + 1) slots

-- The slots are logged and not committed, and the journal behind them is zeroed.
pub record IsOpen (l : Log) (slots : List Slot) : Type 0 where
  pub journal : no_journal l ≡ false
  pub head : l.journal_head ≡ length slots
  pub entries : Entries l.disk.blocks l.journal_start slots
  pub clean :
      (b : ℕ)
      → l.journal_start + length slots ≤ b
      → b < l.journal_start + l.journal_size
      → l.disk.blocks b ≡ zero_block

Entries-snoc :
    (blocks blocks' : ℕ → List ℕ) (at : ℕ) (slots : List Slot) (s : Slot)
    → ((b : ℕ) → b < at + length slots → blocks' b ≡ blocks b)
    → Entries blocks at slots
    → IsEntry (blocks' (at + length slots)) s
    → Entries blocks' at (slots ++ (s ∷ []))
Entries-snoc blocks blocks' at [] s same v e =
    let here : at + 0 ≡ at = omega arith in (subst (λ b. IsEntry (blocks' b) s) here e, tt)
Entries-snoc blocks blocks' at (t ∷ slots) s same v e =
    let next : at + suc (length slots) ≡ at + 1 + length slots = omega arith in
    (
      subst (λ x. IsEntry x t) (sym (same at (omega arith))) v.0,
      Entries-snoc blocks blocks' (at + 1) slots s (λ b p. same b (omega (arith, p))) v.1
          (subst (λ b. IsEntry (blocks' b) s) next e),
    )

pub Entries-Slots :
    (blocks blocks' : ℕ → List ℕ) (at : ℕ) (slots : List Slot)
    → ((b : ℕ) → b < at + length slots → blocks' b ≡ blocks b)
    → Entries blocks at slots
    → blocks' (at + length slots) ≡ commit_entry
    → Slots blocks' at slots
Entries-Slots blocks blocks' at [] same v e =
    let here : at + 0 ≡ at = omega arith in
    subst (λ x. journal_scan_step (journal_entry_type x) ≡ JournalScanStep.commit)
      (sym e ∙ ap blocks' here) commit_entry_lem
Entries-Slots blocks blocks' at (t ∷ slots) same v e =
    let next : at + 1 + length slots ≡ at + suc (length slots) = omega arith in
    (
      subst (λ x. IsEntry x t) (sym (same at (omega arith))) v.0,
      Entries-Slots blocks blocks' (at + 1) slots (λ b p. same b (omega (arith, p))) v.1
          (ap blocks' next ∙ e),
    )

-- Without a marker the scan finds nothing.
pub scan_loop-none :
    (n i : ℕ) (l : Log) (slots : List Slot)
    → Entries l.disk.blocks (l.journal_start + i) slots
    → ((b : ℕ)
        → l.journal_start + i + length slots ≤ b
        → b < l.journal_start + i + n
        → l.disk.blocks b ≡ zero_block)
    → scan_loop n i l ≡ none
unfolding scan_loop
scan_loop-none zero i l slots v c = refl
scan_loop-none (suc n) i l [] v c =
    let here : journal_scan_step (journal_entry_type (l.disk.blocks (l.journal_start + i)))
        ≡ JournalScanStep.continue =
      ap (λ x. journal_scan_step (journal_entry_type x))
        (c (l.journal_start + i) (omega arith) (omega arith))
      ∙ zero_block-IsEntry.0 in
    rw (here, scan_loop)
      (scan_loop-none n (i + 1) l [] tt (λ b p q. c b (omega (arith, p)) (omega (arith, q))))
scan_loop-none (suc n) i l (s ∷ slots) v c =
    let next : l.journal_start + i + 1 ≡ l.journal_start + (i + 1) = omega arith in
    rw (v.0.0, scan_loop)
      (scan_loop-none n (i + 1) l slots (subst (λ a. Entries l.disk.blocks a slots) next v.1)
        (λ b p q. c b (omega (arith, p)) (omega (arith, q))))

-- The write of an entry with room for it and power.
logged : ℕ → List ℕ → Log → Log
logged b bytes l = record (wrote (l.journal_start + l.journal_head) (block_entry b bytes) l) {
  journal_head = l.journal_head + 1;
}

journal_log_eq :
    (l : Log) (b : ℕ) (bytes : List ℕ)
    → no_journal l ≡ false
    → l.journal_head < l.journal_size
    → 0 < l.disk.writes_left
    → journal_log b bytes l ≡ (ok tt, logged b bytes l)
unfolding journal_log logged
journal_log_eq l b bytes enabled room power =
    let full : leb l.journal_size l.journal_head ≡ false = ground (arith, room) in
    elim (write_block_lem (l.journal_start + l.journal_head) (block_entry b bytes) l) [
      | inl f ↦ absurd (omega (arith, f.1, power))
      | inr f ↦ rw (enabled, full) (ap (λ w. and_then w (set_head (l.journal_head + 1))) f.0)
    ]

logged-IsOpen :
    (l : Log) (slots : List Slot) (b : ℕ) (bytes : List ℕ)
    → IsOpen l slots
    → b < 2 ^ 32
    → length bytes ≡ onyfs_block_size
    → IsOpen (logged b bytes l) (slots ++ (some (b, take journal_data_size bytes) ∷ []))
unfolding logged
logged-IsOpen l slots b bytes v hb size =
    let s : Slot = some (b, take journal_data_size bytes) in
    let at = l.journal_start + l.journal_head in
    let m = wrote at (block_entry b bytes) l in
    let end : at ≡ l.journal_start + length slots = omega (arith, v.head) in
    let long : length (slots ++ (s ∷ [])) ≡ length slots + 1 = length-append slots (s ∷ []) in
    record {
      journal = v.journal;
      head = omega (arith, v.head, long);
      entries =
          Entries-snoc l.disk.blocks m.disk.blocks l.journal_start slots s
            (λ c p.
              assign_ne l.disk.blocks at (block_entry b bytes) c
                (λ e. absurd (omega (arith, e, p, end))))
            v.entries
            (subst (λ x. IsEntry x s)
              (sym
                (ap m.disk.blocks (sym end) ∙ assign_self l.disk.blocks at (block_entry b bytes)))
              (block_entry-IsEntry b bytes hb size));
      clean = λ c p q.
          assign_ne l.disk.blocks at (block_entry b bytes) c
            (λ e. absurd (omega (arith, e, p, end, long)))
          ∙ v.clean c (omega (arith, p, long)) q;
    }

-- A block is logged behind the slots of the transaction.
pub journal_log-IsOpen :
    (l : Log) (slots : List Slot) (b : ℕ) (bytes : List ℕ)
    → IsOpen l slots
    → length slots < l.journal_size
    → 0 < l.disk.writes_left
    → b < 2 ^ 32
    → length bytes ≡ onyfs_block_size
    → ((journal_log b bytes l).0 ≡ ok tt)
      × IsOpen (journal_log b bytes l).1 (slots ++ (some (b, take journal_data_size bytes) ∷ []))
journal_log-IsOpen l slots b bytes v room power hb size =
    let e = journal_log_eq l b bytes v.journal (omega (arith, v.head, room)) power in
    (
      ap (λ r. r.0) e,
      subst (λ r. IsOpen r.1 (slots ++ (some (b, take journal_data_size bytes) ∷ []))) (sym e)
          (logged-IsOpen l slots b bytes v hb size),
    )
