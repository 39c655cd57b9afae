-- ===== src/Fs/OnyxFs/Journal/Record.antt =====
-- Fs/OnyxFs/Journal: what the blocks of the journal hold.
use onyx_kernel.Prelude.{
  ℕ, zero, suc, ◌+◌, ◌^◌, ◌≤◌, ◌<◌, ◌≡◌, refl, sym, ap, ap₂, subst, ◌∙◌, none, some, List, [], ◌∷◌,
  length, take, length-take, take_of_length-le, arith,
}
use onyx_kernel.Fs.OnyxFs.Journal.{
  onyfs_block_size, journal_data_size, JournalScanStep, le_word, journal_entry_type,
  journal_scan_step, journal_replay_entry, block_entry, zero_block, commit_entry, Log, scan_loop,
}
use onyx_kernel.Fs.OnyxFs.Journal.Redo.{Slot}

-- The entry is one that the scan passes, and it replays as the slot.
abbrev pub IsEntry : List ℕ → Slot → Type 0
IsEntry entry s =
    (journal_scan_step (journal_entry_type entry) ≡ JournalScanStep.continue)
    × (journal_replay_entry entry ≡ s)

-- The blocks from `at` on are the slots, and a commit marker behind them.
abbrev pub Slots : (ℕ → List ℕ) → ℕ → List Slot → Type 0
Slots blocks at [] = journal_scan_step (journal_entry_type (blocks at)) ≡ JournalScanStep.commit
Slots blocks at (s ∷ slots) = IsEntry (blocks at) s × Slots blocks (at + 1) slots

pub Slots-frame :
    (blocks blocks' : ℕ → List ℕ) (at : ℕ) (slots : List Slot)
    → ((b : ℕ) → at ≤ b → b ≤ at + length slots → blocks' b ≡ blocks b)
    → Slots blocks at slots
    → Slots blocks' at slots
Slots-frame blocks blocks' at [] same v = rw (same at (omega arith) (omega arith)) v
Slots-frame blocks blocks' at (s ∷ slots) same v = (
  subst (λ e. IsEntry e s) (sym (same at (omega arith) (omega arith))) v.0,
  Slots-frame blocks blocks' (at + 1) slots (λ b p q. same b (omega (arith, p)) (omega (arith, q)))
      v.1,
)

-- The scan finds the marker.
pub scan_loop_lem :
    (n i : ℕ) (l : Log) (slots : List Slot)
    → Slots l.disk.blocks (l.journal_start + i) slots
    → length slots < n
    → scan_loop n i l ≡ some (i + length slots)
unfolding scan_loop
scan_loop_lem zero i l slots v h = absurd (omega arith)
scan_loop_lem (suc n) i l [] v h =
    let here : i ≡ i + 0 = omega arith in rw (v, scan_loop) (ap some here)
scan_loop_lem (suc n) i l (s ∷ slots) v h =
    let next : l.journal_start + i + 1 ≡ l.journal_start + (i + 1) = omega arith in
    let far : i + 1 + length slots ≡ i + suc (length slots) = omega arith in
    rw (v.0.0, scan_loop)
      (scan_loop_lem n (i + 1) l slots (subst (λ a. Slots l.disk.blocks a slots) next v.1)
          (omega (arith, h))
        ∙ ap some far)

-- A zeroed block is an empty slot.
pub zero_block-IsEntry : IsEntry zero_block none
unfolding journal_scan_step journal_replay_entry
zero_block-IsEntry = (refl, refl)

pub commit_entry_lem : journal_scan_step (journal_entry_type commit_entry) ≡ JournalScanStep.commit
unfolding journal_scan_step
commit_entry_lem = refl

-- The entry that journal_log writes for a block number of 32 bits replays as the block's data but
-- for its last eight bytes.
pub block_entry-IsEntry :
    (b : ℕ) (bytes : List ℕ)
    → b < 2 ^ 32
    → length bytes ≡ onyfs_block_size
    → IsEntry (block_entry b bytes) (some (b, take journal_data_size bytes))
unfolding journal_scan_step journal_replay_entry
block_entry-IsEntry b bytes h e =
    let payload = take journal_data_size bytes in
    let word : le_word (block_entry b bytes) 4 ≡ b = omega (arith, h) in
    let whole : take journal_data_size payload ≡ payload =
      take_of_length-le journal_data_size payload
        (omega (arith, length-take journal_data_size bytes)) in
    (refl, ap₂ (λ c d. some (c, d)) word whole)
