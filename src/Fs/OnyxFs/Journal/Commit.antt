-- ===== src/Fs/OnyxFs/Journal/Commit.antt =====
-- Fs/OnyxFs/Journal: a commit that is cut short.
use onyx_kernel.Prelude.{
  ℕ, zero, suc, ◌+◌, ◌<◌, ◌≡◌, refl, sym, ap, subst, ◌∙◌, true, false, none, List, length, All, ltb,
  ◌==◌, arith, inl, inr,
}
use onyx_kernel.Core.Errno.{ok, err, io}
use onyx_kernel.Proc.State.{assign, assign_self, assign_ne}
use onyx_kernel.Fs.OnyxFs.Journal.{
  Log, Run, write_block, and_then, no_journal, commit_entry, zero_block, zero_loop, scan_loop,
  journal_commit, journal_recover,
}
use onyx_kernel.Fs.OnyxFs.Journal.Redo.{Slot, IsData}
use onyx_kernel.Fs.OnyxFs.Journal.Record.{Slots}
use onyx_kernel.Fs.OnyxFs.Journal.Clear.{
  clear, length-clear, wrote, write_block_lem, Zeroed, zero_loop-Zeroed,
}
use onyx_kernel.Fs.OnyxFs.Journal.Replay.{IsAway}
use onyx_kernel.Fs.OnyxFs.Journal.Recover.{Logged, Outside, All-clear, moved}
use onyx_kernel.Fs.OnyxFs.Journal.Crash.{powered}
use onyx_kernel.Fs.OnyxFs.Journal.Open.{Entries, Entries-Slots, IsOpen, scan_loop-none}

-- The slots zeroed, and the one behind them.
zero_loop-suc :
    (n j at : ℕ) (l : Log)
    → at ≡ l.journal_start + (j + n)
    → zero_loop (suc n) j l ≡ and_then (zero_loop n j l) (write_block at zero_block)
unfolding zero_loop
zero_loop-suc zero j at l e =
    let here : l.journal_start + j ≡ at = omega (arith, e) in
    elim (write_block_lem at zero_block l) [
      | inl f ↦
          ap (λ b. and_then (write_block b zero_block l) (λ m. (ok tt, m))) here
          ∙ ap (λ w. and_then w (λ m. (ok tt, m))) f.0
          ∙ sym f.0
      | inr f ↦
          ap (λ b. and_then (write_block b zero_block l) (λ m. (ok tt, m))) here
          ∙ ap (λ w. and_then w (λ m. (ok tt, m))) f.0
          ∙ sym f.0
    ]
zero_loop-suc (suc n) j at l e =
    let one : Log → Run = λ m. zero_loop (suc n) (j + 1) m in
    let two : Log → Run = λ m. zero_loop n (j + 1) m in
    let b = l.journal_start + j in
    elim (write_block_lem b zero_block l) [
      | inl f ↦
          ap (λ w. and_then w one) f.0
          ∙ sym (ap (λ w. and_then (and_then w two) (write_block at zero_block)) f.0)
      | inr f ↦
          ap (λ w. and_then w one) f.0
          ∙ zero_loop-suc n (j + 1) at (wrote b zero_block l) (omega (arith, e))
          ∙ sym (ap (λ w. and_then (and_then w two) (write_block at zero_block)) f.0)
    ]

-- The marker written.
unfoldable pub marked : Log → Log
marked l = record (wrote (l.journal_start + l.journal_head) commit_entry l) { journal_head = 0 }

journal_commit_eq :
    (l : Log)
    → no_journal l ≡ false
    → 0 < l.journal_head
    → l.journal_head < l.journal_size
    → 0 < l.disk.writes_left
    → journal_commit l ≡ zero_loop (suc l.journal_head) 0 (marked l)
unfolding journal_commit marked
journal_commit_eq l enabled some_head room power =
    let empty : (l.journal_head == 0) ≡ false = ground (arith, some_head) in
    let fits : ltb l.journal_head l.journal_size ≡ true = ground (arith, room) in
    let at = l.journal_start + l.journal_head in
    elim (write_block_lem at commit_entry l) [
      | inl f ↦ absurd (omega (arith, f.1, power))
      | inr f ↦
          rw (enabled, empty, fits)
            (ap
                (λ w. and_then w (λ m.
                  and_then (zero_loop l.journal_head 0 (record m { journal_head = 0 }))
                    (write_block at zero_block)))
                f.0
              ∙ sym (
                  zero_loop-suc l.journal_head 0 at
                    (record (wrote at commit_entry l) { journal_head = 0 }) (omega arith)))
    ]

pub journal_commit_stopped :
    (l : Log)
    → no_journal l ≡ false
    → 0 < l.journal_head
    → l.journal_head < l.journal_size
    → l.disk.writes_left ≡ 0
    → journal_commit l ≡ (err io, l)
unfolding journal_commit write_block
journal_commit_stopped l enabled some_head room power =
    let empty : (l.journal_head == 0) ≡ false = ground (arith, some_head) in
    let fits : ltb l.journal_head l.journal_size ≡ true = ground (arith, room) in
    let none_left : (l.disk.writes_left == 0) ≡ true = ground (arith, power) in
    rw (enabled, empty, fits, none_left) refl

module _ (l : Log) (slots : List Slot) (v : IsOpen l slots) (some_slot : 0 < length slots)
    (room : length slots < l.journal_size) (sizes : All IsData slots)
    (away : All (IsAway l.journal_start (length slots)) slots) where
  pub marked-Logged : Logged (marked l) slots
  unfolding marked
  marked-Logged =
      let at = l.journal_start + l.journal_head in
      let end : l.journal_start + length slots ≡ at = omega (arith, v.head) in
      record {
        journal = v.journal;
        room = room;
        entries =
            Entries-Slots l.disk.blocks (assign l.disk.blocks at commit_entry) l.journal_start slots
              (λ c p.
                assign_ne l.disk.blocks at commit_entry c (λ e. absurd (omega (arith, e, p, end))))
              v.entries
              (ap (assign l.disk.blocks at commit_entry) end
                ∙ assign_self l.disk.blocks at commit_entry);
        sizes = sizes;
        away = away;
      }

  pub marked-Outside :
      (b : ℕ) → Outside l (length slots) b → (marked l).disk.blocks b ≡ l.disk.blocks b
  unfolding marked
  marked-Outside b o =
      let at = l.journal_start + l.journal_head in
      assign_ne l.disk.blocks at commit_entry b (λ e.
        absurd
          (elim o [ inl h ↦ omega (arith, e, h, v.head) | inr h ↦ omega (arith, e, h, v.head) ]))

  pub commit_eq :
      0 < l.disk.writes_left → journal_commit l ≡ zero_loop (suc (length slots)) 0 (marked l)
  commit_eq power =
      let count : suc l.journal_head ≡ suc (length slots) = ap suc v.head in
      journal_commit_eq l v.journal (omega (arith, v.head, some_slot)) (omega (arith, v.head, room))
        power
      ∙ ap (λ n. zero_loop n 0 (marked l)) count

  -- The zeroing of a marked journal is cut short.
  pub cut :
      (r : Run)
      → Zeroed (marked l) l.journal_start slots r
      → r.0 ≡ err io
      → (z : ℕ) × Logged r.1 (clear z slots)
        × ((b : ℕ) → Outside l (length slots) b → r.1.disk.blocks b ≡ l.disk.blocks b)
        × (r.1.journal_start ≡ l.journal_start)
  unfolding marked
  cut r w e = elim w.result [
    | inl g ↦ absurd (ground (arith, e, g))
    | inr (g, z, k) ↦ (
      z,
      moved (marked l) r.1 slots (clear z slots) w.start w.size (length-clear z slots) marked-Logged
          k (All-clear IsData z slots tt sizes)
          (All-clear (IsAway l.journal_start (length slots)) z slots tt away),
      λ b o. w.outside b o ∙ marked-Outside b o,
      w.start,
    )
  ]

  pub marked-Zeroed :
      Zeroed (marked l) l.journal_start slots (zero_loop (suc (length slots)) 0 (marked l))
  unfolding marked
  marked-Zeroed =
      let front : l.journal_start + 0 ≡ l.journal_start = omega arith in
      subst (λ a. Zeroed (marked l) a slots (zero_loop (suc (length slots)) 0 (marked l))) front
        (zero_loop-Zeroed slots 0 (marked l)
          (subst (λ a. Slots (marked l).disk.blocks a slots) (sym front) marked-Logged.entries))

  -- There is no power behind the marker.
  pub marked_stopped :
      l.disk.writes_left ≡ 1 → zero_loop (suc (length slots)) 0 (marked l) ≡ (err io, marked l)
  unfolding zero_loop marked
  marked_stopped power =
      let next : Log → Run = λ m. zero_loop (length slots) 1 m in
      elim (write_block_lem (l.journal_start + 0) zero_block (marked l)) [
        | inl f ↦ ap (λ w. and_then w next) f.0
        | inr f ↦ absurd (omega (arith, f.1, power))
      ]

  pub stopped_recover :
      (n : ℕ) → journal_recover (powered n l) ≡ (ok tt, record (powered n l) { journal_head = 0 })
  unfolding journal_recover
  stopped_recover n =
      let front : l.journal_start ≡ l.journal_start + 0 = omega arith in
      let nothing : scan_loop l.journal_size 0 (powered n l) ≡ none =
        scan_loop-none l.journal_size 0 (powered n l) slots
          (subst (λ a. Entries l.disk.blocks a slots) front v.entries)
          (λ b p q. v.clean b (omega (arith, p)) (omega (arith, q))) in
      rw (v.journal, nothing) refl
