-- ===== src/Fs/OnyxFs/Journal/Crash.antt =====
-- Fs/OnyxFs/Journal: recovery with power to the end, and a second recovery after one that was cut
-- short.
use onyx_kernel.Prelude.{ℕ, ◌*◌, ◌<◌, ◌≡◌, ◌∙◌, List, length, arith, inl, inr}
use onyx_kernel.Core.Errno.{ok, err, io}
use onyx_kernel.Fs.OnyxFs.Journal.{Log, journal_recover}
use onyx_kernel.Fs.OnyxFs.Journal.Redo.{Slot, redo}
use onyx_kernel.Fs.OnyxFs.Journal.Recover.{Logged, Outside, journal_recover-Recovered}

-- Where the journal holds the slots of a transaction whose targets lie outside it, and a commit
-- marker behind them, a recovery with power for two writes a slot and one more succeeds: a block
-- outside the slots and the marker then holds what the slots write over it in their order.
pub journal_recover_lem :
    (l : Log) (slots : List Slot)
    → Logged l slots
    → 2 * length slots < l.disk.writes_left
    → ((journal_recover l).0 ≡ ok tt)
      × ((b : ℕ)
          → Outside l (length slots) b
          → (journal_recover l).1.disk.blocks b ≡ redo slots b (l.disk.blocks b))
journal_recover_lem l slots v p =
    let w = journal_recover-Recovered l slots v in
    elim w.result [
      | inl (e, f) ↦ (e, f)
      | inr (e, rest, k, len, start, f) ↦ absurd (ground (arith, e, w.enough p))
    ]

-- The power back, for `n` writes.
abbrev pub powered : ℕ → Log → Log
powered n l = record l { disk = record (l.disk) { writes_left = n } }

pub Logged-powered :
    (n : ℕ) (l : Log) (slots : List Slot) → Logged l slots → Logged (powered n l) slots
Logged-powered n l slots v = record {
  journal = v.journal;
  room = v.room;
  entries = v.entries;
  sizes = v.sizes;
  away = v.away;
}

-- Where the journal holds such a transaction, its recovery fails at a write, at whichever, and it is
-- run again with power for two writes a slot and one more, the second succeeds, and a block outside
-- the slots and the marker then holds what the slots write over the block of before the first.
pub journal_recover-journal_recover :
    (l : Log) (slots : List Slot) (n : ℕ)
    → Logged l slots
    → (journal_recover l).0 ≡ err io
    → 2 * length slots < n
    → let again = journal_recover (powered n (journal_recover l).1) in
      (again.0 ≡ ok tt)
      × ((b : ℕ)
          → Outside l (length slots) b
          → again.1.disk.blocks b ≡ redo slots b (l.disk.blocks b))
journal_recover-journal_recover l slots n v e p =
    let w = journal_recover-Recovered l slots v in
    elim w.result [
      | inl (g, f) ↦ absurd (ground (arith, e, g))
      | inr (g, rest, k, len, start, f) ↦
          let done =
            journal_recover_lem (powered n (journal_recover l).1) rest
              (Logged-powered n (journal_recover l).1 rest k) (omega (arith, len, p)) in
          (
            done.0,
            λ b o.
                done.1 b (elim o [
                  | inl h ↦ inl (omega (arith, h, start))
                  | inr h ↦ inr (omega (arith, h, start, len))
                ])
                ∙ f b o,
          )
    ]
