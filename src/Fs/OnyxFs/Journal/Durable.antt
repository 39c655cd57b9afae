-- ===== src/Fs/OnyxFs/Journal/Durable.antt =====
-- Fs/OnyxFs/Journal: recovery behind a commit that was cut short.
use onyx_kernel.Prelude.{
  ℕ, ℕ_discrete, ◌*◌, ◌<◌, ◌≡◌, sym, ap, subst, ◌∙◌, List, length, All, arith, inl, inr,
}
use onyx_kernel.Core.Errno.{ok, err, io}
use onyx_kernel.Fs.OnyxFs.Journal.{Log, journal_commit, journal_recover}
use onyx_kernel.Fs.OnyxFs.Journal.Redo.{Slot, redo, IsData, redo-drop}
use onyx_kernel.Fs.OnyxFs.Journal.Clear.{clear, length-clear, redo-clear, Zeroed}
use onyx_kernel.Fs.OnyxFs.Journal.Replay.{IsAway}
use onyx_kernel.Fs.OnyxFs.Journal.Recover.{Outside}
use onyx_kernel.Fs.OnyxFs.Journal.Crash.{powered, Logged-powered, journal_recover_lem}
use onyx_kernel.Fs.OnyxFs.Journal.Open.{IsOpen}
use onyx_kernel.Fs.OnyxFs.Journal.Commit.{
  marked, journal_commit_stopped, marked-Logged, marked-Outside, commit_eq, cut, marked-Zeroed,
  marked_stopped, stopped_recover,
}

-- Where the journal holds at least one slot that is logged, fewer than its size, their targets lie
-- outside and the journal is zeroed behind them, a commit that has power for its marker alone fails,
-- and a recovery with power for two writes a slot and one more then succeeds: a block outside the
-- slots and the marker then holds what the slots write over it.
pub journal_recover-journal_commit :
    (l : Log) (slots : List Slot) (n : ℕ)
    → IsOpen l slots
    → 0 < length slots
    → length slots < l.journal_size
    → All IsData slots
    → All (IsAway l.journal_start (length slots)) slots
    → l.disk.writes_left ≡ 1
    → 2 * length slots < n
    → let c = journal_commit l in
      let again = journal_recover (powered n c.1) in
      (c.0 ≡ err io)
      × (again.0 ≡ ok tt)
      × ((b : ℕ)
          → Outside l (length slots) b
          → again.1.disk.blocks b ≡ redo slots b (l.disk.blocks b))
unfolding marked
journal_recover-journal_commit l slots n v some_slot room sizes away power p =
    let stop =
      commit_eq l slots v some_slot room sizes away (omega (arith, power))
      ∙ marked_stopped l slots v some_slot room sizes away power in
    let k = Logged-powered n (marked l) slots (marked-Logged l slots v some_slot room sizes away) in
    let (done, blocks) = journal_recover_lem (powered n (marked l)) slots k p in
    (
      ap (λ r. r.0) stop,
      ap (λ r. (journal_recover (powered n r.1)).0) stop ∙ done,
      λ b o.
          ap (λ r. (journal_recover (powered n r.1)).1.disk.blocks b) stop
          ∙ blocks b o
          ∙ ap (redo slots b) (marked-Outside l slots v some_slot room sizes away b o),
    )

-- Under these conditions on the journal, where its blocks also hold what the slots write to them and
-- the commit fails, at whichever write, a recovery with power for two writes a slot and one more
-- succeeds and changes no block outside the slots and the marker.
pub journal_commit_cut :
    (l : Log) (slots : List Slot) (n : ℕ)
    → IsOpen l slots
    → 0 < length slots
    → length slots < l.journal_size
    → All IsData slots
    → All (IsAway l.journal_start (length slots)) slots
    → ((b : ℕ) → Outside l (length slots) b → redo slots b (l.disk.blocks b) ≡ l.disk.blocks b)
    → (journal_commit l).0 ≡ err io
    → 2 * length slots < n
    → let again = journal_recover (powered n (journal_commit l).1) in
      (again.0 ≡ ok tt)
      × ((b : ℕ) → Outside l (length slots) b → again.1.disk.blocks b ≡ l.disk.blocks b)
journal_commit_cut l slots n v some_slot room sizes away written e p =
    elim (ℕ_discrete l.disk.writes_left 0) [
      | yes power ↦
          let stop =
            journal_commit_stopped l v.journal (omega (arith, v.head, some_slot))
              (omega (arith, v.head, room)) power in
          let again =
            ap (λ r. journal_recover (powered n r.1)) stop
            ∙ stopped_recover l slots v some_slot room sizes away n in
          (ap (λ r. r.0) again, λ b o. ap (λ r. r.1.disk.blocks b) again)
      | no power ↦
          let count = commit_eq l slots v some_slot room sizes away (ground (arith, power)) in
          let zeroed =
            subst (Zeroed (marked l) l.journal_start slots) (sym count)
              (marked-Zeroed l slots v some_slot room sizes away) in
          let (z, k, same, start) =
            cut l slots v some_slot room sizes away (journal_commit l) zeroed e in
          let q = (journal_commit l).1 in
          let long = length-clear z slots in
          let (done, blocks) =
            journal_recover_lem (powered n q) (clear z slots) (Logged-powered n q (clear z slots) k)
              (omega (arith, p, long)) in
          (
            done,
            λ b o.
                blocks b (elim o [
                  | inl h ↦ inl (omega (arith, h, start))
                  | inr h ↦ inr (omega (arith, h, start, long))
                ])
                ∙ ap (redo (clear z slots) b) (same b o ∙ sym (written b o))
                ∙ redo-clear z slots b (redo slots b (l.disk.blocks b))
                ∙ redo-drop z slots b (l.disk.blocks b) sizes
                ∙ written b o,
          )
    ]
