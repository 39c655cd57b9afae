-- ===== src/Fs/OnyxFs/Journal.antt =====
-- kernel/src/fs/onyxfs/journal.rs, and the records of core/src/formats/onyxfs_fmt/journal.rs. A disk
-- is what its blocks hold and the number of writes that it still takes: a write past them fails, as
-- where the device fails or the power does. A read gives what was written last.
pub mod Record
pub mod Redo
pub mod Clear
pub mod Replay
pub mod Recover
pub mod Crash
pub mod Open
pub mod Commit
pub mod Durable
use onyx_kernel.Prelude.{
  ℕ, zero, suc, ◌+◌, ◌-◌, ◌*◌, ◌/◌, ◌%◌, ◌^◌, Bool, ◌||◌, Option, none, some, List, [], ◌∷◌, ◌++◌,
  length, get_or, take, drop, replicate, ltb, leb, ◌==◌, not, if◌then◌else◌,
}
use onyx_kernel.Core.Errno.{KResult, ok, err, io, no_space}
use onyx_kernel.Proc.State.{assign}

abbrev pub onyfs_block_size : ℕ
onyfs_block_size = 4096

abbrev pub journal_data_size : ℕ
journal_data_size = onyfs_block_size - 8

-- `ONYFS_JOURNAL_COMMIT_START` is 0, which an empty slot has too.
abbrev pub journal_block_write : ℕ
journal_block_write = 1

abbrev pub journal_commit_end : ℕ
journal_commit_end = 2

pub data JournalScanStep : Type 0 where
  continue commit stop : JournalScanStep

-- `u32::from_le_bytes` and `u32::to_le_bytes`
abbrev pub le_word : List ℕ → ℕ → ℕ
le_word e i =
    get_or e i 0
    + 2 ^ 8 * get_or e (i + 1) 0
    + 2 ^ 16 * get_or e (i + 2) 0
    + 2 ^ 24 * get_or e (i + 3) 0

abbrev pub le_bytes : ℕ → List ℕ
le_bytes x = x % 256 ∷ x / 2 ^ 8 % 256 ∷ x / 2 ^ 16 % 256 ∷ x / 2 ^ 24 % 256 ∷ []

abbrev pub journal_entry_type : List ℕ → ℕ
journal_entry_type entry = le_word entry 0

unfoldable pub journal_scan_step : ℕ → JournalScanStep
journal_scan_step t =
    if (t == 0) || (t == journal_block_write)
    then continue
    else if t == journal_commit_end
    then commit
    else stop

unfoldable pub journal_replay_entry : List ℕ → Option (ℕ × List ℕ)
journal_replay_entry entry =
    if not (journal_entry_type entry == journal_block_write)
    then none
    else some (le_word entry 4, take journal_data_size (drop 8 entry))

pub record Disk : Type 0 where
  pub blocks : ℕ → List ℕ
  pub writes_left : ℕ

-- The fields of `G_SB` that the journal uses, `G_JOURNAL_HEAD`, and the disk.
pub record Log : Type 0 where
  pub disk : Disk
  pub journal_start : ℕ
  pub journal_size : ℕ
  pub journal_head : ℕ

abbrev pub Run : Type 0
Run = KResult (Unit {0}) × Log

unfoldable pub write_block : ℕ → List ℕ → Log → Run
write_block b bytes l = if l.disk.writes_left == 0 then (err io, l) else (
  ok tt,
  record l {
    disk = record { blocks = assign l.disk.blocks b bytes; writes_left = l.disk.writes_left - 1 };
  },
)

-- `?` between two steps.
abbrev pub and_then : Run → (Log → Run) → Run
and_then (ok t, l) f = f l
and_then (err e, l) f = (err e, l)

abbrev pub no_journal : Log → Bool
no_journal l = (l.journal_start == 0) || (l.journal_size == 0)

abbrev pub set_head : ℕ → Log → Run
set_head head l = (ok tt, record l { journal_head = head })

abbrev pub block_entry : ℕ → List ℕ → List ℕ
block_entry b bytes = le_bytes journal_block_write ++ (le_bytes b ++ take journal_data_size bytes)

unfoldable pub journal_log : ℕ → List ℕ → Log → Run
journal_log b bytes l =
    if no_journal l
    then (ok tt, l)
    else if leb l.journal_size l.journal_head
    then (err no_space, l)
    else and_then (write_block (l.journal_start + l.journal_head) (block_entry b bytes) l)
        (set_head (l.journal_head + 1))

abbrev pub zero_block : List ℕ
zero_block = replicate onyfs_block_size 0

abbrev pub commit_entry : List ℕ
commit_entry = le_bytes journal_commit_end ++ replicate (onyfs_block_size - 4) 0

-- `n` slots are zeroed from the slot `j` on.
unfoldable pub zero_loop : ℕ → ℕ → Log → Run
zero_loop zero j l = (ok tt, l)
zero_loop (suc n) j l =
    and_then (write_block (l.journal_start + j) zero_block l) (λ m. zero_loop n (j + 1) m)

unfoldable pub journal_commit : Log → Run
journal_commit l =
    let head = l.journal_head in
    let at = l.journal_start + head in
    let room = ltb head l.journal_size in
    if no_journal l
    then (ok tt, l)
    else if head == 0
    then (ok tt, l)
    else and_then (if room then write_block at commit_entry l else (ok tt, l)) (λ l.
      and_then (zero_loop head 0 (record l { journal_head = 0 }))
        (λ l. if room then write_block at zero_block l else (ok tt, l)))

-- The scan with `n` slots left, at the slot `i`: where the commit marker is.
unfoldable pub scan_loop : ℕ → ℕ → Log → Option ℕ
scan_loop zero i l = none
scan_loop (suc n) i l =
    let rest = scan_loop n (i + 1) l in
    elim (journal_scan_step (journal_entry_type (l.disk.blocks (l.journal_start + i)))) [
      | continue ↦ rest
      | commit ↦ some i
      | stop ↦ none
    ]

-- The entry's data over the block that it is for.
abbrev pub redo_block : Option (ℕ × List ℕ) → Log → Run
redo_block none l = (ok tt, l)
redo_block (some (b, bytes)) l = write_block b (bytes ++ drop (length bytes) (l.disk.blocks b)) l

unfoldable pub replay_loop : ℕ → ℕ → Log → Run
replay_loop zero j l = (ok tt, l)
replay_loop (suc n) j l =
    and_then (redo_block (journal_replay_entry (l.disk.blocks (l.journal_start + j))) l)
      (λ m. replay_loop n (j + 1) m)

unfoldable pub journal_recover : Log → Run
journal_recover l = if no_journal l then (ok tt, l) else elim (scan_loop l.journal_size 0 l) [
  | none ↦ set_head 0 l
  | some k ↦ and_then (replay_loop k 0 l) (λ m. and_then (zero_loop (k + 1) 0 m) (set_head 0))
]
