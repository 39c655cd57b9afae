-- ===== src/Tests/Fs.antt =====
-- The properties of the file systems at concrete inputs.
use onyx_kernel.Prelude.{ℕ, ◌≤◌, take, ◌≡◌, refl, true, false, List, [], ◌∷◌, replicate, arith}
use onyx_kernel.Core.Ringbuf.{ring_used}
use onyx_kernel.Fs.Pty.{Pty, new_pty, new_ring, pty_max}
use onyx_kernel.Fs.Pty.Stream.{IsPtyRing, IsPty}
use onyx_kernel.Fs.Pty.Table.{
  Op, open_pair, write_side, read_side, close_master, IsTable, run, duplex_run, abstract,
  run_refines,
}
use onyx_kernel.Core.Errno.{ok, err}
use onyx_kernel.Ipc.Channel.{Channel, zeroed}
use onyx_kernel.Fs.OnyxFs.Compress.{rle_compress, rle_decompress}
use onyx_kernel.Fs.OnyxFs.Compress.Roundtrip.{rle_decompress-rle_compress}
use onyx_kernel.Fs.Vfs.Node.{onyx, VfsFd, default_fd, vfs_max_fds}
use onyx_kernel.Fs.Vfs.Fd.{Files}
use onyx_kernel.Fs.Vfs.Fd.Token.{HasTables}
use onyx_kernel.Prelude.{some, length, length-take, length-replicate, if◌then◌else◌, ◌==◌, inl}
use onyx_kernel.Core.Errno.{io}
use onyx_kernel.Fs.OnyxFs.Journal.{
  Log, onyfs_block_size, journal_data_size, block_entry, commit_entry, zero_block, write_block,
  zero_loop, scan_loop, replay_loop, journal_scan_step, journal_replay_entry, journal_recover,
}
use onyx_kernel.Fs.OnyxFs.Journal.Redo.{Slot, redo}
use onyx_kernel.Fs.OnyxFs.Journal.Record.{block_entry-IsEntry, commit_entry_lem}
use onyx_kernel.Fs.OnyxFs.Journal.Recover.{Logged, Outside}
use onyx_kernel.Fs.OnyxFs.Journal.Crash.{powered, journal_recover-journal_recover}
use onyx_kernel.Prelude.{ℕ_discrete, sym, subst, All}
use onyx_kernel.Fs.OnyxFs.Journal.{journal_commit}
use onyx_kernel.Fs.OnyxFs.Journal.Redo.{IsData}
use onyx_kernel.Fs.OnyxFs.Journal.Open.{IsOpen}
use onyx_kernel.Fs.OnyxFs.Journal.Durable.{journal_recover-journal_commit, journal_commit_cut}

new_ring-IsPtyRing : IsPtyRing new_ring
unfolding ring_used
new_ring-IsPtyRing = record {
  cells = refl;
  head_lt = omega arith;
  tail_lt = omega arith;
  fits = omega arith;
}

abbrev boot : List Pty
boot = replicate pty_max new_pty

boot-IsTable : IsTable boot
boot-IsTable =
    let p : IsPty new_pty = record { m2s = new_ring-IsPtyRing; s2m = new_ring-IsPtyRing } in
    record { size = refl; pairs = (p, (p, (p, (p, tt)))) }

abbrev session : List Op
session =
    open_pair
    ∷ write_side 0 true (104 ∷ 105 ∷ [])
    ∷ read_side 0 false (0 ∷ 0 ∷ 0 ∷ [])
    ∷ close_master 0
    ∷ write_side 0 true (1 ∷ [])
    ∷ []

run_refines_example : run boot session ≡ duplex_run (abstract boot) session
run_refines_example = run_refines boot session boot-IsTable

rle_decompress-rle_compress_example :
    let (dst', size) = rle_compress (5 ∷ 5 ∷ 5 ∷ 5 ∷ 1 ∷ 2 ∷ []) (replicate 8 0) in
    (size ≤ 7)
    × (◌≡◌ {A = List ℕ × ℕ}
        (rle_decompress (take size dst') (replicate 7 9))
        (5 ∷ 5 ∷ 5 ∷ 5 ∷ 1 ∷ 2 ∷ 9 ∷ [], 6))
rle_decompress-rle_compress_example =
    rle_decompress-rle_compress (5 ∷ 5 ∷ 5 ∷ 5 ∷ 1 ∷ 2 ∷ []) (replicate 8 0) (replicate 7 9)
      (omega arith) (omega arith)

-- A process with one open file, at the slot 3.
abbrev a_file : VfsFd
a_file = record default_fd { used = true; fs = onyx; size = 100; perms = 7; epoch = 5 }

abbrev a_process : Files
a_process = record {
  is_kernel_boot = false;
  current_pid = 2;
  kernel_fds = replicate vfs_max_fds default_fd;
  fds = default_fd ∷ default_fd ∷ default_fd ∷ a_file ∷ replicate 12 default_fd;
}

a_process-HasTables : HasTables a_process
a_process-HasTables = record { kernel = refl; own = refl }

abbrev all_used : List Channel
all_used = replicate 32 (record zeroed { used = true })

abbrev page : List ℕ
page = replicate onyfs_block_size 7

abbrev page_slots : List Slot
page_slots = some (3, take journal_data_size page) ∷ []

-- One block is logged and committed, and `n` writes succeed.
abbrev after_crash : ℕ → Log
after_crash n = record {
  disk = record {
    blocks =
        λ b. if b == 10 then block_entry 3 page else if b == 11 then commit_entry else zero_block;
    writes_left = n;
  };
  journal_start = 10;
  journal_size = 8;
  journal_head = 0;
}

length-page : length page ≡ onyfs_block_size
length-page = length-replicate {A = ℕ} onyfs_block_size 7

after_crash-Logged : (n : ℕ) → Logged (after_crash n) page_slots
after_crash-Logged n = record {
  journal = refl;
  room = omega arith;
  entries = (block_entry-IsEntry 3 page (omega arith) length-page, commit_entry_lem);
  sizes = (omega (arith, length-take journal_data_size page, length-page), tt);
  away = (inl (omega arith), tt);
}

-- The data is written, and the zeroing fails.
one_write : (journal_recover (after_crash 1)).0 ≡ err io
unfolding journal_recover scan_loop replay_loop zero_loop write_block journal_scan_step
    journal_replay_entry
one_write = refl

journal_recover-journal_recover_example :
    let again = journal_recover (powered 3 (journal_recover (after_crash 1)).1) in
    (again.0 ≡ ok tt)
    × ((b : ℕ)
        → Outside (after_crash 1) 1 b
        → again.1.disk.blocks b ≡ redo page_slots b ((after_crash 1).disk.blocks b))
journal_recover-journal_recover_example =
    journal_recover-journal_recover (after_crash 1) page_slots 3 (after_crash-Logged 1) one_write
      (omega arith)

-- The block 3 is logged and written, and `n` writes succeed.
abbrev after_write : ℕ → Log
after_write n = record {
  disk = record {
    blocks = λ b. if b == 10 then block_entry 3 page else if b == 3 then page else zero_block;
    writes_left = n;
  };
  journal_start = 10;
  journal_size = 8;
  journal_head = 1;
}

after_write-IsOpen : (n : ℕ) → IsOpen (after_write n) page_slots
after_write-IsOpen n = record {
  journal = refl;
  head = refl;
  entries = (block_entry-IsEntry 3 page (omega arith) length-page, tt);
  clean = λ b p q.
      let not_entry : (b == 10) ≡ false = ground (arith, p) in
      let not_target : (b == 3) ≡ false = ground (arith, p) in rw (not_entry, not_target) refl;
}

page_sizes : All IsData page_slots
page_sizes = (omega (arith, length-take journal_data_size page, length-page), tt)

is_written :
    (n b : ℕ)
    → Outside (after_write n) 1 b
    → redo page_slots b ((after_write n).disk.blocks b) ≡ (after_write n).disk.blocks b
is_written n b o = elim (ℕ_discrete b 3) [
  | yes e ↦
      subst (λ k. redo page_slots k ((after_write n).disk.blocks k) ≡ (after_write n).disk.blocks k)
        (sym e) refl
  | no e ↦ let other : (3 == b) ≡ false = ground (arith, e) in rw other refl
]

journal_recover-journal_commit_example :
    let c = journal_commit (after_write 1) in
    let again = journal_recover (powered 3 c.1) in
    (c.0 ≡ err io)
    × (again.0 ≡ ok tt)
    × ((b : ℕ)
        → Outside (after_write 1) 1 b
        → again.1.disk.blocks b ≡ redo page_slots b ((after_write 1).disk.blocks b))
journal_recover-journal_commit_example =
    journal_recover-journal_commit (after_write 1) page_slots 3 (after_write-IsOpen 1) (omega arith)
      (omega arith) page_sizes (inl (omega arith), tt) refl (omega arith)

-- The marker is written and the slot zeroed, and the zeroing of the marker fails.
two_writes : (journal_commit (after_write 2)).0 ≡ err io
unfolding journal_commit zero_loop write_block
two_writes = refl

journal_commit_cut_example :
    let again = journal_recover (powered 3 (journal_commit (after_write 2)).1) in
    (again.0 ≡ ok tt)
    × ((b : ℕ)
        → Outside (after_write 2) 1 b
        → again.1.disk.blocks b ≡ (after_write 2).disk.blocks b)
journal_commit_cut_example =
    journal_commit_cut (after_write 2) page_slots 3 (after_write-IsOpen 2) (omega arith)
      (omega arith) page_sizes (inl (omega arith), tt) (is_written 2) two_writes (omega arith)
