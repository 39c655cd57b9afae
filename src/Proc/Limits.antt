-- ===== src/Proc/Limits.antt =====
-- kernel/src/proc/limits.rs: the limits on processes and on the pages of users. A count of the list
-- of processes holds its lock; the list is shorter than 2 ^ 32.
pub mod Pages
pub mod Caps
use onyx_kernel.Prelude.{
  ℕ, zero, suc, ◌+◌, ◌-◌, ◌*◌, ◌/◌, ◌%◌, ◌^◌, Bool, true, false, not, ◌&&◌, List, [], ◌∷◌, ltb, leb,
  ◌==◌, if◌then◌else◌,
}
use onyx_kernel.Core.Errno.{KResult, ok, err, no_mem, again}
use onyx_kernel.Proc.State.{ProcState, free, ready, running, exited, waiting, creating, stopped}

abbrev pub max_procs : ℕ
max_procs = 128

abbrev pub max_procs_per_uid : ℕ
max_procs_per_uid = 32

abbrev pub max_procs_root_uid : ℕ
max_procs_root_uid = 256

abbrev pub user_mem_max_bytes : ℕ
user_mem_max_bytes = 128 * 1024 * 1024

abbrev pub user_mem_max_pages : ℕ
user_mem_max_pages = user_mem_max_bytes / 4096

abbrev pub uid_for_ring : ℕ → ℕ
uid_for_ring ring = if leb ring 1 then 0 else 1000

-- The two atomic steps of `user_page_take` on the counter, which is a usize: taking, which tells
-- whether the page is granted, and the step back where it is not.
unfoldable pub take_begin : ℕ → Bool × ℕ
take_begin prev = (not (leb user_mem_max_pages prev), (prev + 1) % 2 ^ 64)

unfoldable pub take_rollback : ℕ → ℕ
take_rollback v = (v + 2 ^ 64 - 1) % 2 ^ 64

-- The two steps with nothing between them.
unfoldable pub user_page_take : ℕ → KResult (Unit {0}) × ℕ
user_page_take v =
    let (granted, v') = take_begin v in
    if granted then (ok tt, v') else (err no_mem, take_rollback v')

unfoldable pub user_pages_release : ℕ → ℕ → ℕ
user_pages_release v n = if n == 0 then v else v - n

-- What the counts read of a process.
pub record Owned : Type 0 where
  pub state : ProcState
  pub uid : ℕ

abbrev pub is_free : ProcState → Bool
is_free free = true
is_free _ = false

unfoldable pub live_proc_count : List Owned → ℕ
live_proc_count [] = 0
live_proc_count (p ∷ ps) = (if not (is_free p.state) then 1 else 0) + live_proc_count ps

unfoldable pub live_proc_count_uid : List Owned → ℕ → ℕ
live_proc_count_uid [] uid = 0
live_proc_count_uid (p ∷ ps) uid =
    (if not (is_free p.state) && p.uid == uid then 1 else 0) + live_proc_count_uid ps uid

unfoldable pub can_create_proc : List Owned → ℕ → KResult (Unit {0})
can_create_proc ps uid =
    if leb max_procs (live_proc_count ps)
    then err again
    else if leb (if uid == 0 then max_procs_root_uid else max_procs_per_uid)
        (live_proc_count_uid ps uid)
    then err again
    else ok tt
