-- ===== src/Proc/Limits/Caps.antt =====
-- The limits on the number of processes.
use onyx_kernel.Prelude.{ℕ, ◌≤◌, ◌≡◌, ◌≢◌, List, [], ◌∷◌, ltb, if◌then◌else◌, arith}
use onyx_kernel.Core.Errno.{is_ok}
use onyx_kernel.Proc.State.{creating}
use onyx_kernel.Proc.Limits.{
  Owned, live_proc_count, live_proc_count_uid, can_create_proc, max_procs, max_procs_per_uid,
}

count_uid-le : (ps : List Owned) (uid : ℕ) → live_proc_count_uid ps uid ≤ live_proc_count ps
unfolding live_proc_count live_proc_count_uid
count_uid-le [] uid = omega arith
count_uid-le (p ∷ ps) uid = ground (arith, count_uid-le ps uid)

-- The limit of the user root never applies: only the limit on all processes stops root.
pub can_create_proc_root :
    (ps : List Owned) → is_ok (can_create_proc ps 0) ≡ ltb (live_proc_count ps) max_procs
unfolding can_create_proc
can_create_proc_root ps = ground (arith, count_uid-le ps 0)

-- One attempt of the user to create a process.
pub attempt : List Owned → ℕ → List Owned
attempt ps uid =
    if is_ok (can_create_proc ps uid) then record { state = creating; uid = uid } ∷ ps else ps

pub attempts : List Owned → List ℕ → List Owned
attempts ps [] = ps
attempts ps (u ∷ us) = attempts (attempt ps u) us

attempt_bounded :
    (ps : List Owned) (u uid : ℕ)
    → uid ≢ 0
    → live_proc_count ps ≤ max_procs
    → live_proc_count_uid ps uid ≤ max_procs_per_uid
    → (live_proc_count (attempt ps u) ≤ max_procs)
      × (live_proc_count_uid (attempt ps u) uid ≤ max_procs_per_uid)
unfolding attempt can_create_proc live_proc_count live_proc_count_uid
attempt_bounded ps u uid n a b = ground (arith, n, a, b)

-- Whatever attempts users make to create processes, one after the other, there are never more
-- than 128 processes, and never more than 32 of one user other than root.
pub attempts_bounded :
    (ps : List Owned) (us : List ℕ) (uid : ℕ)
    → uid ≢ 0
    → live_proc_count ps ≤ max_procs
    → live_proc_count_uid ps uid ≤ max_procs_per_uid
    → (live_proc_count (attempts ps us) ≤ max_procs)
      × (live_proc_count_uid (attempts ps us) uid ≤ max_procs_per_uid)
unfolding attempts
attempts_bounded ps [] uid n a b = (a, b)
attempts_bounded ps (u ∷ us) uid n a b =
    let step = attempt_bounded ps u uid n a b in
    attempts_bounded (attempt ps u) us uid n step.0 step.1
