-- ===== src/Fs/Vfs/Fd.antt =====
-- kernel/src/fs/vfs/fd: the table of descriptors (ops.rs, table.rs), and what is done to it by dup.rs,
-- seek.rs and stdio.rs. A table is used only by its own process, so an operation is one step.
pub mod Token
pub mod Pipe
use Prim.Native.Nat.{bit_and}
use onyx_kernel.Prelude.{
  ℕ, zero, suc, ◌+◌, ◌-◌, ◌%◌, ◌^◌, max, Bool, true, false, not, ◌&&◌, ◌||◌, List, [], ◌∷◌, get_or,
  set, ltb, leb, ◌==◌, if◌then◌else◌,
}
use onyx_kernel.Prelude.Int.{ℤ, pos, negsuc, ◌+ℤ◌}
use onyx_kernel.Core.Errno.{KResult, ok, err, inval, perm, range, bad_fd}
use onyx_kernel.Ipc.Channel.{Channel}
use onyx_kernel.Ipc.Registry.{create}
use onyx_kernel.Fs.Vfs.Node.{
  Fs, ipc, VfsFd, default_fd, vfs_max_fds, mnt_root, perm_read, perm_write, perm_seek, fd_token,
  fd_token_idx, fd_token_epoch,
}

-- The context of a call: whether no process is current, the pid, the kernel's table and the
-- current process's.
pub record Files : Type 0 where
  pub is_kernel_boot : Bool
  pub current_pid : ℕ
  pub kernel_fds : List VfsFd
  pub fds : List VfsFd

-- The table that the calls of the context use.
abbrev pub table : Files → List VfsFd
table f = if f.is_kernel_boot then f.kernel_fds else f.fds

abbrev pub with_table : Files → List VfsFd → Files
with_table f t = if f.is_kernel_boot then record f { kernel_fds = t } else record f { fds = t }

abbrev pub fd_get : Files → ℕ → VfsFd
fd_get f idx = get_or (table f) idx default_fd

abbrev pub fd_put : Files → ℕ → VfsFd → Files
fd_put f idx fd = with_table f (set (table f) idx fd)

abbrev pub fd_set : Files → ℕ → ℕ → ℕ → Fs → ℕ → ℕ → Files
fd_set f idx ino size fs at mnt =
    fd_put f idx (record (fd_get f idx) { ino = ino; size = size; fs = fs; pos = at; mnt = mnt })

abbrev pub fd_clear : Files → ℕ → Files
fd_clear f idx = fd_put f idx (record (fd_get f idx) { used = false })

abbrev pub fd_update_pos : Files → ℕ → ℕ → Files
fd_update_pos f idx at = fd_put f idx (record (fd_get f idx) { pos = at })

abbrev pub fd_set_cloexec : Files → ℕ → Bool → Files
fd_set_cloexec f idx cloexec = fd_put f idx (record (fd_get f idx) { cloexec = cloexec })

abbrev pub fd_set_flags : Files → ℕ → ℕ → Files
fd_set_flags f idx flags = fd_put f idx (record (fd_get f idx) { flags = flags })

-- `epoch.wrapping_add(1)`, and 1 in place of 0.
abbrev pub next_epoch : ℕ → ℕ
next_epoch e = max 1 ((e + 1) % 2 ^ 32)

-- The loop of `alloc_fd` from the slot `i` on; slots below `first` are skipped.
pub alloc_from : ℕ → ℕ → ℕ → List VfsFd → KResult ℕ × List VfsFd
alloc_from first i perms [] = (err bad_fd, [])
alloc_from first i perms (fd ∷ t) =
    let (r, rest) = alloc_from first (suc i) perms t in
    if leb first i && not fd.used
    then (ok i, record fd { used = true; perms = perms; epoch = next_epoch fd.epoch } ∷ t)
    else (r, fd ∷ rest)

unfoldable pub alloc_fd : Files → ℕ → KResult ℕ × Files
unfolding alloc_from
alloc_fd f perms =
    let (r, t) = alloc_from (if f.is_kernel_boot then 0 else 3) 0 perms (table f) in
    (r, with_table f t)

unfoldable pub fd_check : Files → ℕ → KResult ℕ
unfolding fd_token_idx fd_token_epoch
fd_check f token =
    let idx = fd_token_idx token in
    let fd = fd_get f idx in
    if leb vfs_max_fds idx
    then err bad_fd
    else if not fd.used || not (fd.epoch % 4096 == fd_token_epoch token)
    then err bad_fd
    else ok idx

unfoldable pub fd_check_perm : Files → ℕ → ℕ → KResult ℕ
fd_check_perm f token p = elim (fd_check f token) [
  | err e ↦ err e
  | ok idx ↦ if bit_and (fd_get f idx).perms p == 0 then err perm else ok idx
]

unfoldable pub dup : Files → ℕ → KResult ℕ × Files
dup f token = elim (fd_check f token) [
  | err e ↦ (err e, f)
  | ok idx ↦
      let fd = fd_get f idx in
      let (r, g) = alloc_fd f fd.perms in
      elim r [
        | err e ↦ (err e, g)
        | ok i ↦
            let h = fd_set_flags (fd_set g i fd.ino fd.size fd.fs fd.pos fd.mnt) i fd.flags in
            (ok (fd_token i (fd_get h i).epoch), h)
      ]
]

-- One end of a pipe on the channel.
abbrev pub pipe_end : Files → ℕ → ℕ → Files
pipe_end f idx chan_id = fd_set f idx (chan_id + 2) 0 ipc 0 mnt_root

-- The last part of `create_pipe`, with both slots allocated.
unfoldable pub pipe_channel : Files → List Channel → ℕ → ℕ → KResult (ℕ × ℕ) × Files × List Channel
pipe_channel f chans r_idx w_idx =
    let (c, chans') = create chans (if f.is_kernel_boot then 0 else f.current_pid) in
    elim c [
      | err e ↦ (err e, f, chans')
      | ok id ↦
          let g = pipe_end (pipe_end f r_idx id) w_idx id in
          (
            ok (fd_token r_idx (fd_get g r_idx).epoch, fd_token w_idx (fd_get g w_idx).epoch),
            g,
            chans',
          )
    ]

unfoldable pub create_pipe : Files → List Channel → KResult (ℕ × ℕ) × Files × List Channel
create_pipe f chans =
    let (r, g) = alloc_fd f perm_read in
    elim r [
      | err e ↦ (err e, g, chans)
      | ok r_idx ↦
          let (w, h) = alloc_fd g perm_write in
          elim w [ err e ↦ (err e, h, chans) | ok w_idx ↦ pipe_channel h chans r_idx w_idx ]
    ]

-- The checks on a new position. An i64 sum that overflows is negative in a release build, and too
-- large here: an error of `Range` either way.
abbrev pub seek_to : ℤ → KResult ℕ
seek_to (negsuc n) = err range
seek_to (pos n) = if ltb n (2 ^ 32) then ok n else err range

-- The position that `whence` and `off` name.
abbrev pub seek_target : VfsFd → ℤ → ℕ → KResult ℕ
seek_target fd off whence =
    if whence == 0
    then seek_to off
    else if whence == 1
    then seek_to (pos fd.pos +ℤ off)
    else if whence == 2
    then seek_to (pos fd.size +ℤ off)
    else err inval

unfoldable pub lseek : Files → ℕ → ℤ → ℕ → KResult ℕ × Files
lseek f token off whence = elim (fd_check_perm f token perm_seek) [
  | err e ↦ (err e, f)
  | ok idx ↦ elim (seek_target (fd_get f idx) off whence) [
    | err e ↦ (err e, f)
    | ok n ↦ (ok n, fd_update_pos f idx n)
  ]
]

unfoldable pub resolve_stdio : Files → ℕ → ℕ
resolve_stdio f token =
    if leb token 2 && (fd_get f token).used then fd_token token (fd_get f token).epoch else token

-- Called in a process, so that its own table is the one in use.
unfoldable pub bind_stdio : Files → ℕ → ℕ → KResult ℕ × Files
bind_stdio f source target =
    if ltb 2 target
    then (err inval, f)
    else if source == 2 ^ 64 - 1
    then (
      ok target,
      record f {
        fds = set f.fds target (record (get_or f.fds target default_fd) { used = false });
      },
    )
    else elim (fd_check f (resolve_stdio f source)) [
      | err e ↦ (err e, f)
      | ok idx ↦
          let epoch = next_epoch (get_or f.fds target default_fd).epoch in
          (
            ok target,
            record f {
              fds = set f.fds target (record (fd_get f idx) { epoch = epoch; cloexec = false });
            },
          )
    ]
