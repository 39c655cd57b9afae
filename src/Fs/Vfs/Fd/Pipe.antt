-- ===== src/Fs/Vfs/Fd/Pipe.antt =====
-- Pipes and positions.
use Prim.Native.Nat.{bit_and}
use onyx_kernel.Prelude.{
  ℕ, ◌%◌, ◌^◌, ◌<◌, if◌then◌else◌, ◌≡◌, ◌≢◌, sym, ap, ◌∙◌, true, inl, inr, List, get_or,
  get_or-set_self, set, arith,
}
use onyx_kernel.Prelude.Int.{ℤ, pos, negsuc, ◌+ℤ◌}
use onyx_kernel.Core.Errno.{Errno, ok, err, KResult-cases}
use onyx_kernel.Ipc.Channel.{Channel}
use onyx_kernel.Ipc.Registry.{create}
use onyx_kernel.Fs.Vfs.Node.{
  VfsFd, default_fd, perm_read, perm_write, perm_seek, fd_token_idx, fd_token_epoch,
}
use onyx_kernel.Fs.Vfs.Fd.{
  Files, table, fd_get, fd_put, fd_update_pos, alloc_fd, pipe_channel, create_pipe, fd_check,
  fd_check_perm, seek_to, seek_target, lseek,
}
use onyx_kernel.Fs.Vfs.Fd.Token.{HasTables, table-length, table-with_table}

-- A pipe that fails for want of a channel keeps both descriptors: they stay claimed in the table.
pub create_pipe_leaks :
    (f : Files) (chans : List Channel) {r w : ℕ} {e : Errno}
    → (alloc_fd f perm_read).0 ≡ ok r
    → (alloc_fd (alloc_fd f perm_read).1 perm_write).0 ≡ ok w
    → (let g = (alloc_fd (alloc_fd f perm_read).1 perm_write).1 in
        (create chans (if g.is_kernel_boot then 0 else g.current_pid)).0 ≡ err e)
    → let (res, g, chans') = create_pipe f chans in
      (res ≡ err e) × (g ≡ (alloc_fd (alloc_fd f perm_read).1 perm_write).1)
unfolding create_pipe pipe_channel
create_pipe_leaks f chans h k l = ground (arith, h, k, l)

check_ok :
    (f : Files) (token p : ℕ) {idx : ℕ}
    → fd_check_perm f token p ≡ ok idx
    → (idx ≡ fd_token_idx token)
      × (idx < 16)
      × ((fd_get f idx).used ≡ true)
      × ((fd_get f idx).epoch % 4096 ≡ fd_token_epoch token)
      × (bit_and (fd_get f idx).perms p ≢ 0)
unfolding fd_check_perm fd_check
check_ok f token p h = ground (arith, h)

check_intro :
    (g : Files) (token p idx : ℕ)
    → idx ≡ fd_token_idx token
    → idx < 16
    → (fd_get g idx).used ≡ true
    → (fd_get g idx).epoch % 4096 ≡ fd_token_epoch token
    → bit_and (fd_get g idx).perms p ≢ 0
    → fd_check_perm g token p ≡ ok idx
unfolding fd_check_perm fd_check
check_intro g token p idx i l u e b = ground (arith, i, l, u, e, b)

fd_get-fd_put :
    (f : Files) (idx : ℕ) (fd : VfsFd) → HasTables f → idx < 16 → fd_get (fd_put f idx fd) idx ≡ fd
fd_get-fd_put f idx fd v h =
    ap (λ t. get_or t idx default_fd) (table-with_table f (set (table f) idx fd))
    ∙ get_or-set_self (table f) idx fd default_fd (omega (arith, h, table-length f v))

seek_to_lt : (z : ℤ) {n : ℕ} → seek_to z ≡ ok n → n < 2 ^ 32
seek_to_lt (negsuc m) h = absurd (cc)
seek_to_lt (pos m) h = ground arith

seek_target_lt :
    (fd : VfsFd) (off : ℤ) (whence : ℕ) {n : ℕ} → seek_target fd off whence ≡ ok n → n < 2 ^ 32
seek_target_lt fd off whence h =
    ground
      (arith, seek_to_lt off, seek_to_lt (pos fd.pos +ℤ off), seek_to_lt (pos fd.size +ℤ off), h)

lseek_ok :
    (f : Files) (token : ℕ) (off : ℤ) (whence : ℕ) {n : ℕ}
    → (lseek f token off whence).0 ≡ ok n
    → (idx : ℕ) × (fd_check_perm f token perm_seek ≡ ok idx)
      × (seek_target (fd_get f idx) off whence ≡ ok n)
      × ((lseek f token off whence).1 ≡ fd_update_pos f idx n)
unfolding lseek
lseek_ok f token off whence {n} h = elim (KResult-cases (fd_check_perm f token perm_seek)) [
  | inl (idx, c) ↦ elim (KResult-cases (seek_target (fd_get f idx) off whence)) [
    | inl (m, t) ↦
        let same : m ≡ n = ground (arith, c, t, h) in
        (idx, c, t ∙ ap ok same, ground (arith, c, t, same))
    | inr (e, t) ↦ absurd (ground (arith, c, t, h))
  ]
  | inr (e, c) ↦ absurd (ground (arith, c, h))
]

lseek_tells :
    (g : Files) (token idx n : ℕ)
    → fd_check_perm g token perm_seek ≡ ok idx
    → (fd_get g idx).pos ≡ n
    → n < 2 ^ 32
    → (lseek g token (pos 0) 1).0 ≡ ok n
unfolding lseek
lseek_tells g token idx n c p h = ground (arith, c, p, h)

-- After a seek that succeeds, asking for the position gives the position that the seek returned.
pub lseek_tell :
    (f : Files) (token : ℕ) (off : ℤ) (whence : ℕ) {n : ℕ}
    → HasTables f
    → (lseek f token off whence).0 ≡ ok n
    → (lseek (lseek f token off whence).1 token (pos 0) 1).0 ≡ ok n
lseek_tell f token off whence {n} v h =
    let (idx, c, t, after) = lseek_ok f token off whence h in
    let ok_here = check_ok f token perm_seek c in
    let slot : fd_get (fd_update_pos f idx n) idx ≡ record (fd_get f idx) { pos = n } =
      fd_get-fd_put f idx (record (fd_get f idx) { pos = n }) v ok_here.1 in
    let still : fd_check_perm (fd_update_pos f idx n) token perm_seek ≡ ok idx =
      check_intro (fd_update_pos f idx n) token perm_seek idx ok_here.0 ok_here.1
        (ap (λ d. d.used) slot ∙ ok_here.2) (ap (λ d. d.epoch % 4096) slot ∙ ok_here.3)
        (λ z. ok_here.4 (ap (λ d. bit_and d.perms perm_seek) (sym slot) ∙ z)) in
    rw after (
      lseek_tells (fd_update_pos f idx n) token idx n still (ap (λ d. d.pos) slot)
        (seek_target_lt (fd_get f idx) off whence t))
