-- ===== src/Fs/Vfs/Node.antt =====
-- kernel/src/fs/vfs/node/vnode.rs: descriptors, and the tokens that name them. On numbers,
-- `& 0xF` is `% 16`, `& 0xFFF` is `% 4096`, and `(a << 4) | b` is `16 * a + b` for `b < 16`.
use onyx_kernel.Prelude.{ℕ, ◌+◌, ◌*◌, ◌/◌, ◌%◌, Bool, false}

abbrev pub vfs_max_fds : ℕ
vfs_max_fds = 16

-- `MNT_ROOT as u8`
abbrev pub mnt_root : ℕ
mnt_root = 255

pub data Fs : Type 0 where
  no_fs onyx fat32 proc ipc devfs : Fs

abbrev pub perm_read : ℕ
perm_read = 1

abbrev pub perm_write : ℕ
perm_write = 2

abbrev pub perm_seek : ℕ
perm_seek = 4

pub record VfsFd : Type 0 where
  pub ino : ℕ
  pub size : ℕ
  pub pos : ℕ
  pub fs : Fs
  pub used : Bool
  pub perms : ℕ
  pub epoch : ℕ
  pub cloexec : Bool
  pub flags : ℕ
  pub mnt : ℕ

abbrev pub default_fd : VfsFd
default_fd = record {
  ino = 0;
  size = 0;
  pos = 0;
  fs = no_fs;
  used = false;
  perms = 0;
  epoch = 0;
  cloexec = false;
  flags = 0;
  mnt = mnt_root;
}

unfoldable pub fd_token : ℕ → ℕ → ℕ
fd_token idx epoch = 16 * (epoch % 4096) + idx % 16

unfoldable pub fd_token_idx : ℕ → ℕ
fd_token_idx token = token % 16

unfoldable pub fd_token_epoch : ℕ → ℕ
fd_token_epoch token = token / 16 % 4096
