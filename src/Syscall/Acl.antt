-- ===== src/Syscall/Acl.antt =====
-- kernel/src/syscall/handler/acl.rs: which system calls a process may make.
pub mod Laws
use onyx_kernel.Prelude.{
  ℕ, ◌+◌, ◌≡◌, refl, Bool, true, false, ◌||◌, Option, none, some, List, [], ◌∷◌, leb, ◌==◌,
  if◌then◌else◌,
}
use onyx_kernel.Syscall.Numbers.{
  Syscall, number, sys_write, sys_read, sys_exit, sys_yield, sys_getpid, sys_brk, sys_mmap,
  sys_open, sys_close, sys_lseek, sys_stat, sys_exec, sys_sbrk, sys_spawn, sys_wait, sys_readdir,
  sys_getring, sys_dropring, sys_snapshot_create, sys_snapshot_rollback, sys_snapshot_list,
  sys_kill, sys_sigmask, sys_write_fd, sys_create, sys_mkdir, sys_chan_create, sys_chan_connect,
  sys_chan_send, sys_chan_recv, sys_chan_close, sys_chan_create_named, sys_chan_open, sys_munmap,
  sys_dup, sys_pipe, sys_unlink, sys_rename, sys_chdir, sys_getcwd, sys_truncate, sys_access,
  sys_gettimeofday, sys_fcntl, sys_getuid, sys_getgid, sys_utimens, sys_uname, sys_nanosleep,
  sys_fstat, sys_waitpid, sys_getdents64, sys_ioctl, sys_mprotect, sys_sigaction, sys_sigprocmask,
  sys_sigreturn, sys_execve, sys_getppid, sys_setpgid, sys_setsid, sys_getpgid, sys_fork,
  sys_clock_gettime, sys_clock_getres, sys_isatty, sys_getentropy, sys_setuid, sys_setgid,
  sys_fsync, sys_truncate2, sys_ftruncate, sys_readlink, sys_symlink, sys_chmod, sys_fchmod,
  sys_getdents, sys_sched_setaffinity, sys_sched_getaffinity, sys_net_connect, sys_net_send,
  sys_net_recv, sys_net_close, sys_chown, sys_fchown, sys_mouse_read, sys_poll, sys_umask,
  sys_net_resolve, sys_reboot, sys_net_config, sys_udp_bind, sys_udp_sendto, sys_udp_recv,
  sys_udp_close, sys_net_listen, sys_net_accept, sys_net_unlisten, sys_udp_recvfrom,
  sys_udp_sendfrom,
}

-- `nr` is the number of one of the calls.
abbrev pub is_one_of : ℕ → List Syscall → Bool
is_one_of nr [] = false
is_one_of nr (s ∷ calls) = nr == number s || is_one_of nr calls

-- The calls of the first arm, which every process may make.
abbrev pub every_ring : List Syscall
every_ring =
    sys_write ∷ sys_read ∷ sys_exit ∷ sys_yield ∷ sys_getpid ∷ sys_sbrk ∷ sys_open ∷ sys_close
    ∷ sys_lseek ∷ sys_stat ∷ sys_exec ∷ sys_readdir ∷ sys_getring ∷ sys_dropring ∷ sys_sigmask
    ∷ sys_write_fd ∷ sys_chan_connect ∷ sys_chan_send ∷ sys_chan_recv ∷ sys_chan_close
    ∷ sys_chan_open ∷ sys_brk ∷ sys_mmap ∷ sys_munmap ∷ sys_dup ∷ sys_chdir ∷ sys_getcwd
    ∷ sys_access ∷ sys_gettimeofday ∷ sys_fcntl ∷ sys_getuid ∷ sys_getgid ∷ sys_uname
    ∷ sys_nanosleep ∷ sys_fstat ∷ sys_getdents64 ∷ sys_getdents ∷ sys_ioctl ∷ sys_mprotect
    ∷ sys_sigaction ∷ sys_sigprocmask ∷ sys_sigreturn ∷ sys_execve ∷ sys_getppid ∷ sys_clock_gettime
    ∷ sys_clock_getres ∷ sys_isatty ∷ sys_getentropy ∷ sys_waitpid ∷ sys_fork ∷ sys_ftruncate
    ∷ sys_truncate2 ∷ sys_readlink ∷ sys_setsid ∷ sys_getpgid ∷ sys_setpgid ∷ sys_sched_setaffinity
    ∷ sys_sched_getaffinity ∷ sys_net_connect ∷ sys_net_send ∷ sys_net_recv ∷ sys_net_close
    ∷ sys_net_resolve ∷ sys_poll ∷ sys_kill ∷ sys_mouse_read ∷ sys_setuid ∷ sys_setgid ∷ sys_umask
    ∷ []

-- Those of the second, for the rings of the kernel and of root.
abbrev pub root_ring : List Syscall
root_ring =
    sys_spawn ∷ sys_wait ∷ sys_snapshot_create ∷ sys_snapshot_rollback ∷ sys_snapshot_list
    ∷ sys_mkdir ∷ sys_chan_create ∷ sys_chan_create_named ∷ sys_unlink ∷ sys_truncate ∷ sys_utimens
    ∷ sys_pipe ∷ sys_fsync ∷ sys_symlink ∷ sys_chmod ∷ sys_fchmod ∷ sys_chown ∷ sys_fchown
    ∷ sys_reboot ∷ []

-- Those of the third and the fourth, also for the user root in any ring.
abbrev pub network_admin : List Syscall
network_admin =
    sys_net_config ∷ sys_udp_bind ∷ sys_udp_sendto ∷ sys_udp_recv ∷ sys_udp_close ∷ sys_net_listen
    ∷ sys_net_accept ∷ sys_net_unlisten ∷ sys_udp_recvfrom ∷ sys_udp_sendfrom ∷ []

abbrev pub file_admin : List Syscall
file_admin = sys_create ∷ sys_rename ∷ []

abbrev pub proc_ring_root : ℕ
proc_ring_root = 1

abbrev pub is_root : Option ℕ → Bool
is_root none = false
is_root (some u) = u == 0

unfoldable pub syscall_allowed_uid : ℕ → ℕ → Option ℕ → Bool
syscall_allowed_uid nr ring uid =
    if is_one_of nr every_ring
    then true
    else if is_one_of nr root_ring
    then leb ring proc_ring_root
    else if is_one_of nr network_admin
    then leb ring proc_ring_root || is_root uid
    else if is_one_of nr file_admin
    then leb ring proc_ring_root || is_root uid
    else false
