-- ===== src/Syscall/Numbers.antt =====
-- kernel/src/syscall/numbers.rs: the numbers of the system calls.
use onyx_kernel.Prelude.{ℕ}

pub data Syscall : Type 0 where
  sys_write sys_read sys_exit sys_yield sys_getpid sys_brk sys_mmap sys_open sys_close : Syscall
  sys_lseek sys_stat sys_exec sys_sbrk sys_spawn sys_wait sys_readdir sys_getring sys_dropring :
      Syscall
  sys_snapshot_create sys_snapshot_rollback sys_snapshot_list sys_kill sys_sigmask : Syscall
  sys_write_fd sys_create sys_mkdir sys_chan_create sys_chan_connect sys_chan_send : Syscall
  sys_chan_recv sys_chan_close sys_chan_create_named sys_chan_open sys_munmap sys_dup sys_pipe :
      Syscall
  sys_unlink sys_rename sys_chdir sys_getcwd sys_truncate sys_access sys_gettimeofday : Syscall
  sys_fcntl sys_getuid sys_getgid sys_utimens sys_uname sys_nanosleep sys_fstat sys_waitpid :
      Syscall
  sys_getdents64 sys_ioctl sys_mprotect sys_sigaction sys_sigprocmask sys_sigreturn sys_execve :
      Syscall
  sys_getppid sys_setpgid sys_setsid sys_getpgid sys_fork sys_clock_gettime sys_clock_getres :
      Syscall
  sys_isatty sys_getentropy sys_setuid sys_setgid sys_fsync sys_truncate2 sys_ftruncate : Syscall
  sys_readlink sys_symlink sys_chmod sys_fchmod sys_getdents sys_sched_setaffinity : Syscall
  sys_sched_getaffinity sys_net_connect sys_net_send sys_net_recv sys_net_close sys_chown : Syscall
  sys_fchown sys_mouse_read sys_poll sys_umask sys_net_resolve sys_reboot sys_net_config : Syscall
  sys_udp_bind sys_udp_sendto sys_udp_recv sys_udp_close sys_net_listen sys_net_accept : Syscall
  sys_net_unlisten sys_udp_recvfrom sys_udp_sendfrom : Syscall

unfoldable pub number : Syscall → ℕ
number sys_write = 1
number sys_read = 2
number sys_exit = 3
number sys_yield = 4
number sys_getpid = 5
number sys_brk = 6
number sys_mmap = 7
number sys_open = 8
number sys_close = 9
number sys_lseek = 10
number sys_stat = 11
number sys_exec = 12
number sys_sbrk = 13
number sys_spawn = 14
number sys_wait = 15
number sys_readdir = 16
number sys_getring = 17
number sys_dropring = 18
number sys_snapshot_create = 19
number sys_snapshot_rollback = 20
number sys_snapshot_list = 21
number sys_kill = 22
number sys_sigmask = 23
number sys_write_fd = 24
number sys_create = 25
number sys_mkdir = 26
number sys_chan_create = 27
number sys_chan_connect = 28
number sys_chan_send = 29
number sys_chan_recv = 30
number sys_chan_close = 31
number sys_chan_create_named = 32
number sys_chan_open = 33
number sys_munmap = 34
number sys_dup = 35
number sys_pipe = 36
number sys_unlink = 37
number sys_rename = 38
number sys_chdir = 39
number sys_getcwd = 40
number sys_truncate = 41
number sys_access = 42
number sys_gettimeofday = 43
number sys_fcntl = 44
number sys_getuid = 45
number sys_getgid = 46
number sys_utimens = 47
number sys_uname = 48
number sys_nanosleep = 49
number sys_fstat = 50
number sys_waitpid = 51
number sys_getdents64 = 52
number sys_ioctl = 53
number sys_mprotect = 54
number sys_sigaction = 55
number sys_sigprocmask = 56
number sys_sigreturn = 57
number sys_execve = 58
number sys_getppid = 59
number sys_setpgid = 60
number sys_setsid = 61
number sys_getpgid = 62
number sys_fork = 63
number sys_clock_gettime = 64
number sys_clock_getres = 65
number sys_isatty = 66
number sys_getentropy = 67
number sys_setuid = 68
number sys_setgid = 69
number sys_fsync = 70
number sys_truncate2 = 71
number sys_ftruncate = 72
number sys_readlink = 73
number sys_symlink = 74
number sys_chmod = 75
number sys_fchmod = 76
number sys_getdents = 77
number sys_sched_setaffinity = 78
number sys_sched_getaffinity = 79
number sys_net_connect = 80
number sys_net_send = 81
number sys_net_recv = 82
number sys_net_close = 83
number sys_chown = 84
number sys_fchown = 85
number sys_mouse_read = 86
number sys_poll = 87
number sys_umask = 88
number sys_net_resolve = 89
number sys_reboot = 90
number sys_net_config = 91
number sys_udp_bind = 92
number sys_udp_sendto = 93
number sys_udp_recv = 94
number sys_udp_close = 95
number sys_net_listen = 100
number sys_net_accept = 101
number sys_net_unlisten = 102
number sys_udp_recvfrom = 103
number sys_udp_sendfrom = 104
