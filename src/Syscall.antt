-- ===== src/Syscall.antt =====
-- kernel/src/syscall: the entry of the kernel.
pub mod Numbers
pub mod Acl
