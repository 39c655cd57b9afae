-- ===== src/Fs/Vfs.antt =====
-- kernel/src/fs/vfs: the virtual file system.
pub mod Node
pub mod Fd
