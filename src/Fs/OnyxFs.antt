-- ===== src/Fs/OnyxFs.antt =====
-- kernel/src/fs/onyxfs: the kernel's own file system.
pub mod Compress
pub mod Journal
