-- ===== src/Fs.antt =====
-- kernel/src/fs: the pseudo terminals, OnyxFS and the table of descriptors.
pub mod Pty
pub mod OnyxFs
pub mod Vfs
