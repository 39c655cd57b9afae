-- ===== src/Core.antt =====
-- The crate core/: code that the kernel and the user programs share.
pub mod Errno
pub mod Ringbuf
pub mod Crypto
pub mod Fmt
