-- ===== src/Ipc.antt =====
-- kernel/src/ipc: channels between processes.
pub mod Channel
pub mod Wait
pub mod Transfer
pub mod Registry
