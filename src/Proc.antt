-- ===== src/Proc.antt =====
-- kernel/src/proc: processes.
pub mod State
pub mod Limits
pub mod Runqueue
pub mod Signals
