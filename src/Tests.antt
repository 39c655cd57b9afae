-- ===== src/Tests.antt =====
-- Each property at a concrete input, by the part that the property is about.
mod Core
mod Ipc
mod Fs
mod Kernel
mod Crypto
mod Sched
mod Net
mod Udp
mod Signals
mod Heap
mod Fmt
mod Slab
