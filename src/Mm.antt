-- ===== src/Mm.antt =====
-- kernel/src/mm: memory management.
pub mod Pmm
pub mod Heap
pub mod Slab
