-- ===== src/Mm.antt =====
-- src/kernel/mm: the memory of the kernel and of the processes.
pub mod Map
pub mod Pages
pub mod Heap
