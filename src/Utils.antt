-- ===== src/Utils.antt =====
-- include/kernel/utils and src/kernel/utils: the data structures that the kernel shares.
pub mod RingBuffer
pub mod Queue
pub mod Iovec
