-- ===== src/Fs.antt =====
-- src/kernel/fs: the files that the kernel serves itself.
pub mod Pipe
pub mod Bitmaps
pub mod Bufcache
