-- ===== src/Fs.antt =====
-- The file layer of the kernel, fs/: descriptors and record locks.
pub mod Lock
pub mod Fd
pub mod Path
