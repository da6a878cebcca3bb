-- ===== src/Kernel.antt =====
-- The kernel's own state, kernel/: address spaces, credentials, event counters, futexes, signals and process groups.
pub mod Memory
pub mod Mmap
pub mod Mm
pub mod Getset
pub mod Eventfd
pub mod Futex
pub mod Signal
pub mod Group
