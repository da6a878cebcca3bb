-- ===== src/Util.antt =====
-- The data structures of util/.
pub mod Fifo
