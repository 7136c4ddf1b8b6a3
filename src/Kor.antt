-- ===== src/Kor.antt =====
-- The foundation crate kor: physical memory regions and page frames.
pub mod Block
pub mod Regions
pub mod Frame
pub mod Vfs
