-- ===== src/Fs.antt =====
-- The crate kor-fs.
pub mod BlockCache
pub mod Path
pub mod Mount
pub mod Fd
pub mod Registry
