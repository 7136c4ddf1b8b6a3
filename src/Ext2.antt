-- ===== src/Ext2.antt =====
-- filesystems/kor-ext2/src, the ext2 file system.
pub mod SuperBlock
pub mod Backup
pub mod Blocks
pub mod Bitmap
pub mod Alloc
pub mod Dir
pub mod Mount
