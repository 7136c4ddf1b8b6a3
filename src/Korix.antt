-- ===== src/Korix.antt =====
-- apps/korix/src, the kernel that runs Linux programs.
pub mod Mm
pub mod Syscall
