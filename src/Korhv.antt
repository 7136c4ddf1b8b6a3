-- ===== src/Korhv.antt =====
-- apps/korhv/src, the hypervisor.
pub mod ConsoleMux
