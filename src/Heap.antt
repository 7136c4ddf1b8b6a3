-- ===== src/Heap.antt =====
-- base/kor-alloc: the kernel heap.
pub mod Slab
