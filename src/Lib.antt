-- ===== src/Lib.antt =====
-- Koros: a kernel toolkit in Rust. The parts modelled here are its memory management, its file
-- system layer and its scheduler.
--
-- The parts and the files that model them (paths from the root of the repository):
--   * kor/src/regions.rs, the boot-time collector of memory ranges: Kor/Regions. `RegionCollector.add`,
--     `try_merge` and `insert` keep their names; the array is the list of its live prefix.
--   * kor/src/frame.rs, the allocator of physical frames: Kor/Frame. `FrameAllocator` is a record with
--     the bitmap as a function from the index of a word to the word; `alloc_frames`, `free_frames` and
--     `add_region` are functions to an option, where `none` is also a failed assertion.
--   * base/kor-alloc/src/slab_heap.rs, the kernel heap: Heap/Slab. The free lists run through a memory
--     of pointers; growth and large extents call the model of the frame allocator. Each critical
--     section of `alloc` is a step, and what other CPUs do in between is a parameter.
--   * kor/src/block.rs, the interface of block devices: Kor/Block, a record and the laws of a device.
--   * filesystems/kor-fs/src/block_cache.rs, the write-back cache: Fs/BlockCache, over that record.
--   * kor/src/vfs.rs: Kor/Vfs. filesystems/kor-fs/src/path.rs: Fs/Path. mount.rs: Fs/Mount. fd.rs: Fs/Fd.
--     registry.rs: Fs/Registry.
--   * filesystems/kor-ramfs/src/lib.rs, the file system in memory: Ram. A handle of a node is a number.
--   * base/kor-sched/src/lib.rs, the scheduler: Sched. A context switch is two steps, and the steps of
--     other CPUs may come in between.
--   * filesystems/kor-ext2/src, the ext2 file system: bitmap.rs in Ext2/Bitmap and Ext2/Alloc, super_block.rs
--     and block_group.rs in Ext2/SuperBlock, dir.rs in Ext2/Dir, and of lib.rs the blocks over the cache in
--     Ext2/Blocks, the backup groups in Ext2/Backup, sync, mount and unmount in Ext2/Mount.
--   * apps/korix/src/mm/mod.rs, the address spaces of processes: Korix/Mm, over a machine of frames, page
--     tables and memory that is a record of operations.
--   * apps/korix/src/syscall/mod.rs, of which the normal form of paths: Korix/Syscall.
--   * apps/korhv/src/arch/aarch64/console_mux.rs: Korhv/ConsoleMux.
-- Base holds the Boolean tests, lists, results, ordered maps, single bits, and words as bytes that these share.
--
-- How the parts interact: the heap takes frames from the frame allocator; the mount table leads to path
-- resolution, which reads inodes; the block cache reads and writes a block device. The allocators and the
-- mount calls of ext2 work on an interface of blocks, Ext2/Blocks, which its reads and writes through the
-- block cache implement.
--
-- Fuel: the search for a free run has one step more than there are offsets; doubling has 64 rounds, as a
-- word has 64 bits; a path has one component at most for each byte; links nest at most 40 deep; the loop
-- of the heap has one turn for each free frame and one more, since every turn but the last takes frames;
-- the loop over the sleepers has one step for each; the iterator of a directory moves by 8 bytes at least in each turn, so that its bytes
-- are fuel enough; a range of addresses has fewer pages than bytes. Where fuel can run out the result is
-- `none`, or false for a range, and it is stated below that it does not, but for the scans of
-- `add_dir_entry` and `remove_dir_entry`, which move like the iterator.
--
-- Not modelled: machine words wrap only where it is written out, since page numbers, sizes and offsets lie
-- far below 2^64; the locks themselves, since each critical section is one step; registers, page tables
-- and contexts of the architecture, which are parameters or left out; the inodes of ext2, the drivers, the
-- system calls of korix but for the paths they take, and the guests of korhv.
mod Base
pub mod Kor
pub mod Korhv
pub mod Korix
pub mod Ext2
pub mod Fs
pub mod Heap
pub mod Ram
pub mod Sched
