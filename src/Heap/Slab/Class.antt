-- ===== src/Heap/Slab/Class.antt =====
-- The size classes of the heap.
use koros.Base.{ℕ, ◌≤◌, ◌<◌, ◌*◌, ◌≡◌, arith, ◌⊎◌, max, some}
use koros.Kor.Frame.{page_size}
use koros.Heap.Slab.{
  Layout, SlabClass, bytes64, bytes128, bytes256, bytes512, bytes1024, bytes2048, bytes4096, large,
  class_for, large_extent_frames,
}

-- The size of the blocks of a class; `large` has none.
abbrev pub block_size_of : SlabClass → ℕ
block_size_of bytes64 = 64
block_size_of bytes128 = 128
block_size_of bytes256 = 256
block_size_of bytes512 = 512
block_size_of bytes1024 = 1024
block_size_of bytes2048 = 2048
block_size_of bytes4096 = 4096
block_size_of large = 0

-- The class of a layout is `large` if its size or its alignment is over a page; else the block of the
-- class is as large as both, and it is the smallest block, or half of it is smaller than one of them.
pub class_for_smallest :
    (l : Layout)
    → ((class_for l ≡ large) × (page_size < max l.size l.align))
      ⊎ ((max l.size l.align ≤ block_size_of (class_for l))
          × ((class_for l ≡ bytes64) ⊎ (block_size_of (class_for l) < 2 * max l.size l.align)))
unfolding class_for
class_for_smallest l = ground arith

-- The extent of a large layout, when it can be computed, has room for its size and at least
-- one frame.
pub large_extent_frames_fits :
    (l : Layout) (count : ℕ)
    → large_extent_frames l ≡ some count
    → (l.size ≤ count * page_size) × (0 < count)
unfolding large_extent_frames
large_extent_frames_fits l count h = ground arith
