-- ===== src/Heap/Slab/Tests.antt =====
-- A slab of four blocks of 64 bytes at address 4096, and a heap without memory to grow.
use koros.Base.{
  ◌==◌, if◌then◌else◌, Bool-cases, inl, inr, ℕ, [], ◌∷◌, none, some, some_eq, absurd_none, ◌≡◌, ◌≢◌,
  refl, sym, ap, true, ◌≤◌, ◌<◌, ◌⊎◌, ◌*◌, ◌/◌, arith, max,
}
use koros.Kor.Frame.{FrameAllocator, page_size, new, add_region, add_pages, no_overlap}
use koros.Heap.Slab.{
  Layout, bytes64, bytes128, bytes256, bytes512, bytes1024, bytes2048, bytes4096, large, class_for,
  Memory, Slab, slab_grow, slab_allocate, slab_deallocate, SlabHeap, slab_at, Globals, alloc,
  large_extent_frames, heap_allocate, heap_grow, grow_pages,
}
use koros.Heap.Slab.Class.{class_for_smallest, block_size_of, large_extent_frames_fits}
use koros.Heap.Slab.Chain.{Chain, blocks, rev_onto, slab_allocate-slab_deallocate, slab_grow-blocks}
use koros.Heap.Slab.Grow.{HasSizes, heap_allocate_grown}
use koros.Heap.Slab.Alloc.{Takes, alloc_ends}
use koros.Kor.Frame.Valid.{IsValid}
use koros.Kor.Frame.Grow.{IsValid-new, IsValid-add_region}

abbrev zeros : Memory
zeros = λ i. 0

abbrev layout : Layout
layout = record { size = 100; align = 8 }

class_for_smallest_run :
    ((class_for layout ≡ large) × (page_size < max 100 8))
    ⊎ ((max 100 8 ≤ block_size_of (class_for layout))
        × ((class_for layout ≡ bytes64) ⊎ (block_size_of (class_for layout) < 2 * max 100 8)))
class_for_smallest_run = class_for_smallest layout

abbrev big : Layout
big = record { size = 5000; align = 8 }

big_frames : large_extent_frames big ≡ some 2
unfolding large_extent_frames
big_frames = refl

large_extent_frames_fits_example : (5000 ≤ 2 * page_size) × (0 < 2)
large_extent_frames_fits_example = large_extent_frames_fits big 2 big_frames

abbrev empty_slab : Slab
empty_slab = record { block_size = 64; head = 0 }

slab_allocate-slab_deallocate_run :
    Chain
      (slab_deallocate zeros empty_slab 4096).0
      (slab_deallocate zeros empty_slab 4096).1.head
      (4096 ∷ [])
    × (slab_allocate
          (slab_deallocate zeros empty_slab 4096).0
          (slab_deallocate zeros empty_slab 4096).1
        ≡ some (empty_slab, 4096))
slab_allocate-slab_deallocate_run =
    slab_allocate-slab_deallocate zeros empty_slab 4096 [] refl (λ e. omega arith) tt

abbrev one_block : Slab
one_block = record { block_size = 64; head = 64 }

-- Two blocks at 4096 come to a list of the one block at 64.
slab_grow-blocks_run :
    Chain
      (slab_grow zeros one_block 4096 128).0
      (slab_grow zeros one_block 4096 128).1.head
      (rev_onto (blocks 4096 64 (128 / 64) []) (64 ∷ []))
slab_grow-blocks_run =
    slab_grow-blocks zeros one_block 4096 128 (64 ∷ []) (omega arith) (omega arith)
      (λ i h. ((λ e. omega arith), tt)) (refl, (λ e. omega arith), refl)

grown : rev_onto (blocks 4096 64 (128 / 64) []) (64 ∷ []) ≡ 4160 ∷ 4096 ∷ 64 ∷ []
grown = refl

abbrev slab_of : ℕ → Slab
slab_of size = record { block_size = size; head = 0 }

abbrev heap : SlabHeap
heap = record {
  slab_64 = slab_of 64;
  slab_128 = slab_of 128;
  slab_256 = slab_of 256;
  slab_512 = slab_of 512;
  slab_1024 = slab_of 1024;
  slab_2048 = slab_of 2048;
  slab_4096 = slab_of 4096;
}

heap_sizes : HasSizes heap
unfolding HasSizes slab_at
heap_sizes bytes64 s e = ap (λ x. x.block_size) (sym (some_eq e))
heap_sizes bytes128 s e = ap (λ x. x.block_size) (sym (some_eq e))
heap_sizes bytes256 s e = ap (λ x. x.block_size) (sym (some_eq e))
heap_sizes bytes512 s e = ap (λ x. x.block_size) (sym (some_eq e))
heap_sizes bytes1024 s e = ap (λ x. x.block_size) (sym (some_eq e))
heap_sizes bytes2048 s e = ap (λ x. x.block_size) (sym (some_eq e))
heap_sizes bytes4096 s e = ap (λ x. x.block_size) (sym (some_eq e))
heap_sizes large s e = absurd (absurd_none e)

heap_allocate_grown_run :
    heap_allocate
      (heap_grow zeros heap bytes64 4096 (grow_pages * page_size)).0
      (heap_grow zeros heap bytes64 4096 (grow_pages * page_size)).1
      bytes64
    ≢ none
heap_allocate_grown_run =
    heap_allocate_grown zeros heap bytes64 4096 heap_sizes (λ e. cc) (omega arith)

-- 32 frames from address 0x10000, enough to grow twice.
abbrev frames32 : FrameAllocator
frames32 = record {
  regions = record { start_ppn = 16; frames = 32; bitmap_base = 0; next_hint = 0 } ∷ [];
  tracked_frames = 32;
  free_frames = 32;
  allocated = λ i. 0;
}

added : add_region new 65536 196608 ≡ some frames32
unfolding add_region add_pages no_overlap new
added = refl

abbrev globals : Globals
globals = record { heap = some heap; mem = zeros; growth = true; frames = frames32 }

-- Another CPU takes every block of the heap before the second turn, which has to grow it again.
abbrev drain : ℕ → Globals → Globals
drain moment g = if moment == 2 then record g { heap = some heap } else g

drain-Takes : Takes drain
drain-Takes = record { keeps = keeps; lower = lower }
  where
    keeps : (moment : ℕ) (g : Globals) → IsValid g.frames → IsValid (drain moment g).frames
    keeps moment g v = elim (Bool-cases (moment == 2)) [ inl e ↦ rw e v | inr e ↦ rw e v ]

    lower :
        (moment : ℕ) (g : Globals)
        → IsValid g.frames
        → (drain moment g).frames.free_frames ≤ g.frames.free_frames
    lower moment g v = elim (Bool-cases (moment == 2)) [
      | inl e ↦ rw e (omega arith)
      | inr e ↦ rw e (omega arith)
    ]

alloc_ends_example : alloc (λ p. p) (λ a. a) drain globals layout ≢ none
alloc_ends_example =
    alloc_ends (λ p. p) (λ a. a) drain drain-Takes globals layout
      (IsValid-add_region new frames32 65536 196608 IsValid-new added)
