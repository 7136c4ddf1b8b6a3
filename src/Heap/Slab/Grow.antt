-- ===== src/Heap/Slab/Grow.antt =====
-- A slab that has grown has a free block.
use koros.Base.{
  ℕ, zero, suc, ◌+◌, ◌*◌, ◌/◌, ◌<◌, ◌≡◌, ◌≢◌, ◌⊎◌, inl, inr, refl, sym, subst, ◌==◌, arith, none,
  some, Bool-cases, absurd_none,
}
use koros.Kor.Frame.{page_size}
use koros.Heap.Slab.{
  SlabClass, bytes64, bytes128, bytes256, bytes512, bytes1024, bytes2048, bytes4096, large,
  SlabHeap, Slab, slab_at, heap_allocate, heap_grow, slab_grow, slab_allocate, set_slab, grow_pages,
  Memory, free_list_new, move_blocks, push_blocks, push, pop,
}
use koros.Heap.Slab.Class.{block_size_of}

-- Each slab of a heap has the block size of its class.
unfoldable pub HasSizes : SlabHeap → Type 0
HasSizes h =
    (class : SlabClass) (s : Slab) → slab_at h class ≡ some s → s.block_size ≡ block_size_of class

-- A list that has got a block is not empty.
move_blocks_head :
    (fuel : ℕ) (mem : Memory) (incoming head : ℕ)
    → 0 < head ⊎ ((0 < incoming) × (0 < fuel))
    → 0 < (move_blocks fuel mem incoming head).1
unfolding move_blocks push pop
move_blocks_head zero mem incoming head (inl h) = h
move_blocks_head zero mem incoming head (inr h) = absurd (omega arith)
move_blocks_head (suc fuel) mem incoming head h = elim (Bool-cases (incoming == 0)) [
  | inl z ↦ rw (z, move_blocks) (ground arith)
  | inr z ↦
      rw (z, move_blocks)
        (move_blocks_head fuel (push mem head incoming).0 (mem incoming) incoming
          (inl (ground arith)))
]

push_blocks_head :
    (mem : Memory) (head start block_size count : ℕ)
    → 0 < start
    → 0 < head ⊎ (0 < count)
    → 0 < (push_blocks mem head start block_size count).1
unfolding push_blocks push
push_blocks_head mem head start block_size zero p (inl h) = h
push_blocks_head mem head start block_size zero p (inr h) = absurd (omega arith)
push_blocks_head mem head start block_size (suc i) p h =
    push_blocks_head (push mem head (start + i * block_size)).0 (start + i * block_size) start
      block_size i p (inl (omega arith))

slab_at-set_slab :
    (h : SlabHeap) (class : SlabClass) (s : Slab)
    → class ≢ large
    → slab_at (set_slab h class s) class ≡ some s
unfolding slab_at set_slab
slab_at-set_slab h large s n = absurd (n refl)
slab_at-set_slab h bytes64 s n = refl
slab_at-set_slab h bytes128 s n = refl
slab_at-set_slab h bytes256 s n = refl
slab_at-set_slab h bytes512 s n = refl
slab_at-set_slab h bytes1024 s n = refl
slab_at-set_slab h bytes2048 s n = refl
slab_at-set_slab h bytes4096 s n = refl

slab_at_small :
    (h : SlabHeap) (class : SlabClass) → class ≢ large → (s : Slab) × (slab_at h class ≡ some s)
unfolding slab_at
slab_at_small h large n = absurd (n refl)
slab_at_small h bytes64 n = (h.slab_64, refl)
slab_at_small h bytes128 n = (h.slab_128, refl)
slab_at_small h bytes256 n = (h.slab_256, refl)
slab_at_small h bytes512 n = (h.slab_512, refl)
slab_at_small h bytes1024 n = (h.slab_1024, refl)
slab_at_small h bytes2048 n = (h.slab_2048, refl)
slab_at_small h bytes4096 n = (h.slab_4096, refl)

block_count : (class : SlabClass) → class ≢ large → 0 < grow_pages * page_size / block_size_of class
block_count large n = absurd (n refl)
block_count bytes64 n = omega arith
block_count bytes128 n = omega arith
block_count bytes256 n = omega arith
block_count bytes512 n = omega arith
block_count bytes1024 n = omega arith
block_count bytes2048 n = omega arith
block_count bytes4096 n = omega arith

slab_grow_head :
    (mem : Memory) (s : Slab) (start bytes : ℕ)
    → 0 < start
    → 0 < bytes / s.block_size
    → 0 < (slab_grow mem s start bytes).1.head
unfolding slab_grow free_list_new
slab_grow_head mem s start bytes p q =
    move_blocks_head (bytes / s.block_size)
      (push_blocks mem 0 start s.block_size (bytes / s.block_size)).0
      (push_blocks mem 0 start s.block_size (bytes / s.block_size)).1 s.head
      (inr (push_blocks_head mem 0 start s.block_size (bytes / s.block_size) p (inr q), q))

slab_allocate-some :
    (mem : Memory) (s : Slab)
    → 0 < s.head
    → slab_allocate mem s ≡ some (record s { head = mem s.head }, s.head)
unfolding slab_allocate pop
slab_allocate-some mem s h = ground arith

heap_allocate-some :
    (mem : Memory) (h : SlabHeap) (class : SlabClass) (s : Slab)
    → slab_at h class ≡ some s
    → 0 < s.head
    → heap_allocate mem h class ≢ none
unfolding heap_allocate
heap_allocate-some mem h class s a p e =
    absurd (absurd_none (sym (rw (a, slab_allocate-some mem s p, heap_allocate) at e)))

heap_grow_small :
    (mem : Memory) (h : SlabHeap) (class : SlabClass) (s : Slab) (start bytes : ℕ)
    → slab_at h class ≡ some s
    → heap_grow mem h class start bytes
      ≡ ((slab_grow mem s start bytes).0, set_slab h class (slab_grow mem s start bytes).1)
unfolding heap_grow
heap_grow_small mem h class s start bytes a = rw (a, heap_grow) refl

-- A small class whose slab has grown at an address that is not null can be allocated from.
pub heap_allocate_grown :
    (mem : Memory) (h : SlabHeap) (class : SlabClass) (start : ℕ)
    → HasSizes h
    → class ≢ large
    → 0 < start
    → heap_allocate
        (heap_grow mem h class start (grow_pages * page_size)).0
        (heap_grow mem h class start (grow_pages * page_size)).1
        class
      ≢ none
unfolding HasSizes
heap_allocate_grown mem h class start sizes n p =
    let (s, at_class) = slab_at_small h class n in
    let size = sizes class s at_class in
    let bytes = grow_pages * page_size in
    let grown = slab_grow mem s start bytes in
    let filled : 0 < grown.1.head =
      slab_grow_head mem s start bytes p
        (subst (λ b. 0 < bytes / b) (sym size) (block_count class n)) in
    rw (heap_grow_small mem h class s start bytes at_class) (
      heap_allocate-some grown.0 (set_slab h class grown.1) class grown.1
        (slab_at-set_slab h class grown.1 n) filled)
