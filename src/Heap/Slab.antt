-- ===== src/Heap/Slab.antt =====
-- base/kor-alloc/src/slab_heap.rs. The free lists run through the free blocks: `Memory` gives the pointer
-- `next` that stands at an address, and 0 is the null pointer. The translation between physical and
-- kernel addresses belongs to the architecture provider and is a parameter; frames come from the model
-- of kor/src/frame.rs. The locks make each call one step.
pub mod Class
pub mod Chain
pub mod Alloc
pub mod Grow
mod Tests
use koros.Base.{
  ℕ, zero, suc, ◌+◌, ◌-◌, ◌*◌, ◌/◌, ◌%◌, ◌^◌, ◌==◌, max, Bool, true, false, not, ◌&&◌, ◌||◌, ltb,
  leb, if◌then◌else◌, List, [], ◌∷◌, Option, none, some,
}
use koros.Kor.Frame.{FrameAllocator, page_size, alloc_frames, free_frames}

abbrev pub num_slabs : ℕ
num_slabs = 7

abbrev pub min_slab_bytes : ℕ
min_slab_bytes = page_size

abbrev pub min_heap_bytes : ℕ
min_heap_bytes = num_slabs * min_slab_bytes

abbrev pub grow_pages : ℕ
grow_pages = 8

pub record Layout : Type 0 where
  pub size : ℕ
  pub align : ℕ

pub data SlabClass : Type 0 where
  bytes64 bytes128 bytes256 bytes512 bytes1024 bytes2048 bytes4096 large : SlabClass

abbrev pub Memory : Type 0
Memory = ℕ → ℕ

-- `push` writes the pointer at `addr`.
pub push : Memory → ℕ → ℕ → Memory × ℕ
push mem head addr = ((λ i. if i == addr then head else mem i), addr)

-- `pop`: the head of the list and the block taken.
pub pop : Memory → ℕ → Option (ℕ × ℕ)
pop mem head = if head == 0 then none else some (mem head, head)

-- The loop of `FreeList::new`: `count` blocks are pushed, from the last to the first.
pub push_blocks : Memory → ℕ → ℕ → ℕ → ℕ → Memory × ℕ
push_blocks mem head start block_size zero = (mem, head)
push_blocks mem head start block_size (suc i) =
    let (pushed, first) = push mem head (start + i * block_size) in
    push_blocks pushed first start block_size i

pub free_list_new : Memory → ℕ → ℕ → ℕ → Memory × ℕ
free_list_new mem start block_size count = push_blocks mem 0 start block_size count

pub record Slab : Type 0 where
  pub block_size : ℕ
  pub head : ℕ

pub slab_new : Memory → ℕ → ℕ → ℕ → Memory × Slab
slab_new mem start bytes block_size =
    let (filled, first) = free_list_new mem start block_size (bytes / block_size) in
    (filled, record { block_size = block_size; head = first })

-- The loop of `grow`, on fuel: blocks move from the list `incoming` to the list `head`.
pub move_blocks : ℕ → Memory → ℕ → ℕ → Memory × ℕ
move_blocks zero mem incoming head = (mem, head)
move_blocks (suc fuel) mem incoming head = elim (pop mem incoming) [
  | none ↦ (mem, head)
  | some (rest, addr) ↦
      let (pushed, first) = push mem head addr in move_blocks fuel pushed rest first
]

pub slab_grow : Memory → Slab → ℕ → ℕ → Memory × Slab
slab_grow mem slab start bytes =
    let (filled, incoming) = free_list_new mem start slab.block_size (bytes / slab.block_size) in
    let (moved, first) = move_blocks (bytes / slab.block_size) filled incoming slab.head in
    (moved, record slab { head = first })

pub slab_allocate : Memory → Slab → Option (Slab × ℕ)
slab_allocate mem slab = elim (pop mem slab.head) [
  | none ↦ none
  | some (rest, addr) ↦ some (record slab { head = rest }, addr)
]

pub slab_deallocate : Memory → Slab → ℕ → Memory × Slab
slab_deallocate mem slab addr =
    let (pushed, first) = push mem slab.head addr in (pushed, record slab { head = first })

pub record SlabHeap : Type 0 where
  pub slab_64 : Slab
  pub slab_128 : Slab
  pub slab_256 : Slab
  pub slab_512 : Slab
  pub slab_1024 : Slab
  pub slab_2048 : Slab
  pub slab_4096 : Slab

-- The seven slabs, each on `slot` bytes.
pub split_evenly : Memory → ℕ → ℕ → Memory × SlabHeap
split_evenly mem start slot =
    let (mem, slab_64) = slab_new mem start slot 64 in
    let (mem, slab_128) = slab_new mem (start + slot) slot 128 in
    let (mem, slab_256) = slab_new mem (start + 2 * slot) slot 256 in
    let (mem, slab_512) = slab_new mem (start + 3 * slot) slot 512 in
    let (mem, slab_1024) = slab_new mem (start + 4 * slot) slot 1024 in
    let (mem, slab_2048) = slab_new mem (start + 5 * slot) slot 2048 in
    let (mem, slab_4096) = slab_new mem (start + 6 * slot) slot 4096 in
    (
      mem,
      record {
        slab_64 = slab_64;
        slab_128 = slab_128;
        slab_256 = slab_256;
        slab_512 = slab_512;
        slab_1024 = slab_1024;
        slab_2048 = slab_2048;
        slab_4096 = slab_4096;
      },
    )

-- A failed `assert!` is `none`.
pub heap_new : Memory → ℕ → ℕ → Option (Memory × SlabHeap)
heap_new mem start size =
    if start % min_slab_bytes == 0 && leb min_heap_bytes size && size % min_heap_bytes == 0
    then some (split_evenly mem start (size / num_slabs))
    else none

pub class_for : Layout → SlabClass
class_for l =
    if ltb page_size l.size || ltb page_size l.align
    then large
    else if leb l.size 64 && leb l.align 64
    then bytes64
    else if leb l.size 128 && leb l.align 128
    then bytes128
    else if leb l.size 256 && leb l.align 256
    then bytes256
    else if leb l.size 512 && leb l.align 512
    then bytes512
    else if leb l.size 1024 && leb l.align 1024
    then bytes1024
    else if leb l.size 2048 && leb l.align 2048
    then bytes2048
    else bytes4096

-- `slab_mut`, to read and to write.
pub slab_at : SlabHeap → SlabClass → Option Slab
slab_at h bytes64 = some h.slab_64
slab_at h bytes128 = some h.slab_128
slab_at h bytes256 = some h.slab_256
slab_at h bytes512 = some h.slab_512
slab_at h bytes1024 = some h.slab_1024
slab_at h bytes2048 = some h.slab_2048
slab_at h bytes4096 = some h.slab_4096
slab_at h large = none

pub set_slab : SlabHeap → SlabClass → Slab → SlabHeap
set_slab h bytes64 s = record h { slab_64 = s }
set_slab h bytes128 s = record h { slab_128 = s }
set_slab h bytes256 s = record h { slab_256 = s }
set_slab h bytes512 s = record h { slab_512 = s }
set_slab h bytes1024 s = record h { slab_1024 = s }
set_slab h bytes2048 s = record h { slab_2048 = s }
set_slab h bytes4096 s = record h { slab_4096 = s }
set_slab h large s = h

pub heap_grow : Memory → SlabHeap → SlabClass → ℕ → ℕ → Memory × SlabHeap
heap_grow mem h class start bytes = elim (slab_at h class) [
  | none ↦ (mem, h)
  | some slab ↦ let (grown, s) = slab_grow mem slab start bytes in (grown, set_slab h class s)
]

-- `checked_next_multiple_of` fails when the multiple is not a `usize`.
pub large_extent_frames : Layout → Option ℕ
large_extent_frames l =
    let rounded = (max l.size 1 + page_size - 1) / page_size * page_size in
    if ltb rounded (2 ^ 64)
    then some (max (rounded / page_size) (max l.align page_size / page_size))
    else none

-- The statics: the heap behind its lock, the memory, the flag of growth, the frame allocator.
pub record Globals : Type 0 where
  pub heap : Option SlabHeap
  pub mem : Memory
  pub growth : Bool
  pub frames : FrameAllocator

-- The arms of `allocate` for the small classes.
pub heap_allocate : Memory → SlabHeap → SlabClass → Option (SlabHeap × ℕ)
heap_allocate mem h class = elim (slab_at h class) [
  | none ↦ none
  | some slab ↦ elim (slab_allocate mem slab) [
    | none ↦ none
    | some (s, addr) ↦ some (set_slab h class s, addr)
  ]
]

module _ (to_ka from_ka : ℕ → ℕ) where
  pub alloc_large : Globals → Layout → Option (Globals × ℕ)
  alloc_large g l =
      if g.growth
      then (elim (large_extent_frames l) [
        | none ↦ none
        | some count ↦ elim (alloc_frames g.frames count) [
          | none ↦ none
          | some (rest, phys) ↦ some (record g { frames = rest }, to_ka phys)
        ]
      ])
      else none

  -- Each critical section, under the lock of the frame allocator or of the heap, is one step. What the
  -- other CPUs do between two sections is `others`, at the moments of one call of `alloc` in order.
  -- The rest of `grow_from_frames` for a small class. The frames are gone also when there is no heap.
  pub grow_small : (ℕ → Globals → Globals) → ℕ → Globals → SlabClass → Globals × Bool
  grow_small others moment g class = elim (alloc_frames g.frames grow_pages) [
    | none ↦ (g, false)
    | some (rest, phys) ↦
        let locked = others moment (record g { frames = rest }) in
        elim locked.heap [
          | none ↦ (locked, false)
          | some h ↦
              let (grown, bigger) =
                heap_grow locked.mem h class (to_ka phys) (grow_pages * page_size) in
              (record locked { mem = grown; heap = some bigger }, true)
        ]
  ]

  pub grow_from_frames : (ℕ → Globals → Globals) → ℕ → Globals → SlabClass → Globals × Bool
  grow_from_frames others moment g class =
      if not g.growth
      then (g, false)
      else (elim class [ large ↦ (g, false) | small ↦ grow_small others moment g small ])

  -- The loop of `alloc`, on fuel: `none` when it runs out, else the state and the pointer. A turn has
  -- three moments: before the frames are taken, before they go to the heap, and before the next turn.
  pub alloc_loop : (ℕ → Globals → Globals) → ℕ → ℕ → Globals → SlabClass → Option (Globals × ℕ)
  alloc_loop others zero moment g class = none
  alloc_loop others (suc fuel) moment g class = elim g.heap [
    | none ↦ some (g, 0)
    | some h ↦ elim (heap_allocate g.mem h class) [
      | some (less, addr) ↦ some (record g { heap = some less }, addr)
      | none ↦
          let (grown, done) = grow_from_frames others (moment + 1) (others moment g) class in
          let again = alloc_loop others fuel (moment + 3) (others (moment + 2) grown) class in
          if done then again else some (grown, 0)
    ]
  ]

  -- A turn that is not the last takes frames, so that there is at most one turn for each free frame.
  pub alloc : (ℕ → Globals → Globals) → Globals → Layout → Option (Globals × ℕ)
  alloc others g l = elim (class_for l) [
    | large ↦ elim (alloc_large g l) [ none ↦ some (g, 0) | some found ↦ some found ]
    | small ↦ alloc_loop others (suc g.frames.free_frames) 0 g small
  ]

  -- `none` when an `expect` or an `assert!` fails.
  pub dealloc : Globals → ℕ → Layout → Option Globals
  dealloc g ptr l = if ptr == 0 then some g else (elim (class_for l) [
    | large ↦ elim (large_extent_frames l) [
      | none ↦ none
      | some count ↦ elim (free_frames g.frames (from_ka ptr) count) [
        | none ↦ none
        | some rest ↦ some (record g { frames = rest })
      ]
    ]
    | small ↦ elim g.heap [
      | none ↦ some g
      | some h ↦ elim (slab_at h small) [
        | none ↦ some g
        | some slab ↦
            let (pushed, s) = slab_deallocate g.mem slab ptr in
            some (record g { mem = pushed; heap = some (set_slab h small s) })
      ]
    ]
  ])

-- A failed `assert!` is `none`.
pub init : Globals → ℕ → ℕ → Option Globals
init g start size = elim (heap_new g.mem start size) [
  | none ↦ none
  | some (filled, h) ↦ some (record g { mem = filled; heap = some h })
]

pub enable_frame_growth : Globals → Globals
enable_frame_growth g = record g { growth = true }
