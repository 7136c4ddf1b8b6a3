-- ===== src/Kor/Frame.antt =====
-- kor/src/frame.rs, `FrameAllocator`. The live prefix of `regions` is a list, the bitmap a function from
-- the index of a word to the word, and a failed `assert!` is `none`. The sums on page numbers stay
-- below 2^64, since a page number lies below 2^52 and a region has at most 2^20 frames. The lock of
-- the global instance makes each call one step.
pub mod Bitmap
pub mod Search
pub mod Valid
pub mod Alloc
pub mod Free
pub mod RoundTrip
pub mod Grow
mod Tests
use koros.Base.{
  ℕ, zero, suc, ◌+◌, ◌-◌, ◌*◌, ◌/◌, ◌%◌, ◌^◌, ◌==◌, min, Bool, true, false, not, ◌&&◌, ◌||◌, ltb,
  leb, if◌then◌else◌, List, [], ◌∷◌, ◌++◌, Option, none, some, length, get_elem?, set,
}
use koros.Base.Bits.{test_bit, put_bit}

abbrev pub page_size : ℕ
page_size = 4096

abbrev pub max_regions : ℕ
max_regions = 64

abbrev pub max_tracked_frames : ℕ
max_tracked_frames = 2 ^ 20

pub record Region : Type 0 where
  pub start_ppn : ℕ
  pub frames : ℕ
  pub bitmap_base : ℕ
  pub next_hint : ℕ

pub record FrameAllocator : Type 0 where
  pub regions : List Region
  pub tracked_frames : ℕ
  pub free_frames : ℕ
  pub allocated : ℕ → ℕ

unfoldable pub new : FrameAllocator
new = record { regions = []; tracked_frames = 0; free_frames = 0; allocated = λ i. 0 }

-- Bit `index` of the bitmap, and the write of one bit: `word |= mask`, `word &= !mask`.
pub bit_at : (ℕ → ℕ) → ℕ → Bool
bit_at words index = test_bit (words (index / 64)) (index % 64)

pub put_at : (ℕ → ℕ) → ℕ → Bool → ℕ → ℕ
put_at words index value i =
    if i == index / 64 then put_bit (words i) (index % 64) value else words i

pub bit : FrameAllocator → Region → ℕ → Bool
bit a r offset = bit_at a.allocated (r.bitmap_base + offset)

-- The loop of `mark_run`, over `count` bits from `index`.
pub mark_from : (ℕ → ℕ) → ℕ → ℕ → Bool → ℕ → ℕ
mark_from words index zero value = words
mark_from words index (suc count) value =
    mark_from (put_at words index value) (suc index) count value

pub mark_run : FrameAllocator → Region → ℕ → ℕ → Bool → FrameAllocator
mark_run a r offset frames value = record a {
  allocated = mark_from a.allocated (r.bitmap_base + offset) frames value;
}

-- `x & !(frames - 1)` for a power of two is `x` less its remainder.
pub align_ppn : ℕ → ℕ → ℕ
align_ppn ppn frames = ppn + frames - 1 - (ppn + frames - 1) % frames

-- `count.checked_next_power_of_two()`: doubling from 1, which overflows after 64 rounds.
pub power_from : ℕ → ℕ → ℕ → Option ℕ
power_from zero power count = none
power_from (suc fuel) power count =
    let rest = power_from fuel (power * 2) count in if leb count power then some power else rest

pub next_power_of_two : ℕ → Option ℕ
unfolding power_from
next_power_of_two count = power_from 64 1 count

-- The inner loop of `find_free_run`: the first set bit among `count` bits from `index`.
pub first_used : (ℕ → ℕ) → ℕ → ℕ → Option ℕ
first_used words index zero = none
first_used words index (suc count) =
    let rest = first_used words (suc index) count in if bit_at words index then some index else rest

-- The outer loop. `none` also when the fuel runs out; see `Search`.
pub find_from : ℕ → (ℕ → ℕ) → Region → ℕ → ℕ → ℕ → Option ℕ
find_from zero words r offset end frames = none
find_from (suc fuel) words r offset end frames =
    let next : Option ℕ = elim (first_used words (r.bitmap_base + offset) frames) [
      | none ↦ some offset
      | some used ↦
          find_from fuel words r
            (align_ppn (r.start_ppn + (used - r.bitmap_base) + 1) frames - r.start_ppn) end frames
    ] in
    if leb (offset + frames) end then next else none

-- The fuel is more than the offsets below `end`.
pub find_free_run : FrameAllocator → Region → ℕ → ℕ → ℕ → Option ℕ
find_free_run a r start end frames =
    find_from (suc end) a.allocated r (align_ppn (r.start_ppn + start) frames - r.start_ppn) end
      frames

pub or_else : Option ℕ → Option ℕ → Option ℕ
or_else (some x) other = some x
or_else none other = other

-- The body of the loop of `alloc_frames` for one region.
pub search_region : FrameAllocator → Region → ℕ → Option ℕ
unfolding or_else
search_region a r frames =
    if ltb r.frames frames
    then none
    else or_else (find_free_run a r r.next_hint r.frames frames)
        (find_free_run a r 0 r.next_hint frames)

-- The first region, from index `i` on, with a free run.
pub search_regions : FrameAllocator → List Region → ℕ → ℕ → Option (ℕ × Region × ℕ)
search_regions a [] i frames = none
search_regions a (r ∷ rs) i frames =
    let rest = search_regions a rs (suc i) frames in
    elim (search_region a r frames) [ some offset ↦ some (i, r, offset) | none ↦ rest ]

-- `mark_run`, the hint, the count and the physical address.
pub take_run : FrameAllocator → ℕ → Region → ℕ → ℕ → FrameAllocator × ℕ
unfolding mark_run
take_run a i r offset frames = (
  record (mark_run a r offset frames true) {
    regions = set a.regions i (record r { next_hint = offset + frames });
    free_frames = a.free_frames - frames;
  },
  (r.start_ppn + offset) * page_size,
)

pub alloc_frames : FrameAllocator → ℕ → Option (FrameAllocator × ℕ)
alloc_frames a count = if count == 0 then none else (elim (next_power_of_two count) [
  | none ↦ none
  | some frames ↦ elim (search_regions a a.regions 0 frames) [
    | none ↦ none
    | some (i, r, offset) ↦ some (take_run a i r offset frames)
  ]
])

-- `locate`: the first region, from index `i` on, that holds the extent.
pub locate : List Region → ℕ → ℕ → ℕ → Option (ℕ × Region × ℕ)
locate [] i ppn frames = none
locate (r ∷ rs) i ppn frames =
    if leb r.start_ppn ppn && leb (ppn - r.start_ppn + frames) r.frames
    then some (i, r, ppn - r.start_ppn)
    else locate rs (suc i) ppn frames

-- Are `count` bits from `index` all set?
pub all_used : (ℕ → ℕ) → ℕ → ℕ → Bool
all_used words index zero = true
all_used words index (suc count) = bit_at words index && all_used words (suc index) count

pub give_back : FrameAllocator → ℕ → Region → ℕ → ℕ → FrameAllocator
unfolding mark_run
give_back a i r offset frames = record (mark_run a r offset frames false) {
  regions = set a.regions i (record r { next_hint = min r.next_hint offset });
  free_frames = a.free_frames + frames;
}

pub free_frames : FrameAllocator → ℕ → ℕ → Option FrameAllocator
free_frames a phys count =
    if count == 0 || not (phys % page_size == 0) then none else (elim (next_power_of_two count) [
      | none ↦ none
      | some frames ↦ elim (locate a.regions 0 (phys / page_size) frames) [
        | none ↦ none
        | some (i, r, offset) ↦
            if all_used a.allocated (r.bitmap_base + offset) frames
            then some (give_back a i r offset frames)
            else none
      ]
    ])

-- No region overlaps `frames` frames from `start_ppn`.
unfoldable pub no_overlap : List Region → ℕ → ℕ → Bool
no_overlap [] start_ppn frames = true
no_overlap (r ∷ rs) start_ppn frames =
    (leb (start_ppn + frames) r.start_ppn || leb (r.start_ppn + r.frames) start_ppn)
    && no_overlap rs start_ppn frames

-- `add_region` of the range from page `first` up to page `last`, once it is rounded.
unfoldable pub add_pages : FrameAllocator → ℕ → ℕ → Option FrameAllocator
add_pages a first last =
    if ltb (length a.regions) max_regions
      && leb (a.tracked_frames + (last - first)) max_tracked_frames
      && no_overlap a.regions first (last - first)
    then some (record a {
      regions =
          a.regions
          ++ record {
            start_ppn = first;
            frames = last - first;
            bitmap_base = a.tracked_frames;
            next_hint = 0;
          }
            ∷ [];
      tracked_frames = a.tracked_frames + (last - first);
      free_frames = a.free_frames + (last - first);
    })
    else none

-- The bounds are rounded inward; `saturating_add` stops at 2^64 - 1.
unfoldable pub add_region : FrameAllocator → ℕ → ℕ → Option FrameAllocator
add_region a start end =
    let first = min (start + page_size - 1) (2 ^ 64 - 1) / page_size in
    let last = end / page_size in if leb last first then some a else add_pages a first last
