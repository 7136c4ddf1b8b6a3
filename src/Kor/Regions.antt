-- ===== src/Kor/Regions.antt =====
-- kor/src/regions.rs. The live prefix `regions[..num]` of the array is a list; `num` is its length.
-- A failed `assert!` is `none`. The two `debug_assert!`s on alignment are not part of a release build.
pub mod Cover
pub mod Order
mod Tests
use koros.Base.{
  ℕ, zero, suc, ◌-◌, ◌+◌, ◌==◌, Bool, ◌||◌, ltb, leb, if◌then◌else◌, List, [], ◌∷◌, ◌++◌, Option,
  none, some, length,
}

pub record Region : Type 0 where
  pub start : ℕ
  pub end : ℕ

abbrev pub max_regions : ℕ
max_regions = 32

-- Where the loop of `add` stops: at a region that it extends, or before an index.
pub data Place : Type 0 where
  grow stop : ℕ → Place

abbrev pub shift : Place → Place
shift (grow i) = grow (suc i)
shift (stop i) = stop (suc i)

-- The loop of `add`, from the region at the head.
pub scan : List Region → Region → Place
scan [] new = stop zero
scan (r ∷ rs) new =
    if ltb r.start new.start
    then (if leb new.start r.end then grow zero else shift (scan rs new))
    else stop zero

-- `regions[i].end`; out of range the source would panic, and no call is out of range.
pub end_at : List Region → ℕ → ℕ
end_at [] i = 0
end_at (r ∷ rs) zero = r.end
end_at (r ∷ rs) (suc i) = end_at rs i

pub set_end : List Region → ℕ → ℕ → List Region
set_end [] i e = []
set_end (r ∷ rs) zero e = record r { end = e } ∷ rs
set_end (r ∷ rs) (suc i) e = r ∷ set_end rs i e

-- `try_merge(i)`: one successor that the region at `i` reaches is folded into it.
pub try_merge : List Region → ℕ → List Region
try_merge [] i = []
try_merge (r ∷ []) zero = r ∷ []
try_merge (r ∷ s ∷ rs) zero =
    if leb s.start r.end
    then record r { end = if ltb r.end s.end then s.end else r.end } ∷ rs
    else r ∷ s ∷ rs
try_merge (r ∷ rs) (suc i) = r ∷ try_merge rs i

pub insert_at : List Region → ℕ → Region → List Region
insert_at rs zero new = new ∷ rs
insert_at [] (suc i) new = new ∷ []
insert_at (r ∷ rs) (suc i) new = r ∷ insert_at rs i new

pub insert : List Region → ℕ → Region → Option (List Region)
insert rs i new = if ltb (length rs) max_regions then some (insert_at rs i new) else none

-- What `add` does once the loop has stopped.
pub place : List Region → Region → Place → Option (List Region)
unfolding end_at set_end try_merge insert_at insert
place rs new (grow i) =
    some (if ltb (end_at rs i) new.end then try_merge (set_end rs i new.end) i else rs)
place rs new (stop zero) = insert rs zero new
place rs new (stop (suc i)) =
    if end_at rs i == new.start
    then some (try_merge (set_end rs i new.end) i)
    else insert rs (suc i) new

pub add : List Region → ℕ → ℕ → Option (List Region)
unfolding place scan
add rs start end =
    if leb end start
    then some rs
    else place rs (record { start = start; end = end })
        (scan rs (record { start = start; end = end }))

-- The boot code: `detect_memory_regions` hands each range of the firmware's memory map to `add`.
pub add_all : List Region → List Region → Option (List Region)
add_all rs [] = some rs
add_all rs (new ∷ ranges) = elim (add rs new.start new.end) [
  | none ↦ none
  | some rs' ↦ add_all rs' ranges
]

-- `clip_region`: the pieces for which `f` is invoked, in order.
pub clip_region : ℕ → ℕ → ℕ → ℕ → List Region
clip_region start end hole_start hole_end =
    if leb end start
    then []
    else if leb hole_end hole_start || leb end hole_start || leb hole_end start
    then record { start = start; end = end } ∷ []
    else (if ltb start hole_start then record { start = start; end = hole_start } ∷ [] else [])
      ++ (if ltb hole_end end then record { start = hole_end; end = end } ∷ [] else [])
