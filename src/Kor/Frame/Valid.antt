-- ===== src/Kor/Frame/Valid.antt =====
-- The invariant of the frame allocator, and what a change of one run does to it.
use koros.Base.{
  ℕ, zero, suc, ◌+◌, ◌≤◌, ◌<◌, ◌≡◌, ◌∙◌, Bool, true, false, not, if◌then◌else◌, List, [], ◌∷◌, some,
  arith, get_elem?, set,
}
use koros.Kor.Frame.{Region, FrameAllocator, bit_at, mark_run, no_overlap}
use koros.Kor.Frame.Bitmap.{bit_at-mark_from, used_below, used_below-mark_from}

-- The bitmap ranges of the regions follow one another from `base` up to `end`, and no hint lies
-- behind its region.
abbrev pub AreLaid : ℕ → ℕ → List Region → Type 0
AreLaid base end [] = base ≡ end
AreLaid base end (r ∷ rs) =
    (r.bitmap_base ≡ base) × (r.next_hint ≤ r.frames) × AreLaid (base + r.frames) end rs

-- No two regions share a page.
abbrev pub AreApart : List Region → Type 0
AreApart [] = Unit {0}
AreApart (r ∷ rs) = (no_overlap rs r.start_ppn r.frames ≡ true) × AreApart rs

pub record IsValid (a : FrameAllocator) : Type 0 where
  pub laid : AreLaid 0 a.tracked_frames a.regions
  pub apart : AreApart a.regions
  pub counted : a.free_frames + used_below a.allocated a.tracked_frames ≡ a.tracked_frames
  pub above : (j : ℕ) → a.tracked_frames ≤ j → bit_at a.allocated j ≡ false

pub AreLaid-end : (base end : ℕ) (rs : List Region) → AreLaid base end rs → base ≤ end
AreLaid-end base end [] l = omega arith
AreLaid-end base end (r ∷ rs) l = omega (arith, AreLaid-end (base + r.frames) end rs l.2)

-- A region of the list lies inside the bitmap.
pub laid_at :
    (base end : ℕ) (rs : List Region) (i : ℕ) (r : Region)
    → AreLaid base end rs
    → get_elem? rs i ≡ some r
    → (base ≤ r.bitmap_base) × (r.bitmap_base + r.frames ≤ end) × (r.next_hint ≤ r.frames)
laid_at base end [] i r l h = cc
laid_at base end (x ∷ rs) zero r l h = ground (arith, AreLaid-end (base + x.frames) end rs l.2)
laid_at base end (x ∷ rs) (suc i) r l h = ground (arith, laid_at (base + x.frames) end rs i r l.2)

AreLaid-set :
    (base end : ℕ) (rs : List Region) (i : ℕ) (r : Region) (hint : ℕ)
    → AreLaid base end rs
    → get_elem? rs i ≡ some r
    → hint ≤ r.frames
    → AreLaid base end (set rs i (record r { next_hint = hint }))
AreLaid-set base end [] i r hint l h k = cc
AreLaid-set base end (x ∷ rs) zero r hint l h k = ground arith
AreLaid-set base end (x ∷ rs) (suc i) r hint l h k =
    ground (arith, AreLaid-set (base + x.frames) end rs i r hint l.2 h k)

no_overlap-set :
    (rs : List Region) (i start frames : ℕ) (r : Region) (hint : ℕ)
    → get_elem? rs i ≡ some r
    → no_overlap (set rs i (record r { next_hint = hint })) start frames
      ≡ no_overlap rs start frames
unfolding no_overlap
no_overlap-set [] i start frames r hint h = cc
no_overlap-set (x ∷ rs) zero start frames r hint h = ground arith
no_overlap-set (x ∷ rs) (suc i) start frames r hint h =
    ground (arith, no_overlap-set rs i start frames r hint h)

AreApart-set :
    (rs : List Region) (i : ℕ) (r : Region) (hint : ℕ)
    → AreApart rs
    → get_elem? rs i ≡ some r
    → AreApart (set rs i (record r { next_hint = hint }))
unfolding no_overlap
AreApart-set [] i r hint a h = cc
AreApart-set (x ∷ rs) zero r hint a h = ground arith
AreApart-set (x ∷ rs) (suc i) r hint a h =
    (no_overlap-set rs i x.start_ppn x.frames r hint h ∙ a.0, AreApart-set rs i r hint a.1 h)

-- A run of a valid allocator that is free, or all used, and lies inside its region.
pub record IsRun (a : FrameAllocator) (i : ℕ) (r : Region) (frames offset : ℕ) (value : Bool)
    : Type 0 where
  pub known : get_elem? a.regions i ≡ some r
  pub inside : offset + frames ≤ r.frames
  pub bits :
      (j : ℕ)
      → r.bitmap_base + offset ≤ j
      → j < r.bitmap_base + offset + frames
      → bit_at a.allocated j ≡ value

-- A change of the whole run, of the hint and of the count keeps the invariant.
pub IsValid-mark :
    (a : FrameAllocator) (i : ℕ) (r : Region) (frames offset hint free : ℕ) (value : Bool)
    → IsValid a
    → IsRun a i r frames offset (not value)
    → hint ≤ r.frames
    → free + (if value then frames else 0) ≡ a.free_frames + (if value then 0 else frames)
    → IsValid (record (mark_run a r offset frames value) {
      regions = set a.regions i (record r { next_hint = hint });
      free_frames = free;
    })
unfolding mark_run
IsValid-mark a i r frames offset hint free value v run h f =
    let place = laid_at 0 a.tracked_frames a.regions i r v.laid run.known in
    let fits : r.bitmap_base + offset + frames ≤ a.tracked_frames =
      omega (arith, place, run.inside) in
    record {
      laid = AreLaid-set 0 a.tracked_frames a.regions i r hint v.laid run.known h;
      apart = AreApart-set a.regions i r hint v.apart run.known;
      counted = ground (
        arith,
        used_below-mark_from a.allocated (r.bitmap_base + offset) frames a.tracked_frames value fits
            run.bits,
      );
      above = λ j k. ground (
        arith,
        bit_at-mark_from a.allocated (r.bitmap_base + offset) frames j value,
        v.above j k,
      );
    }
