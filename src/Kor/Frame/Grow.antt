-- ===== src/Kor/Frame/Grow.antt =====
-- `new` and `add_region` keep the invariant of the frame allocator.
use koros.Base.{
  ℕ, zero, suc, ◌+◌, ◌-◌, ◌/◌, ◌≤◌, ◌≡◌, refl, subst, ◌%◌, min, true, false, ◌&&◌, ◌||◌, ltb, leb,
  List, [], ◌∷◌, ◌++◌, some, arith, inl, inr, Bool-cases, length, ◌^◌, absurd_none, some_eq,
}
use koros.Kor.Frame.{
  Region, FrameAllocator, bit_at, new, no_overlap, add_pages, add_region, page_size, max_regions,
  max_tracked_frames,
}
use koros.Kor.Frame.Bitmap.{used_below, test_bit-zero}
use koros.Kor.Frame.Valid.{AreLaid, AreApart, IsValid}

-- A new allocator is valid.
pub IsValid-new : IsValid new
unfolding new used_below
IsValid-new = record {
  laid = refl;
  apart = tt;
  counted = omega arith;
  above = λ j k. unfold bit_at in test_bit-zero (j % 64);
}

used_below-grow :
    (words : ℕ → ℕ) (m n : ℕ)
    → ((j : ℕ) → m ≤ j → bit_at words j ≡ false)
    → used_below words (m + n) ≡ used_below words m
unfolding used_below
used_below-grow words m zero h = ground arith
used_below-grow words m (suc n) h =
    let next : m + suc n ≡ suc (m + n) = omega arith in
    rw (next, h (m + n) (omega arith), used_below) (omega (arith, used_below-grow words m n h))

AreLaid-append :
    (base end : ℕ) (rs : List Region) (r : Region)
    → AreLaid base end rs
    → r.bitmap_base ≡ end
    → r.next_hint ≡ 0
    → AreLaid base (end + r.frames) (rs ++ r ∷ [])
AreLaid-append base end [] r l b k = ground arith
AreLaid-append base end (x ∷ rs) r l b k =
    (l.0, l.1, AreLaid-append (base + x.frames) end rs r l.2 b k)

no_overlap-append :
    (rs : List Region) (r : Region) (start frames : ℕ)
    → no_overlap rs start frames ≡ true
    → (leb (start + frames) r.start_ppn || leb (r.start_ppn + r.frames) start) ≡ true
    → no_overlap (rs ++ r ∷ []) start frames ≡ true
unfolding no_overlap
no_overlap-append [] r start frames h k = ground arith
no_overlap-append (x ∷ rs) r start frames h k = ground (arith, no_overlap-append rs r start frames)

AreApart-append :
    (rs : List Region) (r : Region)
    → AreApart rs
    → no_overlap rs r.start_ppn r.frames ≡ true
    → AreApart (rs ++ r ∷ [])
unfolding no_overlap
AreApart-append [] r a h = (refl, tt)
AreApart-append (x ∷ rs) r a h = (
  no_overlap-append rs r x.start_ppn x.frames a.0 (ground arith),
  AreApart-append rs r a.1 (ground arith),
)

IsValid-add_pages :
    (a a' : FrameAllocator) (first last : ℕ)
    → IsValid a
    → add_pages a first last ≡ some a'
    → IsValid a'
unfolding add_pages
IsValid-add_pages a a' first last v h =
    elim (Bool-cases (
      ltb (length a.regions) max_regions
      && leb (a.tracked_frames + (last - first)) max_tracked_frames
      && no_overlap a.regions first (last - first))) [
        | inr e ↦ absurd (absurd_none (rw (e, add_pages) at h))
        | inl e ↦ subst IsValid (some_eq (rw (e, add_pages) at h)) (record {
          laid = AreLaid-append 0 a.tracked_frames a.regions _ v.laid refl refl;
          apart = AreApart-append a.regions _ v.apart (ground arith);
          counted = omega (
            arith,
            used_below-grow a.allocated a.tracked_frames (last - first) v.above,
            v.counted,
          );
          above = λ j k. v.above j (omega arith);
        })
      ]

-- A successful `add_region` keeps the invariant.
pub IsValid-add_region :
    (a a' : FrameAllocator) (start end : ℕ)
    → IsValid a
    → add_region a start end ≡ some a'
    → IsValid a'
unfolding add_region
IsValid-add_region a a' start end v h =
    elim (Bool-cases
      (leb (end / page_size) (min (start + page_size - 1) (2 ^ 64 - 1) / page_size))) [
        | inl e ↦ subst IsValid (some_eq (rw (e, add_region) at h)) v
        | inr e ↦
            IsValid-add_pages a a' (min (start + page_size - 1) (2 ^ 64 - 1) / page_size)
              (end / page_size) v (rw (e, add_region) at h)
      ]
