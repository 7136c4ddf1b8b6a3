-- ===== src/Kor/Frame/RoundTrip.antt =====
-- `free_frames` takes back what `alloc_frames` handed out.
use koros.Base.{
  ℕ, zero, suc, ◌+◌, ◌-◌, ◌*◌, ◌/◌, ◌%◌, ◌≤◌, ◌<◌, ◌≡◌, ◌⊎◌, refl, ◌∙◌, sym, ap, subst, ◌==◌, true,
  false, ◌&&◌, ltb, leb, if◌then◌else◌, List, [], ◌∷◌, some, arith, get_elem?,
  get_elem?-set_present,
}
use koros.Kor.Frame.{
  Region, FrameAllocator, bit_at, take_run, alloc_frames, locate, all_used, give_back, mark_run,
  free_frames, no_overlap, page_size,
}
use koros.Kor.Frame.Bitmap.{bit_at-mark_from}
use koros.Kor.Frame.Search.{IsFreeRun}
use koros.Kor.Frame.Valid.{AreApart, IsValid}
use koros.Kor.Frame.Alloc.{
  Allocated, alloc_frames_run, IsValid-alloc_frames, bits-take_run, counter_lem,
}

no_overlap_at :
    (rs : List Region) (i start frames : ℕ) (r : Region)
    → no_overlap rs start frames ≡ true
    → get_elem? rs i ≡ some r
    → (start + frames ≤ r.start_ppn) ⊎ (r.start_ppn + r.frames ≤ start)
unfolding no_overlap
no_overlap_at [] i start frames r h g = cc
no_overlap_at (x ∷ rs) zero start frames r h g = ground arith
no_overlap_at (x ∷ rs) (suc i) start frames r h g =
    ground (arith, no_overlap_at rs i start frames r)

locate_complete :
    (rs : List Region) (k ppn frames i offset : ℕ) (r : Region)
    → AreApart rs
    → get_elem? rs i ≡ some r
    → 0 < frames
    → r.start_ppn + offset ≡ ppn
    → offset + frames ≤ r.frames
    → locate rs k ppn frames ≡ some (k + i, r, offset)
unfolding locate
locate_complete [] k ppn frames i offset r a g p h l = cc
locate_complete (x ∷ rs) k ppn frames zero offset r a g p h l = ground arith
locate_complete (x ∷ rs) k ppn frames (suc i) offset r a g p h l = ground (
  arith,
  no_overlap_at rs i x.start_ppn x.frames r a.0 g,
  locate_complete rs (suc k) ppn frames i offset r a.1 g p h l,
)

all_used_complete :
    (words : ℕ → ℕ) (index count : ℕ)
    → ((j : ℕ) → index ≤ j → j < index + count → bit_at words j ≡ true)
    → all_used words index count ≡ true
unfolding all_used
all_used_complete words index zero h = refl
all_used_complete words index (suc count) h = ground (
  arith,
  h index (omega arith) (omega arith),
  all_used_complete words (suc index) count (λ j a b. h j (omega arith) (omega arith)),
)

get_elem?-take_run :
    (a : FrameAllocator) (i offset frames : ℕ) (r : Region)
    → get_elem? a.regions i ≡ some r
    → get_elem? (take_run a i r offset frames).0.regions i
      ≡ some (record r { next_hint = offset + frames })
unfolding take_run
get_elem?-take_run a i offset frames r h =
    get_elem?-set_present a.regions i (record r { next_hint = offset + frames }) r h

-- A run that has been marked and is then cleared is as it was before, if it was free.
bits_back :
    (a a' : FrameAllocator) (r : Region) (frames offset j : ℕ)
    → IsFreeRun a.allocated r frames offset
    → bit_at a'.allocated j ≡ (
        if leb (r.bitmap_base + offset) j && ltb j (r.bitmap_base + offset + frames)
        then false
        else (if leb (r.bitmap_base + offset) j && ltb j (r.bitmap_base + offset + frames)
            then true
            else bit_at a.allocated j))
    → bit_at a'.allocated j ≡ bit_at a.allocated j
bits_back a a' r frames offset j run h =
    let back : r.bitmap_base ≤ j → r.bitmap_base + (j - r.bitmap_base) ≡ j = λ k. omega arith in
    ground (arith, run.clear (j - r.bitmap_base), back)

pages : (n : ℕ) → ((n * page_size % page_size == 0) ≡ true) × (n * page_size / page_size ≡ n)
pages n = (ground arith, omega arith)

-- The call of `free_frames` on the run that has been taken.
free_frames_taken :
    (a a' : FrameAllocator) (count phys : ℕ) (t : Allocated a count a' phys)
    → IsValid a'
    → free_frames a' phys count
      ≡ some (
          give_back a' t.index
            (record t.region { next_hint = t.offset + t.frames })
            t.offset
            t.frames)
unfolding free_frames
free_frames_taken a a' count phys t v = rw (t.asked, aligned, t.power, located, used, free_frames)
  where
    r' : Region
    r' = record t.region { next_hint = t.offset + t.frames }

    aligned : (phys % page_size == 0) ≡ true
    aligned = rw t.address ((pages (t.region.start_ppn + t.offset)).0)

    from_zero : 0 + t.index ≡ t.index
    from_zero = omega arith

    located : locate a'.regions 0 (phys / page_size) t.frames ≡ some (t.index, r', t.offset)
    located =
        subst (λ n. locate a'.regions 0 (phys / page_size) t.frames ≡ some (n, r', t.offset))
          from_zero
          (locate_complete a'.regions 0 (phys / page_size) t.frames t.index t.offset r' v.apart
            (rw t.becomes (get_elem?-take_run a t.index t.offset t.frames t.region t.known))
            t.some_frames (rw t.address (sym (pages (t.region.start_ppn + t.offset)).1)) t.inside)

    used : all_used a'.allocated (t.region.bitmap_base + t.offset) t.frames ≡ true
    used =
        all_used_complete a'.allocated (t.region.bitmap_base + t.offset) t.frames
          λ j b c. ground (arith, t.becomes, bits-take_run a t.index t.offset t.frames j t.region)

bits_given_back :
    (a a' : FrameAllocator) (count phys : ℕ) (t : Allocated a count a' phys) (j : ℕ)
    → bit_at
        (give_back a' t.index
          (record t.region { next_hint = t.offset + t.frames })
          t.offset
          t.frames).allocated
        j
      ≡ (if leb (t.region.bitmap_base + t.offset) j
            && ltb j (t.region.bitmap_base + t.offset + t.frames)
          then false
          else (if leb (t.region.bitmap_base + t.offset) j
                && ltb j (t.region.bitmap_base + t.offset + t.frames)
              then true
              else bit_at a.allocated j))
unfolding give_back mark_run
bits_given_back a a' count phys t j =
    bit_at-mark_from a'.allocated (t.region.bitmap_base + t.offset) t.frames j false
    ∙ ap
        (λ b.
          if leb (t.region.bitmap_base + t.offset) j
            && ltb j (t.region.bitmap_base + t.offset + t.frames)
          then false
          else b)
        (rw t.becomes (bits-take_run a t.index t.offset t.frames j t.region))

-- The frames that a successful `alloc_frames` handed out can be freed by the same count, and then
-- every bit and the counter are what they were before.
pub free_frames-alloc_frames :
    (a a' : FrameAllocator) (count phys : ℕ)
    → IsValid a
    → alloc_frames a count ≡ some (a', phys)
    → (a'' : FrameAllocator) × (free_frames a' phys count ≡ some a'')
      × ((j : ℕ) → bit_at a''.allocated j ≡ bit_at a.allocated j)
      × (a''.free_frames ≡ a.free_frames)
unfolding give_back
free_frames-alloc_frames a a' count phys v h =
    let t = alloc_frames_run a a' count phys v h in
    let r' = record t.region { next_hint = t.offset + t.frames } in
    let kept = IsValid-alloc_frames a a' count phys v h in
    (
      give_back a' t.index r' t.offset t.frames,
      free_frames_taken a a' count phys t kept,
      (λ j.
          bits_back a (give_back a' t.index r' t.offset t.frames) t.region t.frames t.offset j t.run
            (bits_given_back a a' count phys t j)),
      counter_lem a a' count phys t v,
    )
