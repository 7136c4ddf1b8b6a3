-- ===== src/Kor/Frame/Alloc.antt =====
-- `alloc_frames`: what it reserves, and when it finds nothing.
use native.Mathlib.Nat.{sub-zero}
use koros.Base.{
  ℕ, zero, suc, ◌+◌, ◌-◌, ◌*◌, ◌≤◌, ◌<◌, ◌≡◌, ◌∙◌, sym, ap, subst, ◌==◌, true, false, ◌&&◌, ltb,
  leb, if◌then◌else◌, List, [], ◌∷◌, none, some, arith, ◌⊎◌, inl, inr, dec_le, Bool-cases,
  Option-cases, get_elem?, absurd_none, some_eq,
}
use koros.Kor.Frame.{
  Region, FrameAllocator, bit_at, mark_from, mark_run, power_from, next_power_of_two, find_free_run,
  search_region, search_regions, take_run, alloc_frames, page_size,
}
use koros.Kor.Frame.Bitmap.{bit_at-mark_from, used_below-mark_from, used_below-le}
use koros.Kor.Frame.Valid.{IsValid, laid_at, IsRun, IsValid-mark}
use koros.Kor.Frame.Search.{IsFreeRun, find_free_run_sound, find_free_run_complete}

power_from_lem :
    (fuel power count frames : ℕ)
    → 0 < power
    → power_from fuel power count ≡ some frames
    → (count ≤ frames) × (0 < frames)
unfolding power_from
power_from_lem zero power count frames p h = cc
power_from_lem (suc fuel) power count frames p h =
    ground (arith, power_from_lem fuel (power * 2) count frames)

pub next_power_of_two_lem :
    (count frames : ℕ) → next_power_of_two count ≡ some frames → (count ≤ frames) × (0 < frames)
unfolding next_power_of_two
next_power_of_two_lem count frames = power_from_lem 64 1 count frames (omega arith)

search_region_sound :
    (a : FrameAllocator) (r : Region) (frames offset : ℕ)
    → 0 < frames
    → r.next_hint ≤ r.frames
    → search_region a r frames ≡ some offset
    → IsFreeRun a.allocated r frames offset × (offset + frames ≤ r.frames)
unfolding search_region
search_region_sound a r frames offset p k h = elim (Bool-cases (ltb r.frames frames)) [
  | inl e ↦ absurd (absurd_none (rw (e, search_region) at h))
  | inr e ↦ elim (Option-cases (find_free_run a r r.next_hint r.frames frames)) [
    | inr (x, g) ↦
        let same : x ≡ offset = some_eq (rw (e, g, search_region) at h) in
        let run = find_free_run_sound a r r.next_hint r.frames frames offset p (g ∙ ap some same) in
        (run.0, run.2)
    | inl g ↦
        let run =
          find_free_run_sound a r 0 r.next_hint frames offset p (rw (e, g, search_region) at h) in
        (run.0, omega (arith, run.2))
  ]
]

search_regions_sound :
    (a : FrameAllocator) (rs : List Region) (k frames i offset : ℕ) (r : Region)
    → search_regions a rs k frames ≡ some (i, r, offset)
    → (k ≤ i) × (get_elem? rs (i - k) ≡ some r) × (search_region a r frames ≡ some offset)
unfolding search_regions
search_regions_sound a [] k frames i offset r h = cc
search_regions_sound a (x ∷ rs) k frames i offset r h =
    elim (Option-cases (search_region a x frames)) [
      | inr (o, e) ↦
          let same = some_eq (rw (e, search_regions) at h) in
          let at_k : i - k ≡ 0 = ground arith in
          (ground arith, rw at_k (ap some (ground arith)), ground arith)
      | inl e ↦
          let rest =
            search_regions_sound a rs (suc k) frames i offset r (rw (e, search_regions) at h) in
          let later : i - k ≡ suc (i - suc k) = omega (arith, rest.0) in
          (omega (arith, rest.0), rw later rest.1, rest.2)
    ]

-- What a successful `alloc_frames` promises: a run of frames in one region of the allocator, with the address of its first frame, at least as long as was
-- asked for, aligned to its length, free before and used now, with no other bit changed and the
-- counter lower by its length.
pub record Reserved (a : FrameAllocator) (count : ℕ) (a' : FrameAllocator) (phys : ℕ) : Type 0 where
  pub index : ℕ
  pub region : Region
  pub frames : ℕ
  pub offset : ℕ
  pub known : get_elem? a.regions index ≡ some region
  pub enough : count ≤ frames
  pub inside : offset + frames ≤ region.frames
  pub address : phys ≡ (region.start_ppn + offset) * page_size
  pub run : IsFreeRun a.allocated region frames offset
  pub bits :
      (j : ℕ)
      → bit_at a'.allocated j ≡ (
          if leb (region.bitmap_base + offset) j && ltb j (region.bitmap_base + offset + frames)
          then true
          else bit_at a.allocated j)
  pub counter : a'.free_frames + frames ≡ a.free_frames

-- The way that a successful `alloc_frames` took.
pub record Allocated (a : FrameAllocator) (count : ℕ) (a' : FrameAllocator) (phys : ℕ)
    : Type 0 where
  pub index : ℕ
  pub region : Region
  pub frames : ℕ
  pub offset : ℕ
  pub asked : (count == 0) ≡ false
  pub enough : count ≤ frames
  pub some_frames : 0 < frames
  pub power : next_power_of_two count ≡ some frames
  pub known : get_elem? a.regions index ≡ some region
  pub inside : offset + frames ≤ region.frames
  pub address : phys ≡ (region.start_ppn + offset) * page_size
  pub run : IsFreeRun a.allocated region frames offset
  pub becomes : a' ≡ (take_run a index region offset frames).0

pub alloc_frames_run :
    (a a' : FrameAllocator) (count phys : ℕ)
    → IsValid a
    → alloc_frames a count ≡ some (a', phys)
    → Allocated a count a' phys
unfolding alloc_frames
alloc_frames_run a a' count phys v h = elim (Bool-cases (count == 0)) [
  | inl z ↦ absurd (absurd_none (rw (z, alloc_frames) at h))
  | inr z ↦ elim (Option-cases (next_power_of_two count)) [
    | inl e ↦ absurd (absurd_none (rw (z, e, alloc_frames) at h))
    | inr (frames, e) ↦ elim (Option-cases (search_regions a a.regions 0 frames)) [
      | inl g ↦ absurd (absurd_none (rw (z, e, g, alloc_frames) at h))
      | inr ((i, r, offset), g) ↦
          let same = some_eq (rw (z, e, g, alloc_frames) at h) in
          let power = next_power_of_two_lem count frames e in
          let found = search_regions_sound a a.regions 0 frames i offset r g in
          let known = subst (λ n. get_elem? a.regions n ≡ some r) (sub-zero i) found.1 in
          let place = laid_at 0 a.tracked_frames a.regions i r v.laid known in
          let run = search_region_sound a r frames offset power.1 place.2 found.2 in
          record {
            index = i;
            region = r;
            frames = frames;
            offset = offset;
            asked = z;
            enough = power.0;
            some_frames = power.1;
            power = e;
            known = known;
            inside = run.1;
            address = unfold take_run in ap (λ p. p.1) (sym same);
            run = run.0;
            becomes = ap (λ p. p.0) (sym same);
          }
    ]
  ]
]

run_of :
    {a a' : FrameAllocator} {count phys : ℕ} (t : Allocated a count a' phys)
    → IsRun a t.index t.region t.frames t.offset false
run_of {a} t = record {
  known = t.known;
  inside = t.inside;
  bits = λ j b c.
      let back : t.region.bitmap_base + (j - t.region.bitmap_base) ≡ j = omega arith in
      subst (λ n. bit_at a.allocated n ≡ false) back
        (t.run.clear (j - t.region.bitmap_base) (omega arith) (omega arith));
}

-- The counter covers every free run.
frames-le-free :
    (a : FrameAllocator) (i : ℕ) (r : Region) (frames offset : ℕ)
    → IsValid a
    → IsRun a i r frames offset false
    → frames ≤ a.free_frames
frames-le-free a i r frames offset v run =
    let place = laid_at 0 a.tracked_frames a.regions i r v.laid run.known in
    omega (
      arith,
      v.counted,
      used_below-mark_from a.allocated (r.bitmap_base + offset) frames a.tracked_frames true
          (omega (arith, place, run.inside)) run.bits,
      used_below-le (mark_from a.allocated (r.bitmap_base + offset) frames true) a.tracked_frames,
    )

-- The counter is lower by the length of the run.
pub counter_lem :
    (a a' : FrameAllocator) (count phys : ℕ) (t : Allocated a count a' phys)
    → IsValid a
    → a'.free_frames + t.frames ≡ a.free_frames
counter_lem a a' count phys t v = rw t.becomes (
    unfold take_run in
    omega (arith, frames-le-free a t.index t.region t.frames t.offset v (run_of t)))

-- `alloc_frames` keeps the invariant: the bitmap ranges of the regions follow one another, no two
-- regions share a page, and the counter is the number of clear bits.
pub IsValid-alloc_frames :
    (a a' : FrameAllocator) (count phys : ℕ)
    → IsValid a
    → alloc_frames a count ≡ some (a', phys)
    → IsValid a'
unfolding take_run
IsValid-alloc_frames a a' count phys v h =
    let t = alloc_frames_run a a' count phys v h in
    rw t.becomes (
      IsValid-mark a t.index t.region t.frames t.offset (t.offset + t.frames)
        (a.free_frames - t.frames) true v (run_of t) t.inside
        (omega (arith, frames-le-free a t.index t.region t.frames t.offset v (run_of t))))

pub bits-take_run :
    (a : FrameAllocator) (i offset frames j : ℕ) (r : Region)
    → bit_at (take_run a i r offset frames).0.allocated j ≡ (
        if leb (r.bitmap_base + offset) j && ltb j (r.bitmap_base + offset + frames)
        then true
        else bit_at a.allocated j)
unfolding take_run mark_run
bits-take_run a i offset frames j r =
    bit_at-mark_from a.allocated (r.bitmap_base + offset) frames j true

-- A successful `alloc_frames` of a valid allocator reserves a run of frames: one of the regions of the
-- allocator holds it, the result is the address of its first frame, it is at least as long as was asked for and aligned to its length, it was free and is used now, no
-- other bit has changed, and the counter is lower by its length.
pub alloc_frames-reserves :
    (a a' : FrameAllocator) (count phys : ℕ)
    → IsValid a
    → alloc_frames a count ≡ some (a', phys)
    → Reserved a count a' phys
alloc_frames-reserves a a' count phys v h =
    let t = alloc_frames_run a a' count phys v h in
    record {
      index = t.index;
      region = t.region;
      frames = t.frames;
      offset = t.offset;
      known = t.known;
      enough = t.enough;
      inside = t.inside;
      address = t.address;
      run = t.run;
      bits = λ j. rw t.becomes (bits-take_run a t.index t.offset t.frames j t.region);
      counter = counter_lem a a' count phys t v;
    }

search_regions-none :
    (a : FrameAllocator) (rs : List Region) (k frames i : ℕ) (r : Region)
    → search_regions a rs k frames ≡ none
    → get_elem? rs i ≡ some r
    → search_region a r frames ≡ none
unfolding search_regions
search_regions-none a [] k frames i r h g = cc
search_regions-none a (x ∷ rs) k frames zero r h g =
    elim (Option-cases (search_region a x frames)) [
      | inl e ↦ ap (λ y. search_region a y frames) (sym (some_eq g)) ∙ e
      | inr (o, e) ↦ absurd (absurd_none (sym (rw (e, search_regions) at h)))
    ]
search_regions-none a (x ∷ rs) k frames (suc i) r h g =
    elim (Option-cases (search_region a x frames)) [
      | inl e ↦ search_regions-none a rs (suc k) frames i r (rw (e, search_regions) at h) g
      | inr (o, e) ↦ absurd (absurd_none (sym (rw (e, search_regions) at h)))
    ]

search_region-none :
    (a : FrameAllocator) (r : Region) (frames : ℕ)
    → frames ≤ r.frames
    → search_region a r frames ≡ none
    → (find_free_run a r r.next_hint r.frames frames ≡ none)
      × (find_free_run a r 0 r.next_hint frames ≡ none)
unfolding search_region
search_region-none a r frames l h = ground arith

alloc_frames_searched :
    (a : FrameAllocator) (count frames : ℕ)
    → 0 < count
    → next_power_of_two count ≡ some frames
    → alloc_frames a count ≡ none
    → search_regions a a.regions 0 frames ≡ none
unfolding alloc_frames
alloc_frames_searched a count frames p e h =
    elim (Option-cases (search_regions a a.regions 0 frames)) [
      | inl z ↦ z
      | inr ((j, x, o), z) ↦ absurd (absurd_none (sym (rw (test, e, z, alloc_frames) at h)))
    ]
  where
    test : (count == 0) ≡ false
    test = ground arith

-- If `alloc_frames` finds nothing for a request that rounds up to `frames`, then every aligned free
-- run of that length crosses its region's hint or its region's end.
pub alloc_frames-none :
    (a : FrameAllocator) (count frames i offset : ℕ) (r : Region)
    → 0 < count
    → next_power_of_two count ≡ some frames
    → alloc_frames a count ≡ none
    → get_elem? a.regions i ≡ some r
    → IsFreeRun a.allocated r frames offset
    → (r.frames < offset + frames) ⊎ ((offset < r.next_hint) × (r.next_hint < offset + frames))
alloc_frames-none a count frames i offset r p e h g run = elim (dec_le (offset + frames) r.frames) [
  | no q ↦ inl (omega arith)
  | yes q ↦
      let length = (next_power_of_two_lem count frames e).1 in
      let searched =
        search_regions-none a a.regions 0 frames i r (alloc_frames_searched a count frames p e h)
          g in
      let both = search_region-none a r frames (omega arith) searched in
      elim (dec_le r.next_hint offset) [
        | yes k ↦
            absurd
              (find_free_run_complete a r r.next_hint r.frames frames offset length both.0 k q run)
        | no k ↦ elim (dec_le (offset + frames) r.next_hint) [
          | yes l ↦ absurd (
              find_free_run_complete a r 0 r.next_hint frames offset length both.1 (omega arith) l
                run)
          | no l ↦ inr (omega arith)
        ]
      ]
]
