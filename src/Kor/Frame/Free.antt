-- ===== src/Kor/Frame/Free.antt =====
-- `free_frames`: what it releases.
use native.Mathlib.Nat.{sub-zero}
use koros.Base.{
  ℕ, suc, ◌+◌, ◌-◌, ◌*◌, ◌/◌, ◌%◌, ◌≤◌, ◌≡◌, refl, ap, subst, ◌==◌, min, Bool, true, false, not,
  ◌&&◌, ◌||◌, ltb, leb, if◌then◌else◌, List, [], ◌∷◌, some, arith, inl, inr, Bool-cases,
  Option-cases, get_elem?, absurd_none, some_eq,
}
use koros.Kor.Frame.{
  Region, FrameAllocator, bit_at, mark_run, next_power_of_two, locate, all_used, give_back,
  free_frames, page_size,
}
use koros.Kor.Frame.Bitmap.{bit_at-mark_from, all_used_lem}
use koros.Kor.Frame.Valid.{IsValid, IsRun, IsValid-mark}

locate_sound :
    (rs : List Region) (k ppn frames i offset : ℕ) (r : Region)
    → locate rs k ppn frames ≡ some (i, r, offset)
    → (k ≤ i)
      × (get_elem? rs (i - k) ≡ some r)
      × (r.start_ppn + offset ≡ ppn)
      × (offset + frames ≤ r.frames)
unfolding locate
locate_sound [] k ppn frames i offset r h = cc
locate_sound (x ∷ rs) k ppn frames i offset r h =
    elim (Bool-cases (leb x.start_ppn ppn && leb (ppn - x.start_ppn + frames) x.frames)) [
      | inl e ↦
          let same = some_eq (rw (e, locate) at h) in
          let at_k : i - k ≡ 0 = ground arith in
          (ground arith, rw at_k (ap some (ground arith)), ground arith, ground arith)
      | inr e ↦
          let rest = locate_sound rs (suc k) ppn frames i offset r (rw (e, locate) at h) in
          let later : i - k ≡ suc (i - suc k) = omega (arith, rest.0) in
          (omega (arith, rest.0), rw later rest.1, rest.2, rest.3)
    ]

-- What a successful `free_frames` promises: the run of frames at the address lay in one region and was
-- all used, and now it is free, with no other bit changed and the counter higher by its length.
pub record Released (a : FrameAllocator) (phys count : ℕ) (a' : FrameAllocator) : Type 0 where
  pub index : ℕ
  pub region : Region
  pub frames : ℕ
  pub offset : ℕ
  pub power : next_power_of_two count ≡ some frames
  pub run : IsRun a index region frames offset true
  pub address : (region.start_ppn + offset) * page_size ≡ phys
  pub bits :
      (j : ℕ)
      → bit_at a'.allocated j ≡ (
          if leb (region.bitmap_base + offset) j && ltb j (region.bitmap_base + offset + frames)
          then false
          else bit_at a.allocated j)
  pub counter : a'.free_frames ≡ a.free_frames + frames
  pub valid : IsValid a'

give_back_lem :
    (a : FrameAllocator) (phys count i offset frames : ℕ) (r : Region)
    → IsValid a
    → next_power_of_two count ≡ some frames
    → (r.start_ppn + offset) * page_size ≡ phys
    → IsRun a i r frames offset true
    → Released a phys count (give_back a i r offset frames)
unfolding give_back
give_back_lem a phys count i offset frames r v e h run = record {
  index = i;
  region = r;
  frames = frames;
  offset = offset;
  power = e;
  run = run;
  address = h;
  bits =
      λ j. unfold mark_run in bit_at-mark_from a.allocated (r.bitmap_base + offset) frames j false;
  counter = refl;
  valid =
      IsValid-mark a i r frames offset (min r.next_hint offset) (a.free_frames + frames) false v run
        (omega (arith, run.inside)) (omega arith);
}

page_address :
    (b : Bool) (phys : ℕ) (r : Region) (offset : ℕ)
    → (b || not (phys % page_size == 0)) ≡ false
    → r.start_ppn + offset ≡ phys / page_size
    → (r.start_ppn + offset) * page_size ≡ phys
page_address b phys r offset z h = ground arith

-- A successful `free_frames` of a valid allocator releases a run of frames: one region holds it, it
-- stands at the address, it was all used and is free now, no other bit has changed, the counter is
-- higher by its length, and the allocator is valid.
pub free_frames-releases :
    (a a' : FrameAllocator) (phys count : ℕ)
    → IsValid a
    → free_frames a phys count ≡ some a'
    → Released a phys count a'
unfolding free_frames
free_frames-releases a a' phys count v h =
    elim (Bool-cases (count == 0 || not (phys % page_size == 0))) [
      | inl z ↦ absurd (absurd_none (rw (z, free_frames) at h))
      | inr z ↦ elim (Option-cases (next_power_of_two count)) [
        | inl e ↦ absurd (absurd_none (rw (z, e, free_frames) at h))
        | inr (frames, e) ↦ elim (Option-cases (locate a.regions 0 (phys / page_size) frames)) [
          | inl g ↦ absurd (absurd_none (rw (z, e, g, free_frames) at h))
          | inr ((i, r, offset), g) ↦
              elim (Bool-cases (all_used a.allocated (r.bitmap_base + offset) frames)) [
                | inr b ↦ absurd (absurd_none (rw (z, e, g, b, free_frames) at h))
                | inl b ↦
                    let same : give_back a i r offset frames ≡ a' =
                      some_eq (rw (z, e, g, b, free_frames) at h) in
                    let found = locate_sound a.regions 0 (phys / page_size) frames i offset r g in
                    subst (Released a phys count) same (
                      give_back_lem a phys count i offset frames r v e
                        (page_address (count == 0) phys r offset z found.2)
                        (record {
                          known = subst (λ n. get_elem? a.regions n ≡ some r) (sub-zero i) found.1;
                          inside = found.3;
                          bits = λ j c d.
                              all_used_lem a.allocated (r.bitmap_base + offset) frames j b c d;
                        }))
              ]
        ]
      ]
    ]
