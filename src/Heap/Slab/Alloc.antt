-- ===== src/Heap/Slab/Alloc.antt =====
-- The loop of `alloc`, with other CPUs between its critical sections.
use koros.Base.{
  ℕ, zero, suc, ◌+◌, ◌≤◌, ◌<◌, ◌≡◌, ◌≢◌, ◌⊎◌, inl, inr, refl, sym, ◌∙◌, Bool, true, false, not,
  arith, if◌then◌else◌, none, some, Option-cases, Bool-cases, absurd_none,
}
use koros.Kor.Frame.{FrameAllocator, alloc_frames}
use koros.Kor.Frame.Valid.{IsValid}
use koros.Kor.Frame.Alloc.{alloc_frames_run, counter_lem, IsValid-alloc_frames}
use koros.Heap.Slab.{
  Layout, SlabClass, bytes64, bytes128, bytes256, bytes512, bytes1024, bytes2048, bytes4096, large,
  class_for, Globals, heap_allocate, grow_from_frames, alloc_loop, alloc, grow_small, alloc_large,
  grow_pages,
}

-- What the other CPUs may do at any moment: anything that keeps the frame allocator valid and gives
-- back no frames.
pub record Takes (others : ℕ → Globals → Globals) : Type 0 where
  pub keeps : (moment : ℕ) (g : Globals) → IsValid g.frames → IsValid (others moment g).frames
  pub lower :
      (moment : ℕ) (g : Globals)
      → IsValid g.frames
      → (others moment g).frames.free_frames ≤ g.frames.free_frames

-- An allocation of frames lowers the counter.
alloc_frames_lower :
    (a rest : FrameAllocator) (count phys : ℕ)
    → IsValid a
    → alloc_frames a count ≡ some (rest, phys)
    → rest.free_frames < a.free_frames
alloc_frames_lower a rest count phys v h =
    let t = alloc_frames_run a rest count phys v h in
    omega (arith, counter_lem a rest count phys t v, t.some_frames)

module _ (to_ka from_ka : ℕ → ℕ) (others : ℕ → Globals → Globals) (takes : Takes others) where
  -- The heap has not grown, or the allocator is still valid and has fewer free frames.
  abbrev Fewer : Globals → Globals × Bool → Type 0
  Fewer g out =
      (out.1 ≡ false) ⊎ (IsValid out.0.frames × (out.0.frames.free_frames < g.frames.free_frames))

  grow_small_lem :
      (moment : ℕ) (g : Globals) (class : SlabClass)
      → IsValid g.frames
      → Fewer g (grow_small to_ka from_ka others moment g class)
  unfolding grow_small
  grow_small_lem moment g class v = elim (Option-cases (alloc_frames g.frames grow_pages)) [
    | inl e ↦ rw (e, grow_small) (inl refl)
    | inr ((rest, phys), e) ↦
        let taken = record g { frames = rest } in
        let valid : IsValid rest = IsValid-alloc_frames g.frames rest grow_pages phys v e in
        let low = alloc_frames_lower g.frames rest grow_pages phys v e in
        elim (Option-cases (others moment taken).heap) [
          | inl z ↦ rw (e, z, grow_small) (inl refl)
          | inr (h, z) ↦
              rw (e, z, grow_small)
                (inr (
                  takes.keeps moment taken valid,
                  omega (arith, low, takes.lower moment taken valid),
                ))
        ]
  ]

  grow_if :
      (growth : Bool) (moment : ℕ) (g : Globals) (class : SlabClass)
      → IsValid g.frames
      → Fewer g (if not growth then (g, false) else grow_small to_ka from_ka others moment g class)
  grow_if false moment g class v = inl refl
  grow_if true moment g class v = grow_small_lem moment g class v

  grow_from_frames_lem :
      (moment : ℕ) (g : Globals) (class : SlabClass)
      → IsValid g.frames
      → Fewer g (grow_from_frames to_ka from_ka others moment g class)
  unfolding grow_from_frames
  grow_from_frames_lem moment g large v = elim (Bool-cases g.growth) [
    | inr e ↦ rw (e, grow_from_frames) (inl refl)
    | inl e ↦ rw (e, grow_from_frames) (inl refl)
  ]
  grow_from_frames_lem moment g bytes64 v = grow_if g.growth moment g bytes64 v
  grow_from_frames_lem moment g bytes128 v = grow_if g.growth moment g bytes128 v
  grow_from_frames_lem moment g bytes256 v = grow_if g.growth moment g bytes256 v
  grow_from_frames_lem moment g bytes512 v = grow_if g.growth moment g bytes512 v
  grow_from_frames_lem moment g bytes1024 v = grow_if g.growth moment g bytes1024 v
  grow_from_frames_lem moment g bytes2048 v = grow_if g.growth moment g bytes2048 v
  grow_from_frames_lem moment g bytes4096 v = grow_if g.growth moment g bytes4096 v

  alloc_loop_ends :
      (fuel moment : ℕ) (g : Globals) (class : SlabClass)
      → IsValid g.frames
      → g.frames.free_frames < fuel
      → alloc_loop to_ka from_ka others fuel moment g class ≢ none
  unfolding alloc_loop
  alloc_loop_ends zero moment g class v l e = absurd (omega (arith, l))
  alloc_loop_ends (suc fuel) moment g class v l e = elim (Option-cases g.heap) [
    | inl z ↦ absurd (absurd_none (sym (rw (z, alloc_loop) at e)))
    | inr (h, z) ↦ elim (Option-cases (heap_allocate g.mem h class)) [
      | inr ((less, addr), y) ↦ absurd (absurd_none (sym (rw (z, y, alloc_loop) at e)))
      | inl y ↦
          let asked = others moment g in
          let low = takes.lower moment g v in
          let grown = grow_from_frames to_ka from_ka others (moment + 1) asked class in
          let turn = rw (z, y, alloc_loop) at e in
          elim (Bool-cases grown.1) [
            | inr w ↦ absurd (absurd_none (sym (rw (w) at turn)))
            | inl w ↦
                elim (grow_from_frames_lem (moment + 1) asked class (takes.keeps moment g v)) [
                  | inl x ↦ absurd (let same = sym w ∙ x in cc)
                  | inr (valid, less) ↦
                      let next = others (moment + 2) grown.0 in
                      alloc_loop_ends fuel (moment + 3) next class
                        (takes.keeps (moment + 2) grown.0 valid)
                        (omega (arith, l, low, less, takes.lower (moment + 2) grown.0 valid))
                        (rw (w) at turn)
                ]
          ]
    ]
  ]

  alloc_small :
      (g : Globals) (l : Layout)
      → class_for l ≢ large
      → alloc to_ka from_ka others g l
        ≡ alloc_loop to_ka from_ka others (suc g.frames.free_frames) 0 g (class_for l)
  unfolding alloc
  alloc_small g l n = go (class_for l) n
    where
      go :
          (class : SlabClass)
          → class ≢ large
          → (elim class [
            | large ↦ elim (alloc_large to_ka from_ka g l) [
              | none ↦ some (g, 0)
              | some found ↦ some found
            ]
            | small ↦ alloc_loop to_ka from_ka others (suc g.frames.free_frames) 0 g small
          ])
            ≡ alloc_loop to_ka from_ka others (suc g.frames.free_frames) 0 g class
      go large n = absurd (n refl)
      go bytes64 n = refl
      go bytes128 n = refl
      go bytes256 n = refl
      go bytes512 n = refl
      go bytes1024 n = refl
      go bytes2048 n = refl
      go bytes4096 n = refl

  -- `alloc` ends, whatever the other CPUs do to the heap and the memory between its critical sections,
  -- if they keep the frame allocator valid and give back no frames meanwhile: every turn but the last
  -- takes frames, so that as many turns as there are free frames, and one, are enough.
  pub alloc_ends :
      (g : Globals) (l : Layout) → IsValid g.frames → alloc to_ka from_ka others g l ≢ none
  unfolding alloc
  alloc_ends g l v e = elim (is_large (class_for l)) [
    | inl z ↦ elim (Option-cases (alloc_large to_ka from_ka g l)) [
      | inl y ↦ absurd (absurd_none (sym (rw (z, y, alloc) at e)))
      | inr (found, y) ↦ absurd (absurd_none (sym (rw (z, y, alloc) at e)))
    ]
    | inr n ↦
        alloc_loop_ends (suc g.frames.free_frames) 0 g (class_for l) v (omega arith)
          (sym (alloc_small g l n) ∙ e)
  ]
    where
      is_large : (class : SlabClass) → (class ≡ large) ⊎ (class ≢ large)
      is_large large = inl refl
      is_large bytes64 = inr (λ q. cc)
      is_large bytes128 = inr (λ q. cc)
      is_large bytes256 = inr (λ q. cc)
      is_large bytes512 = inr (λ q. cc)
      is_large bytes1024 = inr (λ q. cc)
      is_large bytes2048 = inr (λ q. cc)
      is_large bytes4096 = inr (λ q. cc)
