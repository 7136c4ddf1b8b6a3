-- ===== src/Kor/Frame/Search.antt =====
-- The search for a free run: what it finds is free, aligned and in range, and what it does not find
-- is not there.
use koros.Base.{
  ℕ, zero, suc, ◌+◌, ◌-◌, ◌*◌, ◌/◌, ◌%◌, ◌≤◌, ◌<◌, ◌≡◌, sym, true, false, leb, none, some, arith,
  inl, inr, Bool-cases, Option-cases, absurd_none, some_eq, dec_le,
}
use native.Mathlib.Nat.{div-add-mod', mod-lt, mul-mod_left}
use koros.Kor.Frame.{
  Region, FrameAllocator, bit_at, align_ppn, first_used, find_from, find_free_run,
}
use koros.Kor.Frame.Bitmap.{first_used-none, first_used-some}

align_ppn_mul : (x frames : ℕ) → align_ppn x frames ≡ (x + frames - 1) / frames * frames
unfolding align_ppn
align_ppn_mul x frames = omega (arith, div-add-mod' (x + frames - 1) frames)

-- `align_ppn` rounds up to a multiple of `frames`.
pub align_ppn_bounds :
    (x frames : ℕ)
    → 0 < frames
    → (x ≤ align_ppn x frames)
      × (align_ppn x frames < x + frames)
      × (align_ppn x frames % frames ≡ 0)
align_ppn_bounds x frames h =
    let rem = mod-lt (x + frames - 1) {m = frames} h in
    let whole = div-add-mod' (x + frames - 1) frames in
    (
      omega (arith, rem, whole, align_ppn_mul x frames),
      omega (arith, rem, whole, align_ppn_mul x frames),
      rw (align_ppn_mul x frames) (mul-mod_left ((x + frames - 1) / frames) frames),
    )

-- A multiple less than one step above another is not above it.
multiple_le : (q d f : ℕ) → q * f < d * f + f → q * f ≤ d * f
multiple_le q d f h = elim (dec_le q d) [ yes p ↦ grind arith | no p ↦ absurd (grind arith) ]

-- It is the least multiple that is not below `x`.
pub align_ppn_least :
    (x y frames : ℕ) → 0 < frames → x ≤ y → y % frames ≡ 0 → align_ppn x frames ≤ y
align_ppn_least x y frames h l m =
    let whole = div-add-mod' (x + frames - 1) frames in
    let y_whole = div-add-mod' y frames in
    rw (align_ppn_mul x frames) (
      omega (
        arith,
        multiple_le ((x + frames - 1) / frames) (y / frames) frames (omega arith),
        y_whole,
        m,
      ))

-- A run of `frames` clear bits, aligned in physical memory.
pub record IsFreeRun (words : ℕ → ℕ) (r : Region) (frames offset : ℕ) : Type 0 where
  pub aligned : (r.start_ppn + offset) % frames ≡ 0
  pub clear : (j : ℕ) → offset ≤ j → j < offset + frames → bit_at words (r.bitmap_base + j) ≡ false

-- Where the search goes on behind a used frame.
abbrev resume : Region → ℕ → ℕ → ℕ
resume r used frames = align_ppn (r.start_ppn + (used - r.bitmap_base) + 1) frames - r.start_ppn

resume_lem :
    (r : Region) (used frames offset : ℕ)
    → 0 < frames
    → r.bitmap_base + offset ≤ used
    → (offset < resume r used frames) × ((r.start_ppn + resume r used frames) % frames ≡ 0)
resume_lem r used frames offset p h =
    let bounds = align_ppn_bounds (r.start_ppn + (used - r.bitmap_base) + 1) frames p in
    let whole : r.start_ppn + resume r used frames
        ≡ align_ppn (r.start_ppn + (used - r.bitmap_base) + 1) frames =
      omega (arith, bounds.0) in
    (omega (arith, bounds.0), rw whole bounds.2)

find_from_sound :
    (fuel : ℕ) (words : ℕ → ℕ) (r : Region) (offset end frames found : ℕ)
    → 0 < frames
    → (r.start_ppn + offset) % frames ≡ 0
    → find_from fuel words r offset end frames ≡ some found
    → IsFreeRun words r frames found × (offset ≤ found) × (found + frames ≤ end)
unfolding find_from
find_from_sound zero words r offset end frames found p a h = cc
find_from_sound (suc fuel) words r offset end frames found p a h =
    elim (Bool-cases (leb (offset + frames) end)) [
      | inr e ↦ absurd (absurd_none (rw (e, find_from) at h))
      | inl e ↦ elim (Option-cases (first_used words (r.bitmap_base + offset) frames)) [
        | inl free ↦
            let same : offset ≡ found = some_eq (rw (e, free, find_from) at h) in
            rw (← same) (
              record {
                aligned = a;
                clear = λ j b c.
                    first_used-none words (r.bitmap_base + offset) frames (r.bitmap_base + j) free
                      (omega arith) (omega arith);
              },
              omega arith,
              ground arith,
            )
        | inr (used, busy) ↦
            let where_used = first_used-some words (r.bitmap_base + offset) frames used busy in
            let next = resume_lem r used frames offset p where_used.0 in
            let rest =
              find_from_sound fuel words r (resume r used frames) end frames found p next.1
                (rw (e, busy, find_from) at h) in
            (rest.0, omega (arith, rest.1, next.0), rest.2)
      ]
    ]

find_from_complete :
    (fuel : ℕ) (words : ℕ → ℕ) (r : Region) (offset end frames o : ℕ)
    → 0 < frames
    → end < fuel + offset
    → find_from fuel words r offset end frames ≡ none
    → offset ≤ o
    → o + frames ≤ end
    → ¬ IsFreeRun words r frames o
unfolding find_from
find_from_complete zero words r offset end frames o p f h b c free = absurd (omega arith)
find_from_complete (suc fuel) words r offset end frames o p f h b c free =
    elim (Option-cases (first_used words (r.bitmap_base + offset) frames)) [
      | inl e ↦ absurd (absurd_none (sym (rw (inside, e, find_from) at h)))
      | inr (used, busy) ↦
          let where_used = first_used-some words (r.bitmap_base + offset) frames used busy in
          let next = resume_lem r used frames offset p where_used.0 in
          elim (dec_le (resume r used frames) o) [
            | yes q ↦
                find_from_complete fuel words r (resume r used frames) end frames o p
                  (omega (arith, next.0)) (rw (inside, busy, find_from) at h) q c free
            | no q ↦
                let hit =
                  free.clear (used - r.bitmap_base) (behind used where_used.0 q)
                    (omega (arith, where_used)) in
                ground (arith, where_used, hit, add_sub r.bitmap_base used)
          ]
    ]
  where
    inside : leb (offset + frames) end ≡ true
    inside = ground arith

    add_sub : (base used : ℕ) → base ≤ used → base + (used - base) ≡ used
    add_sub base used h = omega arith

    behind :
        (used : ℕ)
        → r.bitmap_base + offset ≤ used
        → ¬ (resume r used frames ≤ o)
        → o ≤ used - r.bitmap_base
    behind used u q = elim (dec_le o (used - r.bitmap_base)) [
      | yes k ↦ k
      | no k ↦ absurd (
          q (
            omega (
              arith,
              align_ppn_least (r.start_ppn + (used - r.bitmap_base) + 1) (r.start_ppn + o) frames p
                  (omega arith) free.aligned,
            )))
    ]

-- What `find_free_run` finds is a free run, aligned to its length, inside the range that is searched.
pub find_free_run_sound :
    (a : FrameAllocator) (r : Region) (start end frames found : ℕ)
    → 0 < frames
    → find_free_run a r start end frames ≡ some found
    → IsFreeRun a.allocated r frames found × (start ≤ found) × (found + frames ≤ end)
unfolding find_free_run
find_free_run_sound a r start end frames found p h =
    let bounds = align_ppn_bounds (r.start_ppn + start) frames p in
    let offset = align_ppn (r.start_ppn + start) frames - r.start_ppn in
    let whole : r.start_ppn + offset ≡ align_ppn (r.start_ppn + start) frames =
      omega (arith, bounds.0) in
    let run =
      find_from_sound (suc end) a.allocated r offset end frames found p (rw whole bounds.2) h in
    (run.0, omega (arith, run.1, bounds.0), run.2)

-- If `find_free_run` finds nothing, no aligned free run lies inside the range. So the fuel suffices.
pub find_free_run_complete :
    (a : FrameAllocator) (r : Region) (start end frames o : ℕ)
    → 0 < frames
    → find_free_run a r start end frames ≡ none
    → start ≤ o
    → o + frames ≤ end
    → ¬ IsFreeRun a.allocated r frames o
unfolding find_free_run
find_free_run_complete a r start end frames o p h b c free =
    find_from_complete (suc end) a.allocated r
      (align_ppn (r.start_ppn + start) frames - r.start_ppn) end frames o p (omega arith) h
      (omega (
        arith,
        align_ppn_least (r.start_ppn + start) (r.start_ppn + o) frames p (omega arith) free.aligned,
      ))
      c free
