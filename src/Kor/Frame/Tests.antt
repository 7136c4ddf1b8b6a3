-- ===== src/Kor/Frame/Tests.antt =====
-- The frame allocator on eight frames from address 0x10000.
use koros.Base.{
  ℕ, List, [], ◌∷◌, Option, none, some, ◌≡◌, refl, Bool, true, false, ◌||◌, map, arith, ◌⊎◌, inl,
  inr, ℕ_discrete, sym, subst, ◌≢◌, ◌+◌, ◌≤◌, ◌<◌, ◌*◌,
}
use koros.Kor.Frame.{
  Region, FrameAllocator, new, bit_at, put_at, bit, mark_from, mark_run, align_ppn, power_from,
  next_power_of_two, first_used, find_from, find_free_run, or_else, search_region, search_regions,
  take_run, alloc_frames, locate, all_used, give_back, free_frames, no_overlap, add_pages,
  add_region,
}
use koros.Base.Bits.{test_bit, put_bit, or_bit, clear_bit}
use koros.Kor.Frame.Valid.{IsValid}
use koros.Kor.Frame.Search.{IsFreeRun}
use koros.Kor.Frame.Grow.{IsValid-new, IsValid-add_region}
use koros.Kor.Frame.Alloc.{alloc_frames-reserves, IsValid-alloc_frames, alloc_frames-none, Reserved}
use koros.Kor.Frame.Free.{free_frames-releases, Released}
use koros.Kor.Frame.RoundTrip.{free_frames-alloc_frames}

abbrev region : Region
region = record { start_ppn = 16; frames = 8; bitmap_base = 0; next_hint = 0 }

abbrev small : FrameAllocator
small = record { regions = region ∷ []; tracked_frames = 8; free_frames = 8; allocated = λ i. 0 }

added : add_region new 65536 98304 ≡ some small
unfolding add_region add_pages no_overlap new
added = refl

small-IsValid : IsValid small
small-IsValid = IsValid-add_region new small 65536 98304 IsValid-new added

IsValid-add_region_run : IsValid small
IsValid-add_region_run = IsValid-add_region new small 65536 98304 IsValid-new added

abbrev taken : FrameAllocator
taken = (take_run small 0 region 0 4).0

-- Three frames are rounded up to four.
alloc3 : alloc_frames small 3 ≡ some (taken, 65536)
unfolding alloc_frames next_power_of_two power_from search_regions search_region or_else
    find_free_run find_from align_ppn first_used bit_at take_run test_bit
alloc3 = refl

alloc_frames-reserves_example : Reserved small 3 taken 65536
alloc_frames-reserves_example = alloc_frames-reserves small taken 3 65536 small-IsValid alloc3

IsValid-alloc_frames_run : IsValid taken
IsValid-alloc_frames_run = IsValid-alloc_frames small taken 3 65536 small-IsValid alloc3

taken-IsValid : IsValid taken
taken-IsValid = IsValid-alloc_frames small taken 3 65536 small-IsValid alloc3

free_frames-alloc_frames_example :
    (a : FrameAllocator) × (free_frames taken 65536 3 ≡ some a)
    × ((j : ℕ) → bit_at a.allocated j ≡ bit_at small.allocated j)
    × (a.free_frames ≡ 8)
free_frames-alloc_frames_example = free_frames-alloc_frames small taken 3 65536 small-IsValid alloc3

abbrev given_back : FrameAllocator
given_back = (free_frames-alloc_frames small taken 3 65536 small-IsValid alloc3).0

free_frames-releases_example : Released taken 65536 3 given_back
free_frames-releases_example =
    free_frames-releases taken given_back 65536 3 taken-IsValid
      ((free_frames-alloc_frames small taken 3 65536 small-IsValid alloc3).1)

-- Calls one after the other: `inl count` allocates, `inr (page, count)` frees the frames from that page.
abbrev run : FrameAllocator → List (ℕ ⊎ (ℕ × ℕ)) → Option FrameAllocator
run a [] = some a
run a (inl count ∷ calls) = elim (alloc_frames a count) [
  | none ↦ none
  | some (rest, phys) ↦ run rest calls
]
run a (inr (page, count) ∷ calls) = elim (free_frames a (page * 4096) count) [
  | none ↦ none
  | some rest ↦ run rest calls
]

abbrev hint_and_free : Option FrameAllocator → List (ℕ × ℕ × Bool)
hint_and_free none = []
hint_and_free (some a) = map (λ r. (r.next_hint, a.free_frames, bit a r 2 || bit a r 3)) a.regions

abbrev failed : Option FrameAllocator → Option Bool
failed none = none
failed (some a) = elim (alloc_frames a 2) [ none ↦ some true | some found ↦ some false ]

-- After these calls the frames 2 and 3 are free, the hint is 3, and a request for two frames fails.
abbrev calls : List (ℕ ⊎ (ℕ × ℕ))
calls = inl 1 ∷ inl 1 ∷ inl 1 ∷ inl 1 ∷ inr (18, 1) ∷ inl 2 ∷ inl 2 ∷ inr (19, 1) ∷ []

straddled_state : hint_and_free (run small calls) ≡ (3, 2, false) ∷ []
unfolding alloc_frames free_frames next_power_of_two power_from search_regions search_region or_else
    find_free_run find_from align_ppn first_used bit bit_at put_at mark_from mark_run take_run
    give_back locate all_used test_bit put_bit or_bit clear_bit
straddled_state = refl

straddled_fails : failed (run small calls) ≡ some true
unfolding alloc_frames free_frames next_power_of_two power_from search_regions search_region or_else
    find_free_run find_from align_ppn first_used bit bit_at put_at mark_from mark_run take_run
    give_back locate all_used test_bit put_bit or_bit clear_bit
straddled_fails = refl

-- The state of these calls, with the bitmap written as a number.
abbrev last_region : Region
last_region = record region { next_hint = 3 }

abbrev straddled : FrameAllocator
straddled = record {
  regions = last_region ∷ [];
  tracked_frames = 8;
  free_frames = 2;
  allocated = λ i. 243;
}

straddled-none : alloc_frames straddled 2 ≡ none
unfolding alloc_frames next_power_of_two power_from search_regions search_region or_else
    find_free_run find_from align_ppn first_used bit_at test_bit
straddled-none = refl

two : next_power_of_two 2 ≡ some 2
unfolding next_power_of_two power_from
two = refl

free_run : IsFreeRun straddled.allocated last_region 2 2
unfolding bit_at test_bit
free_run = record {
  aligned = omega arith;
  clear = λ j a b. elim (ℕ_discrete j 2) [
    | yes p ↦ subst (λ n. bit_at straddled.allocated (0 + n) ≡ false) (sym p) refl
    | no p ↦ subst (λ n. bit_at straddled.allocated (0 + n) ≡ false) (three j a b p) refl
  ];
}
  where
    three : (j : ℕ) → 2 ≤ j → j < 4 → j ≢ 2 → 3 ≡ j
    three j a b p = omega arith

alloc_frames-none_example : (8 < 2 + 2) ⊎ ((2 < 3) × (3 < 2 + 2))
alloc_frames-none_example =
    alloc_frames-none straddled 2 2 0 2 last_region (omega arith) two straddled-none refl free_run
