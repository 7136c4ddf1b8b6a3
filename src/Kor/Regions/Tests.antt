-- ===== src/Kor/Regions/Tests.antt =====
-- Runs of the region collector, and its theorems at concrete memory maps.
use koros.Base.{ℕ, ◌≡◌, refl, List, [], ◌∷◌, some, arith, inl, inr, true, ◌||◌}
use koros.Kor.Regions.{Region, add, add_all, clip_region}
use koros.Kor.Regions.Cover.{IsSorted, covered, add_all_lem, covered-clip_region}
use koros.Kor.Regions.Order.{AreApart, AreApart-add, add_front_overlaps, add_long_overlaps}

abbrev range : ℕ → ℕ → Region
range a b = record { start = a; end = b }

abbrev two_ranges : List Region
two_ranges = range 0x1000 0x3000 ∷ range 0x8000 0x9000 ∷ []

touching_merges : add two_ranges 0x3000 0x8000 ≡ some (range 0x1000 0x9000 ∷ [])
unfolding add
touching_merges = refl

overlapping_stays : add two_ranges 0x0000 0x2000 ≡ some (range 0 0x2000 ∷ two_ranges)
unfolding add
overlapping_stays = refl

add_all_lem_example :
    IsSorted 0 (range 0x1000 0x9000 ∷ [])
    × ((x : ℕ)
        → covered (range 0x1000 0x9000 ∷ []) x
          ≡ (covered (range 0x3000 0x8000 ∷ []) x || covered two_ranges x))
unfolding add_all add
add_all_lem_example = add_all_lem two_ranges (range 0x3000 0x8000 ∷ []) (omega arith) refl

covered-clip_region_run : covered (clip_region 0x1000 0x9000 0x2000 0x4000) 0x5000 ≡ true
covered-clip_region_run = covered-clip_region 0x1000 0x9000 0x2000 0x4000 0x5000

AreApart-add_run : AreApart 0 (range 0x1000 0x4000 ∷ range 0x8000 0x9000 ∷ [])
unfolding add
AreApart-add_run =
    AreApart-add 0 0x3000 0x4000 two_ranges (omega arith) (omega arith)
      (inr (omega arith), (inl (omega arith), tt)) refl

add_front_overlaps_example : ¬ AreApart 0 (range 0 0x2000 ∷ two_ranges)
unfolding add
add_front_overlaps_example =
    add_front_overlaps 0 0 0x2000 (range 0x1000 0x3000) (range 0x8000 0x9000 ∷ []) (omega arith)
      (omega arith) refl

-- The range is joined to the second of four regions.
abbrev four_ranges : List Region
four_ranges = range 0 0x100 ∷ range 0x1000 0x3000 ∷ range 0x8000 0x9000 ∷ range 0xa000 0xb000 ∷ []

add_long_overlaps_example :
    (add four_ranges 0x2000 0xb000
      ≡ some (range 0 0x100 ∷ range 0x1000 0xb000 ∷ range 0xa000 0xb000 ∷ []))
    × (¬ AreApart 0 (range 0 0x100 ∷ range 0x1000 0xb000 ∷ range 0xa000 0xb000 ∷ []))
add_long_overlaps_example =
    add_long_overlaps 0 0x2000 0xb000 (range 0 0x100 ∷ []) (range 0x1000 0x3000)
      (range 0x8000 0x9000) (range 0xa000 0xb000) [] (omega arith) (omega arith) (omega arith)
      (omega arith)
