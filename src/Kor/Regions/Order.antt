-- ===== src/Kor/Regions/Order.antt =====
-- The order that `RegionCollector` keeps, and the one that it does not.
use koros.Base.{
  ◌++◌, length, ap, leb, ltb, false, true, ℕ, zero, suc, ◌≤◌, ◌<◌, ◌≡◌, List, [], ◌∷◌, some, arith,
  ◌⊎◌,
}
use koros.Kor.Regions.{
  Region, Place, grow, stop, scan, end_at, set_end, try_merge, insert_at, insert, place, add,
}
use koros.Kor.Regions.Cover.{stop_apart, shift_grow, shift_grow_zero, shift_stop, shift_stop_zero}

-- No two regions share an address, and none is empty.
abbrev pub AreApart : ℕ → List Region → Type 0
AreApart low [] = Unit {0}
AreApart low (r ∷ rs) = (low ≤ r.start) × (r.start < r.end) × AreApart r.end rs

-- The new range meets none of the regions (touching is allowed).
abbrev pub Misses : Region → List Region → Type 0
Misses new [] = Unit {0}
Misses new (r ∷ rs) = ((new.end ≤ r.start) ⊎ (r.end ≤ new.start)) × Misses new rs

AreApart-weaken :
    (low high : ℕ) (rs : List Region) → low ≤ high → AreApart high rs → AreApart low rs
AreApart-weaken low high [] h a = tt
AreApart-weaken low high (r ∷ rs) h a = (omega arith, a.1, a.2)

AreApart-grown :
    (low : ℕ) (rs : List Region) (new : Region) (i : ℕ)
    → AreApart low rs
    → Misses new rs
    → new.start < new.end
    → scan rs new ≡ grow i
    → AreApart low (try_merge (set_end rs i new.end) i)
unfolding scan set_end try_merge
AreApart-grown low [] new i a m n e = cc
AreApart-grown low (r ∷ []) new zero a m n e = ground (arith, shift_grow_zero (scan [] new))
AreApart-grown low (r ∷ t ∷ rs) new zero a m n e =
    ground (arith, shift_grow_zero (scan (t ∷ rs) new), AreApart-weaken t.end t.end rs)
AreApart-grown low (r ∷ []) new (suc i) a m n e = ground arith
AreApart-grown low (r ∷ t ∷ rs) new (suc zero) a m n e =
    ground (arith, shift_grow (scan (t ∷ rs) new) zero, AreApart-grown r.end (t ∷ rs) new zero)
AreApart-grown low (r ∷ t ∷ rs) new (suc (suc i)) a m n e =
    ground
      (arith, shift_grow (scan (t ∷ rs) new) (suc i), AreApart-grown r.end (t ∷ rs) new (suc i))

AreApart-inserted :
    (low : ℕ) (rs : List Region) (new : Region) (i : ℕ)
    → low ≤ new.start
    → AreApart low rs
    → Misses new rs
    → new.start < new.end
    → scan rs new ≡ stop i
    → AreApart low (insert_at rs i new)
unfolding scan insert_at
AreApart-inserted low [] new zero l a m n e = (l, n, tt)
AreApart-inserted low [] new (suc i) l a m n e = cc
AreApart-inserted low (r ∷ rs) new zero l a m n e = ground (arith, shift_stop_zero (scan rs new))
AreApart-inserted low (r ∷ rs) new (suc i) l a m n e =
    ground (arith, shift_stop (scan rs new) i, AreApart-inserted r.end rs new i)

AreApart-place :
    (low : ℕ) (rs : List Region) (new : Region) (p : Place) {out : List Region}
    → low ≤ new.start
    → new.start < new.end
    → AreApart low rs
    → Misses new rs
    → scan rs new ≡ p
    → place rs new p ≡ some out
    → AreApart low out
unfolding place insert
AreApart-place low rs new (grow i) l n a m e h = ground (arith, AreApart-grown low rs new i a m n e)
AreApart-place low rs new (stop zero) l n a m e h =
    ground (arith, AreApart-inserted low rs new zero l a m n e)
AreApart-place low rs new (stop (suc i)) l n a m e h =
    ground (arith, stop_apart rs new i e, AreApart-inserted low rs new (suc i) l a m n e)

-- If the range that is added meets none of the regions, `add` keeps the regions sorted, non-empty
-- and pairwise disjoint.
pub AreApart-add :
    (low start end : ℕ) (rs : List Region) {out : List Region}
    → low ≤ start
    → AreApart low rs
    → Misses (record { start = start; end = end }) rs
    → add rs start end ≡ some out
    → AreApart low out
unfolding add
AreApart-add low start end rs {out} l a m h = ground (
  arith,
  AreApart-place low rs (record { start = start; end = end })
      (scan rs (record { start = start; end = end })) {out = out} l,
)

-- A range that starts at or before the first region and reaches into it is put in front of it
-- unmerged, so the regions overlap.
pub add_front_overlaps :
    (low start end : ℕ) (r : Region) (rs : List Region) {out : List Region}
    → start ≤ r.start
    → r.start < end
    → add (r ∷ rs) start end ≡ some out
    → ¬ AreApart low out
unfolding add scan place insert insert_at
add_front_overlaps low start end r rs h k e = ground arith

AreApart-low :
    (low : ℕ) (before : List Region) (r : Region) (rest : List Region)
    → AreApart low (before ++ r ∷ rest)
    → low ≤ r.start
AreApart-low low [] r rest a = a.0
AreApart-low low (b ∷ bs) r rest a = omega (arith, a.0, a.1, AreApart-low b.end bs r rest a.2)

scan-grow :
    (low : ℕ) (before : List Region) (r : Region) (rest : List Region) (new : Region)
    → AreApart low (before ++ r ∷ rest)
    → r.start < new.start
    → new.start ≤ r.end
    → scan (before ++ r ∷ rest) new ≡ grow (length before)
unfolding scan
scan-grow low [] r rest new a h k = ground arith
scan-grow low (b ∷ bs) r rest new a h k =
    ground (arith, a.1, AreApart-low b.end bs r rest a.2, scan-grow b.end bs r rest new a.2 h k)

end_at-append :
    (before : List Region) (r : Region) (rest : List Region)
    → end_at (before ++ r ∷ rest) (length before) ≡ r.end
unfolding end_at
end_at-append [] r rest = ground arith
end_at-append (b ∷ bs) r rest = end_at-append bs r rest

set_end-append :
    (before : List Region) (r : Region) (rest : List Region) (e : ℕ)
    → set_end (before ++ r ∷ rest) (length before) e ≡ before ++ record r { end = e } ∷ rest
unfolding set_end
set_end-append [] r rest e = ground arith
set_end-append (b ∷ bs) r rest e = ap (λ xs. b ∷ xs) (set_end-append bs r rest e)

-- The region in front of `t` reaches it and ends behind it.
try_merge-append :
    (before : List Region) (r t : Region) (rest : List Region)
    → t.start ≤ r.end
    → t.end ≤ r.end
    → try_merge (before ++ r ∷ t ∷ rest) (length before) ≡ before ++ r ∷ rest
unfolding try_merge
try_merge-append [] r t rest h k = ground arith
try_merge-append (b ∷ []) r t rest h k = ap (λ xs. b ∷ xs) (try_merge-append [] r t rest h k)
try_merge-append (b ∷ c ∷ bs) r t rest h k =
    ap (λ xs. b ∷ xs) (try_merge-append (c ∷ bs) r t rest h k)

-- The regions behind a region of a collector whose regions are apart are apart.
AreApart-end :
    (low : ℕ) (before : List Region) (r : Region) (rest : List Region)
    → AreApart low (before ++ r ∷ rest)
    → AreApart r.end rest
AreApart-end low [] r rest a = a.2
AreApart-end low (b ∷ bs) r rest a = AreApart-end b.end bs r rest a.2

overlap :
    (low : ℕ) (before : List Region) (r u : Region) (rest : List Region)
    → u.start < r.end
    → ¬ AreApart low (before ++ r ∷ u ∷ rest)
overlap low [] r u rest h a = absurd (omega (arith, h, a.2.0))
overlap low (b ∷ bs) r u rest h a = overlap b.end bs r u rest h a.2

-- A range that starts in a region, or where it ends, and reaches into the two regions `t` and `u` behind
-- it, wherever these stand in a collector whose regions are apart, extends the region, which is merged
-- with `t` only: `u` stays as it is, and overlaps the region.
pub add_long_overlaps :
    (low start end : ℕ) (before : List Region) (r t u : Region) (rs : List Region)
    → AreApart low (before ++ r ∷ t ∷ u ∷ rs)
    → r.start < start
    → start ≤ r.end
    → u.start < end
    → (add (before ++ r ∷ t ∷ u ∷ rs) start end
        ≡ some (before ++ record { start = r.start; end = end } ∷ u ∷ rs))
      × (¬ AreApart low (before ++ record { start = r.start; end = end } ∷ u ∷ rs))
unfolding add place
add_long_overlaps low start end before r t u rs a h k l =
    let behind = AreApart-end low before r (t ∷ u ∷ rs) a in
    let new : Region = record { start = start; end = end } in
    let long : leb end start ≡ false = ground (arith, behind.0, behind.1) in
    let reaches : ltb r.end end ≡ true = ground (arith, behind.0, behind.1) in
    let merged : Region = record { start = r.start; end = end } in
    (
      rw
          (
            long,
            scan-grow low before r (t ∷ u ∷ rs) new a h k,
            end_at-append before r (t ∷ u ∷ rs),
            reaches,
            set_end-append before r (t ∷ u ∷ rs) end,
          )
          (ap some (
            try_merge-append before merged t (u ∷ rs) (omega (arith, behind))
              (omega (arith, behind)))),
      overlap low before merged u rs l,
    )
