-- ===== src/Kor/Regions/Cover.antt =====
-- Which addresses a collector holds: `RegionCollector::add` and `clip_region` as operations on sets.
use koros.Base.{
  ℕ, zero, suc, ◌≤◌, ◌<◌, ◌≡◌, ◌≢◌, refl, Bool, false, not, ◌&&◌, ◌||◌, ltb, leb, List, [], ◌∷◌,
  some, arith, Option-cases, inl, inr, absurd_none,
}
use koros.Kor.Regions.{
  Region, Place, grow, stop, shift, scan, end_at, set_end, try_merge, insert_at, insert, place, add,
  add_all, clip_region,
}

abbrev pub holds : Region → ℕ → Bool
holds r x = leb r.start x && ltb x r.end

pub covered : List Region → ℕ → Bool
covered [] x = false
covered (r ∷ rs) x = holds r x || covered rs x

-- The starts rise along the list.
abbrev pub IsSorted : ℕ → List Region → Type 0
IsSorted low [] = Unit {0}
IsSorted low (r ∷ rs) = (low ≤ r.start) × IsSorted r.start rs

covered-insert_at :
    (rs : List Region) (i : ℕ) (new : Region) (x : ℕ)
    → covered (insert_at rs i new) x ≡ (holds new x || covered rs x)
unfolding covered insert_at
covered-insert_at rs zero new x = refl
covered-insert_at [] (suc i) new x = refl
covered-insert_at (r ∷ rs) (suc i) new x = ground (arith, covered-insert_at rs i new x)

covered-try_merge :
    (low : ℕ) (rs : List Region) (i x : ℕ)
    → IsSorted low rs
    → covered (try_merge rs i) x ≡ covered rs x
unfolding covered try_merge
covered-try_merge low [] i x s = refl
covered-try_merge low (r ∷ []) zero x s = refl
covered-try_merge low (r ∷ t ∷ rs) zero x s = ground arith
covered-try_merge low (r ∷ []) (suc i) x s = refl
covered-try_merge low (r ∷ t ∷ rs) (suc i) x s =
    ground (arith, covered-try_merge r.start (t ∷ rs) i x s.1)

pub shift_grow : (p : Place) (i : ℕ) → shift p ≡ grow (suc i) → p ≡ grow i
shift_grow (grow j) i e = cc
shift_grow (stop j) i e = cc

pub shift_grow_zero : (p : Place) → shift p ≢ grow zero
shift_grow_zero (grow j) e = cc
shift_grow_zero (stop j) e = cc

pub shift_stop_zero : (p : Place) → shift p ≢ stop zero
shift_stop_zero (grow j) e = cc
shift_stop_zero (stop j) e = cc

pub shift_stop : (p : Place) (i : ℕ) → shift p ≡ stop (suc i) → p ≡ stop i
shift_stop (grow j) i e = cc
shift_stop (stop j) i e = cc

-- A region that is grown starts before the new one and reaches it.
covered-set_end_grow :
    (rs : List Region) (new : Region) (i x : ℕ)
    → scan rs new ≡ grow i
    → end_at rs i < new.end
    → covered (set_end rs i new.end) x ≡ (holds new x || covered rs x)
unfolding covered set_end scan end_at
covered-set_end_grow [] new i x e h = cc
covered-set_end_grow (r ∷ rs) new zero x e h = ground (arith, shift_grow_zero (scan rs new))
covered-set_end_grow (r ∷ rs) new (suc i) x e h =
    ground (arith, shift_grow (scan rs new) i, covered-set_end_grow rs new i x)

covered_grown :
    (rs : List Region) (new : Region) (i x : ℕ)
    → scan rs new ≡ grow i
    → new.end ≤ end_at rs i
    → covered rs x ≡ (holds new x || covered rs x)
unfolding covered scan end_at
covered_grown [] new i x e h = cc
covered_grown (r ∷ rs) new zero x e h = ground (arith, shift_grow_zero (scan rs new))
covered_grown (r ∷ rs) new (suc i) x e h =
    ground (arith, shift_grow (scan rs new) i, covered_grown rs new i x)

-- The regions before the place of an insertion end before the new one starts, so the merge with a
-- touching predecessor after the loop is never taken.
pub stop_apart :
    (rs : List Region) (new : Region) (i : ℕ) → scan rs new ≡ stop (suc i) → end_at rs i < new.start
unfolding scan end_at
stop_apart [] new i e = cc
stop_apart (r ∷ rs) new zero e = ground arith
stop_apart (r ∷ rs) new (suc i) e =
    ground (arith, shift_stop (scan rs new) (suc i), stop_apart rs new i)

IsSorted-set_end :
    (low : ℕ) (rs : List Region) (i e : ℕ) → IsSorted low rs → IsSorted low (set_end rs i e)
unfolding set_end
IsSorted-set_end low [] i e s = tt
IsSorted-set_end low (r ∷ rs) zero e s = s
IsSorted-set_end low (r ∷ rs) (suc i) e s = (s.0, IsSorted-set_end r.start rs i e s.1)

covered-insert :
    (rs : List Region) (i : ℕ) (new : Region) (x : ℕ) {out : List Region}
    → insert rs i new ≡ some out
    → covered out x ≡ (holds new x || covered rs x)
unfolding insert
covered-insert rs i new x h = ground (arith, covered-insert_at rs i new x)

covered-place :
    (low : ℕ) (rs : List Region) (new : Region) (x : ℕ) (p : Place) {out : List Region}
    → IsSorted low rs
    → scan rs new ≡ p
    → place rs new p ≡ some out
    → covered out x ≡ (holds new x || covered rs x)
unfolding place
covered-place low rs new x (grow i) s e h = ground (
  arith,
  covered-try_merge low (set_end rs i new.end) i x (IsSorted-set_end low rs i new.end s),
  covered-set_end_grow rs new i x e,
  covered_grown rs new i x e,
)
covered-place low rs new x (stop zero) s e h = covered-insert rs zero new x h
covered-place low rs new x (stop (suc i)) {out} s e h =
    ground (arith, stop_apart rs new i e, covered-insert rs (suc i) new x {out = out})

-- An address is held after `add` exactly when it was held before or lies in the range that is
-- added, for a collector whose starts rise.
pub covered-add :
    (low start end x : ℕ) (rs : List Region) {out : List Region}
    → IsSorted low rs
    → add rs start end ≡ some out
    → covered out x ≡ ((leb start x && ltb x end) || covered rs x)
unfolding add
covered-add low start end x rs {out} s h = ground (
  arith,
  covered-place low rs (record { start = start; end = end }) x
      (scan rs (record { start = start; end = end })) {out = out} s refl,
)

IsSorted-weaken :
    (low high : ℕ) (rs : List Region) → low ≤ high → IsSorted high rs → IsSorted low rs
IsSorted-weaken low high [] h s = tt
IsSorted-weaken low high (r ∷ rs) h s = (omega arith, s.1)

IsSorted-try_merge :
    (low : ℕ) (rs : List Region) (i : ℕ) → IsSorted low rs → IsSorted low (try_merge rs i)
unfolding try_merge
IsSorted-try_merge low [] i s = tt
IsSorted-try_merge low (r ∷ []) zero s = s
IsSorted-try_merge low (r ∷ t ∷ rs) zero s = ground (arith, IsSorted-weaken r.start t.start rs)
IsSorted-try_merge low (r ∷ []) (suc i) s = s
IsSorted-try_merge low (r ∷ t ∷ rs) (suc i) s = (s.0, IsSorted-try_merge r.start (t ∷ rs) i s.1)

IsSorted-insert_at :
    (low : ℕ) (rs : List Region) (new : Region) (i : ℕ)
    → low ≤ new.start
    → IsSorted low rs
    → scan rs new ≡ stop i
    → IsSorted low (insert_at rs i new)
unfolding scan insert_at
IsSorted-insert_at low [] new zero l s e = (l, tt)
IsSorted-insert_at low [] new (suc i) l s e = cc
IsSorted-insert_at low (r ∷ rs) new zero l s e = ground (arith, shift_stop_zero (scan rs new))
IsSorted-insert_at low (r ∷ rs) new (suc i) l s e =
    ground (arith, shift_stop (scan rs new) i, IsSorted-insert_at r.start rs new i)

IsSorted-place :
    (rs : List Region) (new : Region) (p : Place) {out : List Region}
    → IsSorted 0 rs
    → scan rs new ≡ p
    → place rs new p ≡ some out
    → IsSorted 0 out
unfolding place insert
IsSorted-place rs new (grow i) s e h =
    ground
      (arith, IsSorted-try_merge 0 (set_end rs i new.end) i (IsSorted-set_end 0 rs i new.end s))
IsSorted-place rs new (stop zero) s e h = ground (arith, IsSorted-insert_at 0 rs new zero)
IsSorted-place rs new (stop (suc i)) s e h =
    ground (arith, stop_apart rs new i e, IsSorted-insert_at 0 rs new (suc i))

pub IsSorted-add :
    (start end : ℕ) (rs : List Region) {out : List Region}
    → IsSorted 0 rs
    → add rs start end ≡ some out
    → IsSorted 0 out
unfolding add
IsSorted-add start end rs {out} s h = ground (
  arith,
  IsSorted-place rs (record { start = start; end = end })
      (scan rs (record { start = start; end = end })) {out = out} s refl,
)

-- After any sequence of ranges that the collector has room for, the starts rise and an address is
-- held exactly when it was held before or lies in one of the ranges.
pub add_all_lem :
    (rs ranges : List Region) {out : List Region}
    → IsSorted 0 rs
    → add_all rs ranges ≡ some out
    → IsSorted 0 out × ((x : ℕ) → covered out x ≡ (covered ranges x || covered rs x))
unfolding add_all covered
add_all_lem rs [] {out} s h = (ground arith, λ x. ground arith)
add_all_lem rs (new ∷ ranges) {out} s h = elim (Option-cases (add rs new.start new.end)) [
  | inl e ↦ absurd (absurd_none (rw (e, add_all) at h))
  | inr (mid, e) ↦
      let rest =
        add_all_lem mid ranges {out = out} (IsSorted-add new.start new.end rs s e)
          (rw (e, add_all) at h) in
      (rest.0, λ x. ground (arith, rest.1 x, covered-add 0 new.start new.end x rs s e))
]

-- `clip_region` hands on exactly the addresses of the range that lie outside the hole.
pub covered-clip_region :
    (start end hole_start hole_end x : ℕ)
    → covered (clip_region start end hole_start hole_end) x
      ≡ ((leb start x && ltb x end) && not (leb hole_start x && ltb x hole_end))
unfolding clip_region covered
covered-clip_region start end hole_start hole_end x = ground arith
