-- ===== src/Korix/Mm/Tests.antt =====
-- Runs over a machine that counts its frames, and whose page table accepts 100 changes.
use koros.Base.{
  ℕ, ◌+◌, ◌*◌, ◌≤◌, ◌<◌, ◌≢◌, ◌≡◌, ◌⊎◌, ◌↔◌, refl, ◌==◌, true, false, ltb, if◌then◌else◌, [], ◌∷◌,
  ◌%◌, ◌^◌, none, some, arith, some_eq, absurd_none, ℕ_discrete, ap, sym,
}
use koros.Base.OrdMap.{get, nat_key}
use koros.Base.Result.{Result, ok, err}
use koros.Korix.Mm.{
  Pages, Machine, MapError, out_of_memory, page_size, page_of, steps, unmap_range, replace_zeroed,
  map_zeroed, validate_range, translate, unmap_each, mapped_in, unaligned, overflows, contains,
  validate_from, permits,
}
use koros.Korix.Mm.Range.{Permitted, validate_range_lem}
use koros.Korix.Mm.Valid.{IsValid, IsValid-replace_zeroed}
use koros.Korix.Mm.Unmap.{unmap_range-removes, map_zeroed-maps}

abbrev change : ℕ → Result MapError (Unit {0}) × ℕ
change s = if ltb s 100 then (ok tt, s + 1) else (err out_of_memory, s)

abbrev counting : Machine
counting = record {
  State = ℕ;
  alloc_frame = λ s. (some (s * page_size), s + 1);
  free_frame = λ phys s. s;
  map_page = λ vaddr phys flags s. change s;
  unmap_page = λ vaddr s. change s;
  zero_page = λ phys s. s;
  write_bytes = λ phys bytes s. s;
}

-- Two pages that can be read and written, and one that can only be read.
abbrev three : Pages
three =
    (4096, record { phys = 0; flags = 11 })
    ∷ (8192, record { phys = 4096; flags = 11 })
    ∷ (12288, record { phys = 8192; flags = 9 })
    ∷ []

reads_all : validate_range (2 ^ 38) three 5000 9000 false ≡ true
unfolding validate_range validate_from permits contains overflows get
reads_all = refl

writes_not_all : validate_range (2 ^ 38) three 5000 9000 true ≡ false
unfolding validate_range validate_from permits contains overflows get
writes_not_all = refl

unmaps : (unmap_range counting three 4096 5000 0).0 ≡ ok tt
unfolding unmap_range unmap_each mapped_in steps get unaligned overflows
unmaps = refl

-- A valid map of one page.
abbrev one : Pages
one = (4096, record { phys = 0; flags = 11 }) ∷ []

one-IsValid : IsValid (2 ^ 38) one
unfolding get contains IsValid
one-IsValid vaddr page h = elim (ℕ_discrete vaddr 4096) [
  | yes e ↦
      let same : (vaddr == 4096) ≡ true = ground arith in
      let p = some_eq (rw (same, get) at h) in
      ((ap (λ v. v % page_size) e, omega arith), ap (λ q. contains q.flags 8) (sym p))
  | no n ↦
      let other : (vaddr == 4096) ≡ false = ground arith in
      absurd (absurd_none (rw (other, get) at h))
]

validate_range_lem_example :
    (validate_range (2 ^ 38) three 5000 9000 true ≡ true) ↔ Permitted three true (2 ^ 38) 5000 9000
validate_range_lem_example =
    validate_range_lem three true (2 ^ 38) 5000 9000 (omega arith) (omega arith)

IsValid-replace_zeroed_example :
    IsValid (2 ^ 38) (replace_zeroed counting (2 ^ 38) one 4096 8192 11 0).1.0
IsValid-replace_zeroed_example =
    IsValid-replace_zeroed (2 ^ 38) counting one 4096 8192 11 0 one-IsValid

unmap_range-removes_example :
    (let pages' = (unmap_range counting three 4096 5000 0).1.0 in
      ((x : ℕ) → 4096 ≤ x → x < 9096 → get (page_of x) pages' ≡ none)
      × ((v : ℕ) → (v + page_size ≤ 4096) ⊎ (9096 ≤ v) → get v pages' ≡ get v three))
unmap_range-removes_example = unmap_range-removes counting three 4096 5000 0 unmaps

map_zeroed-maps_example :
    (let out = map_zeroed counting (2 ^ 38) three 16384 11 0 in
      ((phys : ℕ) × (out.0 ≡ ok phys)
        × (get 16384 three ≡ none)
        × ((x : ℕ) → page_of x ≡ 16384 → translate out.1.0 x ≡ some (phys + x % page_size))
        × ((v : ℕ) → 16384 ≢ v → get v out.1.0 ≡ get v three))
      ⊎ ((x : MapError) × (out.0 ≡ err x) × (out.1.0 ≡ three)))
map_zeroed-maps_example = map_zeroed-maps counting (2 ^ 38) three 16384 11 0
