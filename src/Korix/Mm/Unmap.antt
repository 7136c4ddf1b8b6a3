-- ===== src/Korix/Mm/Unmap.antt =====
-- What `unmap_range` and `map_zeroed` leave in the map of pages.
use koros.Base.{
  ℕ, zero, suc, ◌+◌, ◌-◌, ◌*◌, ◌/◌, ◌%◌, ◌≤◌, ◌<◌, ◌≡◌, ◌≢◌, refl, sym, ◌∙◌, ap, ◌==◌, ltb, leb,
  ◌||◌, ◌&&◌, Bool, true, false, if◌then◌else◌, List, [], ◌∷◌, Option, none, some, arith, inl, inr,
  Bool-cases, Option-cases, not, ◌⊎◌, ℕ_discrete,
}
use koros.Base.OrdMap.{get, insert, remove, nat_key, get-insert, get-remove}
use koros.Base.Result.{ok, err, Result-cases, absurd_ok}
use koros.Korix.Mm.{
  VmPage, Pages, Machine, MapError, page_size, page_of, user, contains, steps, is_some, unaligned,
  overflows, remove_all, mapped_in, unmap_each, unmap_range, map_fresh, map_zeroed, translate,
  blocked_by_existing_mapping,
}

-- The address is one of the list.
abbrev pub listed : ℕ → List ℕ → Bool
listed v [] = false
listed v (x ∷ xs) = x == v || listed v xs

get-remove_all :
    (pages : Pages) (vaddrs : List ℕ) (rest : Pages) (v : ℕ)
    → ((x : ℕ) → get x pages ≡ none → get x rest ≡ none)
    → get v (remove_all (mapped_in pages vaddrs) rest)
      ≡ (if listed v vaddrs then none else get v rest)
unfolding remove_all mapped_in
get-remove_all pages [] rest v h = refl
get-remove_all pages (x ∷ xs) rest v h = elim (Option-cases (get x pages)) [
  | inl e ↦ rw (e, mapped_in) (get-remove_all pages xs rest v h ∙ missing v x xs rest (h x e))
  | inr (page, e) ↦
      rw (e, mapped_in)
        (get-remove_all pages xs (remove x rest) v
            (λ j k. get-remove x j rest ∙ gone x j (get j rest) (h j k))
          ∙ removed v x xs rest)
]
  where
    missing :
        (v x : ℕ) (xs : List ℕ) (rest : Pages)
        → get x rest ≡ none
        → (if listed v xs then none else get v rest)
          ≡ (if x == v || listed v xs then none else get v rest)
    missing v x xs rest k = elim (ℕ_discrete x v) [
      | no n ↦ let other : (x == v) ≡ false = ground arith in rw other refl
      | yes p ↦
          let same : (x == v) ≡ true = ground arith in
          rw same (either (listed v xs) (get v rest) (ap (λ j. get j rest) (sym p) ∙ k))
    ]
      where
        either : (b : Bool) (r : Option VmPage) → r ≡ none → (if b then none else r) ≡ none
        either true r e = refl
        either false r e = e

    gone : (x j : ℕ) (r : Option VmPage) → r ≡ none → (if x == j then none else r) ≡ none
    gone x j r k = ground arith

    removed :
        (v x : ℕ) (xs : List ℕ) (rest : Pages)
        → (if listed v xs then none else get v (remove x rest))
          ≡ (if x == v || listed v xs then none else get v rest)
    removed v x xs rest = ground (arith, get-remove x v rest)

listed-steps :
    (v start count : ℕ)
    → start % page_size ≡ 0
    → listed v (steps start count)
      ≡ (v % page_size == 0 && (leb start v && ltb v (start + count * page_size)))
unfolding steps
listed-steps v start zero a = ground arith
listed-steps v start (suc count) a =
    let rest = listed-steps v (start + page_size) count (omega arith) in
    elim (ℕ_discrete start v) [
      | yes p ↦
          let same : (start == v) ≡ true = ground arith in
          let here : (v % page_size == 0 && (leb start v && ltb v (start + suc count * page_size)))
              ≡ true =
            ground arith in
          rw same (sym here)
      | no n ↦
          let other : (start == v) ≡ false = ground arith in
          rw (other, rest) (shifted v start count a n)
    ]
  where
    gap :
        (v start : ℕ)
        → start % page_size ≡ 0
        → start ≢ v
        → v % page_size ≡ 0
        → (v < start) ⊎ (start + page_size ≤ v)
    gap v start a n m = omega arith

    shifted :
        (v start count : ℕ)
        → start % page_size ≡ 0
        → start ≢ v
        → (v % page_size == 0
            && (leb (start + page_size) v && ltb v (start + page_size + count * page_size)))
          ≡ (v % page_size == 0 && (leb start v && ltb v (start + suc count * page_size)))
    shifted v start count a n = elim (ℕ_discrete (v % page_size) 0) [
      | no m ↦ let e : (v % page_size == 0) ≡ false = ground arith in rw e refl
      | yes m ↦
          let e : (v % page_size == 0) ≡ true = ground arith in
          rw e (ground (arith, gap v start a n m))
    ]

page_inside :
    (x start length : ℕ)
    → start % page_size ≡ 0
    → start ≤ x
    → x < start + length
    → (page_of x % page_size ≡ 0)
      × (start ≤ page_of x)
      × (page_of x < start + (length + page_size - 1) / page_size * page_size)
page_inside x start length a p q = (omega arith, omega arith, omega arith)

page_outside :
    (v start length : ℕ)
    → start % page_size ≡ 0
    → (v + page_size ≤ start) ⊎ (start + length ≤ v)
    → (v % page_size == 0
        && (leb start v && ltb v (start + (length + page_size - 1) / page_size * page_size)))
      ≡ false
page_outside v start length a p = elim (ℕ_discrete (v % page_size) 0) [
  | no m ↦ let e : (v % page_size == 0) ≡ false = ground arith in rw e refl
  | yes m ↦ let gap = beyond v start length a m p in ground (arith, gap)
]
  where
    beyond :
        (v start length : ℕ)
        → start % page_size ≡ 0
        → v % page_size ≡ 0
        → (v + page_size ≤ start) ⊎ (start + length ≤ v)
        → (v < start) ⊎ (start + (length + page_size - 1) / page_size * page_size ≤ v)
    beyond v start length a m p = omega arith

translated :
    (vaddr : ℕ) (page : VmPage) (pages : Pages) (x : ℕ)
    → page_of x ≡ vaddr
    → translate (insert vaddr page pages) x ≡ some (page.phys + x % page_size)
unfolding translate
translated vaddr page pages x p =
    let same : (vaddr == page_of x) ≡ true = ground arith in
    let at : get (page_of x) (insert vaddr page pages) ≡ some page =
      get-insert vaddr (page_of x) page pages ∙ rw same refl in
    rw (at, translate) refl

module _ (M : Machine) where
  done :
      (pages : Pages) (start length : ℕ) (s : M.State)
      → (unmap_range M pages start length s).0 ≡ ok tt
      → (start % page_size ≡ 0)
        × ((unmap_range M pages start length s).1.0
            ≡ remove_all
                (mapped_in pages (steps start ((length + page_size - 1) / page_size)))
                pages)
  unfolding unmap_range unaligned
  done pages start length s h =
      let old = mapped_in pages (steps start ((length + page_size - 1) / page_size)) in
      elim (Bool-cases (unaligned start || overflows start length)) [
        | inl e ↦ absurd (absurd_ok (rw (e, unmap_range) at h))
        | inr e ↦ elim (Result-cases (unmap_each M old s).0) [
          | inr (x, q) ↦ absurd (absurd_ok (rw (e, q, unmap_range) at h))
          | inl (u, q) ↦ (ground arith, rw (e, q, unmap_range) refl)
        ]
      ]

  -- After a successful `unmap_range` no address of the range is on a page that is mapped, and a page
  -- that holds no address of the range is as it was.
  pub unmap_range-removes :
      (pages : Pages) (start length : ℕ) (s : M.State)
      → (unmap_range M pages start length s).0 ≡ ok tt
      → (let pages' = (unmap_range M pages start length s).1.0 in
          ((x : ℕ) → start ≤ x → x < start + length → get (page_of x) pages' ≡ none)
          × ((v : ℕ) → (v + page_size ≤ start) ⊎ (start + length ≤ v) → get v pages' ≡ get v pages))
  unmap_range-removes pages start length s h =
      let (a, e) = done pages start length s h in
      let count = (length + page_size - 1) / page_size in
      let seen : (v : ℕ)
          → get v (unmap_range M pages start length s).1.0
            ≡ (if listed v (steps start count) then none else get v pages) =
        λ v. ap (get v) e ∙ get-remove_all pages (steps start count) pages v (λ x k. k) in
      (
        λ x p q.
            let inside : (page_of x % page_size == 0
                  && (leb start (page_of x) && ltb (page_of x) (start + count * page_size)))
                ≡ true =
              let (i, j, k) = page_inside x start length a p q in ground arith in
            seen (page_of x) ∙ rw (listed-steps (page_of x) start count a ∙ inside) refl,
        λ v p. seen v ∙ rw (listed-steps v start count a ∙ page_outside v start length a p) refl,
      )

  -- A page that was not mapped is mapped by a successful `map_zeroed`: every address on it translates
  -- into the new frame, and every other page is as it was. If the call fails, the map is the old one.
  pub map_zeroed-maps :
      (limit : ℕ) (pages : Pages) (vaddr flags : ℕ) (s : M.State)
      → (let out = map_zeroed M limit pages vaddr flags s in
          ((phys : ℕ) × (out.0 ≡ ok phys)
            × (get vaddr pages ≡ none)
            × ((x : ℕ) → page_of x ≡ vaddr → translate out.1.0 x ≡ some (phys + x % page_size))
            × ((v : ℕ) → vaddr ≢ v → get v out.1.0 ≡ get v pages))
          ⊎ ((x : MapError) × (out.0 ≡ err x) × (out.1.0 ≡ pages)))
  unfolding map_zeroed translate is_some
  map_zeroed-maps limit pages vaddr flags s =
      elim (Bool-cases (unaligned vaddr || leb limit vaddr || not (contains flags user))) [
        | inl e ↦ rw (e, map_zeroed) (inr (blocked_by_existing_mapping, refl, refl))
        | inr e ↦ elim (Option-cases (get vaddr pages)) [
          | inr (page, f) ↦ rw (e, f, map_zeroed) (inr (blocked_by_existing_mapping, refl, refl))
          | inl f ↦ elim (Result-cases (map_fresh M vaddr flags s).0) [
            | inr (x, k) ↦ rw (e, f, k, map_zeroed) (inr (x, refl, refl))
            | inl (phys, k) ↦
                let page : VmPage = record { phys = phys; flags = flags } in
                rw (e, f, k, map_zeroed)
                  (inl (
                    phys,
                    refl,
                    refl,
                    λ x p. translated vaddr page pages x p,
                    λ v n. get-insert vaddr v page pages ∙ rw (other v n) refl,
                  ))
          ]
        ]
      ]
    where
      other : (v : ℕ) → vaddr ≢ v → (vaddr == v) ≡ false
      other v n = ground arith
