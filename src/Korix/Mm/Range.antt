-- ===== src/Korix/Mm/Range.antt =====
-- What the checks of a range of addresses decide.
use koros.Base.{
  ℕ, zero, suc, ◌+◌, ◌-◌, ◌*◌, ◌/◌, ◌^◌, ◌≤◌, ◌<◌, ◌≡◌, ◌↔◌, refl, sym, ◌∙◌, ◌==◌, ltb, leb, ◌||◌,
  ◌&&◌, Bool, true, false, subst, arith,
}
use koros.Base.OrdMap.{get, nat_key}
use koros.Korix.Mm.{Pages, page_size, page_of, permits, validate_from, validate_range, overflows}

module _ (pages : Pages) (write : Bool) where
  -- Page `page` and the `n` pages behind it.
  abbrev Run : ℕ → ℕ → Type 0
  Run page n = (i : ℕ) → i ≤ n → permits (get (page + i * page_size) pages) write ≡ true

  more :
      (page n : ℕ)
      → permits (get page pages) write ≡ true
      → Run (page + page_size) n
      → Run page (suc n)
  more page n h r zero k = subst (λ p. permits (get p pages) write ≡ true) (omega arith) h
  more page n h r (suc i) k =
      subst (λ p. permits (get p pages) write ≡ true) (omega arith) (r i (omega arith))

  fewer : (page n : ℕ) → Run page (suc n) → Run (page + page_size) n
  fewer page n r i k =
      subst (λ p. permits (get p pages) write ≡ true) (omega arith) (r (suc i) (omega arith))

  first : (page n : ℕ) → Run page n → permits (get page pages) write ≡ true
  first page n r = subst (λ p. permits (get p pages) write ≡ true) (omega arith) (r 0 (omega arith))

  both : (a b : Bool) → (a && b) ≡ true → (a ≡ true) × (b ≡ true)
  both true true h = (refl, refl)
  both true false h = cc
  both false b h = cc

  validate_from_lem :
      (fuel n page last : ℕ)
      → n < fuel
      → last ≡ page + n * page_size
      → (validate_from fuel pages write page last ≡ true) ↔ Run page n
  unfolding validate_from
  validate_from_lem zero n page last h e = absurd (omega arith)
  validate_from_lem (suc fuel) zero page last h e =
      let here : (page == last) ≡ true = ground arith in
      (
        λ v i k.
            subst (λ p. permits (get p pages) write ≡ true) (omega arith)
              (both (permits (get page pages) write) _ v).0,
        λ r. rw (here, first page 0 r) refl,
      )
  validate_from_lem (suc fuel) (suc n) page last h e =
      let there : (page == last) ≡ false = ground arith in
      let rest = validate_from_lem fuel n (page + page_size) last (omega arith) (omega arith) in
      (
        λ v.
            let (a, b) = both (permits (get page pages) write) _ v in
            more page n a (rest.0 (other (page == last) _ there b)),
        λ r. rw (there, first page (suc n) r) (rest.1 (fewer page n r)),
      )
    where
      other : (a b : Bool) → a ≡ false → (a || b) ≡ true → b ≡ true
      other a b h k = ground arith

  -- Every address of the range lies below the limit, on a page that permits the access.
  abbrev pub Permitted : ℕ → ℕ → ℕ → Type 0
  Permitted limit address length =
      (address + length ≤ limit)
      × ((x : ℕ)
          → address ≤ x
          → x < address + length
          → permits (get (page_of x) pages) write ≡ true)

  guards :
      (limit address length : ℕ)
      → 0 < length
      → limit ≤ 2 ^ 48
      → address + length ≤ limit
      → validate_range limit pages address length write
        ≡ validate_from (suc length) pages write (page_of address) (page_of (address + length - 1))
  unfolding validate_range overflows
  guards limit address length p l h =
      let nonzero : (length == 0) ≡ false = ground arith in
      let fits : overflows address length ≡ false = ground arith in
      let inside : (leb limit address || ltb limit (address + length)) ≡ false = ground arith in
      rw (nonzero, fits, inside, validate_range) refl

  refused :
      (limit address length : ℕ)
      → 0 < length
      → validate_range limit pages address length write ≡ true
      → address + length ≤ limit
  unfolding validate_range
  refused limit address length p h = ground arith

  -- The number of the last page of the range, counted from the first, and where an address lies.
  abbrev last_page : ℕ → ℕ → ℕ
  last_page address length = (page_of (address + length - 1) - page_of address) / page_size

  last_place :
      (address length : ℕ)
      → 0 < length
      → (page_of (address + length - 1) ≡ page_of address + last_page address length * page_size)
        × (last_page address length < suc length)
  last_place address length p = (omega arith, omega arith)

  place :
      (address length x : ℕ)
      → address ≤ x
      → x < address + length
      → (page_of x ≡ page_of address + (page_of x - page_of address) / page_size * page_size)
        × ((page_of x - page_of address) / page_size ≤ last_page address length)
  place address length x h k = (omega arith, omega arith)

  -- An address of the range on each of its pages.
  witness :
      (address length i : ℕ)
      → 0 < length
      → i ≤ last_page address length
      → (x : ℕ) × (address ≤ x)
        × (x < address + length)
        × (page_of x ≡ page_of address + i * page_size)
  witness address length zero p h = (address, omega arith, omega arith, omega arith)
  witness address length (suc i) p h =
      (page_of address + suc i * page_size, omega arith, omega arith, omega arith)

  -- `validate_range` of a range that is not empty decides whether every address of the range lies
  -- below the limit and on a page that is mapped, and writable where that is asked for. The limit is
  -- at most 2^48, as on each architecture.
  pub validate_range_lem :
      (limit address length : ℕ)
      → 0 < length
      → limit ≤ 2 ^ 48
      → (validate_range limit pages address length write ≡ true) ↔ Permitted limit address length
  validate_range_lem limit address length p l =
      let (e, n) = last_place address length p in
      let run =
        validate_from_lem (suc length) (last_page address length) (page_of address)
          (page_of (address + length - 1)) n e in
      (
        λ v.
            let bound = refused limit address length p v in
            (
              bound,
              λ x h k.
                  let (q, m) = place address length x h k in
                  subst (λ y. permits (get y pages) write ≡ true) (sym q)
                    (run.0 (sym (guards limit address length p l bound) ∙ v)
                      ((page_of x - page_of address) / page_size) m),
            ),
        λ (bound, h).
            guards limit address length p l bound
            ∙ run.1 (λ i k.
              let (x, a, b, q) = witness address length i p k in
              subst (λ y. permits (get y pages) write ≡ true) q (h x a b)),
      )
