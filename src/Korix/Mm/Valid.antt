-- ===== src/Korix/Mm/Valid.antt =====
-- The invariant of an address space, kept by every operation that changes it.
use koros.Base.{
  ℕ, zero, suc, ◌+◌, ◌-◌, ◌*◌, ◌/◌, ◌%◌, ◌≤◌, ◌<◌, ◌≡◌, refl, sym, ◌∙◌, ◌==◌, ltb, leb, ◌||◌, true,
  false, List, [], ◌∷◌, some, subst, arith, inl, inr, Bool-cases, Option-cases, not, some_eq,
  absurd_none, ℕ_discrete,
}
use koros.Base.OrdMap.{get, insert, remove, nat_key, get-insert, get-remove}
use koros.Base.Result.{Result-cases}
use koros.Korix.Mm.{
  VmPage, Pages, Machine, page_size, user, contains, steps, is_some, unaligned, overflows,
  insert_all, remove_all, mapped_in, all_mapped, with_flags, fresh_pages, map_fresh, map_zeroed,
  alloc_fresh, exchange, unmap_each, replace_zeroed, protect_range, unmap_range,
}

module _ (limit : ℕ) where
  -- A page is aligned, lies below the limit, and is a user page.
  abbrev pub Placed : ℕ → Type 0
  Placed vaddr = (vaddr % page_size ≡ 0) × (vaddr < limit)

  abbrev pub IsUserPage : ℕ → VmPage → Type 0
  IsUserPage vaddr page = Placed vaddr × (contains page.flags user ≡ true)

  unfoldable pub IsValid : Pages → Type 0
  IsValid pages = (vaddr : ℕ) (page : VmPage) → get vaddr pages ≡ some page → IsUserPage vaddr page

  abbrev AllPlaced : List ℕ → Type 0
  AllPlaced [] = Unit {0}
  AllPlaced (vaddr ∷ vaddrs) = Placed vaddr × AllPlaced vaddrs

  abbrev AllUser : List (ℕ × VmPage) → Type 0
  AllUser [] = Unit {0}
  AllUser ((vaddr, page) ∷ rest) = IsUserPage vaddr page × AllUser rest

  IsValid-insert :
      (vaddr : ℕ) (page : VmPage) (pages : Pages)
      → IsUserPage vaddr page
      → IsValid pages
      → IsValid (insert vaddr page pages)
  unfolding IsValid
  IsValid-insert vaddr page pages u v j p h = elim (ℕ_discrete vaddr j) [
    | yes e ↦
        let same : (vaddr == j) ≡ true = ground arith in
        let at : get j (insert vaddr page pages) ≡ some page =
          get-insert vaddr j page pages ∙ rw same refl in
        subst (λ q. IsUserPage j q) (some_eq (sym at ∙ h)) (subst (λ i. IsUserPage i page) e u)
    | no n ↦
        let other : (vaddr == j) ≡ false = ground arith in
        v j p (sym (get-insert vaddr j page pages ∙ rw other refl) ∙ h)
  ]

  IsValid-remove : (vaddr : ℕ) (pages : Pages) → IsValid pages → IsValid (remove vaddr pages)
  unfolding IsValid
  IsValid-remove vaddr pages v j p h = elim (Bool-cases (vaddr == j)) [
    | inl e ↦ absurd (absurd_none (sym (get-remove vaddr j pages ∙ rw e refl) ∙ h))
    | inr e ↦ v j p (sym (get-remove vaddr j pages ∙ rw e refl) ∙ h)
  ]

  IsValid-insert_all :
      (new : List (ℕ × VmPage)) (pages : Pages)
      → AllUser new
      → IsValid pages
      → IsValid (insert_all new pages)
  unfolding insert_all
  IsValid-insert_all [] pages u v = v
  IsValid-insert_all ((vaddr, page) ∷ rest) pages u v =
      IsValid-insert_all rest (insert vaddr page pages) u.1 (IsValid-insert vaddr page pages u.0 v)

  IsValid-remove_all :
      (old : List (ℕ × VmPage)) (pages : Pages) → IsValid pages → IsValid (remove_all old pages)
  unfolding remove_all
  IsValid-remove_all [] pages v = v
  IsValid-remove_all ((vaddr, page) ∷ rest) pages v =
      IsValid-remove_all rest (remove vaddr pages) (IsValid-remove vaddr pages v)

  steps-AllPlaced :
      (start count : ℕ)
      → start % page_size ≡ 0
      → start + count * page_size ≤ limit
      → AllPlaced (steps start count)
  unfolding steps
  steps-AllPlaced start zero a h = tt
  steps-AllPlaced start (suc count) a h =
      ((a, omega arith), steps-AllPlaced (start + page_size) count (omega arith) (omega arith))

  fresh_pages-AllUser :
      (vaddrs frames : List ℕ) (flags : ℕ)
      → contains flags user ≡ true
      → AllPlaced vaddrs
      → AllUser (fresh_pages vaddrs frames flags)
  unfolding fresh_pages
  fresh_pages-AllUser [] frames flags u p = tt
  fresh_pages-AllUser (vaddr ∷ vaddrs) [] flags u p = tt
  fresh_pages-AllUser (vaddr ∷ vaddrs) (phys ∷ frames) flags u p =
      ((p.0, u), fresh_pages-AllUser vaddrs frames flags u p.1)

  with_flags-AllUser :
      (pages : Pages) (vaddrs : List ℕ) (old : List (ℕ × VmPage)) (flags : ℕ)
      → contains flags user ≡ true
      → AllPlaced vaddrs
      → all_mapped pages vaddrs ≡ some old
      → AllUser (with_flags flags old)
  unfolding all_mapped with_flags
  with_flags-AllUser pages [] old flags u p h =
      subst (λ l. AllUser (with_flags flags l)) (some_eq h) tt
  with_flags-AllUser pages (vaddr ∷ vaddrs) old flags u p h =
      elim (Option-cases (get vaddr pages)) [
        | inl e ↦ absurd (absurd_none (rw (e, all_mapped) at h))
        | inr (page, e) ↦ elim (Option-cases (all_mapped pages vaddrs)) [
          | inl k ↦ absurd (absurd_none (rw (e, k, all_mapped) at h))
          | inr (rest, k) ↦
              subst (λ l. AllUser (with_flags flags l)) (some_eq (rw (e, k, all_mapped) at h))
                ((p.0, u), with_flags-AllUser pages vaddrs rest flags u p.1 k)
        ]
      ]

  module _ (M : Machine) where
    -- Mapping a zeroed page keeps the invariant.
    pub IsValid-map_zeroed :
        (pages : Pages) (vaddr flags : ℕ) (s : M.State)
        → IsValid pages
        → IsValid (map_zeroed M limit pages vaddr flags s).1.0
    unfolding map_zeroed unaligned
    IsValid-map_zeroed pages vaddr flags s v =
        elim (Bool-cases (unaligned vaddr || leb limit vaddr || not (contains flags user))) [
          | inl e ↦ rw (e, map_zeroed) v
          | inr e ↦ elim (Bool-cases (is_some (get vaddr pages))) [
            | inl f ↦ rw (e, f, map_zeroed) v
            | inr f ↦ elim (Result-cases (map_fresh M vaddr flags s).0) [
              | inr (x, k) ↦ rw (e, f, k, map_zeroed) v
              | inl (phys, k) ↦
                  rw (e, f, k, map_zeroed)
                    (IsValid-insert vaddr (record { phys = phys; flags = flags }) pages
                      ((ground arith, ground arith), ground arith) v)
            ]
          ]
        ]

    -- Replacing a range by zeroed pages keeps the invariant.
    pub IsValid-replace_zeroed :
        (pages : Pages) (start length flags : ℕ) (s : M.State)
        → IsValid pages
        → IsValid (replace_zeroed M limit pages start length flags s).1.0
    unfolding replace_zeroed unaligned
    IsValid-replace_zeroed pages start length flags s v =
        let refused =
          (unaligned start || length == 0 || unaligned length)
          || (overflows start length || ltb limit (start + length) || not (contains flags user)) in
        let range = steps start (length / page_size) in
        let fresh = alloc_fresh M (length / page_size) [] s in
        elim (Bool-cases refused) [
          | inl e ↦ rw (e, replace_zeroed) v
          | inr e ↦ elim (Option-cases fresh.0) [
            | inl k ↦ rw (e, k, replace_zeroed) v
            | inr (frames, k) ↦
                let new = fresh_pages range frames flags in
                elim (Result-cases (exchange M true new (mapped_in pages range) fresh.1).0) [
                  | inr (x, q) ↦ rw (e, k, q, replace_zeroed) v
                  | inl (u, q) ↦
                      rw (e, k, q, replace_zeroed)
                        (IsValid-insert_all new pages
                          (fresh_pages-AllUser range frames flags (ground arith) (
                            steps-AllPlaced start (length / page_size) (ground arith)
                              (below start length e)))
                          v)
                ]
          ]
        ]
      where
        below :
            (start length : ℕ)
            → ((unaligned start || length == 0 || unaligned length)
                || (overflows start length
                    || ltb limit (start + length)
                    || not (contains flags user)))
              ≡ false
            → start + length / page_size * page_size ≤ limit
        below start length e = let b : start + length ≤ limit = ground arith in omega arith

    -- Changing the protection of a range keeps the invariant.
    pub IsValid-protect_range :
        (pages : Pages) (start length flags : ℕ) (s : M.State)
        → IsValid pages
        → IsValid (protect_range M limit pages start length flags s).1.0
    unfolding protect_range unaligned
    IsValid-protect_range pages start length flags s v =
        let refused =
          (unaligned start || length == 0 || unaligned length || not (contains flags user))
          || (overflows start length || ltb limit (start + length)) in
        let range = steps start (length / page_size) in
        elim (Bool-cases refused) [
          | inl e ↦ rw (e, protect_range) v
          | inr e ↦ elim (Option-cases (all_mapped pages range)) [
            | inl k ↦ rw (e, k, protect_range) v
            | inr (old, k) ↦ elim (Result-cases (exchange M false (with_flags flags old) old s).0) [
              | inr (x, q) ↦ rw (e, k, q, protect_range) v
              | inl (u, q) ↦
                  rw (e, k, q, protect_range)
                    (IsValid-insert_all (with_flags flags old) pages
                      (with_flags-AllUser pages range old flags (ground arith)
                        (steps-AllPlaced start (length / page_size) (ground arith)
                          (below start length e))
                        k)
                      v)
            ]
          ]
        ]
      where
        below :
            (start length : ℕ)
            → ((unaligned start || length == 0 || unaligned length || not (contains flags user))
                || (overflows start length || ltb limit (start + length)))
              ≡ false
            → start + length / page_size * page_size ≤ limit
        below start length e = let b : start + length ≤ limit = ground arith in omega arith

    -- Unmapping a range keeps the invariant.
    pub IsValid-unmap_range :
        (pages : Pages) (start length : ℕ) (s : M.State)
        → IsValid pages
        → IsValid (unmap_range M pages start length s).1.0
    unfolding unmap_range
    IsValid-unmap_range pages start length s v =
        let old = mapped_in pages (steps start ((length + page_size - 1) / page_size)) in
        elim (Bool-cases (unaligned start || overflows start length)) [
          | inl e ↦ rw (e, unmap_range) v
          | inr e ↦ elim (Result-cases (unmap_each M old s).0) [
            | inr (x, q) ↦ rw (e, q, unmap_range) v
            | inl (u, q) ↦ rw (e, q, unmap_range) (IsValid-remove_all old pages v)
          ]
        ]
