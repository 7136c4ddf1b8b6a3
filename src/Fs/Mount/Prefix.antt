-- ===== src/Fs/Mount/Prefix.antt =====
-- The mount point that a path belongs to.
use koros.Base.{
  ◌≤◌, true, false, List, [], ◌∷◌, none, some, length, ◌≡◌, refl, sym, ◌∙◌, ap, subst, arith,
  Bool-cases, Option-cases, inl, inr, some_eq, absurd_none,
}
use koros.Base.OrdMap.{Bytes, bytes_eq, bytes_lt, bytes_key, get, IsOrdered, IsAbove, bytes_eq_iff}
use koros.Fs.Mount.{
  starts_with, is_mount_prefix, canonicalize_mount_path, rfind, resolve_mount, longest_prefix,
}

starts_with_self : (s : Bytes) → starts_with s s ≡ true
unfolding starts_with
starts_with_self [] = refl
starts_with_self (c ∷ cs) = ground (arith, starts_with_self cs)

-- A mount prefix is a prefix.
is_mount_prefix_starts :
    (m canonical : Bytes) → is_mount_prefix m canonical ≡ true → starts_with canonical m ≡ true
unfolding is_mount_prefix
is_mount_prefix_starts m canonical h = elim (Bool-cases (bytes_eq canonical m)) [
  | inl e ↦
      subst (λ s. starts_with canonical s ≡ true) ((bytes_eq_iff canonical m).0 e)
        (starts_with_self canonical)
  | inr e ↦ ground arith
]

-- A prefix does not stand above the whole.
starts_with_le : (s p : Bytes) → starts_with s p ≡ true → bytes_lt s p ≡ false
unfolding starts_with
starts_with_le [] [] h = refl
starts_with_le (c ∷ cs) [] h = refl
starts_with_le [] (p ∷ ps) h = cc
starts_with_le (c ∷ cs) (p ∷ ps) h = ground (arith, starts_with_le cs ps)

-- Of two prefixes, the one below is the shorter.
prefixes_le :
    (s p q : Bytes)
    → starts_with s p ≡ true
    → starts_with s q ≡ true
    → bytes_lt p q ≡ true
    → length p ≤ length q
unfolding starts_with
prefixes_le s [] q h k l = omega arith
prefixes_le [] (p ∷ ps) q h k l = cc
prefixes_le (c ∷ cs) (p ∷ ps) [] h k l = cc
prefixes_le (c ∷ cs) (p ∷ ps) (q ∷ qs) h k l = ground (arith, prefixes_le cs ps qs)

module _ {Fs : Type 0} where
  rfind-none :
      (canonical m : Bytes) (fs : Fs) (table : List (Bytes × Fs))
      → rfind canonical table ≡ none
      → get m table ≡ some fs
      → is_mount_prefix m canonical ≡ false
  unfolding rfind get
  rfind-none canonical m fs [] h g = cc
  rfind-none canonical m fs ((n, x) ∷ table) h g = ground (
    arith,
    bytes_eq_iff m n,
    starts_with_le canonical n,
    is_mount_prefix_starts n canonical,
    rfind-none canonical m fs table,
  )

  get-IsAbove :
      (k m : Bytes) (fs : Fs) (table : List (Bytes × Fs))
      → IsAbove k table
      → get m table ≡ some fs
      → bytes_lt k m ≡ true
  unfolding get
  get-IsAbove k m fs [] a g = cc
  get-IsAbove k m fs ((n, x) ∷ table) a g =
      ground (arith, bytes_eq_iff m n, get-IsAbove k m fs table a.1)

  rfind-some :
      (canonical m : Bytes) (fs : Fs) (table : List (Bytes × Fs))
      → IsOrdered table
      → rfind canonical table ≡ some (m, fs)
      → (get m table ≡ some fs) × (is_mount_prefix m canonical ≡ true)
  unfolding rfind get
  rfind-some canonical m fs [] o h = cc
  rfind-some canonical m fs ((n, x) ∷ table) o h = elim (Option-cases (rfind canonical table)) [
    | inl e ↦ ground (arith, bytes_eq_iff m n)
    | inr ((p, y), e) ↦
        let same = some_eq (rw (e, rfind) at h) in
        let later = rfind-some canonical m fs table o.1 (e ∙ ap some same) in
        let above = get-IsAbove n m fs table o.0 later.0 in
        ground (arith, later, above, bytes_key.ltb_ne n m, bytes_eq_iff n m, bytes_eq_iff m n)
  ]

  rfind_longest :
      (canonical m m' : Bytes) (fs fs' : Fs) (table : List (Bytes × Fs))
      → IsOrdered table
      → rfind canonical table ≡ some (m, fs)
      → get m' table ≡ some fs'
      → is_mount_prefix m' canonical ≡ true
      → length m' ≤ length m
  unfolding rfind get
  rfind_longest canonical m m' fs fs' [] o h g p = cc
  rfind_longest canonical m m' fs fs' ((n, x) ∷ table) o h g p =
      elim (Option-cases (rfind canonical table)) [
        | inl e ↦ ground (arith, bytes_eq_iff m' n, rfind-none canonical m' fs' table e)
        | inr ((q, y), e) ↦
            let same = some_eq (rw (e, rfind) at h) in
            let rest = e ∙ ap some same in
            let found = rfind-some canonical m fs table o.1 rest in
            ground (
              arith,
              bytes_eq_iff m' n,
              found,
              get-IsAbove n m fs table o.0 found.0,
              is_mount_prefix_starts m canonical found.1,
              is_mount_prefix_starts m' canonical p,
              prefixes_le canonical m' m,
              rfind_longest canonical m m' fs fs' table o.1 rest,
            )
      ]

  -- `resolve_mount` finds the file system at the longest mount prefix of the path: its mount point is a
  -- prefix, `longest_prefix` names it, and every mounted prefix is at most as long.
  pub resolve_mount_longest :
      (table : List (Bytes × Fs)) (path : Bytes) (fs : Fs)
      → IsOrdered table
      → resolve_mount table path ≡ some fs
      → (m : Bytes) × (get m table ≡ some fs)
        × (longest_prefix table path ≡ some m)
        × (is_mount_prefix m (canonicalize_mount_path path) ≡ true)
        × ((m' : Bytes) (fs' : Fs)
            → get m' table ≡ some fs'
            → is_mount_prefix m' (canonicalize_mount_path path) ≡ true
            → length m' ≤ length m)
  unfolding resolve_mount longest_prefix
  resolve_mount_longest table path fs o h =
      elim (Option-cases (rfind (canonicalize_mount_path path) table)) [
        | inl e ↦ absurd (absurd_none (rw (e, resolve_mount) at h))
        | inr ((m, x), e) ↦
            let same : x ≡ fs = some_eq (rw (e, resolve_mount) at h) in
            let here : rfind (canonicalize_mount_path path) table ≡ some (m, fs) =
              e ∙ ap (λ y. some (m, y)) same in
            let found = rfind-some (canonicalize_mount_path path) m fs table o here in
            (
              m,
              found.0,
              rw (e, longest_prefix) refl,
              found.1,
              λ m' fs' g p.
                  rfind_longest (canonicalize_mount_path path) m m' fs fs' table o here g p,
            )
      ]

  -- `resolve_mount` finds nothing only if no mounted path is a prefix of the path.
  pub resolve_mount-none :
      (table : List (Bytes × Fs)) (path m : Bytes) (fs : Fs)
      → resolve_mount table path ≡ none
      → get m table ≡ some fs
      → is_mount_prefix m (canonicalize_mount_path path) ≡ false
  unfolding resolve_mount
  resolve_mount-none table path m fs h g =
      elim (Option-cases (rfind (canonicalize_mount_path path) table)) [
        | inl e ↦ rfind-none (canonicalize_mount_path path) m fs table e g
        | inr ((n, x), e) ↦ absurd (absurd_none (sym (rw (e, resolve_mount) at h)))
      ]
