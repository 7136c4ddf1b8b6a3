-- ===== src/Fs/Mount/Calls.antt =====
-- `mount` and `unmount` of the table, and the functions that call into a file system.
use koros.Base.{
  ◌⊎◌, if◌then◌else◌, List, none, some, ◌≡◌, refl, sym, ◌∙◌, ap, subst, arith, Option-cases, inl,
  inr,
}
use koros.Base.OrdMap.{
  Bytes, bytes_eq, bytes_key, get, insert, remove, IsOrdered, bytes_eq_iff, get-insert, get-remove,
  IsOrdered-insert, remove-insert,
}
use koros.Base.Result.{Result, ok, err, Result-cases}
use koros.Kor.Vfs.{FsError}
use koros.Fs.Mount.{canonicalize_mount_path, mount, unmount, mount_fs, unmount_fs}

module _ {Fs : Type 0} where
  mount_ok :
      (table mounted : List (Bytes × Fs)) (path : Bytes) (fs : Fs)
      → mount table path fs ≡ ok mounted
      → (get (canonicalize_mount_path path) table ≡ none)
        × (mounted ≡ insert (canonicalize_mount_path path) fs table)
  unfolding mount
  mount_ok table mounted path fs h =
      elim (Option-cases (get (canonicalize_mount_path path) table)) [
        | inl e ↦ (e, ground arith)
        | inr (old, e) ↦ ground arith
      ]

  unmount_again :
      (table rest : List (Bytes × Fs)) (again path : Bytes) (fs : Fs)
      → canonicalize_mount_path again ≡ canonicalize_mount_path path
      → get (canonicalize_mount_path path) table ≡ some fs
      → remove (canonicalize_mount_path path) table ≡ rest
      → unmount table again ≡ ok rest
  unfolding unmount
  unmount_again table rest again path fs same g r =
      rw (ap (λ p. get p table) same ∙ g, unmount) (ap (λ p. ok (remove p table)) same ∙ ap ok r)

  -- After a successful `mount`, the table has the file system at the normalized path and is otherwise
  -- the same; it stays ordered; and `unmount` of any path with the same normal form gives the table
  -- back as it was.
  pub unmount-mount :
      (table mounted : List (Bytes × Fs)) (path again : Bytes) (fs : Fs)
      → IsOrdered table
      → mount table path fs ≡ ok mounted
      → canonicalize_mount_path again ≡ canonicalize_mount_path path
      → ((m : Bytes)
          → get m mounted
            ≡ (if bytes_eq (canonicalize_mount_path path) m then some fs else get m table))
        × IsOrdered mounted
        × (unmount mounted again ≡ ok table)
  unfolding unmount
  unmount-mount table mounted path again fs o h same =
      let r = mount_ok table mounted path fs h in
      let p = canonicalize_mount_path path in
      let found : get p (insert p fs table) ≡ some fs =
        ground (arith, get-insert p p fs table, bytes_eq_iff p p) in
      (
        (λ m. rw r.1 (get-insert p m fs table)),
        subst IsOrdered (sym r.1) (IsOrdered-insert p fs table o),
        rw r.1 (
            unmount_again (insert p fs table) table again path fs same found
              (remove-insert p fs table r.0)),
      )

  module _ {World : Type 0} (call : Fs → World → Result FsError (Unit {0}) × World) where
    -- `mount` of a file system is all or nothing: it either succeeds, when the path was free and
    -- `on_mount` succeeded, and the table has the new entry; or it fails and the table is the old one.
    pub mount_fs_atomic :
        (table : List (Bytes × Fs)) (path : Bytes) (fs : Fs) (world : World)
        → IsOrdered table
        → ((mount_fs call table path fs world).0 ≡ ok tt)
            × ((call fs world).0 ≡ ok tt)
            × (mount table path fs ≡ ok (mount_fs call table path fs world).1)
          ⊎ ((e : FsError) × ((mount_fs call table path fs world).0 ≡ err e)
              × ((mount_fs call table path fs world).1 ≡ table))
    unfolding mount_fs
    mount_fs_atomic table path fs world o = elim (Result-cases (mount table path fs)) [
      | inr (e, h) ↦ inr (e, rw (h, mount_fs) refl, rw (h, mount_fs) refl)
      | inl (mounted, h) ↦ elim (Result-cases ((call fs world).0)) [
        | inl (u, c) ↦ inl (rw (h, c, mount_fs) refl, c, rw (h, c, mount_fs) refl)
        | inr (e, c) ↦
            let back = (unmount-mount table mounted path path fs o h refl).2 in
            inr (e, rw (h, c, back, mount_fs) refl, rw (h, c, back, mount_fs) refl)
      ]
    ]

    -- `unmount` of a file system either succeeds, when it was mounted and `on_unmount` succeeded, and
    -- then exactly its entry is gone; or it fails and the table is the old one.
    pub unmount_fs_atomic :
        (table : List (Bytes × Fs)) (path : Bytes) (world : World)
        → ((fs : Fs) × (get (canonicalize_mount_path path) table ≡ some fs)
            × ((call fs world).0 ≡ ok tt)
            × ((unmount_fs call table path world).0 ≡ ok tt)
            × ((m : Bytes)
                → get m (unmount_fs call table path world).1
                  ≡ (if bytes_eq (canonicalize_mount_path path) m then none else get m table)))
          ⊎ ((e : FsError) × ((unmount_fs call table path world).0 ≡ err e)
              × ((unmount_fs call table path world).1 ≡ table))
    unfolding unmount_fs
    unmount_fs_atomic table path world =
        elim (Option-cases (get (canonicalize_mount_path path) table)) [
          | inl g ↦ inr (FsError.not_found, rw (g, unmount_fs) refl, rw (g, unmount_fs) refl)
          | inr (fs, g) ↦ elim (Result-cases ((call fs world).0)) [
            | inr (e, c) ↦ inr (e, rw (g, c, unmount_fs) refl, rw (g, c, unmount_fs) refl)
            | inl (u, c) ↦
                let gone = unmount_again table _ path path fs refl g refl in
                inl (
                  fs,
                  g,
                  c,
                  rw (g, c, gone, unmount_fs) refl,
                  λ m.
                      rw (g, c, gone, unmount_fs)
                        (get-remove (canonicalize_mount_path path) m table),
                )
          ]
        ]
