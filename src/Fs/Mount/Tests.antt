-- ===== src/Fs/Mount/Tests.antt =====
-- A root file system 1 and a second one 2 at `/m`.
use koros.Base.{ℕ, [], ◌∷◌, none, some, ◌≡◌, refl, true, if◌then◌else◌, ◌==◌, ◌≤◌, ◌⊎◌, length}
use koros.Base.OrdMap.{Bytes, bytes_eq, bytes_key, get, insert, IsOrdered}
use koros.Base.Result.{Result, ok, err}
use koros.Kor.Vfs.{FsError}
use koros.Fs.Mount.{
  trim_end, starts_with, ends_with_slash, is_slash, canonicalize_mount_path, is_mount_prefix,
  MountTable, mount, unmount, rfind, resolve_mount, longest_prefix, mount_fs, unmount_fs,
}
use koros.Fs.Mount.Prefix.{resolve_mount_longest}
use koros.Fs.Mount.Calls.{unmount-mount, mount_fs_atomic, unmount_fs_atomic}

abbrev root : Bytes
root = 47 ∷ []

abbrev m_path : Bytes
m_path = 47 ∷ 109 ∷ []

abbrev just_root : MountTable ℕ
just_root = (root, 1) ∷ []

abbrev both : MountTable ℕ
both = (root, 1) ∷ (m_path, 2) ∷ []

both-IsOrdered : IsOrdered both
both-IsOrdered = ((refl, tt), (tt, tt))

-- `/m/x/`
abbrev inner : Bytes
inner = 47 ∷ 109 ∷ 47 ∷ 120 ∷ 47 ∷ []

inner_mount : resolve_mount both inner ≡ some 2
unfolding resolve_mount rfind canonicalize_mount_path trim_end is_mount_prefix starts_with
    ends_with_slash is_slash
inner_mount = refl

resolve_mount_longest_example :
    (m : Bytes) × (get m both ≡ some 2)
    × (longest_prefix both inner ≡ some m)
    × (is_mount_prefix m (canonicalize_mount_path inner) ≡ true)
    × ((m' : Bytes) (fs' : ℕ)
        → get m' both ≡ some fs'
        → is_mount_prefix m' (canonicalize_mount_path inner) ≡ true
        → length m' ≤ length m)
resolve_mount_longest_example = resolve_mount_longest both inner 2 both-IsOrdered inner_mount

mounted : mount just_root m_path 2 ≡ ok both
unfolding mount canonicalize_mount_path trim_end get insert
mounted = refl

-- `/m/` has the same normal form as `/m`.
abbrev m_slash : Bytes
m_slash = 47 ∷ 109 ∷ 47 ∷ []

same_form : canonicalize_mount_path m_slash ≡ canonicalize_mount_path m_path
unfolding canonicalize_mount_path trim_end
same_form = refl

unmount-mount_example :
    ((m : Bytes)
      → get m both
        ≡ (if bytes_eq (canonicalize_mount_path m_path) m then some 2 else get m just_root))
    × IsOrdered both
    × (unmount both m_slash ≡ ok just_root)
unmount-mount_example = unmount-mount just_root both m_path m_slash 2 (tt, tt) mounted same_form

-- A file system that fails when the world is 0, and counts the calls.
abbrev call : ℕ → ℕ → Result FsError (Unit {0}) × ℕ
call fs world = if world == 0 then (err FsError.io_error, 1) else (ok tt, 1)

mount_fs_atomic_example :
    ((mount_fs call just_root m_path 2 0).0 ≡ ok tt)
      × ((call 2 0).0 ≡ ok tt)
      × (mount just_root m_path 2 ≡ ok (mount_fs call just_root m_path 2 0).1)
    ⊎ ((e : FsError) × ((mount_fs call just_root m_path 2 0).0 ≡ err e)
        × ((mount_fs call just_root m_path 2 0).1 ≡ just_root))
mount_fs_atomic_example = mount_fs_atomic call just_root m_path 2 0 (tt, tt)

unmount_fs_atomic_run :
    ((fs : ℕ) × (get (canonicalize_mount_path m_slash) both ≡ some fs)
      × ((call fs 1).0 ≡ ok tt)
      × ((unmount_fs call both m_slash 1).0 ≡ ok tt)
      × ((m : Bytes)
          → get m (unmount_fs call both m_slash 1).1
            ≡ (if bytes_eq (canonicalize_mount_path m_slash) m then none else get m both)))
    ⊎ ((e : FsError) × ((unmount_fs call both m_slash 1).0 ≡ err e)
        × ((unmount_fs call both m_slash 1).1 ≡ both))
unmount_fs_atomic_run = unmount_fs_atomic call both m_slash 1
