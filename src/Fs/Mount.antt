-- ===== src/Fs/Mount.antt =====
-- filesystems/kor-fs/src/mount.rs: the mount table. A file system is a handle; what its methods
-- `on_mount`, `on_unmount` and `sync` do to the world behind it is a parameter.
pub mod Prefix
pub mod Calls
mod Tests
use koros.Base.{
  ℕ, zero, suc, ◌==◌, Bool, true, false, not, ◌&&◌, ◌||◌, if◌then◌else◌, List, [], ◌∷◌, Option,
  none, some, length, get_elem?, drop,
}
use koros.Base.OrdMap.{Bytes, bytes_eq, bytes_lt, bytes_key, get, insert, remove}
use koros.Base.Result.{Result, ok, err}
use koros.Kor.Vfs.{FsError, INode}
use koros.Fs.Path.{slash, trim_start, Outcome, resolve_path}

-- `trim_end_matches('/')`
pub trim_end : Bytes → Bytes
trim_end [] = []
trim_end (c ∷ cs) = elim (trim_end cs) [
  | [] ↦ (if c == slash then [] else c ∷ [])
  | d ∷ ds ↦ c ∷ d ∷ ds
]

pub starts_with : Bytes → Bytes → Bool
starts_with s [] = true
starts_with [] (p ∷ ps) = false
starts_with (c ∷ cs) (p ∷ ps) = c == p && starts_with cs ps

pub ends_with_slash : Bytes → Bool
ends_with_slash [] = false
ends_with_slash (c ∷ []) = c == slash
ends_with_slash (c ∷ d ∷ ds) = ends_with_slash (d ∷ ds)

pub is_slash : Option ℕ → Bool
is_slash none = false
is_slash (some c) = c == slash

pub canonicalize_mount_path : Bytes → Bytes
canonicalize_mount_path path = elim (trim_end path) [
  | [] ↦ slash ∷ []
  | c ∷ cs ↦ if c == slash then c ∷ cs else slash ∷ c ∷ cs
]

pub is_mount_prefix : Bytes → Bytes → Bool
is_mount_prefix mount_path canonical =
    bytes_eq canonical mount_path
    || (starts_with canonical mount_path
        && (ends_with_slash mount_path || is_slash (get_elem? canonical (length mount_path))))

abbrev pub MountTable : Type 0 → Type 0
MountTable Fs = List (Bytes × Fs)

module _ {Fs : Type 0} where
  pub new : MountTable Fs
  new = []

  -- `contains_key` is whether `get` finds something.
  pub mount : MountTable Fs → Bytes → Fs → Result FsError (MountTable Fs)
  mount table path fs = elim (get (canonicalize_mount_path path) table) [
    | some old ↦ err FsError.already_exists
    | none ↦ ok (insert (canonicalize_mount_path path) fs table)
  ]

  pub unmount : MountTable Fs → Bytes → Result FsError (MountTable Fs)
  unmount table path = elim (get (canonicalize_mount_path path) table) [
    | some fs ↦ ok (remove (canonicalize_mount_path path) table)
    | none ↦ err FsError.not_found
  ]

  -- `range(..=canonical).rfind(..)`: the last entry at or below `canonical` that is a mount prefix.
  pub rfind : Bytes → MountTable Fs → Option (Bytes × Fs)
  rfind canonical [] = none
  rfind canonical ((path, fs) ∷ table) =
      let here : Option (Bytes × Fs) =
        if not (bytes_lt canonical path) && is_mount_prefix path canonical
        then some (path, fs)
        else none in
      elim (rfind canonical table) [ some found ↦ some found | none ↦ here ]

  pub resolve_mount : MountTable Fs → Bytes → Option Fs
  resolve_mount table path = elim (rfind (canonicalize_mount_path path) table) [
    | none ↦ none
    | some (m, fs) ↦ some fs
  ]

  pub longest_prefix : MountTable Fs → Bytes → Option Bytes
  longest_prefix table path = elim (rfind (canonicalize_mount_path path) table) [
    | none ↦ none
    | some (m, fs) ↦ some m
  ]

  -- The free functions, which call into the file system.
  module _ {World : Type 0} (call : Fs → World → Result FsError (Unit {0}) × World) where
    -- `call` is `on_mount`; its failure takes the entry back.
    pub mount_fs :
        MountTable Fs → Bytes → Fs → World → Result FsError (Unit {0}) × MountTable Fs × World
    mount_fs table path fs world = elim (mount table path fs) [
      | err e ↦ (err e, table, world)
      | ok mounted ↦
          let (result, after) = call fs world in
          elim result [
            | ok u ↦ (ok u, mounted, after)
            | err e ↦ elim (unmount mounted path) [
              | ok back ↦ (err e, back, after)
              | err ignored ↦ (err e, mounted, after)
            ]
          ]
    ]

    -- `call` is `on_unmount`; its failure leaves the entry.
    pub unmount_fs :
        MountTable Fs → Bytes → World → Result FsError (Unit {0}) × MountTable Fs × World
    unmount_fs table path world = elim (get (canonicalize_mount_path path) table) [
      | none ↦ (err FsError.not_found, table, world)
      | some fs ↦
          let (result, after) = call fs world in
          elim result [
            | err e ↦ (err e, table, after)
            | ok u ↦ elim (unmount table path) [
              | ok rest ↦ (ok u, rest, after)
              | err e ↦ (err e, table, after)
            ]
          ]
    ]

    -- `call` is `sync`: the first failure ends the loop.
    pub sync_all : MountTable Fs → World → Result FsError (Unit {0}) × World
    sync_all [] world = (ok tt, world)
    sync_all ((path, fs) ∷ table) world =
        let (result, after) = call fs world in
        let rest = sync_all table after in elim result [ err e ↦ (err e, after) | ok u ↦ rest ]

-- `canonical.strip_prefix(&mount_path).unwrap_or(&canonical).trim_start_matches('/')`
pub relative_to : Bytes → Bytes → Bytes
relative_to mount_path canonical =
    trim_start
      (if starts_with canonical mount_path then drop (length mount_path) canonical else canonical)

module _ {Fs : Type 0} (inodes : INode) (root_inode : Fs → inodes.Node) where
  pub resolve : List (Bytes × Fs) → Bytes → Outcome inodes
  resolve table path = elim (resolve_mount table path) [
    | none ↦ some (err FsError.not_found)
    | some fs ↦ elim (longest_prefix table path) [
      | none ↦
          resolve_path inodes (root_inode fs)
            (relative_to (slash ∷ []) (canonicalize_mount_path path))
      | some mount_path ↦
          resolve_path inodes (root_inode fs)
            (relative_to mount_path (canonicalize_mount_path path))
    ]
  ]
