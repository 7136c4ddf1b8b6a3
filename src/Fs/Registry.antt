-- ===== src/Fs/Registry.antt =====
-- filesystems/kor-fs/src/registry.rs: the drivers in the order of their registration. What `mount` of a
-- driver does is a parameter.
use koros.Base.{List, [], ◌∷◌, ◌++◌, Option, none, some, if◌then◌else◌}
use koros.Base.OrdMap.{Bytes, bytes_eq}
use koros.Base.Result.{Result, ok, err}
use koros.Kor.Vfs.{FsError}
use koros.Fs.Mount.{MountTable, mount_fs}

pub record Driver (Fs World : Type 0) : Type 0 where
  pub name : Bytes
  pub mount : World → Result FsError Fs × World

module _ {Fs World : Type 0} where
  pub register_filesystem : List (Driver Fs World) → Driver Fs World → List (Driver Fs World)
  register_filesystem drivers driver = drivers ++ driver ∷ []

  pub find_filesystem : List (Driver Fs World) → Bytes → Option (Driver Fs World)
  find_filesystem [] name = none
  find_filesystem (d ∷ ds) name =
      let rest = find_filesystem ds name in if bytes_eq d.name name then some d else rest

  -- The rest of `mount_named` once the driver is known.
  pub mount_driver :
      (Fs → World → Result FsError (Unit {0}) × World)
      → MountTable Fs
      → Driver Fs World
      → Bytes
      → World
      → Result FsError Fs × MountTable Fs × World
  mount_driver on_mount table driver path world =
      let (made, after) = driver.mount world in
      elim made [
        | err e ↦ (err e, table, after)
        | ok fs ↦
            let (result, mounted, last) = mount_fs on_mount table path fs after in
            elim result [ err e ↦ (err e, mounted, last) | ok u ↦ (ok fs, mounted, last) ]
      ]

  pub mount_named :
      (Fs → World → Result FsError (Unit {0}) × World)
      → List (Driver Fs World)
      → MountTable Fs
      → Bytes
      → Bytes
      → World
      → Result FsError Fs × MountTable Fs × World
  mount_named on_mount drivers table name path world = elim (find_filesystem drivers name) [
    | none ↦ (err FsError.not_found, table, world)
    | some driver ↦ mount_driver on_mount table driver path world
  ]
