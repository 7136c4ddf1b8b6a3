-- ===== src/Fs/Fd.antt =====
-- filesystems/kor-fs/src/fd.rs: the open file. An `isize` is a step forward or backward; the methods of the
-- inode are parameters. Positions stay below 2^64.
pub mod Seek
mod Tests
use Prim.Native.Nat.{bit_and, bit_or}
use koros.Base.{ℕ, ◌+◌, ◌-◌, ◌==◌, Bool, true, false, ltb, if◌then◌else◌, List, [], ◌∷◌, length}
use koros.Base.OrdMap.{Bytes}
use koros.Base.Result.{Result, ok, err}
use koros.Kor.Vfs.{FsError, Metadata}

-- `OpenFlags`: the bits.
abbrev pub read_flag : ℕ
read_flag = 1

abbrev pub write_flag : ℕ
write_flag = 2

abbrev pub append_flag : ℕ
append_flag = 4

abbrev pub create_flag : ℕ
create_flag = 8

abbrev pub truncate_flag : ℕ
truncate_flag = 16

pub contains : ℕ → ℕ → Bool
contains bits flag = bit_and bits flag == flag

pub bitor : ℕ → ℕ → ℕ
bitor bits other = bit_or bits other

-- `backward n` is the step `-n`.
pub data Delta : Type 0 where
  forward backward : ℕ → Delta

pub data SeekFrom : Type 0 where
  from_start : ℕ → SeekFrom
  from_current from_end : Delta → SeekFrom

pub record FileDescriptor (Node : Type 0) : Type 0 where
  pub inode : Node
  pub position : ℕ
  pub flags : ℕ
  pub mode : ℕ

-- The new position of a step from `base`.
pub move_from : ℕ → Delta → Result FsError ℕ
move_from base (forward n) = ok (base + n)
move_from base (backward n) = if ltb base n then err FsError.invalid_input else ok (base - n)

module _ {Node : Type 0} where
  pub new : Node → ℕ → ℕ → FileDescriptor Node
  new inode flags mode = record { inode = inode; position = 0; flags = flags; mode = mode }

  pub at_position :
      FileDescriptor Node → Result FsError ℕ → Result FsError (FileDescriptor Node × ℕ)
  at_position fd (err e) = err e
  at_position fd (ok p) = ok (record fd { position = p }, p)

  module _ {State : Type 0} where
    pub seek :
        (State → Node → Result FsError Metadata)
        → State
        → FileDescriptor Node
        → SeekFrom
        → Result FsError (FileDescriptor Node × ℕ)
    seek getattr s fd (from_start p) = at_position fd (ok p)
    seek getattr s fd (from_current delta) = at_position fd (move_from fd.position delta)
    seek getattr s fd (from_end delta) = elim (getattr s fd.inode) [
      | err e ↦ err e
      | ok meta ↦ at_position fd (move_from meta.size delta)
    ]

    pub read :
        (State → Node → ℕ → ℕ → Result FsError Bytes)
        → State
        → FileDescriptor Node
        → ℕ
        → Result FsError (FileDescriptor Node × Bytes)
    read read_at s fd len = elim (read_at s fd.inode fd.position len) [
      | err e ↦ err e
      | ok bytes ↦ ok (record fd { position = fd.position + length bytes }, bytes)
    ]

    -- The write proper, from the position of the descriptor.
    pub write_here :
        (State → Node → ℕ → Bytes → Result FsError (State × ℕ))
        → State
        → FileDescriptor Node
        → Bytes
        → Result FsError (State × FileDescriptor Node × ℕ)
    write_here write_at s fd buf = elim (write_at s fd.inode fd.position buf) [
      | err e ↦ err e
      | ok (after, n) ↦ ok (after, record fd { position = fd.position + n }, n)
    ]

    pub write :
        (State → Node → Result FsError Metadata)
        → (State → Node → ℕ → Bytes → Result FsError (State × ℕ))
        → State
        → FileDescriptor Node
        → Bytes
        → Result FsError (State × FileDescriptor Node × ℕ)
    write getattr write_at s fd buf =
        if contains fd.flags append_flag
        then (elim (getattr s fd.inode) [
          | err e ↦ err e
          | ok meta ↦ write_here write_at s (record fd { position = meta.size }) buf
        ])
        else write_here write_at s fd buf
