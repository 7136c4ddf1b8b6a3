-- ===== src/Kor/Vfs.antt =====
-- kor/src/vfs.rs: the types of the virtual file system, and what path resolution uses of the trait
-- `INode`. A `&str` is the list of its UTF-8 bytes.
use koros.Base.{ℕ, Bool, true, false}
use koros.Base.OrdMap.{Bytes}
use koros.Base.Result.{Result}

pub data FileType : Type 0 where
  regular directory symlink block_device char_device fifo socket : FileType

unfoldable pub is_directory : FileType → Bool
is_directory directory = true
is_directory _ = false

unfoldable pub is_regular : FileType → Bool
is_regular regular = true
is_regular _ = false

unfoldable pub is_symlink : FileType → Bool
is_symlink symlink = true
is_symlink _ = false

pub record Metadata : Type 0 where
  pub size : ℕ
  pub mode : ℕ
  pub uid : ℕ
  pub gid : ℕ
  pub atime : ℕ
  pub mtime : ℕ
  pub ctime : ℕ
  pub file_type : FileType

pub data FsError : Type 0 where
  not_found permission_denied already_exists not_directory is_a_directory invalid_input io_error
        no_space not_empty unsupported read_only too_many_links cross_device :
      FsError

-- The methods of `INode` that only read, at one state of the file system.
pub record INode : Type 1 where
  pub Node : Type 0
  pub lookup : Node → Bytes → Result FsError Node
  pub getattr : Node → Result FsError Metadata
  pub readlink : Node → Result FsError Bytes
