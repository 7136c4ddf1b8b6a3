-- ===== src/Ext2/Blocks.antt =====
-- filesystems/kor-ext2/src/lib.rs, the blocks of the file system: what the allocators and directories
-- use of `Ext2Fs::read_fs_block` and `write_fs_block`, and the `sync` of the cache, as operations, and
-- the laws of the first two.
pub mod Cached
mod Tests
use koros.Base.{ℕ, Bool, List, ◌≡◌, ◌≢◌, length}
use koros.Base.Result.{Result, ok}
use koros.Kor.Vfs.{FsError}

-- The state is that of the cache and the device.
pub record FsBlocks : Type 1 where
  pub State : Type 0
  pub block_size : ℕ
  pub read_only : Bool
  pub read_fs_block : ℕ → State → Result FsError (List ℕ) × State
  pub write_fs_block : ℕ → List ℕ → State → Result FsError (Unit {0}) × State
  pub sync : State → Result FsError (Unit {0}) × State

-- `contents s b` is block `b` as a reader would find it; `Good` is an invariant of the state. A write
-- that fails may leave part of the buffer in its block, and touches no other.
pub record IsFsBlocks (B : FsBlocks) (Good : B.State → Type 0) (contents : B.State → ℕ → List ℕ)
    : Type 0 where
  pub read_good : (b : ℕ) (s : B.State) → Good s → Good (B.read_fs_block b s).1
  pub read_ok :
      (b : ℕ) (s : B.State) (d : List ℕ)
      → Good s
      → (B.read_fs_block b s).0 ≡ ok d
      → (d ≡ contents s b) × (length d ≡ B.block_size)
  pub read_keeps :
      (b : ℕ) (s : B.State) (j : ℕ) → Good s → contents (B.read_fs_block b s).1 j ≡ contents s j
  pub write_good :
      (b : ℕ) (d : List ℕ) (s : B.State)
      → Good s
      → length d ≡ B.block_size
      → Good (B.write_fs_block b d s).1
  pub write_ok :
      (b : ℕ) (d : List ℕ) (s : B.State)
      → Good s
      → length d ≡ B.block_size
      → (B.write_fs_block b d s).0 ≡ ok tt
      → contents (B.write_fs_block b d s).1 b ≡ d
  pub write_keeps :
      (b : ℕ) (d : List ℕ) (s : B.State) (j : ℕ)
      → Good s
      → length d ≡ B.block_size
      → b ≢ j
      → contents (B.write_fs_block b d s).1 j ≡ contents s j
