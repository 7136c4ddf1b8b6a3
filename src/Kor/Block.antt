-- ===== src/Kor/Block.antt =====
-- kor/src/block.rs. A block device is a parameter: its drivers talk to hardware.
use koros.Base.{ℕ, List, ◌≡◌, ◌≢◌, length}
use koros.Base.Result.{Result, ok}

pub data BlockError : Type 0 where
  io_error invalid_block read_only device_error : BlockError

-- The trait `BlockDevice` over an explicit device state; a call returns the next state.
pub record BlockDevice : Type 1 where
  pub State : Type 0
  pub block_size : ℕ
  pub read_block : ℕ → State → Result BlockError (List ℕ) × State
  pub write_block : ℕ → List ℕ → State → Result BlockError (Unit {0}) × State
  pub flush : State → Result BlockError (Unit {0}) × State

-- What the clients rely on. `contents s id` is the block that a read would find. A write, also one
-- that fails, touches no other block; of the block of a failed write nothing is said.
pub record IsDevice (D : BlockDevice) (contents : D.State → ℕ → List ℕ) : Type 0 where
  pub read_ok :
      (id : ℕ) (s : D.State) (d : List ℕ) → (D.read_block id s).0 ≡ ok d → d ≡ contents s id
  pub read_length :
      (id : ℕ) (s : D.State) (d : List ℕ) → (D.read_block id s).0 ≡ ok d → length d ≡ D.block_size
  pub read_keeps : (id : ℕ) (s : D.State) (j : ℕ) → contents (D.read_block id s).1 j ≡ contents s j
  pub write_ok :
      (id : ℕ) (d : List ℕ) (s : D.State)
      → (D.write_block id d s).0 ≡ ok tt
      → contents (D.write_block id d s).1 id ≡ d
  pub write_keeps :
      (id : ℕ) (d : List ℕ) (s : D.State) (j : ℕ)
      → id ≢ j
      → contents (D.write_block id d s).1 j ≡ contents s j
  pub flush_keeps : (s : D.State) (j : ℕ) → contents (D.flush s).1 j ≡ contents s j
