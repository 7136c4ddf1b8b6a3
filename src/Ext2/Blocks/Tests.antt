-- ===== src/Ext2/Blocks/Tests.antt =====
-- The laws of the blocks over a cache and a disk in memory, whose blocks are single bytes.
use koros.Base.{ℕ, ◌≡◌, ◌≢◌, ◌*◌, refl, ◌==◌, false, if◌then◌else◌, List, [], ◌∷◌, arith}
use koros.Base.Result.{Result, ok, err}
use koros.Kor.Block.{BlockDevice, BlockError, device_error, IsDevice}
use koros.Fs.BlockCache.View.{Inv}
use koros.Ext2.Blocks.{IsFsBlocks}
use koros.Ext2.Blocks.Cached.{cached_blocks, run, cached_blocks-IsFsBlocks}

abbrev store : ℕ → List ℕ → (ℕ → ℕ) → Result BlockError (Unit {0}) × (ℕ → ℕ)
store id [] s = (err device_error, s)
store id (x ∷ []) s = (ok tt, λ j. if id == j then x else s j)
store id (x ∷ y ∷ ys) s = (err device_error, s)

abbrev bytes_disk : BlockDevice
bytes_disk = record {
  State = ℕ → ℕ;
  block_size = 1;
  read_block = λ id s. (ok (s id ∷ []), s);
  write_block = store;
  flush = λ s. (ok tt, s);
}

abbrev on_disk : (ℕ → ℕ) → ℕ → List ℕ
on_disk s j = s j ∷ []

store_ok :
    (id : ℕ) (d : List ℕ) (s : ℕ → ℕ) → (store id d s).0 ≡ ok tt → on_disk (store id d s).1 id ≡ d
store_ok id [] s h = cc
store_ok id (x ∷ []) s h = ground arith
store_ok id (x ∷ y ∷ ys) s h = cc

store_keeps :
    (id : ℕ) (d : List ℕ) (s : ℕ → ℕ) (j : ℕ) → id ≢ j → on_disk (store id d s).1 j ≡ on_disk s j
store_keeps id [] s j n = refl
store_keeps id (x ∷ []) s j n = ground arith
store_keeps id (x ∷ y ∷ ys) s j n = refl

bytes_disk_lem : IsDevice bytes_disk on_disk
bytes_disk_lem = record {
  read_ok = λ id s d h. ground arith;
  read_length = λ id s d h. ground arith;
  read_keeps = λ id s j. refl;
  write_ok = store_ok;
  write_keeps = store_keeps;
  flush_keeps = λ s j. refl;
}

-- Blocks of the file system are four blocks of the disk.
cached_blocks-IsFsBlocks_example :
    IsFsBlocks
      (cached_blocks bytes_disk false 4)
      (λ s. Inv bytes_disk on_disk s.0 s.1)
      (λ s b. run bytes_disk on_disk s.0 (b * 4) 4 s.1)
cached_blocks-IsFsBlocks_example =
    cached_blocks-IsFsBlocks bytes_disk on_disk bytes_disk_lem false 4
