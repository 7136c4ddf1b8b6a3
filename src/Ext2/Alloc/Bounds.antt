-- ===== src/Ext2/Alloc/Bounds.antt =====
-- The blocks that `alloc_block_goal` hands out lie on the device.
use native.Mathlib.Nat.{mul-le-mul_right}
use koros.Base.{
  ℕ, zero, suc, ◌+◌, ◌-◌, ◌*◌, ◌^◌, ◌<◌, ◌≤◌, ◌≡◌, List, [], ◌∷◌, some, length, get_elem?, arith,
}
use koros.Base.Result.{ok}
use koros.Ext2.Blocks.{FsBlocks, IsFsBlocks}
use koros.Ext2.Alloc.{Ext2Fs, blocks_in_group, alloc_block_goal}
use koros.Ext2.SuperBlock.{RawSuperBlock, BlockGroupDescriptor, from_raw, block_group_count}
use koros.Ext2.SuperBlock.Valid.{from_raw-IsValid, block_group_count_covers}
use koros.Ext2.Alloc.Block.{Taken, block_number, alloc_block_goal-takes}

-- Each group that the table has begins below the end of the device, and the device is counted in 32
-- bits.
pub record Geometry {B : FsBlocks} (fs : Ext2Fs B) : Type 0 where
  pub counted : fs.super_block.blocks_count < 2 ^ 32
  pub starts :
      (group : ℕ)
      → group < length fs.block_groups
      → fs.super_block.first_data_block + group * fs.super_block.blocks_per_group
        < fs.super_block.blocks_count

-- A table with a descriptor for each group of a superblock that `from_raw` accepts has that geometry if
-- the last group begins below the end; it does if the first data block is 0.
Geometry-last :
    {B : FsBlocks} (fs : Ext2Fs B)
    → fs.super_block.blocks_count < 2 ^ 32
    → length fs.block_groups ≡ block_group_count fs.super_block
    → fs.super_block.first_data_block
        + (block_group_count fs.super_block - 1) * fs.super_block.blocks_per_group
      < fs.super_block.blocks_count
    → Geometry fs
Geometry-last fs c l h = record { counted = c; starts = λ group b. starts fs group l h b }
  where
    earlier : (group count per : ℕ) → group < count → group * per ≤ (count - 1) * per
    earlier group count per h = mul-le-mul_right per (omega (arith, h))

    starts :
        {B : FsBlocks} (fs : Ext2Fs B) (group : ℕ)
        → length fs.block_groups ≡ block_group_count fs.super_block
        → fs.super_block.first_data_block
            + (block_group_count fs.super_block - 1) * fs.super_block.blocks_per_group
          < fs.super_block.blocks_count
        → group < length fs.block_groups
        → fs.super_block.first_data_block + group * fs.super_block.blocks_per_group
          < fs.super_block.blocks_count
    starts fs group l h b = omega (
      arith,
      h,
      earlier group (block_group_count fs.super_block) fs.super_block.blocks_per_group
          (omega (arith, b, l)),
    )

pub Geometry-from_raw :
    {B : FsBlocks} (fs : Ext2Fs B) (raw : RawSuperBlock)
    → from_raw raw ≡ ok fs.super_block
    → fs.super_block.first_data_block ≡ 0
    → fs.super_block.blocks_count < 2 ^ 32
    → length fs.block_groups ≡ block_group_count fs.super_block
    → Geometry fs
Geometry-from_raw fs raw h z c l =
    let covers = block_group_count_covers fs.super_block (from_raw-IsValid raw fs.super_block h) in
    Geometry-last fs c l (omega (arith, z, covers.1))

pub get_elem?-bound :
    {A : Type 0} → (xs : List A) (i : ℕ) (x : A) → get_elem? xs i ≡ some x → i < length xs
get_elem?-bound [] i x h = cc
get_elem?-bound (y ∷ ys) zero x h = omega arith
get_elem?-bound (y ∷ ys) (suc i) x h = omega (arith, get_elem?-bound ys i x h)

-- Under that geometry no sum wraps.
pub block_number_exact :
    {B : FsBlocks} (fs : Ext2Fs B) (group i : ℕ)
    → Geometry fs
    → group < length fs.block_groups
    → i < blocks_in_group fs.super_block group
    → (block_number fs.super_block group i
        ≡ fs.super_block.first_data_block + group * fs.super_block.blocks_per_group + i)
      × (i < fs.super_block.blocks_per_group)
      × (fs.super_block.first_data_block + group * fs.super_block.blocks_per_group + i
          < fs.super_block.blocks_count)
unfolding blocks_in_group
block_number_exact fs group i geo l h =
    let s = geo.starts group l in let c = geo.counted in omega (arith, s, c)

module _ (B : FsBlocks) (Good : B.State → Type 0) (contents : B.State → ℕ → List ℕ)
    (laws : IsFsBlocks B Good contents) where
  -- If each group of the table begins below the end of the device, which has less than 2^32 blocks, the
  -- block that `alloc_block_goal` hands out is the one at the index of the bit that was taken in the
  -- group that gave it, behind the first data block, without wrap-around: the index is below the size
  -- of a group, and the block is below the number of blocks.
  pub alloc_block_goal-within :
      (fs : Ext2Fs B) (goal id : ℕ)
      → Good fs.device
      → Geometry fs
      → (alloc_block_goal B fs goal).0 ≡ ok id
      → (group : ℕ) × (bg : BlockGroupDescriptor) × (i : ℕ) × Taken B Good contents laws fs
          (alloc_block_goal B fs goal).1
          group
          i
          bg
        × (id ≡ fs.super_block.first_data_block + group * fs.super_block.blocks_per_group + i)
        × (i < fs.super_block.blocks_per_group)
        × (id < fs.super_block.blocks_count)
  alloc_block_goal-within fs goal id g geo h =
      let (group, bg, i, p, t) = alloc_block_goal-takes B Good contents laws fs goal id g h in
      let (e, low, bound) =
        block_number_exact fs group i geo (get_elem?-bound fs.block_groups group bg t.found)
          t.within in
      (group, bg, i, t, omega (arith, p, e), low, omega (arith, p, e, bound))
