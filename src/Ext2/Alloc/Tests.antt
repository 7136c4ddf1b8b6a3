-- ===== src/Ext2/Alloc/Tests.antt =====
-- A file system with two groups of eight blocks, whose bitmaps are blocks 1 and 2 of two bytes.
use koros.Base.{
  ◌+◌, ◌*◌, ℕ, zero, suc, ◌≡◌, ◌<◌, refl, ◌==◌, false, if◌then◌else◌, List, [], ◌∷◌, some, length,
  get_elem?, arith, subst, absurd_none, some_eq,
}
use koros.Base.Bits.{test_bit, or_bit, clear_bit}
use koros.Base.Result.{Result, ok, err, ok_eq}
use koros.Kor.Vfs.{FsError, io_error}
use koros.Ext2.SuperBlock.{SuperBlock, BlockGroupDescriptor}
use koros.Ext2.Bitmap.{
  find_first_clear, scan_bytes, scan_byte, resume, from_bytes, set_bit, clear, out_of_range,
}
use koros.Ext2.Bitmap.Bits.{bit_at}
use koros.Ext2.Blocks.{FsBlocks, IsFsBlocks}
use koros.Ext2.Alloc.{
  Ext2Fs, claim_bit, release_bit, blocks_in_group, take_one_block, give_one_block, alloc_block_in,
  alloc_block_from, alloc_block_goal, free_local, free_block,
}
use koros.Ext2.Alloc.Block.{Taken, block_number, alloc_block_goal-takes}
use koros.Ext2.Alloc.Bounds.{Geometry, alloc_block_goal-within}
use koros.Ext2.Alloc.Finds.{Reliable, HasFree, alloc_block_goal-finds}
use koros.Ext2.Alloc.RoundTrip.{Counted, free_block-alloc_block_goal}

abbrev write_two : ℕ → List ℕ → (ℕ → List ℕ) → Result FsError (Unit {0}) × (ℕ → List ℕ)
write_two b d s =
    if length d == 2 then (ok tt, λ j. if b == j then d else s j) else (err io_error, s)

abbrev blocks : FsBlocks
blocks = record {
  State = ℕ → List ℕ;
  block_size = 2;
  read_only = false;
  read_fs_block = λ b s. (ok (s b), s);
  write_fs_block = write_two;
  sync = λ s. (ok tt, s);
}

abbrev Sized : (ℕ → List ℕ) → Type 0
Sized s = (b : ℕ) → length (s b) ≡ 2

abbrev stored : (ℕ → List ℕ) → ℕ → List ℕ
stored s b = s b

blocks_lem : IsFsBlocks blocks Sized stored
blocks_lem = record {
  read_good = λ b s g. g;
  read_ok = λ b s d g h. let e = ok_eq h in (cc, subst (λ x. length x ≡ 2) e (g b));
  read_keeps = λ b s j g. refl;
  write_good = λ b d s g l j. ground (arith, g j);
  write_ok = λ b d s g l h. ground arith;
  write_keeps = λ b d s j g l n. ground arith;
}

abbrev super : SuperBlock
super = record {
  inodes_count = 16;
  blocks_count = 16;
  free_blocks_count = 9;
  free_inodes_count = 0;
  first_data_block = 0;
  log_block_size = 0;
  blocks_per_group = 8;
  inodes_per_group = 8;
  inode_size = 128;
  magic = 61267;
  rev_level = 0;
  first_ino = 11;
  feature_compat = 0;
  feature_incompat = 0;
  feature_ro_compat = 0;
  state = 0;
  mnt_count = 0;
}

abbrev group_with : ℕ → ℕ → BlockGroupDescriptor
group_with bitmap free = record {
  bg_block_bitmap = bitmap;
  bg_inode_bitmap = 3;
  bg_inode_table = 4;
  bg_free_blocks_count = free;
  bg_free_inodes_count = 0;
  bg_used_dirs_count = 0;
  bg_pad = 0;
  bg_reserved = [];
}

-- The first group is full, of the second the blocks 0 and 1 are used.
abbrev bitmaps : ℕ → List ℕ
bitmaps b = if b == 1 then 255 ∷ 0 ∷ [] else if b == 2 then 3 ∷ 0 ∷ [] else 0 ∷ 0 ∷ []

abbrev small : Ext2Fs blocks
small = record {
  super_block = super;
  block_groups = group_with 1 0 ∷ group_with 2 6 ∷ [];
  inode_cache = [];
  device = bitmaps;
}

bitmaps_Sized : Sized bitmaps
bitmaps_Sized b = ground arith

small-Geometry : Geometry small
small-Geometry = record { counted = omega arith; starts = λ group h. omega arith }

small-Counted : Counted small
small-Counted = record { super = omega arith; groups = fits }
  where
    fits :
        (group : ℕ) (bg : BlockGroupDescriptor)
        → get_elem? small.block_groups group ≡ some bg
        → bg.bg_free_blocks_count < 65536
    fits zero bg h = subst (λ d. d.bg_free_blocks_count < 65536) (some_eq h) (omega arith)
    fits (suc zero) bg h = subst (λ d. d.bg_free_blocks_count < 65536) (some_eq h) (omega arith)
    fits (suc (suc group)) bg h = absurd (absurd_none h)

-- The full group is passed over, and block 2 of the second group is taken.
takes_ten : (alloc_block_goal blocks small 0).0 ≡ ok 10
unfolding alloc_block_goal alloc_block_from alloc_block_in claim_bit blocks_in_group take_one_block
    find_first_clear scan_bytes scan_byte resume from_bytes set_bit out_of_range test_bit or_bit
takes_ten = refl

frees_ten : (free_block blocks (alloc_block_goal blocks small 0).1 10).0 ≡ ok tt
unfolding alloc_block_goal alloc_block_from alloc_block_in claim_bit blocks_in_group take_one_block
    find_first_clear scan_bytes scan_byte resume from_bytes set_bit out_of_range test_bit or_bit
    free_block free_local release_bit give_one_block clear clear_bit
frees_ten = refl

alloc_block_goal-takes_example :
    (group : ℕ) × (bg : BlockGroupDescriptor) × (i : ℕ) × (10 ≡ block_number super group i)
    × Taken blocks Sized stored blocks_lem small (alloc_block_goal blocks small 0).1 group i bg
alloc_block_goal-takes_example =
    alloc_block_goal-takes blocks Sized stored blocks_lem small 0 10 bitmaps_Sized takes_ten

alloc_block_goal-within_example :
    (group : ℕ) × (bg : BlockGroupDescriptor) × (i : ℕ) × Taken blocks Sized stored blocks_lem small
      (alloc_block_goal blocks small 0).1
      group
      i
      bg
    × (10 ≡ 0 + group * 8 + i)
    × (i < 8)
    × (10 < 16)
alloc_block_goal-within_example =
    alloc_block_goal-within blocks Sized stored blocks_lem small 0 10 bitmaps_Sized small-Geometry
      takes_ten

free_block-alloc_block_goal_example :
    (let fs2 = (free_block blocks (alloc_block_goal blocks small 0).1 10).1 in
      ((b j : ℕ) → bit_at (stored fs2.device b) j ≡ bit_at (stored bitmaps b) j)
      × (fs2.block_groups ≡ small.block_groups)
      × (fs2.super_block ≡ super)
      × (fs2.inode_cache ≡ small.inode_cache))
free_block-alloc_block_goal_example =
    free_block-alloc_block_goal blocks Sized stored blocks_lem small 0 10 bitmaps_Sized
      small-Geometry small-Counted takes_ten frees_ten

blocks_Reliable : Reliable blocks Sized
blocks_Reliable = record { reads = λ b s g. (s b, refl); writes = λ b d s g l. ground arith }

-- Block 5 of the second group is free.
small-HasFree : HasFree blocks Sized stored blocks_lem blocks_Reliable small 1 (group_with 2 6) 5
unfolding bit_at test_bit blocks_in_group
small-HasFree = record {
  found = refl;
  counted = omega arith;
  within = omega arith;
  in_bitmap = omega arith;
  free = refl;
}

alloc_block_goal-finds_example : (id : ℕ) × ((alloc_block_goal blocks small 7).0 ≡ ok id)
alloc_block_goal-finds_example =
    alloc_block_goal-finds blocks Sized stored blocks_lem blocks_Reliable small 7 1 (group_with 2 6)
      5 bitmaps_Sized refl small-HasFree
