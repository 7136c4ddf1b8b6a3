-- ===== src/Ext2/Mount/Tests.antt =====
-- Runs over blocks that fail, and over a table of two groups.
use koros.Base.{◌==◌, if◌then◌else◌, ℕ, ◌+◌, ◌<◌, ◌≡◌, refl, false, List, [], ◌∷◌, replicate, arith}
use koros.Base.Result.{ok, err}
use koros.Kor.Vfs.{io_error}
use koros.Ext2.SuperBlock.{SuperBlock, BlockGroupDescriptor}
use koros.Ext2.Blocks.{FsBlocks}
use koros.Ext2.Alloc.{Ext2Fs}
use koros.Ext2.Mount.{sync, parse_block_group_descriptors, fill_block}
use koros.Ext2.Mount.Table.{Fits, AllFit, parse_block_group_descriptors-fill_block}

-- The second sync fails, so that the write-back of an unmount succeeds and its marker fails.
abbrev broken : FsBlocks
broken = record {
  State = ℕ;
  block_size = 1024;
  read_only = false;
  read_fs_block = λ b s. (ok (replicate 1024 0), s);
  write_fs_block = λ b d s. (ok tt, s);
  sync = λ s. if s == 0 then (ok tt, 1) else (err io_error, s + 1);
}

abbrev super : SuperBlock
super = record {
  inodes_count = 16;
  blocks_count = 16;
  free_blocks_count = 9;
  free_inodes_count = 0;
  first_data_block = 1;
  log_block_size = 0;
  blocks_per_group = 8;
  inodes_per_group = 8;
  inode_size = 128;
  magic = 61267;
  rev_level = 0;
  first_ino = 11;
  feature_compat = 0;
  feature_incompat = 0;
  feature_ro_compat = 0;
  state = 0;
  mnt_count = 0;
}

abbrev descriptor : ℕ → BlockGroupDescriptor
descriptor bitmap = record {
  bg_block_bitmap = bitmap;
  bg_inode_bitmap = 300;
  bg_inode_table = 70000;
  bg_free_blocks_count = 9;
  bg_free_inodes_count = 0;
  bg_used_dirs_count = 1;
  bg_pad = 0;
  bg_reserved = replicate 12 0;
}

abbrev mounted : Ext2Fs broken
mounted = record {
  super_block = super;
  block_groups = descriptor 4 ∷ [];
  inode_cache = [];
  device = 0;
}

descriptor-Fits : (bitmap : ℕ) → bitmap < 256 → Fits (descriptor bitmap)
descriptor-Fits bitmap h = record {
  block_bitmap = omega arith;
  inode_bitmap = omega arith;
  inode_table = omega arith;
  free_blocks = omega arith;
  free_inodes = omega arith;
  used_dirs = omega arith;
  pad = omega arith;
  reserved = refl;
}

abbrev table : List BlockGroupDescriptor
table = descriptor 4 ∷ descriptor 5 ∷ []

table-AllFit : AllFit table
table-AllFit = (descriptor-Fits 4 (omega arith), (descriptor-Fits 5 (omega arith), tt))

parse_block_group_descriptors-fill_block_example :
    parse_block_group_descriptors (fill_block table 0 0 128 (replicate 128 7)) 2 ≡ table
parse_block_group_descriptors-fill_block_example =
    parse_block_group_descriptors-fill_block table 128 (replicate 128 7) table-AllFit refl
      (omega arith)
