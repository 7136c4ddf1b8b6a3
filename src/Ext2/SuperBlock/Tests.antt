-- ===== src/Ext2/SuperBlock/Tests.antt =====
-- A superblock of a small volume, and its image.
use koros.Base.{◌⊎◌, ℕ, ◌≡◌, refl, List, ◌∷◌, [], replicate, length, arith}
use koros.Base.Words.{to_le_bytes, from_le_bytes, read_le, splice, slice}
use koros.Base.Result.{ok, err}
use koros.Kor.Vfs.{invalid_input}
use koros.Ext2.SuperBlock.{
  SuperBlock, raw_at, from_raw, parsed, bad_geometry, bad_inode_size, is_power_of_two,
  inode_size_of, first_ino_of, patch_into,
}
use koros.Ext2.SuperBlock.Valid.{IsValid, IsUsable, from_raw-IsUsable, from_raw-IsValid}
use koros.Ext2.SuperBlock.Patch.{Counters, with_counters, from_raw-patch_into}

-- 16 inodes and 64 blocks in one group, revision 0, an inode size of 128.
abbrev image : List ℕ
image =
    splice
      (splice
        (splice (splice (splice (splice (replicate 1024 0) 0 (16 ∷ [])) 4 (64 ∷ [])) 32 (64 ∷ []))
          40 (16 ∷ []))
        56 (to_le_bytes 2 61267))
      20 (1 ∷ [])

abbrev small : SuperBlock
small = record {
  inodes_count = 16;
  blocks_count = 64;
  free_blocks_count = 0;
  free_inodes_count = 0;
  first_data_block = 1;
  log_block_size = 0;
  blocks_per_group = 64;
  inodes_per_group = 16;
  inode_size = 128;
  magic = 61267;
  rev_level = 0;
  first_ino = 11;
  feature_compat = 0;
  feature_incompat = 0;
  feature_ro_compat = 0;
  state = 0;
  mnt_count = 0;
}

abbrev counters : Counters
counters = record {
  free_blocks = 50;
  free_inodes = 5;
  mounts = 3;
  flags = 1;
  blocks_fit = omega arith;
  inodes_fit = omega arith;
  mounts_fit = omega arith;
  flags_fit = omega arith;
}

image_accepted : from_raw (raw_at image) ≡ ok small
unfolding from_raw raw_at bad_geometry bad_inode_size is_power_of_two inode_size_of first_ino_of
    parsed read_le slice splice from_le_bytes to_le_bytes
image_accepted = refl

length-image : length image ≡ 1024
unfolding splice to_le_bytes
length-image = refl

from_raw-IsValid_run : IsValid small
from_raw-IsValid_run = from_raw-IsValid (raw_at image) small image_accepted

from_raw-patch_into_example :
    from_raw (raw_at (patch_into (with_counters small counters) image 0 7))
    ≡ ok (with_counters small counters)
from_raw-patch_into_example =
    from_raw-patch_into image small counters 0 7 length-image image_accepted

from_raw-IsUsable_example :
    (IsUsable (raw_at image) × (from_raw (raw_at image) ≡ ok (parsed (raw_at image))))
    ⊎ ((¬ IsUsable (raw_at image)) × (from_raw (raw_at image) ≡ err invalid_input))
from_raw-IsUsable_example = from_raw-IsUsable (raw_at image)
