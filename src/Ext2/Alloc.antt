-- ===== src/Ext2/Alloc.antt =====
-- filesystems/kor-ext2/src/bitmap.rs, `impl Ext2Fs`: the allocation of blocks and inodes over the
-- blocks of the file system. Each function holds the locks from its first read of the counts to its
-- last write, so it is one step.
pub mod Groups
pub mod Block
pub mod Bounds
pub mod Free
pub mod RoundTrip
pub mod Finds
mod Tests
use koros.Base.{
  ℕ, zero, suc, ◌+◌, ◌-◌, ◌*◌, ◌/◌, ◌%◌, ◌==◌, min, Bool, ltb, if◌then◌else◌, List, [], ◌∷◌, Option,
  none, some, length, get_elem?, set, replicate,
}
use koros.Base.Words.{add32, sub32, mul32, to_le_bytes, splice}
use koros.Base.OrdMap.{remove, nat_key}
use koros.Base.Result.{Result, ok, err}
use koros.Kor.Vfs.{FsError, invalid_input, no_space, read_only}
use koros.Ext2.SuperBlock.{SuperBlock, BlockGroupDescriptor, block_group_count}
use koros.Ext2.Bitmap.{Bitmap, from_bytes, set_bit, clear, find_first_clear}
use koros.Ext2.Blocks.{FsBlocks}

-- The number of blocks that the bitmap of a group covers.
pub blocks_in_group : SuperBlock → ℕ → ℕ
blocks_in_group sb group =
    min sb.blocks_per_group
      (sub32 sb.blocks_count (add32 sb.first_data_block (mul32 group sb.blocks_per_group)))

-- The number of inodes that the bitmap of a group covers: the last group takes what is left.
pub inodes_in_group : SuperBlock → ℕ → ℕ
unfolding block_group_count
inodes_in_group sb group =
    let bg_count = block_group_count sb in
    if group == sub32 bg_count 1
    then sub32 sb.inodes_count (mul32 (sub32 bg_count 1) sb.inodes_per_group)
    else sb.inodes_per_group

module _ (B : FsBlocks) where
  -- A weak reference of the inode cache is a number.
  pub record Ext2Fs : Type 0 where
    pub super_block : SuperBlock
    pub block_groups : List BlockGroupDescriptor
    pub inode_cache : List (ℕ × ℕ)
    pub device : B.State

  abbrev pub Done : Type 0 → Type 0
  Done A = Result FsError A × Ext2Fs

  -- The group's counts after one block was taken or given back, on `u16` and `u32`.
  pub take_one_block : Ext2Fs → ℕ → BlockGroupDescriptor → Ext2Fs
  take_one_block fs group bg = record fs {
    block_groups =
        set fs.block_groups group
          (record bg { bg_free_blocks_count = bg.bg_free_blocks_count - 1 });
    super_block = record fs.super_block {
      free_blocks_count = sub32 fs.super_block.free_blocks_count 1;
    };
  }

  pub give_one_block : Ext2Fs → ℕ → BlockGroupDescriptor → Ext2Fs
  give_one_block fs group bg = record fs {
    block_groups =
        set fs.block_groups group
          (record bg { bg_free_blocks_count = (bg.bg_free_blocks_count + 1) % 65536 });
    super_block = record fs.super_block {
      free_blocks_count = add32 fs.super_block.free_blocks_count 1;
    };
  }

  pub take_one_inode : Ext2Fs → ℕ → BlockGroupDescriptor → Ext2Fs
  take_one_inode fs group bg = record fs {
    block_groups =
        set fs.block_groups group
          (record bg { bg_free_inodes_count = bg.bg_free_inodes_count - 1 });
    super_block = record fs.super_block {
      free_inodes_count = sub32 fs.super_block.free_inodes_count 1;
    };
  }

  pub give_one_inode : Ext2Fs → ℕ → BlockGroupDescriptor → Ext2Fs
  give_one_inode fs group bg = record fs {
    block_groups =
        set fs.block_groups group
          (record bg { bg_free_inodes_count = (bg.bg_free_inodes_count + 1) % 65536 });
    super_block = record fs.super_block {
      free_inodes_count = add32 fs.super_block.free_inodes_count 1;
    };
  }

  -- Both allocators from the read of the bitmap to its write: the first clear bit among `size` is set.
  -- `ok none` where no bit is clear.
  pub claim_bit : ℕ → ℕ → B.State → Result FsError (Option ℕ) × B.State
  claim_bit bitmap_block size s =
      let (r, s') = B.read_fs_block bitmap_block s in
      elim r [
        | err x ↦ (err x, s')
        | ok buf ↦ elim (find_first_clear (from_bytes buf size)) [
          | none ↦ (ok none, s')
          | some local_idx ↦ elim (set_bit (from_bytes buf size) local_idx) [
            | err x ↦ (err x, s')
            | ok bitmap ↦
                let (w, s'') = B.write_fs_block bitmap_block bitmap.bytes s' in
                elim w [ err x ↦ (err x, s'') | ok _ ↦ (ok (some local_idx), s'') ]
          ]
        ]
      ]

  -- Both deallocators from the read of the bitmap to its write.
  pub release_bit : ℕ → ℕ → ℕ → B.State → Result FsError (Unit {0}) × B.State
  release_bit bitmap_block size local_idx s =
      let (r, s') = B.read_fs_block bitmap_block s in
      elim r [
        | err x ↦ (err x, s')
        | ok buf ↦ elim (clear (from_bytes buf size) local_idx) [
          | err x ↦ (err x, s')
          | ok bitmap ↦ B.write_fs_block bitmap_block bitmap.bytes s'
        ]
      ]

  -- The body of the loop of `alloc_block_goal` for one group: `ok none` goes on to the next.
  pub alloc_block_in : Ext2Fs → ℕ → BlockGroupDescriptor → Done (Option ℕ)
  unfolding claim_bit blocks_in_group take_one_block
  alloc_block_in fs group bg =
      let sb = fs.super_block in
      let (r, s) = claim_bit bg.bg_block_bitmap (blocks_in_group sb group) fs.device in
      if bg.bg_free_blocks_count == 0 then (ok none, fs) else elim r [
        | err x ↦ (err x, record fs { device = s })
        | ok none ↦ (ok none, record fs { device = s })
        | ok (some local_idx) ↦ (
          ok (some (add32 (add32 (mul32 group sb.blocks_per_group) local_idx) sb.first_data_block)),
          take_one_block (record fs { device = s }) group bg,
        )
      ]

  -- The loop over `count` groups from step `step`. A group index below the number of groups is there.
  pub alloc_block_from : Ext2Fs → ℕ → ℕ → ℕ → Done ℕ
  unfolding alloc_block_in
  alloc_block_from fs goal step zero = (err no_space, fs)
  alloc_block_from fs goal step (suc count) =
      let group = (goal + step) % length fs.block_groups in
      elim (get_elem? fs.block_groups group) [
        | none ↦ (err no_space, fs)
        | some bg ↦
            let (r, fs') = alloc_block_in fs group bg in
            let rest = alloc_block_from fs' goal (suc step) count in
            elim r [ err x ↦ (err x, fs') | ok none ↦ rest | ok (some id) ↦ (ok id, fs') ]
      ]

  pub alloc_block_goal : Ext2Fs → ℕ → Done ℕ
  unfolding alloc_block_from
  alloc_block_goal fs goal_group =
      if B.read_only
      then (err read_only, fs)
      else alloc_block_from fs goal_group 0 (length fs.block_groups)

  -- `checked_sub` of the first data block, and the rest for the block's place among the data blocks.
  pub free_local : Ext2Fs → ℕ → Done (Unit {0})
  unfolding release_bit give_one_block
  free_local fs local_id =
      let sb = fs.super_block in
      let group = local_id / sb.blocks_per_group in
      elim (get_elem? fs.block_groups group) [
        | none ↦ (err invalid_input, fs)
        | some bg ↦
            let (r, s) =
              release_bit bg.bg_block_bitmap sb.blocks_per_group (local_id % sb.blocks_per_group)
                fs.device in
            elim r [
              | err x ↦ (err x, record fs { device = s })
              | ok _ ↦ (ok tt, give_one_block (record fs { device = s }) group bg)
            ]
      ]

  pub free_block : Ext2Fs → ℕ → Done (Unit {0})
  unfolding free_local
  free_block fs block_id =
      if B.read_only
      then (err read_only, fs)
      else if ltb block_id fs.super_block.first_data_block
      then (err invalid_input, fs)
      else free_local fs (block_id - fs.super_block.first_data_block)

  pub alloc_inode_in : Ext2Fs → ℕ → BlockGroupDescriptor → Done (Option ℕ)
  unfolding claim_bit inodes_in_group take_one_inode
  alloc_inode_in fs group bg =
      let sb = fs.super_block in
      let (r, s) = claim_bit bg.bg_inode_bitmap (inodes_in_group sb group) fs.device in
      if bg.bg_free_inodes_count == 0 then (ok none, fs) else elim r [
        | err x ↦ (err x, record fs { device = s })
        | ok none ↦ (ok none, record fs { device = s })
        | ok (some local_idx) ↦ (
          ok (some (add32 (add32 (mul32 group sb.inodes_per_group) local_idx) 1)),
          take_one_inode (record fs { device = s }) group bg,
        )
      ]

  -- The loop over the groups that are left, from index `group`.
  pub alloc_inode_from : Ext2Fs → List BlockGroupDescriptor → ℕ → Done ℕ
  unfolding alloc_inode_in
  alloc_inode_from fs [] group = (err no_space, fs)
  alloc_inode_from fs (bg ∷ bgs) group =
      let (r, fs') = alloc_inode_in fs group bg in
      let rest = alloc_inode_from fs' bgs (suc group) in
      elim r [ err x ↦ (err x, fs') | ok none ↦ rest | ok (some id) ↦ (ok id, fs') ]

  pub alloc_inode : Ext2Fs → Done ℕ
  unfolding alloc_inode_from
  alloc_inode fs =
      if B.read_only then (err read_only, fs) else alloc_inode_from fs fs.block_groups 0

  pub free_inode : Ext2Fs → ℕ → Done (Unit {0})
  unfolding release_bit give_one_inode
  free_inode fs inode_num =
      let sb = fs.super_block in
      let group = (inode_num - 1) / sb.inodes_per_group in
      if inode_num == 0
      then (err invalid_input, fs)
      else if B.read_only
      then (err read_only, fs)
      else elim (get_elem? fs.block_groups group) [
        | none ↦ (err invalid_input, fs)
        | some bg ↦
            let (r, s) =
              release_bit bg.bg_inode_bitmap sb.inodes_per_group
                ((inode_num - 1) % sb.inodes_per_group) fs.device in
            elim r [
              | err x ↦ (err x, record fs { device = s })
              | ok _ ↦ (
                ok tt,
                record (give_one_inode (record fs { device = s }) group bg) {
                  inode_cache = remove inode_num fs.inode_cache;
                },
              )
            ]
      ]

  -- The new bytes of the inode: zeros, then the mode and one link.
  pub fresh_inode : List ℕ → ℕ → ℕ → ℕ → List ℕ
  unfolding splice to_le_bytes
  fresh_inode buf offset inode_size mode =
      let cleared = splice buf offset (replicate inode_size 0) in
      let moded = splice cleared offset (to_le_bytes 2 mode) in
      splice moded (offset + 26) (to_le_bytes 2 1)

  pub init_inode : Ext2Fs → ℕ → ℕ → Done (Unit {0})
  unfolding fresh_inode
  init_inode fs inode_num mode =
      let sb = fs.super_block in
      let offset_in_table = (inode_num - 1) % sb.inodes_per_group * sb.inode_size in
      if inode_num == 0
      then (err invalid_input, fs)
      else (elim (get_elem? fs.block_groups ((inode_num - 1) / sb.inodes_per_group)) [
        | none ↦ (err invalid_input, fs)
        | some bg ↦
            let fs_block = bg.bg_inode_table + offset_in_table / B.block_size in
            let (r, s) = B.read_fs_block fs_block fs.device in
            elim r [
              | err x ↦ (err x, record fs { device = s })
              | ok buf ↦
                  let (w, s') =
                    B.write_fs_block fs_block
                      (fresh_inode buf (offset_in_table % B.block_size) sb.inode_size mode) s in
                  (w, record fs { device = s' })
            ]
      ])
