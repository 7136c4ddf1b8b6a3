-- ===== src/Ext2/Mount.antt =====
-- filesystems/kor-ext2/src/lib.rs: the write-back of the superblock and of the descriptor table, and
-- the calls at `sync`, mount and unmount. The transaction lock makes each call one step.
pub mod Table
pub mod Calls
mod Tests
use koros.Base.{
  ℕ, zero, suc, ◌+◌, ◌-◌, ◌*◌, ◌/◌, ◌%◌, ◌==◌, min, Bool, true, false, not, ◌||◌, ◌&&◌, ltb, leb,
  if◌then◌else◌, List, [], ◌∷◌, ◌++◌, Option, none, some, length, get_elem?, set,
}
use koros.Base.Words.{add32, mul32, sub32, to_le_bytes, read_le, splice, slice}
use koros.Base.Result.{Result, ok, err}
use koros.Kor.Vfs.{FsError}
use koros.Ext2.SuperBlock.{
  SuperBlock, BlockGroupDescriptor, block_group_count, has_sparse_super, patch_into,
}
use koros.Ext2.Backup.{group_has_super_backup}
use koros.Ext2.Blocks.{FsBlocks}
use koros.Ext2.Alloc.{Ext2Fs}

-- A descriptor as the 32 bytes of the packed structure; the reserved words are three.
pub descriptor_bytes : BlockGroupDescriptor → List ℕ
unfolding to_le_bytes
descriptor_bytes bg =
    to_le_bytes 4 bg.bg_block_bitmap
    ++ (to_le_bytes 4 bg.bg_inode_bitmap
        ++ (to_le_bytes 4 bg.bg_inode_table
            ++ (to_le_bytes 2 bg.bg_free_blocks_count
                ++ (to_le_bytes 2 bg.bg_free_inodes_count
                    ++ (to_le_bytes 2 bg.bg_used_dirs_count
                        ++ (to_le_bytes 2 bg.bg_pad ++ bg.bg_reserved))))))

-- The packed structure at an offset; its reserved words stay bytes.
pub descriptor_at : List ℕ → ℕ → BlockGroupDescriptor
unfolding read_le slice
descriptor_at buf offset = record {
  bg_block_bitmap = read_le buf offset 4;
  bg_inode_bitmap = read_le buf (offset + 4) 4;
  bg_inode_table = read_le buf (offset + 8) 4;
  bg_free_blocks_count = read_le buf (offset + 12) 2;
  bg_free_inodes_count = read_le buf (offset + 14) 2;
  bg_used_dirs_count = read_le buf (offset + 16) 2;
  bg_pad = read_le buf (offset + 18) 2;
  bg_reserved = slice buf (offset + 20) 12;
}

-- The loop from entry `i`, of which `count` are left.
pub parse_from : List ℕ → ℕ → ℕ → List BlockGroupDescriptor
unfolding descriptor_at
parse_from buf i zero = []
parse_from buf i (suc count) =
    let rest = parse_from buf (suc i) count in
    if ltb (length buf) (i * 32 + 32) then [] else descriptor_at buf (i * 32) ∷ rest

pub parse_block_group_descriptors : List ℕ → ℕ → List BlockGroupDescriptor
unfolding parse_from
parse_block_group_descriptors buf count = parse_from buf 0 count

-- The loop of `write_bgdt_at` over the groups for one block, from group `gi`.
pub fill_block : List BlockGroupDescriptor → ℕ → ℕ → ℕ → List ℕ → List ℕ
unfolding splice descriptor_bytes
fill_block [] gi block_first block_size buf = buf
fill_block (bg ∷ groups) gi block_first block_size buf =
    let goff = gi * 32 in
    let buf' =
      if leb (goff + 32) block_first || leb (block_first + block_size) goff
      then buf
      else splice buf (goff - block_first) (descriptor_bytes bg) in
    fill_block groups (suc gi) block_first block_size buf'

-- The backup of a group is skipped under `sparse_super`, unless the group is one of the few.
pub has_backup : SuperBlock → ℕ → Bool
unfolding has_sparse_super group_has_super_backup
has_backup sb group =
    not (has_sparse_super sb) || (elim (group_has_super_backup group) [ some b ↦ b | none ↦ false ])

pub group_block : SuperBlock → ℕ → ℕ
group_block sb group = add32 sb.first_data_block (mul32 group sb.blocks_per_group)

module _ (B : FsBlocks) where
  abbrev pub Io : Type 0
  Io = Result FsError (Unit {0}) × B.State

  pub patch_super_block_copy : SuperBlock → ℕ → ℕ → ℕ → B.State → Io
  unfolding splice slice patch_into
  patch_super_block_copy sb fs_block offset group_nr s =
      let (r, s') = B.read_fs_block fs_block s in
      elim r [
        | err x ↦ (err x, s')
        | ok buf ↦
            B.write_fs_block fs_block
              (splice buf offset (patch_into sb (slice buf offset 1024) group_nr 0)) s'
      ]

  -- The loop over the backup groups, from group `g`, of which `count` are left.
  pub write_backups : SuperBlock → ℕ → ℕ → B.State → Io
  unfolding patch_super_block_copy has_backup group_block
  write_backups sb g zero s = (ok tt, s)
  write_backups sb g (suc count) s =
      let skipped = write_backups sb (suc g) count s in
      let (r, s') = patch_super_block_copy sb (group_block sb g) 0 (g % 65536) s in
      let rest = write_backups sb (suc g) count s' in
      if has_backup sb g then elim r [ err x ↦ (err x, s') | ok _ ↦ rest ] else skipped

  abbrev pub primary_block : ℕ
  primary_block = if B.block_size == 1024 then 1 else 0

  abbrev pub primary_offset : ℕ
  primary_offset = if B.block_size == 1024 then 0 else 1024

  pub write_super_block : SuperBlock → B.State → Io
  unfolding write_backups
  write_super_block sb s =
      let (r, s') = patch_super_block_copy sb primary_block primary_offset 0 s in
      let rest = write_backups sb 1 (block_group_count sb - 1) s' in
      if B.read_only then (ok tt, s) else elim r [ err x ↦ (err x, s') | ok _ ↦ rest ]

  -- The loop over the blocks of the table, from block `i`.
  pub write_table_from : List BlockGroupDescriptor → ℕ → ℕ → ℕ → B.State → Io
  unfolding fill_block
  write_table_from groups start i zero s = (ok tt, s)
  write_table_from groups start i (suc count) s =
      let (r, s') = B.read_fs_block (start + i) s in
      elim r [
        | err x ↦ (err x, s')
        | ok buf ↦
            let (w, s'') =
              B.write_fs_block (start + i) (fill_block groups 0 (i * B.block_size) B.block_size buf)
                s' in
            let rest = write_table_from groups start (suc i) count s'' in
            elim w [ err x ↦ (err x, s'') | ok _ ↦ rest ]
      ]

  -- `div_ceil`
  pub write_bgdt_at : List BlockGroupDescriptor → ℕ → B.State → Io
  unfolding write_table_from
  write_bgdt_at groups start s =
      write_table_from groups start 0 ((length groups * 32 + B.block_size - 1) / B.block_size) s

  pub write_table_backups : SuperBlock → List BlockGroupDescriptor → ℕ → ℕ → B.State → Io
  unfolding write_bgdt_at has_backup group_block
  write_table_backups sb groups g zero s = (ok tt, s)
  write_table_backups sb groups g (suc count) s =
      let skipped = write_table_backups sb groups (suc g) count s in
      let (r, s') = write_bgdt_at groups (group_block sb g + 1) s in
      let rest = write_table_backups sb groups (suc g) count s' in
      if has_backup sb g then elim r [ err x ↦ (err x, s') | ok _ ↦ rest ] else skipped

  pub write_block_group_descriptors : SuperBlock → List BlockGroupDescriptor → B.State → Io
  unfolding write_table_backups
  write_block_group_descriptors sb groups s =
      let (r, s') = write_bgdt_at groups (sb.first_data_block + 1) s in
      let rest = write_table_backups sb groups 1 (block_group_count sb - 1) s' in
      if B.read_only then (ok tt, s) else elim r [ err x ↦ (err x, s') | ok _ ↦ rest ]

  -- `write_super_block().and_then(|()| cache.sync())`
  pub publish : SuperBlock → B.State → Io
  unfolding write_super_block
  publish sb s =
      let (r, s') = write_super_block sb s in elim r [ err x ↦ (err x, s') | ok _ ↦ B.sync s' ]

  pub sync : SuperBlock → List BlockGroupDescriptor → B.State → Io
  unfolding write_super_block write_block_group_descriptors
  sync sb groups s =
      let (r, s') = write_super_block sb s in
      elim r [
        | err x ↦ (err x, s')
        | ok _ ↦
            let (t, s'') = write_block_group_descriptors sb groups s' in
            elim t [ err x ↦ (err x, s'') | ok _ ↦ B.sync s'' ]
      ]

  abbrev pub Call : Type 0
  Call = Result FsError (Unit {0}) × Ext2Fs B

  -- `state &= !EXT2_VALID_FS` and `state |= EXT2_VALID_FS`: the valid flag is bit 0.
  abbrev pub marked_unclean : SuperBlock → SuperBlock
  marked_unclean sb = record sb {
    state = sb.state / 2 * 2;
    mnt_count = min (sb.mnt_count + 1) 65535;
  }

  abbrev pub marked_clean : SuperBlock → SuperBlock
  marked_clean sb = record sb { state = sb.state / 2 * 2 + 1 }

  -- The superblock in memory is marked, written and synced; on failure the fields that the mark has
  -- changed are put back in memory, and the superblock is written to the cache again.
  pub publish_or_restore : Ext2Fs B → (SuperBlock → SuperBlock) → (SuperBlock → SuperBlock) → Call
  unfolding publish
  publish_or_restore fs mark restore =
      let marked = record fs { super_block = mark fs.super_block } in
      let (r, s) = publish marked.super_block marked.device in
      elim r [
        | ok _ ↦ (ok tt, record marked { device = s })
        | err x ↦
            let restored = record marked { super_block = restore marked.super_block; device = s } in
            (err x, record restored { device = (write_super_block restored.super_block s).1 })
      ]

  pub on_mount : Ext2Fs B → Call
  unfolding publish_or_restore
  on_mount fs =
      let previous = fs.super_block in
      if B.read_only
      then (ok tt, fs)
      else publish_or_restore fs marked_unclean
          (λ sb. record sb { state = previous.state; mnt_count = previous.mnt_count })

  pub on_unmount : Ext2Fs B → Call
  unfolding sync publish_or_restore
  on_unmount fs =
      let (r, s) = sync fs.super_block fs.block_groups fs.device in
      let fs' = record fs { device = s } in
      let previous = fs.super_block in
      elim r [
        | err x ↦ (err x, fs')
        | ok _ ↦
            if B.read_only
            then (ok tt, fs')
            else publish_or_restore fs' marked_clean (λ sb. record sb { state = previous.state })
      ]

  -- The count of directories of the group of an inode, with a delta of 1 or of -1.
  pub adjust_used_dirs : Ext2Fs B → ℕ → Bool → Ext2Fs B
  adjust_used_dirs fs inode_num up =
      let per = fs.super_block.inodes_per_group in
      let group = sub32 inode_num 1 / per in
      if per == 0 then fs else (elim (get_elem? fs.block_groups group) [
        | none ↦ fs
        | some bg ↦ record fs {
          block_groups = set fs.block_groups group (record bg {
            bg_used_dirs_count =
                if up then min (bg.bg_used_dirs_count + 1) 65535 else bg.bg_used_dirs_count - 1;
          });
        }
      ])
