-- ===== src/Ext2/Mount/Calls.antt =====
-- The calls at mount and unmount: the marker of the superblock in memory and what is written.
use koros.Base.{◌≡◌, refl, ap, false, inl, inr, ◌⊎◌}
use koros.Base.Result.{ok, err, Result-cases}
use koros.Kor.Vfs.{FsError}
use koros.Ext2.SuperBlock.{SuperBlock}
use koros.Ext2.Blocks.{FsBlocks}
use koros.Ext2.Alloc.{Ext2Fs}
use koros.Ext2.Mount.{
  Call, publish, publish_or_restore, write_super_block, marked_unclean, sync, on_mount,
}

module _ (B : FsBlocks) where
  -- The marker `sb` is published from the device `s`: either its write and sync succeed, and it is the
  -- superblock in memory; or one of them fails, the superblock in memory is the old one, and that has
  -- been written behind the marker. The tables are the old ones in both cases.
  pub Published : Ext2Fs B → SuperBlock → B.State → Call B → Type 0
  Published fs sb s out =
      (((out.0 ≡ ok tt)
          × ((publish B sb s).0 ≡ ok tt)
          × (out.1.super_block ≡ sb)
          × (out.1.device ≡ (publish B sb s).1))
        ⊎ ((x : FsError) × (out.0 ≡ err x)
            × ((publish B sb s).0 ≡ err x)
            × (out.1.super_block ≡ fs.super_block)
            × (out.1.device ≡ (write_super_block B fs.super_block (publish B sb s).1).1)))
      × (out.1.block_groups ≡ fs.block_groups)
      × (out.1.inode_cache ≡ fs.inode_cache)

  publish_or_restore_lem :
      (fs : Ext2Fs B) (mark restore : SuperBlock → SuperBlock)
      → restore (mark fs.super_block) ≡ fs.super_block
      → Published fs (mark fs.super_block) fs.device (publish_or_restore B fs mark restore)
  unfolding publish_or_restore Published
  publish_or_restore_lem fs mark restore back =
      elim (Result-cases (publish B (mark fs.super_block) fs.device).0) [
        | inl (u, h) ↦ rw (h, publish_or_restore) (inl (refl, refl, refl, refl), refl, refl)
        | inr (x, h) ↦
            rw (h, publish_or_restore)
              (
                inr (
                  x,
                  refl,
                  refl,
                  back,
                  ap
                      (λ sb.
                        (write_super_block B sb (publish B (mark fs.super_block) fs.device).1).1)
                      back,
                ),
                refl,
                refl,
              )
      ]

  -- `on_mount` of a file system that can be written publishes the superblock marked as not cleanly
  -- unmounted, with one more mount counted, or restores the old one.
  pub on_mount_atomic :
      (fs : Ext2Fs B)
      → B.read_only ≡ false
      → Published fs (marked_unclean B fs.super_block) fs.device (on_mount B fs)
  unfolding on_mount
  on_mount_atomic fs h =
      rw (h, on_mount)
        (publish_or_restore_lem fs (marked_unclean B)
          (λ sb. record sb { state = fs.super_block.state; mnt_count = fs.super_block.mnt_count })
          refl)

  abbrev pub synced : Ext2Fs B → Ext2Fs B
  synced fs = record fs { device = (sync B fs.super_block fs.block_groups fs.device).1 }

  abbrev unmarked : Ext2Fs B → SuperBlock → SuperBlock
  unmarked fs sb = record sb { state = fs.super_block.state }
