-- ===== src/Ext2/SuperBlock.antt =====
-- filesystems/kor-ext2/src/super_block.rs and block_group.rs: the superblock on disk and in memory, its
-- validation, and the write of its counters into an image of 1024 bytes.
pub mod Valid
pub mod Patch
mod Tests
use koros.Base.{
  ℕ, zero, suc, ◌+◌, ◌-◌, ◌*◌, ◌/◌, ◌^◌, ◌==◌, Bool, true, false, not, ◌||◌, ◌&&◌, ltb,
  if◌then◌else◌, List,
}
use koros.Base.Words.{to_le_bytes, splice, slice, read_le}
use koros.Base.Result.{Result, ok, err}
use koros.Kor.Vfs.{FsError, invalid_input}
use Prim.Native.Nat.{bit_and}

abbrev pub ext2_magic : ℕ
ext2_magic = 61267

abbrev pub max_log_block_size : ℕ
max_log_block_size = 6

pub record RawSuperBlock : Type 0 where
  pub inodes_count : ℕ
  pub blocks_count : ℕ
  pub r_blocks_count : ℕ
  pub free_blocks_count : ℕ
  pub free_inodes_count : ℕ
  pub first_data_block : ℕ
  pub log_block_size : ℕ
  pub log_frag_size : ℕ
  pub blocks_per_group : ℕ
  pub frags_per_group : ℕ
  pub inodes_per_group : ℕ
  pub mtime : ℕ
  pub wtime : ℕ
  pub mnt_count : ℕ
  pub max_mnt_count : ℕ
  pub magic : ℕ
  pub state : ℕ
  pub errors : ℕ
  pub minor_rev_level : ℕ
  pub lastcheck : ℕ
  pub checkinterval : ℕ
  pub creator_os : ℕ
  pub rev_level : ℕ
  pub def_resuid : ℕ
  pub def_resgid : ℕ
  pub first_ino : ℕ
  pub inode_size : ℕ
  pub block_group_nr : ℕ
  pub feature_compat : ℕ
  pub feature_incompat : ℕ
  pub feature_ro_compat : ℕ
  pub uuid : List ℕ
  pub volume_name : List ℕ
  pub last_mounted : List ℕ
  pub algo_bitmap : ℕ

pub record SuperBlock : Type 0 where
  pub inodes_count : ℕ
  pub blocks_count : ℕ
  pub free_blocks_count : ℕ
  pub free_inodes_count : ℕ
  pub first_data_block : ℕ
  pub log_block_size : ℕ
  pub blocks_per_group : ℕ
  pub inodes_per_group : ℕ
  pub inode_size : ℕ
  pub magic : ℕ
  pub rev_level : ℕ
  pub first_ino : ℕ
  pub feature_compat : ℕ
  pub feature_incompat : ℕ
  pub feature_ro_compat : ℕ
  pub state : ℕ
  pub mnt_count : ℕ

pub record BlockGroupDescriptor : Type 0 where
  pub bg_block_bitmap : ℕ
  pub bg_inode_bitmap : ℕ
  pub bg_inode_table : ℕ
  pub bg_free_blocks_count : ℕ
  pub bg_free_inodes_count : ℕ
  pub bg_used_dirs_count : ℕ
  pub bg_pad : ℕ
  pub bg_reserved : List ℕ

-- The image seen as the packed structure (`bytemuck_or_ref::<RawSuperBlock>`).
unfoldable pub raw_at : List ℕ → RawSuperBlock
unfolding read_le slice
raw_at buf = record {
  inodes_count = read_le buf 0 4;
  blocks_count = read_le buf 4 4;
  r_blocks_count = read_le buf 8 4;
  free_blocks_count = read_le buf 12 4;
  free_inodes_count = read_le buf 16 4;
  first_data_block = read_le buf 20 4;
  log_block_size = read_le buf 24 4;
  log_frag_size = read_le buf 28 4;
  blocks_per_group = read_le buf 32 4;
  frags_per_group = read_le buf 36 4;
  inodes_per_group = read_le buf 40 4;
  mtime = read_le buf 44 4;
  wtime = read_le buf 48 4;
  mnt_count = read_le buf 52 2;
  max_mnt_count = read_le buf 54 2;
  magic = read_le buf 56 2;
  state = read_le buf 58 2;
  errors = read_le buf 60 2;
  minor_rev_level = read_le buf 62 2;
  lastcheck = read_le buf 64 4;
  checkinterval = read_le buf 68 4;
  creator_os = read_le buf 72 4;
  rev_level = read_le buf 76 4;
  def_resuid = read_le buf 80 2;
  def_resgid = read_le buf 82 2;
  first_ino = read_le buf 84 4;
  inode_size = read_le buf 88 2;
  block_group_nr = read_le buf 90 2;
  feature_compat = read_le buf 92 4;
  feature_incompat = read_le buf 96 4;
  feature_ro_compat = read_le buf 100 4;
  uuid = slice buf 104 16;
  volume_name = slice buf 120 16;
  last_mounted = slice buf 136 64;
  algo_bitmap = read_le buf 200 4;
}

-- The guard on the geometry.
unfoldable pub bad_geometry : RawSuperBlock → Bool
bad_geometry raw =
    ltb max_log_block_size raw.log_block_size
    || raw.blocks_per_group == 0
    || raw.inodes_per_group == 0
    || raw.blocks_count == 0
    || raw.inodes_count == 0

-- Revision 0 has a fixed inode size and first inode; in revision 1 a zero stands for these.
unfoldable pub inode_size_of : RawSuperBlock → ℕ
inode_size_of raw =
    if raw.rev_level == 0 then 128 else if raw.inode_size == 0 then 128 else raw.inode_size

unfoldable pub first_ino_of : RawSuperBlock → ℕ
first_ino_of raw =
    if raw.rev_level == 0 then 11 else if raw.first_ino == 0 then 11 else raw.first_ino

-- `is_power_of_two`: a single bit is set, so that `x & (x - 1)` is 0.
unfoldable pub is_power_of_two : ℕ → Bool
is_power_of_two x = not (x == 0) && bit_and x (x - 1) == 0

unfoldable pub bad_inode_size : ℕ → ℕ → Bool
unfolding is_power_of_two
bad_inode_size inode_size block_size =
    ltb inode_size 128 || not (is_power_of_two inode_size) || ltb block_size inode_size

unfoldable pub parsed : RawSuperBlock → SuperBlock
unfolding inode_size_of first_ino_of
parsed raw = record {
  inodes_count = raw.inodes_count;
  blocks_count = raw.blocks_count;
  free_blocks_count = raw.free_blocks_count;
  free_inodes_count = raw.free_inodes_count;
  first_data_block = raw.first_data_block;
  log_block_size = raw.log_block_size;
  blocks_per_group = raw.blocks_per_group;
  inodes_per_group = raw.inodes_per_group;
  inode_size = inode_size_of raw;
  magic = raw.magic;
  rev_level = raw.rev_level;
  first_ino = first_ino_of raw;
  feature_compat = raw.feature_compat;
  feature_incompat = raw.feature_incompat;
  feature_ro_compat = raw.feature_ro_compat;
  state = raw.state;
  mnt_count = raw.mnt_count;
}

unfoldable pub from_raw : RawSuperBlock → Result FsError SuperBlock
unfolding bad_geometry bad_inode_size inode_size_of parsed
from_raw raw =
    if not (raw.magic == ext2_magic)
    then err invalid_input
    else if bad_geometry raw
    then err invalid_input
    else if bad_inode_size (inode_size_of raw) (1024 * 2 ^ raw.log_block_size)
    then err invalid_input
    else ok (parsed raw)

-- `1024 << log_block_size`
unfoldable pub block_size : SuperBlock → ℕ
block_size sb = 1024 * 2 ^ sb.log_block_size

-- `div_ceil`
unfoldable pub block_group_count : SuperBlock → ℕ
block_group_count sb = (sb.blocks_count + sb.blocks_per_group - 1) / sb.blocks_per_group

unfoldable pub has_filetype : SuperBlock → Bool
has_filetype sb = not (bit_and sb.feature_incompat 2 == 0)

unfoldable pub has_large_file : SuperBlock → Bool
has_large_file sb = not (bit_and sb.feature_ro_compat 2 == 0)

unfoldable pub has_sparse_super : SuperBlock → Bool
has_sparse_super sb = not (bit_and sb.feature_ro_compat 1 == 0)

-- `!SUPPORTED` over 32 bits.
unfoldable pub unsupported_incompat : SuperBlock → ℕ
unsupported_incompat sb = bit_and sb.feature_incompat (2 ^ 32 - 1 - 2)

unfoldable pub unsupported_ro_compat : SuperBlock → ℕ
unsupported_ro_compat sb = bit_and sb.feature_ro_compat (2 ^ 32 - 1 - 3)

-- The slices at the offsets of the counters: each `copy_from_slice` fits in the image of 1024 bytes.
unfoldable pub patch_into : SuperBlock → List ℕ → ℕ → ℕ → List ℕ
unfolding splice to_le_bytes
patch_into sb buf block_group_nr wtime =
    let buf1 = splice buf 12 (to_le_bytes 4 sb.free_blocks_count) in
    let buf2 = splice buf1 16 (to_le_bytes 4 sb.free_inodes_count) in
    let buf3 = splice buf2 52 (to_le_bytes 2 sb.mnt_count) in
    let buf4 = splice buf3 48 (to_le_bytes 4 wtime) in
    let buf5 = splice buf4 58 (to_le_bytes 2 sb.state) in
    if ltb 0 sb.rev_level then splice buf5 90 (to_le_bytes 2 block_group_nr) else buf5
