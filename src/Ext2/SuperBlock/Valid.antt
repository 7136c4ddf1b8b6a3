-- ===== src/Ext2/SuperBlock/Valid.antt =====
-- What a superblock that `from_raw` accepts looks like.
use koros.Base.Powers.{power_of_two_lem}
use koros.Base.{
  ℕ, ◌⊎◌, inl, inr, ◌↔◌, sym, ◌∙◌, ◌-◌, ◌*◌, ◌^◌, ◌≤◌, ◌<◌, ◌≡◌, ◌==◌, true, false, arith, subst,
}
use koros.Base.Result.{ok, err}
use koros.Kor.Vfs.{invalid_input}
use koros.Ext2.SuperBlock.{
  RawSuperBlock, SuperBlock, ext2_magic, bad_geometry, bad_inode_size, inode_size_of,
  is_power_of_two, parsed, from_raw, block_size, block_group_count,
}

-- What the code that uses a superblock divides by and shifts by.
pub record IsValid (sb : SuperBlock) : Type 0 where
  pub magic : sb.magic ≡ ext2_magic
  pub log_low : sb.log_block_size ≤ 6
  pub blocks : 0 < sb.blocks_count
  pub inodes : 0 < sb.inodes_count
  pub blocks_per : 0 < sb.blocks_per_group
  pub inodes_per : 0 < sb.inodes_per_group
  pub inode_low : 128 ≤ sb.inode_size
  pub inode_power : is_power_of_two sb.inode_size ≡ true
  pub inode_fits : sb.inode_size ≤ block_size sb

pub accepted :
    (raw : RawSuperBlock) (sb : SuperBlock)
    → from_raw raw ≡ ok sb
    → ((raw.magic == ext2_magic) ≡ true)
      × (bad_geometry raw ≡ false)
      × (bad_inode_size (inode_size_of raw) (1024 * 2 ^ raw.log_block_size) ≡ false)
      × (parsed raw ≡ sb)
unfolding from_raw
accepted raw sb h = ground arith

parsed-IsValid :
    (raw : RawSuperBlock)
    → (raw.magic == ext2_magic) ≡ true
    → bad_geometry raw ≡ false
    → bad_inode_size (inode_size_of raw) (1024 * 2 ^ raw.log_block_size) ≡ false
    → IsValid (parsed raw)
unfolding bad_geometry bad_inode_size block_size parsed
parsed-IsValid raw m g i = record {
  magic = ground arith;
  log_low = ground arith;
  blocks = ground arith;
  inodes = ground arith;
  blocks_per = ground arith;
  inodes_per = ground arith;
  inode_low = ground arith;
  inode_power = ground arith;
  inode_fits = ground arith;
}

-- A superblock that `from_raw` accepts has the magic number, a block of at most 64 KiB, blocks,
-- inodes and groups that are not empty, and an inode size that is a power of two, at least 128 and
-- at most a block.
pub from_raw-IsValid : (raw : RawSuperBlock) (sb : SuperBlock) → from_raw raw ≡ ok sb → IsValid sb
from_raw-IsValid raw sb h =
    let (m, g, i, p) = accepted raw sb h in subst IsValid p (parsed-IsValid raw m g i)

-- What a raw superblock has to be like, in words of its own: the inode size is a power of two.
pub record IsUsable (raw : RawSuperBlock) : Type 0 where
  pub magic : raw.magic ≡ ext2_magic
  pub log_low : raw.log_block_size ≤ 6
  pub blocks : 0 < raw.blocks_count
  pub inodes : 0 < raw.inodes_count
  pub blocks_per : 0 < raw.blocks_per_group
  pub inodes_per : 0 < raw.inodes_per_group
  pub power : (k : ℕ) × (inode_size_of raw ≡ 2 ^ k)
  pub inode_low : 128 ≤ inode_size_of raw
  pub inode_fits : inode_size_of raw ≤ 1024 * 2 ^ raw.log_block_size

power_lem : (x : ℕ) → 0 < x → (is_power_of_two x ≡ true) ↔ ((k : ℕ) × (x ≡ 2 ^ k))
unfolding is_power_of_two
power_lem x p = (
  λ e. (power_of_two_lem x p).0 (ground (arith, e)),
  λ q. let masked = (power_of_two_lem x p).1 q in ground (arith, masked, p),
)

usable-accepted : (raw : RawSuperBlock) → IsUsable raw → from_raw raw ≡ ok (parsed raw)
unfolding from_raw bad_geometry bad_inode_size
usable-accepted raw u =
    let p = (power_lem (inode_size_of raw) (omega (arith, u.inode_low))).1 u.power in
    ground (
      arith, p, u.magic, u.log_low, u.blocks, u.inodes, u.blocks_per, u.inodes_per, u.inode_low,
      u.inode_fits,
    )

accepted-IsUsable :
    (raw : RawSuperBlock)
    → (raw.magic == ext2_magic) ≡ true
    → bad_geometry raw ≡ false
    → bad_inode_size (inode_size_of raw) (1024 * 2 ^ raw.log_block_size) ≡ false
    → IsUsable raw
unfolding bad_geometry bad_inode_size
accepted-IsUsable raw m g i =
    let low : 128 ≤ inode_size_of raw = ground arith in
    let power : is_power_of_two (inode_size_of raw) ≡ true = ground arith in
    record {
      magic = ground arith;
      log_low = ground arith;
      blocks = ground arith;
      inodes = ground arith;
      blocks_per = ground arith;
      inodes_per = ground arith;
      power = (power_lem (inode_size_of raw) (omega (arith, low))).0 power;
      inode_low = low;
      inode_fits = ground arith;
    }

rejected :
    (raw : RawSuperBlock)
    → (from_raw raw ≡ err invalid_input)
      ⊎ (((raw.magic == ext2_magic) ≡ true)
          × (bad_geometry raw ≡ false)
          × (bad_inode_size (inode_size_of raw) (1024 * 2 ^ raw.log_block_size) ≡ false))
unfolding from_raw
rejected raw = ground arith

-- `from_raw` accepts a raw superblock, and gives its parsed fields, just if the magic number is right,
-- the block has at most 64 KiB, there are blocks and inodes, in the groups too, and the inode size is a
-- power of two, at least 128 and at most a block; else it is an error, `InvalidInput`.
pub from_raw-IsUsable :
    (raw : RawSuperBlock)
    → (IsUsable raw × (from_raw raw ≡ ok (parsed raw)))
      ⊎ ((¬ IsUsable raw) × (from_raw raw ≡ err invalid_input))
from_raw-IsUsable raw = elim (rejected raw) [
  | inl e ↦ inr (λ u. absurd (let clash = sym (usable-accepted raw u) ∙ e in cc), e)
  | inr (m, g, i) ↦ let u = accepted-IsUsable raw m g i in inl (u, usable-accepted raw u)
]

-- The groups of a valid superblock cover its blocks, and each of them has a first block.
pub block_group_count_covers :
    (sb : SuperBlock)
    → IsValid sb
    → (sb.blocks_count ≤ block_group_count sb * sb.blocks_per_group)
      × ((block_group_count sb - 1) * sb.blocks_per_group < sb.blocks_count)
unfolding block_group_count
block_group_count_covers sb v = grind arith
