-- ===== src/Ext2/SuperBlock/Patch.antt =====
-- What `patch_into` writes, against what `from_raw` reads.
use koros.Base.{
  ℕ, ◌+◌, ◌^◌, ◌<◌, ◌≤◌, ◌≡◌, ◌⊎◌, inl, inr, refl, sym, ap, ◌∙◌, ltb, List, length, arith,
  Bool-cases, subst,
}
use koros.Base.Words.{
  splice, slice, read_le, to_le_bytes, from_le_bytes, length-splice, length-to_le_bytes,
  slice-splice_apart, read_le-splice,
}
use koros.Base.Result.{ok}
use koros.Ext2.SuperBlock.{RawSuperBlock, SuperBlock, raw_at, from_raw, parsed, patch_into}
use koros.Ext2.SuperBlock.Valid.{accepted}

-- A range that none of the six fields touches.
abbrev Untouched : ℕ → ℕ → Type 0
Untouched start count =
    (start + count ≤ 12)
    ⊎ ((20 ≤ start) × (start + count ≤ 48))
    ⊎ ((54 ≤ start) × (start + count ≤ 58))
    ⊎ ((60 ≤ start) × (start + count ≤ 90))
    ⊎ (92 ≤ start)

module _ (sb : SuperBlock) (buf : List ℕ) (nr wtime : ℕ) (h : length buf ≡ 1024) where
  -- The images between the writes.
  abbrev buf1 : List ℕ
  buf1 = splice buf 12 (to_le_bytes 4 sb.free_blocks_count)

  abbrev buf2 : List ℕ
  buf2 = splice buf1 16 (to_le_bytes 4 sb.free_inodes_count)

  abbrev buf3 : List ℕ
  buf3 = splice buf2 52 (to_le_bytes 2 sb.mnt_count)

  abbrev buf4 : List ℕ
  buf4 = splice buf3 48 (to_le_bytes 4 wtime)

  abbrev buf5 : List ℕ
  buf5 = splice buf4 58 (to_le_bytes 2 sb.state)

  abbrev buf6 : List ℕ
  buf6 = splice buf5 90 (to_le_bytes 2 nr)

  -- The bytes of a number fit at an offset of an image of 1024 bytes.
  fits :
      (image : List ℕ) (offset count x : ℕ)
      → length image ≡ 1024
      → offset + count ≤ 1024
      → offset + length (to_le_bytes count x) ≤ length image
  fits image offset count x l k = omega (arith, length-to_le_bytes count x)

  stays :
      (image : List ℕ) (offset count x : ℕ)
      → length image ≡ 1024
      → offset + count ≤ 1024
      → length (splice image offset (to_le_bytes count x)) ≡ 1024
  stays image offset count x l k =
      length-splice image offset (to_le_bytes count x) (fits image offset count x l k) ∙ l

  apart :
      (image : List ℕ) (offset count x start len : ℕ)
      → length image ≡ 1024
      → offset + count ≤ 1024
      → (start + len ≤ offset) ⊎ (offset + count ≤ start)
      → slice (splice image offset (to_le_bytes count x)) start len ≡ slice image start len
  apart image offset count x start len l k a =
      slice-splice_apart image offset (to_le_bytes count x) start len
        (fits image offset count x l k)
        (subst (λ n. (start + len ≤ offset) ⊎ (offset + n ≤ start))
          (sym (length-to_le_bytes count x)) a)

  length1 : length buf1 ≡ 1024
  length1 = stays buf 12 4 sb.free_blocks_count h (omega arith)

  length2 : length buf2 ≡ 1024
  length2 = stays buf1 16 4 sb.free_inodes_count length1 (omega arith)

  length3 : length buf3 ≡ 1024
  length3 = stays buf2 52 2 sb.mnt_count length2 (omega arith)

  length4 : length buf4 ≡ 1024
  length4 = stays buf3 48 4 wtime length3 (omega arith)

  length5 : length buf5 ≡ 1024
  length5 = stays buf4 58 2 sb.state length4 (omega arith)

  pub length-patch_into : length (patch_into sb buf nr wtime) ≡ 1024
  unfolding patch_into
  length-patch_into = elim (Bool-cases (ltb 0 sb.rev_level)) [
    | inl e ↦ rw (e, patch_into) (stays buf5 90 2 nr length5 (omega arith))
    | inr e ↦ rw (e, patch_into) length5
  ]

  -- From the last image to the one after the first write, and to what was there.
  last_apart :
      (start len : ℕ)
      → (start + len ≤ 90) ⊎ (92 ≤ start)
      → slice (patch_into sb buf nr wtime) start len ≡ slice buf5 start len
  unfolding patch_into
  last_apart start len a = elim (Bool-cases (ltb 0 sb.rev_level)) [
    | inl e ↦ rw (e, patch_into) (apart buf5 90 2 nr start len length5 (omega arith) a)
    | inr e ↦ rw (e, patch_into) refl
  ]

  untouched :
      (start len : ℕ)
      → Untouched start len
      → slice (patch_into sb buf nr wtime) start len ≡ slice buf start len
  untouched start len u =
      last_apart start len (omega arith)
      ∙ apart buf4 58 2 sb.state start len length4 (omega arith) (omega arith)
      ∙ apart buf3 48 4 wtime start len length3 (omega arith) (omega arith)
      ∙ apart buf2 52 2 sb.mnt_count start len length2 (omega arith) (omega arith)
      ∙ apart buf1 16 4 sb.free_inodes_count start len length1 (omega arith) (omega arith)
      ∙ apart buf 12 4 sb.free_blocks_count start len h (omega arith) (omega arith)

  read-Untouched :
      (start len : ℕ)
      → Untouched start len
      → read_le (patch_into sb buf nr wtime) start len ≡ read_le buf start len
  unfolding read_le
  read-Untouched start len u = ap from_le_bytes (untouched start len u)

  read_apart :
      (image : List ℕ) (offset count x start len : ℕ)
      → length image ≡ 1024
      → offset + count ≤ 1024
      → (start + len ≤ offset) ⊎ (offset + count ≤ start)
      → read_le (splice image offset (to_le_bytes count x)) start len ≡ read_le image start len
  unfolding read_le
  read_apart image offset count x start len l k a =
      ap from_le_bytes (apart image offset count x start len l k a)

  read_last :
      (start len : ℕ)
      → (start + len ≤ 90) ⊎ (92 ≤ start)
      → read_le (patch_into sb buf nr wtime) start len ≡ read_le buf5 start len
  unfolding read_le
  read_last start len a = ap from_le_bytes (last_apart start len a)

  read_state : sb.state < 256 ^ 2 → read_le (patch_into sb buf nr wtime) 58 2 ≡ sb.state
  read_state b =
      read_last 58 2 (omega arith) ∙ read_le-splice buf4 58 2 sb.state (omega (arith, length4)) b

  read_mnt_count : sb.mnt_count < 256 ^ 2 → read_le (patch_into sb buf nr wtime) 52 2 ≡ sb.mnt_count
  read_mnt_count b =
      read_last 52 2 (omega arith)
      ∙ read_apart buf4 58 2 sb.state 52 2 length4 (omega arith) (omega arith)
      ∙ read_apart buf3 48 4 wtime 52 2 length3 (omega arith) (omega arith)
      ∙ read_le-splice buf2 52 2 sb.mnt_count (omega (arith, length2)) b

  read_free_inodes :
      sb.free_inodes_count < 256 ^ 4
      → read_le (patch_into sb buf nr wtime) 16 4 ≡ sb.free_inodes_count
  read_free_inodes b =
      read_last 16 4 (omega arith)
      ∙ read_apart buf4 58 2 sb.state 16 4 length4 (omega arith) (omega arith)
      ∙ read_apart buf3 48 4 wtime 16 4 length3 (omega arith) (omega arith)
      ∙ read_apart buf2 52 2 sb.mnt_count 16 4 length2 (omega arith) (omega arith)
      ∙ read_le-splice buf1 16 4 sb.free_inodes_count (omega (arith, length1)) b

  read_free_blocks :
      sb.free_blocks_count < 256 ^ 4
      → read_le (patch_into sb buf nr wtime) 12 4 ≡ sb.free_blocks_count
  read_free_blocks b =
      read_last 12 4 (omega arith)
      ∙ read_apart buf4 58 2 sb.state 12 4 length4 (omega arith) (omega arith)
      ∙ read_apart buf3 48 4 wtime 12 4 length3 (omega arith) (omega arith)
      ∙ read_apart buf2 52 2 sb.mnt_count 12 4 length2 (omega arith) (omega arith)
      ∙ read_apart buf1 16 4 sb.free_inodes_count 12 4 length1 (omega arith) (omega arith)
      ∙ read_le-splice buf 12 4 sb.free_blocks_count (omega (arith, h)) b

-- The counters that the file system changes while it is mounted, within the widths of their fields.
pub record Counters : Type 0 where
  pub free_blocks : ℕ
  pub free_inodes : ℕ
  pub mounts : ℕ
  pub flags : ℕ
  pub blocks_fit : free_blocks < 256 ^ 4
  pub inodes_fit : free_inodes < 256 ^ 4
  pub mounts_fit : mounts < 256 ^ 2
  pub flags_fit : flags < 256 ^ 2

abbrev pub with_counters : SuperBlock → Counters → SuperBlock
with_counters sb c = record sb {
  free_blocks_count = c.free_blocks;
  free_inodes_count = c.free_inodes;
  state = c.flags;
  mnt_count = c.mounts;
}

-- What `from_raw` uses of the patched image: the counters, and the fields that were there.
raw_patched :
    (sb : SuperBlock) (buf : List ℕ) (nr wtime : ℕ) (c : Counters)
    → length buf ≡ 1024
    → let out = patch_into (with_counters sb c) buf nr wtime in
      raw_at out ≡ record (raw_at buf) {
        free_blocks_count = c.free_blocks;
        free_inodes_count = c.free_inodes;
        wtime = read_le out 48 4;
        mnt_count = c.mounts;
        state = c.flags;
        block_group_nr = read_le out 90 2;
      }
unfolding raw_at
raw_patched sb buf nr wtime c h =
    let sb' = with_counters sb c in
    rw
      (
        read-Untouched sb' buf nr wtime h 0 4 (omega arith),
        read-Untouched sb' buf nr wtime h 4 4 (omega arith),
        read-Untouched sb' buf nr wtime h 8 4 (omega arith),
        read_free_blocks sb' buf nr wtime h c.blocks_fit,
        read_free_inodes sb' buf nr wtime h c.inodes_fit,
        read-Untouched sb' buf nr wtime h 20 4 (omega arith),
        read-Untouched sb' buf nr wtime h 24 4 (omega arith),
        read-Untouched sb' buf nr wtime h 28 4 (omega arith),
        read-Untouched sb' buf nr wtime h 32 4 (omega arith),
        read-Untouched sb' buf nr wtime h 36 4 (omega arith),
        read-Untouched sb' buf nr wtime h 40 4 (omega arith),
        read-Untouched sb' buf nr wtime h 44 4 (omega arith),
        read_mnt_count sb' buf nr wtime h c.mounts_fit,
        read-Untouched sb' buf nr wtime h 54 2 (omega arith),
        read-Untouched sb' buf nr wtime h 56 2 (omega arith),
        read_state sb' buf nr wtime h c.flags_fit,
        read-Untouched sb' buf nr wtime h 60 2 (omega arith),
        read-Untouched sb' buf nr wtime h 62 2 (omega arith),
        read-Untouched sb' buf nr wtime h 64 4 (omega arith),
        read-Untouched sb' buf nr wtime h 68 4 (omega arith),
        read-Untouched sb' buf nr wtime h 72 4 (omega arith),
        read-Untouched sb' buf nr wtime h 76 4 (omega arith),
        read-Untouched sb' buf nr wtime h 80 2 (omega arith),
        read-Untouched sb' buf nr wtime h 82 2 (omega arith),
        read-Untouched sb' buf nr wtime h 84 4 (omega arith),
        read-Untouched sb' buf nr wtime h 88 2 (omega arith),
        read-Untouched sb' buf nr wtime h 92 4 (omega arith),
        read-Untouched sb' buf nr wtime h 96 4 (omega arith),
        read-Untouched sb' buf nr wtime h 100 4 (omega arith),
        untouched sb' buf nr wtime h 104 16 (omega arith),
        untouched sb' buf nr wtime h 120 16 (omega arith),
        untouched sb' buf nr wtime h 136 64 (omega arith),
        read-Untouched sb' buf nr wtime h 200 4 (omega arith),
      )
      refl

parsed_fields :
    (raw : RawSuperBlock) (c : Counters) (w g : ℕ) (sb : SuperBlock)
    → from_raw raw ≡ ok sb
    → from_raw (record raw {
      free_blocks_count = c.free_blocks;
      free_inodes_count = c.free_inodes;
      wtime = w;
      mnt_count = c.mounts;
      state = c.flags;
      block_group_nr = g;
    })
      ≡ ok (with_counters sb c)
unfolding from_raw parsed
parsed_fields raw c w g sb h =
    let (m, b, i, p) = accepted raw sb h in
    rw (m, b, i, from_raw) (ap (λ s. ok (with_counters s c)) p)

-- `patch_into` and `from_raw` agree on the layout: if an image of 1024 bytes is read as a superblock,
-- then the image after the patch of that superblock with any counters that fit their fields is read
-- as the superblock with these counters, whichever group and time are written.
pub from_raw-patch_into :
    (buf : List ℕ) (sb : SuperBlock) (c : Counters) (nr wtime : ℕ)
    → length buf ≡ 1024
    → from_raw (raw_at buf) ≡ ok sb
    → from_raw (raw_at (patch_into (with_counters sb c) buf nr wtime)) ≡ ok (with_counters sb c)
from_raw-patch_into buf sb c nr wtime h k =
    let out = patch_into (with_counters sb c) buf nr wtime in
    ap from_raw (raw_patched sb buf nr wtime c h)
    ∙ parsed_fields (raw_at buf) c (read_le out 48 4) (read_le out 90 2) sb k
