-- ===== src/Ext2/Mount/Table.antt =====
-- The descriptor table is read back as it was written.
use koros.Base.{
  ℕ, suc, ◌+◌, ◌-◌, ◌*◌, ◌^◌, ◌≤◌, ◌<◌, ◌≡◌, refl, sym, ◌∙◌, ap, inl, ltb, leb, ◌||◌, false, List,
  [], ◌∷◌, length, take, arith,
}
use koros.Base.Index.{list_ext}
use koros.Base.Words.{
  to_le_bytes, from_le_bytes, read_le, splice, slice, length-splice, slice-splice,
  slice-splice_apart, get_elem?-slice, from_le_bytes-to_le_bytes,
}
use koros.Ext2.SuperBlock.{BlockGroupDescriptor}
use koros.Ext2.Mount.{
  descriptor_bytes, descriptor_at, parse_from, parse_block_group_descriptors, fill_block,
}

-- The fields fit their widths, and the reserved words are twelve bytes.
pub record Fits (bg : BlockGroupDescriptor) : Type 0 where
  pub block_bitmap : bg.bg_block_bitmap < 256 ^ 4
  pub inode_bitmap : bg.bg_inode_bitmap < 256 ^ 4
  pub inode_table : bg.bg_inode_table < 256 ^ 4
  pub free_blocks : bg.bg_free_blocks_count < 256 ^ 2
  pub free_inodes : bg.bg_free_inodes_count < 256 ^ 2
  pub used_dirs : bg.bg_used_dirs_count < 256 ^ 2
  pub pad : bg.bg_pad < 256 ^ 2
  pub reserved : length bg.bg_reserved ≡ 12

abbrev pub AllFit : List BlockGroupDescriptor → Type 0
AllFit [] = Unit {0}
AllFit (bg ∷ groups) = Fits bg × AllFit groups

slice-slice :
    (buf : List ℕ) (offset len a n : ℕ)
    → a + n ≤ len
    → slice (slice buf offset len) a n ≡ slice buf (offset + a) n
slice-slice buf offset len a n h = list_ext _ _ λ i. ground (
  arith,
  get_elem?-slice (slice buf offset len) a n i,
  get_elem?-slice buf offset len (a + i),
  get_elem?-slice buf (offset + a) n i,
)

take_all : (xs : List ℕ) → take (length xs) xs ≡ xs
take_all [] = refl
take_all (x ∷ xs) = ap (λ ys. x ∷ ys) (take_all xs)

length-descriptor_bytes : (bg : BlockGroupDescriptor) → Fits bg → length (descriptor_bytes bg) ≡ 32
unfolding descriptor_bytes to_le_bytes
length-descriptor_bytes bg f = let r = f.reserved in omega arith

module _ (buf : List ℕ) (offset : ℕ) (bg : BlockGroupDescriptor) (f : Fits bg)
    (h : slice buf offset 32 ≡ descriptor_bytes bg) where
  field_at : (a n : ℕ) → a + n ≤ 32 → slice buf (offset + a) n ≡ slice (descriptor_bytes bg) a n
  field_at a n k = sym (slice-slice buf offset 32 a n k) ∙ ap (λ d. slice d a n) h

  number_at :
      (a n x : ℕ)
      → a + n ≤ 32
      → slice (descriptor_bytes bg) a n ≡ to_le_bytes n x
      → x < 256 ^ n
      → read_le buf (offset + a) n ≡ x
  unfolding read_le
  number_at a n x k e b = ap from_le_bytes (field_at a n k ∙ e) ∙ from_le_bytes-to_le_bytes n x b

  pub descriptor_at-descriptor_bytes : descriptor_at buf offset ≡ bg
  unfolding descriptor_at descriptor_bytes to_le_bytes slice
  descriptor_at-descriptor_bytes =
      rw
        (
          ap (λ o. read_le buf o 4) (start offset)
              ∙ number_at 0 4 bg.bg_block_bitmap (omega arith) refl f.block_bitmap,
          number_at 4 4 bg.bg_inode_bitmap (omega arith) refl f.inode_bitmap,
          number_at 8 4 bg.bg_inode_table (omega arith) refl f.inode_table,
          number_at 12 2 bg.bg_free_blocks_count (omega arith) refl f.free_blocks,
          number_at 14 2 bg.bg_free_inodes_count (omega arith) refl f.free_inodes,
          number_at 16 2 bg.bg_used_dirs_count (omega arith) refl f.used_dirs,
          number_at 18 2 bg.bg_pad (omega arith) refl f.pad,
          field_at 20 12 (omega arith)
              ∙ ap (λ n. take n bg.bg_reserved) (sym f.reserved)
              ∙ take_all bg.bg_reserved,
        )
        refl
    where
      start : (offset : ℕ) → offset ≡ offset + 0
      start offset = omega arith

fill_block-step :
    (bg : BlockGroupDescriptor) (groups : List BlockGroupDescriptor) (gi block_size : ℕ)
    (buf : List ℕ)
    → gi * 32 + 32 ≤ block_size
    → fill_block (bg ∷ groups) gi 0 block_size buf
      ≡ fill_block groups (suc gi) 0 block_size (splice buf (gi * 32) (descriptor_bytes bg))
unfolding fill_block
fill_block-step bg groups gi block_size buf h =
    let inside : (leb (gi * 32 + 32) 0 || leb (0 + block_size) (gi * 32)) ≡ false = ground arith in
    let exact : gi * 32 - 0 ≡ gi * 32 = omega arith in rw (inside, exact, fill_block) refl

fill_block-keeps :
    (groups : List BlockGroupDescriptor) (gi block_size start : ℕ) (buf : List ℕ)
    → AllFit groups
    → length buf ≡ block_size
    → (gi + length groups) * 32 ≤ block_size
    → start + 32 ≤ gi * 32
    → (slice (fill_block groups gi 0 block_size buf) start 32 ≡ slice buf start 32)
      × (length (fill_block groups gi 0 block_size buf) ≡ block_size)
unfolding fill_block
fill_block-keeps [] gi block_size start buf f l h k = (refl, l)
fill_block-keeps (bg ∷ groups) gi block_size start buf f l h k =
    let size = length-descriptor_bytes bg f.0 in
    let buf' = splice buf (gi * 32) (descriptor_bytes bg) in
    let step = fill_block-step bg groups gi block_size buf (omega arith) in
    let rest =
      fill_block-keeps groups (suc gi) block_size start buf' f.1
        (length-splice buf (gi * 32) (descriptor_bytes bg) (omega (arith, size)) ∙ l) (omega arith)
        (omega arith) in
    (
      ap (λ d. slice d start 32) step
          ∙ rest.0
          ∙ slice-splice_apart buf (gi * 32) (descriptor_bytes bg) start 32 (omega (arith, size))
              (inl k),
      ap length step ∙ rest.1,
    )

parse_from-fill_block :
    (groups : List BlockGroupDescriptor) (gi block_size : ℕ) (buf : List ℕ)
    → AllFit groups
    → length buf ≡ block_size
    → (gi + length groups) * 32 ≤ block_size
    → parse_from (fill_block groups gi 0 block_size buf) gi (length groups) ≡ groups
unfolding parse_from
parse_from-fill_block [] gi block_size buf f l h = refl
parse_from-fill_block (bg ∷ groups) gi block_size buf f l h =
    let size = length-descriptor_bytes bg f.0 in
    let buf' = splice buf (gi * 32) (descriptor_bytes bg) in
    let len = length-splice buf (gi * 32) (descriptor_bytes bg) (omega (arith, size)) ∙ l in
    let step = fill_block-step bg groups gi block_size buf (omega arith) in
    let out = fill_block groups (suc gi) 0 block_size buf' in
    let kept =
      fill_block-keeps groups (suc gi) block_size (gi * 32) buf' f.1 len (omega arith)
        (omega arith) in
    let written : slice buf' (gi * 32) 32 ≡ descriptor_bytes bg =
      ap (slice buf' (gi * 32)) (sym size)
      ∙ slice-splice buf (gi * 32) (descriptor_bytes bg) (omega (arith, size)) in
    let head = descriptor_at-descriptor_bytes out (gi * 32) bg f.0 (kept.0 ∙ written) in
    let fits : ltb (length out) (gi * 32 + 32) ≡ false = ground (arith, kept.1) in
    let tail = parse_from-fill_block groups (suc gi) block_size buf' f.1 len (omega arith) in
    ap (λ d. parse_from d gi (suc (length groups))) step ∙ rw (fits, head, tail, parse_from) refl

-- A descriptor table of one block is read back as it was written, whatever the block held before, if
-- every field fits its width.
pub parse_block_group_descriptors-fill_block :
    (groups : List BlockGroupDescriptor) (block_size : ℕ) (buf : List ℕ)
    → AllFit groups
    → length buf ≡ block_size
    → length groups * 32 ≤ block_size
    → parse_block_group_descriptors (fill_block groups 0 0 block_size buf) (length groups) ≡ groups
unfolding parse_block_group_descriptors
parse_block_group_descriptors-fill_block groups block_size buf f l h =
    parse_from-fill_block groups 0 block_size buf f l (omega arith)
