-- ===== src/Ext2/Alloc/RoundTrip.antt =====
-- `free_block` undoes `alloc_block_goal`.
use koros.Base.{
  ℕ, zero, suc, ◌+◌, ◌-◌, ◌*◌, ◌/◌, ◌%◌, ◌^◌, ◌<◌, ◌≡◌, ◌≢◌, refl, sym, ◌∙◌, ap, List, [], ◌∷◌,
  some, get_elem?, set, arith, subst, ℕ_discrete, get_elem?-set_present, some_eq,
}
use koros.Base.Words.{add32, sub32}
use koros.Base.Result.{ok}
use koros.Ext2.SuperBlock.{BlockGroupDescriptor, SuperBlock}
use koros.Ext2.Bitmap.Bits.{bit_at}
use koros.Ext2.Blocks.{FsBlocks, IsFsBlocks}
use koros.Ext2.Alloc.{Ext2Fs, free_block, alloc_block_goal}
use koros.Ext2.Alloc.Groups.{with_bit, without_bit}
use koros.Ext2.Alloc.Block.{Taken, one_block_less, super_less, alloc_block_goal-takes}
use koros.Ext2.Alloc.Bounds.{Geometry, block_number_exact, get_elem?-bound}
use koros.Ext2.Alloc.Free.{
  Released, one_block_more, super_more, divided, bit_at-undone, free_block-releases,
}

-- The counts are within the widths of their fields.
pub record Counted {B : FsBlocks} (fs : Ext2Fs B) : Type 0 where
  pub super : fs.super_block.free_blocks_count < 2 ^ 32
  pub groups :
      (group : ℕ) (bg : BlockGroupDescriptor)
      → get_elem? fs.block_groups group ≡ some bg
      → bg.bg_free_blocks_count < 65536

set-set : {A : Type 0} → (xs : List A) (i : ℕ) (a b : A) → set (set xs i a) i b ≡ set xs i b
set-set [] i a b = refl
set-set (x ∷ xs) zero a b = refl
set-set (x ∷ xs) (suc i) a b = ap (λ ys. x ∷ ys) (set-set xs i a b)

set_same : {A : Type 0} → (xs : List A) (i : ℕ) (a : A) → get_elem? xs i ≡ some a → set xs i a ≡ xs
set_same [] i a h = refl
set_same (x ∷ xs) zero a h = cc
set_same (x ∷ xs) (suc i) a h = ap (λ ys. x ∷ ys) (set_same xs i a h)

-- The table of descriptors, with one block less and one more.
groups_undone :
    (groups : List BlockGroupDescriptor) (group : ℕ) (bg bg' : BlockGroupDescriptor)
    → get_elem? groups group ≡ some bg
    → bg.bg_free_blocks_count ≢ 0
    → bg.bg_free_blocks_count < 65536
    → get_elem? (one_block_less groups group bg) group ≡ some bg'
    → (one_block_more (one_block_less groups group bg) group bg' ≡ groups)
      × (bg'.bg_block_bitmap ≡ bg.bg_block_bitmap)
groups_undone groups group bg bg' h n l k =
    let less = record bg { bg_free_blocks_count = bg.bg_free_blocks_count - 1 } in
    let same : less ≡ bg' = some_eq (sym (get_elem?-set_present groups group less bg h) ∙ k) in
    let count : (bg.bg_free_blocks_count - 1 + 1) % 65536 ≡ bg.bg_free_blocks_count = omega arith in
    (
      ap (λ d. one_block_more (one_block_less groups group bg) group d) (sym same)
          ∙ set-set groups group less _
          ∙ ap (λ c. set groups group (record bg { bg_free_blocks_count = c })) count
          ∙ set_same groups group bg h,
      ap (λ d. d.bg_block_bitmap) (sym same),
    )

super_undone : (sb : SuperBlock) → sb.free_blocks_count < 2 ^ 32 → super_more (super_less sb) ≡ sb
super_undone sb h =
    let count : add32 (sub32 sb.free_blocks_count 1) 1 ≡ sb.free_blocks_count = omega arith in
    ap (λ c. record sb { free_blocks_count = c }) count

module _ (B : FsBlocks) (Good : B.State → Type 0) (contents : B.State → ℕ → List ℕ)
    (laws : IsFsBlocks B Good contents) where
  undone :
      (fs fs1 fs2 : Ext2Fs B) (group i : ℕ) (bg bg' : BlockGroupDescriptor)
      → Counted fs
      → Taken B Good contents laws fs fs1 group i bg
      → Released B Good contents laws fs1 fs2 group i bg'
      → ((b j : ℕ) → bit_at (contents fs2.device b) j ≡ bit_at (contents fs.device b) j)
        × (fs2.block_groups ≡ fs.block_groups)
        × (fs2.super_block ≡ fs.super_block)
        × (fs2.inode_cache ≡ fs.inode_cache)
  undone fs fs1 fs2 group i bg bg' c t r =
      let found = subst (λ gs. get_elem? gs group ≡ some bg') t.groups r.found in
      let (groups, bb) =
        groups_undone fs.block_groups group bg bg' t.found t.counted (c.groups group bg t.found)
          found in
      (
        λ b j. elim (ℕ_discrete bg.bg_block_bitmap b) [
          | no n ↦ ap (λ d. bit_at d j) (r.blocks b (λ e. n (sym bb ∙ e)) ∙ t.blocks b n)
          | yes e ↦
              subst (λ x. bit_at (contents fs2.device x) j ≡ bit_at (contents fs.device x) j) e
                (ap (λ d. bit_at d j) (cleared bb)
                  ∙ bit_at-undone (contents fs.device bg.bg_block_bitmap) i j t.in_bitmap
                      t.was_free)
        ],
        r.groups ∙ ap (λ gs. one_block_more gs group bg') t.groups ∙ groups,
        r.super ∙ ap super_more t.super ∙ super_undone fs.super_block c.super,
        r.inodes ∙ t.inodes,
      )
    where
      cleared :
          bg'.bg_block_bitmap ≡ bg.bg_block_bitmap
          → contents fs2.device bg.bg_block_bitmap
            ≡ without_bit (with_bit (contents fs.device bg.bg_block_bitmap) i) i
      cleared bb =
          subst (λ x. contents fs2.device x ≡ without_bit (contents fs1.device x) i) bb r.bitmap
          ∙ ap (λ d. without_bit d i) t.bitmap

  -- A block that was allocated can be given back. If each group of the table begins below the end of the
  -- device, which has less than 2^32 blocks, and the free counts of the superblock and of the groups
  -- fit in their fields, then where `free_block` of the block that
  -- `alloc_block_goal` handed out succeeds, every bit of every block, every count and the table of
  -- groups are what they were before the allocation.
  pub free_block-alloc_block_goal :
      (fs : Ext2Fs B) (goal id : ℕ)
      → Good fs.device
      → Geometry fs
      → Counted fs
      → (alloc_block_goal B fs goal).0 ≡ ok id
      → (free_block B (alloc_block_goal B fs goal).1 id).0 ≡ ok tt
      → (let fs2 = (free_block B (alloc_block_goal B fs goal).1 id).1 in
          ((b j : ℕ) → bit_at (contents fs2.device b) j ≡ bit_at (contents fs.device b) j)
          × (fs2.block_groups ≡ fs.block_groups)
          × (fs2.super_block ≡ fs.super_block)
          × (fs2.inode_cache ≡ fs.inode_cache))
  free_block-alloc_block_goal fs goal id g geo c h k =
      let fs1 = (alloc_block_goal B fs goal).1 in
      let fs2 = (free_block B fs1 id).1 in
      let (group, bg, i, p, t) = alloc_block_goal-takes B Good contents laws fs goal id g h in
      let (low, (bg', r)) = free_block-releases B Good contents laws fs1 id t.good k in
      let (e, less, bound) =
        block_number_exact fs group i geo (get_elem?-bound fs.block_groups group bg t.found)
          t.within in
      let first : fs1.super_block.first_data_block ≡ fs.super_block.first_data_block =
        ap (λ sb. sb.first_data_block) t.super in
      let per : fs1.super_block.blocks_per_group ≡ fs.super_block.blocks_per_group =
        ap (λ sb. sb.blocks_per_group) t.super in
      let local : id - fs1.super_block.first_data_block
          ≡ group * fs.super_block.blocks_per_group + i =
        omega (arith, p, e, first) in
      let (quotient, remainder) = divided fs.super_block.blocks_per_group group i less in
      undone fs fs1 fs2 group i bg bg' c t (
        subst (λ x. Released B Good contents laws fs1 fs2 x i bg') (rw (local, per) quotient)
          (subst
            (λ x.
              Released B Good contents laws fs1 fs2
                ((id - fs1.super_block.first_data_block) / fs1.super_block.blocks_per_group) x bg')
            (rw (local, per) remainder) r))
