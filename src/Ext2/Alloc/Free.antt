-- ===== src/Ext2/Alloc/Free.antt =====
-- What `free_block` does, and that it undoes `alloc_block_goal`.
use koros.Base.{
  ℕ, ◌+◌, ◌-◌, ◌*◌, ◌/◌, ◌%◌, ◌<◌, ◌≤◌, ◌==◌, ◌≡◌, ◌≢◌, refl, sym, ◌∙◌, ap, true, false, ltb, List,
  none, some, length, get_elem?, set, inl, inr, arith, Bool-cases, Option-cases, subst, ℕ_discrete,
  length-set, get_or, not, ◌&&◌, ◌||◌,
}
use native.Mathlib.Nat.{
  mul_comm, add-mul-div_left, div-eq_of_lt, mod-eq_of_lt, add-mul-mod_self_left,
}
use koros.Base.Bits.{or_bit}
use koros.Base.Words.{add32}
use koros.Base.Result.{ok, err, Result-cases, absurd_ok}
use koros.Kor.Vfs.{invalid_input}
use koros.Ext2.SuperBlock.{BlockGroupDescriptor, SuperBlock}
use koros.Ext2.Bitmap.Bits.{bit_at, bit_at-or_bit, bit_at-clear_bit}
use koros.Ext2.Blocks.{FsBlocks, IsFsBlocks}
use koros.Ext2.Alloc.{Ext2Fs, release_bit, free_local, free_block, give_one_block}
use koros.Ext2.Alloc.Groups.{with_bit, without_bit, release_bit_lem}

abbrev pub one_block_more :
    List BlockGroupDescriptor → ℕ → BlockGroupDescriptor → List BlockGroupDescriptor
one_block_more groups group bg =
    set groups group (record bg { bg_free_blocks_count = (bg.bg_free_blocks_count + 1) % 65536 })

abbrev pub super_more : SuperBlock → SuperBlock
super_more sb = record sb { free_blocks_count = add32 sb.free_blocks_count 1 }

module _ (B : FsBlocks) (Good : B.State → Type 0) (contents : B.State → ℕ → List ℕ)
    (laws : IsFsBlocks B Good contents) where
  -- Block `local_idx` of a group is clear in the bitmap and added to both counts; nothing else has
  -- changed.
  pub record Released (fs fs' : Ext2Fs B) (group local_idx : ℕ) (bg : BlockGroupDescriptor)
      : Type 0 where
    pub good : Good fs'.device
    pub found : get_elem? fs.block_groups group ≡ some bg
    pub within : local_idx < fs.super_block.blocks_per_group
    pub in_bitmap : local_idx < length (contents fs.device bg.bg_block_bitmap) * 8
    pub bitmap :
        contents fs'.device bg.bg_block_bitmap
        ≡ without_bit (contents fs.device bg.bg_block_bitmap) local_idx
    pub blocks : (j : ℕ) → bg.bg_block_bitmap ≢ j → contents fs'.device j ≡ contents fs.device j
    pub groups : fs'.block_groups ≡ one_block_more fs.block_groups group bg
    pub super : fs'.super_block ≡ super_more fs.super_block
    pub inodes : fs'.inode_cache ≡ fs.inode_cache

  free_local_lem :
      (fs : Ext2Fs B) (local_id : ℕ) (bg : BlockGroupDescriptor)
      → (let bpg = fs.super_block.blocks_per_group in
          Good fs.device
          → get_elem? fs.block_groups (local_id / bpg) ≡ some bg
          → (free_local B fs local_id).0 ≡ ok tt
          → Released fs (free_local B fs local_id).1 (local_id / bpg) (local_id % bpg) bg)
  unfolding free_local give_one_block
  free_local_lem fs local_id bg g k h =
      let bpg = fs.super_block.blocks_per_group in
      let out = release_bit B bg.bg_block_bitmap bpg (local_id % bpg) fs.device in
      elim (Result-cases out.0) [
        | inr (x, e) ↦ absurd (absurd_ok (rw (k, e, free_local) at h))
        | inl (u, e) ↦
            let rel =
              release_bit_lem B Good contents laws bg.bg_block_bitmap bpg (local_id % bpg) fs.device
                g in
            let (low, fits, now) = rel.2 e in
            rw (k, e, free_local)
              record {
                good = rel.0;
                found = k;
                within = low;
                in_bitmap = fits;
                bitmap = now;
                blocks = rel.1;
                groups = refl;
                super = refl;
                inodes = refl;
              }
      ]

  no_group :
      (fs : Ext2Fs B) (local_id : ℕ)
      → get_elem? fs.block_groups (local_id / fs.super_block.blocks_per_group) ≡ none
      → (free_local B fs local_id).0 ≡ err invalid_input
  unfolding free_local
  no_group fs local_id k = rw (k, free_local) refl

  reached :
      (fs : Ext2Fs B) (block_id : ℕ)
      → (free_block B fs block_id).0 ≡ ok tt
      → (fs.super_block.first_data_block ≤ block_id)
        × (free_block B fs block_id ≡ free_local B fs (block_id - fs.super_block.first_data_block))
  unfolding free_block
  reached fs block_id h = elim (Bool-cases B.read_only) [
    | inl e ↦ absurd (absurd_ok (rw (e, free_block) at h))
    | inr e ↦ elim (Bool-cases (ltb block_id fs.super_block.first_data_block)) [
      | inl l ↦ absurd (absurd_ok (rw (e, l, free_block) at h))
      | inr l ↦ (low l, rw (e, l, free_block) refl)
    ]
  ]
    where
      low :
          ltb block_id fs.super_block.first_data_block ≡ false
          → fs.super_block.first_data_block ≤ block_id
      low l = ground arith

  -- A successful `free_block` clears one bit: that of the block in the bitmap of its group; both counts
  -- are higher by one, and everything else is as before.
  pub free_block-releases :
      (fs : Ext2Fs B) (block_id : ℕ)
      → (let local_id = block_id - fs.super_block.first_data_block in
          let bpg = fs.super_block.blocks_per_group in
          Good fs.device
          → (free_block B fs block_id).0 ≡ ok tt
          → (fs.super_block.first_data_block ≤ block_id)
            × ((bg : BlockGroupDescriptor) × Released fs
                  (free_block B fs block_id).1
                  (local_id / bpg)
                  (local_id % bpg)
                  bg))
  free_block-releases fs block_id g h =
      let (low, e) = reached fs block_id h in
      let local_id = block_id - fs.super_block.first_data_block in
      elim (Option-cases (get_elem? fs.block_groups (local_id / fs.super_block.blocks_per_group))) [
        | inl k ↦ absurd (absurd_ok (sym (no_group fs local_id k) ∙ ap (λ o. o.0) (sym e) ∙ h))
        | inr (bg, k) ↦ (
          low,
          (
            bg,
            subst
                (λ o.
                  Released fs o.1 (local_id / fs.super_block.blocks_per_group)
                    (local_id % fs.super_block.blocks_per_group) bg)
                (sym e) (free_local_lem fs local_id bg g k (ap (λ o. o.0) (sym e) ∙ h)),
          ),
        )
      ]

pub divided : (n g i : ℕ) → i < n → ((g * n + i) / n ≡ g) × ((g * n + i) % n ≡ i)
divided n g i h =
    let turn : g * n + i ≡ i + n * g = rw (mul_comm g n) (omega arith) in
    (
      ap (λ x. x / n) turn ∙ add-mul-div_left i g (omega arith) ∙ rw (div-eq_of_lt h) (omega arith),
      ap (λ x. x % n) turn ∙ add-mul-mod_self_left i n g ∙ mod-eq_of_lt h,
    )

-- A bit that was clear, set and cleared again.
pub bit_at-undone :
    (bytes : List ℕ) (i j : ℕ)
    → i < length bytes * 8
    → bit_at bytes i ≡ false
    → bit_at (without_bit (with_bit bytes i) i) j ≡ bit_at bytes j
bit_at-undone bytes i j h free =
    let fits : i / 8 < length bytes = omega arith in
    let fits' : i / 8 < length (with_bit bytes i) =
      subst (λ n. i / 8 < n)
        (sym (length-set bytes (i / 8) (or_bit (get_or bytes (i / 8) 0) (i % 8)))) fits in
    let again : bit_at (without_bit (with_bit bytes i) i) j
        ≡ (not (i == j) && bit_at (with_bit bytes i) j) =
      bit_at-clear_bit (with_bit bytes i) i j fits' in
    let once : bit_at (with_bit bytes i) j ≡ (i == j || bit_at bytes j) =
      bit_at-or_bit bytes i j fits in
    elim (ℕ_discrete i j) [
      | yes p ↦ again ∙ rw (same p) (sym free ∙ ap (bit_at bytes) p)
      | no p ↦ again ∙ rw (other p, once, other p) refl
    ]
  where
    same : i ≡ j → (i == j) ≡ true
    same p = ground arith

    other : i ≢ j → (i == j) ≡ false
    other p = ground arith
