-- ===== src/Ext2/Alloc/Block.antt =====
-- What `alloc_block_goal` does to the file system.
use koros.Base.{
  ℕ, zero, suc, ◌+◌, ◌-◌, ◌*◌, ◌%◌, ◌<◌, ◌==◌, ◌≡◌, ◌≢◌, refl, sym, ◌∙◌, ap, true, false, List,
  Option, none, some, length, get_elem?, set, inl, inr, arith, Bool-cases, Option-cases, subst, ◌⊎◌,
  ℕ_discrete,
}
use koros.Base.Words.{add32, sub32, mul32}
use koros.Base.Result.{Result, ok, err, Result-cases, absurd_ok}
use koros.Kor.Vfs.{FsError, no_space}
use koros.Ext2.SuperBlock.{BlockGroupDescriptor, SuperBlock}
use koros.Ext2.Bitmap.Bits.{bit_at}
use koros.Ext2.Blocks.{FsBlocks, IsFsBlocks}
use koros.Ext2.Alloc.{
  Ext2Fs, claim_bit, blocks_in_group, take_one_block, alloc_block_in, alloc_block_from,
  alloc_block_goal,
}
use koros.Ext2.Alloc.Groups.{with_bit, claim_bit_lem}

-- The number of a block of a group.
abbrev pub block_number : SuperBlock → ℕ → ℕ → ℕ
block_number sb group local_idx =
    add32 (add32 (mul32 group sb.blocks_per_group) local_idx) sb.first_data_block

abbrev pub one_block_less :
    List BlockGroupDescriptor → ℕ → BlockGroupDescriptor → List BlockGroupDescriptor
one_block_less groups group bg =
    set groups group (record bg { bg_free_blocks_count = bg.bg_free_blocks_count - 1 })

abbrev pub super_less : SuperBlock → SuperBlock
super_less sb = record sb { free_blocks_count = sub32 sb.free_blocks_count 1 }

module _ (B : FsBlocks) (Good : B.State → Type 0) (contents : B.State → ℕ → List ℕ)
    (laws : IsFsBlocks B Good contents) where
  -- The same file system, whose cache may have changed.
  pub record Same (fs fs' : Ext2Fs B) : Type 0 where
    pub good : Good fs'.device
    pub groups : fs'.block_groups ≡ fs.block_groups
    pub super : fs'.super_block ≡ fs.super_block
    pub inodes : fs'.inode_cache ≡ fs.inode_cache
    pub blocks : (j : ℕ) → contents fs'.device j ≡ contents fs.device j

  -- Block `local_idx` of a group was free, and is taken in the bitmap and in both counts; nothing else
  -- has changed.
  pub record Taken (fs fs' : Ext2Fs B) (group local_idx : ℕ) (bg : BlockGroupDescriptor)
      : Type 0 where
    pub good : Good fs'.device
    pub found : get_elem? fs.block_groups group ≡ some bg
    pub counted : bg.bg_free_blocks_count ≢ 0
    pub within : local_idx < blocks_in_group fs.super_block group
    pub in_bitmap : local_idx < length (contents fs.device bg.bg_block_bitmap) * 8
    pub was_free : bit_at (contents fs.device bg.bg_block_bitmap) local_idx ≡ false
    pub bitmap :
        contents fs'.device bg.bg_block_bitmap
        ≡ with_bit (contents fs.device bg.bg_block_bitmap) local_idx
    pub blocks : (j : ℕ) → bg.bg_block_bitmap ≢ j → contents fs'.device j ≡ contents fs.device j
    pub groups : fs'.block_groups ≡ one_block_less fs.block_groups group bg
    pub super : fs'.super_block ≡ super_less fs.super_block
    pub inodes : fs'.inode_cache ≡ fs.inode_cache

  -- The group has no free block: its count or its bitmap says so.
  abbrev pub Full : Ext2Fs B → ℕ → BlockGroupDescriptor → Type 0
  Full fs group bg =
      (bg.bg_free_blocks_count ≡ 0)
      ⊎ ((j : ℕ)
          → j < blocks_in_group fs.super_block group
          → j < length (contents fs.device bg.bg_block_bitmap) * 8
          → bit_at (contents fs.device bg.bg_block_bitmap) j ≡ true)

  abbrev pub Tried :
      Ext2Fs B → ℕ → BlockGroupDescriptor → Result FsError (Option ℕ) → Ext2Fs B → Type 0
  Tried fs group bg (err x) fs' = Unit {0}
  Tried fs group bg (ok none) fs' = Same fs fs' × Full fs group bg
  Tried fs group bg (ok (some id)) fs' =
      (i : ℕ) × (id ≡ block_number fs.super_block group i) × Taken fs fs' group i bg

  pub alloc_block_in_lem :
      (fs : Ext2Fs B) (group : ℕ) (bg : BlockGroupDescriptor)
      → Good fs.device
      → get_elem? fs.block_groups group ≡ some bg
      → Tried fs group bg (alloc_block_in B fs group bg).0 (alloc_block_in B fs group bg).1
  unfolding alloc_block_in take_one_block
  alloc_block_in_lem fs group bg g h = elim (Bool-cases (bg.bg_free_blocks_count == 0)) [
    | inl e ↦
        rw (e, alloc_block_in)
          (
            record { good = g; groups = refl; super = refl; inodes = refl; blocks = λ j. refl },
            inl (none_free e),
          )
    | inr e ↦
        let size = blocks_in_group fs.super_block group in
        let out = claim_bit B bg.bg_block_bitmap size fs.device in
        let claim = claim_bit_lem B Good contents laws bg.bg_block_bitmap size fs.device g in
        elim (Result-cases out.0) [
          | inr (x, k) ↦ rw (e, k, alloc_block_in) tt
          | inl (none, k) ↦
              let (same, full) = claim.2 none k in
              rw (e, k, alloc_block_in)
                (
                  record {
                    good = claim.0;
                    groups = refl;
                    super = refl;
                    inodes = refl;
                    blocks = everywhere bg.bg_block_bitmap out.1 same claim.1;
                  },
                  inr full,
                )
          | inl (some i, k) ↦
              let (low, fits, free, now) = claim.2 (some i) k in
              rw (e, k, alloc_block_in)
                (
                  i,
                  refl,
                  record {
                    good = claim.0;
                    found = h;
                    counted = some_free e;
                    within = low;
                    in_bitmap = fits;
                    was_free = free;
                    bitmap = now;
                    blocks = claim.1;
                    groups = refl;
                    super = refl;
                    inodes = refl;
                  },
                )
        ]
  ]
    where
      none_free : (bg.bg_free_blocks_count == 0) ≡ true → bg.bg_free_blocks_count ≡ 0
      none_free e = ground arith

      some_free : (bg.bg_free_blocks_count == 0) ≡ false → bg.bg_free_blocks_count ≢ 0
      some_free e = ground arith

      everywhere :
          (bb : ℕ) (s : B.State)
          → contents s bb ≡ contents fs.device bb
          → ((j : ℕ) → bb ≢ j → contents s j ≡ contents fs.device j)
          → (j : ℕ) → contents s j ≡ contents fs.device j
      everywhere bb s same others j = elim (ℕ_discrete bb j) [
        | yes p ↦ subst (λ x. contents s x ≡ contents fs.device x) p same
        | no p ↦ others j p
      ]

  Taken-Same :
      (fs fs' fs'' : Ext2Fs B) (group i : ℕ) (bg : BlockGroupDescriptor)
      → Same fs fs'
      → Taken fs' fs'' group i bg
      → Taken fs fs'' group i bg
  Taken-Same fs fs' fs'' group i bg e t =
      let b = e.blocks bg.bg_block_bitmap in
      record {
        good = t.good;
        found = subst (λ gs. get_elem? gs group ≡ some bg) e.groups t.found;
        counted = t.counted;
        within = subst (λ sb. i < blocks_in_group sb group) e.super t.within;
        in_bitmap = subst (λ d. i < length d * 8) b t.in_bitmap;
        was_free = subst (λ d. bit_at d i ≡ false) b t.was_free;
        bitmap = t.bitmap ∙ ap (λ d. with_bit d i) b;
        blocks = λ j n. t.blocks j n ∙ e.blocks j;
        groups = t.groups ∙ ap (λ gs. one_block_less gs group bg) e.groups;
        super = t.super ∙ ap super_less e.super;
        inodes = t.inodes ∙ e.inodes;
      }

  abbrev Chosen : Ext2Fs B → Result FsError ℕ → Ext2Fs B → Type 0
  Chosen fs (err x) fs' = Unit {0}
  Chosen fs (ok id) fs' =
      (group : ℕ) × (bg : BlockGroupDescriptor) × (i : ℕ) × (id
        ≡ block_number fs.super_block group i)
      × Taken fs fs' group i bg

  Chosen-Same :
      (fs fs' fs'' : Ext2Fs B) (r : Result FsError ℕ)
      → Same fs fs'
      → Chosen fs' r fs''
      → Chosen fs r fs''
  Chosen-Same fs fs' fs'' (err x) e t = tt
  Chosen-Same fs fs' fs'' (ok id) e (group, bg, i, p, t) = (
    group,
    bg,
    i,
    p ∙ ap (λ sb. block_number sb group i) e.super,
    Taken-Same fs fs' fs'' group i bg e t,
  )

  -- One turn of the loop, at a group that is there.
  pub turn :
      (fs : Ext2Fs B) (goal step count : ℕ) (bg : BlockGroupDescriptor)
      → (let group = (goal + step) % length fs.block_groups in
          let out = alloc_block_in B fs group bg in
          get_elem? fs.block_groups group ≡ some bg
          → alloc_block_from B fs goal step (suc count) ≡ elim out.0 [
            | err x ↦ (err x, out.1)
            | ok none ↦ alloc_block_from B out.1 goal (suc step) count
            | ok (some id) ↦ (ok id, out.1)
          ])
  unfolding alloc_block_from
  turn fs goal step count bg h = rw (h, alloc_block_from) refl

  no_turn :
      (fs : Ext2Fs B) (goal step count : ℕ)
      → get_elem? fs.block_groups ((goal + step) % length fs.block_groups) ≡ none
      → alloc_block_from B fs goal step (suc count) ≡ (err no_space, fs)
  unfolding alloc_block_from
  no_turn fs goal step count h = rw (h, alloc_block_from) refl

  alloc_block_from_lem :
      (fs : Ext2Fs B) (goal step count : ℕ)
      → Good fs.device
      → Chosen fs
          (alloc_block_from B fs goal step count).0
          (alloc_block_from B fs goal step count).1
  unfolding alloc_block_from
  alloc_block_from_lem fs goal step zero g = tt
  alloc_block_from_lem fs goal step (suc count) g =
      let group = (goal + step) % length fs.block_groups in
      elim (Option-cases (get_elem? fs.block_groups group)) [
        | inl h ↦ subst (λ o. Chosen fs o.0 o.1) (sym (no_turn fs goal step count h)) tt
        | inr (bg, h) ↦
            let out = alloc_block_in B fs group bg in
            let tried = alloc_block_in_lem fs group bg g h in
            subst (λ o. Chosen fs o.0 o.1) (sym (turn fs goal step count bg h))
              (elim (Result-cases out.0) [
                | inr (x, k) ↦ rw k tt
                | inl (none, k) ↦ rw k (
                    let (e, full) = subst (λ r. Tried fs group bg r out.1) k tried in
                    Chosen-Same fs out.1 _ _ e
                      (alloc_block_from_lem out.1 goal (suc step) count e.good))
                | inl (some id, k) ↦ rw k (
                    let (i, p, t) = subst (λ r. Tried fs group bg r out.1) k tried in
                    (group, bg, i, p, t))
              ])
      ]

  -- A successful `alloc_block_goal` takes one block: some group, whose count is not zero, has the block
  -- clear in its bitmap; afterwards the block is set there and both counts are lower by one; every
  -- other block of the device, every other bit and all else are as before; and the answer is the
  -- number of the block.
  pub alloc_block_goal-takes :
      (fs : Ext2Fs B) (goal id : ℕ)
      → Good fs.device
      → (alloc_block_goal B fs goal).0 ≡ ok id
      → (group : ℕ) × (bg : BlockGroupDescriptor) × (i : ℕ) × (id
          ≡ block_number fs.super_block group i)
        × Taken fs (alloc_block_goal B fs goal).1 group i bg
  unfolding alloc_block_goal
  alloc_block_goal-takes fs goal id g h = elim (Bool-cases B.read_only) [
    | inl e ↦ absurd (absurd_ok (rw e at h))
    | inr e ↦
        let out = alloc_block_from B fs goal 0 (length fs.block_groups) in
        rw (e, alloc_block_goal)
          (subst (λ r. Chosen fs r out.1) (rw e at h)
            (alloc_block_from_lem fs goal 0 (length fs.block_groups) g))
  ]
