-- ===== src/Ext2/Alloc/Finds.antt =====
-- `alloc_block_goal` finds a free block where there is one.
use koros.Base.{
  ℕ, zero, suc, ◌+◌, ◌-◌, ◌*◌, ◌/◌, ◌%◌, ◌<◌, ◌≤◌, ◌==◌, ◌≡◌, ◌≢◌, refl, sym, ◌∙◌, ap, min, true,
  false, if◌then◌else◌, List, [], ◌∷◌, Option, none, some, length, get_or, length-set, get_elem?,
  inl, inr, arith, subst, ℕ_discrete, Option-cases, Bool-cases, dec_le, some_eq, absurd_none,
}
use native.Mathlib.Nat.{div-add-mod', mod-lt, mod-eq_of_lt, mul-add-mod_self_right, suc-mul}
use koros.Base.Bits.{or_bit}
use koros.Base.Result.{ok, err, Result-cases, absurd_ok}
use koros.Kor.Vfs.{read_only}
use koros.Ext2.SuperBlock.{BlockGroupDescriptor}
use koros.Ext2.Bitmap.{from_bytes, find_first_clear}
use koros.Ext2.Bitmap.Bits.{bit_at}
use koros.Ext2.Bitmap.Search.{Least, find_first_clear_lem}
use koros.Ext2.Blocks.{FsBlocks, IsFsBlocks}
use koros.Ext2.Alloc.{
  Ext2Fs, claim_bit, blocks_in_group, alloc_block_in, alloc_block_from, alloc_block_goal,
}
use koros.Ext2.Alloc.Groups.{with_bit, claim_none, claim_some, set_bit_ok}
use koros.Ext2.Alloc.Bounds.{get_elem?-bound}
use koros.Ext2.Alloc.Block.{block_number, Same, Full, Tried, alloc_block_in_lem, turn}

get_elem?-inside :
    {A : Type 0} → (xs : List A) (i : ℕ) → i < length xs → (x : A) × (get_elem? xs i ≡ some x)
get_elem?-inside [] i h = absurd (omega arith)
get_elem?-inside (x ∷ xs) zero h = (x, refl)
get_elem?-inside (x ∷ xs) (suc i) h = get_elem?-inside xs i (omega arith)

-- No read and no write fails.
pub record Reliable (B : FsBlocks) (Good : B.State → Type 0) : Type 0 where
  pub reads : (b : ℕ) (s : B.State) → Good s → (d : List ℕ) × ((B.read_fs_block b s).0 ≡ ok d)
  pub writes :
      (b : ℕ) (d : List ℕ) (s : B.State)
      → Good s
      → length d ≡ B.block_size
      → (B.write_fs_block b d s).0 ≡ ok tt

module _ (B : FsBlocks) (Good : B.State → Type 0) (contents : B.State → ℕ → List ℕ)
    (laws : IsFsBlocks B Good contents) (sure : Reliable B Good) where
  claim_bit-ok :
      (bb size : ℕ) (s : B.State) → Good s → (r : Option ℕ) × ((claim_bit B bb size s).0 ≡ ok r)
  unfolding from_bytes
  claim_bit-ok bb size s g =
      let (buf, h) = sure.reads bb s g in
      elim (Option-cases (find_first_clear (from_bytes buf size))) [
        | inl k ↦ (none, ap (λ o. o.0) (claim_none B Good contents laws bb size s buf h k))
        | inr (i, k) ↦
            let found =
              subst (Least (bit_at buf) 0 (min size (length buf * 8))) k
                (find_first_clear_lem (from_bytes buf size)) in
            let sized : length (with_bit buf i) ≡ B.block_size =
              length-set buf (i / 8) (or_bit (get_or buf (i / 8) 0) (i % 8))
              ∙ (laws.read_ok bb s buf g h).1 in
            let w =
              sure.writes bb (with_bit buf i) (B.read_fs_block bb s).1 (laws.read_good bb s g)
                sized in
            (
              some i,
              ap (λ o. o.0)
                    (claim_some B Good contents laws bb size s buf i h k
                      (set_bit_ok buf size i (omega (arith, found.1)) (omega (arith, found.1))))
                  ∙ rw w refl,
            )
      ]

  alloc_block_in-ok :
      (fs : Ext2Fs B) (group : ℕ) (bg : BlockGroupDescriptor)
      → Good fs.device
      → (r : Option ℕ) × ((alloc_block_in B fs group bg).0 ≡ ok r)
  unfolding alloc_block_in
  alloc_block_in-ok fs group bg g = elim (Bool-cases (bg.bg_free_blocks_count == 0)) [
    | inl e ↦ (none, rw (e, alloc_block_in) refl)
    | inr e ↦
        let size = blocks_in_group fs.super_block group in
        let (r, k) = claim_bit-ok bg.bg_block_bitmap size fs.device g in
        elim (Result-cases (claim_bit B bg.bg_block_bitmap size fs.device).0) [
          | inr (x, q) ↦ absurd (absurd_ok (sym q ∙ k))
          | inl (none, q) ↦ (none, rw (e, q, alloc_block_in) refl)
          | inl (some i, q) ↦
              (some (block_number fs.super_block group i), rw (e, q, alloc_block_in) refl)
        ]
  ]

  -- A group of the table whose count is not zero and whose bitmap has a clear bit in its range.
  pub record HasFree (fs : Ext2Fs B) (group : ℕ) (bg : BlockGroupDescriptor) (j : ℕ) : Type 0 where
    pub found : get_elem? fs.block_groups group ≡ some bg
    pub counted : bg.bg_free_blocks_count ≢ 0
    pub within : j < blocks_in_group fs.super_block group
    pub in_bitmap : j < length (contents fs.device bg.bg_block_bitmap) * 8
    pub free : bit_at (contents fs.device bg.bg_block_bitmap) j ≡ false

  positive :
      (fs : Ext2Fs B) (group : ℕ) (bg : BlockGroupDescriptor)
      → get_elem? fs.block_groups group ≡ some bg
      → 0 < length fs.block_groups
  positive fs group bg h = let b = get_elem?-bound fs.block_groups group bg h in omega (arith, b)

  HasFree-Same :
      (fs fs' : Ext2Fs B) (group : ℕ) (bg : BlockGroupDescriptor) (j : ℕ)
      → Same B Good contents laws fs fs'
      → HasFree fs group bg j
      → HasFree fs' group bg j
  HasFree-Same fs fs' group bg j e f =
      let b = sym (e.blocks bg.bg_block_bitmap) in
      record {
        found = subst (λ gs. get_elem? gs group ≡ some bg) (sym e.groups) f.found;
        counted = f.counted;
        within = subst (λ sb. j < blocks_in_group sb group) (sym e.super) f.within;
        in_bitmap = subst (λ d. j < length d * 8) b f.in_bitmap;
        free = subst (λ d. bit_at d j ≡ false) b f.free;
      }

  not-Full :
      (fs : Ext2Fs B) (group : ℕ) (bg bg' : BlockGroupDescriptor) (j : ℕ)
      → HasFree fs group bg j
      → get_elem? fs.block_groups group ≡ some bg'
      → Full B Good contents laws fs group bg'
      → ⊥
  not-Full fs group bg bg' j f h full =
      let same : bg ≡ bg' = some_eq (sym f.found ∙ h) in
      elim full [
        | inl z ↦ f.counted (ap (λ d. d.bg_free_blocks_count) same ∙ z)
        | inr ones ↦
            let b : contents fs.device bg.bg_block_bitmap ≡ contents fs.device bg'.bg_block_bitmap =
              ap (λ d. contents fs.device d.bg_block_bitmap) same in
            absurd_bit (
              sym (subst (λ d. bit_at d j ≡ false) b f.free)
              ∙ ones j f.within (subst (λ d. j < length d * 8) b f.in_bitmap))
      ]
    where
      absurd_bit : false ≡ true → ⊥
      absurd_bit e = cc

  from_finds :
      (fs : Ext2Fs B) (goal step count k group : ℕ) (bg : BlockGroupDescriptor) (j : ℕ)
      → Good fs.device
      → HasFree fs group bg j
      → step ≤ k
      → k < step + count
      → (goal + k) % length fs.block_groups ≡ group
      → (id : ℕ) × ((alloc_block_from B fs goal step count).0 ≡ ok id)
  from_finds fs goal step zero k group bg j g f lo hi e = absurd (omega arith)
  from_finds fs goal step (suc count) k group bg j g f lo hi e =
      let here = (goal + step) % length fs.block_groups in
      elim (Option-cases (get_elem? fs.block_groups here)) [
        | inl h ↦
            let lt = mod-lt (goal + step) (positive fs group bg f.found) in
            let (x, p) = get_elem?-inside fs.block_groups here lt in
            absurd (absurd_none (sym h ∙ p))
        | inr (bg', h) ↦
            let out = alloc_block_in B fs here bg' in
            let (r, q) = alloc_block_in-ok fs here bg' g in
            let tried = alloc_block_in_lem B Good contents laws fs here bg' g h in
            let step_eq = turn B Good contents laws fs goal step count bg' h in
            elim (Result-cases out.0) [
              | inr (x, p) ↦ absurd (absurd_ok (sym p ∙ q))
              | inl (some id, p) ↦ (id, ap (λ o. o.0) step_eq ∙ rw p refl)
              | inl (none, p) ↦
                  let (same, full) =
                    subst (λ r. Tried B Good contents laws fs here bg' r out.1) p tried in
                  elim (ℕ_discrete step k) [
                    | yes s ↦ absurd (
                        not-Full fs here bg bg' j
                          (subst (λ x. HasFree fs x bg j)
                            (sym e ∙ ap (λ x. (goal + x) % length fs.block_groups) (sym s)) f)
                          h full)
                    | no n ↦
                        let (id, t) =
                          from_finds out.1 goal (suc step) count k group bg j same.good
                            (HasFree-Same fs out.1 group bg j same f) (omega arith) (omega arith)
                            (ap (λ gs. (goal + k) % length gs) same.groups ∙ e) in
                        (id, ap (λ o. o.0) step_eq ∙ rw p t)
                  ]
            ]
      ]

  -- The step at which the scan from a goal comes to a group.
  reached : (goal group n : ℕ) → group < n → (k : ℕ) × (k < n) × ((goal + k) % n ≡ group)
  reached goal group n h =
      let split = div-add-mod' goal n in
      let lt = mod-lt goal {m = n} (omega arith) in
      elim (dec_le (goal % n) group) [
        | yes l ↦
            let sum : goal + (group - goal % n) ≡ goal / n * n + group = omega (arith, split) in
            (
              group - goal % n,
              omega arith,
              ap (λ x. x % n) sum ∙ mul-add-mod_self_right (goal / n) n group ∙ mod-eq_of_lt h,
            )
        | no l ↦
            let sum : goal + (group + n - goal % n) ≡ suc (goal / n) * n + group =
              omega (arith, split, suc-mul (goal / n) n) in
            (
              group + n - goal % n,
              omega arith,
              ap (λ x. x % n) sum
                  ∙ mul-add-mod_self_right (suc (goal / n)) n group
                  ∙ mod-eq_of_lt h,
            )
      ]

  writable :
      (fs : Ext2Fs B) (goal : ℕ)
      → B.read_only ≡ false
      → (alloc_block_goal B fs goal).0 ≡ (alloc_block_from B fs goal 0 (length fs.block_groups)).0
  unfolding alloc_block_goal
  writable fs goal w =
      ap
        (λ b.
          (if b
            then (err read_only, fs)
            else alloc_block_from B fs goal 0 (length fs.block_groups)).0)
        w

  -- `alloc_block_goal` finds a free block where there is one: if no read and no write fails, the file
  -- system can be written, and some group, wherever it stands from the goal, has a count that is not
  -- zero and a clear bit in its range, then the call succeeds.
  pub alloc_block_goal-finds :
      (fs : Ext2Fs B) (goal group : ℕ) (bg : BlockGroupDescriptor) (j : ℕ)
      → Good fs.device
      → B.read_only ≡ false
      → HasFree fs group bg j
      → (id : ℕ) × ((alloc_block_goal B fs goal).0 ≡ ok id)
  unfolding alloc_block_goal
  alloc_block_goal-finds fs goal group bg j g w f =
      let (k, lo, e) =
        reached goal group (length fs.block_groups)
          (get_elem?-bound fs.block_groups group bg f.found) in
      let (id, t) =
        from_finds fs goal 0 (length fs.block_groups) k group bg j g f (omega arith) (omega arith)
          e in
      (id, writable fs goal w ∙ t)
