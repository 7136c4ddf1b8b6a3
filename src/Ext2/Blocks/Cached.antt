-- ===== src/Ext2/Blocks/Cached.antt =====
-- filesystems/kor-ext2/src/lib.rs, `read_fs_block` and `write_fs_block` over the block cache: a block
-- of the file system is a run of blocks of the device.
use koros.Base.{
  ℕ, zero, suc, ◌+◌, ◌*◌, ◌<◌, ◌≤◌, ◌≡◌, ◌≢◌, refl, sym, ◌∙◌, ap, Bool, true, false, if◌then◌else◌,
  List, [], ◌∷◌, ◌==◌, ◌++◌, length, take, drop, arith, inl, inr, length-append, ◌⊎◌, length-take,
  length-drop, take-append-drop, dec_lt, subst,
}
use native.Mathlib.Nat.{mul-le-mul_right, suc-mul}
use koros.Base.Result.{Result, ok, err, Result-cases, ok_eq, absurd_ok}
use koros.Kor.Block.{BlockDevice, BlockError, IsDevice}
use koros.Kor.Vfs.{FsError, io_error, read_only}
use koros.Fs.BlockCache.{BlockCache, read_block_cached, write_block_cached, sync}
use koros.Fs.BlockCache.View.{
  view, Inv, view-read_block_cached, view-write_block_cached, read_block_cached-returns,
}
use koros.Fs.BlockCache.Sizes.{length-read_block_cached}
use koros.Ext2.Blocks.{FsBlocks, IsFsBlocks}

module _ (D : BlockDevice) where
  -- The loop of `read_fs_block`, over `count` blocks of the device from `id`: what it leaves in the
  -- rest of `buf`.
  pub read_from : BlockCache → ℕ → ℕ → D.State → Result FsError (List ℕ) × (BlockCache × D.State)
  read_from c id zero s = (ok [], (c, s))
  read_from c id (suc count) s =
      let (r, c', s') = read_block_cached D c id D.block_size s in
      let (rest, after) = read_from c' (suc id) count s' in
      elim r [
        | err _ ↦ (err io_error, (c', s'))
        | ok bytes ↦ elim rest [ ok more ↦ (ok (bytes ++ more), after) | err x ↦ (err x, after) ]
      ]

  -- The loop of `write_fs_block`, which takes the buffer apart.
  pub write_from :
      BlockCache → ℕ → ℕ → List ℕ → D.State → Result FsError (Unit {0}) × (BlockCache × D.State)
  write_from c id zero buf s = (ok tt, (c, s))
  write_from c id (suc count) buf s =
      let (r, c', s') = write_block_cached D c id (take D.block_size buf) s in
      let rest = write_from c' (suc id) count (drop D.block_size buf) s' in
      elim r [ err _ ↦ (err io_error, (c', s')) | ok _ ↦ rest ]

  -- `block_size` is `per` blocks of the device.
  pub read_fs_block :
      ℕ → ℕ → BlockCache × D.State → Result FsError (List ℕ) × (BlockCache × D.State)
  unfolding read_from
  read_fs_block per fs_block (c, s) = read_from c (fs_block * per) per s

  pub write_fs_block :
      Bool
      → ℕ
      → ℕ
      → List ℕ
      → BlockCache × D.State
      → Result FsError (Unit {0}) × (BlockCache × D.State)
  unfolding write_from
  write_fs_block ro per fs_block buf (c, s) =
      if ro then (err read_only, (c, s)) else write_from c (fs_block * per) per buf s

  -- `cache.lock().sync().map_err(|_| FsError::IoError)`
  pub sync_cache : BlockCache × D.State → Result FsError (Unit {0}) × (BlockCache × D.State)
  sync_cache (c, s) =
      let (r, c', s') = sync D c s in
      elim r [ ok _ ↦ (ok tt, (c', s')) | err _ ↦ (err io_error, (c', s')) ]

  abbrev pub cached_blocks : Bool → ℕ → FsBlocks
  cached_blocks ro per = record {
    State = BlockCache × D.State;
    block_size = per * D.block_size;
    read_only = ro;
    read_fs_block = read_fs_block per;
    write_fs_block = write_fs_block ro per;
    sync = sync_cache;
  }

  module _ (seen : D.State → ℕ → List ℕ) where
    -- The blocks of the device that a user of the cache sees, `count` of them from `id`, as one buffer.
    pub run : BlockCache → ℕ → ℕ → D.State → List ℕ
    run c id zero s = []
    run c id (suc count) s = view D seen c s id ++ run c (suc id) count s

    run_ext :
        (c c' : BlockCache) (id count : ℕ) (s s' : D.State)
        → ((j : ℕ) → id ≤ j → j < id + count → view D seen c' s' j ≡ view D seen c s j)
        → run c' id count s' ≡ run c id count s
    unfolding run
    run_ext c c' id zero s s' h = refl
    run_ext c c' id (suc count) s s' h =
        rw
          (
            h id (omega arith) (omega arith),
            run_ext c c' (suc id) count s s' (λ j p q. h j (omega arith) (omega arith)),
          )
          refl

    module _ (dev : IsDevice D seen) where
      read_from_lem :
          (c : BlockCache) (id count : ℕ) (s : D.State)
          → Inv D seen c s
          → (let out = read_from c id count s in
              Inv D seen out.1.0 out.1.1
              × ((j : ℕ) → view D seen out.1.0 out.1.1 j ≡ view D seen c s j)
              × ((d : List ℕ)
                  → out.0 ≡ ok d
                  → (d ≡ run c id count s) × (length d ≡ count * D.block_size)))
      unfolding read_from run
      read_from_lem c id zero s g =
          (g, λ j. refl, λ d h. (sym (ok_eq h), ap length (sym (ok_eq h)) ∙ omega arith))
      read_from_lem c id (suc count) s g =
          let out = read_block_cached D c id D.block_size s in
          let step = view-read_block_cached D seen dev c id D.block_size s g in
          let rest = read_from_lem out.1 (suc id) count out.2 step.0 in
          elim (Result-cases out.0) [
            | inr (x, h) ↦ rw (h, read_from) (step.0, step.1, λ d k. absurd (absurd_ok k))
            | inl (bytes, h) ↦ elim (Result-cases (read_from out.1 (suc id) count out.2).0) [
              | inr (x, k) ↦
                  rw (h, k, read_from)
                    (rest.0, λ j. rest.1 j ∙ step.1 j, λ d e. absurd (absurd_ok e))
              | inl (more, k) ↦
                  rw (h, k, read_from)
                    (
                      rest.0,
                      λ j. rest.1 j ∙ step.1 j,
                      λ d e. (
                        sym (ok_eq e)
                            ∙ rw
                                (
                                  read_block_cached-returns D seen dev c id D.block_size s bytes g
                                      h,
                                  (rest.2 more k).0,
                                  run_ext c out.1 (suc id) count s out.2 (λ j p q. step.1 j),
                                )
                                refl,
                        ap length (sym (ok_eq e))
                            ∙ length-append bytes more
                            ∙ omega (
                              arith,
                              length-read_block_cached D seen dev c id D.block_size s bytes g h,
                              (rest.2 more k).1,
                            ),
                      ),
                    )
            ]
          ]

      nothing : (buf : List ℕ) → length buf ≡ 0 → buf ≡ []
      nothing [] h = refl
      nothing (x ∷ xs) h = absurd (omega arith)

      same : (id : ℕ) → (id == id) ≡ true
      same id = ground arith

      joined : (n : ℕ) (v r buf : List ℕ) → v ≡ take n buf → r ≡ drop n buf → v ++ r ≡ buf
      joined n v r buf p q = rw (p, q) (take-append-drop n buf)

      -- A write of a run of blocks touches no block outside it, and if it succeeds the run is the buffer.
      abbrev Wrote :
          BlockCache
          → ℕ
          → ℕ
          → List ℕ
          → D.State
          → Result FsError (Unit {0}) × (BlockCache × D.State)
          → Type 0
      Wrote c id count buf s out =
          Inv D seen out.1.0 out.1.1
          × ((j : ℕ)
              → (j < id) ⊎ (id + count ≤ j)
              → view D seen out.1.0 out.1.1 j ≡ view D seen c s j)
          × (out.0 ≡ ok tt → run out.1.0 id count out.1.1 ≡ buf)

      write_from_ok :
          (c : BlockCache) (id count : ℕ) (buf : List ℕ) (s : D.State) (u : Unit {0})
          → (let out = write_block_cached D c id (take D.block_size buf) s in
              out.0 ≡ ok u
              → write_from c id (suc count) buf s
                ≡ write_from out.1 (suc id) count (drop D.block_size buf) out.2)
      unfolding write_from
      write_from_ok c id count buf s u h = rw (h, write_from) refl

      write_from_err :
          (c : BlockCache) (id count : ℕ) (buf : List ℕ) (s : D.State) (x : BlockError)
          → (let out = write_block_cached D c id (take D.block_size buf) s in
              out.0 ≡ err x → write_from c id (suc count) buf s ≡ (err io_error, (out.1, out.2)))
      unfolding write_from
      write_from_err c id count buf s x h = rw (h, write_from) refl

      write_from_lem :
          (c : BlockCache) (id count : ℕ) (buf : List ℕ) (s : D.State)
          → Inv D seen c s
          → length buf ≡ count * D.block_size
          → Wrote c id count buf s (write_from c id count buf s)
      unfolding write_from run
      write_from_lem c id zero buf s g l =
          (g, λ j a. refl, λ h. sym (nothing buf (l ∙ omega arith)))
      write_from_lem c id (suc count) buf s g l =
          let out = write_block_cached D c id (take D.block_size buf) s in
          let step =
            view-write_block_cached D seen dev c id (take D.block_size buf) s g
              (omega (arith, length-take D.block_size buf)) in
          let rest =
            write_from_lem out.1 (suc id) count (drop D.block_size buf) out.2 step.0
              (omega (arith, length-drop D.block_size buf)) in
          elim (Result-cases out.0) [
            | inr (x, h) ↦
                subst (Wrote c id (suc count) buf s) (sym (write_from_err c id count buf s x h))
                  (step.0, λ j a. step.1 j ∙ ground arith, λ k. absurd (absurd_ok k))
            | inl (u, h) ↦
                subst (Wrote c id (suc count) buf s) (sym (write_from_ok c id count buf s u h)) (
                  rest.0,
                  λ j a. rest.1 j (omega arith) ∙ step.1 j ∙ ground arith,
                  λ k.
                      joined D.block_size _ _ buf
                        (rest.1 id (inl (omega arith)) ∙ step.1 id ∙ rw (same id) refl) (rest.2 k),
                )
          ]

      write_fs_block_lem :
          (ro : Bool) (per b : ℕ) (d : List ℕ) (s : BlockCache × D.State)
          → Inv D seen s.0 s.1
          → length d ≡ per * D.block_size
          → Wrote s.0 (b * per) per d s.1 (write_fs_block ro per b d s)
      unfolding write_fs_block
      write_fs_block_lem true per b d s g l = (g, λ j a. refl, λ h. absurd (absurd_ok h))
      write_fs_block_lem false per b d s g l = write_from_lem s.0 (b * per) per d s.1 g l

      apart :
          (b j per i : ℕ)
          → b ≢ j
          → j * per ≤ i
          → i < j * per + per
          → (i < b * per) ⊎ (b * per + per ≤ i)
      apart b j per i n p q = elim (dec_lt b j) [
        | yes l ↦ inr (let m = mul-le-mul_right per l in omega (arith, m, suc-mul b per))
        | no l ↦
            inl (let m = mul-le-mul_right per (next b j n l) in omega (arith, m, suc-mul j per))
      ]
        where
          next : (b j : ℕ) → b ≢ j → ¬ (b < j) → suc j ≤ b
          next b j n l = omega arith

      -- The blocks of the file system over the cache keep the laws that their clients rely on.
      pub cached_blocks-IsFsBlocks :
          (ro : Bool) (per : ℕ)
          → IsFsBlocks
              (cached_blocks ro per)
              (λ s. Inv D seen s.0 s.1)
              (λ s b. run s.0 (b * per) per s.1)
      unfolding read_fs_block
      cached_blocks-IsFsBlocks ro per = record {
        read_good = λ b s g. (read_from_lem s.0 (b * per) per s.1 g).0;
        read_ok = λ b s d g h. (read_from_lem s.0 (b * per) per s.1 g).2 d h;
        read_keeps = λ b s j g.
            run_ext s.0 _ (j * per) per s.1 _
              (λ i p q. (read_from_lem s.0 (b * per) per s.1 g).1 i);
        write_good = λ b d s g l. (write_fs_block_lem ro per b d s g l).0;
        write_ok = λ b d s g l h. (write_fs_block_lem ro per b d s g l).2 h;
        write_keeps = λ b d s j g l n.
            run_ext s.0 _ (j * per) per s.1 _
              (λ i p q. (write_fs_block_lem ro per b d s g l).1 i (apart b j per i n p q));
      }
