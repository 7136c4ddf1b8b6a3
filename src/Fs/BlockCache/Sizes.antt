-- ===== src/Fs/BlockCache/Sizes.antt =====
-- The length of what a read of the cache returns.
use koros.Base.{
  ℕ, ◌≡◌, sym, ◌∙◌, ap, ◌==◌, false, List, length, inl, inr, arith, Bool-cases, Option-cases,
}
use koros.Base.Result.{Result, ok, err, Result-cases, ok_eq, absurd_ok}
use koros.Base.OrdMap.{get, nat_key}
use koros.Kor.Block.{BlockDevice, BlockError, IsDevice}
use koros.Fs.BlockCache.{BlockCache, put, finish, read_block_cached}
use koros.Fs.BlockCache.View.{Inv}

module _ (D : BlockDevice) (contents : D.State → ℕ → List ℕ) (dev : IsDevice D contents) where
  finish_lem :
      (r : Result BlockError (Unit {0})) (bytes b : List ℕ) → finish D r bytes ≡ ok b → bytes ≡ b
  finish_lem (ok _) bytes b k = cc
  finish_lem (err x) bytes b k = absurd (absurd_ok k)

  -- A read that succeeds returns a whole block.
  pub length-read_block_cached :
      (c : BlockCache) (id len : ℕ) (s : D.State) (bytes : List ℕ)
      → Inv D contents c s
      → (read_block_cached D c id len s).0 ≡ ok bytes
      → length bytes ≡ D.block_size
  unfolding read_block_cached
  length-read_block_cached c id len s bytes g h = elim (Bool-cases (len == D.block_size)) [
    | inr e ↦ absurd (absurd_ok (rw e at h))
    | inl e ↦ elim (Option-cases (get id c.cache)) [
      | inr (x, hit) ↦ ap length (sym (ok_eq (rw (e, hit) at h))) ∙ ground (arith, g id)
      | inl miss ↦ elim (Result-cases (D.read_block id s).0) [
        | inr (x, k) ↦ absurd (absurd_ok (rw (e, miss, k) at h))
        | inl (d, k) ↦
            ap length (
              sym (
                finish_lem (put D c id d false (D.read_block id s).1).0 d bytes
                  (rw (e, miss, k) at h)))
            ∙ dev.read_length id s d k
      ]
    ]
  ]
