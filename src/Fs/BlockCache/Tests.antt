-- ===== src/Fs/BlockCache/Tests.antt =====
-- Runs of the block cache over a small disk whose blocks from number 100 on cannot be written.
use koros.Base.{
  ℕ, ◌≡◌, ◌≢◌, refl, ◌==◌, true, false, ltb, if◌then◌else◌, List, [], ◌∷◌, arith, length, ◌≤◌,
}
use koros.Base.Result.{Result, ok, err}
use koros.Base.OrdMap.{nat_key, get, insert, remove}
use koros.Kor.Block.{BlockDevice, BlockError, device_error, IsDevice}
use koros.Fs.BlockCache.{
  BlockCache, read_block_cached, write_block_cached, sync, flush_range, invalidate_range, write_all,
  write_entry,
}
use koros.Fs.BlockCache.View.{
  view, Inv, view-read_block_cached, read_block_cached-returns, view-write_block_cached,
}
use koros.Fs.BlockCache.Persist.{view-sync, sync_persists}
use koros.Fs.BlockCache.Range.{flush_range_persists, view-invalidate_range}
use koros.Fs.BlockCache.Capacity.{WellFormed, listed, write_block_cached-bounded}

abbrev store : ℕ → List ℕ → (ℕ → ℕ) → Result BlockError (Unit {0}) × (ℕ → ℕ)
store id [] s = (err device_error, s)
store id (x ∷ []) s =
    if ltb id 100 then (ok tt, λ j. if id == j then x else s j) else (err device_error, s)
store id (x ∷ y ∷ ys) s = (err device_error, s)

abbrev disk : BlockDevice
disk = record {
  State = ℕ → ℕ;
  block_size = 1;
  read_block = λ id s. (ok (s id ∷ []), s);
  write_block = store;
  flush = λ s. (ok tt, s);
}

abbrev on_disk : (ℕ → ℕ) → ℕ → List ℕ
on_disk s j = s j ∷ []

store_ok :
    (id : ℕ) (d : List ℕ) (s : ℕ → ℕ) → (store id d s).0 ≡ ok tt → on_disk (store id d s).1 id ≡ d
store_ok id [] s h = cc
store_ok id (x ∷ []) s h = ground arith
store_ok id (x ∷ y ∷ ys) s h = cc

store_keeps :
    (id : ℕ) (d : List ℕ) (s : ℕ → ℕ) (j : ℕ) → id ≢ j → on_disk (store id d s).1 j ≡ on_disk s j
store_keeps id [] s j n = refl
store_keeps id (x ∷ []) s j n = ground arith
store_keeps id (x ∷ y ∷ ys) s j n = refl

disk_lem : IsDevice disk on_disk
disk_lem = record {
  read_ok = λ id s d h. ground arith;
  read_length = λ id s d h. ground arith;
  read_keeps = λ id s j. refl;
  write_ok = store_ok;
  write_keeps = store_keeps;
  flush_keeps = λ s j. refl;
}

abbrev blank : ℕ → ℕ
blank j = 0

-- Block 7 is dirty, block 8 a copy of the disk.
abbrev warm : BlockCache
warm = record {
  cache =
      (7, record { block_id = 7; bytes = 42 ∷ []; dirty = true })
      ∷ (8, record { block_id = 8; bytes = 0 ∷ []; dirty = false })
      ∷ [];
  max_blocks = 2;
  access_order = 7 ∷ 8 ∷ [];
}

warm-Inv : Inv disk on_disk warm blank
unfolding get
warm-Inv j = ground arith

warm-WellFormed : WellFormed warm
unfolding get listed
warm-WellFormed = record { ordered = ((refl, tt), (tt, tt)); places = λ id e h. ground arith }

evicts_dirty :
    (let out = read_block_cached disk warm 9 1 blank in
      (out.0 ≡ ok (0 ∷ [])) × (out.1.access_order ≡ 8 ∷ 9 ∷ []) × (out.2 7 ≡ 42))
unfolding read_block_cached write_all write_entry insert remove get
evicts_dirty = (refl, refl, refl)

view-read_block_cached_run :
    view disk on_disk
      (read_block_cached disk warm 9 1 blank).1
      (read_block_cached disk warm 9 1 blank).2
      7
    ≡ view disk on_disk warm blank 7
view-read_block_cached_run =
    (view-read_block_cached disk on_disk disk_lem warm 9 1 blank warm-Inv).1 7

read_block_cached-returns_run : 0 ∷ [] ≡ view disk on_disk warm blank 9
unfolding read_block_cached get insert remove
read_block_cached-returns_run =
    read_block_cached-returns disk on_disk disk_lem warm 9 1 blank (0 ∷ []) warm-Inv refl

view-write_block_cached_example :
    view disk on_disk
      (write_block_cached disk warm 9 (5 ∷ []) blank).1
      (write_block_cached disk warm 9 (5 ∷ []) blank).2
      9
    ≡ 5 ∷ []
view-write_block_cached_example =
    (view-write_block_cached disk on_disk disk_lem warm 9 (5 ∷ []) blank warm-Inv refl).1 9

view-sync_example :
    view disk on_disk (sync disk warm blank).1 (sync disk warm blank).2 7
    ≡ view disk on_disk warm blank 7
view-sync_example = (view-sync disk on_disk disk_lem warm blank warm-Inv ((refl, tt), (tt, tt))).1 7

sync_persists_example : on_disk (sync disk warm blank).2 7 ≡ view disk on_disk warm blank 7
unfolding sync write_entry
sync_persists_example =
    (sync_persists disk on_disk disk_lem warm blank 7 warm-Inv ((refl, tt), (tt, tt)) refl).0

flush_range_persists_run :
    on_disk (flush_range disk warm 6 3 blank).2 7 ≡ view disk on_disk warm blank 7
unfolding flush_range write_entry get
flush_range_persists_run =
    flush_range_persists disk on_disk disk_lem warm 6 3 7 blank warm-Inv refl (omega arith)
      (omega arith)

view-invalidate_range_run : view disk on_disk (invalidate_range warm 6 3) blank 7 ≡ 0 ∷ []
view-invalidate_range_run = (view-invalidate_range disk on_disk warm 6 3 blank warm-Inv).1 7

write_block_cached-bounded_run : length (write_block_cached disk warm 9 (5 ∷ []) blank).1.cache ≤ 2
unfolding write_block_cached get insert remove
write_block_cached-bounded_run =
    (write_block_cached-bounded disk warm 9 (5 ∷ []) blank warm-WellFormed (omega arith) refl).1
