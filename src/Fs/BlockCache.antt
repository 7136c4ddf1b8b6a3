-- ===== src/Fs/BlockCache.antt =====
-- filesystems/kor-fs/src/block_cache.rs. The cache owns a share of the device, whose state is passed
-- along. A method returns its result and the new cache with the new device state.
pub mod View
pub mod Persist
pub mod Range
pub mod Capacity
pub mod Sizes
mod Tests
use koros.Base.{
  ℕ, zero, suc, ◌+◌, ◌==◌, Bool, true, false, not, ltb, if◌then◌else◌, List, [], ◌∷◌, ◌++◌, Option,
  none, some, length,
}
use koros.Base.Result.{Result, ok, err}
use koros.Base.OrdMap.{get, insert, remove, nat_key}
use koros.Kor.Block.{BlockDevice, BlockError, invalid_block}

pub record CachedBlock : Type 0 where
  pub block_id : ℕ
  pub bytes : List ℕ
  pub dirty : Bool

-- `access_order` has the least recently used block at the head.
pub record BlockCache : Type 0 where
  pub cache : List (ℕ × CachedBlock)
  pub max_blocks : ℕ
  pub access_order : List ℕ

pub new : ℕ → BlockCache
new max_blocks = record { cache = []; max_blocks = max_blocks; access_order = [] }

-- `position` and `remove` of one entry.
pub remove_first : ℕ → List ℕ → List ℕ
remove_first id [] = []
remove_first id (x ∷ xs) = if x == id then xs else x ∷ remove_first id xs

pub touch : BlockCache → ℕ → BlockCache
unfolding remove_first
touch c id = record c { access_order = remove_first id c.access_order ++ id ∷ [] }

-- `invalidate_range`, over `count` blocks from `id`.
pub invalidate_range : BlockCache → ℕ → ℕ → BlockCache
unfolding remove_first
invalidate_range c id zero = c
invalidate_range c id (suc count) =
    invalidate_range
      (elim (get id c.cache) [
        | none ↦ c
        | some _ ↦ record c {
          cache = remove id c.cache;
          access_order = remove_first id c.access_order;
        }
      ])
      (suc id) count

-- The second loop of `flush_range`.
pub clear_range : List (ℕ × CachedBlock) → ℕ → ℕ → List (ℕ × CachedBlock)
clear_range m id zero = m
clear_range m id (suc count) =
    clear_range (elim (get id m) [ none ↦ m | some e ↦ insert id (record e { dirty = false }) m ])
      (suc id) count

-- The second loop of `sync`.
pub clear_all : List (ℕ × CachedBlock) → List (ℕ × CachedBlock)
clear_all [] = []
clear_all ((id, e) ∷ m) = (id, record e { dirty = false }) ∷ clear_all m

module _ (D : BlockDevice) where
  open D use {State, block_size, read_block, write_block, flush}

  abbrev pub Done : Type 0 → Type 0
  Done A = Result BlockError A × BlockCache × State

  -- The write-back of a victim: nothing for a clean one; a write and a barrier for a dirty one.
  pub write_back : Option CachedBlock → State → Result BlockError (Unit {0}) × State
  write_back none s = (ok tt, s)
  write_back (some e) s =
      if not e.dirty
      then (ok tt, s)
      else (let (r, s') = write_block e.block_id e.bytes s in
          elim r [ ok _ ↦ flush s' | err x ↦ (err x, s') ])

  -- The loop of `evict_if_needed`, which takes the head off the order in each round.
  pub evict_from : BlockCache → List ℕ → State → Done (Unit {0})
  unfolding write_back
  evict_from c [] s = (ok tt, record c { access_order = [] }, s)
  evict_from c (victim ∷ order) s =
      let (r, s') = write_back (get victim c.cache) s in
      let rest = evict_from (record c { cache = remove victim c.cache }) order s' in
      if ltb c.max_blocks (length c.cache)
      then elim r [ ok _ ↦ rest | err x ↦ (err x, record c { access_order = victim ∷ order }, s') ]
      else (ok tt, record c { access_order = victim ∷ order }, s)

  pub evict_if_needed : BlockCache → State → Done (Unit {0})
  unfolding evict_from
  evict_if_needed c s = evict_from c c.access_order s

  -- A miss puts the block in, at the back of the order, and evicts.
  pub put : BlockCache → ℕ → List ℕ → Bool → State → Done (Unit {0})
  unfolding evict_if_needed
  put c id bytes dirty s =
      evict_if_needed
        (record c {
          cache = insert id (record { block_id = id; bytes = bytes; dirty = dirty }) c.cache;
          access_order = c.access_order ++ id ∷ [];
        })
        s

  -- `self.evict_if_needed()?; Ok(())`, with the bytes that were copied.
  abbrev pub finish : Result BlockError (Unit {0}) → List ℕ → Result BlockError (List ℕ)
  finish (ok _) bytes = ok bytes
  finish (err x) bytes = err x

  -- The list in the result is what the call leaves in `buf`, which has `len` bytes.
  pub read_block_cached : BlockCache → ℕ → ℕ → State → Done (List ℕ)
  unfolding put touch
  read_block_cached c id len s =
      if not (len == block_size) then (err invalid_block, c, s) else (elim (get id c.cache) [
        | some e ↦ (ok e.bytes, touch c id, s)
        | none ↦
            let (r, s') = read_block id s in
            elim r [
              | err x ↦ (err x, c, s')
              | ok bytes ↦
                  let (done, c', s'') = put c id bytes false s' in (finish done bytes, c', s'')
            ]
      ])

  pub write_block_cached : BlockCache → ℕ → List ℕ → State → Done (Unit {0})
  unfolding put touch
  write_block_cached c id buf s =
      if not (length buf == block_size) then (err invalid_block, c, s) else (elim (get id c.cache) [
        | some e ↦ (
          ok tt,
          touch (record c { cache = insert id (record e { bytes = buf; dirty = true }) c.cache })
              id,
          s,
        )
        | none ↦ put c id buf true s
      ])

  -- `if entry.dirty { self.device.write_block(id, &entry.data)?; }`
  pub write_entry : ℕ → CachedBlock → State → Result BlockError (Unit {0}) × State
  write_entry id e s = if e.dirty then write_block id e.bytes s else (ok tt, s)

  pub write_one : Option CachedBlock → ℕ → State → Result BlockError (Unit {0}) × State
  write_one none id s = (ok tt, s)
  write_one (some e) id s = write_entry id e s

  -- The first loop of `flush_range`, over `count` blocks from `id`.
  pub write_range : List (ℕ × CachedBlock) → ℕ → ℕ → State → Result BlockError (Unit {0}) × State
  unfolding write_one
  write_range m id zero s = (ok tt, s)
  write_range m id (suc count) s =
      let (r, s') = write_one (get id m) id s in
      let rest = write_range m (suc id) count s' in elim r [ ok _ ↦ rest | err x ↦ (err x, s') ]

  pub flush_range : BlockCache → ℕ → ℕ → State → Done (Unit {0})
  unfolding write_range
  flush_range c start count s =
      let (r, s') = write_range c.cache start count s in
      elim r [
        | err x ↦ (err x, c, s')
        | ok _ ↦
            let (r', s'') = flush s' in
            elim r' [
              | err x ↦ (err x, c, s'')
              | ok _ ↦ (ok tt, record c { cache = clear_range c.cache start count }, s'')
            ]
      ]

  -- The loop of `sync` over the values of the map.
  pub write_all : List (ℕ × CachedBlock) → State → Result BlockError (Unit {0}) × State
  write_all [] s = (ok tt, s)
  write_all ((_, e) ∷ m) s =
      let (r, s') = write_entry e.block_id e s in
      let rest = write_all m s' in elim r [ ok _ ↦ rest | err x ↦ (err x, s') ]

  pub sync : BlockCache → State → Done (Unit {0})
  unfolding write_all
  sync c s =
      let (r, s') = write_all c.cache s in
      elim r [
        | err x ↦ (err x, c, s')
        | ok _ ↦
            let (r', s'') = flush s' in
            elim r' [
              | err x ↦ (err x, c, s'')
              | ok _ ↦ (ok tt, record c { cache = clear_all c.cache }, s'')
            ]
      ]
