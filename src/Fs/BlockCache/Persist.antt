-- ===== src/Fs/BlockCache/Persist.antt =====
-- `sync`, `flush_range` and `invalidate_range`: when the device holds what the user sees.
use koros.Base.{
  ℕ, zero, suc, ◌+◌, ◌≡◌, ◌≢◌, refl, sym, ◌∙◌, inl, inr, false, ltb, leb, ◌&&◌, if◌then◌else◌, List,
  [], ◌∷◌, Option, none, some, arith, ℕ_discrete, Bool-cases, Option-cases,
}
use koros.Base.Result.{Result, ok, err, Result-cases}
use koros.Base.OrdMap.{get, insert, nat_key, get-insert, get_above, IsOrdered}
use koros.Kor.Block.{BlockDevice, BlockError, IsDevice}
use koros.Fs.BlockCache.{
  CachedBlock, BlockCache, write_entry, write_all, sync, clear_all, clear_range,
}
use koros.Fs.BlockCache.View.{seen, view, IsGood, Inv, IsGood-other}

abbrev pub cleaned : Option CachedBlock → Option CachedBlock
cleaned none = none
cleaned (some e) = some (record e { dirty = false })

get-clear_all : (m : List (ℕ × CachedBlock)) (j : ℕ) → get j (clear_all m) ≡ cleaned (get j m)
unfolding get clear_all
get-clear_all [] j = refl
get-clear_all ((i, e) ∷ m) j = ground (arith, get-clear_all m j)

pub get-clear_range :
    (m : List (ℕ × CachedBlock)) (id count j : ℕ)
    → get j (clear_range m id count)
      ≡ (if leb id j && ltb j (id + count) then cleaned (get j m) else get j m)
unfolding clear_range
get-clear_range m id zero j = ground arith
get-clear_range m id (suc count) j = elim (Option-cases (get id m)) [
  | inl e ↦ rw (e, clear_range) (ground (arith, get-clear_range m (suc id) count j))
  | inr (x, e) ↦
      rw (e, clear_range)
        (ground (
          arith,
          get-clear_range (insert id (record x { dirty = false }) m) (suc id) count j,
          get-insert id j (record x { dirty = false }) m,
        ))
]

module _ (D : BlockDevice) (contents : D.State → ℕ → List ℕ) (dev : IsDevice D contents) where
  open D use {State, write_block, flush}

  -- A good entry after a write of its own bytes, and after one that fails.
  pub write_own :
      (e : CachedBlock) (id : ℕ) (s : State)
      → IsGood D contents (some e) s id
      → (let (r, s') = write_entry D id e s in
          IsGood D contents (some e) s' id × (r ≡ ok tt → e.bytes ≡ contents s' id))
  unfolding write_entry
  write_own e id s g = elim (Bool-cases e.dirty) [
    | inl d ↦ rw d ((g.0, g.1, inl refl), λ k. sym (dev.write_ok id e.bytes s k))
    | inr d ↦ rw d ((ground arith), λ k. ground arith)
  ]

  pub write_own_keeps :
      (e : CachedBlock) (id j : ℕ) (s : State)
      → id ≢ j
      → contents (write_entry D id e s).1 j ≡ contents s j
  unfolding write_entry
  write_own_keeps e id j s n = elim (Bool-cases e.dirty) [
    | inl d ↦ rw d (dev.write_keeps id e.bytes s j n)
    | inr d ↦ rw d refl
  ]

  abbrev Good : List (ℕ × CachedBlock) → State → Type 0
  Good m s = (j : ℕ) → IsGood D contents (get j m) s j

  -- What the loop of `sync` has done to each block when it ends or fails.
  record Written (m : List (ℕ × CachedBlock)) (s s' : State) (r : Result BlockError (Unit {0}))
      : Type 0 where
    pub others : (j : ℕ) → get j m ≡ none → contents s' j ≡ contents s j
    pub good : (j : ℕ) → IsGood D contents (get j m) s' j
    pub same : (j : ℕ) → seen D contents (get j m) s' j ≡ seen D contents (get j m) s j
    pub flushed : (j : ℕ) → r ≡ ok tt → seen D contents (get j m) s j ≡ contents s' j

  tail-Good :
      (i : ℕ) (e : CachedBlock) (m : List (ℕ × CachedBlock)) (s : State)
      → IsOrdered ((i, e) ∷ m)
      → Good ((i, e) ∷ m) s
      → Good m s
  unfolding get
  tail-Good i e m s o g j = elim (ℕ_discrete j i) [
    | yes p ↦ ground (arith, g j, get_above i m o.0)
    | no p ↦ ground (arith, g j)
  ]

  -- One entry of the map has been written, or its write has failed.
  module _ (i : ℕ) (e : CachedBlock) (m : List (ℕ × CachedBlock)) (s : State)
      (o : IsOrdered ((i, e) ∷ m)) (g : Good ((i, e) ∷ m) s) (own : e.block_id ≡ i) where
    abbrev after : State
    after = (write_entry D e.block_id e s).1

    head_written :
        (j : ℕ)
        → IsGood D contents (get j ((i, e) ∷ m)) after j
          × (seen D contents (get j ((i, e) ∷ m)) after j
              ≡ seen D contents (get j ((i, e) ∷ m)) s j)
          × (get j ((i, e) ∷ m) ≡ none → contents after j ≡ contents s j)
    unfolding get
    head_written j = elim (ℕ_discrete j i) [
      | yes p ↦ ground (arith, g i, write_own e e.block_id s)
      | no p ↦ ground (
        arith,
        g j,
        write_own_keeps e e.block_id j s,
        IsGood-other D contents dev (get j m) s after j,
      )
    ]

    Written-err : (x : BlockError) → Written ((i, e) ∷ m) s after (err x)
    Written-err x = record {
      others = λ j h. (head_written j).2 h;
      good = λ j. (head_written j).0;
      same = λ j. (head_written j).1;
      flushed = λ j h. cc;
    }

    after-Good : Good m after
    after-Good = tail-Good i e m after o (λ j. (head_written j).0)

    Written-ok :
        (s' : State) (r : Result BlockError (Unit {0}))
        → (write_entry D e.block_id e s).0 ≡ ok tt
        → Written m after s' r
        → Written ((i, e) ∷ m) s s' r
    unfolding get
    Written-ok s' r h w = record {
      others = λ j k. elim (ℕ_discrete j i) [
        | yes p ↦ ground arith
        | no p ↦ ground (arith, w.others j, (head_written j).2)
      ];
      good = λ j. elim (ℕ_discrete j i) [
        | yes p ↦ ground (arith, g i, w.others i (get_above i m o.0), write_own e e.block_id s)
        | no p ↦ ground (arith, w.good j)
      ];
      same = λ j. elim (ℕ_discrete j i) [
        | yes p ↦ ground arith
        | no p ↦ ground (arith, w.same j, head_written j)
      ];
      flushed = λ j k. elim (ℕ_discrete j i) [
        | yes p ↦ ground (arith, g i, w.others i (get_above i m o.0), write_own e e.block_id s)
        | no p ↦ ground (arith, w.flushed j k, head_written j)
      ];
    }

  write_all_lem :
      (m : List (ℕ × CachedBlock)) (s : State)
      → IsOrdered m
      → Good m s
      → Written m s (write_all D m s).1 (write_all D m s).0
  unfolding write_all get
  write_all_lem [] s o g = record {
    others = λ j h. refl;
    good = λ j. tt;
    same = λ j. refl;
    flushed = λ j h. refl;
  }
  write_all_lem ((i, e) ∷ m) s o g = elim (Result-cases (write_entry D e.block_id e s).0) [
    | inr (x, h) ↦ rw (h, write_all) (Written-err i e m s o g own x)
    | inl (u, h) ↦
        rw (h, write_all)
          (Written-ok i e m s o g own _ _ h
            (write_all_lem m (after i e m s o g own) o.1 (after-Good i e m s o g own)))
  ]
    where
      own : e.block_id ≡ i
      own = ground (arith, g i)

  -- Entries that hold what the device holds stay good when their dirty flags go, and a barrier
  -- changes nothing.
  pub cleaned_good :
      (e : Option CachedBlock) (s s' : State) (j : ℕ)
      → contents s' j ≡ contents s j
      → IsGood D contents e s j
      → seen D contents e s j ≡ contents s j
      → IsGood D contents (cleaned e) s' j × (seen D contents (cleaned e) s' j ≡ contents s' j)
  cleaned_good none s s' j k g h = (tt, refl)
  cleaned_good (some e) s s' j k g h = ground arith

  sync_step :
      (c : BlockCache) (s : State)
      → Inv D contents c s
      → IsOrdered c.cache
      → (let out = sync D c s in
          Inv D contents out.1 out.2
          × ((j : ℕ) → view D contents out.1 out.2 j ≡ view D contents c s j)
          × ((j : ℕ)
              → out.0 ≡ ok tt
              → (contents out.2 j ≡ view D contents c s j)
                × (get j out.1.cache ≡ cleaned (get j c.cache))))
  unfolding sync view
  sync_step c s g o = elim (Result-cases (write_all D c.cache s).0) [
    | inr (x, h) ↦ rw (h, sync) (w.good, w.same, λ j k. cc)
    | inl (u, h) ↦ elim (Result-cases (flush mid).0) [
      | inr (x, k) ↦
          rw (h, k, sync) ((λ j. (barrier j).0), (λ j. (barrier j).1 ∙ w.same j), λ j l. cc)
      | inl (v, k) ↦
          rw (h, k, sync)
            (
              (λ j. rw (get-clear_all c.cache j) (synced h j).0),
              (λ j.
                  rw (get-clear_all c.cache j)
                    (ground (arith, synced h j, dev.flush_keeps mid j, w.flushed j h))),
              (λ j l.
                  (ground (arith, dev.flush_keeps mid j, w.flushed j h), get-clear_all c.cache j)),
            )
    ]
  ]
    where
      mid : State
      mid = (write_all D c.cache s).1

      w : Written c.cache s mid (write_all D c.cache s).0
      w = write_all_lem c.cache s o g

      barrier :
          (j : ℕ)
          → IsGood D contents (get j c.cache) (flush mid).1 j
            × (seen D contents (get j c.cache) (flush mid).1 j
                ≡ seen D contents (get j c.cache) mid j)
      barrier j =
          IsGood-other D contents dev (get j c.cache) mid (flush mid).1 j (dev.flush_keeps mid j)
            (w.good j)

      synced :
          (write_all D c.cache s).0 ≡ ok tt
          → (j : ℕ)
          → IsGood D contents (cleaned (get j c.cache)) (flush mid).1 j
            × (seen D contents (cleaned (get j c.cache)) (flush mid).1 j ≡ contents (flush mid).1 j)
      synced h j =
          cleaned_good (get j c.cache) mid (flush mid).1 j (dev.flush_keeps mid j) (w.good j)
            (w.same j ∙ w.flushed j h)

  -- `sync` keeps the invariant and every block that the user sees, whatever the device does.
  pub view-sync :
      (c : BlockCache) (s : State)
      → Inv D contents c s
      → IsOrdered c.cache
      → (let out = sync D c s in
          Inv D contents out.1 out.2
          × ((j : ℕ) → view D contents out.1 out.2 j ≡ view D contents c s j))
  view-sync c s g o = let step = sync_step c s g o in (step.0, step.1)

  -- After a `sync` that succeeds the device holds every block that the user saw, and the cache has
  -- the same entries with no dirty flag.
  pub sync_persists :
      (c : BlockCache) (s : State) (j : ℕ)
      → Inv D contents c s
      → IsOrdered c.cache
      → (sync D c s).0 ≡ ok tt
      → (contents (sync D c s).2 j ≡ view D contents c s j)
        × (get j (sync D c s).1.cache ≡ cleaned (get j c.cache))
  sync_persists c s j g o h = (sync_step c s g o).2 j h
