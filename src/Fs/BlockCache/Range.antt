-- ===== src/Fs/BlockCache/Range.antt =====
-- `flush_range` and `invalidate_range`, which go round a bypass of the cache.
use koros.Base.{
  ℕ, zero, suc, ◌+◌, ◌≤◌, ◌<◌, ◌≡◌, ◌≢◌, refl, sym, ◌∙◌, inl, inr, ltb, leb, ◌&&◌, if◌then◌else◌,
  List, Option, none, some, arith, subst, ℕ_discrete, Bool-cases, Option-cases,
}
use koros.Base.Result.{Result, ok, err, Result-cases}
use koros.Base.OrdMap.{get, remove, nat_key, get-remove}
use koros.Kor.Block.{BlockDevice, BlockError, IsDevice}
use koros.Fs.BlockCache.{
  CachedBlock, BlockCache, write_one, write_range, flush_range, clear_range, invalidate_range,
  remove_first,
}
use koros.Fs.BlockCache.View.{seen, view, IsGood, Inv, IsGood-other}
use koros.Fs.BlockCache.Persist.{get-clear_range, write_own, write_own_keeps, cleaned_good}

module _ (D : BlockDevice) (contents : D.State → ℕ → List ℕ) where
  open D use {State, flush}

  -- Dropping a range shows the device's blocks there, and changes nothing elsewhere.
  pub view-invalidate_range :
      (c : BlockCache) (id count : ℕ) (s : State)
      → Inv D contents c s
      → Inv D contents (invalidate_range c id count) s
        × ((j : ℕ)
            → view D contents (invalidate_range c id count) s j
              ≡ (if leb id j && ltb j (id + count) then contents s j else view D contents c s j))
  unfolding invalidate_range view
  view-invalidate_range c id zero s g = (g, λ j. ground arith)
  view-invalidate_range c id (suc count) s g = elim (Option-cases (get id c.cache)) [
    | inl e ↦
        let rest = view-invalidate_range c (suc id) count s g in
        rw (e, invalidate_range)
          (
            rest.0,
            λ j. elim (ℕ_discrete id j) [
              | yes p ↦ ground (arith, rest.1 j, e)
              | no p ↦ ground (arith, rest.1 j)
            ],
          )
    | inr (x, e) ↦
        let c' = record c {
          cache = remove id c.cache;
          access_order = remove_first id c.access_order;
        } in
        let rest =
          view-invalidate_range c' (suc id) count s
            (λ k. ground (arith, get-remove id k c.cache, g k)) in
        rw (e, invalidate_range)
          (
            rest.0,
            λ j. elim (ℕ_discrete id j) [
              | yes p ↦ ground (arith, rest.1 j, get-remove id j c.cache)
              | no p ↦ ground (arith, rest.1 j, get-remove id j c.cache)
            ],
          )
  ]

  module _ (dev : IsDevice D contents) where
    write_one_lem :
        (e : Option CachedBlock) (id : ℕ) (s : State)
        → IsGood D contents e s id
        → IsGood D contents e (write_one D e id s).1 id
          × (seen D contents e (write_one D e id s).1 id ≡ seen D contents e s id)
          × ((write_one D e id s).0 ≡ ok tt
              → seen D contents e s id ≡ contents (write_one D e id s).1 id)
          × ((j : ℕ) → id ≢ j → contents (write_one D e id s).1 j ≡ contents s j)
    unfolding write_one
    write_one_lem none id s g = (tt, refl, (λ h. refl), λ j n. refl)
    write_one_lem (some e) id s g =
        let own = write_own D contents dev e id s g in
        (own.0, refl, own.1, λ j n. write_own_keeps D contents dev e id j s n)

    -- What the first loop of `flush_range` has done when it ends or fails.
    record Flushed (m : List (ℕ × CachedBlock)) (id count : ℕ) (s s' : State)
        (r : Result BlockError (Unit {0})) : Type 0 where
      pub before : (j : ℕ) → j < id → contents s' j ≡ contents s j
      pub good : (j : ℕ) → IsGood D contents (get j m) s' j
      pub same : (j : ℕ) → seen D contents (get j m) s' j ≡ seen D contents (get j m) s j
      pub flushed :
          (j : ℕ)
          → r ≡ ok tt
          → id ≤ j
          → j < id + count
          → seen D contents (get j m) s j ≡ contents s' j

    module _ (m : List (ℕ × CachedBlock)) (id : ℕ) (s : State)
        (g : (j : ℕ) → IsGood D contents (get j m) s j) where
      abbrev after : State
      after = (write_one D (get id m) id s).1

      stepped :
          (j : ℕ)
          → IsGood D contents (get j m) after j
            × (seen D contents (get j m) after j ≡ seen D contents (get j m) s j)
      stepped j = elim (ℕ_discrete id j) [
        | yes p ↦
            subst
              (λ i.
                IsGood D contents (get i m) after i
                × (seen D contents (get i m) after i ≡ seen D contents (get i m) s i))
              p (let own = write_one_lem (get id m) id s (g id) in (own.0, own.1))
        | no p ↦
            IsGood-other D contents dev (get j m) s after j
              ((write_one_lem (get id m) id s (g id)).3 j p) (g j)
      ]

      Flushed-err : (count : ℕ) (x : BlockError) → Flushed m id (suc count) s after (err x)
      Flushed-err count x = record {
        before = λ j h. (write_one_lem (get id m) id s (g id)).3 j (omega arith);
        good = λ j. (stepped j).0;
        same = λ j. (stepped j).1;
        flushed = λ j h. cc;
      }

      Flushed-ok :
          (count : ℕ) (s' : State) (r : Result BlockError (Unit {0}))
          → (write_one D (get id m) id s).0 ≡ ok tt
          → Flushed m (suc id) count after s' r
          → Flushed m id (suc count) s s' r
      Flushed-ok count s' r h w = record {
        before = λ j k.
            w.before j (omega arith) ∙ (write_one_lem (get id m) id s (g id)).3 j (omega arith);
        good = w.good;
        same = λ j. w.same j ∙ (stepped j).1;
        flushed = λ j k a b. elim (ℕ_discrete id j) [
          | yes p ↦
              subst (λ i. seen D contents (get i m) s i ≡ contents s' i) p
                ((write_one_lem (get id m) id s (g id)).2 h ∙ sym (w.before id (omega arith)))
          | no p ↦ sym (stepped j).1 ∙ w.flushed j k (omega arith) (omega arith)
        ];
      }

    write_range_lem :
        (m : List (ℕ × CachedBlock)) (id count : ℕ) (s : State)
        → ((j : ℕ) → IsGood D contents (get j m) s j)
        → Flushed m id count s (write_range D m id count s).1 (write_range D m id count s).0
    unfolding write_range
    write_range_lem m id zero s g = record {
      before = λ j h. refl;
      good = g;
      same = λ j. refl;
      flushed = λ j h a b. absurd (omega arith);
    }
    write_range_lem m id (suc count) s g = elim (Result-cases (write_one D (get id m) id s).0) [
      | inr (x, h) ↦ rw (h, write_range) (Flushed-err m id s g count x)
      | inl (u, h) ↦
          rw (h, write_range)
            (Flushed-ok m id s g count _ _ h
              (write_range_lem m (suc id) count (after m id s g) (λ j. (stepped m id s g j).0)))
    ]

    flush_range_step :
        (c : BlockCache) (start count : ℕ) (s : State)
        → Inv D contents c s
        → (let out = flush_range D c start count s in
            Inv D contents out.1 out.2
            × ((j : ℕ) → view D contents out.1 out.2 j ≡ view D contents c s j)
            × ((j : ℕ)
                → out.0 ≡ ok tt
                → start ≤ j
                → j < start + count
                → contents out.2 j ≡ view D contents c s j))
    unfolding flush_range view
    flush_range_step c start count s g =
        elim (Result-cases (write_range D c.cache start count s).0) [
          | inr (x, h) ↦ rw (h, flush_range) (w.good, w.same, λ j k. cc)
          | inl (u, h) ↦ elim (Result-cases (flush mid).0) [
            | inr (x, k) ↦
                rw (h, k, flush_range)
                  ((λ j. (barrier j).0), (λ j. (barrier j).1 ∙ w.same j), λ j l. cc)
            | inl (v, k) ↦
                rw (h, k, flush_range)
                  (
                    (λ j. (cleared h j).0),
                    (λ j. (cleared h j).1),
                    λ j l a b. dev.flush_keeps mid j ∙ sym (w.flushed j h a b),
                  )
          ]
        ]
      where
        mid : State
        mid = (write_range D c.cache start count s).1

        w : Flushed c.cache start count s mid (write_range D c.cache start count s).0
        w = write_range_lem c.cache start count s g

        barrier :
            (j : ℕ)
            → IsGood D contents (get j c.cache) (flush mid).1 j
              × (seen D contents (get j c.cache) (flush mid).1 j
                  ≡ seen D contents (get j c.cache) mid j)
        barrier j =
            IsGood-other D contents dev (get j c.cache) mid (flush mid).1 j (dev.flush_keeps mid j)
              (w.good j)

        cleared :
            (write_range D c.cache start count s).0 ≡ ok tt
            → (j : ℕ)
            → IsGood D contents (get j (clear_range c.cache start count)) (flush mid).1 j
              × (seen D contents (get j (clear_range c.cache start count)) (flush mid).1 j
                  ≡ seen D contents (get j c.cache) s j)
        cleared h j = elim (Bool-cases (leb start j && ltb j (start + count))) [
          | inr e ↦
              rw (get-clear_range c.cache start count j, e)
                ((barrier j).0, (barrier j).1 ∙ w.same j)
          | inl e ↦
              let back = w.flushed j h (ground arith) (ground arith) in
              let done =
                cleaned_good D contents dev (get j c.cache) mid (flush mid).1 j
                  (dev.flush_keeps mid j) (w.good j) (w.same j ∙ back) in
              rw (get-clear_range c.cache start count j, e)
                (done.0, done.1 ∙ dev.flush_keeps mid j ∙ sym back)
        ]

    -- `flush_range` keeps the invariant and every block that the user sees, whatever the device
    -- does.
    pub view-flush_range :
        (c : BlockCache) (start count : ℕ) (s : State)
        → Inv D contents c s
        → (let out = flush_range D c start count s in
            Inv D contents out.1 out.2
            × ((j : ℕ) → view D contents out.1 out.2 j ≡ view D contents c s j))
    view-flush_range c start count s g =
        let step = flush_range_step c start count s g in (step.0, step.1)

    -- After a `flush_range` that succeeds the device holds what the user saw of each block of the
    -- range.
    pub flush_range_persists :
        (c : BlockCache) (start count j : ℕ) (s : State)
        → Inv D contents c s
        → (flush_range D c start count s).0 ≡ ok tt
        → start ≤ j
        → j < start + count
        → contents (flush_range D c start count s).2 j ≡ view D contents c s j
    flush_range_persists c start count j s g h a b = (flush_range_step c start count s g).2 j h a b
