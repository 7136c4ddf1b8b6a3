-- ===== src/Fs/BlockCache/View.antt =====
-- The cache against the disk that its user sees: a cached block hides the device's block.
use koros.Base.{
  ℕ, ◌≡◌, ◌≢◌, refl, sym, ◌∙◌, ◌⊎◌, inl, inr, ◌==◌, Bool, true, false, ltb, if◌then◌else◌, List, [],
  ◌∷◌, ◌++◌, Option, none, some, length, arith, ℕ_discrete, subst, Bool-cases, Option-cases,
}
use koros.Base.Result.{Result, ok, err, Result-cases}
use koros.Base.OrdMap.{get, insert, remove, nat_key, get-insert, get-remove}
use koros.Kor.Block.{BlockDevice, BlockError, IsDevice}
use koros.Fs.BlockCache.{
  CachedBlock, BlockCache, touch, write_back, evict_from, evict_if_needed, put, finish,
  read_block_cached, write_block_cached,
}

module _ (D : BlockDevice) (contents : D.State → ℕ → List ℕ) where
  open D use {State, block_size}

  abbrev pub seen : Option CachedBlock → State → ℕ → List ℕ
  seen none s id = contents s id
  seen (some e) s id = e.bytes

  -- The block that a user of the cache sees under `id`.
  unfoldable pub view : BlockCache → State → ℕ → List ℕ
  view c s id = seen (get id c.cache) s id

  -- An entry knows its block and its size, and is dirty or a copy of the device's block.
  abbrev pub IsGood : Option CachedBlock → State → ℕ → Type 0
  IsGood none s id = Unit {0}
  IsGood (some e) s id =
      (e.block_id ≡ id)
      × (length e.bytes ≡ block_size)
      × ((e.dirty ≡ true) ⊎ (e.bytes ≡ contents s id))

  abbrev pub Inv : BlockCache → State → Type 0
  Inv c s = (id : ℕ) → IsGood (get id c.cache) s id

  module _ (dev : IsDevice D contents) where
    write_back_keeps :
        (e : Option CachedBlock) (id j : ℕ) (s : State)
        → IsGood e s id
        → id ≢ j
        → contents (write_back D e s).1 j ≡ contents s j
    unfolding write_back
    write_back_keeps none id j s g h = refl
    write_back_keeps (some e) id j s g h = ground (
      arith,
      dev.write_keeps e.block_id e.bytes s j,
      dev.flush_keeps (D.write_block e.block_id e.bytes s).1 j,
    )

    write_back_ok :
        (e : Option CachedBlock) (id : ℕ) (s : State)
        → IsGood e s id
        → (write_back D e s).0 ≡ ok tt
        → seen e s id ≡ contents (write_back D e s).1 id
    unfolding write_back
    write_back_ok none id s g h = refl
    write_back_ok (some e) id s g h = ground (
      arith,
      dev.write_ok e.block_id e.bytes s,
      dev.flush_keeps (D.write_block e.block_id e.bytes s).1 id,
    )

    -- An entry of another block is as good after a write-back as before.
    pub IsGood-other :
        (e : Option CachedBlock) (s s' : State) (id : ℕ)
        → contents s' id ≡ contents s id
        → IsGood e s id
        → IsGood e s' id × (seen e s' id ≡ seen e s id)
    IsGood-other none s s' id h g = (tt, h)
    IsGood-other (some e) s s' id h g = (ground arith, refl)

    write_back_err :
        (e : Option CachedBlock) (id : ℕ) (s : State) (x : BlockError)
        → IsGood e s id
        → (write_back D e s).0 ≡ err x
        → IsGood e (write_back D e s).1 id × (seen e (write_back D e s).1 id ≡ seen e s id)
    unfolding write_back
    write_back_err none id s x g h = cc
    write_back_err (some e) id s x g h = ground arith

    -- What each block is after a round that drops the victim, and after one that fails.
    dropped :
        (m : List (ℕ × CachedBlock)) (victim id : ℕ) (s : State)
        → IsGood (get victim m) s victim
        → IsGood (get id m) s id
        → (write_back D (get victim m) s).0 ≡ ok tt
        → let s' = (write_back D (get victim m) s).1 in
          IsGood (get id (remove victim m)) s' id
          × (seen (get id (remove victim m)) s' id ≡ seen (get id m) s id)
    dropped m victim id s gv g h = elim (ℕ_discrete victim id) [
      | yes p ↦
          ground (arith, get-remove victim id m, write_back_ok (get victim m) victim s gv h, p)
      | no p ↦ ground (
        arith,
        get-remove victim id m,
        write_back_keeps (get victim m) victim id s gv p,
        IsGood-other (get id m) s (write_back D (get victim m) s).1 id,
      )
    ]

    failed :
        (m : List (ℕ × CachedBlock)) (victim id : ℕ) (s : State) (x : BlockError)
        → IsGood (get victim m) s victim
        → IsGood (get id m) s id
        → (write_back D (get victim m) s).0 ≡ err x
        → let s' = (write_back D (get victim m) s).1 in
          IsGood (get id m) s' id × (seen (get id m) s' id ≡ seen (get id m) s id)
    failed m victim id s x gv g h = elim (ℕ_discrete victim id) [
      | yes p ↦
          subst
            (λ i.
              IsGood (get i m) (write_back D (get victim m) s).1 i
              × (seen (get i m) (write_back D (get victim m) s).1 i ≡ seen (get i m) s i))
            p (write_back_err (get victim m) victim s x gv h)
      | no p ↦
          IsGood-other (get id m) s (write_back D (get victim m) s).1 id
            (write_back_keeps (get victim m) victim id s gv p) g
    ]

    evict_from_lem :
        (c : BlockCache) (order : List ℕ) (s : State)
        → Inv c s
        → (let out = evict_from D c order s in
            (id : ℕ) → IsGood (get id out.1.cache) out.2 id × (view out.1 out.2 id ≡ view c s id))
    unfolding evict_from view
    evict_from_lem c [] s g id = (g id, refl)
    evict_from_lem c (victim ∷ order) s g id =
        elim (Bool-cases (ltb c.max_blocks (length c.cache))) [
          | inr e ↦ rw (e, evict_from) (g id, refl)
          | inl e ↦ elim (Result-cases (write_back D (get victim c.cache) s).0) [
            | inl (u, h) ↦
                let rest =
                  evict_from_lem (record c { cache = remove victim c.cache }) order
                    (write_back D (get victim c.cache) s).1
                    (λ j. (dropped c.cache victim j s (g victim) (g j) h).0) id in
                rw (e, h, evict_from)
                  (rest.0, rest.1 ∙ (dropped c.cache victim id s (g victim) (g id) h).1)
            | inr (x, h) ↦ rw (e, h, evict_from) (failed c.cache victim id s x (g victim) (g id) h)
          ]
        ]

    inserted :
        (m : List (ℕ × CachedBlock)) (id : ℕ) (e : CachedBlock) (s : State) (j : ℕ)
        → IsGood (some e) s id
        → IsGood (get j m) s j
        → IsGood (get j (insert id e m)) s j
          × (seen (get j (insert id e m)) s j ≡ (if id == j then e.bytes else seen (get j m) s j))
    inserted m id e s j ge g = ground (arith, get-insert id j e m)

    put_lem :
        (c : BlockCache) (id : ℕ) (bytes : List ℕ) (dirty : Bool) (s : State)
        → Inv c s
        → length bytes ≡ block_size
        → (dirty ≡ true) ⊎ (bytes ≡ contents s id)
        → (let out = put D c id bytes dirty s in
            (j : ℕ)
            → IsGood (get j out.1.cache) out.2 j
              × (view out.1 out.2 j ≡ (if id == j then bytes else view c s j)))
    unfolding put evict_if_needed view
    put_lem c id bytes dirty s g l d j =
        let e : CachedBlock = record { block_id = id; bytes = bytes; dirty = dirty } in
        let c' = record c {
          cache = insert id e c.cache;
          access_order = c.access_order ++ id ∷ [];
        } in
        let rest =
          evict_from_lem c' c'.access_order s
            (λ k. (inserted c.cache id e s k (refl, l, d) (g k)).0) j in
        (rest.0, rest.1 ∙ (inserted c.cache id e s j (refl, l, d) (g j)).1)

    -- The state and the block that a call of `read_block_cached` leaves, on a miss that the device
    -- serves.
    fetched :
        (c : BlockCache) (id : ℕ) (s : State) (bytes : List ℕ)
        → Inv c s
        → get id c.cache ≡ none
        → (D.read_block id s).0 ≡ ok bytes
        → (let out = put D c id bytes false (D.read_block id s).1 in
            (j : ℕ) → IsGood (get j out.1.cache) out.2 j × (view out.1 out.2 j ≡ view c s j))
    unfolding view
    fetched c id s bytes g miss h j =
        let s' = (D.read_block id s).1 in
        let put =
          put_lem c id bytes false s'
            (λ k. (IsGood-other (get k c.cache) s s' k (dev.read_keeps id s k) (g k)).0)
            (dev.read_length id s bytes h)
            (inr (dev.read_ok id s bytes h ∙ sym (dev.read_keeps id s id))) j in
        (
          put.0,
          ground (
            arith,
            put.1,
            miss,
            dev.read_ok id s bytes h,
            dev.read_keeps id s j,
            IsGood-other (get j c.cache) s s' j (dev.read_keeps id s j) (g j),
          ),
        )

    finish_lem :
        (r : Result BlockError (Unit {0})) (bytes b : List ℕ) → finish D r bytes ≡ ok b → b ≡ bytes
    finish_lem (ok _) bytes b k = cc
    finish_lem (err x) bytes b k = cc

    read_step :
        (c : BlockCache) (id len : ℕ) (s : State)
        → Inv c s
        → (let out = read_block_cached D c id len s in
            Inv out.1 out.2
            × ((j : ℕ) → view out.1 out.2 j ≡ view c s j)
            × ((bytes : List ℕ) → out.0 ≡ ok bytes → bytes ≡ view c s id))
    unfolding read_block_cached view touch
    read_step c id len s g = elim (Bool-cases (len == block_size)) [
      | inr e ↦ rw (e, read_block_cached) (g, λ j. refl, λ bytes h. cc)
      | inl e ↦ elim (Option-cases (get id c.cache)) [
        | inr (x, hit) ↦ rw (e, hit, read_block_cached) (g, λ j. refl, λ bytes h. ground arith)
        | inl miss ↦ elim (Result-cases (D.read_block id s).0) [
          | inr (x, h) ↦
              rw (e, miss, h, read_block_cached)
                ((λ j. (kept j).0), (λ j. (kept j).1), λ bytes k. cc)
          | inl (bytes, h) ↦
              rw (e, miss, h, read_block_cached)
                (
                  (λ j. (fetched c id s bytes g miss h j).0),
                  (λ j. (fetched c id s bytes g miss h j).1),
                  λ b k.
                      finish_lem (put D c id bytes false (D.read_block id s).1).0 bytes b k
                      ∙ dev.read_ok id s bytes h,
                )
        ]
      ]
    ]
      where
        kept :
            (j : ℕ)
            → IsGood (get j c.cache) (D.read_block id s).1 j
              × (seen (get j c.cache) (D.read_block id s).1 j ≡ seen (get j c.cache) s j)
        kept j =
            IsGood-other (get j c.cache) s (D.read_block id s).1 j (dev.read_keeps id s j) (g j)

    -- A write of a whole block, also one whose eviction fails, makes the buffer the block that the
    -- user sees under that number, changes no other block, and keeps the invariant.
    pub view-write_block_cached :
        (c : BlockCache) (id : ℕ) (buf : List ℕ) (s : State)
        → Inv c s
        → length buf ≡ block_size
        → (let out = write_block_cached D c id buf s in
            Inv out.1 out.2
            × ((j : ℕ) → view out.1 out.2 j ≡ (if id == j then buf else view c s j)))
    unfolding write_block_cached view touch
    view-write_block_cached c id buf s g l = elim (Option-cases (get id c.cache)) [
      | inl miss ↦
          rw (sized, miss, write_block_cached)
            (
              (λ j. (put_lem c id buf true s g l (inl refl) j).0),
              (λ j. (put_lem c id buf true s g l (inl refl) j).1),
            )
      | inr (x, hit) ↦
          rw (sized, hit, write_block_cached)
            (
              (λ j. (inserted c.cache id (entry x) s j (good x hit) (g j)).0),
              (λ j. (inserted c.cache id (entry x) s j (good x hit) (g j)).1),
            )
    ]
      where
        sized : (length buf == block_size) ≡ true
        sized = ground arith

        entry : CachedBlock → CachedBlock
        entry x = record x { bytes = buf; dirty = true }

        good : (x : CachedBlock) → get id c.cache ≡ some x → IsGood (some (entry x)) s id
        good x hit = ground (arith, g id)

    -- A read, whatever comes of it, keeps the invariant and leaves every block that the user sees
    -- as it was.
    pub view-read_block_cached :
        (c : BlockCache) (id len : ℕ) (s : State)
        → Inv c s
        → (let out = read_block_cached D c id len s in
            Inv out.1 out.2 × ((j : ℕ) → view out.1 out.2 j ≡ view c s j))
    view-read_block_cached c id len s g = let step = read_step c id len s g in (step.0, step.1)

    -- A read that succeeds returns the block that the user sees under that number.
    pub read_block_cached-returns :
        (c : BlockCache) (id len : ℕ) (s : State) (bytes : List ℕ)
        → Inv c s
        → (read_block_cached D c id len s).0 ≡ ok bytes
        → bytes ≡ view c s id
    read_block_cached-returns c id len s bytes g h = (read_step c id len s g).2 bytes h
