-- ===== src/Fs/BlockCache/Capacity.antt =====
-- The bound on the number of cached blocks, and the order list behind it.
use koros.Base.{
  ℕ, ◌≤◌, ◌≡◌, ◌≢◌, refl, inl, inr, ◌==◌, Bool, true, false, ltb, ◌||◌, List, [], ◌∷◌, ◌++◌, Option,
  none, some, length, arith, ℕ_discrete, Bool-cases, Option-cases,
}
use koros.Base.Result.{Result, ok, err, Result-cases}
use koros.Base.OrdMap.{
  get, insert, remove, nat_key, get-insert, get-remove, get_above, IsAbove-weaken, IsOrdered,
  IsOrdered-insert, IsOrdered-remove,
}
use koros.Kor.Block.{BlockDevice, BlockError}
use koros.Fs.BlockCache.{
  CachedBlock, BlockCache, remove_first, touch, write_back, evict_from, evict_if_needed, put,
  finish, read_block_cached, write_block_cached,
}

unfoldable pub listed : ℕ → List ℕ → Bool
listed id [] = false
listed id (x ∷ xs) = x == id || listed id xs

present : Option CachedBlock → Bool
present none = false
present (some e) = true

-- The map is ordered, and each cached block has its place in the order of accesses.
pub record WellFormed (c : BlockCache) : Type 0 where
  pub ordered : IsOrdered c.cache
  pub places :
      (id : ℕ) (e : CachedBlock) → get id c.cache ≡ some e → listed id c.access_order ≡ true

listed-append : (id x : ℕ) (xs : List ℕ) → listed id (xs ++ x ∷ []) ≡ (listed id xs || x == id)
unfolding listed
listed-append id x [] = ground arith
listed-append id x (y ∷ ys) = ground (arith, listed-append id x ys)

listed-remove_first :
    (id x : ℕ) (xs : List ℕ) → id ≢ x → listed id (remove_first x xs) ≡ listed id xs
unfolding listed remove_first
listed-remove_first id x [] n = refl
listed-remove_first id x (y ∷ ys) n = ground (arith, listed-remove_first id x ys n)

listed-touch :
    (id i : ℕ) (xs : List ℕ) → listed i (remove_first id xs ++ id ∷ []) ≡ (listed i xs || id == i)
listed-touch id i xs = elim (ℕ_discrete i id) [
  | yes p ↦ ground (arith, listed-append i id (remove_first id xs))
  | no p ↦ ground (arith, listed-append i id (remove_first id xs), listed-remove_first i id xs p)
]

no_entries :
    (m : List (ℕ × CachedBlock)) → ((id : ℕ) (e : CachedBlock) → get id m ≢ some e) → length m ≡ 0
unfolding get
no_entries [] h = refl
no_entries ((i, e) ∷ m) h = absurd (h i e (ground arith))

length-insert_present :
    (m : List (ℕ × CachedBlock)) (id : ℕ) (e x : CachedBlock)
    → IsOrdered m
    → get id m ≡ some x
    → length (insert id e m) ≡ length m
unfolding get insert
length-insert_present [] id e x o h = cc
length-insert_present ((i, y) ∷ m) id e x o h =
    ground (arith, IsAbove-weaken id i m, get_above id m, length-insert_present m id e x o.1)

dropped-WellFormed :
    (c : BlockCache) (victim : ℕ) (order : List ℕ)
    → WellFormed (record c { access_order = victim ∷ order })
    → WellFormed (record c { cache = remove victim c.cache; access_order = order })
unfolding listed
dropped-WellFormed c victim order w = record {
  ordered = IsOrdered-remove victim c.cache w.ordered;
  places = λ i e h. ground (arith, get-remove victim i c.cache, w.places i e);
}

touched-WellFormed :
    (c : BlockCache) (id : ℕ) (e : CachedBlock)
    → WellFormed c
    → WellFormed (record (touch c id) { cache = insert id e c.cache }) × WellFormed (touch c id)
unfolding touch
touched-WellFormed c id e w = (
  record {
    ordered = IsOrdered-insert id e c.cache w.ordered;
    places = λ i x h.
        ground (arith, get-insert id i e c.cache, w.places i x, listed-touch id i c.access_order);
  },
  record {
    ordered = w.ordered;
    places = λ i x h. ground (arith, w.places i x h, listed-touch id i c.access_order);
  },
)

module _ (D : BlockDevice) where
  open D use {State, block_size}

  evict_from_lem :
      (c : BlockCache) (order : List ℕ) (s : State)
      → WellFormed (record c { access_order = order })
      → (let out = evict_from D c order s in
          WellFormed out.1
          × (out.1.max_blocks ≡ c.max_blocks)
          × (out.0 ≡ ok tt → length out.1.cache ≤ c.max_blocks))
  unfolding evict_from listed
  evict_from_lem c [] s w =
      (w, refl, λ h. omega (arith, no_entries c.cache (λ i e k. cc (w.places i e k))))
  evict_from_lem c (victim ∷ order) s w = elim (Bool-cases (ltb c.max_blocks (length c.cache))) [
    | inr e ↦ rw (e, evict_from) (w, refl, λ h. ground arith)
    | inl e ↦ elim (Result-cases (write_back D (get victim c.cache) s).0) [
      | inr (x, h) ↦ rw (e, h, evict_from) (w, refl, λ h. cc)
      | inl (u, h) ↦
          rw (e, h, evict_from)
            (evict_from_lem (record c { cache = remove victim c.cache }) order _
              (dropped-WellFormed c victim order w))
    ]
  ]

  -- The invariant of `put`, and the bound when its eviction succeeds.
  put_lem :
      (c : BlockCache) (id : ℕ) (bytes : List ℕ) (dirty : Bool) (s : State)
      → WellFormed c
      → (let out = put D c id bytes dirty s in
          WellFormed out.1
          × (out.1.max_blocks ≡ c.max_blocks)
          × (out.0 ≡ ok tt → length out.1.cache ≤ c.max_blocks))
  unfolding put evict_if_needed
  put_lem c id bytes dirty s w =
      evict_from_lem
        (record c {
          cache = insert id (record { block_id = id; bytes = bytes; dirty = dirty }) c.cache;
          access_order = c.access_order ++ id ∷ [];
        })
        (c.access_order ++ id ∷ []) s
        (record {
          ordered = IsOrdered-insert id _ c.cache w.ordered;
          places = λ i x h. ground (
            arith,
            get-insert id i (record { block_id = id; bytes = bytes; dirty = dirty }) c.cache,
            w.places i x,
            listed-append i id c.access_order,
          );
        })

  write_step :
      (c : BlockCache) (id : ℕ) (buf : List ℕ) (s : State)
      → WellFormed c
      → length c.cache ≤ c.max_blocks
      → (let out = write_block_cached D c id buf s in
          WellFormed out.1
          × (out.1.max_blocks ≡ c.max_blocks)
          × (out.0 ≡ ok tt → length out.1.cache ≤ c.max_blocks))
  unfolding write_block_cached touch
  write_step c id buf s w l = elim (Bool-cases (length buf == block_size)) [
    | inr e ↦ rw (e, write_block_cached) (w, refl, λ h. cc)
    | inl e ↦ elim (Option-cases (get id c.cache)) [
      | inl miss ↦ rw (e, miss, write_block_cached) (put_lem c id buf true s w)
      | inr (x, hit) ↦
          rw (e, hit, write_block_cached)
            (
              (touched-WellFormed c id (record x { bytes = buf; dirty = true }) w).0,
              refl,
              λ h. omega (
                arith,
                length-insert_present c.cache id (record x { bytes = buf; dirty = true }) x
                    w.ordered hit,
              ),
            )
    ]
  ]

  finish_ok :
      (r : Result BlockError (Unit {0})) (bytes b : List ℕ) → finish D r bytes ≡ ok b → r ≡ ok tt
  finish_ok (ok _) bytes b k = refl
  finish_ok (err x) bytes b k = cc

  read_step :
      (c : BlockCache) (id len : ℕ) (s : State)
      → WellFormed c
      → length c.cache ≤ c.max_blocks
      → (let out = read_block_cached D c id len s in
          WellFormed out.1
          × (out.1.max_blocks ≡ c.max_blocks)
          × ((bytes : List ℕ) → out.0 ≡ ok bytes → length out.1.cache ≤ c.max_blocks))
  unfolding read_block_cached touch
  read_step c id len s w l = elim (Bool-cases (len == block_size)) [
    | inr e ↦ rw (e, read_block_cached) (w, refl, λ b h. cc)
    | inl e ↦ elim (Option-cases (get id c.cache)) [
      | inr (x, hit) ↦
          rw (e, hit, read_block_cached) ((touched-WellFormed c id x w).1, refl, λ b h. l)
      | inl miss ↦ elim (Result-cases (D.read_block id s).0) [
        | inr (x, h) ↦ rw (e, miss, h, read_block_cached) (w, refl, λ b k. cc)
        | inl (bytes, h) ↦
            let fetched = put_lem c id bytes false (D.read_block id s).1 w in
            rw (e, miss, h, read_block_cached)
              (fetched.0, fetched.1, λ b k. fetched.2 (finish_ok _ bytes b k))
      ]
    ]
  ]

  -- A write, also one that fails, keeps the map ordered and every cached block listed in the order
  -- of accesses, and so does a read.
  pub WellFormed-access :
      (c : BlockCache) (id len : ℕ) (buf : List ℕ) (s : State)
      → WellFormed c
      → length c.cache ≤ c.max_blocks
      → WellFormed (write_block_cached D c id buf s).1
        × WellFormed (read_block_cached D c id len s).1
  WellFormed-access c id len buf s w l =
      ((write_step c id buf s w l).0, (read_step c id len s w l).0)

  -- From a cache within its capacity, a write that succeeds leads to one within the same capacity.
  pub write_block_cached-bounded :
      (c : BlockCache) (id : ℕ) (buf : List ℕ) (s : State)
      → WellFormed c
      → length c.cache ≤ c.max_blocks
      → (write_block_cached D c id buf s).0 ≡ ok tt
      → ((write_block_cached D c id buf s).1.max_blocks ≡ c.max_blocks)
        × (length (write_block_cached D c id buf s).1.cache ≤ c.max_blocks)
  write_block_cached-bounded c id buf s w l h =
      let step = write_step c id buf s w l in (step.1, step.2 h)

  -- From a cache within its capacity, a read that succeeds leads to one within the same capacity.
  pub read_block_cached-bounded :
      (c : BlockCache) (id len : ℕ) (s : State) (bytes : List ℕ)
      → WellFormed c
      → length c.cache ≤ c.max_blocks
      → (read_block_cached D c id len s).0 ≡ ok bytes
      → ((read_block_cached D c id len s).1.max_blocks ≡ c.max_blocks)
        × (length (read_block_cached D c id len s).1.cache ≤ c.max_blocks)
  read_block_cached-bounded c id len s bytes w l h =
      let step = read_step c id len s w l in (step.1, step.2 bytes h)
