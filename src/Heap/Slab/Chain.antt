-- ===== src/Heap/Slab/Chain.antt =====
-- The free lists as lists: what their operations do to the list of free blocks.
use koros.Base.{
  ℕ, zero, suc, ◌+◌, ◌*◌, ◌/◌, ◌≤◌, ◌<◌, ◌==◌, ◌≡◌, ◌≢◌, refl, sym, subst, arith, ◌⊎◌, inl, inr,
  true, false, if◌then◌else◌, List, [], ◌∷◌, none, some, length,
}
use koros.Heap.Slab.{
  Memory, push, pop, push_blocks, free_list_new, Slab, slab_new, move_blocks, slab_grow,
  slab_allocate, slab_deallocate,
}

-- From `head` on, the pointers of the memory run through these blocks to the null pointer.
abbrev pub Chain : Memory → ℕ → List ℕ → Type 0
Chain mem head [] = head ≡ 0
Chain mem head (x ∷ xs) = (head ≡ x) × (x ≢ 0) × Chain mem (mem x) xs

abbrev pub Misses : ℕ → List ℕ → Type 0
Misses addr [] = Unit {0}
Misses addr (x ∷ xs) = (addr ≢ x) × Misses addr xs

abbrev pub IsDistinct : List ℕ → Type 0
IsDistinct [] = Unit {0}
IsDistinct (x ∷ xs) = Misses x xs × IsDistinct xs

-- A write elsewhere leaves a list alone.
pub Chain-write :
    (mem : Memory) (head addr value : ℕ) (xs : List ℕ)
    → Misses addr xs
    → Chain mem head xs
    → Chain (λ i. if i == addr then value else mem i) head xs
Chain-write mem head addr value [] m c = c
Chain-write mem head addr value (x ∷ xs) m c =
    let other : (x == addr) ≡ false = ground (arith, m.0) in
    (
      c.0,
      c.1,
      subst (λ b. Chain (λ i. if i == addr then value else mem i) (if b then value else mem x) xs)
          (sym other) (Chain-write mem (mem x) addr value xs m.1 c.2),
    )

pub Chain-push :
    (mem : Memory) (head addr : ℕ) (xs : List ℕ)
    → addr ≢ 0
    → Misses addr xs
    → Chain mem head xs
    → Chain (push mem head addr).0 (push mem head addr).1 (addr ∷ xs)
unfolding push
Chain-push mem head addr xs h m c =
    let same : (addr == addr) ≡ true = ground arith in
    (
      refl,
      h,
      subst (λ b. Chain (λ i. if i == addr then head else mem i) (if b then head else mem addr) xs)
          (sym same) (Chain-write mem head addr head xs m c),
    )

-- `pop` takes the first block, or finds the list empty.
pub Chain-pop :
    (mem : Memory) (head x : ℕ) (xs : List ℕ)
    → Chain mem head (x ∷ xs)
    → (pop mem head ≡ some (mem x, x)) × Chain mem (mem x) xs
unfolding pop
Chain-pop mem head x xs c = (ground (arith, c.0, c.1), c.2)

pub Chain-pop_nil : (mem : Memory) (head : ℕ) → Chain mem head [] → pop mem head ≡ none
unfolding pop
Chain-pop_nil mem head c = ground arith

-- The blocks below block `count` of a slab, from the last to the first, put in front of a list.
abbrev pub blocks : ℕ → ℕ → ℕ → List ℕ → List ℕ
blocks start block_size zero xs = xs
blocks start block_size (suc i) xs = blocks start block_size i ((start + i * block_size) ∷ xs)

-- No block that starts below the bound is in the list.
abbrev pub IsFrom : ℕ → List ℕ → Type 0
IsFrom bound [] = Unit {0}
IsFrom bound (x ∷ xs) = (bound ≤ x) × IsFrom bound xs

IsFrom-Misses : (bound addr : ℕ) (xs : List ℕ) → addr < bound → IsFrom bound xs → Misses addr xs
IsFrom-Misses bound addr [] h f = tt
IsFrom-Misses bound addr (x ∷ xs) h f = ((λ e. omega arith), IsFrom-Misses bound addr xs h f.1)

IsFrom-weaken : (a b : ℕ) (xs : List ℕ) → a ≤ b → IsFrom b xs → IsFrom a xs
IsFrom-weaken a b [] h f = tt
IsFrom-weaken a b (x ∷ xs) h f = (omega arith, IsFrom-weaken a b xs h f.1)

Chain-push_blocks :
    (mem : Memory) (head start block_size count : ℕ) (xs : List ℕ)
    → 0 < start
    → 0 < block_size
    → IsFrom (start + count * block_size) xs
    → IsDistinct xs
    → Chain mem head xs
    → Chain
        (push_blocks mem head start block_size count).0
        (push_blocks mem head start block_size count).1
        (blocks start block_size count xs)
      × IsDistinct (blocks start block_size count xs)
unfolding push_blocks
Chain-push_blocks mem head start block_size zero xs p q f d c = (c, d)
Chain-push_blocks mem head start block_size (suc i) xs p q f d c =
    let addr = start + i * block_size in
    let below : addr < start + suc i * block_size = grind arith in
    let misses = IsFrom-Misses (start + suc i * block_size) addr xs below f in
    Chain-push_blocks (push mem head addr).0 (push mem head addr).1 start block_size i (addr ∷ xs) p
      q (omega arith, IsFrom-weaken addr (start + suc i * block_size) xs (omega (arith, below)) f)
      (misses, d) (Chain-push mem head addr xs (λ e. omega arith) misses c)

-- A new slab's free list holds each block of its memory once, in the order of their addresses.
pub slab_new-blocks :
    (mem : Memory) (start bytes block_size : ℕ)
    → 0 < start
    → 0 < block_size
    → Chain
        (slab_new mem start bytes block_size).0
        (slab_new mem start bytes block_size).1.head
        (blocks start block_size (bytes / block_size) [])
      × IsDistinct (blocks start block_size (bytes / block_size) [])
unfolding slab_new free_list_new
slab_new-blocks mem start bytes block_size p q =
    Chain-push_blocks mem 0 start block_size (bytes / block_size) [] p q tt tt refl

-- What `slab_allocate` gives: the first free block, which leaves the list, or nothing if there is none.
pub slab_allocate_lem :
    (mem : Memory) (slab : Slab) (xs : List ℕ)
    → Chain mem slab.head xs
    → ((xs ≡ []) × (slab_allocate mem slab ≡ none))
      ⊎ ((x : ℕ) × (rest : List ℕ) × (s : Slab) × (xs ≡ x ∷ rest)
          × (slab_allocate mem slab ≡ some (s, x))
          × (s.block_size ≡ slab.block_size)
          × Chain mem s.head rest)
unfolding slab_allocate
slab_allocate_lem mem slab [] c = inl (refl, rw (Chain-pop_nil mem slab.head c, slab_allocate) refl)
slab_allocate_lem mem slab (x ∷ rest) c =
    let popped = Chain-pop mem slab.head x rest c in
    inr (
      x,
      rest,
      record slab { head = mem x },
      refl,
      rw (popped.0, slab_allocate) refl,
      refl,
      popped.1,
    )

-- A block that is not in the free list and is not null can be given back, and is then the next one that
-- `slab_allocate` hands out, which leaves the free list as it was.
pub slab_allocate-slab_deallocate :
    (mem : Memory) (slab : Slab) (addr : ℕ) (xs : List ℕ)
    → Chain mem slab.head xs
    → addr ≢ 0
    → Misses addr xs
    → Chain (slab_deallocate mem slab addr).0 (slab_deallocate mem slab addr).1.head (addr ∷ xs)
      × (slab_allocate (slab_deallocate mem slab addr).0 (slab_deallocate mem slab addr).1
          ≡ some (slab, addr))
unfolding slab_deallocate slab_allocate push pop
slab_allocate-slab_deallocate mem slab addr xs c h m =
    (Chain-push mem slab.head addr xs h m c, ground (arith, h))

-- The free list of `xs` after the blocks `ys` have moved to it one by one.
abbrev pub rev_onto : List ℕ → List ℕ → List ℕ
rev_onto [] xs = xs
rev_onto (y ∷ ys) xs = rev_onto ys (y ∷ xs)

-- The two lists have no block in common.
abbrev pub AreApart : List ℕ → List ℕ → Type 0
AreApart [] xs = Unit {0}
AreApart (y ∷ ys) xs = Misses y xs × AreApart ys xs

AreApart-cons : (ys xs : List ℕ) (x : ℕ) → AreApart ys xs → Misses x ys → AreApart ys (x ∷ xs)
AreApart-cons [] xs x a m = tt
AreApart-cons (y ∷ ys) xs x a m = (((λ e. m.0 (sym e)), a.0), AreApart-cons ys xs x a.1 m.1)

move_blocks_lem :
    (fuel : ℕ) (mem : Memory) (incoming head : ℕ) (ys xs : List ℕ)
    → length ys ≤ fuel
    → IsDistinct ys
    → AreApart ys xs
    → Chain mem incoming ys
    → Chain mem head xs
    → Chain
        (move_blocks fuel mem incoming head).0
        (move_blocks fuel mem incoming head).1
        (rev_onto ys xs)
unfolding move_blocks push
move_blocks_lem zero mem incoming head [] xs l d a i c = c
move_blocks_lem zero mem incoming head (y ∷ ys) xs l d a i c = absurd (omega arith)
move_blocks_lem (suc fuel) mem incoming head [] xs l d a i c =
    rw (Chain-pop_nil mem incoming i, move_blocks) c
move_blocks_lem (suc fuel) mem incoming head (y ∷ ys) xs l d a i c =
    let popped = Chain-pop mem incoming y ys i in
    rw (popped.0, move_blocks)
      (move_blocks_lem fuel (push mem head y).0 (mem y) y ys (y ∷ xs) (omega arith) d.1
        (AreApart-cons ys xs y a.1 d.0) (Chain-write mem (mem y) y head ys d.0 popped.1)
        (Chain-push mem head y xs i.1 a.0 c))

-- The writes of a new free list leave a list alone that has none of its blocks.
Chain-push_blocks_other :
    (mem : Memory) (head start block_size count other : ℕ) (ys : List ℕ)
    → ((i : ℕ) → i < count → Misses (start + i * block_size) ys)
    → Chain mem other ys
    → Chain (push_blocks mem head start block_size count).0 other ys
unfolding push_blocks push
Chain-push_blocks_other mem head start block_size zero other ys m c = c
Chain-push_blocks_other mem head start block_size (suc i) other ys m c =
    Chain-push_blocks_other (push mem head (start + i * block_size)).0 (start + i * block_size)
      start block_size i other ys (λ j l. m j (omega arith))
      (Chain-write mem other (start + i * block_size) head ys (m i (omega arith)) c)

AreApart-blocks :
    (start block_size count : ℕ) (xs ys : List ℕ)
    → ((i : ℕ) → i < count → Misses (start + i * block_size) ys)
    → AreApart xs ys
    → AreApart (blocks start block_size count xs) ys
AreApart-blocks start block_size zero xs ys m a = a
AreApart-blocks start block_size (suc i) xs ys m a =
    AreApart-blocks start block_size i ((start + i * block_size) ∷ xs) ys (λ j l. m j (omega arith))
      (m i (omega arith), a)

length-blocks :
    (start block_size count : ℕ) (xs : List ℕ)
    → length (blocks start block_size count xs) ≡ count + length xs
length-blocks start block_size zero xs = omega arith
length-blocks start block_size (suc i) xs =
    omega (arith, length-blocks start block_size i ((start + i * block_size) ∷ xs))

-- `slab_grow` moves every block of the new memory to the free list: afterwards the list is the blocks
-- of the memory, the last one first, and then the blocks that were there, if none of these lies in the
-- new memory.
pub slab_grow-blocks :
    (mem : Memory) (slab : Slab) (start bytes : ℕ) (xs : List ℕ)
    → 0 < start
    → 0 < slab.block_size
    → ((i : ℕ) → i < bytes / slab.block_size → Misses (start + i * slab.block_size) xs)
    → Chain mem slab.head xs
    → Chain
        (slab_grow mem slab start bytes).0
        (slab_grow mem slab start bytes).1.head
        (rev_onto (blocks start slab.block_size (bytes / slab.block_size) []) xs)
unfolding slab_grow free_list_new
slab_grow-blocks mem slab start bytes xs p q m c =
    let count = bytes / slab.block_size in
    let fresh = Chain-push_blocks mem 0 start slab.block_size count [] p q tt tt refl in
    move_blocks_lem count (push_blocks mem 0 start slab.block_size count).0
      (push_blocks mem 0 start slab.block_size count).1 slab.head
      (blocks start slab.block_size count []) xs
      (omega (arith, length-blocks start slab.block_size count [])) fresh.1
      (AreApart-blocks start slab.block_size count [] xs m tt) fresh.0
      (Chain-push_blocks_other mem 0 start slab.block_size count slab.head xs m c)
