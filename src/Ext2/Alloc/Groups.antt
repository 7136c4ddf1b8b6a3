-- ===== src/Ext2/Alloc/Groups.antt =====
-- What the search for a clear bit of a bitmap block, and the return of a bit, do to the blocks.
use koros.Base.{
  ℕ, ◌*◌, ◌/◌, ◌%◌, ◌<◌, ◌≡◌, ◌≢◌, ◌⊎◌, refl, sym, ◌∙◌, ap, min, true, false, List, Option, none,
  some, length, get_or, set, length-set, inl, inr, arith, Bool-cases, Option-cases, subst,
}
use koros.Base.Bits.{or_bit, clear_bit}
use koros.Base.Result.{Result, ok, err, Result-cases, ok_eq, absurd_ok}
use koros.Kor.Vfs.{FsError, invalid_input}
use koros.Ext2.Bitmap.{from_bytes, out_of_range, set_bit, clear, find_first_clear}
use koros.Ext2.Bitmap.Bits.{bit_at}
use koros.Ext2.Bitmap.Search.{Least, find_first_clear_lem}
use koros.Ext2.Blocks.{FsBlocks, IsFsBlocks}
use koros.Ext2.Alloc.{claim_bit, release_bit}

-- The bytes with one bit set, or cleared.
abbrev pub with_bit : List ℕ → ℕ → List ℕ
with_bit bytes i = set bytes (i / 8) (or_bit (get_or bytes (i / 8) 0) (i % 8))

abbrev pub without_bit : List ℕ → ℕ → List ℕ
without_bit bytes i = set bytes (i / 8) (clear_bit (get_or bytes (i / 8) 0) (i % 8))

inside :
    (buf : List ℕ) (size i : ℕ)
    → i < size
    → i < length buf * 8
    → out_of_range (from_bytes buf size) i ≡ false
unfolding out_of_range from_bytes
inside buf size i h k = ground arith

pub set_bit_ok :
    (buf : List ℕ) (size i : ℕ)
    → i < size
    → i < length buf * 8
    → set_bit (from_bytes buf size) i ≡ ok (from_bytes (with_bit buf i) size)
unfolding set_bit from_bytes
set_bit_ok buf size i h k = rw (inside buf size i h k, set_bit) refl

low : (buf : List ℕ) (size i : ℕ) → out_of_range (from_bytes buf size) i ≡ false → i < size
unfolding out_of_range from_bytes
low buf size i e = ground arith

fits :
    (buf : List ℕ) (size i : ℕ) → out_of_range (from_bytes buf size) i ≡ false → i < length buf * 8
unfolding out_of_range from_bytes
fits buf size i e = ground arith

-- The release of a bit: either refused, or the bytes without it.
clear-cases :
    (buf : List ℕ) (size i : ℕ)
    → ((clear (from_bytes buf size) i ≡ ok (from_bytes (without_bit buf i) size))
        × (i < size)
        × (i < length buf * 8))
      ⊎ (clear (from_bytes buf size) i ≡ err invalid_input)
unfolding clear from_bytes
clear-cases buf size i = elim (Bool-cases (out_of_range (from_bytes buf size) i)) [
  | inl e ↦ inr (rw (e, clear) refl)
  | inr e ↦ inl (rw (e, clear) (refl, low buf size i e, fits buf size i e))
]

module _ (B : FsBlocks) (Good : B.State → Type 0) (contents : B.State → ℕ → List ℕ)
    (laws : IsFsBlocks B Good contents) where
  -- What a claim of a bit found and left in the bitmap block.
  abbrev pub Claimed : ℕ → ℕ → B.State → B.State → Option ℕ → Type 0
  Claimed bb size s s' none =
      (contents s' bb ≡ contents s bb)
      × ((j : ℕ) → j < size → j < length (contents s bb) * 8 → bit_at (contents s bb) j ≡ true)
  Claimed bb size s s' (some i) =
      (i < size)
      × (i < length (contents s bb) * 8)
      × (bit_at (contents s bb) i ≡ false)
      × (contents s' bb ≡ with_bit (contents s bb) i)

  abbrev Claim : ℕ → ℕ → B.State → Result FsError (Option ℕ) × B.State → Type 0
  Claim bb size s out =
      Good out.1
      × ((j : ℕ) → bb ≢ j → contents out.1 j ≡ contents s j)
      × ((r : Option ℕ) → out.0 ≡ ok r → Claimed bb size s out.1 r)

  pub claim_none :
      (bb size : ℕ) (s : B.State) (buf : List ℕ)
      → (B.read_fs_block bb s).0 ≡ ok buf
      → find_first_clear (from_bytes buf size) ≡ none
      → claim_bit B bb size s ≡ (ok none, (B.read_fs_block bb s).1)
  unfolding claim_bit
  claim_none bb size s buf h k = rw (h, k, claim_bit) refl

  pub claim_some :
      (bb size : ℕ) (s : B.State) (buf : List ℕ) (i : ℕ)
      → (B.read_fs_block bb s).0 ≡ ok buf
      → find_first_clear (from_bytes buf size) ≡ some i
      → set_bit (from_bytes buf size) i ≡ ok (from_bytes (with_bit buf i) size)
      → (let w = B.write_fs_block bb (with_bit buf i) (B.read_fs_block bb s).1 in
          claim_bit B bb size s ≡ elim w.0 [ err x ↦ (err x, w.1) | ok _ ↦ (ok (some i), w.1) ])
  unfolding claim_bit from_bytes
  claim_some bb size s buf i h k l = rw (h, k, l, claim_bit) refl

  claim_err :
      (bb size : ℕ) (s : B.State) (x : FsError)
      → (B.read_fs_block bb s).0 ≡ err x
      → claim_bit B bb size s ≡ (err x, (B.read_fs_block bb s).1)
  unfolding claim_bit
  claim_err bb size s x h = rw (h, claim_bit) refl

  written_bit :
      (bb size i : ℕ) (s : B.State) (buf : List ℕ)
      → Good s
      → (B.read_fs_block bb s).0 ≡ ok buf
      → Least (bit_at buf) 0 (min size (length buf * 8)) (some i)
      → (let w = B.write_fs_block bb (with_bit buf i) (B.read_fs_block bb s).1 in
          Claim bb size s (elim w.0 [ err x ↦ (err x, w.1) | ok _ ↦ (ok (some i), w.1) ]))
  written_bit bb size i s buf g h (lo, hi, free, least) =
      let s' = (B.read_fs_block bb s).1 in
      let w = B.write_fs_block bb (with_bit buf i) s' in
      let good = laws.read_good bb s g in
      let (same, len) = laws.read_ok bb s buf g h in
      let sized : length (with_bit buf i) ≡ B.block_size =
        length-set buf (i / 8) (or_bit (get_or buf (i / 8) 0) (i % 8)) ∙ len in
      let keeps : (j : ℕ) → bb ≢ j → contents w.1 j ≡ contents s j =
        λ j n. laws.write_keeps bb (with_bit buf i) s' j good sized n ∙ laws.read_keeps bb s j g in
      elim (Result-cases w.0) [
        | inr (x, k) ↦
            rw k (
              laws.write_good bb (with_bit buf i) s' good sized,
              keeps,
              λ r e. absurd (absurd_ok e),
            )
        | inl (u, k) ↦ rw k (
          laws.write_good bb (with_bit buf i) s' good sized,
          keeps,
          λ r e. subst (Claimed bb size s w.1) (ok_eq e) (
            omega arith,
            subst (λ d. i < length d * 8) same (omega arith),
            ap (λ d. bit_at d i) (sym same) ∙ free,
            laws.write_ok bb (with_bit buf i) s' good sized k ∙ ap (λ d. with_bit d i) same,
          ),
        )
      ]

  -- A claim keeps the invariant and every other block. If it succeeds, either every bit of the bitmap
  -- is set, or a clear one is set now.
  pub claim_bit_lem : (bb size : ℕ) (s : B.State) → Good s → Claim bb size s (claim_bit B bb size s)
  unfolding from_bytes
  claim_bit_lem bb size s g = elim (Result-cases (B.read_fs_block bb s).0) [
    | inr (x, h) ↦
        subst (Claim bb size s) (sym (claim_err bb size s x h))
          (laws.read_good bb s g, λ j n. laws.read_keeps bb s j g, λ r e. absurd (absurd_ok e))
    | inl (buf, h) ↦ elim (Option-cases (find_first_clear (from_bytes buf size))) [
      | inl k ↦
          let (same, len) = laws.read_ok bb s buf g h in
          subst (Claim bb size s) (sym (claim_none bb size s buf h k)) (
            laws.read_good bb s g,
            λ j n. laws.read_keeps bb s j g,
            λ r e. subst (Claimed bb size s (B.read_fs_block bb s).1) (ok_eq e) (
              laws.read_keeps bb s bb g,
              subst (λ d. (j : ℕ) → j < size → j < length d * 8 → bit_at d j ≡ true) same
                  (λ j p q. all_set buf size k j p q),
            ),
          )
      | inr (i, k) ↦
          let found = found buf size i k in
          subst (Claim bb size s)
            (sym (
              claim_some bb size s buf i h k
                (set_bit_ok buf size i (omega (arith, found.1)) (omega (arith, found.1)))))
            (written_bit bb size i s buf g h found)
    ]
  ]
    where
      found :
          (buf : List ℕ) (size i : ℕ)
          → find_first_clear (from_bytes buf size) ≡ some i
          → Least (bit_at buf) 0 (min size (length buf * 8)) (some i)
      found buf size i k =
          subst (Least (bit_at buf) 0 (min size (length buf * 8))) k
            (find_first_clear_lem (from_bytes buf size))

      all_set :
          (buf : List ℕ) (size : ℕ)
          → find_first_clear (from_bytes buf size) ≡ none
          → (j : ℕ) → j < size
          → j < length buf * 8
          → bit_at buf j ≡ true
      all_set buf size k j p q =
          (subst (Least (bit_at buf) 0 (min size (length buf * 8))) k
              (find_first_clear_lem (from_bytes buf size)))
            j (omega arith) (omega arith)

  abbrev Release : ℕ → ℕ → ℕ → B.State → Result FsError (Unit {0}) × B.State → Type 0
  Release bb size i s out =
      Good out.1
      × ((j : ℕ) → bb ≢ j → contents out.1 j ≡ contents s j)
      × (out.0 ≡ ok tt
          → (i < size)
            × (i < length (contents s bb) * 8)
            × (contents out.1 bb ≡ without_bit (contents s bb) i))

  release_err :
      (bb size i : ℕ) (s : B.State) (x : FsError)
      → (B.read_fs_block bb s).0 ≡ err x
      → release_bit B bb size i s ≡ (err x, (B.read_fs_block bb s).1)
  unfolding release_bit
  release_err bb size i s x h = rw (h, release_bit) refl

  release_refused :
      (bb size i : ℕ) (s : B.State) (buf : List ℕ)
      → (B.read_fs_block bb s).0 ≡ ok buf
      → clear (from_bytes buf size) i ≡ err invalid_input
      → release_bit B bb size i s ≡ (err invalid_input, (B.read_fs_block bb s).1)
  unfolding release_bit
  release_refused bb size i s buf h k = rw (h, k, release_bit) refl

  release_done :
      (bb size i : ℕ) (s : B.State) (buf : List ℕ)
      → (B.read_fs_block bb s).0 ≡ ok buf
      → clear (from_bytes buf size) i ≡ ok (from_bytes (without_bit buf i) size)
      → release_bit B bb size i s ≡ B.write_fs_block bb (without_bit buf i) (B.read_fs_block bb s).1
  unfolding release_bit from_bytes
  release_done bb size i s buf h k = rw (h, k, release_bit) refl

  -- A release keeps the invariant and every other block; if it succeeds, the bit is clear.
  pub release_bit_lem :
      (bb size i : ℕ) (s : B.State) → Good s → Release bb size i s (release_bit B bb size i s)
  release_bit_lem bb size i s g =
      let s' = (B.read_fs_block bb s).1 in
      let good = laws.read_good bb s g in
      elim (Result-cases (B.read_fs_block bb s).0) [
        | inr (x, h) ↦
            subst (Release bb size i s) (sym (release_err bb size i s x h))
              (good, λ j n. laws.read_keeps bb s j g, λ e. absurd (absurd_ok e))
        | inl (buf, h) ↦ elim (clear-cases buf size i) [
          | inr k ↦
              subst (Release bb size i s) (sym (release_refused bb size i s buf h k))
                (good, λ j n. laws.read_keeps bb s j g, λ e. absurd (absurd_ok e))
          | inl (k, low, fits) ↦
              let (same, len) = laws.read_ok bb s buf g h in
              let sized : length (without_bit buf i) ≡ B.block_size =
                length-set buf (i / 8) (clear_bit (get_or buf (i / 8) 0) (i % 8)) ∙ len in
              subst (Release bb size i s) (sym (release_done bb size i s buf h k)) (
                laws.write_good bb (without_bit buf i) s' good sized,
                λ j n.
                    laws.write_keeps bb (without_bit buf i) s' j good sized n
                    ∙ laws.read_keeps bb s j g,
                λ e. (
                  low,
                  subst (λ d. i < length d * 8) same fits,
                  laws.write_ok bb (without_bit buf i) s' good sized e
                      ∙ ap (λ d. without_bit d i) same,
                ),
              )
        ]
      ]
