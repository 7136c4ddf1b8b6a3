-- ===== src/Ext2/Bitmap/Search.antt =====
-- `find_first_clear` finds the least clear bit.
use koros.Base.{
  ℕ, zero, suc, ◌+◌, ◌-◌, ◌*◌, ◌/◌, ◌%◌, ◌<◌, ◌≤◌, min, ◌==◌, ◌≡◌, ◌≢◌, refl, ◌∙◌, ap, inl, inr,
  Bool, true, false, leb, List, [], ◌∷◌, Option, none, some, length, arith, ℕ_discrete, Bool-cases,
  subst, dec_lt,
}
use koros.Base.Bits.{test_bit}
use koros.Ext2.Bitmap.{Bitmap, scan_byte, resume, scan_bytes, find_first_clear}
use koros.Ext2.Bitmap.Bits.{bit_at}

-- What a search of the bits from `low` up to `high` promises: the least clear one, or that there is
-- none.
abbrev pub Least : (ℕ → Bool) → ℕ → ℕ → Option ℕ → Type 0
Least f low high none = (j : ℕ) → low ≤ j → j < high → f j ≡ true
Least f low high (some k) =
    (low ≤ k) × (k < high) × (f k ≡ false) × ((j : ℕ) → low ≤ j → j < k → f j ≡ true)

-- Of a search that may return from inside its loop.
abbrev Scanned : (ℕ → Bool) → ℕ → ℕ → ℕ → Option (Option ℕ) → Type 0
Scanned f low high size none = (j : ℕ) → low ≤ j → j < high → f j ≡ true
Scanned f low high size (some none) = (size < high) × ((j : ℕ) → low ≤ j → j < size → f j ≡ true)
Scanned f low high size (some (some k)) = (k < high) × (k < size) × Least f low high (some k)

scan_byte_lem :
    (f : ℕ → Bool) (byte base size bit count : ℕ)
    → ((j : ℕ) → j < bit + count → f (base + j) ≡ test_bit byte j)
    → ((j : ℕ) → base ≤ j → j < base + bit → f j ≡ true)
    → Scanned f base (base + (bit + count)) size (scan_byte byte base size bit count)
unfolding scan_byte
scan_byte_lem f byte base size bit zero agree ones = λ j lo hi. ones j lo (omega arith)
scan_byte_lem f byte base size bit (suc count) agree ones =
    elim (Bool-cases (leb size (base + bit))) [
      | inl e ↦
          rw (e, scan_byte)
            (let size_low : size ≤ base + bit = ground arith in
              (omega arith, λ j lo hi. ones j lo (omega arith)))
      | inr e ↦ elim (Bool-cases (test_bit byte bit)) [
        | inl t ↦
            rw (e, t, scan_byte)
              (subst (λ n. Scanned f base n size (scan_byte byte base size (suc bit) count))
                (omega arith)
                (scan_byte_lem f byte base size (suc bit) count (λ j k. agree j (omega arith))
                  (more t)))
        | inr t ↦
            rw (e, t, scan_byte)
              (
                omega arith,
                ground arith,
                (omega arith, omega arith, agree bit (omega arith) ∙ t, ones),
              )
      ]
    ]
  where
    more : test_bit byte bit ≡ true → (j : ℕ) → base ≤ j → j < base + suc bit → f j ≡ true
    more t j lo hi = elim (ℕ_discrete j (base + bit)) [
      | yes p ↦ ap f p ∙ agree bit (omega arith) ∙ t
      | no p ↦ ones j lo (omega arith)
    ]

-- Eight ones.
full_byte : (j : ℕ) → j < 8 → test_bit 255 j ≡ true
unfolding test_bit
full_byte zero h = refl
full_byte (suc zero) h = refl
full_byte (suc (suc zero)) h = refl
full_byte (suc (suc (suc zero))) h = refl
full_byte (suc (suc (suc (suc zero)))) h = refl
full_byte (suc (suc (suc (suc (suc zero))))) h = refl
full_byte (suc (suc (suc (suc (suc (suc zero)))))) h = refl
full_byte (suc (suc (suc (suc (suc (suc (suc zero))))))) h = refl
full_byte (suc (suc (suc (suc (suc (suc (suc (suc j)))))))) h = absurd (omega arith)

bit_at-tail : (x : ℕ) (xs : List ℕ) (j : ℕ) → bit_at (x ∷ xs) (8 + j) ≡ bit_at xs j
unfolding bit_at
bit_at-tail x xs j = rw (quotient j, remainder j) refl
  where
    quotient : (j : ℕ) → (8 + j) / 8 ≡ suc (j / 8)
    quotient j = omega arith

    remainder : (j : ℕ) → (8 + j) % 8 ≡ j % 8
    remainder j = omega arith

bit_at-head : (x : ℕ) (xs : List ℕ) (j : ℕ) → j < 8 → bit_at (x ∷ xs) j ≡ test_bit x j
unfolding bit_at
bit_at-head x xs j h = rw (quotient j h, remainder j h) refl
  where
    quotient : (j : ℕ) → j < 8 → j / 8 ≡ 0
    quotient j h = omega arith

    remainder : (j : ℕ) → j < 8 → j % 8 ≡ j
    remainder j h = omega arith

-- A search that goes on behind bits that are all set.
later :
    (f : ℕ → Bool) (low mid high : ℕ) (r : Option ℕ)
    → low ≤ mid
    → ((j : ℕ) → low ≤ j → j < mid → f j ≡ true)
    → Least f mid high r
    → Least f low high r
later f low mid high none h ones l =
    λ j lo hi. elim (dec_lt j mid) [ yes p ↦ ones j lo p | no p ↦ l j (omega arith) hi ]
later f low mid high (some k) h ones (a, b, c, l) = (
  omega arith,
  b,
  c,
  λ j lo hi. elim (dec_lt j mid) [ yes p ↦ ones j lo p | no p ↦ l j (omega arith) hi ],
)

resume_lem :
    (f : ℕ → Bool) (low mid high size : ℕ) (r : Option (Option ℕ)) (rest : Option ℕ)
    → low ≤ mid
    → mid ≤ high
    → Scanned f low mid size r
    → Least f mid (min size high) rest
    → Least f low (min size high) (resume r rest)
unfolding resume
resume_lem f low mid high size none rest h k s l = later f low mid (min size high) rest h s l
resume_lem f low mid high size (some none) rest h k s l = λ j lo hi. s.1 j lo (omega arith)
resume_lem f low mid high size (some (some n)) rest h k (a, b, (c, d, e, g)) l =
    (c, omega arith, e, g)

scan_bytes_lem :
    (f : ℕ → Bool) (bytes : List ℕ) (byte_idx size : ℕ)
    → ((j : ℕ) → j < 8 * length bytes → f (byte_idx * 8 + j) ≡ bit_at bytes j)
    → Least f
        (byte_idx * 8)
        (min size ((byte_idx + length bytes) * 8))
        (scan_bytes bytes byte_idx size)
unfolding scan_bytes
scan_bytes_lem f [] byte_idx size agree = λ j lo hi. absurd (omega arith)
scan_bytes_lem f (x ∷ xs) byte_idx size agree =
    let rest : Least f (suc byte_idx * 8) (min size ((byte_idx + suc (length xs)) * 8))
        (scan_bytes xs (suc byte_idx) size) =
      subst (λ n. Least f (suc byte_idx * 8) (min size (n * 8)) (scan_bytes xs (suc byte_idx) size))
        (omega arith) (scan_bytes_lem f xs (suc byte_idx) size agree_tail) in
    elim (ℕ_discrete x 255) [
      | yes p ↦
          rw (full p, scan_bytes)
            (later f (byte_idx * 8) (suc byte_idx * 8) (min size ((byte_idx + suc (length xs)) * 8))
              (scan_bytes xs (suc byte_idx) size) (omega arith) (ones p) rest)
      | no p ↦
          rw (not-Full p, scan_bytes)
            (resume_lem f (byte_idx * 8) (suc byte_idx * 8) ((byte_idx + suc (length xs)) * 8) size
              (scan_byte x (byte_idx * 8) size 0 8) (scan_bytes xs (suc byte_idx) size)
              (omega arith) (omega arith) scanned rest)
    ]
  where
    agree_tail : (j : ℕ) → j < 8 * length xs → f (suc byte_idx * 8 + j) ≡ bit_at xs j
    agree_tail j h = ap f (omega arith) ∙ agree (8 + j) (omega arith) ∙ bit_at-tail x xs j

    agree_head : (j : ℕ) → j < 8 → f (byte_idx * 8 + j) ≡ test_bit x j
    agree_head j h = agree j (omega arith) ∙ bit_at-head x xs j h

    ones : x ≡ 255 → (j : ℕ) → byte_idx * 8 ≤ j → j < suc byte_idx * 8 → f j ≡ true
    ones p j lo hi =
        ap f (omega arith)
        ∙ agree_head (j - byte_idx * 8) (omega arith)
        ∙ ap (λ b. test_bit b (j - byte_idx * 8)) p
        ∙ full_byte (j - byte_idx * 8) (omega arith)

    full : x ≡ 255 → (x == 255) ≡ true
    full p = ground arith

    not-Full : x ≢ 255 → (x == 255) ≡ false
    not-Full p = ground arith

    scanned : Scanned f (byte_idx * 8) (suc byte_idx * 8) size (scan_byte x (byte_idx * 8) size 0 8)
    scanned =
        subst (λ n. Scanned f (byte_idx * 8) n size (scan_byte x (byte_idx * 8) size 0 8))
          (omega arith)
          (scan_byte_lem f x (byte_idx * 8) size 0 8 agree_head (λ j lo hi. absurd (omega arith)))

-- `find_first_clear` is the search for the least clear bit among those that lie in the bitmap and in
-- its bytes.
pub find_first_clear_lem :
    (b : Bitmap) → Least (bit_at b.bytes) 0 (min b.size (length b.bytes * 8)) (find_first_clear b)
unfolding find_first_clear
find_first_clear_lem b =
    subst (λ n. Least (bit_at b.bytes) 0 (min b.size (n * 8)) (scan_bytes b.bytes 0 b.size))
      (omega arith)
      (scan_bytes_lem (bit_at b.bytes) b.bytes 0 b.size (λ j h. ap (bit_at b.bytes) (omega arith)))
