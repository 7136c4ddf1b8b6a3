-- ===== src/Kor/Frame/Bitmap.antt =====
-- The bitmap of the frame allocator: what `mark_run` does to each bit and to their number.
use koros.Base.{
  ℕ, zero, suc, ◌+◌, ◌/◌, ◌%◌, ◌≤◌, ◌<◌, ◌≡◌, refl, ◌==◌, Bool, true, false, not, ◌&&◌, ltb, leb,
  if◌then◌else◌, none, some, arith, ℕ_discrete,
}
use koros.Base.Bits.{test_bit, test_bit-put_bit}
use koros.Kor.Frame.{bit_at, put_at, mark_from, first_used, all_used}

pub bit_at-put_at :
    (words : ℕ → ℕ) (index j : ℕ) (value : Bool)
    → bit_at (put_at words index value) j ≡ (if index == j then value else bit_at words j)
unfolding bit_at put_at
bit_at-put_at words index j value = elim (ℕ_discrete (j / 64) (index / 64)) [
  | yes p ↦ ground (
    arith,
    test_bit-put_bit (words (index / 64)) (index % 64) (j % 64) value,
    same_place index j p,
  )
  | no p ↦ ground arith
]
  where
    same_place : (a b : ℕ) → b / 64 ≡ a / 64 → (a % 64 == b % 64) ≡ (a == b)
    same_place a b h = ground arith

pub bit_at-mark_from :
    (words : ℕ → ℕ) (index count j : ℕ) (value : Bool)
    → bit_at (mark_from words index count value) j
      ≡ (if leb index j && ltb j (index + count) then value else bit_at words j)
unfolding mark_from
bit_at-mark_from words index zero j value = ground arith
bit_at-mark_from words index (suc count) j value = ground (
  arith,
  bit_at-mark_from (put_at words index value) (suc index) count j value,
  bit_at-put_at words index j value,
)

pub test_bit-zero : (k : ℕ) → test_bit 0 k ≡ false
unfolding test_bit
test_bit-zero zero = refl
test_bit-zero (suc k) = test_bit-zero k

-- The number of set bits below a bound.
unfoldable pub used_below : (ℕ → ℕ) → ℕ → ℕ
used_below words zero = 0
used_below words (suc n) = (if bit_at words n then 1 else 0) + used_below words n

pub first_used-none :
    (words : ℕ → ℕ) (index count j : ℕ)
    → first_used words index count ≡ none
    → index ≤ j
    → j < index + count
    → bit_at words j ≡ false
unfolding first_used
first_used-none words index zero j h a b = absurd (omega arith)
first_used-none words index (suc count) j h a b = elim (ℕ_discrete index j) [
  | yes p ↦ ground arith
  | no p ↦ ground (arith, first_used-none words (suc index) count j)
]

pub first_used-some :
    (words : ℕ → ℕ) (index count used : ℕ)
    → first_used words index count ≡ some used
    → (index ≤ used) × (used < index + count) × (bit_at words used ≡ true)
unfolding first_used
first_used-some words index zero used h = cc
first_used-some words index (suc count) used h =
    ground (arith, first_used-some words (suc index) count used)

pub all_used_lem :
    (words : ℕ → ℕ) (index count j : ℕ)
    → all_used words index count ≡ true
    → index ≤ j
    → j < index + count
    → bit_at words j ≡ true
unfolding all_used
all_used_lem words index zero j h a b = absurd (omega arith)
all_used_lem words index (suc count) j h a b = elim (ℕ_discrete index j) [
  | yes p ↦ ground arith
  | no p ↦ ground (arith, all_used_lem words (suc index) count j)
]

used_below-put_above :
    (words : ℕ → ℕ) (index n : ℕ) (value : Bool)
    → n ≤ index
    → used_below (put_at words index value) n ≡ used_below words n
unfolding used_below
used_below-put_above words index zero value h = refl
used_below-put_above words index (suc n) value h =
    ground (arith, bit_at-put_at words index n value, used_below-put_above words index n value)

used_below-put_at :
    (words : ℕ → ℕ) (index n : ℕ) (value : Bool)
    → index < n
    → bit_at words index ≡ not value
    → used_below (put_at words index value) n + (if value then 0 else 1)
      ≡ used_below words n + (if value then 1 else 0)
unfolding used_below
used_below-put_at words index zero value h e = absurd (omega arith)
used_below-put_at words index (suc n) value h e = elim (ℕ_discrete index n) [
  | yes p ↦
      ground (arith, bit_at-put_at words index n value, used_below-put_above words index n value)
  | no p ↦ ground (arith, bit_at-put_at words index n value, used_below-put_at words index n value)
]

-- Marking a run that was all clear, or clearing one that was all set, moves the number of set bits by
-- the length of the run.
pub used_below-mark_from :
    (words : ℕ → ℕ) (index count n : ℕ) (value : Bool)
    → index + count ≤ n
    → ((j : ℕ) → index ≤ j → j < index + count → bit_at words j ≡ not value)
    → used_below (mark_from words index count value) n + (if value then 0 else count)
      ≡ used_below words n + (if value then count else 0)
unfolding mark_from
used_below-mark_from words index zero n value h e = ground arith
used_below-mark_from words index (suc count) n value h e = ground (
  arith,
  used_below-mark_from (put_at words index value) (suc index) count n value (omega arith)
      (λ j a b. ground (arith, bit_at-put_at words index j value, e j (omega arith) (omega arith))),
  used_below-put_at words index n value (omega arith) (e index (omega arith) (omega arith)),
)

-- Bits outside the range of a bound do not count.
pub used_below-none : (n : ℕ) → used_below (λ i. 0) n ≡ 0
unfolding used_below bit_at
used_below-none zero = refl
used_below-none (suc n) = ground (arith, used_below-none n, test_bit-zero (n % 64))

pub used_below-le : (words : ℕ → ℕ) (n : ℕ) → used_below words n ≤ n
unfolding used_below
used_below-le words zero = omega arith
used_below-le words (suc n) = ground (arith, used_below-le words n)
