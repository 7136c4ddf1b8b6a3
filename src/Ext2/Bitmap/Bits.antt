-- ===== src/Ext2/Bitmap/Bits.antt =====
-- The three accessors against each other.
use koros.Base.{
  ℕ, zero, suc, ◌/◌, ◌%◌, ◌<◌, ◌==◌, ◌≡◌, Bool, not, ◌||◌, ◌&&◌, if◌then◌else◌, List, [], ◌∷◌,
  length, get_or, set, arith,
}
use koros.Base.Bits.{test_bit, or_bit, clear_bit, test_bit-or_bit, test_bit-clear_bit}

-- Bit `index` of the bytes, with zeros behind the last.
unfoldable pub bit_at : List ℕ → ℕ → Bool
bit_at bytes index = test_bit (get_or bytes (index / 8) 0) (index % 8)

get_or-set :
    (bytes : List ℕ) (i j v : ℕ)
    → i < length bytes
    → get_or (set bytes i v) j 0 ≡ (if i == j then v else get_or bytes j 0)
get_or-set [] i j v h = ground arith
get_or-set (x ∷ xs) zero zero v h = ground arith
get_or-set (x ∷ xs) zero (suc j) v h = ground arith
get_or-set (x ∷ xs) (suc i) zero v h = ground arith
get_or-set (x ∷ xs) (suc i) (suc j) v h = ground (arith, get_or-set xs i j v (omega arith))

same_bit : (i j : ℕ) → i / 8 ≡ j / 8 → i % 8 ≡ j % 8 → i ≡ j
same_bit i j p q = omega arith

pub bit_at-or_bit :
    (bytes : List ℕ) (i j : ℕ)
    → i / 8 < length bytes
    → bit_at (set bytes (i / 8) (or_bit (get_or bytes (i / 8) 0) (i % 8))) j
      ≡ (i == j || bit_at bytes j)
unfolding bit_at
bit_at-or_bit bytes i j h = ground (
  arith,
  get_or-set bytes (i / 8) (j / 8) (or_bit (get_or bytes (i / 8) 0) (i % 8)) h,
  test_bit-or_bit (get_or bytes (i / 8) 0) (i % 8) (j % 8),
  same_bit i j,
)

pub bit_at-clear_bit :
    (bytes : List ℕ) (i j : ℕ)
    → i / 8 < length bytes
    → bit_at (set bytes (i / 8) (clear_bit (get_or bytes (i / 8) 0) (i % 8))) j
      ≡ (not (i == j) && bit_at bytes j)
unfolding bit_at
bit_at-clear_bit bytes i j h = ground (
  arith,
  get_or-set bytes (i / 8) (j / 8) (clear_bit (get_or bytes (i / 8) 0) (i % 8)) h,
  test_bit-clear_bit (get_or bytes (i / 8) 0) (i % 8) (j % 8),
  same_bit i j,
)
